-- ===== src/Blocks/Depth.antt =====
-- `find_max_depth` finds a deepest block below a block, and ends when it has fuel for the height.
use snowball_dag_experiment.Base.{
  ℕ, zero, suc, ◌≤◌, ◌≡◌, refl, subst, inl, inr, Bool, true, false, List, [], ◌∷◌, ltb,
  if◌then◌else◌, arith, All, In, Bool-cases,
}
use snowball_dag_experiment.Base.Outcome.{Outcome, done, done-bind}
use snowball_dag_experiment.Blocks.{Store, depth_of, max_children, find_max_depth}

-- The second block is the first or lies below it by `child` and `sibling` pointers.
pub data Below (s : Store) : ℕ → ℕ → Type 0 where
  here : (r : ℕ) → Below s r r
  down : (r c d : ℕ) → In c (s.children r) → Below s c d → Below s r d

module _ (s : Store) where
  -- If `d` has a header then `m` has one, with at least its depth.
  abbrev pub NoDeeper : ℕ → ℕ → Type 0
  NoDeeper d m = (n : ℕ) → depth_of s d ≡ done n → (k : ℕ) × (depth_of s m ≡ done k) × (n ≤ k)

  pub NoDeeper-trans : (a b c : ℕ) → NoDeeper a b → NoDeeper b c → NoDeeper a c
  NoDeeper-trans a b c f g n e =
      let (k, e1, l1) = f n e in let (j, e2, l2) = g k e1 in (j, e2, omega arith)

  -- What one choice of the loop keeps.
  unfoldable pub better : ℕ → ℕ → ℕ → ℕ → ℕ
  better d e fm mx = if ltb e d then fm else mx

  pub better-NoDeeper :
      (d e fm mx : ℕ)
      → depth_of s fm ≡ done d
      → depth_of s mx ≡ done e
      → NoDeeper fm (better d e fm mx) × NoDeeper mx (better d e fm mx)
  unfolding better
  better-NoDeeper d e fm mx p q = elim (Bool-cases (ltb e d)) [
    | inl gt ↦ rw gt (λ n h. (n, h, omega arith), λ n h. (d, p, ground arith))
    | inr le ↦ rw le (λ n h. (e, q, ground arith), λ n h. (n, h, omega arith))
  ]

  module _ (rec : ℕ → Outcome ℕ) where
    max_children-max :
        ((c m : ℕ) → rec c ≡ done m → (d : ℕ) → Below s c d → NoDeeper d m)
        → (mx : ℕ) (cs : List ℕ) (m : ℕ) → max_children s rec mx cs ≡ done m
        → NoDeeper mx m × ((c : ℕ) → In c cs → (d : ℕ) → Below s c d → NoDeeper d m)
    unfolding max_children better
    max_children-max ih mx [] m e = (
      λ n h. (n, subst (λ x. depth_of s x ≡ done n) (ground arith) h, omega arith),
      λ c i. absurd i,
    )
    max_children-max ih mx (c ∷ cs) m e =
        let (fm, e1, h1) = done-bind (rec c) _ e in
        let (d, e2, h2) = done-bind (depth_of s fm) _ h1 in
        let (x, e3, h3) = done-bind (depth_of s mx) _ h2 in
        let (first, others) = max_children-max ih (better d x fm mx) cs m h3 in
        let (new, old) = better-NoDeeper d x fm mx e2 e3 in
        (
          NoDeeper-trans mx (better d x fm mx) m old first,
          λ b i q u. elim i [
            | inl same ↦
                NoDeeper-trans q fm m (ih c fm e1 q (subst (λ y. Below s y q) same u))
                  (NoDeeper-trans fm (better d x fm mx) m new first)
            | inr later ↦ others b later q u
          ],
        )

  -- A finished `find_max_depth` has found a block with a header at least as deep as each header from
  -- `r` down.
  pub find_max_depth-NoDeeper :
      (fuel r m : ℕ) → find_max_depth fuel s r ≡ done m → (d : ℕ) → Below s r d → NoDeeper d m
  unfolding find_max_depth
  find_max_depth-NoDeeper zero r m e d b = absurd (cc)
  find_max_depth-NoDeeper (suc fuel) r m e d (here _) =
      (max_children-max (find_max_depth fuel s) (λ c n h. find_max_depth-NoDeeper fuel c n h) r
        (s.children r) m e).0
  find_max_depth-NoDeeper (suc fuel) r m e d (down _ c _ i b) =
      (max_children-max (find_max_depth fuel s) (λ k n h. find_max_depth-NoDeeper fuel k n h) r
          (s.children r) m e).1
        c i d b

  max_children-Below :
      (rec : ℕ → Outcome ℕ) (r : ℕ)
      → ((c m : ℕ) → rec c ≡ done m → Below s c m)
      → (mx : ℕ) (cs : List ℕ) (m : ℕ) → Below s r mx
      → ((c : ℕ) → In c cs → In c (s.children r))
      → max_children s rec mx cs ≡ done m
      → Below s r m
  unfolding max_children
  max_children-Below rec r ih mx [] m b sub e = subst (Below s r) (ground arith) b
  max_children-Below rec r ih mx (c ∷ cs) m b sub e =
      let (fm, e1, h1) = done-bind (rec c) _ e in
      let (d, e2, h2) = done-bind (depth_of s fm) _ h1 in
      let (x, e3, h3) = done-bind (depth_of s mx) _ h2 in
      max_children-Below rec r ih (if ltb x d then fm else mx) cs m
        (either (ltb x d) (down r c fm (sub c (inl refl)) (ih c fm e1)) b) (λ k i. sub k (inr i)) h3
    where
      either : (t : Bool) {y z : ℕ} → Below s r y → Below s r z → Below s r (if t then y else z)
      either true p q = p
      either false p q = q

  -- What a finished `find_max_depth` finds is `r` or lies below it.
  pub find_max_depth-Below : (fuel r m : ℕ) → find_max_depth fuel s r ≡ done m → Below s r m
  unfolding find_max_depth
  find_max_depth-Below zero r m e = absurd (cc)
  find_max_depth-Below (suc fuel) r m e =
      max_children-Below (find_max_depth fuel s) r (λ c n h. find_max_depth-Below fuel c n h) r
        (s.children r) m (here r) (λ c i. i) e

  -- The blocks from `r` down stand at most `n` levels deep and have headers.
  abbrev pub Height : ℕ → ℕ → Type 0
  Height zero r = ⊥
  Height (suc n) r = ((d : ℕ) × (depth_of s r ≡ done d)) × All (Height n) (s.children r)

  Height-depth : (n r : ℕ) → Height n r → (d : ℕ) × (depth_of s r ≡ done d)
  Height-depth zero r h = absurd h
  Height-depth (suc n) r h = h.0

  max_children_ends :
      (n : ℕ) (rec : ℕ → Outcome ℕ)
      → ((c : ℕ) → Height n c → (m d : ℕ) × (rec c ≡ done m) × (depth_of s m ≡ done d))
      → (mx e : ℕ) (cs : List ℕ) → depth_of s mx ≡ done e
      → All (Height n) cs
      → (m d : ℕ) × (max_children s rec mx cs ≡ done m) × (depth_of s m ≡ done d)
  unfolding max_children
  max_children_ends n rec ih mx e [] p h = (mx, e, refl, p)
  max_children_ends n rec ih mx e (c ∷ cs) p h =
      let (fm, d, e1, e2) = ih c h.0 in
      let (m, k, run, has) =
        max_children_ends n rec ih (if ltb e d then fm else mx) (if ltb e d then d else e) cs
          (chosen (ltb e d) fm mx e2 p) h.1 in
      (m, k, rw (e1, e2, p) run, has)
    where
      chosen :
          (t : Bool) (x y : ℕ) {a b : ℕ}
          → depth_of s x ≡ done a
          → depth_of s y ≡ done b
          → depth_of s (if t then x else y) ≡ done (if t then a else b)
      chosen true x y p q = p
      chosen false x y p q = q

  -- With fuel for the height of the blocks from `r` down, all of which have headers, `find_max_depth`
  -- finishes, and what it finds has a header.
  pub find_max_depth_ends :
      (n r : ℕ) → Height n r → (m d : ℕ) × (find_max_depth n s r ≡ done m) × (depth_of s m ≡ done d)
  unfolding find_max_depth
  find_max_depth_ends zero r h = absurd h
  find_max_depth_ends (suc n) r h =
      max_children_ends n (find_max_depth n s) (λ c k. find_max_depth_ends n c k) r h.0.0
        (s.children r) h.0.1 h.1
