-- ===== src/Mining/Trailing.antt =====
-- What the loop of `mine_new_block` over the chains leaves: the leaves, and the trailing block.
use snowball_dag_experiment.Base.{
  ℕ, zero, suc, ◌+◌, ◌≤◌, ◌<◌, ◌≡◌, refl, subst, ap, ◌∙◌, inl, inr, some, List, ◌∷◌, Text, ltb,
  ltb→lt, lt→ltb, if◌then◌else◌, length, get_elem?, arith, Bool-cases,
}
use snowball_dag_experiment.Base.Outcome.{
  done, deref, or_exit, done-bind, done-deref, done-or_exit, done-injective,
}
use snowball_dag_experiment.Numbers.{blockhash_to_string}
use snowball_dag_experiment.Blocks.{NetworkBlock}
use snowball_dag_experiment.Blockchain.{Blockchain}
use snowball_dag_experiment.Mining.{Tips, tips_loop}

module _ (bc : Blockchain) where
  abbrev leaf_of : ℕ → Text
  leaf_of i = blockhash_to_string (bc.store.hash (bc.deepest i))

  -- What `tips_loop` leaves for `n` chains from `i` on, of which `t` was the trailing block before.
  pub record Surveys (n i t : ℕ) (tips : Tips) : Type 0 where
    pub size : length tips.leaves ≡ n
    pub leaf :
        (j : ℕ)
        → j < n
        → get_elem? tips.leaves j ≡ some (blockhash_to_string (bc.store.hash (bc.deepest (i + j))))
    pub not_before :
        (tnb last : NetworkBlock)
        → bc.store.nb t ≡ some tnb
        → bc.store.nb tips.trailing ≡ some last
        → tnb.next_rank ≤ last.next_rank
    pub highest :
        (j : ℕ) (nb last : NetworkBlock)
        → j < n
        → bc.store.nb (bc.deepest (i + j)) ≡ some nb
        → bc.store.nb tips.trailing ≡ some last
        → nb.next_rank ≤ last.next_rank

  same_header :
      (b : ℕ) (x y : NetworkBlock) → bc.store.nb b ≡ some x → bc.store.nb b ≡ some y → x ≡ y
  same_header b x y p q = cc

  -- One more chain in front, whose tip has the header `nb`.
  Surveys-step :
      (n i t : ℕ) (nb tnb : NetworkBlock) (rest : Tips)
      → bc.store.nb (bc.deepest i) ≡ some nb
      → bc.store.nb t ≡ some tnb
      → Surveys n (suc i) (if ltb tnb.next_rank nb.next_rank then bc.deepest i else t) rest
      → ((last : NetworkBlock)
          → bc.store.nb rest.trailing ≡ some last
          → (tnb.next_rank ≤ last.next_rank) × (nb.next_rank ≤ last.next_rank))
  Surveys-step n i t nb tnb rest at_tip at_t s last at_last =
      elim (Bool-cases (ltb tnb.next_rank nb.next_rank)) [
        | inl later ↦
            let bound = s.not_before nb last (rw later at_tip) at_last in
            (ground (arith, ltb→lt tnb.next_rank nb.next_rank), bound)
        | inr not_later ↦
            let bound = s.not_before tnb last (rw not_later at_t) at_last in
            (bound, ground (arith, lt→ltb tnb.next_rank nb.next_rank))
      ]

  next_leaf :
      (n i : ℕ) (l : List Text)
      → ((j : ℕ) → j < n → get_elem? l j ≡ some (leaf_of (suc i + j)))
      → (j : ℕ) → j < suc n
      → get_elem? (leaf_of i ∷ l) j ≡ some (leaf_of (i + j))
  next_leaf n i l f zero h = ap (λ k. some (leaf_of k)) (omega arith)
  next_leaf n i l f (suc j) h =
      f j (omega arith) ∙ ap (λ k. some (leaf_of k)) {y = i + suc j} (omega arith)

  next_header :
      (n i r : ℕ)
      → ((nb : NetworkBlock) → bc.store.nb (bc.deepest i) ≡ some nb → nb.next_rank ≤ r)
      → ((j : ℕ) (nb : NetworkBlock)
          → j < n
          → bc.store.nb (bc.deepest (suc i + j)) ≡ some nb
          → nb.next_rank ≤ r)
      → (j : ℕ) (nb : NetworkBlock) → j < suc n
      → bc.store.nb (bc.deepest (i + j)) ≡ some nb
      → nb.next_rank ≤ r
  next_header n i r first f zero nb h e =
      first nb (ap (λ k. bc.store.nb (bc.deepest k)) {x = i} (omega arith) ∙ e)
  next_header n i r first f (suc j) nb h e =
      f j nb (omega arith) (ap (λ k. bc.store.nb (bc.deepest k)) {x = suc i + j} (omega arith) ∙ e)

  pub tips_loop_lem :
      (n i t id : ℕ) (tips : Tips) → tips_loop bc n i t id ≡ done tips → Surveys n i t tips
  unfolding tips_loop
  tips_loop_lem zero i t id tips e = subst (Surveys zero i t) (done-injective e) (record {
    size = refl;
    leaf = λ j h. absurd (omega arith);
    not_before = λ tnb last p q. let same = same_header t tnb last p q in rw same (omega arith);
    highest = λ j nb last h p q. absurd (omega arith);
  })
  tips_loop_lem (suc n) i t id tips e =
      let (nb, e1, h1) = done-bind (or_exit (bc.store.nb (bc.deepest i))) _ e in
      let (tnb, e2, h2) = done-bind (deref (bc.store.nb t)) _ h1 in
      let t' = if ltb tnb.next_rank nb.next_rank then bc.deepest i else t in
      let id' = if ltb tnb.next_rank nb.next_rank then i else id in
      let (rest, e3, h3) = done-bind (tips_loop bc n (suc i) t' id') _ h2 in
      let s = tips_loop_lem n (suc i) t' id' rest e3 in
      let at_tip = done-or_exit (bc.store.nb (bc.deepest i)) e1 in
      let at_t = done-deref (bc.store.nb t) e2 in
      let bounds = Surveys-step n i t nb tnb rest at_tip at_t s in
      subst (Surveys (suc n) i t) (done-injective h3) (record {
        size = ap suc s.size;
        leaf = next_leaf n i rest.leaves s.leaf;
        not_before =
            λ x last p q. let same = same_header t x tnb p at_t in rw same (bounds last q).0;
        highest = λ j x last h p q.
            next_header n i last.next_rank
              (λ y at.
                let same = same_header (bc.deepest i) y nb at at_tip in rw same (bounds last q).1)
              (λ k y lt at. s.highest k y last lt at q) j x h p;
      })

  -- The chain of the trailing block is one of those that the loop has seen.
  pub trailing_id_below :
      (n i t id : ℕ) (tips : Tips)
      → id < i + n
      → tips_loop bc n i t id ≡ done tips
      → tips.trailing_id < i + n
  unfolding tips_loop
  trailing_id_below zero i t id tips h e =
      subst (λ x. x.trailing_id < i + zero) (done-injective e) h
  trailing_id_below (suc n) i t id tips h e =
      let (nb, _, h1) = done-bind (or_exit (bc.store.nb (bc.deepest i))) _ e in
      let (tnb, _, h2) = done-bind (deref (bc.store.nb t)) _ h1 in
      let later = ltb tnb.next_rank nb.next_rank in
      let t' = if later then bc.deepest i else t in
      let id' = if later then i else id in
      let (rest, e3, h3) = done-bind (tips_loop bc n (suc i) t' id') _ h2 in
      let below : id' < suc i + n = elim (Bool-cases later) [
        | inl q ↦ rw q (omega arith)
        | inr q ↦ rw q (omega arith)
      ] in
      let s = trailing_id_below n (suc i) t' id' rest below e3 in
      subst (λ x. x.trailing_id < i + suc n) (done-injective h3) (omega (arith, s))
