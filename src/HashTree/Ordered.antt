-- ===== src/HashTree/Ordered.antt =====
-- What a search finds after an insertion, and the order of the hashes.
use snowball_dag_experiment.Base.{
  ℕ, ◌≤◌, ◌<◌, ◌≡◌, refl, Option, none, some, ltb, leb, ◌==◌, subst, inl, inr, Bool-cases,
  if◌then◌else◌, arith,
}
use snowball_dag_experiment.HashTree.{
  Tree, null, node, find_block_by_hash, insert_block_only_by_hash, insert_one_node,
}

-- The first of two results of a search.
abbrev pub or_else : Option ℕ → Option ℕ → Option ℕ
or_else none o = o
or_else (some b) o = some b

abbrev pub AllBlocks {ℓ} : (ℕ → Type ℓ) → Tree → Type ℓ
AllBlocks P null = Unit
AllBlocks P (node l b r) = P b × AllBlocks P l × AllBlocks P r

pub AllBlocks-mono {ℓ κ} :
    {P : ℕ → Type ℓ} {Q : ℕ → Type κ}
    → (t : Tree) → ((b : ℕ) → P b → Q b)
    → AllBlocks P t
    → AllBlocks Q t
AllBlocks-mono null f h = tt
AllBlocks-mono (node l b r) f h = (f b h.0, AllBlocks-mono l f h.1, AllBlocks-mono r f h.2)

module _ (key : ℕ → ℕ) where
  -- No larger hashes to the left, larger ones to the right.
  abbrev pub Ordered : Tree → Type 0
  Ordered null = Unit {0}
  Ordered (node l b r) =
      AllBlocks (λ c. key c ≤ key b) l × AllBlocks (λ c. key b < key c) r × Ordered l × Ordered r

  pub find_hash : (t : Tree) (hash b : ℕ) → find_block_by_hash key t hash ≡ some b → key b ≡ hash
  unfolding find_block_by_hash
  find_hash null hash b h = absurd (ground arith)
  find_hash (node l c r) hash b h = ground (arith, find_hash l hash b, find_hash r hash b)

  pub AllBlocks-find {ℓ} :
      (P : ℕ → Type ℓ) (t : Tree) (hash b : ℕ)
      → AllBlocks P t
      → find_block_by_hash key t hash ≡ some b
      → P b
  unfolding find_block_by_hash
  AllBlocks-find P null hash b a h = absurd (ground arith)
  AllBlocks-find P (node l c r) hash b a h = elim (Bool-cases (ltb hash (key c))) [
    | inl left ↦ AllBlocks-find P l hash b a.1 (ground arith)
    | inr ge ↦ elim (Bool-cases (ltb (key c) hash)) [
      | inl right ↦ AllBlocks-find P r hash b a.2 (ground arith)
      | inr le ↦ let same : c ≡ b = ground arith in subst P same a.0
    ]
  ]

  -- After `insert_block_only_by_hash` a search finds what it found before, or else the new block, under
  -- its hash.
  pub find-insert_block_only_by_hash :
      (t : Tree) (hash new h : ℕ)
      → key new ≡ hash
      → find_block_by_hash key (insert_block_only_by_hash key t hash new) h
        ≡ or_else (find_block_by_hash key t h) (if hash == h then some new else none)
  unfolding find_block_by_hash insert_block_only_by_hash
  find-insert_block_only_by_hash null hash new h e = ground arith
  find-insert_block_only_by_hash (node l b r) hash new h e = ground (
    arith,
    find-insert_block_only_by_hash l hash new h e,
    find-insert_block_only_by_hash r hash new h e,
  )

  pub find-insert_one_node :
      (t : Tree) (s h : ℕ)
      → find_block_by_hash key (insert_one_node key t (node null s null)) h
        ≡ or_else (find_block_by_hash key t h) (if key s == h then some s else none)
  unfolding find_block_by_hash insert_one_node
  find-insert_one_node null s h = ground arith
  find-insert_one_node (node l b r) s h =
      ground (arith, find-insert_one_node l s h, find-insert_one_node r s h)

  pub AllBlocks-insert :
      (P : ℕ → Type 0) (t : Tree) (hash new : ℕ)
      → P new
      → AllBlocks P t
      → AllBlocks P (insert_block_only_by_hash key t hash new)
  unfolding insert_block_only_by_hash
  AllBlocks-insert P null hash new p a = (p, tt, tt)
  AllBlocks-insert P (node l b r) hash new p a =
      ground (arith, AllBlocks-insert P l hash new p a.1, AllBlocks-insert P r hash new p a.2)

  pub AllBlocks-insert_one_node :
      (P : ℕ → Type 0) (t : Tree) (s : ℕ)
      → P s
      → AllBlocks P t
      → AllBlocks P (insert_one_node key t (node null s null))
  unfolding insert_one_node
  AllBlocks-insert_one_node P null s p a = (p, tt, tt)
  AllBlocks-insert_one_node P (node l b r) s p a =
      ground (arith, AllBlocks-insert_one_node P l s p a.1, AllBlocks-insert_one_node P r s p a.2)

  pub Ordered-insert_block_only_by_hash :
      (t : Tree) (hash new : ℕ)
      → key new ≡ hash
      → Ordered t
      → Ordered (insert_block_only_by_hash key t hash new)
  unfolding insert_block_only_by_hash
  Ordered-insert_block_only_by_hash null hash new e o = (tt, tt, tt, tt)
  Ordered-insert_block_only_by_hash (node l b r) hash new e o =
      elim (Bool-cases (leb hash (key b))) [
        | inl left ↦ rw left (
          AllBlocks-insert (λ c. key c ≤ key b) l hash new (ground arith) o.0,
          o.1,
          Ordered-insert_block_only_by_hash l hash new e o.2,
          o.3,
        )
        | inr right ↦ rw right (
          o.0,
          AllBlocks-insert (λ c. key b < key c) r hash new (ground arith) o.1,
          o.2,
          Ordered-insert_block_only_by_hash r hash new e o.3,
        )
      ]

  pub Ordered-insert_one_node :
      (t : Tree) (s : ℕ) → Ordered t → Ordered (insert_one_node key t (node null s null))
  unfolding insert_one_node
  Ordered-insert_one_node null s o = (tt, tt, tt, tt)
  Ordered-insert_one_node (node l b r) s o = elim (Bool-cases (ltb (key s) (key b))) [
    | inl left ↦ rw left (
      AllBlocks-insert_one_node (λ c. key c ≤ key b) l s (ground arith) o.0,
      o.1,
      Ordered-insert_one_node l s o.2,
      o.3,
    )
    | inr ge ↦ elim (Bool-cases (ltb (key b) (key s))) [
      | inl right ↦
          rw (ge, right)
            (
              o.0,
              AllBlocks-insert_one_node (λ c. key b < key c) r s (ground arith) o.1,
              o.2,
              Ordered-insert_one_node r s o.3,
            )
      | inr le ↦ rw (ge, le) o
    ]
  ]

AllBlocks-zip {ℓ κ μ} :
    (P : ℕ → Type ℓ) (Q : ℕ → Type κ) {R : ℕ → Type μ} (t : Tree)
    → ((b : ℕ) → P b → Q b → R b)
    → AllBlocks P t
    → AllBlocks Q t
    → AllBlocks R t
AllBlocks-zip P Q null f p q = tt
AllBlocks-zip P Q (node l b r) f p q =
    (f b p.0 q.0, AllBlocks-zip P Q l f p.1 q.1, AllBlocks-zip P Q r f p.2 q.2)

-- Where two key functions agree on the blocks of a tree, so do the search and the order.
module _ (key key' : ℕ → ℕ) where
  pub find_congr :
      (t : Tree) (h : ℕ)
      → AllBlocks (λ b. key' b ≡ key b) t
      → find_block_by_hash key' t h ≡ find_block_by_hash key t h
  unfolding find_block_by_hash
  find_congr null h a = refl
  find_congr (node l b r) h a = rw (a.0, find_congr l h a.1, find_congr r h a.2) refl

  pub Ordered_congr :
      (t : Tree) → AllBlocks (λ b. key' b ≡ key b) t → Ordered key t → Ordered key' t
  Ordered_congr null a o = tt
  Ordered_congr (node l b r) a o = (
    AllBlocks-zip (λ c. key' c ≡ key c) (λ c. key c ≤ key b) l (λ c e h. omega (arith, a.0)) a.1
        o.0,
    AllBlocks-zip (λ c. key' c ≡ key c) (λ c. key b < key c) r (λ c e h. omega (arith, a.0)) a.2
        o.1,
    Ordered_congr l a.1 o.2,
    Ordered_congr r a.2 o.3,
  )
