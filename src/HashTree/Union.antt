-- ===== src/HashTree/Union.antt =====
-- `insert_subtree_by_hash` of Blockchain.cpp is the union of two finite maps from hashes to blocks.
use snowball_dag_experiment.Base.{
  ℕ, ◌≤◌, ◌<◌, ◌≡◌, refl, ap, sym, ◌∙◌, Option, none, some, ◌==◌, if◌then◌else◌, arith, inl, inr,
  Option-cases,
}
use snowball_dag_experiment.HashTree.{
  Tree, null, node, find_block_by_hash, insert_one_node, insert_subtree_by_hash,
}
use snowball_dag_experiment.HashTree.Ordered.{
  or_else, AllBlocks, Ordered, find_hash, AllBlocks-find, find-insert_one_node,
  AllBlocks-insert_one_node, Ordered-insert_one_node,
}

or_else-none : (a : Option ℕ) → or_else a none ≡ a
or_else-none none = refl
or_else-none (some x) = refl

regroup :
    (x a b c : Option ℕ) {d : Option ℕ}
    → or_else (or_else a b) c ≡ d
    → or_else (or_else (or_else x a) b) c ≡ or_else x d
regroup none a b c p = p
regroup (some y) a b c p = refl

module _ (key : ℕ → ℕ) where
  -- Outside the hashes of a tree a search finds nothing.
  find_above :
      (t : Tree) (k h : ℕ)
      → AllBlocks (λ c. key c ≤ k) t
      → k < h
      → find_block_by_hash key t h ≡ none
  find_above t k h a le = elim (Option-cases (find_block_by_hash key t h)) [
    | inl e ↦ e
    | inr (b, e) ↦
        absurd (omega (arith, AllBlocks-find key (λ c. key c ≤ k) t h b a e, find_hash key t h b e))
  ]

  find_below :
      (t : Tree) (k h : ℕ)
      → AllBlocks (λ c. k < key c) t
      → h ≤ k
      → find_block_by_hash key t h ≡ none
  find_below t k h a le = elim (Option-cases (find_block_by_hash key t h)) [
    | inl e ↦ e
    | inr (b, e) ↦
        absurd (omega (arith, AllBlocks-find key (λ c. k < key c) t h b a e, find_hash key t h b e))
  ]

  -- A search of an ordered tree as a search of its parts in any order.
  find-node :
      (l : Tree) (b : ℕ) (r : Tree) (h : ℕ)
      → Ordered key (node l b r)
      → or_else
          (or_else (if key b == h then some b else none) (find_block_by_hash key l h))
          (find_block_by_hash key r h)
        ≡ find_block_by_hash key (node l b r) h
  unfolding find_block_by_hash
  find-node l b r h o = ground (arith, find_above l (key b) h o.0, find_below r (key b) h o.1)

  -- A search of the merged tree finds what a search of `r` finds, or else what one of the ordered
  -- `subtree` finds.
  pub find-insert_subtree_by_hash :
      (subtree r : Tree) (h : ℕ)
      → Ordered key subtree
      → find_block_by_hash key (insert_subtree_by_hash key r subtree) h
        ≡ or_else (find_block_by_hash key r h) (find_block_by_hash key subtree h)
  unfolding insert_subtree_by_hash find_block_by_hash
  find-insert_subtree_by_hash null r h o = sym (or_else-none (find_block_by_hash key r h))
  find-insert_subtree_by_hash (node l b rt) r h o =
      let r1 = insert_one_node key r (node null b null) in
      let r2 = insert_subtree_by_hash key r1 l in
      find-insert_subtree_by_hash rt r2 h o.3
      ∙ ap (λ x. or_else x (find_block_by_hash key rt h))
          (find-insert_subtree_by_hash l r1 h o.2
            ∙ ap (λ x. or_else x (find_block_by_hash key l h)) (find-insert_one_node key r b h))
      ∙ regroup (find_block_by_hash key r h) _ _ _ (find-node l b rt h o)

  pub AllBlocks-insert_subtree_by_hash :
      (P : ℕ → Type 0) (subtree r : Tree)
      → AllBlocks P subtree
      → AllBlocks P r
      → AllBlocks P (insert_subtree_by_hash key r subtree)
  unfolding insert_subtree_by_hash
  AllBlocks-insert_subtree_by_hash P null r a c = c
  AllBlocks-insert_subtree_by_hash P (node l b rt) r a c =
      AllBlocks-insert_subtree_by_hash P rt _ a.2
        (AllBlocks-insert_subtree_by_hash P l _ a.1 (AllBlocks-insert_one_node key P r b a.0 c))

  -- `insert_subtree_by_hash` keeps the order of the tree that it inserts into.
  pub Ordered-insert_subtree_by_hash :
      (subtree r : Tree) → Ordered key r → Ordered key (insert_subtree_by_hash key r subtree)
  unfolding insert_subtree_by_hash
  Ordered-insert_subtree_by_hash null r o = o
  Ordered-insert_subtree_by_hash (node l b rt) r o =
      Ordered-insert_subtree_by_hash rt _
        (Ordered-insert_subtree_by_hash l _ (Ordered-insert_one_node key r b o))
