-- ===== src/SideChains/Found.antt =====
-- After each of the ways to add a block the search finds it.
use snowball_dag_experiment.Base.{
  ℕ, ◌<◌, ◌≡◌, refl, sym, ap, ◌∙◌, ◌≢◌, ◌⊎◌, inl, inr, true, Option, none, some, List, [], ◌∷◌,
  ◌++◌, ◌==◌, if◌then◌else◌, arith, length, Option-cases,
}
use snowball_dag_experiment.HashTree.{Tree, null, node, find_block_by_hash, insert_subtree_by_hash}
use snowball_dag_experiment.HashTree.Ordered.{or_else}
use snowball_dag_experiment.HashTree.Union.{find-insert_subtree_by_hash}
use snowball_dag_experiment.Blocks.{Store, bootstrap_chain}
use snowball_dag_experiment.Blocks.Links.{
  Extends-bootstrap_chain, TreeOk, TreeOk-Extends, find-Extends, linked, grown,
  add_block_by_parent_hash_lem, find-grown,
}
use snowball_dag_experiment.SideChains.{
  SideChain, remove_one_chain, find_incomplete_block, chain_with, tree_at, set_tree, restart,
  add_new_chain, add_to_chain, link_root, add_above_chain, link_below, join_chains,
  add_block_to_incomplete,
}
use snowball_dag_experiment.SideChains.Search.{
  SidesOk, TreeOk-tree_at, chain_with-some, find_incomplete_block_at, tree_at-set_tree,
  tree_at-restart, tree_at-remove_one_chain, tree_at-append,
}
use snowball_dag_experiment.SideChains.Added.{
  link_root-Extends, link_below-Extends, merged, TreeOk-single, single_at,
}

abbrev pub FoundIn : Store × List SideChain → ℕ → Type 0
FoundIn r h = (b : ℕ) × (find_incomplete_block r.0 r.1 h ≡ some b)

-- A result of two searches, the second of which found something.
or_else-some : (a o : Option ℕ) (b : ℕ) → o ≡ some b → (c : ℕ) × (or_else a o ≡ some c)
or_else-some none o b e = (b, e)
or_else-some (some x) o b e = (x, refl)

==_refl : (h : ℕ) → (h == h) ≡ true
==_refl h = ground arith

module _ (s : Store) where
  -- The new block is found in the tree that it went into.
  pub grown_finds :
      (t : Tree) (hash p : ℕ)
      → TreeOk s t
      → (b : ℕ) × (find_block_by_hash (linked s hash p).hash (grown s t hash) hash ≡ some b)
  grown_finds t hash p ok =
      let (c, e) =
        or_else-some (find_block_by_hash s.hash t hash) (if hash == hash then some s.next else none)
          s.next (rw (==_refl hash) refl) in
      (c, find-grown s t hash p ok hash ∙ e)

  -- What a subtree holds is found in the merged tree.
  pub merged_finds :
      (r t : Tree) (h b : ℕ)
      → TreeOk s t
      → find_block_by_hash s.hash t h ≡ some b
      → (c : ℕ) × (find_block_by_hash s.hash (insert_subtree_by_hash s.hash r t) h ≡ some c)
  merged_finds r t h b ok e =
      let (c, f) =
        or_else-some (find_block_by_hash s.hash r h) (find_block_by_hash s.hash t h) b e in
      (c, find-insert_subtree_by_hash s.hash t r h ok.ordered ∙ f)

module _ (s : Store) (l : List SideChain) (ok : SidesOk s l) where
  FoundIn-add_new_chain : (parent child : ℕ) → FoundIn (add_new_chain s l parent child) child
  unfolding add_new_chain
  FoundIn-add_new_chain parent child =
      let s1 = bootstrap_chain s parent in
      let t = node null s.next null in
      let (b, e) = grown_finds s1 t child s.next (TreeOk-single s l ok parent) in
      rw
        (
          add_block_by_parent_hash_lem s1 t child s.next parent (single_at s l ok parent),
          add_new_chain,
        )
        (find_incomplete_block_at (linked s1 child s.next)
          (l ++ (record { b = grown s1 t child; last_asked = 0; no_asks = 0 } ∷ [])) child
          (length l) b
          (rw (tree_at-append l (record { b = grown s1 t child; last_asked = 0; no_asks = 0 })) e))

  FoundIn-add_to_chain :
      (ph parent child p : ℕ)
      → ph < length l
      → find_block_by_hash s.hash (tree_at l ph) parent ≡ some p
      → FoundIn (add_to_chain s l ph parent child) child
  unfolding add_to_chain
  FoundIn-add_to_chain ph parent child p lt at =
      let t = tree_at l ph in
      let (b, e) = grown_finds s t child p (TreeOk-tree_at s l ph ok) in
      rw (add_block_by_parent_hash_lem s t child p parent at, add_to_chain)
        (find_incomplete_block_at _ (set_tree l ph (grown s t child)) child ph b
          (rw (tree_at-set_tree l ph (grown s t child) lt) e))

  FoundIn-add_above_chain :
      (ch parent child b : ℕ)
      → ch < length l
      → find_block_by_hash s.hash (tree_at l ch) child ≡ some b
      → FoundIn (add_above_chain s l ch parent) child
  unfolding add_above_chain
  FoundIn-add_above_chain ch parent child b lt at =
      let s1 = bootstrap_chain s parent in
      let t = tree_at l ch in
      let t_ok = TreeOk-tree_at s l ch ok in
      let e1 = Extends-bootstrap_chain s parent in
      let t_ok1 = TreeOk-Extends s s1 e1 t t_ok in
      let top = TreeOk-single s l ok parent in
      let bl = insert_subtree_by_hash s1.hash (node null s.next null) t in
      let (c, f) =
        merged_finds s1 (node null s.next null) t child b t_ok1
          (find-Extends s s1 e1 t t_ok child ∙ at) in
      let e2 = link_root-Extends s1 s.next t in
      find_incomplete_block_at (link_root s1 s.next t) (restart l ch bl) child ch c (
        rw (tree_at-restart l ch bl lt) (
          find-Extends s1 (link_root s1 s.next t) e2 bl
            (merged s1 (node null s.next null) t top t_ok1) child
          ∙ f))

  FoundIn-join_chains :
      (ch ph parent child b : ℕ)
      → ph < length l
      → ch ≢ ph
      → find_block_by_hash s.hash (tree_at l ch) child ≡ some b
      → FoundIn (join_chains s l ch ph parent) child
  unfolding join_chains
  FoundIn-join_chains ch ph parent child b lt ne at =
      let t = tree_at l ch in
      let t_ok = TreeOk-tree_at s l ch ok in
      let r_ok = TreeOk-tree_at s l ph ok in
      let bl = insert_subtree_by_hash s.hash (tree_at l ph) t in
      let (c, f) = merged_finds s (tree_at l ph) t child b t_ok at in
      let (j, place) = tree_at-remove_one_chain (set_tree l ph bl) ch ph ne in
      let e = link_below-Extends s bl parent t in
      find_incomplete_block_at (link_below s bl parent t) (remove_one_chain (set_tree l ph bl) ch)
        child j c
        (rw (place, tree_at-set_tree l ph bl lt)
          (find-Extends s (link_below s bl parent t) e bl (merged s (tree_at l ph) t r_ok t_ok)
              child
            ∙ f))

  -- A block is found in the side chains after it was added, unless it and its parent were both in
  -- one chain already.
  pub FoundIn-add_block_to_incomplete :
      (parent child : ℕ)
      → (chain_with s l child ≡ none) ⊎ (chain_with s l child ≢ chain_with s l parent)
      → FoundIn (add_block_to_incomplete s l parent child) child
  unfolding add_block_to_incomplete
  FoundIn-add_block_to_incomplete parent child apart = elim (Option-cases (chain_with s l child)) [
    | inl no_child ↦ elim (Option-cases (chain_with s l parent)) [
      | inl no_parent ↦
          rw (no_child, no_parent, add_block_to_incomplete) (FoundIn-add_new_chain parent child)
      | inr (ph, at) ↦
          let (lt, (p, there)) = chain_with-some s l parent ph at in
          rw (no_child, at, add_block_to_incomplete)
            (FoundIn-add_to_chain ph parent child p lt there)
    ]
    | inr (ch, at_ch) ↦
        let (lt_ch, (b, there_ch)) = chain_with-some s l child ch at_ch in
        elim (Option-cases (chain_with s l parent)) [
          | inl no_parent ↦
              rw (at_ch, no_parent, add_block_to_incomplete)
                (FoundIn-add_above_chain ch parent child b lt_ch there_ch)
          | inr (ph, at) ↦
              let (lt, _) = chain_with-some s l parent ph at in
              rw (at_ch, at, add_block_to_incomplete)
                (FoundIn-join_chains ch ph parent child b lt (different ch ph at_ch at apart)
                  there_ch)
        ]
  ]
    where
      different :
          (ch ph : ℕ)
          → chain_with s l child ≡ some ch
          → chain_with s l parent ≡ some ph
          → (chain_with s l child ≡ none) ⊎ (chain_with s l child ≢ chain_with s l parent)
          → ch ≢ ph
      different ch ph p q (inl e) same = cc
      different ch ph p q (inr ne) same = ne (p ∙ ap some same ∙ sym q)
