-- ===== src/SideChains/Added.antt =====
-- What a new block does to the side chains: the search trees stay in order, and the block is there.
use snowball_dag_experiment.Base.{
  ℕ, ◌<◌, ◌≡◌, inl, inr, some, List, arith, Option-cases, All-append,
}
use snowball_dag_experiment.HashTree.{Tree, null, node, find_block_by_hash, insert_subtree_by_hash}
use snowball_dag_experiment.HashTree.Union.{
  AllBlocks-insert_subtree_by_hash, Ordered-insert_subtree_by_hash,
}
use snowball_dag_experiment.Blocks.{Store, bootstrap_chain, update}
use snowball_dag_experiment.Blocks.Links.{
  Extends, Extends-refl, Extends-trans, Extends-bootstrap_chain, Extends-link_child, TreeOk,
  TreeOk-Extends, linked, add_block_by_parent_hash_lem, Extends-linked, TreeOk-grown,
}
use snowball_dag_experiment.SideChains.{
  SideChain, chain_with, tree_at, add_new_chain, add_to_chain, link_root, add_above_chain,
  link_below, join_chains, add_block_to_incomplete,
}
use snowball_dag_experiment.SideChains.Search.{
  SidesOk, SidesOk-Extends, TreeOk-tree_at, SidesOk-set_tree, SidesOk-restart,
  SidesOk-remove_one_chain, chain_with-some,
}

-- The known blocks and the order of all trees are kept.
abbrev pub Kept : Store → Store × List SideChain → Type 0
Kept s r = Extends s r.0 × SidesOk r.0 r.1

pub link_root-Extends : (s : Store) (p : ℕ) (t : Tree) → Extends s (link_root s p t)
unfolding link_root
link_root-Extends s p null = Extends-refl s
link_root-Extends s p (node l b r) = Extends-link_child s p b

pub link_below-Extends :
    (s : Store) (bl : Tree) (h : ℕ) (t : Tree) → Extends s (link_below s bl h t)
unfolding link_below
link_below-Extends s bl h t = elim (Option-cases (find_block_by_hash s.hash bl h)) [
  | inl e ↦ rw (e, link_below) (Extends-refl s)
  | inr (p, e) ↦ rw (e, link_below) (link_root-Extends s p t)
]

pub merged :
    (s : Store) (r t : Tree)
    → TreeOk s r
    → TreeOk s t
    → TreeOk s (insert_subtree_by_hash s.hash r t)
merged s r t r_ok t_ok = record {
  ordered = Ordered-insert_subtree_by_hash s.hash t r r_ok.ordered;
  allocated =
      AllBlocks-insert_subtree_by_hash s.hash (λ b. b < s.next) t r t_ok.allocated r_ok.allocated;
}

module _ (s : Store) (l : List SideChain) (ok : SidesOk s l) where
  add_to_chain-Kept :
      (ph parent child p : ℕ)
      → find_block_by_hash s.hash (tree_at l ph) parent ≡ some p
      → Kept s (add_to_chain s l ph parent child)
  unfolding add_to_chain
  add_to_chain-Kept ph parent child p at =
      rw (add_block_by_parent_hash_lem s (tree_at l ph) child p parent at, add_to_chain)
        (
          Extends-linked s (tree_at l ph) child p,
          SidesOk-set_tree _ l ph _
              (TreeOk-grown s (tree_at l ph) child p (TreeOk-tree_at s l ph ok))
              (SidesOk-Extends s _ l (Extends-linked s (tree_at l ph) child p) ok),
        )

  pub TreeOk-single : (hash : ℕ) → TreeOk (bootstrap_chain s hash) (node null s.next null)
  unfolding bootstrap_chain
  TreeOk-single hash = record { ordered = (tt, tt, tt, tt); allocated = (omega arith, tt, tt) }

  pub single_at :
      (hash : ℕ)
      → find_block_by_hash (bootstrap_chain s hash).hash (node null s.next null) hash ≡ some s.next
  unfolding bootstrap_chain find_block_by_hash update
  single_at hash = ground arith

  add_new_chain-Kept : (parent child : ℕ) → Kept s (add_new_chain s l parent child)
  unfolding add_new_chain
  add_new_chain-Kept parent child =
      let s1 = bootstrap_chain s parent in
      let t = node null s.next null in
      let e =
        Extends-trans s s1 _ (Extends-bootstrap_chain s parent)
          (Extends-linked s1 t child s.next) in
      rw (add_block_by_parent_hash_lem s1 t child s.next parent (single_at parent), add_new_chain)
        (
          e,
          All-append (λ c. TreeOk (linked s1 child s.next) c.b) l _ (SidesOk-Extends s _ l e ok)
              (TreeOk-grown s1 t child s.next (TreeOk-single parent), tt),
        )

  add_above_chain-Kept : (ch parent : ℕ) → Kept s (add_above_chain s l ch parent)
  unfolding add_above_chain
  add_above_chain-Kept ch parent =
      let s1 = bootstrap_chain s parent in
      let t = tree_at l ch in
      let e1 = Extends-bootstrap_chain s parent in
      let e2 = link_root-Extends s1 s.next t in
      let t_ok = TreeOk-Extends s s1 e1 t (TreeOk-tree_at s l ch ok) in
      let top = TreeOk-single parent in
      let e = Extends-trans s s1 _ e1 e2 in
      (
        e,
        SidesOk-restart _ l ch _
            (TreeOk-Extends s1 _ e2 _ (merged s1 (node null s.next null) t top t_ok))
            (SidesOk-Extends s _ l e ok),
      )

  join_chains-Kept : (ch ph parent : ℕ) → Kept s (join_chains s l ch ph parent)
  unfolding join_chains
  join_chains-Kept ch ph parent =
      let t = tree_at l ch in
      let t_ok = TreeOk-tree_at s l ch ok in
      let both = merged s (tree_at l ph) t (TreeOk-tree_at s l ph ok) t_ok in
      let e = link_below-Extends s (insert_subtree_by_hash s.hash (tree_at l ph) t) parent t in
      (
        e,
        SidesOk-Extends s _ _ e
            (SidesOk-remove_one_chain s _ ch (SidesOk-set_tree s l ph _ both ok)),
      )

  -- Where the trees of all side chains are in order, `add_block_to_incomplete` keeps the hashes of the
  -- known blocks and the order of all trees.
  pub add_block_to_incomplete-Kept :
      (parent child : ℕ) → Kept s (add_block_to_incomplete s l parent child)
  unfolding add_block_to_incomplete
  add_block_to_incomplete-Kept parent child = elim (Option-cases (chain_with s l child)) [
    | inl no_child ↦ elim (Option-cases (chain_with s l parent)) [
      | inl no_parent ↦
          rw (no_child, no_parent, add_block_to_incomplete) (add_new_chain-Kept parent child)
      | inr (ph, at) ↦
          let (_, (p, there)) = chain_with-some s l parent ph at in
          rw (no_child, at, add_block_to_incomplete) (add_to_chain-Kept ph parent child p there)
    ]
    | inr (ch, at_ch) ↦ elim (Option-cases (chain_with s l parent)) [
      | inl no_parent ↦
          rw (at_ch, no_parent, add_block_to_incomplete) (add_above_chain-Kept ch parent)
      | inr (ph, at) ↦ rw (at_ch, at, add_block_to_incomplete) (join_chains-Kept ch ph parent)
    ]
  ]
