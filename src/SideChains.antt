-- ===== src/SideChains.antt =====
-- The incomplete chains of Snowball_Main/code/Blockchain.cpp: trees of blocks whose first parent has
-- not come yet. The linked list of `block_incomplete` is a list, and a pointer into it a position.
pub mod Search
pub mod Added
pub mod Found
use snowball_dag_experiment.Base.{
  ℕ, zero, suc, ◌+◌, Bool, true, false, Option, none, some, List, [], ◌∷◌, ◌++◌, ◌==◌, ltb,
  if◌then◌else◌,
}
use snowball_dag_experiment.HashTree.{
  Tree, null, node, root_block, find_block_by_hash, insert_subtree_by_hash,
}
use snowball_dag_experiment.Blocks.{
  Store, update, bootstrap_chain, link_child, add_block_by_parent_hash,
}

-- `b` is never null.
pub record SideChain : Type 0 where
  pub b : Tree
  pub last_asked : ℕ
  pub no_asks : ℕ

unfoldable pub remove_one_chain : List SideChain → ℕ → List SideChain
remove_one_chain [] i = []
remove_one_chain (t ∷ l) zero = l
remove_one_chain (t ∷ l) (suc i) = t ∷ remove_one_chain l i

unfoldable pub root_has_hash : Store → Tree → ℕ → Bool
root_has_hash s t hash = elim (root_block t) [ none ↦ false | some b ↦ s.hash b == hash ]

-- The first chain whose root has the hash.
unfoldable pub is_incomplete_hash : Store → List SideChain → ℕ → Option ℕ
unfolding root_has_hash
is_incomplete_hash s [] hash = none
is_incomplete_hash s (t ∷ l) hash =
    let rest = is_incomplete_hash s l hash in
    if root_has_hash s t.b hash then some 0 else elim rest [ none ↦ none | some i ↦ some (suc i) ]

-- `b->parent != NULL && b->parent->hash == parent_hash`
unfoldable pub parent_is : Store → ℕ → ℕ → Bool
parent_is s b parent_hash = elim (s.parent b) [ none ↦ false | some p ↦ s.hash p == parent_hash ]

unfoldable pub is_in_incomplete : Store → List SideChain → ℕ → ℕ → Bool
unfolding parent_is
is_in_incomplete s [] parent_hash child_hash = false
is_in_incomplete s (t ∷ l) parent_hash child_hash =
    let rest = is_in_incomplete s l parent_hash child_hash in
    elim (find_block_by_hash s.hash t.b child_hash) [
      | none ↦ rest
      | some b ↦ if parent_is s b parent_hash then true else rest
    ]

unfoldable pub find_incomplete_block : Store → List SideChain → ℕ → Option ℕ
find_incomplete_block s [] child_hash = none
find_incomplete_block s (t ∷ l) child_hash =
    let rest = find_incomplete_block s l child_hash in
    elim (find_block_by_hash s.hash t.b child_hash) [ none ↦ rest | some b ↦ some b ]

-- The first chain whose tree has the hash: the loop's `ch` and `ph`.
unfoldable pub chain_with : Store → List SideChain → ℕ → Option ℕ
chain_with s [] hash = none
chain_with s (t ∷ l) hash =
    let rest = chain_with s l hash in
    elim (find_block_by_hash s.hash t.b hash) [
      | none ↦ elim rest [ none ↦ none | some i ↦ some (suc i) ]
      | some b ↦ some 0
    ]

unfoldable pub tree_at : List SideChain → ℕ → Tree
tree_at [] i = null
tree_at (t ∷ l) zero = t.b
tree_at (t ∷ l) (suc i) = tree_at l i

-- The chain at a position with a new tree.
unfoldable pub set_tree : List SideChain → ℕ → Tree → List SideChain
set_tree [] i b = []
set_tree (t ∷ l) zero b = record t { b = b } ∷ l
set_tree (t ∷ l) (suc i) b = t ∷ set_tree l i b

-- A new tree, and `last_asked` and `no_asks` at 0 again.
unfoldable pub restart : List SideChain → ℕ → Tree → List SideChain
restart [] i b = []
restart (t ∷ l) zero b = record { b = b; last_asked = 0; no_asks = 0 } ∷ l
restart (t ∷ l) (suc i) b = t ∷ restart l i b

-- Neither hash has been seen: a chain of the two blocks at the end of the list (which is the whole
-- list where the list was empty).
unfoldable pub add_new_chain : Store → List SideChain → ℕ → ℕ → Store × List SideChain
add_new_chain s l parent_hash child_hash =
    let s1 = bootstrap_chain s parent_hash in
    let (s2, bl, _) = add_block_by_parent_hash s1 (node null s.next null) parent_hash child_hash in
    (s2, l ++ (record { b = bl; last_asked = 0; no_asks = 0 } ∷ []))

-- The parent is in the chain at `ph`.
unfoldable pub add_to_chain : Store → List SideChain → ℕ → ℕ → ℕ → Store × List SideChain
add_to_chain s l ph parent_hash child_hash =
    let (s1, bl, _) = add_block_by_parent_hash s (tree_at l ph) parent_hash child_hash in
    (s1, set_tree l ph bl)

-- `p` is the parent of the root of a tree.
unfoldable pub link_root : Store → ℕ → Tree → Store
link_root s p null = s
link_root s p (node l b r) = link_child s p b

-- The child is in the chain at `ch`: a block for the parent goes above the root of that chain.
unfoldable pub add_above_chain : Store → List SideChain → ℕ → ℕ → Store × List SideChain
add_above_chain s l ch parent_hash =
    let s1 = bootstrap_chain s parent_hash in
    let bl = insert_subtree_by_hash s1.hash (node null s.next null) (tree_at l ch) in
    (link_root s1 s.next (tree_at l ch), restart l ch bl)

-- The root of a tree becomes the last child of the block with a hash, which the caller has put in
-- the tree `bl`.
unfoldable pub link_below : Store → Tree → ℕ → Tree → Store
unfolding link_root
link_below s bl parent_hash sub = elim (find_block_by_hash s.hash bl parent_hash) [
  | none ↦ s
  | some p ↦ link_root s p sub
]

-- Both are there: the chain at `ch` goes below the parent in the chain at `ph`, and is taken from
-- the list. (Where the two are one chain the tree is merged with itself and then taken away.)
unfoldable pub join_chains : Store → List SideChain → ℕ → ℕ → ℕ → Store × List SideChain
unfolding link_below
join_chains s l ch ph parent_hash =
    let bl = insert_subtree_by_hash s.hash (tree_at l ph) (tree_at l ch) in
    (link_below s bl parent_hash (tree_at l ch), remove_one_chain (set_tree l ph bl) ch)

unfoldable pub add_block_to_incomplete : Store → List SideChain → ℕ → ℕ → Store × List SideChain
unfolding add_new_chain add_to_chain add_above_chain join_chains
add_block_to_incomplete s l parent_hash child_hash = elim (chain_with s l child_hash) [
  | none ↦ elim (chain_with s l parent_hash) [
    | none ↦ add_new_chain s l parent_hash child_hash
    | some ph ↦ add_to_chain s l ph parent_hash child_hash
  ]
  | some ch ↦ elim (chain_with s l parent_hash) [
    | none ↦ add_above_chain s l ch parent_hash
    | some ph ↦ join_chains s l ch ph parent_hash
  ]
]
