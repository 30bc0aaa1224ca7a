-- ===== src/HashTree.antt =====
-- The search tree of blocks by hash, the `left` and `right` pointers of a block: the functions of
-- Snowball_Main/code/Blockchain.cpp over it. A node names its block by the address; `key` is the
-- `hash` field of the block at an address.
pub mod Ordered
pub mod Union
use snowball_dag_experiment.Base.{ℕ, Option, none, some, ltb, leb, if◌then◌else◌}

pub data Tree : Type 0 where
  null : Tree
  node : Tree → ℕ → Tree → Tree

abbrev pub root_block : Tree → Option ℕ
root_block null = none
root_block (node l b r) = some b

module _ (key : ℕ → ℕ) where
  unfoldable pub find_block_by_hash : Tree → ℕ → Option ℕ
  find_block_by_hash null hash = none
  find_block_by_hash (node l b r) hash =
      let left = find_block_by_hash l hash in
      let right = find_block_by_hash r hash in
      if ltb hash (key b) then left else if ltb (key b) hash then right else some b

  -- `new` is the block that `malloc` returns at the end of the search.
  unfoldable pub insert_block_only_by_hash : Tree → ℕ → ℕ → Tree
  insert_block_only_by_hash null hash new = node null new null
  insert_block_only_by_hash (node l b r) hash new =
      if leb hash (key b)
      then node (insert_block_only_by_hash l hash new) b r
      else node l b (insert_block_only_by_hash r hash new)

  -- A subtree whose root has a hash that is there is dropped.
  unfoldable pub insert_one_node : Tree → Tree → Tree
  insert_one_node null subtree = subtree
  insert_one_node (node l b r) null = node l b r
  insert_one_node (node l b r) (node sl s sr) =
      if ltb (key s) (key b)
      then node (insert_one_node l (node sl s sr)) b r
      else if ltb (key b) (key s)
      then node l b (insert_one_node r (node sl s sr))
      else node l b r

  unfoldable pub insert_subtree_by_hash : Tree → Tree → Tree
  insert_subtree_by_hash r null = r
  insert_subtree_by_hash r (node left b right) =
      insert_subtree_by_hash (insert_subtree_by_hash (insert_one_node r (node null b null)) left)
        right
