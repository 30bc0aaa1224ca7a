-- ===== src/Blocks.antt =====
-- The records of Snowball_Main/code/Blockchain.hpp, and the blocks behind their pointers. A block is
-- an address; the store holds the fields of each. The `left` and `right` pointers are the trees of
-- HashTree, and `child` with the chain of `sibling` pointers is the list `children`.
pub mod Links
pub mod Depth
use snowball_dag_experiment.Base.{
  ℕ, zero, suc, ◌+◌, Bool, true, false, Option, none, some, List, [], ◌∷◌, ◌++◌, Text, ℤ, ◌==◌, ltb,
  if◌then◌else◌,
}
use snowball_dag_experiment.Base.Outcome.{Outcome, done, fault, no_fuel, ◌>>=◌, deref}
use snowball_dag_experiment.HashTree.{Tree, find_block_by_hash, insert_block_only_by_hash}

pub record ConsensusPart : Type 0 where
  pub round : ℤ
  pub order_in_round : ℤ
  pub merkel_root_of_txs : Text
  pub tx_first : ℤ
  pub tx_second : ℤ
  pub list : Text
  pub verify_1_numbers : ℤ
  pub verify_2_numbers : ℤ

pub record SenderInfo : Type 0 where
  pub ip : Text
  pub port : ℕ

-- `time_commited` and `time_partial` have `NO_T_DISCARDS` = 1 entries.
pub record NetworkBlock : Type 0 where
  pub chain_id : ℕ
  pub parent : ℕ
  pub hash : ℕ
  pub trailing : ℕ
  pub trailing_id : ℕ
  pub merkle_root_chains : Text
  pub merkle_root_txs : Text
  pub proof_new_chain : List Text
  pub no_txs : ℕ
  pub depth : ℕ
  pub rank : ℕ
  pub next_rank : ℕ
  pub time_mined : ℕ
  pub time_received : ℕ
  pub time_commited : ℕ
  pub time_partial : ℕ
  pub consensus_part : ConsensusPart

-- The fields of all blocks; `next` is the address that `malloc` returns next.
pub record Store : Type 0 where
  pub hash : ℕ → ℕ
  pub nb : ℕ → Option NetworkBlock
  pub is_full_block : ℕ → Bool
  pub parent : ℕ → Option ℕ
  pub children : ℕ → List ℕ
  pub next : ℕ

module _ {ℓ} {A : Type ℓ} where
  unfoldable pub update : (ℕ → A) → ℕ → A → ℕ → A
  update f p v q = if p == q then v else f q

-- A fresh block with a hash and no links, at the address `s.next`. (`insert_block_only_by_hash`
-- leaves `nb` as `malloc` gave it; every caller writes it before it is read.)
unfoldable pub bootstrap_chain : Store → ℕ → Store
bootstrap_chain s initial_hash = record {
  hash = update s.hash s.next initial_hash;
  nb = update s.nb s.next none;
  is_full_block = update s.is_full_block s.next false;
  parent = update s.parent s.next none;
  children = update s.children s.next [];
  next = s.next + 1;
}

-- `c` becomes the last child of `p`.
unfoldable pub link_child : Store → ℕ → ℕ → Store
link_child s p c = record s {
  parent = update s.parent c (some p);
  children = update s.children p (s.children p ++ (c ∷ []));
}

-- `b->nb = new network_block(nb)`
unfoldable pub set_nb : Store → ℕ → NetworkBlock → Store
set_nb s b nb = record s { nb = update s.nb b (some nb) }

-- The new store and tree, and whether the parent was there.
unfoldable pub add_block_by_parent_hash : Store → Tree → ℕ → ℕ → Store × Tree × Bool
add_block_by_parent_hash s root parent hash = elim (find_block_by_hash s.hash root parent) [
  | none ↦ (s, root, false)
  | some p ↦
      let s1 = bootstrap_chain s hash in
      (link_child s1 p s.next, insert_block_only_by_hash s1.hash root hash s.next, true)
]

-- `b->nb->depth`
unfoldable pub depth_of : Store → ℕ → Outcome ℕ
depth_of s b = do nb ← deref (s.nb b); done nb.depth

-- The loop over the children of one block; `rec` is the recursive call.
unfoldable pub max_children : Store → (ℕ → Outcome ℕ) → ℕ → List ℕ → Outcome ℕ
unfolding depth_of
max_children s rec mx [] = done mx
max_children s rec mx (c ∷ cs) = do
  fm ← rec c
  d ← depth_of s fm
  e ← depth_of s mx
  max_children s rec (if ltb e d then fm else mx) cs

unfoldable pub find_max_depth : ℕ → Store → ℕ → Outcome ℕ
unfolding max_children
find_max_depth zero s r = no_fuel
find_max_depth (suc fuel) s r = max_children s (find_max_depth fuel s) r (s.children r)

-- The number of blocks below `r`, `r` included.
unfoldable pub sum_children : (ℕ → Outcome ℕ) → List ℕ → Outcome ℕ
sum_children rec [] = done 0
sum_children rec (c ∷ cs) = do n ← rec c; m ← sum_children rec cs; done (n + m)

unfoldable pub find_number_of_nodes : ℕ → Store → ℕ → Outcome ℕ
unfolding sum_children
find_number_of_nodes zero s r = no_fuel
find_number_of_nodes (suc fuel) s r = do
  n ← sum_children (find_number_of_nodes fuel s) (s.children r)
  done (1 + n)
