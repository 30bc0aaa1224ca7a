-- ===== src/Blockchain.antt =====
-- The class `Blockchain` of Snowball_Main/code/Blockchain.cpp: its state, and what adds a block to it.
pub mod WellFormed
pub mod Receiving
pub mod Added
pub mod Found
pub mod Settling
pub mod Returns
pub mod Bootstrap
pub mod Mined
pub mod Ordering
use snowball_dag_experiment.Base.{
  ℕ, zero, suc, ◌+◌, ◌%◌, ◌^◌, Bool, true, false, not, ◌&&◌, Option, none, some, List, [], ◌∷◌, ℤ,
  ltb, if◌then◌else◌,
}
use snowball_dag_experiment.Base.Assoc.{nat_key, has, insert}
use snowball_dag_experiment.Base.Outcome.{Outcome, done, no_fuel, ◌>>=◌, deref}
use snowball_dag_experiment.HashTree.{Tree, root_block, find_block_by_hash, insert_subtree_by_hash}
use snowball_dag_experiment.Blocks.{
  Store, NetworkBlock, ConsensusPart, SenderInfo, update, link_child, set_nb,
  add_block_by_parent_hash, depth_of, find_max_depth,
}
use snowball_dag_experiment.SideChains.{
  SideChain, remove_one_chain, is_incomplete_hash, is_in_incomplete, find_incomplete_block, tree_at,
  add_block_to_incomplete,
}

-- `store` holds the fields of all blocks; an array is a function of the index, or a number where it
-- has `NO_T_DISCARDS` = 1 entries. The constructor writes the first `CHAINS` entries of `chains`,
-- `inchains` and `deepest`; the handlers read no other (Handlers.within).
pub record Blockchain : Type 0 where
  pub store : Store
  pub chains : ℕ → Tree
  pub inchains : ℕ → List SideChain
  pub deepest : ℕ → ℕ
  pub received_non_full_blocks : List (ℕ × (ℕ × ℕ))
  pub waiting_for_full_blocks : List (ℕ × ℕ)
  pub blocks_in_phase_validate : List (ℕ × (ℕ × ℕ))
  pub waiting_for_phase_1_block : List (ℕ × NetworkBlock)
  pub pre_blocks : List (ℤ × (SenderInfo × ConsensusPart))
  pub blocks_in_phase_request : List (ℤ × ℕ)
  pub total_ask_for_verify1_blocks_in_one_round : ℕ
  pub total_verify_local_block : ℕ
  pub total_ask_for_verify_blocks : List (ℤ × ℕ)
  pub total_verify_blocks : List (ℤ × ℕ)
  pub mined_blocks : ℕ
  pub processed_full_blocks : ℕ
  pub total_received_blocks : ℕ
  pub receiving_latency : ℕ
  pub receving_total : ℕ
  pub commited_latency : ℕ
  pub commited_total : ℕ
  pub partially_latency : ℕ
  pub partially_total : ℕ

unfoldable pub find_block_by_hash_and_chain_id : Blockchain → ℕ → ℕ → Option ℕ
find_block_by_hash_and_chain_id bc hash chain_id =
    find_block_by_hash bc.store.hash (bc.chains chain_id) hash

unfoldable pub find_incomplete_block_by_hash_and_chain_id : Blockchain → ℕ → ℕ → Option ℕ
find_incomplete_block_by_hash_and_chain_id bc hash chain_id =
    find_incomplete_block bc.store (bc.inchains chain_id) hash

unfoldable pub have_full_block : Blockchain → ℕ → ℕ → Bool
have_full_block bc chain_id hash =
    elim (find_block_by_hash bc.store.hash (bc.chains chain_id) hash) [
      | none ↦ false
      | some bz ↦ bc.store.is_full_block bz
    ]

-- The entry for a block that is not yet full.
unfoldable pub note_non_full : Blockchain → ℕ → ℕ → Blockchain
unfolding have_full_block
note_non_full bc chain_id hash =
    if not (has hash bc.received_non_full_blocks) && not (have_full_block bc chain_id hash)
    then record bc {
      received_non_full_blocks = insert hash (chain_id, 0) bc.received_non_full_blocks;
      total_received_blocks = (bc.total_received_blocks + 1) % 2 ^ 64;
    }
    else bc

-- The loop over the children of one block; `rec` is the recursive call.
unfoldable pub each_child :
    (Blockchain → ℕ → Outcome Blockchain) → Blockchain → List ℕ → Outcome Blockchain
each_child rec bc [] = done bc
each_child rec bc (c ∷ cs) = do bc1 ← rec bc c; each_child rec bc1 cs

unfoldable pub add_subtree_to_received_non_full : ℕ → ℕ → Blockchain → ℕ → Outcome Blockchain
unfolding each_child
add_subtree_to_received_non_full zero chain_id bc b = no_fuel
add_subtree_to_received_non_full (suc fuel) chain_id bc b =
    each_child (add_subtree_to_received_non_full fuel chain_id)
      (note_non_full bc chain_id (bc.store.hash b)) (bc.store.children b)

-- The root of the side chain at `i` becomes the last child of its parent, and the side chain is taken
-- from the list.
unfoldable pub link_side_chain : Blockchain → ℕ → ℕ → ℕ → ℕ → Blockchain
link_side_chain bc chain_id parent_block i child_block = record bc {
  store = link_child bc.store parent_block child_block;
  inchains = update bc.inchains chain_id (remove_one_chain (bc.inchains chain_id) i);
}

-- The parent is in the main tree and the block is the root of the side chain at `i`: the whole side
-- chain goes below the parent.
unfoldable pub attach_side_chain : Blockchain → ℕ → ℕ → ℕ → Outcome Blockchain
unfolding link_side_chain
attach_side_chain bc chain_id parent_block i =
    let child = tree_at (bc.inchains chain_id) i in
    let merged = insert_subtree_by_hash bc.store.hash (bc.chains chain_id) child in
    let bc1 = record bc { chains = update bc.chains chain_id merged } in
    do
      child_block ← deref (root_block child)
      bc2 ← add_subtree_to_received_non_full bc.store.next chain_id bc1 child_block
      done (link_side_chain bc2 chain_id parent_block i child_block)

-- The parent is in the main tree and no side chain begins with the block.
unfoldable pub attach_block : Blockchain → ℕ → ℕ → ℕ → Blockchain
attach_block bc chain_id parent hash =
    let (s, t, _) = add_block_by_parent_hash bc.store (bc.chains chain_id) parent hash in
    note_non_full (record bc { store = s; chains = update bc.chains chain_id t }) chain_id hash

-- The deepest block of the chain, if the search below the new one found a deeper one.
unfoldable pub choose_deepest : Blockchain → ℕ → Store → ℕ → ℕ → ℕ → Blockchain
choose_deepest bc chain_id s old_depth deep_last d = record bc {
  store = s;
  deepest = if ltb old_depth d then update bc.deepest chain_id deep_last else bc.deepest;
}

-- "Update deepest", for the block `bz` whose header is in the store `s`.
unfoldable pub deepen : Blockchain → ℕ → Store → ℕ → Outcome Blockchain
unfolding choose_deepest
deepen bc chain_id s bz = do
  old_depth ← depth_of s (bc.deepest chain_id)
  deep_last ← find_max_depth s.next s bz
  d ← depth_of s deep_last
  done (choose_deepest bc chain_id s old_depth deep_last d)

-- "Add full block info" and "Update deepest".
unfoldable pub update_deepest : Blockchain → ℕ → ℕ → NetworkBlock → Outcome Blockchain
unfolding deepen
update_deepest bc chain_id hash nb =
    elim (find_block_by_hash bc.store.hash (bc.chains chain_id) hash) [
      | none ↦ done bc
      | some bz ↦ deepen bc chain_id (set_nb bc.store bz nb) bz
    ]

unfoldable pub add_below_parent : Blockchain → ℕ → ℕ → ℕ → ℕ → Outcome Blockchain
unfolding attach_side_chain attach_block
add_below_parent bc chain_id parent_block parent hash =
    elim (is_incomplete_hash bc.store (bc.inchains chain_id) hash) [
      | none ↦ done (attach_block bc chain_id parent hash)
      | some i ↦ attach_side_chain bc chain_id parent_block i
    ]

-- The header of a block in the side chains.
unfoldable pub set_side_header : Store → List SideChain → ℕ → NetworkBlock → Store
set_side_header s l hash nb = elim (find_incomplete_block s l hash) [
  | none ↦ s
  | some bz ↦ set_nb s bz nb
]

-- A block whose parent is in no main tree.
unfoldable pub add_to_side_chains : Blockchain → ℕ → ℕ → ℕ → NetworkBlock → Blockchain
unfolding set_side_header
add_to_side_chains bc chain_id parent hash nb =
    let (s, l) = add_block_to_incomplete bc.store (bc.inchains chain_id) parent hash in
    record bc { store = set_side_header s l hash nb; inchains = update bc.inchains chain_id l }

-- What a call leaves: the state, `added`, and the result, whether the parent has to be asked for.
pub record Received : Type 0 where
  pub bc : Blockchain
  pub added : Bool
  pub need_parent : Bool

unfoldable pub add_received_block : Blockchain → ℕ → ℕ → ℕ → NetworkBlock → Outcome Received
unfolding add_to_side_chains add_below_parent
add_received_block bc chain_id parent hash nb =
    elim (find_block_by_hash bc.store.hash (bc.chains chain_id) hash) [
      | some b ↦ done (record { bc = bc; added = false; need_parent = false })
      | none ↦ elim (find_block_by_hash bc.store.hash (bc.chains chain_id) parent) [
        | some parent_block ↦ do
          bc1 ← add_below_parent bc chain_id parent_block parent hash
          bc2 ← update_deepest bc1 chain_id hash nb
          done (record { bc = bc2; added = true; need_parent = false })
        | none ↦
            if is_in_incomplete bc.store (bc.inchains chain_id) parent hash
            then done (record { bc = bc; added = false; need_parent = false })
            else done (record {
              bc = add_to_side_chains bc chain_id parent hash nb;
              added = true;
              need_parent = true;
            })
      ]
    ]

-- The header of a mined block, and the deepest block of its chain, whatever the depth of the block.
unfoldable pub place_mined : Blockchain → ℕ → ℕ → NetworkBlock → Store → Tree → Blockchain
place_mined bc new_block chain_id nb s t = elim (find_block_by_hash s.hash t new_block) [
  | none ↦ record bc { store = s; chains = update bc.chains chain_id t }
  | some bz ↦ record bc {
    store = set_nb s bz nb;
    chains = update bc.chains chain_id t;
    deepest = update bc.deepest chain_id bz;
  }
]

unfoldable pub add_block_by_parent_hash_and_chain_id :
    Blockchain → ℕ → ℕ → ℕ → NetworkBlock → Blockchain
unfolding place_mined
add_block_by_parent_hash_and_chain_id bc parent_hash new_block chain_id nb =
    let (s, t, _) = add_block_by_parent_hash bc.store (bc.chains chain_id) parent_hash new_block in
    place_mined bc new_block chain_id nb s t
