-- ===== src/Waiting/Full.antt =====
-- `set_block_full` of Snowball_Main/code/Blockchain.cpp: a block that is now full, and its latency. What is
-- written to a file where blocks are stored is left out.
use snowball_dag_experiment.Base.{ℕ, ◌+◌, ◌-◌, ◌%◌, ◌^◌, true, none, some, ltb, if◌then◌else◌}
use snowball_dag_experiment.Base.Assoc.{nat_key, erase}
use snowball_dag_experiment.Blocks.{Store, NetworkBlock, update, set_nb}
use snowball_dag_experiment.Blockchain.{Blockchain, find_block_by_hash_and_chain_id}

-- The time of the receipt of the block `b`, and its latency.
unfoldable pub set_received : Blockchain → ℕ → NetworkBlock → ℕ → Blockchain
set_received bc b nb time_of_now =
    if ltb nb.time_mined time_of_now
    then record bc {
      store = set_nb bc.store b (record nb { time_received = time_of_now });
      receving_total = (bc.receving_total + 1) % 2 ^ 64;
      receiving_latency = (bc.receiving_latency + (time_of_now - nb.time_mined)) % 2 ^ 64;
    }
    else record bc { store = set_nb bc.store b (record nb { time_received = nb.time_mined }) }

unfoldable pub set_full : Store → ℕ → Store
set_full s b = record s { is_full_block = update s.is_full_block b true }

unfoldable pub set_block_full : Blockchain → ℕ → ℕ → ℕ → Blockchain
unfolding set_received set_full
set_block_full bc chain_id hash time_of_now =
    let bc1 = record bc {
      received_non_full_blocks = erase hash bc.received_non_full_blocks;
      waiting_for_full_blocks = erase hash bc.waiting_for_full_blocks;
    } in
    elim (find_block_by_hash_and_chain_id bc hash chain_id) [
      | none ↦ bc1
      | some bz ↦
          let bc2 = record bc1 {
            store = set_full bc.store bz;
            processed_full_blocks = (bc.processed_full_blocks + 1) % 2 ^ 64;
          } in
          elim (bc.store.nb bz) [ none ↦ bc2 | some nb ↦ set_received bc2 bz nb time_of_now ]
    ]
