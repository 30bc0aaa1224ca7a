-- ===== src/Examples/Rounds.antt =====
-- Tests of Consensus and Waiting: a group of two miners, the first with two shares, and a node with
-- two blocks that are not full in its map.
use snowball_dag_experiment.Base.{
  length, All, arith, ◌≤◌, ℕ, ◌+◌, ◌≡◌, refl, true, false, ◌&&◌, none, some, [], ◌∷◌, ℤ, pos, Text,
}
use snowball_dag_experiment.Base.Assoc.{int_key, nat_key, find}
use snowball_dag_experiment.Base.Int.{eqb_ℤ}
use snowball_dag_experiment.Base.Outcome.{done}
use snowball_dag_experiment.Blockchain.{Blockchain}
use snowball_dag_experiment.Consensus.{
  RoundInfo, ConsensusGroup, join_consensus_group, add_in_future,
}
use snowball_dag_experiment.Consensus.Shares.{total_shares}
use snowball_dag_experiment.Consensus.Joins.{
  IsBalanced, add_in_future_lem, join_consensus_group-IsBalanced,
}
use snowball_dag_experiment.TransactionPool.{Transaction, TransactionPool, add_tx_in_pool}
use snowball_dag_experiment.TransactionPool.Epochs.{InEpochs, add_tx_in_pool-InEpochs}
use snowball_dag_experiment.Base.{zero, suc, Option, none, some, sym, ap, get_elem?, ◌/◌}
use snowball_dag_experiment.Waiting.Timers.{
  get_non_full_blocks, AskedFor, get_non_full_blocks_bounded,
}
use snowball_dag_experiment.Examples.Chains.{node_state}

abbrev host : Text
host = 49 ∷ 48 ∷ []

abbrev group : ConsensusGroup
group = record {
  state = false;
  concurrency_block_numbers = 3;
  round = pos 4;
  leader_info = (host, 8001);
  miner_list =
      record { ip = host; port = 8001; share_of_block = 2 }
      ∷ record { ip = host; port = 8002; share_of_block = 1 }
      ∷ [];
  history_info = [];
  future_info = [];
}

not_started : (eqb_ℤ (pos 4) group.round && group.state) ≡ false
unfolding eqb_ℤ
not_started = refl

join_consensus_group-IsBalanced_example :
    (g' : ConsensusGroup) × (join_consensus_group group host 8003 true (pos 4) ≡ done g')
    × IsBalanced g'
join_consensus_group-IsBalanced_example =
    join_consensus_group-IsBalanced group host 8003 true (pos 4) refl

add_in_future_lem_example :
    (g' : ConsensusGroup) × (info : RoundInfo) × (add_in_future group (pos 5) host 8001 ≡ done g')
    × (find (pos 5) g'.future_info ≡ some info)
    × (total_shares info.miner ≡ (elim (find (pos 5) group.future_info) [
      | none ↦ 2
      | some old ↦ total_shares old.miner + 1
    ]))
    × ((other : ℤ)
        → eqb_ℤ (pos 5) other ≡ false
        → find other g'.future_info ≡ find other group.future_info)
    × (g'.miner_list ≡ group.miner_list)
    × (g'.concurrency_block_numbers ≡ group.concurrency_block_numbers)
add_in_future_lem_example = add_in_future_lem group host 8001 (pos 5)

abbrev not_full : Blockchain
not_full = record node_state { received_non_full_blocks = (50, (0, 7)) ∷ (55, (0, 7)) ∷ [] }

get_non_full_blocks_bounded_example :
    (length (get_non_full_blocks 1 6000 not_full 9000).0 ≤ 1)
    × All (λ x. AskedFor not_full x.0 x.1) (get_non_full_blocks 1 6000 not_full 9000).0
get_non_full_blocks_bounded_example = get_non_full_blocks_bounded 1 6000 not_full 9000 (omega arith)

abbrev one_transaction : TransactionPool
one_transaction = record {
  tx_pool = record { version = 1; tx = host; time = 5 } ∷ [];
  epoch_time = 60;
  epoch_now = 1;
}

one_transaction-InEpochs : InEpochs one_transaction
one_transaction-InEpochs = record { epoch = refl; versions = λ i t e. versions_of i t e }
  where
    versions_of :
        (i : ℕ) (t : Transaction)
        → get_elem? one_transaction.tx_pool i ≡ some t
        → t.version ≡ 1 + i / 3000
    versions_of zero t e =
        sym (ap (λ (x : Option Transaction). elim x [ none ↦ 1 | some y ↦ y.version ]) e)
    versions_of (suc i) t e = absurd (cc)

add_tx_in_pool-InEpochs_example : InEpochs (add_tx_in_pool true one_transaction host 6).pool
add_tx_in_pool-InEpochs_example =
    add_tx_in_pool-InEpochs one_transaction one_transaction-InEpochs host 6
