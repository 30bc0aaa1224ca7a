-- ===== src/Handlers/Rounds.antt =====
-- The end of a round, in the handlers of "#full_block" and of "#answer_verified_1".
pub mod Balanced
use snowball_dag_experiment.Base.{
  ℕ, zero, suc, ◌+◌, Bool, true, false, Option, none, some, List, [], ◌∷◌, ◌++◌, ℤ, pos, ◌+ℤ◌, Text,
}
use snowball_dag_experiment.Base.Assoc.{int_key, find}
use snowball_dag_experiment.Blockchain.{Blockchain}
use snowball_dag_experiment.Consensus.{MinerInfo, RoundInfo, ConsensusGroup, add_in_history}
use snowball_dag_experiment.Handlers.{Node}

-- The loop over the miners of the next round.
unfoldable pub take_miners : ConsensusGroup → List MinerInfo → ConsensusGroup
take_miners g [] = g
take_miners g (m ∷ l) =
    take_miners
      (record g {
        miner_list = g.miner_list ++ (m ∷ []);
        concurrency_block_numbers = g.concurrency_block_numbers + m.share_of_block;
      })
      l

-- The group enters the next round without members.
unfoldable pub next_round : ConsensusGroup → ConsensusGroup
next_round g = record g {
  round = g.round +ℤ pos 1;
  miner_list = [];
  concurrency_block_numbers = 0;
  state = false;
}

-- "upadating", "round update" and "awake miner". The counter of the block chain is set back only where
-- nobody joined the next round yet.
unfoldable pub advance_round : Node → Node
unfolding take_miners next_round add_in_history
advance_round n =
    let g = add_in_history n.group n.group.round n.group.miner_list in
    elim (find (g.round +ℤ pos 1) g.future_info) [
      | some info ↦ record n { group = take_miners (next_round g) info.miner; mining = true }
      | none ↦ record n {
        group = next_round g;
        bc = record n.bc { total_ask_for_verify1_blocks_in_one_round = 0 };
        mining = true;
      }
    ]
