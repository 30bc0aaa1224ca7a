-- ===== src/Handlers/Joins.antt =====
-- How the consensus of a round starts: the handler of "#mining_succeed", and one pass of the loop of
-- `miner` in Snowball_Main/code/miner.cpp that is not interrupted.
pub mod Restart
use snowball_dag_experiment.Base.{
  ℕ, zero, suc, ◌+◌, ◌%◌, ◌^◌, Bool, true, false, not, ◌&&◌, ◌||◌, List, [], ◌∷◌, ◌++◌, ℤ, pos,
  ◌-ℤ◌, ltb_ℤ, eqb_ℤ, Text, text_eq, ◌==◌, leb, if◌then◌else◌,
}
use snowball_dag_experiment.Base.Outcome.{Outcome, done, ◌>>=◌}
use snowball_dag_experiment.Numbers.{to_string, to_uint32}
use snowball_dag_experiment.Blockchain.{Blockchain}
use snowball_dag_experiment.Waiting.{get_numbers_of_concurrency_blocks_in_a_round}
use snowball_dag_experiment.Consensus.{
  ConsensusGroup, start_consensus_of_blocks, choose_leader, join_consensus_group,
}
use snowball_dag_experiment.Transactions.PoolFiles.{Files}
use snowball_dag_experiment.Messages.{Settings}
use snowball_dag_experiment.Messages.Round.{MiningSucceed, create_mining_succeed}
use snowball_dag_experiment.Mining.{MinerLimits}
use snowball_dag_experiment.Mining.Leader.{Inputs, mine_consensus_blocks}
use snowball_dag_experiment.Handlers.{Action, write_to_all_peers, interrupt_miner, Node, act}

module _ (sha256 : Text → Text) (ceil_power : ℕ → ℕ) (files : Files) (lim : MinerLimits)
    (st : Settings) (inp : Inputs) where
  -- The group starts, mining pauses, and the leader shares out the blocks.
  unfoldable pub start_consensus : Node → Outcome Node
  start_consensus n =
      let g = choose_leader (start_consensus_of_blocks n.group) in
      let n1 = record n { group = g; mining = false } in
      if text_eq g.leader_info.0 st.my_ip && (g.leader_info.1 == st.my_port)
      then (do
        bc ← mine_consensus_blocks sha256 ceil_power files lim st inp n.bc g
        done (record n1 { bc = bc }))
      else done n1

  -- A group with enough blocks; `l` is what is done before.
  unfoldable pub start_if_enough : List Action → Node → Outcome Node
  unfolding start_consensus act
  start_if_enough l n =
      let started = start_consensus (act n l) in
      if leb lim.concurrency_blocks n.group.concurrency_block_numbers then started else done n

  unfoldable pub on_mining_succeed : Node → MiningSucceed → Outcome Node
  unfolding start_if_enough
  on_mining_succeed n q = if eqb_ℤ q.round n.group.round && n.group.state then done n else (do
    g ← join_consensus_group n.group q.sender.ip q.sender.port q.certificate q.round
    start_if_enough (interrupt_miner ∷ []) (record n { group = g }))

  -- From the second round on, a miner needs all blocks of the round before.
  unfoldable pub is_qualified : Blockchain → ℤ → Outcome Bool
  is_qualified bc round_now =
      if ltb_ℤ (pos 1) round_now
      then (do
        con_blocks ← get_numbers_of_concurrency_blocks_in_a_round bc (round_now -ℤ pos 1)
        done (to_uint32 con_blocks == lim.concurrency_blocks))
      else done true

  -- One pass of the loop; `random` is the text of `rng()`.
  unfoldable pub mine_once : Node → Text → Outcome Node
  unfolding is_qualified start_if_enough act
  mine_once n random =
      let round_now = n.group.round in
      (do
        qualified ← is_qualified n.bc round_now
        (if not qualified then done n else (do
          g ←
              join_consensus_group n.group st.my_ip st.my_port
                (ltb_ℤ (pos 1) round_now || eqb_ℤ round_now (pos 1)) round_now
          start_if_enough [] (
              act (record n { group = g })
                (write_to_all_peers (
                    create_mining_succeed st (ltb_ℤ (pos 1) round_now || eqb_ℤ round_now (pos 1))
                      random g.round)
                  ∷ [])))))
