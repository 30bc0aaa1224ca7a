-- ===== src/Handlers/Joins/Restart.antt =====
-- A "#mining_succeed" that starts the consensus of a round once more.
use snowball_dag_experiment.Base.{
  ℕ, ◌≡◌, Bool, true, false, ◌&&◌, [], ◌∷◌, ◌++◌, Text, text_eq, ◌==◌,
}
use snowball_dag_experiment.Base.Outcome.{done, ◌>>=◌}
use snowball_dag_experiment.Consensus.{ConsensusGroup}
use snowball_dag_experiment.Transactions.PoolFiles.{Files}
use snowball_dag_experiment.Messages.{Settings}
use snowball_dag_experiment.Mining.{MinerLimits}
use snowball_dag_experiment.Mining.Leader.{Inputs, mine_consensus_blocks}
use snowball_dag_experiment.Handlers.{interrupt_miner, Node}

module _ (sha256 : Text → Text) (ceil_power : ℕ → ℕ) (files : Files) (lim : MinerLimits)
    (st : Settings) (inp : Inputs) (n : Node) where
  -- This node has the address of the leader of the group.
  abbrev leads : ConsensusGroup → Bool
  leads g = text_eq g.leader_info.0 st.my_ip && (g.leader_info.1 == st.my_port)

  -- The consensus runs, from its beginning, in the round, with the members and the blocks of before;
  -- the miner is interrupted and waits; and a leader mines the blocks of all members over its block chain.
  pub record Restarted (n' : Node) : Type 0 where
    pub state : n'.group.state ≡ true
    pub round : n'.group.round ≡ n.group.round
    pub members : n'.group.miner_list ≡ n.group.miner_list
    pub blocks : n'.group.concurrency_block_numbers ≡ n.group.concurrency_block_numbers
    pub mining : n'.mining ≡ false
    pub actions : n'.actions ≡ n.actions ++ (interrupt_miner ∷ [])
    pub leader :
        leads n'.group ≡ true
        → mine_consensus_blocks sha256 ceil_power files lim st inp n.bc n'.group ≡ done n'.bc
    pub other : leads n'.group ≡ false → n'.bc ≡ n.bc
