-- ===== src/Mining/Leader.antt =====
-- `mine_Consensus_blocks` of Snowball_Main/code/miner.cpp: the leader of a round shares out its blocks.
use snowball_dag_experiment.Base.{ℕ, zero, suc, ◌+◌, List, [], ◌∷◌, ℤ, pos, Text, if◌then◌else◌}
use snowball_dag_experiment.Base.Outcome.{Outcome, done, ◌>>=◌}
use snowball_dag_experiment.Blocks.{ConsensusPart}
use snowball_dag_experiment.Blockchain.{Blockchain}
use snowball_dag_experiment.Waiting.{add_pre_blocks}
use snowball_dag_experiment.Consensus.{MinerInfo, ConsensusGroup, is_miner}
use snowball_dag_experiment.Transactions.PoolFiles.{Files, generate_concurrent_blocks}
use snowball_dag_experiment.Messages.{Settings}
use snowball_dag_experiment.Mining.{MinerLimits, mine_new_block}

-- The state of the loops: `order_in_round` and `tx_list` count the blocks and the transactions.
pub record Leading : Type 0 where
  pub bc : Blockchain
  pub order_in_round : ℕ
  pub tx_list : ℕ

-- What the machine gives to one run: the `i`-th block of the round has the random number `random i` and
-- the time `clock i`; `unset` is in an `int` that was not written.
pub record Inputs : Type 0 where
  pub random : ℕ → ℕ
  pub clock : ℕ → ℕ
  pub unset : ℤ

module _ (sha256 : Text → Text) (ceil_power : ℕ → ℕ) (files : Files) (lim : MinerLimits)
    (st : Settings) (inp : Inputs) (round : ℤ) where
  -- `consensus_part_tmp`, with both numbers of votes the same.
  unfoldable pub next_part : Leading → ℤ → ConsensusPart
  next_part s votes = record {
    round = round;
    order_in_round = pos s.order_in_round;
    merkel_root_of_txs = [];
    tx_first = pos s.tx_list;
    tx_second = pos (s.tx_list + lim.tx_numbers_in_a_block);
    list = [];
    verify_1_numbers = votes;
    verify_2_numbers = votes;
  }

  unfoldable pub after_block : Leading → Blockchain → Leading
  after_block s bc = record {
    bc = bc;
    order_in_round = s.order_in_round + 1;
    tx_list = s.tx_list + lim.tx_numbers_in_a_block;
  }

  -- `n` blocks that this node mines itself.
  unfoldable pub own_blocks : ℕ → ℤ → Leading → Outcome Leading
  unfolding next_part after_block
  own_blocks zero votes s = done s
  own_blocks (suc n) votes s = do
    bc ←
        mine_new_block sha256 ceil_power files lim st s.bc (next_part s votes)
          (inp.random s.order_in_round) (inp.clock s.order_in_round)
    own_blocks n votes (after_block s bc)

  -- `n` pre-blocks that wait for the request of another miner.
  unfoldable pub their_blocks : ℕ → Text → ℕ → Leading → Leading
  unfolding next_part after_block
  their_blocks zero ip port s = s
  their_blocks (suc n) ip port s =
      let cp =
        generate_concurrent_blocks sha256 ceil_power files lim.concurrency_blocks
          (next_part s inp.unset) in
      their_blocks n ip port (after_block s (add_pre_blocks s.bc ip port cp).1)

  unfoldable pub miners_loop : List MinerInfo → Leading → Outcome Leading
  unfolding own_blocks their_blocks
  miners_loop [] s = done s
  miners_loop (m ∷ l) s = do
    s1 ←
        if is_miner st.my_ip st.my_port m
        then own_blocks m.share_of_block (pos m.share_of_block) s
        else done (their_blocks m.share_of_block m.ip m.port s)
    miners_loop l s1

unfoldable pub mine_consensus_blocks :
    (Text → Text)
    → (ℕ → ℕ)
    → Files
    → MinerLimits
    → Settings
    → Inputs
    → Blockchain
    → ConsensusGroup
    → Outcome Blockchain
unfolding miners_loop
mine_consensus_blocks sha256 ceil_power files lim st inp bc g = do
  s ←
      miners_loop sha256 ceil_power files lim st inp g.round g.miner_list
        (record { bc = bc; order_in_round = 1; tx_list = 1 })
  done s.bc
