-- ===== src/Examples/Sessions.antt =====
-- Tests of the whole of process_buffer, and of the end and the start of a round.
use snowball_dag_experiment.Base.{
  text_eq, ℕ, ◌+◌, ◌*◌, ◌≤◌, ◌≡◌, refl, ◌⊎◌, Bool, true, false, Option, none, some, List, [], ◌∷◌,
  ◌++◌, ℤ, pos, Text, bytes, arith,
}
use snowball_dag_experiment.Base.Outcome.{Outcome, done}
use snowball_dag_experiment.Blockchain.WellFormed.{WellFormed, Grows}
use snowball_dag_experiment.Consensus.{choose_leader, MinerInfo, ConsensusGroup, initial, is_miner}
use snowball_dag_experiment.Messages.Round.{MiningSucceed}
use snowball_dag_experiment.Mining.Leader.{Leading, Inputs, miners_loop}
use snowball_dag_experiment.Handlers.{interrupt_miner, Node}
use snowball_dag_experiment.Handlers.Votes.{on_answer_verified_1}
use snowball_dag_experiment.Handlers.Votes.Finish.{WaitsForOne, on_answer_verified_1_finishes}
use snowball_dag_experiment.Handlers.Joins.{on_mining_succeed}
use snowball_dag_experiment.Handlers.Dispatch.{Machine, Session, process_node_buffer}
use snowball_dag_experiment.Handlers.Rounding.{RoundSteps, joins, round_view}
use snowball_dag_experiment.Handlers.Session.{
  process_node_buffer-Grows, process_node_buffer-RoundSteps, process_node_buffer_enough,
}
use snowball_dag_experiment.Examples.Trees.{header}
use snowball_dag_experiment.Examples.Chains.{node_state, node_state-WellFormed}
use snowball_dag_experiment.Examples.Wire.{me}
use snowball_dag_experiment.Examples.Nodes.{limits, this_miner, voting, answer, own, known, six}
use snowball_dag_experiment.Examples.Miners.{zeros, two, pool_files}
use snowball_dag_experiment.Mining.{MinerLimits}
use snowball_dag_experiment.Base.Int.{◌+ℤ◌, eqb_ℤ}

abbrev inputs : Inputs
inputs = record { random = λ i. i; clock = λ i. 1000; unset = pos 0 }

-- Two blocks are enough for a round here.
abbrev few : MinerLimits
few = record { concurrency_blocks = 2; tx_numbers_in_a_block = 2 }

voting-WellFormed : WellFormed voting.bc
voting-WellFormed = record {
  chains_ok = node_state-WellFormed.chains_ok;
  sides_ok = node_state-WellFormed.sides_ok;
}

-- A machine for such rounds.
abbrev machine : Machine
machine = record {
  sha256 = zeros;
  ceil_power = two;
  files = pool_files;
  settings = me;
  limits = record { max_ask_blocks = 10; concurrency_blocks = 2 };
  tx_numbers_in_a_block = 2;
  blank = header 0 0 0;
  clock = λ i. 1000;
  tx_size = λ i. 219;
  is_open = λ i. true;
  inputs = λ i. inputs;
}

-- One block of this node, in a round that has not started.
abbrev idle : Node
idle = record voting {
  group = record initial {
    concurrency_block_numbers = 1;
    miner_list = record this_miner { share_of_block = 1 } ∷ [];
  };
  mining = true;
}

-- Another miner joins.
abbrev join_bytes : Text
join_bytes = bytes "#mining_succeed,10.0.0.9,8001,1,7,1!"

abbrev joined : Node
joined = record idle {
  group = record idle.group {
    state = true;
    concurrency_block_numbers = 2;
    leader_info = (bytes "127.0.0.1", 8001);
    miner_list =
        record this_miner { share_of_block = 1 }
        ∷ record { ip = bytes "10.0.0.9"; port = 8001; share_of_block = 1 }
        ∷ [];
  };
  mining = false;
  actions = interrupt_miner ∷ [];
}

abbrev after : Session
after = record { node = joined; passed = bytes "#mining_succeed10.0.0.9800117" ∷ []; count = 1 }

join_runs : process_node_buffer machine idle join_bytes ≡ done (some ([], after))
unfolding process_node_buffer snowball_dag_experiment.Split.split
    snowball_dag_experiment.Base.Strings.text_eq
    snowball_dag_experiment.Messages.Round.parse_mining_succeed
    snowball_dag_experiment.Numbers.safe_stoi snowball_dag_experiment.Numbers.stoi
    snowball_dag_experiment.Numbers.scan_number snowball_dag_experiment.Numbers.scan_magnitude
    snowball_dag_experiment.Numbers.scan_digits snowball_dag_experiment.Numbers.skip_prefix
    snowball_dag_experiment.Numbers.scan_sign snowball_dag_experiment.Numbers.skip_spaces
    snowball_dag_experiment.Numbers.is_space snowball_dag_experiment.Numbers.digit_value
    on_mining_succeed snowball_dag_experiment.Base.Int.eqb_ℤ
    snowball_dag_experiment.Consensus.join_consensus_group
    snowball_dag_experiment.Consensus.legitimate_certificate
    snowball_dag_experiment.Consensus.choose_leader
    snowball_dag_experiment.Consensus.start_consensus_of_blocks
    snowball_dag_experiment.Consensus.add_member snowball_dag_experiment.Consensus.is_member
    snowball_dag_experiment.Consensus.is_miner snowball_dag_experiment.Numbers.to_uint32
join_runs = refl

process_node_buffer-Grows_example : Grows idle.bc joined.bc
process_node_buffer-Grows_example =
    process_node_buffer-Grows machine idle join_bytes [] after voting-WellFormed join_runs

process_node_buffer-RoundSteps_example :
    (p : RoundSteps 2 (round_view idle.group) (round_view joined.group)) × (joins p ≤ 1)
process_node_buffer-RoundSteps_example =
    process_node_buffer-RoundSteps machine idle join_bytes [] after join_runs

-- The same message in a round of more blocks.
abbrev larger : Machine
larger = record machine { limits = record { max_ask_blocks = 10; concurrency_blocks = 6 } }

abbrev one_more : Node
one_more = record idle {
  group = record idle.group {
    concurrency_block_numbers = 2;
    miner_list =
        record this_miner { share_of_block = 1 }
        ∷ record { ip = bytes "10.0.0.9"; port = 8001; share_of_block = 1 }
        ∷ [];
  };
}

abbrev after_one : Session
after_one = record after { node = one_more }

one_more_runs : process_node_buffer larger idle join_bytes ≡ done (some ([], after_one))
unfolding process_node_buffer snowball_dag_experiment.Split.split
    snowball_dag_experiment.Base.Strings.text_eq
    snowball_dag_experiment.Messages.Round.parse_mining_succeed
    snowball_dag_experiment.Numbers.safe_stoi snowball_dag_experiment.Numbers.stoi
    snowball_dag_experiment.Numbers.scan_number snowball_dag_experiment.Numbers.scan_magnitude
    snowball_dag_experiment.Numbers.scan_digits snowball_dag_experiment.Numbers.skip_prefix
    snowball_dag_experiment.Numbers.scan_sign snowball_dag_experiment.Numbers.skip_spaces
    snowball_dag_experiment.Numbers.is_space snowball_dag_experiment.Numbers.digit_value
    on_mining_succeed snowball_dag_experiment.Base.Int.eqb_ℤ
    snowball_dag_experiment.Consensus.join_consensus_group
    snowball_dag_experiment.Consensus.legitimate_certificate
    snowball_dag_experiment.Consensus.choose_leader
    snowball_dag_experiment.Consensus.start_consensus_of_blocks
    snowball_dag_experiment.Consensus.add_member snowball_dag_experiment.Consensus.is_member
    snowball_dag_experiment.Consensus.is_miner snowball_dag_experiment.Numbers.to_uint32
one_more_runs = refl

process_node_buffer_enough_example :
    (one_more.group.round ≡ idle.group.round)
    × (one_more.group.state ≡ false)
    × (2 ≤ 1 + 1)
    × (1 ≤ 2)
process_node_buffer_enough_example =
    process_node_buffer_enough larger idle join_bytes [] after_one refl one_more_runs (omega arith)

waiting : WaitsForOne me voting 50 0 (header 0 50 0) (header 0 50 0) (pos 2)
waiting = record { started = refl; entry = refl; own = own; known = known; header = refl }

on_answer_verified_1_finishes_example :
    (n' : Node) × (on_answer_verified_1 me limits voting answer 219 1000 ≡ done n')
    × (n'.group.round ≡ pos 1 +ℤ pos 1)
    × (n'.group.state ≡ false)
    × (n'.mining ≡ true)
on_answer_verified_1_finishes_example =
    on_answer_verified_1_finishes me limits voting answer 0 219 1000 (header 0 50 0) (header 0 50 0)
      (pos 2) waiting six

-- A message for the next round, without a certificate.
abbrev later_join : MiningSucceed
later_join = record {
  sender = record { ip = bytes "10.0.0.9"; port = 9 };
  certificate = false;
  round = pos 2;
}

abbrev other_miner : MinerInfo
other_miner = record { ip = bytes "10.0.0.9"; port = 9; share_of_block = 2 }

abbrev leading : Leading
leading = record { bc = node_state; order_in_round = 1; tx_list = 1 }

abbrev shared_out : Outcome Leading → Leading
shared_out (done s) = s
shared_out o = leading

abbrev shared : Leading
shared =
    shared_out (miners_loop zeros two pool_files few me inputs (pos 1) (other_miner ∷ []) leading)

sharing_runs :
    miners_loop zeros two pool_files few me inputs (pos 1) (other_miner ∷ []) leading ≡ done shared
unfolding miners_loop is_miner snowball_dag_experiment.Base.Strings.text_eq
sharing_runs = refl
