-- ===== src/Examples/Nodes.antt =====
-- Tests of Buffer and Handlers: the node of Chains, in a round that has started.
use snowball_dag_experiment.Base.{
  inl, ◌*◌, ◌/◌, ◌≤◌, ◌≡◌, refl, Bool, true, false, none, some, List, [], ◌∷◌, ◌++◌, pos, negsuc,
  Text, bytes, arith, length, leb,
}
use snowball_dag_experiment.Base.Assoc.{int_key, nat_key, find}
use snowball_dag_experiment.Base.Outcome.{Outcome, done, ◌>>=◌}
use snowball_dag_experiment.Base.Int.{◌+ℤ◌, eqb_ℤ}
use snowball_dag_experiment.Base.Strings.{text_eq}
use snowball_dag_experiment.Numbers.{
  blockhash_to_string, digits, digit, to_uint32, get_chain_id_from_hash, string_to_blockhash,
  stoull, scan_number, scan_magnitude, scan_digits, skip_prefix, scan_sign, skip_spaces, is_space,
  digit_value,
}
use snowball_dag_experiment.Merkle.{verify_merkle_proof, verify_text, verify_loop, hash_step}
use snowball_dag_experiment.Split.Tokens.{Free-is_free}
use snowball_dag_experiment.Blocks.{set_nb, update}
use snowball_dag_experiment.Blockchain.{find_block_by_hash_and_chain_id, have_full_block}
use snowball_dag_experiment.Waiting.{add_total_verify_blocks}
use snowball_dag_experiment.Waiting.Full.{set_block_full, set_full, set_received}
use snowball_dag_experiment.HashTree.{null, node, find_block_by_hash}
use snowball_dag_experiment.Consensus.{
  MinerInfo, initial, is_miner, is_member, is_in_consensus_group,
}
use snowball_dag_experiment.Consensus.Joins.{IsBalanced}
use snowball_dag_experiment.TransactionPool.{new_pool}
use snowball_dag_experiment.Messages.Chain.{AskBlock, FullBlock}
use snowball_dag_experiment.Messages.Round.{AnswerVerified1, Ping}
use snowball_dag_experiment.Handlers.Pings.{on_ping}
use snowball_dag_experiment.Handlers.Pings.Once.{on_ping_once}
use snowball_dag_experiment.Buffer.{is_complete, process_buffer}
use snowball_dag_experiment.Buffer.Stream.{stream, handle_all, process_buffer-stream}
use snowball_dag_experiment.Handlers.{Action, add_indirect_peer, Limits, Node, address, act}
use snowball_dag_experiment.Handlers.Replies.{on_ask_block}
use snowball_dag_experiment.Handlers.Replies.Bounded.{SendsHeaders, on_ask_block-SendsHeaders}
use snowball_dag_experiment.Handlers.Rounds.{advance_round}
use snowball_dag_experiment.Handlers.Rounds.Balanced.{advance_round-IsBalanced}
use snowball_dag_experiment.Handlers.Votes.{my_votes, is_enough, on_answer_verified_1}
use snowball_dag_experiment.Handlers.Votes.Quorum.{
  is_enough_lem, IsAccepted, on_answer_verified_1-IsAccepted,
}
use snowball_dag_experiment.Handlers.FullBlocks.{is_left_out, on_full_block}
use snowball_dag_experiment.Handlers.FullBlocks.Verified.{IsVerified, on_full_block-IsVerified}
use snowball_dag_experiment.Examples.Trees.{header}
use snowball_dag_experiment.Examples.Chains.{node_state}
use snowball_dag_experiment.Examples.Wire.{me}

abbrev pub limits : Limits
limits = record { max_ask_blocks = 10; concurrency_blocks = 10 }

abbrev pub this_miner : MinerInfo
this_miner = record { ip = bytes "10.0.0.7"; port = 8001; share_of_block = 2 }

abbrev pub voting : Node
voting = record {
  bc = record node_state { waiting_for_phase_1_block = (50, header 0 50 0) ∷ [] };
  group = record initial {
    state = true;
    concurrency_block_numbers = 2;
    miner_list = this_miner ∷ [];
    future_info =
        (
          pos 2,
          record { round = pos 2; leader_info = ([], 0); miner = this_miner ∷ this_miner ∷ [] },
        )
        ∷ [];
  };
  pool = new_pool 0;
  mining = false;
  pings = [];
  actions = [];
}

abbrev collect : Text → List Text → Outcome (Bool × List Text)
collect w l = done (true, w ∷ l)

abbrev arrived : Text
arrived = stream (bytes "ping,1" ∷ bytes "a" ∷ []) (bytes "#ask")

open_end : is_complete (bytes "#ask") ≡ false
unfolding is_complete
open_end = refl

process_buffer-stream_example : process_buffer true collect arrived [] ≡ (
    handle_all collect (bytes "ping,1" ∷ bytes "a" ∷ []) []
    >>= (λ s. done (some (bytes "#ask", s))))
process_buffer-stream_example =
    process_buffer-stream true collect (bytes "ping,1" ∷ bytes "a" ∷ []) (bytes "ask") []
      (Free-is_free 35 (bytes "ping,1") refl, (Free-is_free 35 (bytes "a") refl, tt))
      (Free-is_free 35 (bytes "ask") refl) open_end

abbrev question : AskBlock
question = record {
  sender = record { ip = bytes "10.0.0.9"; port = 9 };
  chain_id = 0;
  hash = 70;
  max_number_of_blocks = 3;
}

is_enough_lem_example :
    (is_enough limits (pos 5) ≡ leb (10 / 3 * 2) 5) × (is_enough limits (negsuc 5) ≡ true)
is_enough_lem_example = is_enough_lem limits 5 (omega arith) (omega arith)

advance_round-IsBalanced_example :
    IsBalanced (advance_round voting).group
    × ((advance_round voting).group.round ≡ pos 1 +ℤ pos 1)
    × ((advance_round voting).group.state ≡ false)
    × ((advance_round voting).group.miner_list
        ≡ (elim (find (pos 1 +ℤ pos 1) voting.group.future_info) [
          | none ↦ []
          | some info ↦ info.miner
        ]))
    × ((advance_round voting).mining ≡ true)
advance_round-IsBalanced_example = advance_round-IsBalanced voting

abbrev pub answer : AnswerVerified1
answer = record { sender = record { ip = bytes "10.0.0.9"; port = 9 }; hash = 50; votes = pos 4 }

waits : find 50 voting.bc.waiting_for_phase_1_block ≡ some (header 0 50 0)
unfolding find
waits = refl

pub own : my_votes me voting.group (header 0 50 0) ≡ done (pos 2)
unfolding my_votes eqb_ℤ is_miner text_eq
own = refl

pub known : find_block_by_hash_and_chain_id voting.bc 50 0 ≡ some 0
unfolding find_block_by_hash_and_chain_id find_block_by_hash
known = refl

pub six : is_enough limits (pos 0 +ℤ pos 2 +ℤ pos 4) ≡ true
unfolding is_enough ◌+ℤ◌ to_uint32
six = refl

on_answer_verified_1-IsAccepted_example :
    (n' : Node) × (on_answer_verified_1 me limits voting answer 219 1000 ≡ done n')
    × IsAccepted n'.bc.store 0 (pos 0 +ℤ pos 2 +ℤ pos 4)
    × (find 50 n'.bc.waiting_for_phase_1_block ≡ none)
    × (IsBalanced voting.group → IsBalanced n'.group)
on_answer_verified_1-IsAccepted_example =
    on_answer_verified_1-IsAccepted me limits voting answer 219 1000 0 (header 0 50 0)
      (header 0 50 0) (pos 2) refl waits own known refl six

-- A node with the blocks 50, 20 and 70 one below the other.
abbrev three_deep : Node
three_deep = record voting {
  bc = record node_state { chains = λ c. node (node null 1 null) 0 (node null 2 null) };
}

abbrev result : Outcome Node → Node
result (done n) = n
result o = voting

abbrev answered : Node
answered = result (on_ask_block me limits three_deep question)

answered_runs : on_ask_block me limits three_deep question ≡ done answered
unfolding on_ask_block find_block_by_hash_and_chain_id find_block_by_hash
answered_runs = refl

on_ask_block-SendsHeaders_example :
    (l : List Action) × (answered
      ≡ record three_deep { actions = [] ++ (add_indirect_peer (address question.sender) ∷ l) })
    × SendsHeaders me three_deep.bc.store question.sender l
    × (length l ≤ 3)
    × (length l ≤ 10)
on_ask_block-SendsHeaders_example =
    on_ask_block-SendsHeaders me limits three_deep answered question answered_runs

-- A digest of one value: it names the block 50 of chain 0.
abbrev constant : Text → Text
constant t = bytes "0000000000000032000000000000000000000000000000000000000000000000"

abbrev full_message : FullBlock
full_message = record {
  sender = record { ip = bytes "10.0.0.9"; port = 9 };
  chain_id = 0;
  hash = 50;
  nb = record (header 0 50 0) {
    trailing = 50;
    merkle_root_chains = constant [];
    proof_new_chain = blockhash_to_string 1 ∷ blockhash_to_string 0 ∷ constant [] ∷ [];
    consensus_part = record (header 0 50 0).consensus_part { verify_1_numbers = pos 7 };
  };
  sent_time = 5;
}

abbrev filled : Node
filled = result (on_full_block constant me limits voting full_message 219 1000)

filled_runs : on_full_block constant me limits voting full_message 219 1000 ≡ done filled
unfolding on_full_block have_full_block find_block_by_hash find_block_by_hash_and_chain_id is_enough
    to_uint32 get_chain_id_from_hash scan_number scan_magnitude scan_digits skip_prefix scan_sign
    skip_spaces is_space digit_value string_to_blockhash stoull verify_merkle_proof verify_text
    verify_loop hash_step text_eq blockhash_to_string digits digit set_nb
filled_runs = refl

was_not : voting.bc.store.is_full_block 0 ≡ false
was_not = refl

now_is : filled.bc.store.is_full_block 0 ≡ true
unfolding on_full_block have_full_block find_block_by_hash find_block_by_hash_and_chain_id is_enough
    to_uint32 get_chain_id_from_hash scan_number scan_magnitude scan_digits skip_prefix scan_sign
    skip_spaces is_space digit_value string_to_blockhash stoull verify_merkle_proof verify_text
    verify_loop hash_step text_eq blockhash_to_string digits digit is_left_out is_in_consensus_group
    is_member is_miner eqb_ℤ act set_block_full set_full set_received set_nb update
    add_total_verify_blocks
now_is = refl

on_full_block-IsVerified_example : IsVerified constant me limits voting full_message 0
on_full_block-IsVerified_example =
    on_full_block-IsVerified constant me limits voting filled full_message 219 1000 0 filled_runs
      was_not now_is

-- The same ping twice, to measure the latency.
abbrev a_ping : Ping
a_ping = record {
  sender = record { ip = bytes "10.0.0.9"; port = 9 };
  tt = bytes "x1";
  dnext = 3;
  tsec = 100;
  mode = pos 0;
}

measures : eqb_ℤ a_ping.mode (pos 1) ≡ false
unfolding eqb_ℤ
measures = refl

on_ping_once_example :
    on_ping me (on_ping me voting a_ping) a_ping
    ≡ act (on_ping me voting a_ping) (add_indirect_peer (address a_ping.sender) ∷ [])
on_ping_once_example = on_ping_once me voting a_ping a_ping refl (inl measures)
