-- ===== src/Handlers/Votes.antt =====
-- The handler of "#answer_verified_1": the votes on a block of this node. The `int` of the votes is
-- compared with a `uint32_t`, so that it is converted. An overflow of the sum is not modelled.
pub mod Quorum
pub mod Finish
use snowball_dag_experiment.Base.{
  ℕ, zero, suc, ◌+◌, ◌-◌, ◌*◌, ◌/◌, ◌%◌, ◌^◌, Bool, true, false, not, Option, none, some, List, [],
  ◌∷◌, ◌++◌, ℤ, pos, ◌+ℤ◌, eqb_ℤ, Text, ltb, leb, if◌then◌else◌,
}
use snowball_dag_experiment.Base.Assoc.{nat_key, find, erase, assign}
use snowball_dag_experiment.Base.Outcome.{Outcome, done, ◌>>=◌, deref}
use snowball_dag_experiment.Numbers.{to_uint32}
use snowball_dag_experiment.Blocks.{Store, NetworkBlock, ConsensusPart, update, set_nb}
use snowball_dag_experiment.Blockchain.{Blockchain, find_block_by_hash_and_chain_id}
use snowball_dag_experiment.Waiting.{add_total_ask_for_verify_blocks}
use snowball_dag_experiment.Waiting.Full.{set_received, set_full}
use snowball_dag_experiment.Consensus.{MinerInfo, ConsensusGroup, is_miner}
use snowball_dag_experiment.Messages.{Settings}
use snowball_dag_experiment.Messages.Round.{AnswerVerified1}
use snowball_dag_experiment.Handlers.{
  Action, add_bytes_received, additional_verified_transaction, Limits, Node, act,
}
use snowball_dag_experiment.Handlers.Rounds.{advance_round}

unfoldable pub get_member : List MinerInfo → Text → ℕ → Option MinerInfo
get_member [] ip port = none
get_member (m ∷ l) ip port = if is_miner ip port m then some m else get_member l ip port

-- The share of this node, for a block without a vote.
unfoldable pub my_votes : Settings → ConsensusGroup → NetworkBlock → Outcome ℤ
unfolding get_member
my_votes st g nb =
    if eqb_ℤ nb.consensus_part.verify_1_numbers (pos 0)
    then (do m ← deref (get_member g.miner_list st.my_ip st.my_port); done (pos m.share_of_block))
    else done (pos 0)

unfoldable pub with_votes : NetworkBlock → ℤ → NetworkBlock
with_votes nb v = record nb { consensus_part = record nb.consensus_part { verify_1_numbers = v } }

-- `votes >= (CONCURRENCY_BLOCKS / 3) * 2`
unfoldable pub is_enough : Limits → ℤ → Bool
is_enough lim v = leb (lim.concurrency_blocks / 3 * 2 % 2 ^ 32) (to_uint32 v)

-- The block in the store gets the votes and is full.
unfoldable pub accept_block : Blockchain → ℕ → NetworkBlock → ℤ → ℕ → Blockchain
unfolding with_votes set_received set_full
accept_block bc b nb v time_of_now =
    let nb' = with_votes nb v in
    let s = set_full (set_nb bc.store b nb') b in
    set_received (add_total_ask_for_verify_blocks (record bc { store = s }) nb.consensus_part.round)
      b nb' time_of_now

-- The block `b` with the header `nb` is accepted, and its entry goes.
unfoldable pub settle_block : Node → ℕ → ℕ → NetworkBlock → ℤ → ℕ → ℕ → Node
unfolding act accept_block
settle_block n hash b nb v tx_size time_of_now =
    let bc1 = record n.bc {
      total_ask_for_verify1_blocks_in_one_round =
          (n.bc.total_ask_for_verify1_blocks_in_one_round + 1) % 2 ^ 64;
      total_verify_local_block = (n.bc.total_verify_local_block + 1) % 2 ^ 64;
    } in
    let bc2 = accept_block bc1 b nb v time_of_now in
    act
      (record n {
        bc = record bc2 { waiting_for_phase_1_block = erase hash n.bc.waiting_for_phase_1_block };
      })
      (add_bytes_received 0 (tx_size * nb.no_txs % 2 ^ 32)
        ∷ additional_verified_transaction nb.no_txs
        ∷ [])

-- The round is over with the last entry.
unfoldable pub end_of_round : Node → Node
unfolding advance_round
end_of_round n = elim n.bc.waiting_for_phase_1_block [ [] ↦ advance_round n | e ∷ m ↦ n ]

-- A block with enough votes. The header is read after the tests for NULL.
unfoldable pub enough_votes : Node → ℕ → NetworkBlock → ℤ → ℕ → ℕ → Outcome Node
unfolding settle_block end_of_round
enough_votes n hash w v tx_size time_of_now = do
  b ← deref (find_block_by_hash_and_chain_id n.bc w.hash w.chain_id)
  nb ← deref (n.bc.store.nb b)
  done (end_of_round (settle_block n hash b nb v tx_size time_of_now))

-- The new header of the entry.
unfoldable pub count_votes : Node → ℕ → NetworkBlock → Node
count_votes n hash w = record n {
  bc = record n.bc { waiting_for_phase_1_block = assign hash w n.bc.waiting_for_phase_1_block };
}

-- The entry is read before the test for the end of the map.
unfoldable pub on_answer_verified_1 :
    Settings → Limits → Node → AnswerVerified1 → ℕ → ℕ → Outcome Node
unfolding my_votes is_enough enough_votes with_votes count_votes
on_answer_verified_1 st lim n q tx_size time_of_now = if not n.group.state then done n else (do
  w ← deref (find q.hash n.bc.waiting_for_phase_1_block)
  mine ← my_votes st n.group w
  (let v = w.consensus_part.verify_1_numbers +ℤ mine +ℤ q.votes in
      let w' = with_votes w v in
      let n1 = count_votes n q.hash w' in
      (if is_enough lim v then enough_votes n1 q.hash w' v tx_size time_of_now else done n1)))
