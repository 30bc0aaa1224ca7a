-- ===== src/Handlers/Verifying.antt =====
-- The handlers of "#consensus_block" and "#verified_1": a block that the leader asks for, and a block
-- that another node asks to vote on.
use snowball_dag_experiment.Base.{
  ℕ, Bool, true, not, ◌&&◌, Option, none, some, [], ◌∷◌, pos, ltb_ℤ, eqb_ℤ, Text, bytes, text_eq,
  ◌==◌, if◌then◌else◌,
}
use snowball_dag_experiment.Base.Assoc.{int_key, find}
use snowball_dag_experiment.Base.Outcome.{Outcome, done, ◌>>=◌, deref}
use snowball_dag_experiment.Blocks.{SenderInfo, NetworkBlock, ConsensusPart}
use snowball_dag_experiment.Consensus.{MinerInfo, is_in_consensus_group}
use snowball_dag_experiment.Transactions.{verify_pre_block}
use snowball_dag_experiment.Transactions.PoolFiles.{Files, verify_validate_block}
use snowball_dag_experiment.Messages.{Settings}
use snowball_dag_experiment.Messages.Round.{
  create_have_consensus_block, create_answer_verified_1_info,
}
use snowball_dag_experiment.Mining.{MinerLimits, mine_new_block}
use snowball_dag_experiment.Handlers.{within, write_to_one_peer, Node, act}
use snowball_dag_experiment.Handlers.Replies.{on_process_block}
use snowball_dag_experiment.Handlers.Votes.{get_member}

-- "detect leader"
unfoldable pub is_leader : SenderInfo → Bool
is_leader s = text_eq s.ip (bytes "127.0.0.1") && (s.port == 8001)

-- The block as for "#process_block", and then the answer with the votes of the member.
unfoldable pub vote : Settings → Node → SenderInfo → NetworkBlock → Option MinerInfo → Outcome Node
unfolding within act
vote st n sender nb member = do
  n1 ← within st.chains nb.chain_id (on_process_block st n sender nb)
  m ← deref member
  done (
      act n1 (
        write_to_one_peer sender.ip sender.port
          (create_answer_verified_1_info st nb.hash (pos m.share_of_block))
        ∷ []))

-- A block of an earlier round: only a miner of that round answers. The entry of the round is read without
-- a test for the end of the map.
unfoldable pub vote_in_history : Settings → Node → SenderInfo → NetworkBlock → Outcome Node
unfolding vote
vote_in_history st n sender nb = do
  info ← deref (find nb.consensus_part.round n.group.history_info)
  (elim (get_member info.miner st.my_ip st.my_port) [
    | none ↦ done n
    | some m ↦ vote st n sender nb (some m)
  ])

module _ (sha256 : Text → Text) (ceil_power : ℕ → ℕ) (files : Files) (lim : MinerLimits)
    (st : Settings) where
  unfoldable pub on_consensus_block : Node → SenderInfo → ConsensusPart → ℕ → ℕ → Outcome Node
  unfolding act
  on_consensus_block n sender cp random time_of_now =
      if eqb_ℤ cp.round n.group.round && not n.group.state
      then done n
      else if not (is_leader sender)
      then done n
      else (do
        verified ← verify_pre_block cp
        (if not verified then done n else (do
          bc ←
              mine_new_block sha256 ceil_power files lim st n.bc
                (record cp { verify_1_numbers = pos 0; verify_2_numbers = pos 0 }) random
                time_of_now
          done (
              act (record n { bc = bc })
                (write_to_one_peer sender.ip sender.port
                    (create_have_consensus_block st cp.order_in_round true)
                  ∷ [])))))

  -- A block that was validated.
  unfoldable pub vote_on : Node → SenderInfo → NetworkBlock → Outcome Node
  unfolding vote_in_history vote
  vote_on n sender nb =
      let earlier = vote_in_history st n sender nb in
      let now = vote st n sender nb (get_member n.group.miner_list st.my_ip st.my_port) in
      if ltb_ℤ nb.consensus_part.round n.group.round
      then earlier
      else if not (is_in_consensus_group n.group sender.ip sender.port)
      then done n
      else now

  unfoldable pub on_verified_1 : Node → SenderInfo → NetworkBlock → Outcome Node
  unfolding vote_on
  on_verified_1 n sender nb =
      if not n.group.state && eqb_ℤ nb.consensus_part.round n.group.round then done n else (do
        valid ← verify_validate_block sha256 ceil_power files lim.concurrency_blocks nb
        (if not valid then done n else vote_on n sender nb))
