-- ===== src/Handlers/FullBlocks.antt =====
-- The handler of "#full_block": the rest of a block, what is verified of it, and the end of a round
-- that this node takes no part in. The digest, OpenSSL's SHA-256, is a parameter. The copy of the
-- transactions to a file is left out.
pub mod Verified
use snowball_dag_experiment.Base.{
  ℕ, zero, suc, ◌+◌, ◌*◌, ◌%◌, ◌^◌, Bool, true, false, not, ◌&&◌, Option, none, some, List, [], ◌∷◌,
  ◌++◌, ℤ, eqb_ℤ, Text, ◌==◌, ltb, if◌then◌else◌,
}
use snowball_dag_experiment.Base.Outcome.{Outcome, done, ◌>>=◌, deref}
use snowball_dag_experiment.Numbers.{get_chain_id_from_hash, string_to_blockhash}
use snowball_dag_experiment.Merkle.{verify_merkle_proof}
use snowball_dag_experiment.Blocks.{Store, NetworkBlock, ConsensusPart, set_nb}
use snowball_dag_experiment.Blockchain.{
  Blockchain, find_block_by_hash_and_chain_id, have_full_block,
}
use snowball_dag_experiment.Waiting.{add_total_verify_blocks}
use snowball_dag_experiment.Waiting.Full.{set_block_full}
use snowball_dag_experiment.Consensus.{ConsensusGroup, is_in_consensus_group}
use snowball_dag_experiment.Messages.{Settings}
use snowball_dag_experiment.Messages.Chain.{FullBlock, create_ask_block}
use snowball_dag_experiment.Handlers.{
  within, Action, write_to_all_peers, add_bytes_received, additional_verified_transaction, Limits,
  Node, act,
}
use snowball_dag_experiment.Handlers.Rounds.{advance_round}
use snowball_dag_experiment.Handlers.Votes.{is_enough}

-- "Adding all from nb"
unfoldable pub add_from : NetworkBlock → NetworkBlock → NetworkBlock
add_from n nb = record n {
  trailing = nb.trailing;
  trailing_id = nb.trailing_id;
  merkle_root_chains = nb.merkle_root_chains;
  consensus_part = record n.consensus_part {
    verify_1_numbers = nb.consensus_part.verify_1_numbers;
    verify_2_numbers = nb.consensus_part.verify_1_numbers;
  };
  merkle_root_txs = nb.merkle_root_txs;
  proof_new_chain = nb.proof_new_chain;
  time_mined = nb.time_mined;
  time_commited = 0;
  time_partial = 0;
}

-- What the checks of a header come to.
pub data Verdict : Type 0 where
  incorrect : Verdict
  no_trailing : Verdict
  correct : Verdict

module _ (digest : Text → Text) where
  -- The checks of the chain, the hash, the Merkle proof and the trailing block, in their order; the
  -- exceptions of the conversions are not caught.
  unfoldable pub check_header : Settings → Blockchain → NetworkBlock → Outcome Verdict
  unfolding within
  check_header st bc n =
      let h = digest (n.merkle_root_chains ++ n.merkle_root_txs) in
      (do
        chain_id ← deref (get_chain_id_from_hash st.chains h)
        (if not (chain_id == n.chain_id) then done incorrect else (do
          hash ← deref (string_to_blockhash h)
          (if not (hash == n.hash) then done incorrect else (do
            proved ← deref (
                verify_merkle_proof digest n.proof_new_chain n.parent n.merkle_root_chains chain_id)
            (if not proved
                then done incorrect
                else within st.chains n.trailing_id
                    (elim (find_block_by_hash_and_chain_id bc n.trailing n.trailing_id) [
                      | none ↦ done no_trailing
                      | some b ↦ done correct
                    ])))))))

  -- The node does not take part in the round of the block.
  unfoldable pub is_left_out : Settings → ConsensusGroup → ℤ → Bool
  is_left_out st g round =
      eqb_ℤ g.round round && g.state && not (is_in_consensus_group g st.my_ip st.my_port)

  -- A block with a correct header becomes full.
  unfoldable pub store_block : Node → FullBlock → NetworkBlock → ℕ → ℕ → Node
  unfolding act set_block_full
  store_block n q nb tx_size time_of_now =
      let bc1 = set_block_full n.bc q.chain_id q.hash time_of_now in
      act (record n { bc = add_total_verify_blocks bc1 nb.consensus_part.round })
        (add_bytes_received 0 (tx_size * nb.no_txs % 2 ^ 32)
          ∷ additional_verified_transaction nb.no_txs
          ∷ [])

  unfoldable pub complete_block : Settings → Node → FullBlock → NetworkBlock → ℕ → ℕ → Node
  unfolding store_block is_left_out advance_round
  complete_block st n q nb tx_size time_of_now =
      let n1 = store_block n q nb tx_size time_of_now in
      if is_left_out st n.group nb.consensus_part.round then advance_round n1 else n1

  -- The header `nb` of the block `b` with what the message holds, checked.
  unfoldable pub fill_block : Settings → Node → FullBlock → ℕ → NetworkBlock → ℕ → ℕ → Outcome Node
  unfolding act check_header complete_block
  fill_block st n q b nb tx_size time_of_now =
      let n1 = record n { bc = record n.bc { store = set_nb n.bc.store b nb } } in
      (do
        v ← check_header st n1.bc nb
        done (elim v [
          | incorrect ↦ n1
          | no_trailing ↦
              act n1 (write_to_all_peers (create_ask_block st nb.trailing_id nb.trailing 0 0) ∷ [])
          | correct ↦ complete_block st n1 q nb tx_size time_of_now
        ]))

  unfoldable pub on_full_block : Settings → Limits → Node → FullBlock → ℕ → ℕ → Outcome Node
  unfolding fill_block add_from
  on_full_block st lim n q tx_size time_of_now =
      if have_full_block n.bc q.chain_id q.hash
      then done n
      else elim (find_block_by_hash_and_chain_id n.bc q.hash q.chain_id) [
        | none ↦ done n
        | some b ↦ elim (n.bc.store.nb b) [
          | none ↦ done n
          | some nb ↦
              let filled = fill_block st n q b (add_from nb q.nb) tx_size time_of_now in
              if is_enough lim q.nb.consensus_part.verify_1_numbers then filled else done n
        ]
      ]
