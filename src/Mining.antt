-- ===== src/Mining.antt =====
-- `mine_new_block` of Snowball_Main/code/miner.cpp: a new block over the deepest blocks of all chains.
-- The digest, the floating-point expression for the number of leaves, the files of the transaction pool,
-- the random number and the clock are arguments.
pub mod Trailing
pub mod Assembled
pub mod Accepted
pub mod Kept
pub mod Leader
pub mod Returns
use snowball_dag_experiment.Base.{
  ℕ, zero, suc, ◌+◌, ◌-◌, ◌%◌, ◌^◌, Bool, true, false, Option, none, some, List, [], ◌∷◌, ◌++◌, ℤ,
  ◌-ℤ◌, Text, ltb, leb, if◌then◌else◌,
}
use snowball_dag_experiment.Base.Outcome.{Outcome, done, ◌>>=◌, deref, or_exit}
use snowball_dag_experiment.Numbers.{
  to_string, to_uint32, blockhash_to_string, string_to_blockhash, get_chain_id_from_hash,
}
use snowball_dag_experiment.Merkle.{compute_merkle_tree_root, compute_merkle_proof}
use snowball_dag_experiment.Merkle.Padding.{pad_leaves}
use snowball_dag_experiment.Blocks.{NetworkBlock, ConsensusPart}
use snowball_dag_experiment.Blockchain.{Blockchain, add_block_by_parent_hash_and_chain_id}
use snowball_dag_experiment.Waiting.{add_waiting_for_phase_1_blocks, add_mined_block}
use snowball_dag_experiment.Transactions.PoolFiles.{Files, create_block_from_transaction_pool}
use snowball_dag_experiment.Messages.{Settings}

-- What the loop over the chains leaves.
pub record Tips : Type 0 where
  pub trailing : ℕ
  pub trailing_id : ℕ
  pub leaves : List Text

-- The loop from the chain `i` on, with `n` chains left; `t` is the trailing block so far, of the chain
-- `id`. A deepest block without a header ends the program.
unfoldable pub tips_loop : Blockchain → ℕ → ℕ → ℕ → ℕ → Outcome Tips
tips_loop bc zero i t id = done (record { trailing = t; trailing_id = id; leaves = [] })
tips_loop bc (suc n) i t id = do
  nb ← or_exit (bc.store.nb (bc.deepest i))
  tnb ← deref (bc.store.nb t)
  rest ←
      tips_loop bc n (suc i) (if ltb tnb.next_rank nb.next_rank then bc.deepest i else t)
        (if ltb tnb.next_rank nb.next_rank then i else id)
  done (record rest { leaves = blockhash_to_string (bc.store.hash (bc.deepest i)) ∷ rest.leaves })

-- "if (nb.next_rank <= nb.rank)"
unfoldable pub rank_after : ℕ → ℕ → ℕ
rank_after rank next_rank = if leb next_rank rank then (rank + 1) % 2 ^ 32 else next_rank

-- The limits that the miner reads from params.h.
pub record MinerLimits : Type 0 where
  pub concurrency_blocks : ℕ
  pub tx_numbers_in_a_block : ℕ

-- The new block in the chain and in the maps of blocks that wait for votes.
unfoldable pub keep_mined : Blockchain → NetworkBlock → Blockchain
keep_mined bc nb =
    let bc1 = add_block_by_parent_hash_and_chain_id bc nb.parent nb.hash nb.chain_id nb in
    add_mined_block (add_waiting_for_phase_1_blocks bc1 nb.hash nb).1

module _ (sha256 : Text → Text) (ceil_power : ℕ → ℕ) (files : Files) (lim : MinerLimits) where
  -- "Determine the new block" and "Create a block": the header on the chain `chain_id`, for the root
  -- over the leaves of `tips`.
  unfoldable pub place_block :
      Blockchain
      → Tips
      → Text
      → Text
      → ℕ
      → ℕ
      → ConsensusPart
      → ConsensusPart
      → ℕ
      → Outcome NetworkBlock
  unfolding rank_after
  place_block bc tips root txs chain_id hash cp cp' time_of_now = do
    proof ← deref (compute_merkle_proof sha256 (pad_leaves ceil_power tips.leaves) chain_id)
    pnb ← deref (bc.store.nb (bc.deepest chain_id))
    tnb ← deref (bc.store.nb tips.trailing)
    done (record {
      chain_id = chain_id;
      parent = bc.store.hash (bc.deepest chain_id);
      hash = hash;
      trailing = bc.store.hash tips.trailing;
      trailing_id = tips.trailing_id;
      merkle_root_chains = root;
      merkle_root_txs = txs;
      proof_new_chain = proof;
      no_txs = to_uint32 (cp.tx_second -ℤ cp.tx_first);
      depth = (pnb.depth + 1) % 2 ^ 32;
      rank = pnb.next_rank;
      next_rank = rank_after pnb.next_rank tnb.next_rank;
      time_mined = time_of_now;
      time_received = time_of_now;
      time_commited = 0;
      time_partial = 0;
      consensus_part = record cp' { list = [] };
    })

  -- The hash of the roots says the chain and the name of the block.
  unfoldable pub header_over :
      Settings → Blockchain → Tips → Text → Text → ConsensusPart → ℕ → Outcome NetworkBlock
  unfolding place_block
  header_over st bc tips root txs cp time_of_now =
      let h = sha256 (root ++ txs) in
      (do
        chain_id ← deref (get_chain_id_from_hash st.chains h)
        hash ← deref (string_to_blockhash h)
        cp' ← create_block_from_transaction_pool sha256 ceil_power files lim.concurrency_blocks cp
        place_block bc tips root txs chain_id hash cp cp' time_of_now)

  -- The header of the new block, with `merkle_root_txs` from the random number.
  unfoldable pub mined_header : Settings → Blockchain → ConsensusPart → ℕ → ℕ → Outcome NetworkBlock
  unfolding tips_loop header_over
  mined_header st bc cp random time_of_now = do
    tips ← tips_loop bc st.chains 0 (bc.deepest 0) 0
    root ← deref (compute_merkle_tree_root sha256 (pad_leaves ceil_power tips.leaves))
    header_over st bc tips root (to_string random) cp time_of_now

  unfoldable pub mine_new_block : Settings → Blockchain → ConsensusPart → ℕ → ℕ → Outcome Blockchain
  unfolding mined_header keep_mined
  mine_new_block st bc cp random time_of_now = do
    nb ← mined_header st bc cp random time_of_now
    done (keep_mined bc nb)
