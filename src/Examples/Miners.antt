-- ===== src/Examples/Miners.antt =====
-- Tests of Mining: a block on two chains with the same tip, under a digest of zeros.
use mathlib.Core.Option.{some-injective}
use snowball_dag_experiment.Base.{
  ℕ, ◌+◌, ◌*◌, ◌%◌, ◌^◌, ◌<◌, ◌≤◌, ◌≡◌, refl, subst, All, Bool, true, false, none, some, List, [],
  ◌∷◌, ◌++◌, ℤ, pos, ◌-ℤ◌, Text, bytes, arith, length, replicate,
}
use snowball_dag_experiment.Base.Outcome.{Outcome, done}
use snowball_dag_experiment.Base.Int.{sub_ℕ}
use snowball_dag_experiment.Numbers.{
  digits, digit, digit_value, scan_digits, to_uint32, blockhash_to_string, string_to_blockhash,
  get_chain_id_from_hash, stoull, scan_number, scan_magnitude, scan_sign, skip_prefix, skip_spaces,
  is_space,
}
use snowball_dag_experiment.Numbers.Digest.{IsDigest}
use snowball_dag_experiment.Numbers.Digits.{AllDigits-replicate}
use snowball_dag_experiment.Merkle.Padding.{Ceils}
use snowball_dag_experiment.Blocks.{NetworkBlock, ConsensusPart}
use snowball_dag_experiment.Blockchain.{Blockchain, find_block_by_hash_and_chain_id}
use snowball_dag_experiment.Transactions.PoolFiles.{
  Files, block_number, room_for, create_block_from_transaction_pool, verify_validate_block,
}
use snowball_dag_experiment.Transactions.Validated.{
  verify_validate_block-create_block_from_transaction_pool,
}
use snowball_dag_experiment.Messages.{Settings}
use snowball_dag_experiment.Handlers.FullBlocks.{check_header}
use snowball_dag_experiment.Mining.{MinerLimits, mined_header, mine_new_block}
use snowball_dag_experiment.Mining.Accepted.{
  trailing_verdict, mined_header-check_header, mined_header-ranks,
}
use snowball_dag_experiment.Mining.Returns.{mine_new_block_returns}
use snowball_dag_experiment.Examples.Trees.{header}
use snowball_dag_experiment.Examples.Chains.{node_state}
use snowball_dag_experiment.HashTree.{find_block_by_hash}
use snowball_dag_experiment.Examples.Wire.{me}

abbrev pub two_chains : Settings
two_chains = record me { chains = 2 }

abbrev pub zeros : Text → Text
zeros t = replicate 64 48

abbrev pub two : ℕ → ℕ
two n = 2

abbrev pub pool_files : Files
pool_files = record {
  write_blocks = true;
  body = λ n. some (bytes "a:b:1:s" ∷ bytes "c:d:2:t" ∷ []);
  header = λ n. [];
  tx_size = λ n. 219;
}

abbrev pub miner_limits_2 : MinerLimits
miner_limits_2 = record { concurrency_blocks = 10; tx_numbers_in_a_block = 2 }

abbrev wanted : ConsensusPart
wanted = record {
  round = pos 1;
  order_in_round = pos 1;
  merkel_root_of_txs = [];
  tx_first = pos 1;
  tx_second = pos 3;
  list = [];
  verify_1_numbers = pos 1;
  verify_2_numbers = pos 1;
}

two_leaves : Ceils two 2 1
two_leaves = record { power = refl; enough = omega arith; fits = omega arith }

zeros-IsDigest : (t : Text) → IsDigest (zeros t)
unfolding digit_value
zeros-IsDigest t = record { all_digits = AllDigits-replicate 64; size = refl }

abbrev made : Outcome ConsensusPart → ConsensusPart
made (done cp) = cp
made o = wanted

abbrev filled : ConsensusPart
filled = made (create_block_from_transaction_pool zeros two pool_files 10 wanted)

filled_runs : create_block_from_transaction_pool zeros two pool_files 10 wanted ≡ done filled
unfolding create_block_from_transaction_pool snowball_dag_experiment.Merkle.compute_merkle_tree_root
    snowball_dag_experiment.Merkle.Padding.pad_leaves
    snowball_dag_experiment.Transactions.PoolFiles.get_lines to_uint32
    snowball_dag_experiment.Base.Int.◌-ℤ◌ snowball_dag_experiment.Merkle.pair_up
filled_runs = refl

abbrev assembled : Outcome NetworkBlock → NetworkBlock
assembled (done nb) = nb
assembled o = header 0 0 0

abbrev mined : NetworkBlock
mined =
    assembled (mined_header zeros two pool_files miner_limits_2 two_chains node_state wanted 7 1000)

mined_runs :
    mined_header zeros two pool_files miner_limits_2 two_chains node_state wanted 7 1000
    ≡ done mined
unfolding mined_header create_block_from_transaction_pool
    snowball_dag_experiment.Merkle.compute_merkle_tree_root
    snowball_dag_experiment.Merkle.Padding.pad_leaves
    snowball_dag_experiment.Transactions.PoolFiles.get_lines to_uint32
    snowball_dag_experiment.Base.Int.◌-ℤ◌ snowball_dag_experiment.Merkle.pair_up
    get_chain_id_from_hash scan_number scan_magnitude scan_digits skip_prefix scan_sign skip_spaces
    is_space digit_value string_to_blockhash stoull snowball_dag_experiment.Merkle.adj_index
    snowball_dag_experiment.Merkle.compute_merkle_proof snowball_dag_experiment.Merkle.proof_loop
    snowball_dag_experiment.Merkle.push_adjacent snowball_dag_experiment.Merkle.push_root
    snowball_dag_experiment.Merkle.root_loop snowball_dag_experiment.Mining.header_over
    snowball_dag_experiment.Mining.place_block snowball_dag_experiment.Mining.rank_after
    snowball_dag_experiment.Mining.tips_loop blockhash_to_string digit digits
    snowball_dag_experiment.Transactions.PoolFiles.block_leaves block_number
    snowball_dag_experiment.Waiting.to_int
mined_runs = refl

mined_header-check_header_example :
    (check_header zeros two_chains node_state mined
      ≡ done (
          trailing_verdict
            (find_block_by_hash_and_chain_id node_state mined.trailing mined.trailing_id)))
    × (mined.chain_id < 2)
    × (mined.trailing_id < 2)
    × (length mined.proof_new_chain ≡ 1 + 2)
mined_header-check_header_example =
    mined_header-check_header zeros two pool_files miner_limits_2 two_chains node_state wanted 7
      1000 mined 1 node_state (omega arith) two_leaves mined_runs

mine_new_block_returns_example :
    (bc' : Blockchain) × (mine_new_block zeros two pool_files miner_limits_2 two_chains node_state
        wanted 7 1000
      ≡ done bc')
mine_new_block_returns_example =
    mine_new_block_returns zeros two pool_files miner_limits_2 two_chains node_state wanted 7 1000 1
      filled (omega arith) two_leaves zeros-IsDigest (λ c h. (header 0 50 0, refl)) filled_runs

low_tips :
    (c : ℕ) (x : NetworkBlock)
    → c < 2
    → node_state.store.nb (node_state.deepest c) ≡ some x
    → (x.next_rank + 1 < 2 ^ 32) × (x.depth + 1 < 2 ^ 32)
low_tips c x h e =
    let same : header 0 50 0 ≡ x = cc in
    subst (λ (y : NetworkBlock). (y.next_rank + 1 < 2 ^ 32) × (y.depth + 1 < 2 ^ 32)) same
      (omega arith, omega arith)

mined_header-ranks_example :
    ((pnb : NetworkBlock) × (node_state.store.nb (node_state.deepest mined.chain_id) ≡ some pnb)
      × (mined.rank ≡ pnb.next_rank)
      × (mined.depth ≡ pnb.depth + 1))
    × (mined.rank < mined.next_rank)
    × ((c : ℕ) (x : NetworkBlock)
        → c < 2
        → node_state.store.nb (node_state.deepest c) ≡ some x
        → x.next_rank ≤ mined.next_rank)
mined_header-ranks_example =
    mined_header-ranks zeros two pool_files miner_limits_2 two_chains node_state wanted 7 1000 mined
      low_tips (omega arith) mined_runs

two_transactions : wanted.tx_second -ℤ wanted.tx_first ≡ pos 2
unfolding snowball_dag_experiment.Base.Int.◌-ℤ◌
two_transactions = refl

lines_fit :
    (n : ℤ) (lines : List Text)
    → pool_files.body n ≡ some lines
    → All (λ t. (length t ≤ room_for pool_files n) × (length t ≤ room_for pool_files n)) lines
unfolding room_for
lines_fit n lines e =
    subst
      (λ l. All (λ t. (length t ≤ room_for pool_files n) × (length t ≤ room_for pool_files n)) l)
      (some-injective (bytes "a:b:1:s" ∷ bytes "c:d:2:t" ∷ []) lines e)
      ((omega arith, omega arith), ((omega arith, omega arith), tt))

verify_validate_block-create_block_from_transaction_pool_example :
    verify_validate_block zeros two pool_files 10
      (record (header 50 55 1) { consensus_part = filled })
    ≡ done true
verify_validate_block-create_block_from_transaction_pool_example =
    verify_validate_block-create_block_from_transaction_pool zeros two 10 pool_files pool_files
      wanted filled (record (header 50 55 1) { consensus_part = filled }) filled.list 2 refl refl
      (lines_fit (block_number 10 wanted)) two_transactions (omega arith) filled_runs refl

tip_found : find_block_by_hash node_state.store.hash (node_state.chains 0) 50 ≡ some 0
unfolding find_block_by_hash
tip_found = refl

new_hash_absent : find_block_by_hash node_state.store.hash (node_state.chains 0) 55 ≡ none
unfolding find_block_by_hash
new_hash_absent = refl
