-- ===== src/Transactions/PoolFiles.antt =====
-- The functions of Snowball_Main/code/transactions.cpp that read the files of the transaction pool. The
-- contents of the files are a parameter.
use snowball_dag_experiment.Base.{
  ℕ, zero, suc, ◌+◌, ◌*◌, ◌%◌, ◌^◌, Bool, Option, List, [], ◌∷◌, ◌++◌, ℤ, pos, ◌-ℤ◌, pos_part, Text,
  text_eq, if◌then◌else◌, leb, length, take,
}
use snowball_dag_experiment.Base.Outcome.{Outcome, done, ◌>>=◌, deref, or_exit}
use snowball_dag_experiment.Numbers.{to_uint32}
use snowball_dag_experiment.Blocks.{NetworkBlock, ConsensusPart}
use snowball_dag_experiment.Waiting.{to_int}
use snowball_dag_experiment.Merkle.{compute_merkle_tree_root}
use snowball_dag_experiment.Merkle.Padding.{pad_leaves}

-- What can be read below the folder of the node: `body n` are the lines of "_body/block_n", and
-- `header n` is the text of "_header/pre_block_n", empty where there is no such file. `tx_size n` is the
-- size of the transaction that is made, for its size, when the body file of block `n` is read.
-- `write_blocks` is WRITE_BLOCKS_TO_HDD.
pub record Files : Type 0 where
  pub write_blocks : Bool
  pub body : ℤ → Option (List Text)
  pub header : ℤ → Text
  pub tx_size : ℤ → ℕ

-- `(round - 1) * CONCURRENCY_BLOCKS + order_in_round`, a `uint32_t` that becomes an `int`.
unfoldable pub block_number : ℕ → ConsensusPart → ℤ
unfolding to_int
block_number concurrency_blocks cp =
    to_int
      ((to_uint32 (cp.round -ℤ pos 1) * concurrency_blocks + to_uint32 cp.order_in_round) % 2 ^ 32)

-- `n` calls of `getline` with a buffer for `room` characters. A longer line is cut, and the stream fails:
-- like past the end of the file, each later call leaves an empty text.
unfoldable pub get_lines : ℕ → ℕ → List Text → List Text
get_lines room zero l = []
get_lines room (suc n) [] = [] ∷ get_lines room n []
get_lines room (suc n) (t ∷ l) =
    let fits = leb (length t) room in
    let rest = get_lines room n (if fits then l else []) in (if fits then t else take room t) ∷ rest

-- "char buffer[tx_size + 100]", of which one is for the end of the text.
unfoldable pub room_for : Files → ℤ → ℕ
room_for files number = files.tx_size number + 99

-- "int no_txs", negative where the difference does not fit.
unfoldable pub int_difference : ConsensusPart → ℤ
unfolding to_int
int_difference cp = to_int (to_uint32 (cp.tx_second -ℤ cp.tx_first))

module _ (sha256 : Text → Text) (ceil_power : ℕ → ℕ) (files : Files) (concurrency_blocks : ℕ) where
  unfoldable pub block_leaves : ConsensusPart → Outcome (List Text)
  unfolding room_for get_lines block_number
  block_leaves cp =
      if files.write_blocks
      then (do
        lines ← or_exit (files.body (block_number concurrency_blocks cp))
        done (
            get_lines (room_for files (block_number concurrency_blocks cp))
              (to_uint32 (cp.tx_second -ℤ cp.tx_first)) lines))
      else done []

  -- The new pre-block. The function returns `true` whenever it returns: `open` does not throw. The
  -- copy of the lines into a file is left out.
  unfoldable pub create_block_from_transaction_pool : ConsensusPart → Outcome ConsensusPart
  unfolding block_leaves
  create_block_from_transaction_pool cp = do
    leaves ← block_leaves cp
    root ← deref (compute_merkle_tree_root sha256 (pad_leaves ceil_power leaves))
    done (record cp { merkel_root_of_txs = root })

  -- The number of transactions is an `int`: the loop does nothing below 0.
  unfoldable pub verify_validate_block : NetworkBlock → Outcome Bool
  unfolding int_difference room_for get_lines block_number
  verify_validate_block nb =
      let cp = nb.consensus_part in
      (do
        lines ← or_exit (files.body (block_number concurrency_blocks cp))
        merkel_root_txs ← deref (
            compute_merkle_tree_root sha256 (
              pad_leaves ceil_power (
                get_lines (room_for files (block_number concurrency_blocks cp))
                  (pos_part (int_difference cp)) lines)))
        done (text_eq cp.merkel_root_of_txs merkel_root_txs))

  -- The text of the file after the list. The function always returns `true`: `open` does not throw.
  unfoldable pub generate_concurrent_blocks : ConsensusPart → ConsensusPart
  unfolding block_number
  generate_concurrent_blocks cp = record cp {
    list = cp.list ++ files.header (block_number concurrency_blocks cp);
  }
