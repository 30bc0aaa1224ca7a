-- ===== src/Transactions/Validated.antt =====
-- What is validated of a block in Snowball_Main/code/transactions.cpp is what its miner put into it.
use snowball_dag_experiment.Base.{
  ℕ, zero, suc, ◌%◌, ◌^◌, ◌<◌, ◌≤◌, ◌≡◌, refl, sym, ap, ◌∙◌, true, some, List, [], ◌∷◌, pos, ◌-ℤ◌,
  pos_part, Text, text_eq_refl, text_eq→eq, arith, length, ltb, leb, All,
}
use snowball_dag_experiment.Base.Outcome.{
  done, ◌>>=◌, deref, or_exit, done-bind, done-deref, done-or_exit, done-injective,
}
use snowball_dag_experiment.Numbers.{to_uint32}
use snowball_dag_experiment.Waiting.{to_int}
use snowball_dag_experiment.Blocks.{NetworkBlock, ConsensusPart}
use snowball_dag_experiment.Merkle.{compute_merkle_tree_root}
use snowball_dag_experiment.Merkle.Padding.{pad_leaves}
use snowball_dag_experiment.Transactions.PoolFiles.{
  Files, block_number, get_lines, room_for, int_difference, block_leaves,
  create_block_from_transaction_pool, verify_validate_block,
}

-- Lines that fit are the same in every buffer.
same_lines :
    (room room' n : ℕ) (l : List Text)
    → All (λ t. (length t ≤ room) × (length t ≤ room')) l
    → get_lines room n l ≡ get_lines room' n l
unfolding get_lines
same_lines room room' zero l h = refl
same_lines room room' (suc n) [] h = ap (λ r. [] ∷ r) (same_lines room room' n [] tt)
same_lines room room' (suc n) (t ∷ l) ((a, b), h) =
    let q : leb (length t) room ≡ true = ground arith in
    let r : leb (length t) room' ≡ true = ground arith in
    rw (q, r) (ap (λ x. t ∷ x) (same_lines room room' n l h))

counted :
    (cp : ConsensusPart) (no_txs : ℕ)
    → cp.tx_second -ℤ cp.tx_first ≡ pos no_txs
    → no_txs < 2 ^ 31
    → (to_uint32 (cp.tx_second -ℤ cp.tx_first) ≡ no_txs) × (pos_part (int_difference cp) ≡ no_txs)
unfolding to_uint32 int_difference to_int
counted cp no_txs count few =
    let fits : no_txs % 2 ^ 32 ≡ no_txs = omega arith in
    let low : ltb (no_txs % 2 ^ 32 % 2 ^ 32) (2 ^ 31) ≡ true = ground arith in
    (rw count (omega arith), rw (count, low) (omega arith))

module _ (sha256 : Text → Text) (ceil_power : ℕ → ℕ) (concurrency_blocks : ℕ) where
  -- `verify_validate_block`, given the lines and the root.
  validated :
      (files : Files) (nb : NetworkBlock) (lines : List Text)
      → (let cp = nb.consensus_part in
          files.body (block_number concurrency_blocks cp) ≡ some lines
          → compute_merkle_tree_root sha256 (
              pad_leaves ceil_power (
                get_lines
                  (room_for files (block_number concurrency_blocks cp))
                  (pos_part (int_difference cp))
                  lines))
            ≡ some cp.merkel_root_of_txs
          → verify_validate_block sha256 ceil_power files concurrency_blocks nb ≡ done true)
  unfolding verify_validate_block
  validated files nb lines e1 e2 =
      rw (e1, e2, verify_validate_block)
        (ap done (text_eq_refl nb.consensus_part.merkel_root_of_txs))

  block_leaves_lem :
      (files : Files) (cp : ConsensusPart)
      → files.write_blocks ≡ true
      → block_leaves sha256 ceil_power files concurrency_blocks cp ≡ (
          or_exit (files.body (block_number concurrency_blocks cp)) >>= (λ lines. done (
            get_lines
              (room_for files (block_number concurrency_blocks cp))
              (to_uint32 (cp.tx_second -ℤ cp.tx_first))
              lines)))
  unfolding block_leaves
  block_leaves_lem files cp writes = rw (writes, block_leaves) refl

  created :
      (files : Files) (cp cp' : ConsensusPart)
      → files.write_blocks ≡ true
      → create_block_from_transaction_pool sha256 ceil_power files concurrency_blocks cp ≡ done cp'
      → (lines : List Text) × (root : Text) × (files.body (block_number concurrency_blocks cp)
          ≡ some lines)
        × (compute_merkle_tree_root sha256 (
              pad_leaves ceil_power (
                get_lines
                  (room_for files (block_number concurrency_blocks cp))
                  (to_uint32 (cp.tx_second -ℤ cp.tx_first))
                  lines))
            ≡ some root)
        × (cp' ≡ record cp { merkel_root_of_txs = root })
  unfolding create_block_from_transaction_pool
  created files cp cp' writes e =
      let (leaves, e1, h1) =
        done-bind (block_leaves sha256 ceil_power files concurrency_blocks cp) _ e in
      let (root, e2, h2) =
        done-bind (deref (compute_merkle_tree_root sha256 (pad_leaves ceil_power leaves))) _ h1 in
      let (lines, e3, h3) =
        done-bind (or_exit (files.body (block_number concurrency_blocks cp))) _
          (sym (block_leaves_lem files cp writes) ∙ e1) in
      let same : get_lines (room_for files (block_number concurrency_blocks cp))
            (to_uint32 (cp.tx_second -ℤ cp.tx_first)) lines
          ≡ leaves =
        done-injective h3 in
      (
        lines,
        root,
        done-or_exit _ e3,
        rw same (done-deref (compute_merkle_tree_root sha256 (pad_leaves ceil_power leaves)) e2),
        sym (done-injective h2),
      )

  -- A block whose consensus part was made with the lines of the body file of its number is valid on every
  -- node that has a file with the same lines under this number. The transactions are counted from a
  -- first one to a second one that is not before it and less than 2^31 away; the miner writes blocks; and
  -- no line is longer than what either node has room for.
  pub verify_validate_block-create_block_from_transaction_pool :
      (mine theirs : Files) (cp cp' : ConsensusPart) (nb : NetworkBlock) (list : Text) (no_txs : ℕ)
      → mine.write_blocks ≡ true
      → theirs.body (block_number concurrency_blocks cp)
        ≡ mine.body (block_number concurrency_blocks cp)
      → ((lines : List Text)
          → mine.body (block_number concurrency_blocks cp) ≡ some lines
          → All
              (λ t.
                (length t ≤ room_for mine (block_number concurrency_blocks cp))
                × (length t ≤ room_for theirs (block_number concurrency_blocks cp)))
              lines)
      → cp.tx_second -ℤ cp.tx_first ≡ pos no_txs
      → no_txs < 2 ^ 31
      → create_block_from_transaction_pool sha256 ceil_power mine concurrency_blocks cp ≡ done cp'
      → nb.consensus_part ≡ record cp' { list = list }
      → verify_validate_block sha256 ceil_power theirs concurrency_blocks nb ≡ done true
  unfolding block_number
  verify_validate_block-create_block_from_transaction_pool mine theirs cp cp' nb list no_txs writes
        same fit count few e part =
      let (lines, root, body, at, made) = created mine cp cp' writes e in
      let made' : nb.consensus_part ≡ record cp { merkel_root_of_txs = root; list = list } =
        part ∙ ap (λ (x : ConsensusPart). record x { list = list }) made in
      let number = ap (block_number concurrency_blocks) made' in
      let many : nb.consensus_part.tx_second -ℤ nb.consensus_part.tx_first ≡ pos no_txs =
        ap (λ (x : ConsensusPart). x.tx_second -ℤ x.tx_first) made' ∙ count in
      let (all_of, _) = counted cp no_txs count few in
      let (_, all_theirs) = counted nb.consensus_part no_txs many few in
      let lines_same =
        same_lines (room_for mine (block_number concurrency_blocks cp))
          (room_for theirs (block_number concurrency_blocks cp)) no_txs lines (fit lines body) in
      validated theirs nb lines (ap theirs.body number ∙ same ∙ body) (
        rw (all_theirs, ap (λ x. get_lines (room_for theirs x) no_txs lines) number)
          (rw (ap (λ (x : ConsensusPart). x.merkel_root_of_txs) made')
            (rw (sym lines_same, sym all_of) at)))

  -- Where a block is found valid, the root in it is that of the lines in the body file of its number.
  pub verify_validate_block_sound :
      (files : Files) (nb : NetworkBlock)
      → verify_validate_block sha256 ceil_power files concurrency_blocks nb ≡ done true
      → (let cp = nb.consensus_part in
          (lines : List Text) × (files.body (block_number concurrency_blocks cp) ≡ some lines)
          × (compute_merkle_tree_root sha256 (
                pad_leaves ceil_power (
                  get_lines
                    (room_for files (block_number concurrency_blocks cp))
                    (pos_part (int_difference cp))
                    lines))
              ≡ some cp.merkel_root_of_txs))
  unfolding verify_validate_block
  verify_validate_block_sound files nb e =
      let cp = nb.consensus_part in
      let (lines, e1, h1) =
        done-bind (or_exit (files.body (block_number concurrency_blocks cp))) _ e in
      let (root, e2, h2) =
        done-bind
          (deref (
            compute_merkle_tree_root sha256 (
              pad_leaves ceil_power (
                get_lines (room_for files (block_number concurrency_blocks cp))
                  (pos_part (int_difference cp)) lines))))
          _ h1 in
      let equal = text_eq→eq cp.merkel_root_of_txs root (done-injective h2) in
      (lines, done-or_exit _ e1, done-deref _ e2 ∙ ap some (sym equal))
