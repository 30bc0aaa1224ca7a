-- ===== src/Messages/Chain.antt =====
-- The messages about blocks of Snowball_Main/code/requests.cpp.
use snowball_dag_experiment.Base.{
  ℕ, ◌+◌, ◌-◌, Bool, true, ◌&&◌, List, [], ◌∷◌, ◌++◌, Text, bytes, is_full, ltb, leb, if◌then◌else◌,
}
use snowball_dag_experiment.Base.Outcome.{Outcome, done, ◌>>=◌, deref}
use snowball_dag_experiment.Numbers.{to_string, int_to_string}
use snowball_dag_experiment.Blocks.{SenderInfo, NetworkBlock}
use snowball_dag_experiment.Blockchain.{Blockchain, find_block_by_hash_and_chain_id}
use snowball_dag_experiment.Messages.{
  Settings, message, field, fields, int_at, uint32_at, ulong_at, Parsed, guarded, checked,
}

pub record AskBlock : Type 0 where
  pub sender : SenderInfo
  pub chain_id : ℕ
  pub hash : ℕ
  pub max_number_of_blocks : ℕ

-- The number of blocks to ask for.
unfoldable pub asked_blocks : ℕ → ℕ → ℕ
asked_blocks my_depth hash_depth = if leb hash_depth my_depth then 1 else hash_depth - my_depth

unfoldable pub create_ask_block : Settings → ℕ → ℕ → ℕ → ℕ → Text
unfolding message asked_blocks
create_ask_block st chain_id hash my_depth hash_depth =
    message st (bytes "#ask_block")
      (to_string chain_id ∷ to_string hash ∷ to_string (asked_blocks my_depth hash_depth) ∷ [])

unfoldable pub parse_ask_block : Settings → List Text → List Text → Parsed AskBlock
unfolding guarded uint32_at ulong_at checked
parse_ask_block st sp passed = guarded 6 5 sp passed (do
  ip ← field sp 1
  (port, p1) ← uint32_at sp 2 true
  (chain_id, p2) ← uint32_at sp 3 p1
  (hash, p3) ← ulong_at sp 4 p2
  (max_number_of_blocks, p4) ← uint32_at sp 5 p3
  done (
      checked st (p4 && is_full ip && ltb chain_id st.chains) (record {
        sender = record { ip = ip; port = port };
        chain_id = chain_id;
        hash = hash;
        max_number_of_blocks = max_number_of_blocks;
      })))

-- The fields of a header that go with a block, from the parent on.
unfoldable pub header_fields : NetworkBlock → List Text
header_fields nb =
    to_string nb.chain_id
    ∷ to_string nb.parent
    ∷ to_string nb.hash
    ∷ to_string nb.no_txs
    ∷ to_string nb.depth
    ∷ to_string nb.rank
    ∷ to_string nb.next_rank
    ∷ int_to_string nb.consensus_part.round
    ∷ int_to_string nb.consensus_part.order_in_round
    ∷ int_to_string nb.consensus_part.tx_first
    ∷ int_to_string nb.consensus_part.tx_second
    ∷ nb.consensus_part.merkel_root_of_txs
    ∷ []

-- The fields 3 to 14 into `nb`.
unfoldable pub read_header : List Text → Bool → NetworkBlock → Outcome (NetworkBlock × Bool)
unfolding field int_at uint32_at ulong_at
read_header sp pr nb = do
  (chain_id, p1) ← uint32_at sp 3 pr
  (parent, p2) ← ulong_at sp 4 p1
  (hash, p3) ← ulong_at sp 5 p2
  (no_txs, p4) ← uint32_at sp 6 p3
  (depth, p5) ← uint32_at sp 7 p4
  (rank, p6) ← uint32_at sp 8 p5
  (next_rank, p7) ← uint32_at sp 9 p6
  (round, p8) ← int_at sp 10 p7
  (order_in_round, p9) ← int_at sp 11 p8
  (tx_first, p10) ← int_at sp 12 p9
  (tx_second, p11) ← int_at sp 13 p10
  merkel_root_of_txs ← field sp 14
  done (
    record nb {
      chain_id = chain_id;
      parent = parent;
      hash = hash;
      no_txs = no_txs;
      depth = depth;
      rank = rank;
      next_rank = next_rank;
      consensus_part = record nb.consensus_part {
        round = round;
        order_in_round = order_in_round;
        tx_first = tx_first;
        tx_second = tx_second;
        merkel_root_of_txs = merkel_root_of_txs;
      };
    },
    p11,
  )

unfoldable pub create_process_block : Settings → NetworkBlock → Text
unfolding message header_fields
create_process_block st nb = message st (bytes "#process_block") (header_fields nb)

unfoldable pub parse_process_block :
    Settings → List Text → List Text → NetworkBlock → Parsed (SenderInfo × NetworkBlock)
unfolding guarded uint32_at checked
parse_process_block st sp passed nb = guarded 15 6 sp passed (do
  ip ← field sp 1
  (port, p1) ← uint32_at sp 2 true
  (nb', p2) ← read_header sp p1 nb
  done (
      checked st (p2 && is_full ip && ltb nb'.chain_id st.chains)
        (record { ip = ip; port = port }, nb')))

-- What the three messages about a full block hold.
pub record ChainBlock : Type 0 where
  pub sender : SenderInfo
  pub chain_id : ℕ
  pub hash : ℕ

unfoldable pub create_got_full_block : Settings → ℕ → ℕ → Text
unfolding message
create_got_full_block st chain_id hash =
    message st (bytes "#got_full_block") (to_string chain_id ∷ to_string hash ∷ [])

unfoldable pub parse_got_full_block : Settings → List Text → List Text → Parsed ChainBlock
unfolding guarded uint32_at ulong_at checked
parse_got_full_block st sp passed = guarded 5 5 sp passed (do
  ip ← field sp 1
  (port, p1) ← uint32_at sp 2 true
  (chain_id, p2) ← uint32_at sp 3 p1
  (hash, p3) ← ulong_at sp 4 p2
  done (
      checked st (p3 && is_full ip && ltb chain_id st.chains)
        (record { sender = record { ip = ip; port = port }; chain_id = chain_id; hash = hash })))

unfoldable pub create_have_full_block : Settings → ℕ → ℕ → Text
unfolding message
create_have_full_block st chain_id hash =
    message st (bytes "#have_full_block") (to_string chain_id ∷ to_string hash ∷ [])

-- The parsers of the next two messages have the body of `parse_got_full_block`.
unfoldable pub parse_have_full_block : Settings → List Text → List Text → Parsed ChainBlock
unfolding parse_got_full_block
parse_have_full_block st sp passed = parse_got_full_block st sp passed

unfoldable pub create_ask_full_block : Settings → ℕ → ℕ → Text
unfolding message
create_ask_full_block st chain_id hash =
    message st (bytes "#ask_full_block") (to_string chain_id ∷ to_string hash ∷ [])

unfoldable pub parse_ask_full_block : Settings → List Text → List Text → Parsed ChainBlock
unfolding parse_got_full_block
parse_ask_full_block st sp passed = parse_got_full_block st sp passed

unfoldable pub full_block_fields : ℕ → ℕ → NetworkBlock → ℕ → List Text
full_block_fields chain_id hash nb time_of_now =
    to_string chain_id
    ∷ to_string hash
    ∷ int_to_string nb.consensus_part.verify_1_numbers
    ∷ to_string nb.trailing
    ∷ to_string nb.trailing_id
    ∷ nb.merkle_root_chains
    ∷ nb.merkle_root_txs
    ∷ (nb.proof_new_chain ++ (to_string nb.time_mined ∷ to_string time_of_now ∷ []))

-- The block and its header are read before the test for NULL.
unfoldable pub create_full_block : Settings → Blockchain → ℕ → ℕ → ℕ → Outcome Text
unfolding message full_block_fields find_block_by_hash_and_chain_id
create_full_block st bc chain_id hash time_of_now = do
  b ← deref (find_block_by_hash_and_chain_id bc hash chain_id)
  nb ← deref (bc.store.nb b)
  done (message st (bytes "#full_block") (full_block_fields chain_id hash nb time_of_now))

pub record FullBlock : Type 0 where
  pub sender : SenderInfo
  pub chain_id : ℕ
  pub hash : ℕ
  pub nb : NetworkBlock
  pub sent_time : ℕ

unfoldable pub parse_full_block : Settings → List Text → List Text → NetworkBlock → Parsed FullBlock
unfolding guarded field int_at uint32_at ulong_at checked
parse_full_block st sp passed nb = guarded (10 + st.proof_length + 1) 5 sp passed (do
  ip ← field sp 1
  (port, p1) ← uint32_at sp 2 true
  (chain_id, p2) ← uint32_at sp 3 p1
  (hash, p3) ← ulong_at sp 4 p2
  (verify_1_numbers, p4) ← int_at sp 5 p3
  (trailing, p5) ← ulong_at sp 6 p4
  (trailing_id, p6) ← uint32_at sp 7 p5
  merkle_root_chains ← field sp 8
  merkle_root_txs ← field sp 9
  proof ← fields sp 10 st.proof_length
  (time_mined, p7) ← ulong_at sp (10 + st.proof_length) p6
  (sent_time, p8) ← ulong_at sp (10 + st.proof_length + 1) p7
  done (
      checked st (p8 && is_full ip && ltb chain_id st.chains) (record {
        sender = record { ip = ip; port = port };
        chain_id = chain_id;
        hash = hash;
        nb = record nb {
          consensus_part = record nb.consensus_part { verify_1_numbers = verify_1_numbers };
          trailing = trailing;
          trailing_id = trailing_id;
          merkle_root_chains = merkle_root_chains;
          merkle_root_txs = merkle_root_txs;
          proof_new_chain = nb.proof_new_chain ++ proof;
          time_mined = time_mined;
        };
        sent_time = sent_time;
      })))
