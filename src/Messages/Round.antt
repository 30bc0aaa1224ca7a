-- ===== src/Messages/Round.antt =====
-- The messages of a round, and those about peers and transactions, of Snowball_Main/code/requests.cpp.
use snowball_dag_experiment.Base.{ℕ, Bool, true, ◌&&◌, List, [], ◌∷◌, ◌++◌, ℤ, Text, bytes, is_full}
use snowball_dag_experiment.Base.Outcome.{done, ◌>>=◌}
use snowball_dag_experiment.Numbers.{to_string, int_to_string}
use snowball_dag_experiment.Blocks.{SenderInfo, NetworkBlock, ConsensusPart}
use snowball_dag_experiment.Messages.{
  Settings, message, field, int_at, uint32_at, ulong_at, bool_to_string, to_bool, Parsed, guarded,
  checked,
}
use snowball_dag_experiment.Messages.Chain.{header_fields, read_header}

pub record Ping : Type 0 where
  pub sender : SenderInfo
  pub tt : Text
  pub dnext : ℕ
  pub tsec : ℕ
  pub mode : ℤ

unfoldable pub create_ping : Settings → Text → ℕ → ℕ → ℤ → Text
unfolding message
create_ping st tt dnext tsec mode =
    message st (bytes "#ping") (tt ∷ to_string dnext ∷ to_string tsec ∷ int_to_string mode ∷ [])

unfoldable pub parse_ping : Settings → List Text → List Text → Parsed Ping
unfolding guarded field int_at uint32_at ulong_at checked
parse_ping st sp passed = guarded 7 3 sp passed (do
  ip ← field sp 1
  (port, p1) ← uint32_at sp 2 true
  tt ← field sp 3
  (dnext, p2) ← uint32_at sp 4 p1
  (tsec, p3) ← ulong_at sp 5 p2
  (mode, p4) ← int_at sp 6 p3
  done (
      checked st p4 (record {
        sender = record { ip = ip; port = port };
        tt = tt;
        dnext = dnext;
        tsec = tsec;
        mode = mode;
      })))

pub record MiningSucceed : Type 0 where
  pub sender : SenderInfo
  pub certificate : Bool
  pub round : ℤ

unfoldable pub create_mining_succeed : Settings → Bool → Text → ℤ → Text
unfolding message bool_to_string
create_mining_succeed st certificate random round =
    message st (bytes "#mining_succeed")
      (bool_to_string certificate ∷ random ∷ int_to_string round ∷ [])

unfoldable pub parse_mining_succeed : Settings → List Text → List Text → Parsed MiningSucceed
unfolding guarded field int_at uint32_at to_bool checked
parse_mining_succeed st sp passed = guarded 6 5 sp passed (do
  ip ← field sp 1
  (port, p1) ← uint32_at sp 2 true
  (certificate, p2) ← int_at sp 3 p1
  (round, p3) ← int_at sp 5 p2
  done (
      checked st (p3 && is_full ip) (record {
        sender = record { ip = ip; port = port };
        certificate = to_bool certificate;
        round = round;
      })))

unfoldable pub create_consensus_block : Settings → ConsensusPart → Text
unfolding message
create_consensus_block st cp = message st (bytes "#consensus_block") (
    int_to_string cp.round
    ∷ int_to_string cp.order_in_round
    ∷ int_to_string cp.tx_first
    ∷ int_to_string cp.tx_second
    ∷ cp.list
    ∷ [])

unfoldable pub parse_consensus_block :
    Settings → List Text → List Text → ConsensusPart → Parsed (SenderInfo × ConsensusPart)
unfolding guarded field int_at uint32_at checked
parse_consensus_block st sp passed cp = guarded 8 7 sp passed (do
  ip ← field sp 1
  (port, p1) ← uint32_at sp 2 true
  (round, p2) ← int_at sp 3 p1
  (order_in_round, p3) ← int_at sp 4 p2
  (tx_first, p4) ← int_at sp 5 p3
  (tx_second, p5) ← int_at sp 6 p4
  list ← field sp 7
  done (
      checked st (p5 && is_full ip) (
        record { ip = ip; port = port },
        record cp {
          round = round;
          order_in_round = order_in_round;
          tx_first = tx_first;
          tx_second = tx_second;
          list = list;
        },
      )))

pub record HaveConsensusBlock : Type 0 where
  pub sender : SenderInfo
  pub order_in_round : ℤ
  pub received : Bool

unfoldable pub create_have_consensus_block : Settings → ℤ → Bool → Text
unfolding message bool_to_string
create_have_consensus_block st order_in_round received =
    message st (bytes "#have_consensus_block")
      (int_to_string order_in_round ∷ bool_to_string received ∷ [])

unfoldable pub parse_have_consensus_block :
    Settings → List Text → List Text → Parsed HaveConsensusBlock
unfolding guarded field int_at uint32_at to_bool checked
parse_have_consensus_block st sp passed = guarded 5 5 sp passed (do
  ip ← field sp 1
  (port, p1) ← uint32_at sp 2 true
  (order_in_round, p2) ← int_at sp 3 p1
  (received, p3) ← int_at sp 4 p2
  done (
      checked st (p3 && is_full ip) (record {
        sender = record { ip = ip; port = port };
        order_in_round = order_in_round;
        received = to_bool received;
      })))

unfoldable pub create_verified_1_info : Settings → NetworkBlock → Text → Text
unfolding message header_fields
create_verified_1_info st nb random =
    message st (bytes "#verified_1") (header_fields nb ++ (random ∷ []))

-- The chain is not compared with the number of chains.
unfoldable pub parse_verified_1_info :
    Settings → List Text → List Text → NetworkBlock → Parsed (SenderInfo × NetworkBlock)
unfolding guarded field uint32_at checked
parse_verified_1_info st sp passed nb = guarded 16 6 sp passed (do
  ip ← field sp 1
  (port, p1) ← uint32_at sp 2 true
  (nb', p2) ← read_header sp p1 nb
  done (checked st (p2 && is_full ip) (record { ip = ip; port = port }, nb')))

pub record AnswerVerified1 : Type 0 where
  pub sender : SenderInfo
  pub hash : ℕ
  pub votes : ℤ

unfoldable pub create_answer_verified_1_info : Settings → ℕ → ℤ → Text
unfolding message
create_answer_verified_1_info st hash votes =
    message st (bytes "#answer_verified_1") (to_string hash ∷ int_to_string votes ∷ [])

unfoldable pub parse_answer_verified_1_info :
    Settings → List Text → List Text → Parsed AnswerVerified1
unfolding guarded field int_at uint32_at ulong_at checked
parse_answer_verified_1_info st sp passed = guarded 5 4 sp passed (do
  ip ← field sp 1
  (port, p1) ← uint32_at sp 2 true
  (hash, p2) ← ulong_at sp 3 p1
  (votes, p3) ← int_at sp 4 p2
  done (
      checked st (p3 && is_full ip)
        (record { sender = record { ip = ip; port = port }; hash = hash; votes = votes })))

pub record SentTransaction : Type 0 where
  pub sender : SenderInfo
  pub tx : Text
  pub time : ℕ

unfoldable pub create_transaction : Settings → Text → ℕ → Text
unfolding message
create_transaction st tx time = message st (bytes "#transaction") (tx ∷ to_string time ∷ [])

-- Four fields pass the test, and the fifth is read.
unfoldable pub parse_transaction : Settings → List Text → List Text → Parsed SentTransaction
unfolding guarded field uint32_at ulong_at checked
parse_transaction st sp passed = guarded 4 4 sp passed (do
  ip ← field sp 1
  (port, p1) ← uint32_at sp 2 true
  tx ← field sp 3
  (time, p2) ← ulong_at sp 4 p1
  done (
      checked st (p2 && is_full ip)
        (record { sender = record { ip = ip; port = port }; tx = tx; time = time })))
