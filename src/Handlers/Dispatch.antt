-- ===== src/Handlers/Dispatch.antt =====
-- The choice of the handler in `process_buffer` of Snowball_Main/code/process_buffer.cpp, by the name of
-- the message, and the whole function for a node.
use snowball_dag_experiment.Base.{
  ℕ, ◌+◌, Bool, true, false, Option, none, some, List, [], ◌∷◌, Text, bytes, text_eq, if◌then◌else◌,
}
use snowball_dag_experiment.Base.Outcome.{Outcome, done, ◌>>=◌}
use snowball_dag_experiment.Split.{split}
use snowball_dag_experiment.Blocks.{NetworkBlock}
use snowball_dag_experiment.Buffer.{process_buffer}
use snowball_dag_experiment.Transactions.PoolFiles.{Files}
use snowball_dag_experiment.Messages.{Settings, Parsed}
use snowball_dag_experiment.Messages.Chain.{
  parse_ask_block, parse_process_block, parse_got_full_block, parse_have_full_block,
  parse_ask_full_block, parse_full_block,
}
use snowball_dag_experiment.Messages.Round.{
  parse_ping, parse_mining_succeed, parse_consensus_block, parse_have_consensus_block,
  parse_verified_1_info, parse_answer_verified_1_info, parse_transaction,
}
use snowball_dag_experiment.Mining.{MinerLimits}
use snowball_dag_experiment.Mining.Leader.{Inputs}
use snowball_dag_experiment.Handlers.{within, Limits, Node}
use snowball_dag_experiment.Handlers.Replies.{
  on_ask_block, on_process_block, on_got_full_block, on_have_full_block, on_ask_full_block,
  on_have_consensus_block, on_transaction,
}
use snowball_dag_experiment.Handlers.Votes.{on_answer_verified_1}
use snowball_dag_experiment.Handlers.FullBlocks.{on_full_block}
use snowball_dag_experiment.Handlers.Pings.{on_ping}
use snowball_dag_experiment.Handlers.Joins.{on_mining_succeed}
use snowball_dag_experiment.Handlers.Verifying.{on_consensus_block, on_verified_1}

-- What the handlers have around them. What the machine gives at the `i`-th message is a function of `i`:
-- the clock, the size of a transaction that was made for its size, whether a file can be created, and the
-- inputs of the miner. `blank` is a header before a parser writes into it.
pub record Machine : Type 0 where
  pub sha256 : Text → Text
  pub ceil_power : ℕ → ℕ
  pub files : Files
  pub settings : Settings
  pub limits : Limits
  pub tx_numbers_in_a_block : ℕ
  pub blank : NetworkBlock
  pub clock : ℕ → ℕ
  pub tx_size : ℕ → ℕ
  pub is_open : ℕ → Bool
  pub inputs : ℕ → Inputs

abbrev pub miner_limits : Machine → MinerLimits
miner_limits m = record {
  concurrency_blocks = m.limits.concurrency_blocks;
  tx_numbers_in_a_block = m.tx_numbers_in_a_block;
}

-- The node, the keys of the messages that were read, and the number of the next message.
pub record Session : Type 0 where
  pub node : Node
  pub passed : List Text
  pub count : ℕ

-- The messages by their names.
pub data Kind : Type 0 where
  ping ask_block process_block got_full_block have_full_block ask_full_block full_block : Kind
  mining_succeed consensus_block have_consensus_block verified_1 answer_verified_1 : Kind
  transaction unknown : Kind

unfoldable pub kind_of : Text → Kind
kind_of t =
    if text_eq t (bytes "#ping")
    then ping
    else if text_eq t (bytes "#ask_block")
    then ask_block
    else if text_eq t (bytes "#process_block")
    then process_block
    else if text_eq t (bytes "#got_full_block")
    then got_full_block
    else if text_eq t (bytes "#have_full_block")
    then have_full_block
    else if text_eq t (bytes "#ask_full_block")
    then ask_full_block
    else if text_eq t (bytes "#full_block")
    then full_block
    else if text_eq t (bytes "#mining_succeed")
    then mining_succeed
    else if text_eq t (bytes "#consensus_block")
    then consensus_block
    else if text_eq t (bytes "#have_consensus_block")
    then have_consensus_block
    else if text_eq t (bytes "#verified_1")
    then verified_1
    else if text_eq t (bytes "#answer_verified_1")
    then answer_verified_1
    else if text_eq t (bytes "#transaction")
    then transaction
    else unknown

-- A handler after its parser. A message that is not parsed changes nothing but the keys.
unfoldable pub after_parser :
    {A : Type 0} → Session → List Text → Option A → (A → Outcome Node) → Outcome (Bool × Session)
after_parser s passed none f =
    done (false, record { node = s.node; passed = passed; count = s.count + 1 })
after_parser s passed (some a) f = do
  n ← f a
  done (true, record { node = n; passed = passed; count = s.count + 1 })

unfoldable pub handled :
    {A : Type 0} → Session → Parsed A → (A → Outcome Node) → Outcome (Bool × Session)
unfolding after_parser
handled s parsed f = do r ← parsed; after_parser s r.1 r.0 f

module _ (m : Machine) where
  -- The six handlers that use a chain of the message look into its arrays at once.
  abbrev pub chosen : Kind → Session → List Text → Outcome (Bool × Session)
  chosen ping s sp =
      handled s (parse_ping m.settings sp s.passed) (λ q. done (on_ping m.settings s.node q))
  chosen ask_block s sp =
      handled s (parse_ask_block m.settings sp s.passed)
        (λ q. within m.settings.chains q.chain_id (on_ask_block m.settings m.limits s.node q))
  chosen process_block s sp =
      handled s (parse_process_block m.settings sp s.passed m.blank)
        (λ q. within m.settings.chains q.1.chain_id (on_process_block m.settings s.node q.0 q.1))
  chosen got_full_block s sp =
      handled s (parse_got_full_block m.settings sp s.passed)
        (λ q. within m.settings.chains q.chain_id (done (on_got_full_block m.settings s.node q)))
  chosen have_full_block s sp = handled s (parse_have_full_block m.settings sp s.passed) (λ q.
      within m.settings.chains q.chain_id
        (done (on_have_full_block m.settings s.node q (m.clock s.count))))
  chosen ask_full_block s sp = handled s (parse_ask_full_block m.settings sp s.passed) (λ q.
      within m.settings.chains q.chain_id (on_ask_full_block m.settings s.node q (m.clock s.count)))
  chosen full_block s sp = handled s (parse_full_block m.settings sp s.passed m.blank) (λ q.
      within m.settings.chains q.chain_id
        (on_full_block m.sha256 m.settings m.limits s.node q (m.tx_size s.count) (m.clock s.count)))
  chosen mining_succeed s sp = handled s (parse_mining_succeed m.settings sp s.passed) (
      on_mining_succeed m.sha256 m.ceil_power m.files (miner_limits m) m.settings (m.inputs s.count)
        s.node)
  chosen consensus_block s sp =
      handled s (parse_consensus_block m.settings sp s.passed m.blank.consensus_part) (λ q.
        on_consensus_block m.sha256 m.ceil_power m.files (miner_limits m) m.settings s.node q.0 q.1
          ((m.inputs s.count).random 0) (m.clock s.count))
  chosen have_consensus_block s sp =
      handled s (parse_have_consensus_block m.settings sp s.passed)
        (λ q. done (on_have_consensus_block s.node q))
  chosen verified_1 s sp =
      handled s (parse_verified_1_info m.settings sp s.passed m.blank) (λ q.
        on_verified_1 m.sha256 m.ceil_power m.files (miner_limits m) m.settings s.node q.0 q.1)
  chosen answer_verified_1 s sp =
      handled s (parse_answer_verified_1_info m.settings sp s.passed) (λ q.
        on_answer_verified_1 m.settings m.limits s.node q (m.tx_size s.count) (m.clock s.count))
  chosen transaction s sp =
      handled s (parse_transaction m.settings sp s.passed)
        (λ q. done (on_transaction m.settings (m.is_open s.count) s.node q))
  chosen unknown s sp = done (true, s)

  -- The fields of the message `w`; one without a field is passed over.
  unfoldable pub handle_fields : List Text → Session → Outcome (Bool × Session)
  unfolding handled kind_of
  handle_fields [] s = done (true, s)
  handle_fields (tag ∷ sp) s = chosen (kind_of tag) s (tag ∷ sp)

  unfoldable pub handle : Text → Session → Outcome (Bool × Session)
  unfolding handle_fields
  handle w s = handle_fields (split w (44 ∷ [])) s

  -- `process_buffer` for the buffer `b`: what is left of it, and the node; `none` is `exit(0)`.
  unfoldable pub process_node_buffer : Node → Text → Outcome (Option (Text × Session))
  unfolding handle process_buffer
  process_node_buffer n b =
      process_buffer m.settings.print_transmission_errors handle b
        (record { node = n; passed = []; count = 0 })
