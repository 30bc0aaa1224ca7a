-- ===== src/Handlers/Session.antt =====
-- What `process_buffer` of Snowball_Main/code/process_buffer.cpp does to a node, whatever bytes a peer
-- sends: the handlers put together.
use snowball_dag_experiment.Base.{
  ℕ, ◌+◌, ◌≤◌, ◌<◌, ◌≡◌, refl, arith, subst, Bool, true, false, Option, none, some, List, [], ◌∷◌,
  Text,
}
use snowball_dag_experiment.Base.Outcome.{Outcome, done, done-bind, done-injective}
use snowball_dag_experiment.Split.{split}
use snowball_dag_experiment.Blockchain.WellFormed.{WellFormed, Grows}
use snowball_dag_experiment.Consensus.Joins.{IsBalanced}
use snowball_dag_experiment.Buffer.Kept.{process_buffer_keeps}
use snowball_dag_experiment.Messages.{Parsed}
use snowball_dag_experiment.Handlers.{Node, within, done-within}
use snowball_dag_experiment.Handlers.Rounding.{
  RoundSteps, RoundSteps-few, joins, round_view, Moves, Moves-refl, Moves-sum, Moves-weaken,
}
use snowball_dag_experiment.Handlers.Kept.{
  on_ping-Moves, on_ask_block-Moves, on_process_block-Moves, on_got_full_block-Moves,
  on_have_full_block-Moves, on_ask_full_block-Moves, on_have_consensus_block-Moves,
  on_transaction-Moves,
}
use snowball_dag_experiment.Handlers.Kept.Rounds.{
  on_mining_succeed-Moves, on_consensus_block-Moves, on_verified_1-Moves,
}
use snowball_dag_experiment.Handlers.Kept.Ends.{on_answer_verified_1-Moves, on_full_block-Moves}
use snowball_dag_experiment.Handlers.Dispatch.{
  Machine, miner_limits, Session, Kind, ping, ask_block, process_block, got_full_block,
  have_full_block, ask_full_block, full_block, mining_succeed, consensus_block,
  have_consensus_block, verified_1, answer_verified_1, transaction, unknown, kind_of, after_parser,
  handled, chosen, handle_fields, handle, process_node_buffer,
}

module _ (k : ℕ) where
  -- What the messages of a session did to the node: they added at most one block each.
  pub record Turns (s s' : Session) : Type 0 where
    pub messages : ℕ
    pub counted : s'.count ≡ s.count + messages
    pub moves : Moves k messages s.node s'.node

  Turns-refl : (s : Session) → Turns s s
  Turns-refl s = record { messages = 0; counted = omega arith; moves = Moves-refl s.node }

  Turns-trans : (a b c : Session) → Turns a b → Turns b c → Turns a c
  Turns-trans a b c p q = record {
    messages = p.messages + q.messages;
    counted = omega (arith, p.counted, q.counted);
    moves = Moves-sum k p.messages q.messages a.node b.node c.node p.moves q.moves;
  }

  one_turn :
      (s s' : Session) (b : Bool) (n : Node) (passed : List Text) (r : Bool)
      → ◌≡◌ {A = Outcome (Bool × Session)}
          (done (r, record { node = n; passed = passed; count = s.count + 1 }))
          (done (b, s'))
      → Moves k 1 s.node n
      → Turns s s'
  one_turn s s' b n passed r e g =
      subst (λ x. Turns s x.1) (done-injective e)
        (record { messages = 1; counted = refl; moves = g })

  by_value :
      {A : Type 0} (s s' : Session) (b : Bool) (p : List Text) (o : Option A) (f : A → Outcome Node)
      → after_parser s p o f ≡ done (b, s')
      → ((a : A) (n' : Node) → f a ≡ done n' → Moves k 1 s.node n')
      → Turns s s'
  unfolding after_parser
  by_value s s' b p none f e g = one_turn s s' b s.node p false e (Moves-refl s.node)
  by_value s s' b p (some a) f e g =
      let (n, e1, h) = done-bind (f a) _ e in one_turn s s' b n p true h (g a n e1)

  handled-Turns :
      {A : Type 0} (s s' : Session) (b : Bool) (parsed : Parsed A) (f : A → Outcome Node)
      → handled s parsed f ≡ done (b, s')
      → ((a : A) (n' : Node) → f a ≡ done n' → Moves k 1 s.node n')
      → Turns s s'
  unfolding handled
  handled-Turns s s' b parsed f e g =
      let (r, _, h) = done-bind parsed _ e in by_value s s' b r.1 r.0 f h g

  -- A handler that adds no block.
  weak :
      {A : Type 0} (n : Node) (f : A → Outcome Node)
      → ((a : A) (n' : Node) → f a ≡ done n' → Moves k 0 n n')
      → (a : A) (n' : Node) → f a ≡ done n'
      → Moves k 1 n n'
  weak n f g a n' e = Moves-weaken 1 n n' (omega arith) (g a n' e)

  -- A handler that uses the arrays of a chain.
  inside :
      {A : Type 0} (chains : ℕ) (chain_id : A → ℕ) (n : Node) (f : A → Outcome Node)
      → ((a : A) (n' : Node) → f a ≡ done n' → Moves k 0 n n')
      → (a : A) (n' : Node) → within chains (chain_id a) (f a) ≡ done n'
      → Moves k 1 n n'
  inside chains chain_id n f g a n' e = weak n f g a n' (done-within chains (chain_id a) (f a) e).1

  returned : (n n' m : Node) → done m ≡ done n' → Moves k 0 n m → Moves k 0 n n'
  returned n n' m e g = subst (Moves k 0 n) (done-injective e) g

module _ (m : Machine) where
  abbrev limit : ℕ
  limit = m.limits.concurrency_blocks

  chosen-Turns :
      (c : Kind) (sp : List Text) (s s' : Session) (b : Bool)
      → chosen m c s sp ≡ done (b, s')
      → Turns limit s s'
  chosen-Turns ping sp s s' b e = handled-Turns limit s s' b _ _ e (
      weak limit s.node _
        (λ q n' h. returned limit s.node n' _ h (on_ping-Moves limit m.settings s.node q)))
  chosen-Turns ask_block sp s s' b e = handled-Turns limit s s' b _ _ e (
      inside limit m.settings.chains (λ q. q.chain_id) s.node _
        (on_ask_block-Moves limit m.settings s.node m.limits))
  chosen-Turns process_block sp s s' b e = handled-Turns limit s s' b _ _ e (
      inside limit m.settings.chains (λ q. q.1.chain_id) s.node _
        (λ q n' h. on_process_block-Moves limit m.settings s.node q.0 q.1 n' h))
  chosen-Turns got_full_block sp s s' b e = handled-Turns limit s s' b _ _ e (
      inside limit m.settings.chains (λ q. q.chain_id) s.node _
        (λ q n' h.
          returned limit s.node n' _ h (on_got_full_block-Moves limit m.settings s.node q)))
  chosen-Turns have_full_block sp s s' b e = handled-Turns limit s s' b _ _ e (
      inside limit m.settings.chains (λ q. q.chain_id) s.node _
        (λ q n' h.
          returned limit s.node n' _ h
            (on_have_full_block-Moves limit m.settings s.node q (m.clock s.count))))
  chosen-Turns ask_full_block sp s s' b e = handled-Turns limit s s' b _ _ e (
      inside limit m.settings.chains (λ q. q.chain_id) s.node _
        (λ q n' h. on_ask_full_block-Moves limit m.settings s.node q (m.clock s.count) n' h))
  chosen-Turns full_block sp s s' b e = handled-Turns limit s s' b _ _ e (
      inside limit m.settings.chains (λ q. q.chain_id) s.node _
        (λ q n' h.
          on_full_block-Moves limit m.sha256 m.settings m.limits s.node n' q (m.tx_size s.count)
            (m.clock s.count) h))
  chosen-Turns mining_succeed sp s s' b e = handled-Turns limit s s' b _ _ e (λ q n' h.
      on_mining_succeed-Moves m.sha256 m.ceil_power m.files (miner_limits m) m.settings
        (m.inputs s.count) s.node n' q h)
  chosen-Turns consensus_block sp s s' b e = handled-Turns limit s s' b _ _ e (
      weak limit s.node _ (λ q n' h.
        on_consensus_block-Moves m.sha256 m.ceil_power m.files (miner_limits m) m.settings s.node n'
          q.0 q.1 ((m.inputs s.count).random 0) (m.clock s.count) h))
  chosen-Turns have_consensus_block sp s s' b e = handled-Turns limit s s' b _ _ e (
      weak limit s.node _ (λ q n' h.
        returned limit s.node n' _ h (on_have_consensus_block-Moves limit m.settings s.node q)))
  chosen-Turns verified_1 sp s s' b e = handled-Turns limit s s' b _ _ e (
      weak limit s.node _ (λ q n' h.
        on_verified_1-Moves m.sha256 m.ceil_power m.files (miner_limits m) m.settings s.node n' q.0
          q.1 h))
  chosen-Turns answer_verified_1 sp s s' b e = handled-Turns limit s s' b _ _ e (
      weak limit s.node _ (λ q n' h.
        on_answer_verified_1-Moves limit m.settings m.limits s.node n' q (m.tx_size s.count)
          (m.clock s.count) h))
  chosen-Turns transaction sp s s' b e = handled-Turns limit s s' b _ _ e (
      weak limit s.node _ (λ q n' h.
        returned limit s.node n' _ h
          (on_transaction-Moves limit m.settings s.node (m.is_open s.count) q)))
  chosen-Turns unknown sp s s' b e =
      subst (λ x. Turns limit s x.1) (done-injective e) (Turns-refl limit s)

  handle_fields-Turns :
      (sp : List Text) (s s' : Session) (b : Bool)
      → handle_fields m sp s ≡ done (b, s')
      → Turns limit s s'
  unfolding handle_fields
  handle_fields-Turns [] s s' b e =
      subst (λ x. Turns limit s x.1) (done-injective e) (Turns-refl limit s)
  handle_fields-Turns (tag ∷ sp) s s' b e = chosen-Turns (kind_of tag) (tag ∷ sp) s s' b e

  handle-Turns :
      (w : Text) (s s' : Session) (b : Bool) → handle m w s ≡ done (b, s') → Turns limit s s'
  unfolding handle
  handle-Turns w s s' b e = handle_fields-Turns (split w (44 ∷ [])) s s' b e

  process_node_buffer-Turns :
      (n : Node) (b t : Text) (s' : Session)
      → process_node_buffer m n b ≡ done (some (t, s'))
      → Turns limit (record { node = n; passed = []; count = 0 }) s'
  unfolding process_node_buffer
  process_node_buffer-Turns n b t s' e =
      process_buffer_keeps (handle m) (Turns limit) (Turns-refl limit) (Turns-trans limit)
        handle-Turns m.settings.print_transmission_errors b t
        (record { node = n; passed = []; count = 0 }) s' e

  -- Whatever bytes a peer sends, a node that goes on after them lost no block: every block keeps its hash,
  -- what a search in a main tree found it finds again, and the trees are in order afterwards if they
  -- were before. To go on means that no handler used a chain outside the `CHAINS` chains of the node,
  -- read through a null pointer or past an end, or called `exit`.
  pub process_node_buffer-Grows :
      (n : Node) (b t : Text) (s' : Session)
      → WellFormed n.bc
      → process_node_buffer m n b ≡ done (some (t, s'))
      → Grows n.bc s'.node.bc
  process_node_buffer-Grows n b t s' w e = (process_node_buffer-Turns n b t s' e).moves.grows w

  -- Whatever bytes a peer sends, the shares of the members of a node that goes on after them still add up
  -- to the number of blocks of the round, if they did before.
  pub process_node_buffer-IsBalanced :
      (n : Node) (b t : Text) (s' : Session)
      → IsBalanced n.group
      → process_node_buffer m n b ≡ done (some (t, s'))
      → IsBalanced s'.node.group
  process_node_buffer-IsBalanced n b t s' h e =
      (process_node_buffer-Turns n b t s' e).moves.balanced h

  -- The node implements the protocol of the rounds: whatever bytes a peer sends, what they change in the
  -- round, the state and the number of blocks of a node that goes on after them is a run of steps of the
  -- protocol: blocks that are added, no more than messages were handled; starts with at least
  -- `CONCURRENCY_BLOCKS` blocks; and ends of rounds that have started, each of which begins the next
  -- round.
  pub process_node_buffer-RoundSteps :
      (n : Node) (b t : Text) (s' : Session)
      → process_node_buffer m n b ≡ done (some (t, s'))
      → (p : RoundSteps limit (round_view n.group) (round_view s'.node.group)) × (joins p
          ≤ s'.count)
  process_node_buffer-RoundSteps n b t s' e =
      let r = process_node_buffer-Turns n b t s' e in
      (r.moves.steps, omega (arith, r.moves.few, r.counted))

  -- A node whose consensus has not started does not leave the round, and does not start its consensus,
  -- before there are enough messages: where the blocks of the round and the messages that were handled
  -- are together less than `CONCURRENCY_BLOCKS`, the round, and that it has not started, are as before,
  -- and the number of blocks has grown by at most the number of messages.
  pub process_node_buffer_enough :
      (n : Node) (b t : Text) (s' : Session)
      → n.group.state ≡ false
      → process_node_buffer m n b ≡ done (some (t, s'))
      → n.group.concurrency_block_numbers + s'.count < limit
      → (s'.node.group.round ≡ n.group.round)
        × (s'.node.group.state ≡ false)
        × (s'.node.group.concurrency_block_numbers ≤ n.group.concurrency_block_numbers + s'.count)
        × (n.group.concurrency_block_numbers ≤ s'.node.group.concurrency_block_numbers)
  unfolding round_view
  process_node_buffer_enough n b t s' idle e few =
      let (p, h) = process_node_buffer-RoundSteps n b t s' e in
      let (round, state, blocks) = RoundSteps-few p idle (omega (arith, h, few)) in
      (round, state, omega (arith, h, blocks), omega (arith, blocks))
