-- ===== src/Handlers/Kept.antt =====
-- The handlers that leave the group alone lose no block.
pub mod Rounds
pub mod Ends
use snowball_dag_experiment.Base.{
  ℕ, ◌≡◌, refl, sym, ◌∙◌, subst, inl, inr, Bool, true, false, not, none, some, List, [], ◌∷◌, pos,
  Text, ltb, bytes, text_eq, if◌then◌else◌, eqb_ℤ, Bool-cases,
}
use snowball_dag_experiment.Base.Outcome.{Outcome, done, ◌>>=◌, done-bind, done-injective}
use snowball_dag_experiment.Blocks.{SenderInfo, NetworkBlock, depth_of}
use snowball_dag_experiment.Blockchain.{have_full_block, add_received_block}
use snowball_dag_experiment.Blockchain.WellFormed.{WellFormed, Grows, Grows-refl}
use snowball_dag_experiment.Blockchain.Added.{add_received_block-Grows}
use snowball_dag_experiment.Waiting.{
  to_int, still_waiting_for_full_block, set_block_requested_in_phase_request,
}
use snowball_dag_experiment.Messages.{Settings}
use snowball_dag_experiment.Messages.Chain.{AskBlock, ChainBlock, create_full_block}
use snowball_dag_experiment.Messages.Round.{Ping, HaveConsensusBlock, SentTransaction}
use snowball_dag_experiment.Handlers.{Limits, Node, act}
use snowball_dag_experiment.Handlers.Trees.{Grows-trees, still_waiting_trees}
use snowball_dag_experiment.Handlers.Rounding.{Moves, Moves-bc, Moves-refl, Moves-unless}
use snowball_dag_experiment.Handlers.Replies.{
  send_blocks, known_block, on_ask_block, on_process_block, on_got_full_block, on_have_full_block,
  on_ask_full_block, on_have_consensus_block, on_transaction,
}
use snowball_dag_experiment.Handlers.Pings.{add_ping, on_ping}

module _ (k : ℕ) (st : Settings) (n : Node) where
  -- A node with the same block chain and the same group.
  same_parts : (n' : Node) → n'.bc ≡ n.bc → n'.group ≡ n.group → Moves k 0 n n'
  same_parts n' b g = Moves-bc n n' (λ w. rw b (Grows-refl n.bc w)) g

  pub on_ping-Moves : (q : Ping) → Moves k 0 n (on_ping st n q)
  unfolding on_ping act
  on_ping-Moves q =
      elim (Bool-cases ((add_ping n.pings q.tt (to_int q.dnext) (eqb_ℤ q.mode (pos 1))).0)) [
        | inl p ↦ rw p (same_parts _ refl refl)
        | inr p ↦ rw p (same_parts _ refl refl)
      ]

  pub on_ask_block-Moves :
      (lim : Limits) (q : AskBlock) (n' : Node) → on_ask_block st lim n q ≡ done n' → Moves k 0 n n'
  unfolding on_ask_block act
  on_ask_block-Moves lim q n' e =
      let (l, _, h) =
        done-bind
          (send_blocks st
            (if ltb q.max_number_of_blocks lim.max_ask_blocks
              then q.max_number_of_blocks
              else lim.max_ask_blocks)
            n.bc.store q.sender (known_block n.bc q.hash q.chain_id))
          _ e in
      subst (Moves k 0 n) (done-injective h) (same_parts _ refl refl)

  pub on_process_block-Moves :
      (sender : SenderInfo) (nb : NetworkBlock) (n' : Node)
      → on_process_block st n sender nb ≡ done n'
      → Moves k 0 n n'
  unfolding on_process_block act
  on_process_block-Moves sender nb n' e =
      let (r, e1, h1) = done-bind (add_received_block n.bc nb.chain_id nb.parent nb.hash nb) _ e in
      let (d, _, h2) = done-bind (depth_of r.bc.store (r.bc.deepest nb.chain_id)) _ h1 in
      subst (Moves k 0 n) (done-injective h2) (
        Moves-bc n _ (λ w. add_received_block-Grows n.bc nb.chain_id nb.parent nb.hash nb r w e1)
          refl)

  pub on_got_full_block-Moves : (q : ChainBlock) → Moves k 0 n (on_got_full_block st n q)
  unfolding on_got_full_block act
  on_got_full_block-Moves q = elim (Bool-cases (have_full_block n.bc q.chain_id q.hash)) [
    | inl p ↦ rw p (same_parts _ refl refl)
    | inr p ↦ rw p (Moves-refl n)
  ]

  pub on_have_full_block-Moves :
      (q : ChainBlock) (now : ℕ) → Moves k 0 n (on_have_full_block st n q now)
  unfolding on_have_full_block act
  on_have_full_block-Moves q now =
      let g = Grows-trees n.bc _ (still_waiting_trees n.bc q.hash now) in
      elim (Bool-cases (have_full_block n.bc q.chain_id q.hash)) [
        | inl p ↦ rw p (Moves-refl n)
        | inr p ↦ elim (Bool-cases ((still_waiting_for_full_block n.bc q.hash now).0)) [
          | inl r ↦ rw (p, r) (Moves-bc n _ g refl)
          | inr r ↦ rw (p, r) (Moves-bc n _ g refl)
        ]
      ]

  pub on_ask_full_block-Moves :
      (q : ChainBlock) (now : ℕ) (n' : Node)
      → on_ask_full_block st n q now ≡ done n'
      → Moves k 0 n n'
  unfolding on_ask_full_block act
  on_ask_full_block-Moves q now n' e =
      Moves-unless (not (have_full_block n.bc q.chain_id q.hash)) _ n n' e (λ h.
        let (t, _, h1) = done-bind (create_full_block st n.bc q.chain_id q.hash now) _ h in
        subst (Moves k 0 n) (done-injective h1) (same_parts _ refl refl))

  pub on_have_consensus_block-Moves :
      (q : HaveConsensusBlock) → Moves k 0 n (on_have_consensus_block n q)
  unfolding on_have_consensus_block set_block_requested_in_phase_request
  on_have_consensus_block-Moves q = elim (Bool-cases (not q.received)) [
    | inl p ↦ rw p (Moves-refl n)
    | inr p ↦ rw p (Moves-bc n _ (Grows-trees n.bc _ refl) refl)
  ]

  pub on_transaction-Moves :
      (is_open : Bool) (q : SentTransaction) → Moves k 0 n (on_transaction st is_open n q)
  unfolding on_transaction act
  on_transaction-Moves is_open q = elim (Bool-cases (text_eq q.sender.ip (bytes "Client"))) [
    | inl p ↦ rw p (same_parts _ refl refl)
    | inr p ↦ rw p (same_parts _ refl refl)
  ]
