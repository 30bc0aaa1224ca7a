-- ===== src/Handlers/Kept/Ends.antt =====
-- The handlers that can end a round move it as the protocol allows, and lose no block.
use snowball_dag_experiment.Base.{
  ℕ, ◌≡◌, refl, sym, ◌∙◌, subst, inl, inr, Bool, true, false, not, List, [], ◌∷◌, ℤ, ◌+ℤ◌, Text,
  if◌then◌else◌, arith, Bool-cases, Option-cases,
}
use snowball_dag_experiment.Base.Assoc.{nat_key, find}
use snowball_dag_experiment.Base.Outcome.{Outcome, done, deref, done-bind, done-if, done-injective}
use snowball_dag_experiment.Blocks.{NetworkBlock, set_nb}
use snowball_dag_experiment.Blockchain.{find_block_by_hash_and_chain_id, have_full_block}
use snowball_dag_experiment.Waiting.{add_total_verify_blocks}
use snowball_dag_experiment.Messages.{Settings}
use snowball_dag_experiment.Messages.Chain.{FullBlock}
use snowball_dag_experiment.Messages.Round.{AnswerVerified1}
use snowball_dag_experiment.Handlers.{Limits, Node, act}
use snowball_dag_experiment.Handlers.Rounds.{advance_round}
use snowball_dag_experiment.Handlers.Votes.{
  my_votes, with_votes, is_enough, settle_block, end_of_round, enough_votes, count_votes,
  on_answer_verified_1,
}
use snowball_dag_experiment.Handlers.FullBlocks.{
  Verdict, incorrect, no_trailing, correct, add_from, check_header, is_left_out, store_block,
  complete_block, fill_block, on_full_block,
}
use snowball_dag_experiment.Handlers.Trees.{Grows-trees, trees-set_block_full, trees-settle_block}
use snowball_dag_experiment.Handlers.Rounding.{
  Moves, Moves-trans, Moves-bc, Moves-refl, Moves-unless, Moves-when,
}
use snowball_dag_experiment.Handlers.Kept.Rounds.{advance_round-Moves}

-- The node that does not take part is in a round that has started.
left_out_started :
    (st : Settings) (digest : Text → Text) (n : Node) (round : ℤ)
    → is_left_out digest st n.group round ≡ true
    → n.group.state ≡ true
unfolding is_left_out
left_out_started st digest n round e = ground arith

complete_block-out :
    (digest : Text → Text) (st : Settings) (n : Node) (q : FullBlock) (nb : NetworkBlock)
    (tx_size now : ℕ)
    → is_left_out digest st (store_block digest n q nb tx_size now).group nb.consensus_part.round
      ≡ true
    → complete_block digest st n q nb tx_size now
      ≡ advance_round (store_block digest n q nb tx_size now)
unfolding complete_block
complete_block-out digest st n q nb tx_size now out = rw (out, complete_block) refl

module _ (k : ℕ) where
  -- Handlers that go on in one of several ways.
  by_entries :
      (n a b : Node) (l : List (ℕ × NetworkBlock))
      → Moves k 0 n a
      → Moves k 0 n b
      → Moves k 0 n (elim l [ [] ↦ a | e ∷ m ↦ b ])
  by_entries n a b [] p q = p
  by_entries n a b (e ∷ m) p q = q

  by_verdict :
      (n a b c : Node) (v : Verdict)
      → Moves k 0 n a
      → Moves k 0 n b
      → Moves k 0 n c
      → Moves k 0 n (elim v [ incorrect ↦ a | no_trailing ↦ b | correct ↦ c ])
  by_verdict n a b c incorrect p q r = p
  by_verdict n a b c no_trailing p q r = q
  by_verdict n a b c correct p q r = r

  if_started :
      (started : Bool) (m : Outcome Node) (n n' : Node)
      → (if not started then done n else m) ≡ done n'
      → (started ≡ true → m ≡ done n' → Moves k 0 n n')
      → Moves k 0 n n'
  if_started true m n n' e f = f refl e
  if_started false m n n' e f = subst (Moves k 0 n) (done-injective e) (Moves-refl n)

  end_of_round-Moves : (n : Node) → n.group.state ≡ true → Moves k 0 n (end_of_round n)
  unfolding end_of_round
  end_of_round-Moves n started =
      by_entries n (advance_round n) n n.bc.waiting_for_phase_1_block
        (advance_round-Moves k n started) (Moves-refl n)

  enough_votes-Moves :
      (n n' : Node) (hash : ℕ) (w : NetworkBlock) (v : ℤ) (tx_size now : ℕ)
      → n.group.state ≡ true
      → enough_votes n hash w v tx_size now ≡ done n'
      → Moves k 0 n n'
  unfolding enough_votes settle_block act
  enough_votes-Moves n n' hash w v tx_size now started e =
      let (b, _, h1) =
        done-bind (deref (find_block_by_hash_and_chain_id n.bc w.hash w.chain_id)) _ e in
      let (nb, _, h2) = done-bind (deref (n.bc.store.nb b)) _ h1 in
      let n1 = settle_block n hash b nb v tx_size now in
      let settled : Moves k 0 n n1 =
        Moves-bc n n1 (Grows-trees n.bc n1.bc (trees-settle_block n hash b nb v tx_size now))
          refl in
      subst (Moves k 0 n) (done-injective h2)
        (Moves-trans n n1 _ settled (end_of_round-Moves n1 started))

  pub on_answer_verified_1-Moves :
      (st : Settings) (lim : Limits) (n n' : Node) (q : AnswerVerified1) (tx_size now : ℕ)
      → on_answer_verified_1 st lim n q tx_size now ≡ done n'
      → Moves k 0 n n'
  unfolding on_answer_verified_1 count_votes
  on_answer_verified_1-Moves st lim n n' q tx_size now e =
      if_started n.group.state _ n n' e (λ started h.
        let (w, _, h1) = done-bind (deref (find q.hash n.bc.waiting_for_phase_1_block)) _ h in
        let (mine, _, h2) = done-bind (my_votes st n.group w) _ h1 in
        let v = w.consensus_part.verify_1_numbers +ℤ mine +ℤ q.votes in
        let w' = with_votes w v in
        let n1 = count_votes n q.hash w' in
        let counted : Moves k 0 n n1 = Moves-bc n n1 (Grows-trees n.bc n1.bc refl) refl in
        done-if (is_enough lim v) _ _ h2
          (λ h3.
            Moves-trans n n1 n' counted
              (enough_votes-Moves n1 n' q.hash w' v tx_size now started h3))
          (λ h3. subst (Moves k 0 n) (done-injective h3) counted))

  module _ (digest : Text → Text) (st : Settings) where
    complete_block-Moves :
        (n : Node) (q : FullBlock) (nb : NetworkBlock) (tx_size now : ℕ)
        → Moves k 0 n (complete_block digest st n q nb tx_size now)
    unfolding complete_block store_block act add_total_verify_blocks is_left_out
    complete_block-Moves n q nb tx_size now =
        let n1 = store_block digest n q nb tx_size now in
        let stored : Moves k 0 n n1 =
          Moves-bc n n1 (Grows-trees n.bc n1.bc (trees-set_block_full n.bc q.chain_id q.hash now))
            refl in
        elim (Bool-cases (is_left_out digest st n.group nb.consensus_part.round)) [
          | inl out ↦
              subst (Moves k 0 n) (sym (complete_block-out digest st n q nb tx_size now out)) (
                Moves-trans n n1 _ stored (
                  advance_round-Moves k n1
                    (left_out_started st digest n1 nb.consensus_part.round out)))
          | inr takes_part ↦ rw (takes_part, complete_block) stored
        ]

    fill_block-Moves :
        (n n' : Node) (q : FullBlock) (b : ℕ) (nb : NetworkBlock) (tx_size now : ℕ)
        → fill_block digest st n q b nb tx_size now ≡ done n'
        → Moves k 0 n n'
    unfolding fill_block act set_nb
    fill_block-Moves n n' q b nb tx_size now e =
        let n1 : Node = record n { bc = record n.bc { store = set_nb n.bc.store b nb } } in
        let filled : Moves k 0 n n1 = Moves-bc n n1 (Grows-trees n.bc n1.bc refl) refl in
        let (v, _, h) = done-bind (check_header digest st n1.bc nb) _ e in
        subst (Moves k 0 n) (done-injective h) (
          by_verdict n n1 _ _ v filled (Moves-bc n _ (Grows-trees n.bc _ refl) refl)
            (Moves-trans n n1 _ filled (complete_block-Moves n1 q nb tx_size now)))

    pub on_full_block-Moves :
        (lim : Limits) (n n' : Node) (q : FullBlock) (tx_size now : ℕ)
        → on_full_block digest st lim n q tx_size now ≡ done n'
        → Moves k 0 n n'
    unfolding on_full_block
    on_full_block-Moves lim n n' q tx_size now e =
        Moves-unless (have_full_block n.bc q.chain_id q.hash) _ n n' e (λ h.
          elim (Option-cases (find_block_by_hash_and_chain_id n.bc q.hash q.chain_id)) [
            | inl none_there ↦
                subst (Moves k 0 n) (done-injective (sym (rw none_there refl) ∙ h)) (Moves-refl n)
            | inr (b, at) ↦ elim (Option-cases (n.bc.store.nb b)) [
              | inl no_header ↦
                  subst (Moves k 0 n) (done-injective (sym (rw (at, no_header) refl) ∙ h))
                    (Moves-refl n)
              | inr (nb, header) ↦
                  Moves-when (is_enough lim q.nb.consensus_part.verify_1_numbers) _ n n'
                    (sym (rw (at, header) refl) ∙ h)
                    (fill_block-Moves n n' q b (add_from nb q.nb) tx_size now)
            ]
          ])
