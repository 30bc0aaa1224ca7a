-- ===== src/Handlers/Votes/Finish.antt =====
-- The votes that a round waits for end it.
use snowball_dag_experiment.Base.{
  ℕ, ◌≡◌, refl, ap, ◌∙◌, true, false, some, List, [], ◌∷◌, ℤ, pos, ◌+ℤ◌, ◌==◌, arith,
}
use snowball_dag_experiment.Base.Assoc.{nat_key, find, erase, assign}
use snowball_dag_experiment.Base.Outcome.{done, deref, bind-done, then_of, else_of}
use snowball_dag_experiment.Blocks.{NetworkBlock}
use snowball_dag_experiment.Blockchain.{find_block_by_hash_and_chain_id}
use snowball_dag_experiment.Messages.{Settings}
use snowball_dag_experiment.Messages.Round.{AnswerVerified1}
use snowball_dag_experiment.Handlers.{Limits, Node, act}
use snowball_dag_experiment.Handlers.Rounds.{advance_round}
use snowball_dag_experiment.Handlers.Rounds.Balanced.{advance_round-IsBalanced}
use snowball_dag_experiment.Handlers.Votes.{
  my_votes, with_votes, is_enough, settle_block, end_of_round, enough_votes, count_votes,
  on_answer_verified_1,
}

-- A node that waits for votes on one block only, with the header `w` of its entry; `nb` is its header in
-- the block chain and `mine` are the votes of this node.
pub record WaitsForOne (st : Settings) (n : Node) (hash b : ℕ) (w nb : NetworkBlock) (mine : ℤ)
    : Type 0 where
  pub started : n.group.state ≡ true
  pub entry : n.bc.waiting_for_phase_1_block ≡ (hash, w) ∷ []
  pub own : my_votes st n.group w ≡ done mine
  pub known : find_block_by_hash_and_chain_id n.bc w.hash w.chain_id ≡ some b
  pub header : n.bc.store.nb b ≡ some nb

-- The map with one entry.
one_entry :
    (hash : ℕ) (w v : NetworkBlock)
    → (find hash ((hash, w) ∷ []) ≡ some w) × (erase hash (assign hash v ((hash, w) ∷ [])) ≡ [])
unfolding find erase assign
one_entry hash w v =
    let same : (hash == hash) ≡ true = ground arith in
    (then_of (hash == hash) _ _ same, rw (same, same) refl)

no_entries :
    (l : List (ℕ × NetworkBlock)) (x y : Node) → l ≡ [] → (elim l [ [] ↦ x | e ∷ m ↦ y ]) ≡ x
no_entries [] x y e = refl
no_entries (a ∷ l) x y e = absurd (cc)

end_of_round_over :
    (n : Node) → n.bc.waiting_for_phase_1_block ≡ [] → end_of_round n ≡ advance_round n
unfolding end_of_round
end_of_round_over n e = no_entries n.bc.waiting_for_phase_1_block (advance_round n) n e

module _ (st : Settings) (lim : Limits) (n : Node) (q : AnswerVerified1) (b tx_size now : ℕ)
    (w nb : NetworkBlock) (mine : ℤ) (waits : WaitsForOne st n q.hash b w nb mine) where
  abbrev votes : ℤ
  votes = w.consensus_part.verify_1_numbers +ℤ mine +ℤ q.votes

  abbrev counted : Node
  counted = count_votes n q.hash (with_votes w votes)

  abbrev settled : Node
  settled = settle_block counted q.hash b nb votes tx_size now

  enough_votes_returns :
      enough_votes counted q.hash (with_votes w votes) votes tx_size now
      ≡ done (end_of_round settled)
  unfolding enough_votes count_votes with_votes find_block_by_hash_and_chain_id
  enough_votes_returns =
      bind-done (deref (find_block_by_hash_and_chain_id n.bc w.hash w.chain_id)) _ b
        (ap deref waits.known)
        (bind-done (deref (n.bc.store.nb b)) _ nb (ap deref waits.header) refl)

  on_answer_verified_1_returns :
      is_enough lim votes ≡ true
      → on_answer_verified_1 st lim n q tx_size now ≡ done (end_of_round settled)
  unfolding on_answer_verified_1
  on_answer_verified_1_returns enough =
      else_of n.group.state _ _ waits.started
      ∙ bind-done (deref (find q.hash n.bc.waiting_for_phase_1_block)) _ w
          (ap deref (ap (find q.hash) waits.entry ∙ (one_entry q.hash w w).0))
          (bind-done (my_votes st n.group w) _ mine waits.own
            (then_of (is_enough lim votes) _ _ enough ∙ enough_votes_returns))

  settled_over : settled.bc.waiting_for_phase_1_block ≡ []
  unfolding settle_block act count_votes
  settled_over =
      ap (λ m. erase q.hash (assign q.hash (with_votes w votes) m)) waits.entry
      ∙ (one_entry q.hash w (with_votes w votes)).1

  settled_group : settled.group ≡ n.group
  unfolding settle_block act count_votes
  settled_group = refl

  -- A node that waits for votes on one block only, and receives an answer with which the votes are enough,
  -- goes on: the round ends, the next round has begun and is not started, and mining goes on. The round
  -- has started, the vote of this node can be read, and the block is known and has a header.
  pub on_answer_verified_1_finishes :
      is_enough lim (w.consensus_part.verify_1_numbers +ℤ mine +ℤ q.votes) ≡ true
      → (n' : Node) × (on_answer_verified_1 st lim n q tx_size now ≡ done n')
        × (n'.group.round ≡ n.group.round +ℤ pos 1)
        × (n'.group.state ≡ false)
        × (n'.mining ≡ true)
  on_answer_verified_1_finishes enough =
      let (_, round, state, _, mining) = advance_round-IsBalanced settled in
      (
        advance_round settled,
        on_answer_verified_1_returns enough ∙ ap done (end_of_round_over settled settled_over),
        round ∙ ap (λ g. g.round +ℤ pos 1) settled_group,
        state,
        mining,
      )
