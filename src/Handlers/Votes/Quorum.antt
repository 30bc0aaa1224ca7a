-- ===== src/Handlers/Votes/Quorum.antt =====
-- Which votes are enough, and what they set off.
use snowball_dag_experiment.Base.{
  ℕ, ◌*◌, ◌/◌, ◌^◌, ◌<◌, ◌≡◌, refl, sym, subst, ap, ◌∙◌, inl, inr, ◌⊎◌, true, none, some, List, [],
  ◌∷◌, ℤ, pos, negsuc, ◌+ℤ◌, ltb, leb, ◌==◌, arith, Bool-cases,
}
use snowball_dag_experiment.Base.Assoc.{nat_key, int_key, find, find-erase}
use snowball_dag_experiment.Base.Outcome.{done}
use snowball_dag_experiment.Numbers.{to_uint32}
use snowball_dag_experiment.Blocks.{Store, NetworkBlock, update, set_nb}
use snowball_dag_experiment.Blockchain.{Blockchain, find_block_by_hash_and_chain_id}
use snowball_dag_experiment.Waiting.{add_total_ask_for_verify_blocks}
use snowball_dag_experiment.Waiting.Full.{set_received, set_full}
use snowball_dag_experiment.Messages.{Settings}
use snowball_dag_experiment.Messages.Round.{AnswerVerified1}
use snowball_dag_experiment.Consensus.Joins.{IsBalanced}
use snowball_dag_experiment.Handlers.{Limits, Node, act}
use snowball_dag_experiment.Handlers.Rounds.Balanced.{advance_round-IsBalanced, advance_round_keeps}
use snowball_dag_experiment.Handlers.Votes.{
  my_votes, with_votes, is_enough, accept_block, settle_block, end_of_round, enough_votes,
  count_votes, on_answer_verified_1,
}

-- For at most 2^31 - 1 blocks in a round: `k` votes are enough from the quorum on, twice the third
-- (rounded down) of that number, and every negative `int` is enough, as it is compared as an unsigned number.
pub is_enough_lem :
    (lim : Limits) (k : ℕ)
    → lim.concurrency_blocks < 2 ^ 31
    → k < 2 ^ 31
    → (is_enough lim (pos k) ≡ leb (lim.concurrency_blocks / 3 * 2) k)
      × (is_enough lim (negsuc k) ≡ true)
unfolding is_enough to_uint32
is_enough_lem lim k c h = (ground arith, ground arith)

-- `b` is a full block of the store, and its header has the votes.
pub record IsAccepted (s : Store) (b : ℕ) (v : ℤ) : Type 0 where
  pub full : s.is_full_block b ≡ true
  pub header : NetworkBlock
  pub stored : s.nb b ≡ some header
  pub votes : header.consensus_part.verify_1_numbers ≡ v

set_nb_self : (s : Store) (b : ℕ) (nb : NetworkBlock) → (set_nb s b nb).nb b ≡ some nb
unfolding set_nb update
set_nb_self s b nb = let same : (b == b) ≡ true = ground arith in rw same refl

set_received-IsAccepted :
    (bc : Blockchain) (b : ℕ) (nb : NetworkBlock) (now : ℕ)
    → bc.store.is_full_block b ≡ true
    → IsAccepted (set_received bc b nb now).store b nb.consensus_part.verify_1_numbers
unfolding set_received set_nb
set_received-IsAccepted bc b nb now full = elim (Bool-cases (ltb nb.time_mined now)) [
  | inl later ↦
      rw (later, set_received)
        (record {
          full = full;
          header = record nb { time_received = now };
          stored = set_nb_self bc.store b (record nb { time_received = now });
          votes = refl;
        })
  | inr early ↦
      rw (early, set_received)
        (record {
          full = full;
          header = record nb { time_received = nb.time_mined };
          stored = set_nb_self bc.store b (record nb { time_received = nb.time_mined });
          votes = refl;
        })
]

accept_block-IsAccepted :
    (bc : Blockchain) (b : ℕ) (nb : NetworkBlock) (v : ℤ) (now : ℕ)
    → IsAccepted (accept_block bc b nb v now).store b v
unfolding accept_block with_votes add_total_ask_for_verify_blocks set_full update set_nb
accept_block-IsAccepted bc b nb v now =
    let same : (b == b) ≡ true = ground arith in
    set_received-IsAccepted _ b (with_votes nb v) now (rw same refl)

pub List-cases {ℓ} : {A : Type ℓ} (l : List A) → (l ≡ []) ⊎ ((a : A) × (m : List A) × (l ≡ a ∷ m))
List-cases [] = inl refl
List-cases (a ∷ m) = inr (a, m, refl)

-- What the end of a round, if it is one, leaves as it was.
end_of_round_lem :
    (n : Node)
    → ((end_of_round n).bc.store ≡ n.bc.store)
      × ((end_of_round n).bc.waiting_for_phase_1_block ≡ n.bc.waiting_for_phase_1_block)
      × (IsBalanced n.group → IsBalanced (end_of_round n).group)
unfolding end_of_round
end_of_round_lem n = elim (List-cases n.bc.waiting_for_phase_1_block) [
  | inl over ↦
      let (store, entries) = advance_round_keeps n in
      rw (over, end_of_round) (store, entries ∙ over, λ _. (advance_round-IsBalanced n).0)
  | inr (e, m, more) ↦ rw (more, end_of_round) (refl, more, λ x. x)
]

-- The node after `enough_votes`.
settle_block_lem :
    (n : Node) (hash b : ℕ) (nb : NetworkBlock) (v : ℤ) (tx_size now : ℕ)
    → let n' = settle_block n hash b nb v tx_size now in
      IsAccepted n'.bc.store b v
      × (find hash n'.bc.waiting_for_phase_1_block ≡ none)
      × (n'.group ≡ n.group)
unfolding settle_block act
settle_block_lem n hash b nb v tx_size now = (
  accept_block-IsAccepted _ b nb v now,
  find-erase hash hash n.bc.waiting_for_phase_1_block
      ∙ (let same : (hash == hash) ≡ true = ground arith in rw same refl),
  refl,
)

-- Where the consensus has started and the votes on a waiting block of the main tree, with those of
-- this message and, on the first one, the own share of this node, are enough, the handler returns: the
-- block is full and has the votes, its entry is gone, and a balanced group stays balanced, also where
-- the round ends.
pub on_answer_verified_1-IsAccepted :
    (st : Settings) (lim : Limits) (n : Node) (q : AnswerVerified1) (tx_size now b : ℕ)
    (w nb : NetworkBlock) (mine : ℤ)
    → n.group.state ≡ true
    → find q.hash n.bc.waiting_for_phase_1_block ≡ some w
    → my_votes st n.group w ≡ done mine
    → find_block_by_hash_and_chain_id n.bc w.hash w.chain_id ≡ some b
    → n.bc.store.nb b ≡ some nb
    → is_enough lim (w.consensus_part.verify_1_numbers +ℤ mine +ℤ q.votes) ≡ true
    → (n' : Node) × (on_answer_verified_1 st lim n q tx_size now ≡ done n')
      × IsAccepted n'.bc.store b (w.consensus_part.verify_1_numbers +ℤ mine +ℤ q.votes)
      × (find q.hash n'.bc.waiting_for_phase_1_block ≡ none)
      × (IsBalanced n.group → IsBalanced n'.group)
unfolding on_answer_verified_1 enough_votes count_votes find_block_by_hash_and_chain_id with_votes
on_answer_verified_1-IsAccepted st lim n q tx_size now b w nb mine started waits own found at
      enough =
    let v = w.consensus_part.verify_1_numbers +ℤ mine +ℤ q.votes in
    let n1 = settle_block (count_votes n q.hash (with_votes w v)) q.hash b nb v tx_size now in
    let (accepted, gone, group) =
      settle_block_lem (count_votes n q.hash (with_votes w v)) q.hash b nb v tx_size now in
    let (store, entries, balanced) = end_of_round_lem n1 in
    (
      end_of_round n1,
      rw (started, waits, own, enough, found, at, on_answer_verified_1) refl,
      subst (λ s. IsAccepted s b v) (sym store) accepted,
      ap (find q.hash) entries ∙ gone,
      λ h. balanced (subst IsBalanced (sym group) h),
    )
