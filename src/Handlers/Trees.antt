-- ===== src/Handlers/Trees.antt =====
-- The handlers that only write into headers, counters and maps leave every tree as it was.
use snowball_dag_experiment.Base.{
  ℕ, ◌≡◌, refl, ap, inl, inr, List, ℤ, pos, ◌+ℤ◌, ltb, arith, Bool-cases, Option-cases,
}
use snowball_dag_experiment.Base.Assoc.{int_key, nat_key, find, has}
use snowball_dag_experiment.HashTree.{Tree}
use snowball_dag_experiment.SideChains.{SideChain}
use snowball_dag_experiment.Blocks.{NetworkBlock, set_nb}
use snowball_dag_experiment.Blocks.Links.{Extends}
use snowball_dag_experiment.Blockchain.{Blockchain, find_block_by_hash_and_chain_id}
use snowball_dag_experiment.Blockchain.WellFormed.{WellFormed, Grows}
use snowball_dag_experiment.Blockchain.Receiving.{Grows-Extends}
use snowball_dag_experiment.Waiting.{still_waiting_for_full_block, add_total_ask_for_verify_blocks}
use snowball_dag_experiment.Waiting.Full.{set_received, set_full, set_block_full}
use snowball_dag_experiment.Handlers.{Node}
use snowball_dag_experiment.Handlers.Rounds.{advance_round}
use snowball_dag_experiment.Handlers.Votes.{with_votes, accept_block, settle_block, end_of_round}
use snowball_dag_experiment.Handlers.Votes.Quorum.{List-cases}

-- What a search in the trees depends on.
abbrev pub trees : Blockchain → (ℕ → ℕ) × ℕ × (ℕ → Tree) × (ℕ → List SideChain)
trees bc = (bc.store.hash, bc.store.next, bc.chains, bc.inchains)

pub Grows-trees : (bc bc' : Blockchain) → trees bc' ≡ trees bc → WellFormed bc → Grows bc bc'
Grows-trees bc bc' e w =
    let keys : bc'.store.hash ≡ bc.store.hash = ap (λ x. x.0) e in
    let next : bc'.store.next ≡ bc.store.next = ap (λ x. x.1) e in
    let extends : Extends bc.store bc'.store = record {
      grows = omega (arith, next);
      same = λ b h. ap (λ f. f b) keys;
    } in
    Grows-Extends bc 0 w bc' extends (ap (λ x. x.2) e) (ap (λ x. x.3) e)

trees-set_received :
    (bc : Blockchain) (b : ℕ) (nb : NetworkBlock) (now : ℕ)
    → trees (set_received bc b nb now) ≡ trees bc
unfolding set_received set_nb
trees-set_received bc b nb now = elim (Bool-cases (ltb nb.time_mined now)) [
  | inl q ↦ rw q refl
  | inr q ↦ rw q refl
]

pub trees-set_block_full :
    (bc : Blockchain) (chain_id hash now : ℕ)
    → trees (set_block_full bc chain_id hash now) ≡ trees bc
unfolding set_block_full set_full
trees-set_block_full bc chain_id hash now =
    elim (Option-cases (find_block_by_hash_and_chain_id bc hash chain_id)) [
      | inl q ↦ rw (q, set_block_full) refl
      | inr (b, q) ↦ elim (Option-cases (bc.store.nb b)) [
        | inl r ↦ rw (q, r, set_block_full) refl
        | inr (nb, r) ↦ rw (q, r, set_block_full) (trees-set_received _ b nb now)
      ]
    ]

pub trees-advance_round : (n : Node) → trees (advance_round n).bc ≡ trees n.bc
unfolding advance_round
trees-advance_round n = elim (Option-cases (find (n.group.round +ℤ pos 1) n.group.future_info)) [
  | inl q ↦ rw (q, advance_round) refl
  | inr (info, q) ↦ rw (q, advance_round) refl
]

pub trees-end_of_round : (n : Node) → trees (end_of_round n).bc ≡ trees n.bc
unfolding end_of_round
trees-end_of_round n = elim (List-cases n.bc.waiting_for_phase_1_block) [
  | inl q ↦ rw (q, end_of_round) (trees-advance_round n)
  | inr (x, m, q) ↦ rw (q, end_of_round) refl
]

pub trees-settle_block :
    (n : Node) (hash b : ℕ) (nb : NetworkBlock) (v : ℤ) (tx_size now : ℕ)
    → trees (settle_block n hash b nb v tx_size now).bc ≡ trees n.bc
unfolding settle_block accept_block with_votes add_total_ask_for_verify_blocks set_full set_nb
trees-settle_block n hash b nb v tx_size now = trees-set_received _ b (with_votes nb v) now

pub still_waiting_trees :
    (bc : Blockchain) (hash now : ℕ) → trees (still_waiting_for_full_block bc hash now).1 ≡ trees bc
unfolding still_waiting_for_full_block
still_waiting_trees bc hash now = elim (Bool-cases (has hash bc.waiting_for_full_blocks)) [
  | inl q ↦ rw q refl
  | inr q ↦ rw q refl
]
