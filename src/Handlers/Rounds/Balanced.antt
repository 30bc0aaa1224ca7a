-- ===== src/Handlers/Rounds/Balanced.antt =====
-- The shares of the members of the next round.
use snowball_dag_experiment.Base.{
  ◌+◌, ◌≡◌, refl, sym, ap, ◌∙◌, inl, inr, true, false, none, some, List, [], ◌∷◌, ◌++◌, pos, ◌+ℤ◌,
  arith, Option-cases,
}
use mathlib.Core.List.{append_assoc, append-nil}
use snowball_dag_experiment.Base.Assoc.{int_key, find}
use snowball_dag_experiment.Consensus.{MinerInfo, ConsensusGroup, add_in_history}
use snowball_dag_experiment.Consensus.Shares.{total_shares}
use snowball_dag_experiment.Consensus.Joins.{IsBalanced}
use snowball_dag_experiment.Handlers.{Node}
use snowball_dag_experiment.Handlers.Rounds.{take_miners, next_round, advance_round}

-- The members that `take_miners` leaves, and their number of blocks.
take_miners_lem :
    (g : ConsensusGroup) (l : List MinerInfo)
    → ((take_miners g l).miner_list ≡ g.miner_list ++ l)
      × ((take_miners g l).concurrency_block_numbers ≡ g.concurrency_block_numbers + total_shares l)
      × ((take_miners g l).round ≡ g.round)
      × ((take_miners g l).state ≡ g.state)
unfolding take_miners
take_miners_lem g [] = (sym (append-nil g.miner_list), omega arith, refl, refl)
take_miners_lem g (m ∷ l) =
    let g' : ConsensusGroup = record g {
      miner_list = g.miner_list ++ (m ∷ []);
      concurrency_block_numbers = g.concurrency_block_numbers + m.share_of_block;
    } in
    let (miners, count, round, state) = take_miners_lem g' l in
    (miners ∙ append_assoc g.miner_list (m ∷ []) l, omega arith, round, state)

-- The end of a round: the next round begins, not yet started, with the miners that joined it in
-- advance, and the number of blocks is the sum of their shares, whatever it was before.
pub advance_round-IsBalanced :
    (n : Node)
    → IsBalanced (advance_round n).group
      × ((advance_round n).group.round ≡ n.group.round +ℤ pos 1)
      × ((advance_round n).group.state ≡ false)
      × ((advance_round n).group.miner_list
          ≡ (elim (find (n.group.round +ℤ pos 1) n.group.future_info) [
            | none ↦ []
            | some info ↦ info.miner
          ]))
      × ((advance_round n).mining ≡ true)
unfolding advance_round next_round add_in_history
advance_round-IsBalanced n =
    elim (Option-cases (find (n.group.round +ℤ pos 1) n.group.future_info)) [
      | inl nobody ↦ rw (nobody, advance_round) (refl, refl, refl, refl, refl)
      | inr (info, joined) ↦
          let g = add_in_history n.group n.group.round n.group.miner_list in
          let (miners, count, round, state) = take_miners_lem (next_round g) info.miner in
          rw (joined, advance_round)
            (omega (arith, ap total_shares miners), round, state, miners, refl)
    ]

-- The end of a round changes no block and no waiting entry.
pub advance_round_keeps :
    (n : Node)
    → ((advance_round n).bc.store ≡ n.bc.store)
      × ((advance_round n).bc.waiting_for_phase_1_block ≡ n.bc.waiting_for_phase_1_block)
unfolding advance_round
advance_round_keeps n = elim (Option-cases (find (n.group.round +ℤ pos 1) n.group.future_info)) [
  | inl nobody ↦ rw (nobody, advance_round) (refl, refl)
  | inr (info, joined) ↦ rw (joined, advance_round) (refl, refl)
]
