-- ===== src/Consensus/Joins.antt =====
-- What a join of Consensus_Group.cpp changes, for the current round and for future ones.
use snowball_dag_experiment.Base.{
  ℕ, ◌+◌, ◌≡◌, refl, ap, ◌∙◌, inl, inr, Bool, true, false, not, ◌&&◌, Option, none, some, List, ℤ,
  Text, text_eq, ltb_ℤ, eqb_ℤ, ◌==◌, if◌then◌else◌, arith, Bool-cases, Option-cases,
}
use snowball_dag_experiment.Base.Assoc.{int_key, find, assign}
use snowball_dag_experiment.Base.Outcome.{done}
use snowball_dag_experiment.Consensus.{
  RoundInfo, ConsensusGroup, is_miner, add_member, legitimate_certificate, open_round,
  add_in_future, join_consensus_group,
}
use snowball_dag_experiment.Consensus.Shares.{
  share_of, total_shares, total_shares-add_member, share_of-add_member, find_assigned,
  find_inserted, find_not_assigned, find_not_inserted,
}

-- A group whose shares add up to its number of blocks.
abbrev pub IsBalanced : ConsensusGroup → Type 0
IsBalanced g = total_shares g.miner_list ≡ g.concurrency_block_numbers

-- The entries of a round after `open_round`: the old one, or one with a single share.
open_round_lem :
    (m : List (ℤ × RoundInfo)) (round : ℤ) (ip : Text) (port : ℕ)
    → ((info : RoundInfo) × (find round (open_round m round ip port) ≡ some info)
        × (total_shares info.miner
            ≡ (elim (find round m) [ none ↦ 1 | some old ↦ total_shares old.miner ])))
      × ((other : ℤ)
          → eqb_ℤ round other ≡ false
          → find other (open_round m round ip port) ≡ find other m)
unfolding open_round
open_round_lem m round ip port = elim (Option-cases (find round m)) [
  | inl e ↦
      rw (e, open_round)
        ((_, find_inserted round _ m e, refl), λ o apart. find_not_inserted round _ m o apart)
  | inr (old, e) ↦ rw (e, open_round) ((old, e, refl), λ o apart. refl)
]

counted_again :
    (o : Option RoundInfo)
    → (elim o [ none ↦ 1 | some old ↦ total_shares old.miner ]) + 1
      ≡ (elim o [ none ↦ 2 | some old ↦ total_shares old.miner + 1 ])
counted_again none = refl
counted_again (some old) = refl

module _ (g : ConsensusGroup) (ip : Text) (port : ℕ) where
  -- `add_in_future` returns. A round that had an entry has one share more; one that had none has two
  -- shares, for this one join. The entries of the other rounds, the members and the number of blocks
  -- of the current round stay as they were.
  pub add_in_future_lem :
      (round : ℤ)
      → (g' : ConsensusGroup) × (info : RoundInfo) × (add_in_future g round ip port ≡ done g')
        × (find round g'.future_info ≡ some info)
        × (total_shares info.miner ≡ (elim (find round g.future_info) [
          | none ↦ 2
          | some old ↦ total_shares old.miner + 1
        ]))
        × ((other : ℤ)
            → eqb_ℤ round other ≡ false
            → find other g'.future_info ≡ find other g.future_info)
        × (g'.miner_list ≡ g.miner_list)
        × (g'.concurrency_block_numbers ≡ g.concurrency_block_numbers)
  unfolding add_in_future
  add_in_future_lem round =
      let m = open_round g.future_info round ip port in
      let ((info, at, shares), others) = open_round_lem g.future_info round ip port in
      let new = record info { miner = add_member info.miner ip port } in
      (
        record g { future_info = assign round new m },
        new,
        rw at refl,
        find_assigned round new m info at,
        total_shares-add_member info.miner ip port
            ∙ ap (λ n. n + 1) shares
            ∙ counted_again (find round g.future_info),
        (λ o apart. find_not_assigned round new m o apart ∙ others o apart),
        refl,
        refl,
      )

  -- A qualified join for the current round, or for an earlier one, that comes before the consensus of
  -- its own round has started gives the miner one share more and counts one block more; the shares
  -- of every other address, and the entries of future rounds, stay as they were.
  pub join_consensus_group_adds :
      (round_now : ℤ)
      → (eqb_ℤ round_now g.round && g.state) ≡ false
      → ltb_ℤ g.round round_now ≡ false
      → (g' : ConsensusGroup) × (join_consensus_group g ip port true round_now ≡ done g')
        × ((ip' : Text) (port' : ℕ)
            → share_of g'.miner_list ip' port'
              ≡ share_of g.miner_list ip' port'
                + (if text_eq ip ip' && (port == port') then 1 else 0))
        × (g'.concurrency_block_numbers ≡ g.concurrency_block_numbers + 1)
        × (g'.future_info ≡ g.future_info)
  unfolding join_consensus_group legitimate_certificate is_miner
  join_consensus_group_adds round_now not_started now = (
    record g {
      miner_list = add_member g.miner_list ip port;
      concurrency_block_numbers = g.concurrency_block_numbers + 1;
    },
    rw (not_started, now) refl,
    λ ip' port'. omega (arith, share_of-add_member g.miner_list ip ip' port port'),
    refl,
    refl,
  )

  -- `join_consensus_group` returns for all arguments, and the shares still add up to the number of
  -- blocks afterwards if they did before.
  pub join_consensus_group-IsBalanced :
      (certificate : Bool) (round_now : ℤ)
      → IsBalanced g
      → (g' : ConsensusGroup) × (join_consensus_group g ip port certificate round_now ≡ done g')
        × IsBalanced g'
  unfolding join_consensus_group
  join_consensus_group-IsBalanced certificate round_now b =
      elim (Bool-cases (eqb_ℤ round_now g.round && g.state)) [
        | inl q ↦ (g, rw q refl, b)
        | inr q ↦ elim (Bool-cases (not (legitimate_certificate certificate))) [
          | inl c ↦ (g, rw (q, c) refl, b)
          | inr c ↦ elim (Bool-cases (ltb_ℤ g.round round_now)) [
            | inl later ↦
                let (g', _, e, _, _, _, same, count) = add_in_future_lem round_now in
                (g', rw (q, c, later) e, rw (same, count) b)
            | inr now ↦ (
              record g {
                miner_list = add_member g.miner_list ip port;
                concurrency_block_numbers = g.concurrency_block_numbers + 1;
              },
              rw (q, c, now) refl,
              omega (arith, total_shares-add_member g.miner_list ip port),
            )
          ]
        ]
      ]
