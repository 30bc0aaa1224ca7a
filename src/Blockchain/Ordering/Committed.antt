-- ===== src/Blockchain/Ordering/Committed.antt =====
-- Which headers `total_ordering` commits.
use snowball_dag_experiment.Base.{ℕ, ◌<◌, ◌≡◌, ◌⊎◌, Bool, true, ℤ, ltb_ℤ}
use snowball_dag_experiment.Blocks.{NetworkBlock}
use snowball_dag_experiment.Blockchain.{Blockchain}

-- When a header is committed.
module _ (round_now : ℤ) (now : ℕ) (full : Bool) where
  -- The header after the call has at most other times, and a new commit time only where the block is
  -- full, was not committed, is of an earlier round and was mined before.
  abbrev pub Committed : NetworkBlock → NetworkBlock → Type 0
  Committed nb nb' =
      (nb' ≡ record nb { time_partial = nb'.time_partial; time_commited = nb'.time_commited })
      × ((nb'.time_commited ≡ nb.time_commited)
          ⊎ ((full ≡ true)
              × (nb.time_commited ≡ 0)
              × (ltb_ℤ nb.consensus_part.round round_now ≡ true)
              × (nb.time_mined < now)
              × (nb'.time_commited ≡ now)))
