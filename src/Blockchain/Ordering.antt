-- ===== src/Blockchain/Ordering.antt =====
-- `total_ordering` of Snowball_Main/code/Blockchain.cpp: the blocks of rounds that are over are committed. The
-- clock is an argument; what is written to a file where blocks are stored is left out.
pub mod Commits
pub mod Marks
pub mod Walks
pub mod Committed
use snowball_dag_experiment.Base.{
  ℕ, zero, suc, ◌+◌, ◌-◌, ◌%◌, ◌^◌, Bool, ◌&&◌, Option, none, some, ◌==◌, ℤ, ltb, ltb_ℤ,
  if◌then◌else◌,
}
use snowball_dag_experiment.Base.Outcome.{Outcome, done, no_fuel, ◌>>=◌}
use snowball_dag_experiment.Blocks.{NetworkBlock, set_nb}
use snowball_dag_experiment.Blockchain.{Blockchain}

-- The tests of the two loops, for a block with a header; `full` is its `is_full_block`.
unfoldable pub partial_due : ℕ → Bool → NetworkBlock → Bool
partial_due time_of_now full nb = full && (0 == nb.time_partial) && ltb nb.time_mined time_of_now

unfoldable pub commit_due : ℤ → ℕ → Bool → NetworkBlock → Bool
commit_due round_now time_of_now full nb =
    full
    && (0 == nb.time_commited)
    && ltb_ℤ nb.consensus_part.round round_now
    && ltb nb.time_mined time_of_now

unfoldable pub mark_partial : ℕ → Blockchain → ℕ → Blockchain
unfolding partial_due
mark_partial time_of_now bc t = elim (bc.store.nb t) [
  | none ↦ bc
  | some nb ↦
      if partial_due time_of_now (bc.store.is_full_block t) nb
      then record bc {
        store = set_nb bc.store t (record nb { time_partial = time_of_now });
        partially_total = (bc.partially_total + 1) % 2 ^ 64;
        partially_latency = (bc.partially_latency + (time_of_now - nb.time_mined)) % 2 ^ 64;
      }
      else bc
]

unfoldable pub mark_commited : ℤ → ℕ → Blockchain → ℕ → Blockchain
unfolding commit_due
mark_commited round_now time_of_now bc t = elim (bc.store.nb t) [
  | none ↦ bc
  | some nb ↦
      if commit_due round_now time_of_now (bc.store.is_full_block t) nb
      then record bc {
        store = set_nb bc.store t (record nb { time_commited = time_of_now });
        commited_total = (bc.commited_total + 1) % 2 ^ 64;
        commited_latency = (bc.commited_latency + (time_of_now - nb.time_mined)) % 2 ^ 64;
      }
      else bc
]

-- "while (NULL != t)": up the parents from `t`, with the body `mark`.
unfoldable pub walk_up :
    (Blockchain → ℕ → Blockchain) → ℕ → Blockchain → Option ℕ → Outcome Blockchain
walk_up mark fuel bc none = done bc
walk_up mark zero bc (some t) = no_fuel
walk_up mark (suc fuel) bc (some t) =
    let bc1 = mark bc t in walk_up mark fuel bc1 (bc1.store.parent t)

-- The loop from the chain `i` on, with `n` chains left.
unfoldable pub walk_chains :
    (Blockchain → ℕ → Blockchain) → ℕ → Blockchain → ℕ → ℕ → Outcome Blockchain
unfolding walk_up
walk_chains mark fuel bc zero i = done bc
walk_chains mark fuel bc (suc n) i = do
  bc1 ← walk_up mark fuel bc (some (bc.deepest i))
  walk_chains mark fuel bc1 n (suc i)

unfoldable pub total_ordering : ℕ → ℕ → Blockchain → ℤ → ℕ → Outcome Blockchain
unfolding mark_partial mark_commited walk_chains
total_ordering fuel chains bc round_now time_of_now = do
  bc1 ← walk_chains (mark_partial time_of_now) fuel bc chains 0
  walk_chains (mark_commited round_now time_of_now) fuel bc1 chains 0
