-- ===== src/Consensus.antt =====
-- The class `Consensus_Group` of Snowball_Main/code/Consensus_Group.cpp: who takes part in a round, and
-- with how many blocks.
pub mod Shares
pub mod Joins
use snowball_dag_experiment.Base.{
  ℕ, zero, suc, ◌+◌, Bool, true, false, not, ◌&&◌, Option, none, some, List, [], ◌∷◌, ◌++◌, ℤ, pos,
  Text, text_eq, ltb_ℤ, eqb_ℤ, ◌==◌, if◌then◌else◌,
}
use snowball_dag_experiment.Base.Assoc.{int_key, find, has, insert, assign}
use snowball_dag_experiment.Base.Outcome.{Outcome, done, ◌>>=◌, deref}

-- A share is below 2^31, the bound of the source's `int`.
pub record MinerInfo : Type 0 where
  pub ip : Text
  pub port : ℕ
  pub share_of_block : ℕ

-- The time, which is only printed, is left out.
pub record RoundInfo : Type 0 where
  pub round : ℤ
  pub leader_info : Text × ℕ
  pub miner : List MinerInfo

-- The map `consensus_time`, which is only printed, is left out.
pub record ConsensusGroup : Type 0 where
  pub state : Bool
  pub concurrency_block_numbers : ℕ
  pub round : ℤ
  pub leader_info : Text × ℕ
  pub miner_list : List MinerInfo
  pub history_info : List (ℤ × RoundInfo)
  pub future_info : List (ℤ × RoundInfo)

abbrev pub initial : ConsensusGroup
initial = record {
  state = false;
  concurrency_block_numbers = 0;
  round = pos 1;
  leader_info = ([], 0);
  miner_list = [];
  history_info = [];
  future_info = [];
}

unfoldable pub is_miner : Text → ℕ → MinerInfo → Bool
is_miner ip port m = text_eq m.ip ip && (m.port == port)

unfoldable pub is_member : List MinerInfo → Text → ℕ → Bool
is_member [] ip port = false
is_member (m ∷ l) ip port = if is_miner ip port m then true else is_member l ip port

-- `share_of_block++` for the first entry of the miner.
unfoldable pub share_up : List MinerInfo → Text → ℕ → List MinerInfo
share_up [] ip port = []
share_up (m ∷ l) ip port =
    if is_miner ip port m
    then record m { share_of_block = m.share_of_block + 1 } ∷ l
    else m ∷ share_up l ip port

unfoldable pub add_member : List MinerInfo → Text → ℕ → List MinerInfo
add_member l ip port =
    if is_member l ip port
    then share_up l ip port
    else l ++ (record { ip = ip; port = port; share_of_block = 1 } ∷ [])

unfoldable pub is_in_consensus_group : ConsensusGroup → Text → ℕ → Bool
is_in_consensus_group g ip port = is_member g.miner_list ip port

unfoldable pub is_in_future_consensus_round : ConsensusGroup → Text → ℕ → ℤ → Outcome Bool
is_in_future_consensus_round g ip port round = do
  tmp ← deref (find round g.future_info)
  done (is_member tmp.miner ip port)

unfoldable pub legitimate_certificate : Bool → Bool
legitimate_certificate certificate = if certificate then true else false

unfoldable pub start_consensus_of_blocks : ConsensusGroup → ConsensusGroup
start_consensus_of_blocks g = record g { state = true }

-- The text is "127.0.0.1".
unfoldable pub choose_leader : ConsensusGroup → ConsensusGroup
choose_leader g = record g { leader_info = (49 ∷ 50 ∷ 55 ∷ 46 ∷ 48 ∷ 46 ∷ 48 ∷ 46 ∷ 49 ∷ [], 8001) }

unfoldable pub add_in_history : ConsensusGroup → ℤ → List MinerInfo → ConsensusGroup
add_in_history g round miners = record g {
  history_info =
      insert round (record { round = round; leader_info = g.leader_info; miner = miners })
        g.history_info;
}

-- The first half of `add_in_future`: an entry for a round without one. Its `leader_info` is empty.
unfoldable pub open_round : List (ℤ × RoundInfo) → ℤ → Text → ℕ → List (ℤ × RoundInfo)
open_round m round ip port = elim (find round m) [
  | some info ↦ m
  | none ↦
      insert round
        (record {
          round = round;
          leader_info = ([], 0);
          miner = record { ip = ip; port = port; share_of_block = 1 } ∷ [];
        })
        m
]

unfoldable pub add_in_future : ConsensusGroup → ℤ → Text → ℕ → Outcome ConsensusGroup
unfolding open_round
add_in_future g round ip port =
    let m = open_round g.future_info round ip port in
    do
      info ← deref (find round m)
      done (record g {
        future_info = assign round (record info { miner = add_member info.miner ip port }) m;
      })

unfoldable pub join_consensus_group : ConsensusGroup → Text → ℕ → Bool → ℤ → Outcome ConsensusGroup
unfolding add_in_future
join_consensus_group g ip port certificate round_now =
    let later = add_in_future g round_now ip port in
    if eqb_ℤ round_now g.round && g.state
    then done g
    else if not (legitimate_certificate certificate)
    then done g
    else if ltb_ℤ g.round round_now
    then later
    else done (record g {
      miner_list = add_member g.miner_list ip port;
      concurrency_block_numbers = g.concurrency_block_numbers + 1;
    })
