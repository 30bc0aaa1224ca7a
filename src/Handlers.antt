-- ===== src/Handlers.antt =====
-- What `process_buffer` in Snowball_Main/code/process_buffer.cpp does with a message that was parsed.
-- What the server is told to do is a list of actions, in their order; the clock is an argument.
pub mod Replies
pub mod Votes
pub mod Rounds
pub mod FullBlocks
pub mod Pings
pub mod Joins
pub mod Verifying
pub mod Dispatch
pub mod Trees
pub mod Rounding
pub mod Kept
pub mod Session
use snowball_dag_experiment.Base.{
  ℕ, zero, suc, ◌+◌, Bool, true, false, Option, none, some, List, [], ◌∷◌, ◌++◌, ℤ, Text, ◌<◌, ◌≡◌,
  refl, sym, ◌∙◌, inl, inr, ltb, ltb→lt, lt→ltb, Bool-cases, if◌then◌else◌,
}
use snowball_dag_experiment.Base.Outcome.{Outcome, done, fault}
use snowball_dag_experiment.Numbers.{to_string}
use snowball_dag_experiment.Messages.{Settings}
use snowball_dag_experiment.Blocks.{SenderInfo}
use snowball_dag_experiment.Blockchain.{Blockchain}
use snowball_dag_experiment.Consensus.{ConsensusGroup}
use snowball_dag_experiment.TransactionPool.{TransactionPool}

-- What the server of the node is called for, and the interruption of the mining thread.
pub data Action : Type 0 where
  write_to_one_peer : Text → ℕ → Text → Action
  write_to_all_peers : Text → Action
  add_indirect_peer : Text → Action
  add_bytes_received : ℕ → ℕ → Action
  additional_verified_transaction : ℕ → Action
  interrupt_miner : Action

-- The settings that only the handlers read.
pub record Limits : Type 0 where
  pub max_ask_blocks : ℕ
  pub concurrency_blocks : ℕ

-- `mining` is the flag that the miner waits for, `pings` the map of the server.
pub record Node : Type 0 where
  pub bc : Blockchain
  pub group : ConsensusGroup
  pub pool : TransactionPool
  pub mining : Bool
  pub pings : List (Text × ℤ)
  pub actions : List Action

-- A use of the entries `i` of the arrays of the block chain. The constructor writes the first `chains`
-- entries; what another one holds, and whether there is one, is not defined, which is a fault here.
unfoldable pub within {ℓ} : {A : Type ℓ} → ℕ → ℕ → Outcome A → Outcome A
within chains i m = if ltb i chains then m else fault

pub within_lem {ℓ} :
    {A : Type ℓ} (chains i : ℕ) → i < chains → {m : Outcome A} → within chains i m ≡ m
unfolding within
within_lem chains i h = let q : ltb i chains ≡ true = lt→ltb i chains h in rw q refl

pub done-within {ℓ} :
    {A : Type ℓ} (chains i : ℕ) (m : Outcome A) {a : A}
    → within chains i m ≡ done a
    → (i < chains) × (m ≡ done a)
unfolding within
done-within chains i m e = elim (Bool-cases (ltb i chains)) [
  | inl q ↦ (ltb→lt i chains q, rw q at e)
  | inr q ↦ absurd (cc (rw q at e))
]

unfoldable pub act : Node → List Action → Node
act n l = record n { actions = n.actions ++ l }

-- `sender_ip + ":" + to_string(sender_port)`
unfoldable pub address : SenderInfo → Text
address s = s.ip ++ (58 ∷ to_string s.port)
