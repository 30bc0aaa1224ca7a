-- ===== src/Waiting/Timers.antt =====
-- What the timers of MyServer.cpp take from the class `Blockchain` of Snowball_Main/code/Blockchain.cpp: the side
-- chains and the blocks to ask for, and the end of a vote.
use snowball_dag_experiment.Base.{
  All, Option-cases, not, ℕ, ◌+◌, ◌%◌, ◌^◌, ◌≤◌, ◌<◌, ◌≡◌, inl, inr, Bool, true, false, not, ◌&&◌,
  Option, none, some, List, [], ◌∷◌, ltb, leb, length, if◌then◌else◌, arith, Bool-cases,
}
use snowball_dag_experiment.Base.Assoc.{nat_key, erase}
use snowball_dag_experiment.Base.Outcome.{Outcome, done, ◌>>=◌, deref}
use snowball_dag_experiment.HashTree.{root_block, find_block_by_hash}
use snowball_dag_experiment.SideChains.{SideChain}
use snowball_dag_experiment.Blocks.{update}
use snowball_dag_experiment.Blockchain.{Blockchain, find_block_by_hash_and_chain_id}
use snowball_dag_experiment.Waiting.{since, erase_all}
use snowball_dag_experiment.Waiting.Full.{set_full}

-- One side chain that is due, before what the loop leaves of the others: the hashes to ask for, and
-- the chains that stay.
unfoldable pub ask_chain :
    ℕ → Blockchain → ℕ → SideChain → List ℕ × List SideChain → Outcome (List ℕ × List SideChain)
ask_chain no_asks_before_removing bc time_of_now t x =
    let asks = (t.no_asks + 1) % 2 ^ 32 in
    if ltb no_asks_before_removing asks then done x else do
      b ← deref (root_block t.b)
      done (bc.store.hash b ∷ x.0, record t { last_asked = time_of_now; no_asks = asks } ∷ x.1)

-- `remove_one_chain` takes out the chain at which the loop is.
unfoldable pub incomplete_loop :
    ℕ → ℕ → Blockchain → ℕ → List SideChain → Outcome (List ℕ × List SideChain)
unfolding ask_chain
incomplete_loop no_asks_before_removing period bc time_of_now [] = done ([], [])
incomplete_loop no_asks_before_removing period bc time_of_now (t ∷ l) = do
  x ← incomplete_loop no_asks_before_removing period bc time_of_now l
  (if ltb period (since time_of_now t.last_asked)
      then ask_chain no_asks_before_removing bc time_of_now t x
      else done (x.0, t ∷ x.1))

unfoldable pub get_incomplete_chain_hashes :
    ℕ → ℕ → Blockchain → ℕ → ℕ → Outcome (List ℕ × Blockchain)
unfolding incomplete_loop
get_incomplete_chain_hashes no_asks_before_removing period bc chain_id time_of_now = do
  x ← incomplete_loop no_asks_before_removing period bc time_of_now (bc.inchains chain_id)
  done (x.0, record bc { inchains = update bc.inchains chain_id x.1 })

-- What the loop of `get_non_full_blocks` leaves.
pub record NonFull : Type 0 where
  pub nfb : List (ℕ × ℕ)
  pub to_remove : List ℕ
  pub entries : List (ℕ × (ℕ × ℕ))

-- Whether the block is there with this `is_full_block`.
unfoldable pub is_there : Blockchain → Option ℕ → Bool → Bool
is_there bc none full = false
is_there bc (some bz) full =
    if full then bc.store.is_full_block bz else not (bc.store.is_full_block bz)

-- `n` is the size of `nfb`; the loop ends when it reaches `max`.
unfoldable pub non_full_loop : ℕ → ℕ → Blockchain → ℕ → ℕ → List (ℕ × (ℕ × ℕ)) → NonFull
unfolding is_there
non_full_loop max period bc time_of_now n [] = record { nfb = []; to_remove = []; entries = [] }
non_full_loop max period bc time_of_now n ((h, (c, t)) ∷ m) =
    let bz = find_block_by_hash bc.store.hash (bc.chains c) h in
    let due = ltb period (since time_of_now t) in
    let n' = if due && is_there bc bz false then n + 1 else n in
    let rest = non_full_loop max period bc time_of_now n' m in
    let left =
      if due && leb max n' then record { nfb = []; to_remove = []; entries = m } else rest in
    if due
    then record {
      nfb = if is_there bc bz false then (h, c) ∷ left.nfb else left.nfb;
      to_remove = if is_there bc bz true then h ∷ left.to_remove else left.to_remove;
      entries = (h, (c, time_of_now)) ∷ left.entries;
    }
    else record left { entries = (h, (c, t)) ∷ left.entries }

unfoldable pub get_non_full_blocks : ℕ → ℕ → Blockchain → ℕ → List (ℕ × ℕ) × Blockchain
unfolding non_full_loop
get_non_full_blocks max period bc time_of_now =
    let x = non_full_loop max period bc time_of_now 0 bc.received_non_full_blocks in
    (x.nfb, record bc { received_non_full_blocks = erase_all x.to_remove x.entries })

-- The search has `chain_id` for the hash and the hash, as a `uint32_t`, for the chain, as in the source.
unfoldable pub set_block_validated_in_phase_validate : Blockchain → ℕ → ℕ → Blockchain
set_block_validated_in_phase_validate bc chain_id hash =
    let bc1 = record bc {
      blocks_in_phase_validate = erase hash bc.blocks_in_phase_validate;
      waiting_for_phase_1_block = erase hash bc.waiting_for_phase_1_block;
    } in
    elim (find_block_by_hash_and_chain_id bc chain_id (hash % 2 ^ 32)) [
      | none ↦ bc1
      | some bz ↦ record bc1 { store = set_full bc.store bz }
    ]

-- The loop asks for no more blocks than are left to the bound, where that is not reached.
non_full_loop_bounded :
    (max period : ℕ) (bc : Blockchain) (now n : ℕ) (m : List (ℕ × (ℕ × ℕ)))
    → n < max
    → n + length (non_full_loop max period bc now n m).nfb ≤ max
unfolding non_full_loop
non_full_loop_bounded max period bc now n [] h = omega (arith)
non_full_loop_bounded max period bc now n ((k, (c, t)) ∷ m) h =
    let bz = find_block_by_hash bc.store.hash (bc.chains c) k in
    elim (Bool-cases (ltb period (since now t))) [
      | inl q ↦ elim (Bool-cases (is_there bc bz false)) [
        | inl w ↦ elim (Bool-cases (leb max (n + 1))) [
          | inl z ↦ rw (q, w, z) (omega arith)
          | inr z ↦
              let below : n + 1 < max = ground arith in
              rw (q, w, z) (omega (arith, non_full_loop_bounded max period bc now (n + 1) m below))
        ]
        | inr w ↦
            let z : leb max n ≡ false = ground arith in
            rw (q, w, z) (non_full_loop_bounded max period bc now n m h)
      ]
      | inr q ↦ rw q (non_full_loop_bounded max period bc now n m h)
    ]

-- The block is in the main tree of the chain, and not full.
unfoldable pub AskedFor : Blockchain → ℕ → ℕ → Type 0
AskedFor bc hash chain_id =
    (b : ℕ) × (find_block_by_hash bc.store.hash (bc.chains chain_id) hash ≡ some b)
    × (bc.store.is_full_block b ≡ false)

there-AskedFor :
    (bc : Blockchain) (hash chain_id : ℕ)
    → is_there bc (find_block_by_hash bc.store.hash (bc.chains chain_id) hash) false ≡ true
    → AskedFor bc hash chain_id
unfolding is_there AskedFor
there-AskedFor bc hash chain_id e =
    elim (Option-cases (find_block_by_hash bc.store.hash (bc.chains chain_id) hash)) [
      | inl nowhere ↦ absurd (cc (rw nowhere at e))
      | inr (b, at_b) ↦
          let not_full : not (bc.store.is_full_block b) ≡ true = rw at_b at e in
          (b, at_b, ground arith)
    ]

non_full_loop-AskedFor :
    (max period : ℕ) (bc : Blockchain) (now n : ℕ) (m : List (ℕ × (ℕ × ℕ)))
    → All (λ x. AskedFor bc x.0 x.1) (non_full_loop max period bc now n m).nfb
unfolding non_full_loop
non_full_loop-AskedFor max period bc now n [] = tt
non_full_loop-AskedFor max period bc now n ((k, (c, t)) ∷ m) =
    let bz = find_block_by_hash bc.store.hash (bc.chains c) k in
    elim (Bool-cases (ltb period (since now t))) [
      | inl q ↦ elim (Bool-cases (is_there bc bz false)) [
        | inl w ↦ elim (Bool-cases (leb max (n + 1))) [
          | inl z ↦ rw (q, w, z) (there-AskedFor bc k c w, tt)
          | inr z ↦
              rw (q, w, z)
                (there-AskedFor bc k c w, non_full_loop-AskedFor max period bc now (n + 1) m)
        ]
        | inr w ↦ elim (Bool-cases (leb max n)) [
          | inl z ↦ rw (q, w, z) tt
          | inr z ↦ rw (q, w, z) (non_full_loop-AskedFor max period bc now n m)
        ]
      ]
      | inr q ↦ rw q (non_full_loop-AskedFor max period bc now n m)
    ]

-- One call of `get_non_full_blocks` gives at most `MAX_ASK_NON_FULL_IN_ONE_GO` blocks, where that is not
-- 0, and each is in the main tree of its chain and not full.
pub get_non_full_blocks_bounded :
    (max period : ℕ) (bc : Blockchain) (now : ℕ)
    → 0 < max
    → (length (get_non_full_blocks max period bc now).0 ≤ max)
      × All (λ x. AskedFor bc x.0 x.1) (get_non_full_blocks max period bc now).0
unfolding get_non_full_blocks
get_non_full_blocks_bounded max period bc now h = (
  omega (arith, non_full_loop_bounded max period bc now 0 bc.received_non_full_blocks h),
  non_full_loop-AskedFor max period bc now 0 bc.received_non_full_blocks,
)
