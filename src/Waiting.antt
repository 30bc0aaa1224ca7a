-- ===== src/Waiting.antt =====
-- The maps of the class `Blockchain` in Snowball_Main/code/Blockchain.cpp that hold what a node waits
-- for: votes on blocks, pre-blocks to request, and full blocks. The clock is an argument, as in the source;
-- the periods of configuration.cpp are arguments too.
pub mod Full
pub mod Timers
use snowball_dag_experiment.Base.{
  ℕ, zero, suc, ◌+◌, ◌-◌, ◌%◌, ◌^◌, Bool, true, false, not, ◌&&◌, Option, none, some, List, [], ◌∷◌,
  ℤ, pos, negsuc, Text, ltb, if◌then◌else◌,
}
use snowball_dag_experiment.Base.Assoc.{nat_key, int_key, find, has, insert, erase, assign}
use snowball_dag_experiment.Base.Outcome.{Outcome, done, ◌>>=◌, deref}
use snowball_dag_experiment.HashTree.{find_block_by_hash}
use snowball_dag_experiment.Blocks.{NetworkBlock, ConsensusPart, SenderInfo}
use snowball_dag_experiment.Blockchain.{Blockchain, have_full_block}

-- `time_of_now - t` for `unsigned long`.
unfoldable pub since : ℕ → ℕ → ℕ
since time_of_now t = (time_of_now + 2 ^ 64 - t) % 2 ^ 64

-- The returned Boolean goes with the new state.
unfoldable pub still_waiting_for_full_block : Blockchain → ℕ → ℕ → Bool × Blockchain
still_waiting_for_full_block bc hash time_of_now =
    if has hash bc.waiting_for_full_blocks then (false, bc) else (
      true,
      record bc { waiting_for_full_blocks = insert hash time_of_now bc.waiting_for_full_blocks },
    )

-- `to_remove`, in the order of the map.
unfoldable pub overdue : ℕ → ℕ → List (ℕ × ℕ) → List ℕ
overdue max_wait time_of_now [] = []
overdue max_wait time_of_now ((h, t) ∷ m) =
    let rest = overdue max_wait time_of_now m in
    if ltb max_wait (since time_of_now t) then h ∷ rest else rest

-- The second loop: each listed key is erased, if it is there.
unfoldable pub erase_all {ℓ} : {V : Type ℓ} → List ℕ → List (ℕ × V) → List (ℕ × V)
erase_all [] m = m
erase_all (h ∷ l) m = erase_all l (erase h m)

unfoldable pub remove_waiting_blocks : ℕ → Blockchain → ℕ → Blockchain
remove_waiting_blocks max_wait bc time_of_now = record bc {
  waiting_for_full_blocks =
      erase_all (overdue max_wait time_of_now bc.waiting_for_full_blocks)
        bc.waiting_for_full_blocks;
}

unfoldable pub add_mined_block : Blockchain → Blockchain
add_mined_block bc = record bc { mined_blocks = (bc.mined_blocks + 1) % 2 ^ 64 }

unfoldable pub add_waiting_for_phase_1_blocks : Blockchain → ℕ → NetworkBlock → Bool × Blockchain
add_waiting_for_phase_1_blocks bc hash nb =
    if not (has hash bc.blocks_in_phase_validate) && not (have_full_block bc nb.chain_id hash)
    then (
      true,
      record bc {
        blocks_in_phase_validate = insert hash (nb.chain_id, 0) bc.blocks_in_phase_validate;
        waiting_for_phase_1_block = insert hash nb bc.waiting_for_phase_1_block;
      },
    )
    else (false, bc)

unfoldable pub add_pre_blocks : Blockchain → Text → ℕ → ConsensusPart → Bool × Blockchain
add_pre_blocks bc ip port cp = if has cp.order_in_round bc.pre_blocks then (false, bc) else (
  true,
  record bc {
    pre_blocks = insert cp.order_in_round (record { ip = ip; port = port }, cp) bc.pre_blocks;
    blocks_in_phase_request = insert cp.order_in_round 0 bc.blocks_in_phase_request;
  },
)

unfoldable pub set_block_requested_in_phase_request : Blockchain → ℤ → Blockchain
set_block_requested_in_phase_request bc order_in_round = record bc {
  pre_blocks = erase order_in_round bc.pre_blocks;
  blocks_in_phase_request = erase order_in_round bc.blocks_in_phase_request;
}

-- One more in a counter of a round.
unfoldable pub count_round : ℤ → List (ℤ × ℕ) → List (ℤ × ℕ)
count_round round m = elim (find round m) [
  | none ↦ insert round 1 m
  | some n ↦ assign round ((n + 1) % 2 ^ 64) m
]

unfoldable pub add_total_ask_for_verify_blocks : Blockchain → ℤ → Blockchain
unfolding count_round
add_total_ask_for_verify_blocks bc round = record bc {
  total_ask_for_verify_blocks = count_round round bc.total_ask_for_verify_blocks;
}

unfoldable pub add_total_verify_blocks : Blockchain → ℤ → Blockchain
unfolding count_round
add_total_verify_blocks bc round = record bc {
  total_verify_blocks = count_round round bc.total_verify_blocks;
}

-- The conversion of an `unsigned long` to an `int` of 32 bits.
unfoldable pub to_int : ℕ → ℤ
to_int n = let r = n % 2 ^ 32 in if ltb r (2 ^ 31) then pos r else negsuc (2 ^ 32 - 1 - r)

unfoldable pub get_numbers_of_concurrency_blocks_in_a_round : Blockchain → ℤ → Outcome ℤ
unfolding to_int
get_numbers_of_concurrency_blocks_in_a_round bc round = do
  asked ← deref (find round bc.total_ask_for_verify_blocks)
  own ← deref (find round bc.total_verify_blocks)
  done (to_int ((asked + own) % 2 ^ 64))

-- The loop of `get_waiting_for_request_phase_blocks`: what is pushed, and the map with the new times.
unfoldable pub request_loop :
    ℕ
    → ℕ
    → List (ℤ × (SenderInfo × ConsensusPart))
    → List (ℤ × ℕ)
    → Outcome (List (SenderInfo × ConsensusPart) × List (ℤ × ℕ))
request_loop period time_of_now pre [] = done ([], [])
request_loop period time_of_now pre ((r, t) ∷ m) =
    let rest = request_loop period time_of_now pre m in
    if ltb period (since time_of_now t)
    then (do p ← deref (find r pre); x ← rest; done (p ∷ x.0, (r, time_of_now) ∷ x.1))
    else (do x ← rest; done (x.0, (r, t) ∷ x.1))

unfoldable pub get_waiting_for_request_phase_blocks :
    ℕ → Blockchain → ℕ → Outcome (List (SenderInfo × ConsensusPart) × Blockchain)
unfolding request_loop
get_waiting_for_request_phase_blocks period bc time_of_now = do
  x ← request_loop period time_of_now bc.pre_blocks bc.blocks_in_phase_request
  done (x.0, record bc { blocks_in_phase_request = x.1 })

-- What the loop of `get_waiting_for_validate_phase_blocks` leaves.
pub record Asked : Type 0 where
  pub wvb : List (ℕ × NetworkBlock)
  pub to_remove : List ℕ
  pub entries : List (ℕ × (ℕ × ℕ))

-- One entry that is due, its block found or not, before the entries `x`.
unfoldable pub ask_one : Blockchain → ℕ → ℕ → ℕ → Option ℕ → Asked → Outcome Asked
ask_one bc time_of_now h c none x = done (record x { entries = (h, (c, time_of_now)) ∷ x.entries })
ask_one bc time_of_now h c (some bz) x =
    if bc.store.is_full_block bz
    then done
        (record x { to_remove = h ∷ x.to_remove; entries = (h, (c, time_of_now)) ∷ x.entries })
    else do
      nb ← deref (find h bc.waiting_for_phase_1_block)
      done (record x { wvb = (h, nb) ∷ x.wvb; entries = (h, (c, time_of_now)) ∷ x.entries })

unfoldable pub validate_loop : ℕ → Blockchain → ℕ → List (ℕ × (ℕ × ℕ)) → Outcome Asked
unfolding ask_one
validate_loop period bc time_of_now [] = done (record { wvb = []; to_remove = []; entries = [] })
validate_loop period bc time_of_now ((h, (c, t)) ∷ m) =
    let rest = validate_loop period bc time_of_now m in
    let bz = find_block_by_hash bc.store.hash (bc.chains c) h in
    if ltb period (since time_of_now t)
    then (do x ← rest; ask_one bc time_of_now h c bz x)
    else (do x ← rest; done (record x { entries = (h, (c, t)) ∷ x.entries }))

unfoldable pub get_waiting_for_validate_phase_blocks :
    ℕ → Blockchain → ℕ → Outcome (List (ℕ × NetworkBlock) × Blockchain)
unfolding validate_loop erase_all
get_waiting_for_validate_phase_blocks period bc time_of_now = do
  x ← validate_loop period bc time_of_now bc.blocks_in_phase_validate
  done (x.wvb, record bc { blocks_in_phase_validate = erase_all x.to_remove x.entries })
