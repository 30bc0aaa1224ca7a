-- ===== src/Transactions.antt =====
-- What Snowball_Main/code/transactions.cpp verifies: a signed transaction, and the list of a pre-block. The
-- signature check of OpenSSL is a parameter.
pub mod Checks
pub mod PoolFiles
pub mod Validated
use snowball_dag_experiment.Base.{
  ℕ, zero, suc, ◌+◌, ◌-◌, ◌*◌, Bool, true, false, not, ◌&&◌, ◌||◌, Option, none, some, List, [],
  ◌∷◌, ◌++◌, ℤ, pos, ◌-ℤ◌, eqb_ℤ, Text, is_full, ◌==◌, ltb, if◌then◌else◌, length, take, drop,
}
use snowball_dag_experiment.Base.Outcome.{Outcome, done, no_fuel, ◌>>=◌}
use snowball_dag_experiment.Split.{find_text, split}
use snowball_dag_experiment.Blocks.{ConsensusPart}

-- The four parts of a transaction between ":". `size_in_dwords` is ADDRESS_SIZE_IN_DWORDS.
unfoldable pub verify_parts : (Text → Text → Bool) → ℕ → List Text → Bool
verify_parts verify_message size_in_dwords (ad1 ∷ ad2 ∷ amount ∷ signature ∷ []) =
    if not (length ad1 == 8 * size_in_dwords)
      || not (length ad2 == 8 * size_in_dwords)
      || not (is_full amount)
    then false
    else verify_message (ad1 ++ (58 ∷ (ad2 ++ (58 ∷ amount)))) signature
verify_parts verify_message size_in_dwords s = false

unfoldable pub verify_transaction : (Text → Text → Bool) → ℕ → Text → Bool
unfolding verify_parts
verify_transaction verify_message size_in_dwords tx =
    verify_parts verify_message size_in_dwords (split tx (58 ∷ []))

abbrev pub is_transaction_in_pool : Text → Bool
is_transaction_in_pool l = true

-- The loop over the ends of lines after `place`, the `pos` of the source; `none` is `return false`.
unfoldable pub count_loop : ℕ → Text → ℕ → ℕ → ℕ → Outcome (Option ℕ)
unfolding find_text
count_loop zero list place prevpos tot_transaction = no_fuel
count_loop (suc fuel) list place prevpos tot_transaction =
    let p = place + 1 + find_text (10 ∷ []) (drop (place + 1) list) in
    let l = take (p - prevpos) (drop prevpos list) in
    let rest = count_loop fuel list p (p + 1) (tot_transaction + 1) in
    if ltb p (length list)
    then (if is_transaction_in_pool l then rest else done none)
    else done (some tot_transaction)

-- Each round but the last moves `place` on.
unfoldable pub verify_pre_block : ConsensusPart → Outcome Bool
unfolding count_loop
verify_pre_block cp = do
  counted ← count_loop (suc (length cp.list)) cp.list 0 0 0
  done (elim counted [ none ↦ false | some tot ↦ eqb_ℤ (pos tot) (cp.tx_second -ℤ cp.tx_first) ])
