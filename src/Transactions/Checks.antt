-- ===== src/Transactions/Checks.antt =====
-- What is accepted: the parts of a transaction, and the number of lines of a pre-block.
use snowball_dag_experiment.Base.{
  ℕ, ◌+◌, ◌*◌, ◌≡◌, ◌≢◌, refl, Bool, true, false, not, ◌||◌, List, [], ◌∷◌, Text, is_full, ◌==◌,
  if◌then◌else◌, length, arith,
}
use snowball_dag_experiment.Split.{split}
use snowball_dag_experiment.Split.Tokens.{join}
use snowball_dag_experiment.Transactions.{verify_parts, verify_transaction}

-- The ends of lines in a text.
abbrev pub newlines : Text → ℕ
newlines [] = 0
newlines (c ∷ t) = (if c == 10 then 1 else 0) + newlines t

is_full-nonempty : (t : Text) → is_full t ≡ true → t ≢ []
is_full-nonempty [] h = absurd (cc)
is_full-nonempty (c ∷ t) h = λ e. cc

all_hold :
    (x y z v : Bool)
    → (if not x || not y || not z then false else v) ≡ true
    → (x ≡ true) × (y ≡ true) × (z ≡ true) × (v ≡ true)
all_hold true true true v h = (refl, refl, refl, h)
all_hold true true false v h = absurd (cc)
all_hold true false z v h = absurd (cc)
all_hold false y z v h = absurd (cc)

parts_sound :
    (verify_message : Text → Text → Bool) (size_in_dwords : ℕ) (l : List Text)
    → verify_parts verify_message size_in_dwords l ≡ true
    → (ad1 : Text) × (ad2 : Text) × (amount : Text) × (signature : Text) × (l
        ≡ ad1 ∷ ad2 ∷ amount ∷ signature ∷ [])
      × (length ad1 ≡ 8 * size_in_dwords)
      × (length ad2 ≡ 8 * size_in_dwords)
      × (amount ≢ [])
      × (verify_message (join 58 (ad1 ∷ ad2 ∷ amount ∷ [])) signature ≡ true)
unfolding verify_parts
parts_sound vm n [] h = absurd (cc)
parts_sound vm n (a ∷ []) h = absurd (cc)
parts_sound vm n (a ∷ b ∷ []) h = absurd (cc)
parts_sound vm n (a ∷ b ∷ c ∷ []) h = absurd (cc)
parts_sound vm n (a ∷ b ∷ c ∷ s ∷ []) h =
    let (la, lb, lc, signed) = all_hold (length a == 8 * n) (length b == 8 * n) (is_full c) _ h in
    (a, b, c, s, refl, ground arith, ground arith, is_full-nonempty c lc, signed)
parts_sound vm n (a ∷ b ∷ c ∷ s ∷ t ∷ l) h = absurd (cc)

-- A transaction is verified only if `split` makes four parts of it: two addresses of the right length,
-- an amount that is not empty, and a signature that the check accepts for the first three parts.
pub verify_transaction_sound :
    (verify_message : Text → Text → Bool) (size_in_dwords : ℕ) (tx : Text)
    → verify_transaction verify_message size_in_dwords tx ≡ true
    → (ad1 : Text) × (ad2 : Text) × (amount : Text) × (signature : Text) × (split tx (58 ∷ [])
        ≡ ad1 ∷ ad2 ∷ amount ∷ signature ∷ [])
      × (length ad1 ≡ 8 * size_in_dwords)
      × (length ad2 ≡ 8 * size_in_dwords)
      × (amount ≢ [])
      × (verify_message (join 58 (ad1 ∷ ad2 ∷ amount ∷ [])) signature ≡ true)
unfolding verify_transaction
verify_transaction_sound verify_message size_in_dwords tx h =
    parts_sound verify_message size_in_dwords (split tx (58 ∷ [])) h
