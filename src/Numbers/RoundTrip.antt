-- ===== src/Numbers/RoundTrip.antt =====
-- A block hash survives its way through text.
use snowball_dag_experiment.Base.{
  ℕ, suc, ◌+◌, ◌-◌, ◌*◌, ◌^◌, ◌≤◌, ◌<◌, ◌≡◌, refl, sym, ap, ◌∙◌, false, inl, inr, Option, none,
  some, [], ◌∷◌, ◌++◌, Text, ltb, length, length-append, length-replicate, take, replicate, arith,
  Bool-cases, zero, lt→ltb,
}
use mathlib.Core.List.{append-nil}
use snowball_dag_experiment.Numbers.{
  digits, scan_digits, digit_value, scan_number, stoull, blockhash_to_string, string_to_blockhash,
  to_string, seen_value,
}
use snowball_dag_experiment.Numbers.Digits.{
  AllDigits, AllDigits-append, AllDigits-replicate, digits-AllDigits, scan_digits-digits,
  length-digits, scan_number-AllDigits,
}

take_all : (k : ℕ) (t : Text) → length t ≤ k → take k t ≡ t
take_all zero [] h = refl
take_all zero (c ∷ t) h = absurd (omega arith)
take_all (suc k) [] h = refl
take_all (suc k) (c ∷ t) h = ap (λ r. c ∷ r) (take_all k t (omega arith))

-- Leading zeros add nothing.
scan_zeros :
    (k : ℕ) (seen : Option ℕ) (u : Text)
    → seen_value seen ≡ 0
    → (s : Option ℕ) × (seen_value s ≡ 0)
      × (scan_digits 16 seen (replicate k 48 ++ u) ≡ scan_digits 16 s u)
unfolding scan_digits digit_value
scan_zeros zero seen u z = (seen, z, refl)
scan_zeros (suc k) seen u z = scan_zeros k (some (seen_value seen * 16 + 0)) u (omega arith)

-- The text that `blockhash_to_string` makes of a 64-bit hash has 16 characters.
pub length-blockhash_to_string : (b : ℕ) → b < 2 ^ 64 → length (blockhash_to_string b) ≡ 16
unfolding blockhash_to_string
length-blockhash_to_string b h =
    let short : length (digits 64 16 b) ≤ 16 =
      length-digits 16 (omega arith) (omega arith) 64 15 b h in
    ground (
      arith,
      length-append (replicate (16 - length (digits 64 16 b)) 48) (digits 64 16 b),
      length-replicate {A = ℕ} (16 - length (digits 64 16 b)) 48,
    )

padded : (b : ℕ) → (k : ℕ) × (blockhash_to_string b ≡ replicate k 48 ++ digits 64 16 b)
unfolding blockhash_to_string
padded b = elim (Bool-cases (ltb (length (digits 64 16 b)) 16)) [
  | inl short ↦ (16 - length (digits 64 16 b), rw short refl)
  | inr full ↦ (0, rw full refl)
]

blockhash_to_string-AllDigits : (b : ℕ) → AllDigits (blockhash_to_string b)
blockhash_to_string-AllDigits b =
    let (k, form) = padded b in
    rw form (
      AllDigits-append (replicate k 48) _ (AllDigits-replicate k)
        (digits-AllDigits 16 (omega arith) (omega arith) 64 b))

module _ (base : ℕ) (two_le : 2 ≤ base) (le_sixteen : base ≤ 16) where
  pub scan_whole :
      (n : ℕ) (seen : Option ℕ)
      → n < 2 ^ 64
      → seen_value seen ≡ 0
      → scan_digits base seen (digits 64 base n) ≡ some n
  scan_whole n seen h z =
      ap (scan_digits base seen) (sym (append-nil (digits 64 base n)))
      ∙ scan_digits-digits base two_le le_sixteen 63 n seen [] h z
      ∙ nothing_left
    where
      nothing_left : scan_digits base (some n) [] ≡ some n
      nothing_left = unfold scan_digits in refl

scan_digits-blockhash_to_string :
    (b : ℕ) → b < 2 ^ 64 → scan_digits 16 none (blockhash_to_string b) ≡ some b
scan_digits-blockhash_to_string b h =
    let (k, form) = padded b in
    let (s, z, skipped) = scan_zeros k none (digits 64 16 b) refl in
    rw form (skipped ∙ scan_whole 16 (omega arith) (omega arith) b s h z)

stoull_of_scan :
    (base : ℕ) (t : Text) (v : ℕ)
    → scan_number base t ≡ some (false, v)
    → v < 2 ^ 64
    → stoull base t ≡ some v
unfolding stoull
stoull_of_scan base t v e h = rw (e, stoull, lt→ltb v (2 ^ 64) h) refl

-- `string_to_blockhash` reads back every 64-bit hash that `blockhash_to_string` writes.
pub string_to_blockhash-blockhash_to_string :
    (b : ℕ) → b < 2 ^ 64 → string_to_blockhash (blockhash_to_string b) ≡ some b
unfolding string_to_blockhash
string_to_blockhash-blockhash_to_string b h =
    ap (stoull 16)
      (take_all 16 (blockhash_to_string b) (omega (arith, length-blockhash_to_string b h)))
    ∙ stoull_of_scan 16 (blockhash_to_string b) b
        (scan_number-AllDigits 16 (blockhash_to_string b) b (blockhash_to_string-AllDigits b)
          (scan_digits-blockhash_to_string b h))
        h

-- `stoull` reads back every 64-bit number that `to_string` writes.
pub stoull-to_string : (n : ℕ) → n < 2 ^ 64 → stoull 10 (to_string n) ≡ some n
stoull-to_string n h =
    stoull_of_scan 10 (to_string n) n
      (scan_number-AllDigits 10 (to_string n) n
        (digits-AllDigits 10 (omega arith) (omega arith) 64 n)
        (scan_whole 10 (omega arith) (omega arith) n none h refl))
      h
