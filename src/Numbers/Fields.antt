-- ===== src/Numbers/Fields.antt =====
-- What misc.cpp reads back of the numbers that a message holds.
use snowball_dag_experiment.Base.{
  ℕ, ◌+◌, ◌/◌, ◌%◌, ◌^◌, ◌≤◌, ◌<◌, ◌≡◌, ◌≢◌, refl, ap, ◌∙◌, Bool, true, false, inl, inr, none, some,
  [], ◌∷◌, ◌++◌, Text, ltb, ◌==◌, arith, lt→ltb, ℤ, pos, negsuc, Bool-cases,
}
use snowball_dag_experiment.Numbers.{
  digit, digits, digit_value, scan_number, scan_magnitude, scan_sign, skip_spaces, is_space,
  to_string, int_to_string, stoi, to_uint32, safe_stoi, safe_stoull,
}
use snowball_dag_experiment.Numbers.Digits.{
  AllDigits, digits-AllDigits, scan_number-AllDigits, skip_prefix-AllDigits,
}
use snowball_dag_experiment.Numbers.RoundTrip.{stoull-to_string, scan_whole}
use snowball_dag_experiment.Split.Tokens.{Free}

to_string-AllDigits : (n : ℕ) → AllDigits (to_string n)
to_string-AllDigits n = digits-AllDigits 10 (omega arith) (omega arith) 64 n

-- The separators "," and ":" are no digits.
Free-AllDigits : (d : ℕ) (t : Text) → digit_value d ≡ 36 → AllDigits t → Free d t
Free-AllDigits d [] h a = tt
Free-AllDigits d (c ∷ t) h a = (differs, Free-AllDigits d t h a.1)
  where
    differs : (c == d) ≡ false
    differs = elim (Bool-cases (c == d)) [
      | inl e ↦
          let same : c ≡ d = ground arith in absurd (omega (arith, a.0, h, ap digit_value same))
      | inr e ↦ e
    ]

pub Free-to_string : (n : ℕ) → Free 44 (to_string n)
unfolding digit_value
Free-to_string n = Free-AllDigits 44 (to_string n) refl (to_string-AllDigits n)

pub Free-int_to_string : (z : ℤ) → Free 44 (int_to_string z)
Free-int_to_string (pos n) = Free-to_string n
Free-int_to_string (negsuc n) = (refl, Free-to_string (n + 1))

snoc_full : (t : Text) (c : ℕ) → (t ++ (c ∷ [])) ≢ []
snoc_full [] c = λ e. cc
snoc_full (x ∷ t) c = λ e. cc

pub to_string_full : (n : ℕ) → to_string n ≢ []
unfolding digits
to_string_full n = elim (Bool-cases (ltb n 10)) [
  | inl small ↦ rw small (λ e. cc)
  | inr large ↦ rw large (snoc_full (digits 63 10 (n / 10)) (digit (n % 10)))
]

pub int_to_string_full : (z : ℤ) → int_to_string z ≢ []
int_to_string_full (pos n) = to_string_full n
int_to_string_full (negsuc n) = λ e. cc

scan_number-to_string : (n : ℕ) → n < 2 ^ 64 → scan_number 10 (to_string n) ≡ some (false, n)
scan_number-to_string n h =
    scan_number-AllDigits 10 (to_string n) n (to_string-AllDigits n)
      (scan_whole 10 (omega arith) (omega arith) n none h refl)

stoi-to_string : (n : ℕ) → n < 2 ^ 31 → stoi (to_string n) ≡ some (pos n)
unfolding stoi
stoi-to_string n h = rw (scan_number-to_string n (omega arith), lt→ltb n (2 ^ 31) h, stoi) refl

-- The sign in front of a number.
minus_sign : (t : Text) → scan_number 10 (45 ∷ t) ≡ scan_magnitude 10 (true, t)
unfolding scan_number skip_spaces is_space scan_sign
minus_sign t = refl

scan_number-minus : (n : ℕ) → n < 2 ^ 64 → scan_number 10 (45 ∷ to_string n) ≡ some (true, n)
unfolding scan_magnitude
scan_number-minus n h =
    minus_sign (to_string n)
    ∙ rw
        (
          skip_prefix-AllDigits 10 (to_string n) (to_string-AllDigits n),
          scan_whole 10 (omega arith) (omega arith) n none h refl,
          scan_magnitude,
        )
        refl

stoi-minus : (n : ℕ) → n < 2 ^ 31 → stoi (45 ∷ to_string (n + 1)) ≡ some (negsuc n)
unfolding stoi
stoi-minus n h = rw (scan_number-minus (n + 1) (omega arith), stoi) (ground arith)

-- The range of an `int` of 32 bits.
abbrev pub IsInt : ℤ → Type 0
IsInt (pos n) = n < 2 ^ 31
IsInt (negsuc n) = n < 2 ^ 31

stoi-int_to_string : (z : ℤ) → IsInt z → stoi (int_to_string z) ≡ some z
stoi-int_to_string (pos n) h = stoi-to_string n h
stoi-int_to_string (negsuc n) h = stoi-minus n h

-- `safe_stoi` reads back every `int` that `to_string` writes, and sets `pr` as it was.
pub safe_stoi-int_to_string :
    (z : ℤ) (pr : Bool) → IsInt z → safe_stoi (int_to_string z) pr ≡ (z, pr)
unfolding safe_stoi
safe_stoi-int_to_string z pr h = rw (stoi-int_to_string z h, safe_stoi) (ground arith)

pub safe_stoi-to_string :
    (n : ℕ) (pr : Bool) → n < 2 ^ 31 → safe_stoi (to_string n) pr ≡ (pos n, pr)
unfolding safe_stoi
safe_stoi-to_string n pr h = rw (stoi-to_string n h, safe_stoi) (ground arith)

-- A number of 2^31 to 2^64 is no `int`: it is read as 0, and `pr` is set to false.
pub safe_stoi_too_large :
    (n : ℕ) (pr : Bool) → 2 ^ 31 ≤ n → n < 2 ^ 64 → safe_stoi (to_string n) pr ≡ (pos 0, false)
unfolding safe_stoi stoi
safe_stoi_too_large n pr lo hi = rw (scan_number-to_string n hi, stoi, safe_stoi) (ground arith)

pub safe_stoull-to_string :
    (n : ℕ) (pr : Bool) → n < 2 ^ 64 → safe_stoull (to_string n) pr ≡ (n, pr)
unfolding safe_stoull
safe_stoull-to_string n pr h = rw (stoull-to_string n h, safe_stoull) (ground arith)

pub to_uint32-pos : (n : ℕ) → n < 2 ^ 31 → to_uint32 (pos n) ≡ n
unfolding to_uint32
to_uint32-pos n h = omega arith
