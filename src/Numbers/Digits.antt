-- ===== src/Numbers/Digits.antt =====
-- The digits of a number, and what reads them back.
use snowball_dag_experiment.Base.{
  ℕ, zero, suc, ◌+◌, ◌*◌, ◌/◌, ◌%◌, ◌^◌, ◌≤◌, ◌<◌, ◌≡◌, refl, ap, subst, ◌∙◌, false, inl, inr,
  Option, none, some, [], ◌∷◌, ◌++◌, Text, ltb, length, length-append, replicate, arith, Bool-cases,
  lt→ltb,
}
use mathlib.Core.List.{append_assoc}
use native.Mathlib.Nat.{
  div-lt_iff_lt-mul, pow-suc, pow-zero, le_trans, mul-le-mul_left, div-add-mod', mod-lt,
}
use snowball_dag_experiment.Numbers.{
  digit, digits, digit_value, scan_digits, is_space, skip_spaces, scan_sign, skip_prefix, is_space,
  seen_value, scan_number, scan_magnitude,
}

-- Every character is a digit in base 16.
abbrev pub AllDigits : Text → Type 0
AllDigits [] = Unit {0}
AllDigits (c ∷ r) = (digit_value c < 16) × AllDigits r

digit_value-digit : (d : ℕ) → d < 16 → digit_value (digit d) ≡ d
unfolding digit_value digit
digit_value-digit d h = ground arith

pub AllDigits-append : (s t : Text) → AllDigits s → AllDigits t → AllDigits (s ++ t)
AllDigits-append [] t hs ht = ht
AllDigits-append (c ∷ s) t hs ht = (hs.0, AllDigits-append s t hs.1 ht)

pub AllDigits-replicate : (k : ℕ) → AllDigits (replicate k 48)
unfolding digit_value
AllDigits-replicate zero = tt
AllDigits-replicate (suc k) = (omega arith, AllDigits-replicate k)

module _ (base : ℕ) (two_le : 2 ≤ base) (le_sixteen : base ≤ 16) where
  half_bound : (fuel n : ℕ) → n < 2 ^ suc fuel → n / base < 2 ^ fuel
  half_bound fuel n h =
      (div-lt_iff_lt-mul (omega arith)).1
        (le_trans h (rw (pow-suc 2 fuel) (mul-le-mul_left (2 ^ fuel) two_le)))

  mod_small : (n : ℕ) → n % base < 16
  mod_small n = omega (arith, mod-lt n {m = base})

  pub digits-AllDigits : (fuel n : ℕ) → AllDigits (digits fuel base n)
  unfolding digits
  digits-AllDigits zero n = tt
  digits-AllDigits (suc fuel) n = elim (Bool-cases (ltb n base)) [
    | inl small ↦ rw small (rw (digit_value-digit n (ground arith)) (ground arith), tt)
    | inr large ↦ rw large (
        AllDigits-append _ _ (digits-AllDigits fuel (n / base))
          (rw (digit_value-digit (n % base) (mod_small n)) (mod_small n), tt))
  ]

  -- One digit below the base, read after the value `v`.
  scan_digits-digit :
      (d v n : ℕ) (seen : Option ℕ) (u : Text)
      → d < base
      → seen_value seen ≡ v
      → v * base + d ≡ n
      → scan_digits base seen (digit d ∷ u) ≡ scan_digits base (some n) u
  unfolding scan_digits
  scan_digits-digit d v n seen u h z e =
      rw (digit_value-digit d (omega arith), lt→ltb d base h, z, e) refl

  -- The digits of `n`, read with nothing or zero seen before, leave `n` seen.
  pub scan_digits-digits :
      (fuel n : ℕ) (seen : Option ℕ) (u : Text)
      → n < 2 ^ suc fuel
      → seen_value seen ≡ 0
      → scan_digits base seen (digits (suc fuel) base n ++ u) ≡ scan_digits base (some n) u
  unfolding digits
  scan_digits-digits zero n seen u h z =
      rw (lt→ltb n base (omega arith))
        (scan_digits-digit n 0 n seen u (omega arith) z (omega arith))
  scan_digits-digits (suc fuel) n seen u h z = elim (Bool-cases (ltb n base)) [
    | inl small ↦ rw small (scan_digits-digit n 0 n seen u (ground arith) z (omega arith))
    | inr large ↦
        rw (large, append_assoc)
          (scan_digits-digits fuel (n / base) seen (digit (n % base) ∷ u)
              (half_bound (suc fuel) n h) z
            ∙ scan_digits-digit (n % base) (n / base) n (some (n / base)) u (mod-lt n (omega arith))
                refl (div-add-mod' n base))
  ]

  pow_one : base ^ 1 ≡ base
  pow_one = rw (pow-suc base 0, pow-zero base) (omega arith)

  shorter : (n k : ℕ) → n < base ^ suc (suc k) → n / base < base ^ suc k
  shorter n k h = (div-lt_iff_lt-mul (omega arith)).1 (subst (λ m. n < m) (pow-suc base (suc k)) h)

  pub length-digits : (fuel k n : ℕ) → n < base ^ suc k → length (digits fuel base n) ≤ suc k
  unfolding digits
  length-digits zero k n h = omega arith
  length-digits (suc fuel) zero n h =
      rw (lt→ltb n base (subst (λ k. n < k) (pow_one) h)) (omega arith)
  length-digits (suc fuel) (suc k) n h = elim (Bool-cases (ltb n base)) [
    | inl small ↦ rw small (omega arith)
    | inr large ↦
        rw (large, length-append (digits fuel base (n / base)) (digit (n % base) ∷ []))
          (omega (arith, length-digits fuel k (n / base) (shorter n k h)))
  ]

-- None of the characters that `strtol` treats specially is a digit.
module _ (a : ℕ) (h : digit_value a < 16) where
  skip_spaces-digit : (r : Text) → skip_spaces (a ∷ r) ≡ a ∷ r
  unfolding skip_spaces is_space digit_value
  skip_spaces-digit r = ground arith

  scan_sign-digit : (r : Text) → scan_sign (a ∷ r) ≡ (false, a ∷ r)
  unfolding scan_sign digit_value
  scan_sign-digit r = ground arith

  skip_prefix-digit : (base z d : ℕ) (r : Text) → skip_prefix base (z ∷ a ∷ d ∷ r) ≡ z ∷ a ∷ d ∷ r
  unfolding skip_prefix digit_value
  skip_prefix-digit base z d r = ground arith

pub skip_prefix-AllDigits : (base : ℕ) (t : Text) → AllDigits t → skip_prefix base t ≡ t
unfolding skip_prefix
skip_prefix-AllDigits base [] h = refl
skip_prefix-AllDigits base (a ∷ []) h = refl
skip_prefix-AllDigits base (a ∷ b ∷ []) h = refl
skip_prefix-AllDigits base (a ∷ b ∷ c ∷ r) h = skip_prefix-digit b (h.1.0) base a c r

skipped : (t : Text) → AllDigits t → scan_sign (skip_spaces t) ≡ (false, t)
skipped [] h = unfold skip_spaces scan_sign in refl
skipped (a ∷ r) h = rw (skip_spaces-digit a h.0 r) (scan_sign-digit a h.0 r)

pub scan_number-AllDigits :
    (base : ℕ) (t : Text) (v : ℕ)
    → AllDigits t
    → scan_digits base none t ≡ some v
    → scan_number base t ≡ some (false, v)
unfolding scan_number scan_magnitude
scan_number-AllDigits base t v h e =
    ap (scan_magnitude base) (skipped t h)
    ∙ rw (skip_prefix-AllDigits base t h, e, scan_magnitude) refl
