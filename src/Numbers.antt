-- ===== src/Numbers.antt =====
-- Numbers as text: what the program uses of `std::to_string`, `std::hex`, `stoi` and `stoull`, the
-- functions over them in misc.cpp, and the block hash conversions of verify.cpp, all of
-- Snowball_Main/code.
pub mod Digits
pub mod RoundTrip
pub mod Fields
pub mod Digest
use snowball_dag_experiment.Base.{
  ℕ, zero, suc, ◌+◌, ◌-◌, ◌*◌, ◌/◌, ◌%◌, ◌^◌, Bool, true, false, ◌&&◌, ◌||◌, Option, none, some,
  List, [], ◌∷◌, ◌++◌, Text, ◌==◌, ltb, leb, if◌then◌else◌, length, take, drop, replicate, ℤ, pos,
  negsuc,
}

-- Lower-case digits, the leading one first.
unfoldable pub digit : ℕ → ℕ
digit d = if ltb d 10 then 48 + d else 87 + d

-- A 64-bit number has at most 64 digits in any base, so 64 rounds are enough.
unfoldable pub digits : ℕ → ℕ → ℕ → Text
digits zero base n = []
digits (suc fuel) base n =
    let rest = digits fuel base (n / base) in
    if ltb n base then digit n ∷ [] else rest ++ (digit (n % base) ∷ [])

abbrev pub to_string : ℕ → Text
to_string n = digits 64 10 n

-- The value of a digit; 36 for every other character.
unfoldable pub digit_value : ℕ → ℕ
digit_value c =
    if leb 48 c && leb c 57
    then c - 48
    else if leb 97 c && leb c 122
    then c - 87
    else if leb 65 c && leb c 90
    then c - 55
    else 36

abbrev pub seen_value : Option ℕ → ℕ
seen_value none = 0
seen_value (some v) = v

-- The number that the leading digits spell, `none` where there is no digit.
unfoldable pub scan_digits : ℕ → Option ℕ → Text → Option ℕ
scan_digits base seen [] = seen
scan_digits base seen (c ∷ r) =
    let next = scan_digits base (some (seen_value seen * base + digit_value c)) r in
    if ltb (digit_value c) base then next else seen

unfoldable pub is_space : ℕ → Bool
is_space c = c == 32 || (leb 9 c && leb c 13)

unfoldable pub skip_spaces : Text → Text
skip_spaces [] = []
skip_spaces (c ∷ r) = let rest = skip_spaces r in if is_space c then rest else c ∷ r

-- An optional sign: whether it was a minus, and what follows.
unfoldable pub scan_sign : Text → Bool × Text
scan_sign [] = (false, [])
scan_sign (c ∷ r) = if c == 45 then (true, r) else if c == 43 then (false, r) else (false, c ∷ r)

-- In base 16 an optional "0x", if a digit follows it.
unfoldable pub skip_prefix : ℕ → Text → Text
skip_prefix base (z ∷ x ∷ d ∷ r) =
    if base == 16 && z == 48 && (x == 120 || x == 88) && ltb (digit_value d) 16
    then d ∷ r
    else z ∷ x ∷ d ∷ r
skip_prefix base t = t

unfoldable pub scan_magnitude : ℕ → Bool × Text → Option (Bool × ℕ)
scan_magnitude base (neg, t) = elim (scan_digits base none (skip_prefix base t)) [
  | none ↦ none
  | some v ↦ some (neg, v)
]

-- Sign and magnitude, as `strtol` and `strtoull` read them.
unfoldable pub scan_number : ℕ → Text → Option (Bool × ℕ)
scan_number base t = scan_magnitude base (scan_sign (skip_spaces t))

-- `none` is the exception, no digit or a magnitude beyond 64 bits; a minus negates modulo 2^64.
unfoldable pub stoull : ℕ → Text → Option ℕ
stoull base t = elim (scan_number base t) [
  | none ↦ none
  | some (neg, v) ↦ if ltb v (2 ^ 64) then some (if neg then (2 ^ 64 - v) % 2 ^ 64 else v) else none
]

-- `blockhash_to_string`: `hex << b`, filled up with '0' to 16 characters.
unfoldable pub blockhash_to_string : ℕ → Text
blockhash_to_string b =
    let hash = digits 64 16 b in
    if ltb (length hash) 16 then replicate (16 - length hash) 48 ++ hash else hash

-- `string_to_blockhash`: the first 16 characters as a hexadecimal number, or the exception.
unfoldable pub string_to_blockhash : Text → Option ℕ
string_to_blockhash h = stoull 16 (take 16 h)

-- `get_chain_id_from_hash`: `substr(58)` throws on a shorter text, `stoi` on a text with no digit
-- or beyond 31 bits; the `int` is converted to 32 bits before the remainder.
unfoldable pub get_chain_id_from_hash : ℕ → Text → Option ℕ
get_chain_id_from_hash chains h =
    if ltb (length h) 58 then none else elim (scan_number 16 (drop 58 h)) [
      | none ↦ none
      | some (neg, v) ↦
          if ltb v (2 ^ 31) || (neg && (v == 2 ^ 31))
          then some ((if neg then (2 ^ 32 - v) % 2 ^ 32 else v) % chains)
          else none
    ]

-- `to_string` of an `int`.
abbrev pub int_to_string : ℤ → Text
int_to_string (pos n) = to_string n
int_to_string (negsuc n) = 45 ∷ to_string (n + 1)

-- `stoi` in base 10: `none` is the exception, no digit or a value that is no `int` of 32 bits.
unfoldable pub stoi : Text → Option ℤ
stoi t = elim (scan_number 10 t) [
  | none ↦ none
  | some (neg, v) ↦
      if ltb v (2 ^ 31) || (neg && (v == 2 ^ 31))
      then some (if neg && ltb 0 v then negsuc (v - 1) else pos v)
      else none
]

-- An `int` as a `uint32_t`.
unfoldable pub to_uint32 : ℤ → ℕ
to_uint32 (pos n) = n % 2 ^ 32
to_uint32 (negsuc n) = 2 ^ 32 - 1 - n % 2 ^ 32

-- The value, and what `pr` is set to: false after an exception, kept otherwise.
unfoldable pub safe_stoi : Text → Bool → ℤ × Bool
safe_stoi s pr = elim (stoi s) [ none ↦ (pos 0, false) | some v ↦ (v, pr && true) ]

unfoldable pub safe_stoull : Text → Bool → ℕ × Bool
safe_stoull s pr = elim (stoull 10 s) [ none ↦ (0, false) | some v ↦ (v, pr && true) ]
