-- ===== src/Numbers/Digest.antt =====
-- What verify.cpp reads from a digest in hexadecimal digits: the chain and the hash of a block.
use snowball_dag_experiment.Base.{
  ℕ, zero, suc, ◌+◌, ◌*◌, ◌^◌, ◌%◌, ◌<◌, ◌≤◌, ◌≡◌, refl, sym, ap, ◌∙◌, false, none, some, [], ◌∷◌,
  Text, lt→ltb, length, length-take, length-drop, take, drop, arith,
}
use native.Mathlib.Nat.{pow-suc, mul_assoc, mul_comm, mul-le-mul_right}
use snowball_dag_experiment.Numbers.{
  digit_value, scan_digits, scan_number, stoull, string_to_blockhash, get_chain_id_from_hash,
}
use snowball_dag_experiment.Numbers.Digits.{AllDigits, scan_number-AllDigits}

-- A text of 64 hexadecimal digits, as SHA-256 has.
pub record IsDigest (h : Text) : Type 0 where
  pub all_digits : AllDigits h
  pub size : length h ≡ 64

AllDigits-take : (k : ℕ) (t : Text) → AllDigits t → AllDigits (take k t)
AllDigits-take zero t h = tt
AllDigits-take (suc k) [] h = tt
AllDigits-take (suc k) (c ∷ t) h = (h.0, AllDigits-take k t h.1)

AllDigits-drop : (k : ℕ) (t : Text) → AllDigits t → AllDigits (drop k t)
AllDigits-drop zero t h = h
AllDigits-drop (suc k) [] h = tt
AllDigits-drop (suc k) (c ∷ t) h = AllDigits-drop k t h.1

-- The value of the digits `t` after the value `v`.
scan_from :
    (t : Text) (v : ℕ)
    → AllDigits t
    → (r : ℕ) × (scan_digits 16 (some v) t ≡ some r) × (r < (v + 1) * 16 ^ length t)
unfolding scan_digits
scan_from [] v h = (v, refl, omega arith)
scan_from (c ∷ t) v h =
    let d = digit_value c in
    let (r, e, lt) = scan_from t (v * 16 + d) h.1 in
    let wide : (v * 16 + d + 1) * 16 ^ length t ≤ (v + 1) * 16 * 16 ^ length t =
      mul-le-mul_right (16 ^ length t) (omega (arith, h.0)) in
    let power : 16 ^ suc (length t) ≡ 16 ^ length t * 16 = pow-suc 16 (length t) in
    let same : (v + 1) * 16 * 16 ^ length t ≡ (v + 1) * 16 ^ suc (length t) =
      mul_assoc (v + 1) 16 (16 ^ length t)
      ∙ ap (λ x. (v + 1) * x) (mul_comm 16 (16 ^ length t) ∙ sym power) in
    (r, rw (lt→ltb d 16 h.0) e, omega (arith, lt, wide, same))

scan_whole_number :
    (t : Text) (n : ℕ)
    → AllDigits t
    → length t ≡ suc n
    → (r : ℕ) × (scan_number 16 t ≡ some (false, r)) × (r < 16 ^ suc n)
unfolding scan_digits
scan_whole_number [] n h e = absurd (omega arith)
scan_whole_number (c ∷ t) n h e =
    let d = digit_value c in
    let (r, e1, lt) = scan_from t d h.1 in
    let first : scan_digits 16 none (c ∷ t) ≡ some r =
      rw (lt→ltb d 16 h.0) (ap (λ v. scan_digits 16 (some v) t) {y = d} (omega arith) ∙ e1) in
    let wide : (d + 1) * 16 ^ length t ≤ 16 * 16 ^ length t =
      mul-le-mul_right (16 ^ length t) (omega (arith, h.0)) in
    let same : 16 * 16 ^ length t ≡ 16 ^ suc n =
      mul_comm 16 (16 ^ length t) ∙ sym (pow-suc 16 (length t)) ∙ ap (λ k. 16 ^ k) e in
    (r, scan_number-AllDigits 16 (c ∷ t) r h first, omega (arith, lt, wide, same))

chain_read :
    (chains v : ℕ) (h : Text)
    → length h ≡ 64
    → scan_number 16 (drop 58 h) ≡ some (false, v)
    → v < 2 ^ 31
    → get_chain_id_from_hash chains h ≡ some (v % chains)
unfolding get_chain_id_from_hash
chain_read chains v h size e lt = rw (size, e, lt→ltb v (2 ^ 31) lt, get_chain_id_from_hash) refl

hash_read :
    (v : ℕ) (h : Text)
    → scan_number 16 (take 16 h) ≡ some (false, v)
    → v < 2 ^ 64
    → string_to_blockhash h ≡ some v
unfolding string_to_blockhash stoull
hash_read v h e lt = rw (e, lt→ltb v (2 ^ 64) lt, stoull) refl

-- A digest names one of the chains, and a hash of 64 bits.
pub digest_reads :
    (chains : ℕ) (h : Text)
    → IsDigest h
    → ((c : ℕ) × (get_chain_id_from_hash chains h ≡ some c))
      × ((b : ℕ) × (string_to_blockhash h ≡ some b) × (b < 2 ^ 64))
digest_reads chains h d =
    let (v, e, lt) =
      scan_whole_number (drop 58 h) 5 (AllDigits-drop 58 h d.all_digits)
        (omega (arith, length-drop 58 h, d.size)) in
    let (b, e2, lt2) =
      scan_whole_number (take 16 h) 15 (AllDigits-take 16 h d.all_digits)
        (ground (arith, length-take 16 h, d.size)) in
    (
      (v % chains, chain_read chains v h d.size e (omega arith)),
      (b, hash_read b h e2 (omega arith), omega arith),
    )
