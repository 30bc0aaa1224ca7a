-- ===== src/Merkle/Sound.antt =====
-- What an accepted proof shows: the hash is the leaf at the index, or two texts collide.
use snowball_dag_experiment.Base.{
  ℕ, zero, suc, ◌+◌, ◌*◌, ◌/◌, ◌%◌, ◌^◌, ◌≤◌, ◌<◌, ◌≡◌, refl, sym, ap, ◌∙◌, ◌⊎◌, inl, inr, ◌≢◌,
  true, false, ◌&&◌, some, List, [], ◌∷◌, ◌++◌, Text, length, length-append, get_elem?, arith,
  text_eq, text_eq→eq, Text-cases, append-injective, Bool-cases, ◌==◌, subst, if◌then◌else◌,
}
use native.Mathlib.Nat.{pow-suc, mul_comm}
use snowball_dag_experiment.Numbers.{blockhash_to_string}
use snowball_dag_experiment.Numbers.RoundTrip.{length-blockhash_to_string}
use snowball_dag_experiment.Merkle.{
  pair_up, root_loop, compute_merkle_tree_root, hash_step, verify_loop, verify_text,
  verify_merkle_proof,
}
use snowball_dag_experiment.Merkle.Level.{length-pair_up}
use snowball_dag_experiment.Merkle.Complete.{pow_positive, lt_pow, root_loop-round, climb}

-- Every text of the list has `w` characters.
abbrev pub AllLong : ℕ → List Text → Type 0
AllLong w [] = Unit {0}
AllLong w (t ∷ l) = (length t ≡ w) × AllLong w l

head_of : (l : List Text) → 0 < length l → (x : Text) × (get_elem? l 0 ≡ some x)
head_of [] h = absurd (omega arith)
head_of (x ∷ l) h = (x, refl)

only : (l : List Text) (top root : Text) → l ≡ top ∷ [] → get_elem? l 0 ≡ some root → l ≡ root ∷ []
only [] top root h e = absurd (ground arith)
only (x ∷ l) top root h e = ground arith

module _ (sha256 : Text → Text) where
  -- Two different texts with one hash.
  pub record Collision : Type 0 where
    pub one : Text
    pub other : Text
    pub differ : one ≢ other
    pub same_hash : sha256 one ≡ sha256 other

  AllLong-pair_up :
      (w : ℕ) (l : List Text) → ((t : Text) → length (sha256 t) ≡ w) → AllLong w (pair_up sha256 l)
  unfolding pair_up
  AllLong-pair_up w [] wide = tt
  AllLong-pair_up w (a ∷ []) wide = tt
  AllLong-pair_up w (a ∷ b ∷ r) wide = (wide (a ++ b), AllLong-pair_up w r wide)

  -- The text at half an index on the next level is the hash of two texts, of which the index is
  -- one's place.
  pub record Parents (w index : ℕ) (l : List Text) (t : Text) : Type 0 where
    pub left : Text
    pub right : Text
    pub hash : t ≡ sha256 (left ++ right)
    pub left_long : length left ≡ w
    pub right_long : length right ≡ w
    pub place : get_elem? l index ≡ (if index % 2 == 0 then some left else some right)

  mod_two : (index : ℕ) → suc (suc index) % 2 ≡ index % 2
  mod_two index = omega arith

  parents :
      (w index : ℕ) (l : List Text) (t : Text)
      → AllLong w l
      → get_elem? (pair_up sha256 l) (index / 2) ≡ some t
      → Parents w index l t
  unfolding pair_up
  parents w index [] t h e = absurd (ground arith)
  parents w index (a ∷ []) t h e = absurd (ground arith)
  parents w zero (a ∷ b ∷ r) t h e = record {
    left = a;
    right = b;
    hash = ground arith;
    left_long = h.0;
    right_long = h.1.0;
    place = refl;
  }
  parents w (suc zero) (a ∷ b ∷ r) t h e = record {
    left = a;
    right = b;
    hash = ground arith;
    left_long = h.0;
    right_long = h.1.0;
    place = refl;
  }
  parents w (suc (suc index)) (a ∷ b ∷ r) t h e =
      let half : suc (suc index) / 2 ≡ suc (index / 2) = omega arith in
      let p =
        parents w index r t h.1.1
          (subst (λ i. get_elem? (sha256 (a ++ b) ∷ pair_up sha256 r) i ≡ some t) half e) in
      record {
        left = p.left;
        right = p.right;
        hash = p.hash;
        left_long = p.left_long;
        right_long = p.right_long;
        place = rw (mod_two index) p.place;
      }

  -- One step of the check, read downwards.
  module _ (w index : ℕ) (l : List Text) (p h t : Text) (long : length h ≡ w)
      (par : Parents w index l t) where
    open par use {left, right, left_long, right_long, hash, place}

    even_step :
        (index % 2 == 0) ≡ true → sha256 (h ++ p) ≡ t → (get_elem? l index ≡ some h) ⊎ Collision
    even_step even e = elim (Text-cases (h ++ p) (left ++ right)) [
      | inl same ↦
          let parts = append-injective h p left right (omega arith) same in
          inl (place ∙ rw even (ap some (sym parts.0)))
      | inr differ ↦
          inr
            (record { one = h ++ p; other = left ++ right; differ = differ; same_hash = e ∙ hash })
    ]

    odd_step :
        (index % 2 == 0) ≡ false → sha256 (p ++ h) ≡ t → (get_elem? l index ≡ some h) ⊎ Collision
    odd_step odd e = elim (Text-cases (p ++ h) (left ++ right)) [
      | inl same ↦
          let as_long : length p ≡ length left =
            omega (arith, ap length same, length-append p h, length-append left right) in
          let parts = append-injective p h left right as_long same in
          inl (place ∙ rw odd (ap some (sym parts.1)))
      | inr differ ↦
          inr
            (record { one = p ++ h; other = left ++ right; differ = differ; same_hash = e ∙ hash })
    ]

    step_down : hash_step sha256 index p h ≡ t → (get_elem? l index ≡ some h) ⊎ Collision
    unfolding hash_step
    step_down e = elim (Bool-cases (index % 2 == 0)) [
      | inl even ↦ even_step even (sym (rw even refl) ∙ e)
      | inr odd ↦ odd_step odd (sym (rw odd refl) ∙ e)
    ]

  module _ (wide : (t : Text) → length (sha256 t) ≡ 64) where
    length-hash_step : (index : ℕ) (p h : Text) → length (hash_step sha256 index p h) ≡ 64
    unfolding hash_step
    length-hash_step index p h = ground (arith, wide (h ++ p), wide (p ++ h))

    root_loop-single :
        (fuel : ℕ) (l : List Text) (root : Text)
        → length l ≡ 1
        → root_loop sha256 fuel l ≡ root ∷ []
        → get_elem? l 0 ≡ some root
    unfolding root_loop
    root_loop-single fuel [] root n r = absurd (omega arith)
    root_loop-single fuel (a ∷ b ∷ l) root n r = absurd (omega arith)
    root_loop-single zero (a ∷ []) root n r = ground arith
    root_loop-single (suc fuel) (a ∷ []) root n r = ground arith

    last_check : (root p h : Text) → some (text_eq p h && text_eq root h) ≡ some true → root ≡ h
    last_check root p h v = ground (arith, text_eq→eq root h)

    -- Down from the top of a full tree of height `k`, along the rest of a proof.
    descend :
        (k fuel w index : ℕ) (l : List Text) (proof : List Text) (root h : Text)
        → length l ≡ 2 ^ k
        → k ≤ fuel
        → AllLong w l
        → length h ≡ w
        → index < 2 ^ k
        → length proof ≡ suc k
        → root_loop sha256 fuel l ≡ root ∷ []
        → verify_loop sha256 root proof h index ≡ some true
        → (get_elem? l index ≡ some h) ⊎ Collision
    unfolding verify_loop
    descend zero fuel w index l (p ∷ []) root h n f long lh i m r v =
        let at_zero : index ≡ 0 = omega arith in
        inl (rw at_zero (root_loop-single fuel l root n r) ∙ ap some (last_check root p h v))
    descend (suc k) (suc fuel) w index l (p ∷ q ∷ rest) root h n f long lh i m r v =
        let two : length l ≡ 2 * 2 ^ k = n ∙ rw (pow-suc 2 k) (omega arith) in
        let i' : index < 2 * 2 ^ k = subst (λ b. index < b) (pow-suc 2 k ∙ mul_comm (2 ^ k) 2) i in
        let up : (get_elem? (pair_up sha256 l) (index / 2) ≡ some (hash_step sha256 index p h))
            ⊎ Collision =
          descend k fuel 64 (index / 2) (pair_up sha256 l) (q ∷ rest) root
            (hash_step sha256 index p h) (omega (arith, length-pair_up sha256 l)) (omega arith)
            (AllLong-pair_up 64 l wide) (length-hash_step index p h) (omega arith) (omega arith)
            (sym (root_loop-round sha256 fuel l (omega (arith, pow_positive k))) ∙ r) v in
        elim up [
          | inl e ↦ step_down w index l p h _ lh (parents w index l _ long e) refl
          | inr c ↦ inr c
        ]
    descend zero fuel w index l [] root h n f long lh i m r v = absurd (omega arith)
    descend zero fuel w index l (p ∷ q ∷ rest) root h n f long lh i m r v = absurd (omega arith)
    descend (suc k) zero w index l proof root h n f long lh i m r v = absurd (omega arith)
    descend (suc k) (suc fuel) w index l [] root h n f long lh i m r v = absurd (omega arith)
    descend (suc k) (suc fuel) w index l (p ∷ []) root h n f long lh i m r v = absurd (omega arith)

    accepted_loop :
        (proof : List Text) (h root : Text) (index : ℕ)
        → verify_text sha256 proof h root index ≡ some true
        → (p0 : Text) × (rest : List Text) × (proof ≡ p0 ∷ rest)
          × (verify_loop sha256 root rest h index ≡ some true)
    unfolding verify_text
    accepted_loop [] h root index v = absurd (ground arith)
    accepted_loop (p0 ∷ []) h root index v = absurd (ground arith)
    accepted_loop (p0 ∷ p1 ∷ r) h root index v = (p0, p1 ∷ r, refl, ground arith)

    root_loop_of :
        (leaves : List Text) (k : ℕ) (root : Text)
        → length leaves ≡ 2 ^ k
        → compute_merkle_tree_root sha256 leaves ≡ some root
        → root_loop sha256 (length leaves) leaves ≡ root ∷ []
    unfolding compute_merkle_tree_root
    root_loop_of leaves k root n e =
        let (x, at) = head_of leaves (omega (arith, pow_positive k)) in
        let (path, top, c) =
          climb sha256 k (length leaves) leaves 0 x n (omega (arith, lt_pow k)) at in
        only (root_loop sha256 (length leaves) leaves) top root c.root e

    -- If `verify_merkle_proof` accepts a proof of k + 2 entries for `bh`, an index and the root of
    -- 2^k leaves of 16 characters, with the index below 2^k, then the leaf at that index is the text
    -- of `bh`, or two different texts with one SHA-256 value are at hand.
    pub verify_merkle_proof_sound :
        (leaves proof : List Text) (k index bh : ℕ) (root : Text)
        → length leaves ≡ 2 ^ k
        → AllLong 16 leaves
        → bh < 2 ^ 64
        → index < 2 ^ k
        → length proof ≡ k + 2
        → compute_merkle_tree_root sha256 leaves ≡ some root
        → verify_merkle_proof sha256 proof bh root index ≡ some true
        → (get_elem? leaves index ≡ some (blockhash_to_string bh)) ⊎ Collision
    unfolding verify_merkle_proof
    verify_merkle_proof_sound leaves proof k index bh root n long small i m e v =
        let (p0, rest, form, good) = accepted_loop proof (blockhash_to_string bh) root index v in
        descend k (length leaves) 16 index leaves rest root (blockhash_to_string bh) n
          (omega (arith, lt_pow k)) long (length-blockhash_to_string bh small) i
          (omega (arith, ap length form)) (root_loop_of leaves k root n e) good
