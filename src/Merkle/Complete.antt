-- ===== src/Merkle/Complete.antt =====
-- The proof that `compute_merkle_proof` makes is accepted against the root of the same leaves.
use snowball_dag_experiment.Base.{
  ℕ, zero, suc, ◌+◌, ◌*◌, ◌/◌, ◌^◌, ◌≤◌, ◌<◌, ◌≡◌, refl, ap, subst, ◌∙◌, true, some, List, [], ◌∷◌,
  ◌++◌, Text, lt→ltb, length, length-append, get_elem?, arith, text_eq_refl,
}
use native.Mathlib.Nat.{pow-suc}
use snowball_dag_experiment.Numbers.{blockhash_to_string}
use snowball_dag_experiment.Merkle.{
  pair_up, root_loop, compute_merkle_tree_root, push_adjacent, adj_index, proof_loop,
  compute_merkle_proof, push_root, hash_step, verify_loop, verify_text, verify_merkle_proof,
}
use snowball_dag_experiment.Merkle.Level.{length-pair_up, level_step}

pub pow_positive : (k : ℕ) → 0 < 2 ^ k
pow_positive zero = omega arith
pow_positive (suc k) = rw (pow-suc 2 k) (omega (arith, pow_positive k))

pub lt_pow : (k : ℕ) → k < 2 ^ k
lt_pow zero = omega arith
lt_pow (suc k) = rw (pow-suc 2 k) (omega (arith, lt_pow k))

module _ (sha256 : Text → Text) where
  pub verify_loop-cons :
      (root p t h : Text) (path : List Text) (index : ℕ)
      → verify_loop sha256 root (p ∷ (path ++ (t ∷ []))) h index
        ≡ verify_loop sha256 root (path ++ (t ∷ [])) (hash_step sha256 index p h) (index / 2)
  unfolding verify_loop
  verify_loop-cons root p t h [] index = refl
  verify_loop-cons root p t h (q ∷ path) index = refl

  verify_text-cons :
      (root t h : Text) (path : List Text) (index : ℕ)
      → verify_text sha256 (h ∷ (path ++ (t ∷ []))) h root index
        ≡ verify_loop sha256 root (path ++ (t ∷ [])) h index
  unfolding verify_text
  verify_text-cons root t h [] index = rw (text_eq_refl h) refl
  verify_text-cons root t h (q ∷ path) index = rw (text_eq_refl h) refl

  -- What the two loops leave on a full tree of height `k`, and that the check climbs to the same top.
  pub record Climbs (k fuel : ℕ) (l : List Text) (index : ℕ) (x : Text) (path : List Text)
      (top : Text) : Type 0 where
    pub proof : proof_loop sha256 fuel l index ≡ (path, top ∷ [])
    pub root : root_loop sha256 fuel l ≡ top ∷ []
    pub good : verify_loop sha256 top (path ++ (top ∷ [])) x index ≡ some true
    pub size : length path ≡ k

  climb_leaf :
      (fuel : ℕ) (l : List Text) (index : ℕ) (x : Text)
      → length l ≡ 1
      → get_elem? l index ≡ some x
      → Climbs 0 fuel l index x [] x
  unfolding proof_loop root_loop verify_loop
  climb_leaf fuel [] index x h e = absurd (omega arith)
  climb_leaf fuel (a ∷ b ∷ l) index x h e = absurd (omega arith)
  climb_leaf fuel (a ∷ []) (suc index) x h e = absurd (ground arith)
  climb_leaf zero (a ∷ []) zero x h e = record {
    proof = ground arith;
    root = ground arith;
    good = rw (text_eq_refl x) refl;
    size = refl;
  }
  climb_leaf (suc fuel) (a ∷ []) zero x h e = record {
    proof = ground arith;
    root = ground arith;
    good = rw (text_eq_refl x) refl;
    size = refl;
  }

  -- One round of both loops over more than one text.
  module _ (fuel : ℕ) (l : List Text) (more : 1 < length l) where
    pub root_loop-round : root_loop sha256 (suc fuel) l ≡ root_loop sha256 fuel (pair_up sha256 l)
    unfolding root_loop
    root_loop-round = rw (lt→ltb 1 (length l) more) refl

    proof_loop-round :
        (index : ℕ) (s : Text) (path tops : List Text)
        → push_adjacent 0 (2 * 0 + adj_index index) l ≡ s ∷ []
        → proof_loop sha256 fuel (pair_up sha256 l) (index / 2) ≡ (path, tops)
        → proof_loop sha256 (suc fuel) l index ≡ (s ∷ path, tops)
    unfolding proof_loop
    proof_loop-round index s path tops pushed rest =
        let pushed' : push_adjacent 0 (adj_index index) l ≡ s ∷ [] =
          subst (λ a. push_adjacent 0 a l ≡ s ∷ []) (omega arith) pushed in
        rw (lt→ltb 1 (length l) more, rest, pushed') refl

  pub climb :
      (k fuel : ℕ) (l : List Text) (index : ℕ) (x : Text)
      → length l ≡ 2 ^ k
      → k ≤ fuel
      → get_elem? l index ≡ some x
      → (path : List Text) × (top : Text) × Climbs k fuel l index x path top
  climb zero fuel l index x h f e = ([], x, climb_leaf fuel l index x h e)
  climb (suc k) zero l index x h f e = absurd (omega arith)
  climb (suc k) (suc fuel) l index x h f e =
      let two : length l ≡ 2 * 2 ^ k = h ∙ rw (pow-suc 2 k) (omega arith) in
      let half : length (pair_up sha256 l) ≡ 2 ^ k = omega (arith, length-pair_up sha256 l) in
      let more : 1 < length l = omega (arith, pow_positive k) in
      let (s, pushed, up) = level_step sha256 l 0 (2 ^ k) index x two e in
      let (path, top, c) =
        climb k fuel (pair_up sha256 l) (index / 2) (hash_step sha256 index s x) half (omega arith)
          up in
      (
        s ∷ path,
        top,
        record {
          proof = proof_loop-round fuel l more index s path (top ∷ []) pushed c.proof;
          root = root_loop-round fuel l more ∙ c.root;
          good = verify_loop-cons top s top x path index ∙ c.good;
          size = ap suc c.size;
        },
      )

  -- Both functions, given what their loops leave.
  module _ (leaves path : List Text) (top : Text) where
    compute_merkle_proof_of :
        (index : ℕ) (leaf : Text)
        → get_elem? leaves index ≡ some leaf
        → proof_loop sha256 (length leaves) leaves index ≡ (path, top ∷ [])
        → compute_merkle_proof sha256 leaves index ≡ some (leaf ∷ (path ++ (top ∷ [])))
    unfolding compute_merkle_proof push_root
    compute_merkle_proof_of index leaf e p = rw (e, compute_merkle_proof) (ap (push_root leaf) p)

    compute_merkle_tree_root_of :
        root_loop sha256 (length leaves) leaves ≡ top ∷ []
        → compute_merkle_tree_root sha256 leaves ≡ some top
    unfolding compute_merkle_tree_root
    compute_merkle_tree_root_of r = ap (λ t. get_elem? t 0) r

  -- Over 2^k leaves the proof made for a leaf that is the text of `bh` has k + 2 entries, and
  -- `verify_merkle_proof` accepts it for `bh`, the index of the leaf and the root of the leaves.
  pub verify_merkle_proof-compute_merkle_proof :
      (leaves : List Text) (k index bh : ℕ)
      → length leaves ≡ 2 ^ k
      → get_elem? leaves index ≡ some (blockhash_to_string bh)
      → (proof : List Text) × (root : Text) × (compute_merkle_proof sha256 leaves index
          ≡ some proof)
        × (compute_merkle_tree_root sha256 leaves ≡ some root)
        × (length proof ≡ k + 2)
        × (verify_merkle_proof sha256 proof bh root index ≡ some true)
  unfolding verify_merkle_proof
  verify_merkle_proof-compute_merkle_proof leaves k index bh h e =
      let leaf = blockhash_to_string bh in
      let (path, top, c) =
        climb k (length leaves) leaves index leaf h (omega (arith, lt_pow k)) e in
      (
        leaf ∷ (path ++ (top ∷ [])),
        top,
        compute_merkle_proof_of leaves path top index leaf e c.proof,
        compute_merkle_tree_root_of leaves path top c.root,
        omega (arith, length-append path (top ∷ []), c.size),
        verify_text-cons top top leaf path index ∙ c.good,
      )
