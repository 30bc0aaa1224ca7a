-- ===== src/Examples/Codes.antt =====
-- Tests of Numbers and Merkle; the digest is a toy one, the first 64 characters of the padded text.
use snowball_dag_experiment.Base.{
  ℕ, ◌+◌, ◌≡◌, refl, some, List, [], ◌∷◌, ◌++◌, arith, length, get_elem?, take, replicate, Text,
  ◌⊎◌, length-append, length-take, length-replicate, true,
}
use snowball_dag_experiment.Base.Strings.{text_eq}
use snowball_dag_experiment.Numbers.{digit, digits, blockhash_to_string, stoull, to_string}
use snowball_dag_experiment.Numbers.RoundTrip.{stoull-to_string, length-blockhash_to_string}
use snowball_dag_experiment.Merkle.{
  pair_up, verify_loop, hash_step, compute_merkle_tree_root, compute_merkle_proof,
  verify_merkle_proof,
}
use snowball_dag_experiment.Merkle.Complete.{verify_merkle_proof-compute_merkle_proof}
use snowball_dag_experiment.Merkle.Sound.{verify_merkle_proof_sound, Collision, AllLong}

stoull-to_string_example : stoull 10 (to_string 1200) ≡ some 1200
stoull-to_string_example = stoull-to_string 1200 (omega arith)

abbrev digest : Text → Text
digest t = take 64 (t ++ replicate 64 48)

length-padded : (n : ℕ) (t : Text) → length (take n (t ++ replicate n 48)) ≡ n
length-padded n t = omega (
  arith,
  length-take n (t ++ replicate n 48),
  length-append t (replicate n 48),
  length-replicate {A = ℕ} n 48,
)

digest_wide : (t : Text) → length (digest t) ≡ 64
digest_wide t = length-padded 64 t

abbrev leaves : List Text
leaves = blockhash_to_string 10 ∷ blockhash_to_string 11 ∷ []

abbrev root : Text
root = digest (blockhash_to_string 10 ++ blockhash_to_string 11)

abbrev proof : List Text
proof = blockhash_to_string 11 ∷ blockhash_to_string 10 ∷ root ∷ []

verify_merkle_proof-compute_merkle_proof_example :
    (p : List Text) × (r : Text) × (compute_merkle_proof digest leaves 1 ≡ some p)
    × (compute_merkle_tree_root digest leaves ≡ some r)
    × (length p ≡ 1 + 2)
    × (verify_merkle_proof digest p 11 r 1 ≡ some true)
verify_merkle_proof-compute_merkle_proof_example =
    verify_merkle_proof-compute_merkle_proof digest leaves 1 1 11 refl refl

root_of_leaves : compute_merkle_tree_root digest leaves ≡ some root
unfolding compute_merkle_tree_root pair_up
root_of_leaves = refl

proof_accepted : verify_merkle_proof digest proof 11 root 1 ≡ some true
unfolding verify_merkle_proof blockhash_to_string text_eq digits digit verify_loop hash_step
proof_accepted = refl

leaves_long : AllLong 16 leaves
leaves_long =
    (length-blockhash_to_string 10 (omega arith), (length-blockhash_to_string 11 (omega arith), tt))

verify_merkle_proof_sound_example :
    (get_elem? leaves 1 ≡ some (blockhash_to_string 11)) ⊎ Collision digest
verify_merkle_proof_sound_example =
    verify_merkle_proof_sound digest digest_wide leaves proof 1 1 11 root refl leaves_long
      (omega arith) (omega arith) refl root_of_leaves proof_accepted
