-- ===== src/Merkle.antt =====
-- The Merkle functions of Snowball_Main/code/verify.cpp.
pub mod Level
pub mod Complete
pub mod Sound
pub mod Padding
use snowball_dag_experiment.Base.{
  ℕ, zero, suc, ◌+◌, ◌-◌, ◌*◌, ◌/◌, ◌%◌, Bool, false, not, ◌&&◌, ◌||◌, Option, none, some, List, [],
  ◌∷◌, ◌++◌, Text, text_eq, ◌==◌, ltb, if◌then◌else◌, length, get_elem?,
}
use snowball_dag_experiment.Numbers.{blockhash_to_string}

-- The pushes of one round: `i` counts the pairs.
unfoldable pub push_adjacent : ℕ → ℕ → List Text → List Text
push_adjacent i adj [] = []
push_adjacent i adj (a ∷ []) = []
push_adjacent i adj (a ∷ b ∷ r) =
    let rest = push_adjacent (i + 1) adj r in
    if (2 * i == adj) || (2 * i + 1 == adj) then (if 2 * i == adj then a else b) ∷ rest else rest

unfoldable pub adj_index : ℕ → ℕ
adj_index index = if index % 2 == 0 then index + 1 else index - 1

-- The leaf in front and `tmp[0]` behind.
unfoldable pub push_root : Text → List Text × List Text → Option (List Text)
push_root leaf (path, []) = none
push_root leaf (path, top ∷ tmp) = some (leaf ∷ (path ++ (top ∷ [])))

-- `sha256` of crypto_stuff.cpp is OpenSSL's: a parameter.
module _ (sha256 : Text → Text) where
  -- One round of the `while` loop: the texts of `tmp2` taken two by two; an odd last one is dropped.
  unfoldable pub pair_up : List Text → List Text
  pair_up [] = []
  pair_up (a ∷ []) = []
  pair_up (a ∷ b ∷ r) = sha256 (a ++ b) ∷ pair_up r

  -- `while (tmp.size() > 1)`, and the list that is left.
  unfoldable pub root_loop : ℕ → List Text → List Text
  root_loop zero tmp = tmp
  root_loop (suc fuel) tmp =
      let rest = root_loop fuel (pair_up tmp) in if ltb 1 (length tmp) then rest else tmp

  -- `none` is the read of `tmp[0]` where there is no leaf.
  unfoldable pub compute_merkle_tree_root : List Text → Option Text
  unfolding root_loop
  compute_merkle_tree_root leaves = get_elem? (root_loop (length leaves) leaves) 0

  -- What the rounds push, and the list that is left.
  unfoldable pub proof_loop : ℕ → List Text → ℕ → List Text × List Text
  proof_loop zero tmp index = ([], tmp)
  proof_loop (suc fuel) tmp index =
      let rest = proof_loop fuel (pair_up tmp) (index / 2) in
      if ltb 1 (length tmp)
      then (push_adjacent 0 (adj_index index) tmp ++ rest.0, rest.1)
      else ([], tmp)

  -- `none` is a read out of range, of `leaves[index]` or of `tmp[0]`.
  unfoldable pub compute_merkle_proof : List Text → ℕ → Option (List Text)
  compute_merkle_proof leaves index = elim (get_elem? leaves index) [
    | none ↦ none
    | some leaf ↦ push_root leaf (proof_loop (length leaves) leaves index)
  ]

  -- One step up from `h` with the neighbour `p`.
  unfoldable pub hash_step : ℕ → Text → Text → Text
  hash_step index p h = if index % 2 == 0 then sha256 (h ++ p) else sha256 (p ++ h)

  -- The loop of `verify_merkle_proof` over `proof[i]`, `proof[i + 1]`, …, and the check of the last.
  unfoldable pub verify_loop : Text → List Text → Text → ℕ → Option Bool
  verify_loop root [] h index = none
  verify_loop root (p ∷ []) h index = some (text_eq p h && text_eq root h)
  verify_loop root (p ∷ q ∷ r) h index = verify_loop root (q ∷ r) (hash_step index p h) (index / 2)

  -- The check of `proof[0]` and `proof[1]`, and then the loop.
  unfoldable pub verify_text : List Text → Text → Text → ℕ → Option Bool
  verify_text [] h root index = none
  verify_text (p0 ∷ []) h root index = none
  verify_text (p0 ∷ p1 ∷ r) h root index =
      if not (text_eq p0 h) && not (text_eq p1 h)
      then some false
      else verify_loop root (p1 ∷ r) h index

  -- `none` is a read of `proof` out of range.
  unfoldable pub verify_merkle_proof : List Text → ℕ → Text → ℕ → Option Bool
  unfolding verify_text
  verify_merkle_proof proof bh root index = verify_text proof (blockhash_to_string bh) root index
