-- ===== src/Split.antt =====
-- `split` of Snowball_Main/code/misc.cpp.
pub mod Tokens
use snowball_dag_experiment.Base.{
  ℕ, zero, suc, ◌+◌, ◌-◌, Bool, true, false, ◌&&◌, List, [], ◌∷◌, Text, ◌==◌, ltb, if◌then◌else◌,
  length, take, drop,
}

unfoldable pub starts_with : Text → Text → Bool
starts_with [] s = true
starts_with (d ∷ ds) [] = false
starts_with (d ∷ ds) (c ∷ s) = (d == c) && starts_with ds s

-- `find`, with the length of the text for `npos`.
unfoldable pub find_text : Text → Text → ℕ
unfolding starts_with
find_text delim [] = 0
find_text delim (c ∷ s) =
    let rest = find_text delim s in if starts_with delim (c ∷ s) then 0 else suc rest

-- The rounds of the loop from `prev` on.
unfoldable pub split_loop : ℕ → Text → Text → ℕ → List Text
unfolding find_text
split_loop zero str delim prev = []
split_loop (suc fuel) str delim prev =
    let pos = prev + find_text delim (drop prev str) in
    let token = take (pos - prev) (drop prev str) in
    let next = pos + length delim in
    let rest = split_loop fuel str delim next in
    if ltb pos (length str) && ltb next (length str) then token ∷ rest else token ∷ []

-- Each round but the last moves `prev` on, where the delimiter is not empty.
unfoldable pub split : Text → Text → List Text
unfolding split_loop
split str delim = split_loop (suc (length str)) str delim 0
