-- ===== src/Buffer.antt =====
-- The frame of `process_buffer` in Snowball_Main/code/process_buffer.cpp: how the bytes from a peer are
-- cut into messages. What is done with one message is an argument; it says whether the message was parsed.
pub mod Stream
pub mod Kept
use snowball_dag_experiment.Base.{
  ℕ, zero, suc, ◌+◌, ◌-◌, Bool, true, false, not, ◌&&◌, Option, none, some, List, [], ◌∷◌, ◌++◌,
  Text, ◌==◌, ltb, if◌then◌else◌, length, take, drop,
}
use snowball_dag_experiment.Base.Outcome.{Outcome, done, ◌>>=◌}

-- The places of "#", from the `i`-th byte on.
unfoldable pub positions : ℕ → Text → List ℕ
positions i [] = []
positions i (c ∷ s) = let rest = positions (suc i) s in if c == 35 then i ∷ rest else rest

-- Whether the last byte is "!".
unfoldable pub is_complete : Text → Bool
is_complete [] = false
is_complete (c ∷ []) = c == 33
is_complete (c ∷ d ∷ s) = is_complete (d ∷ s)

abbrev pub is_last : List ℕ → Bool
is_last [] = true
is_last (p ∷ ps) = false

module _ {S : Type 0} (handle : Text → S → Outcome (Bool × S)) (m : Text) where
  -- The loop, with `positions[p]` at its end. A message that is not parsed ends it if it is the last.
  unfoldable pub buffer_loop : List ℕ → S → Outcome (ℕ × S)
  unfolding is_complete
  buffer_loop [] s = done (0, s)
  buffer_loop (p ∷ []) s = done (p, s)
  buffer_loop (p ∷ q ∷ ps) s =
      let w = take (q - p) (drop p m) in
      if is_complete w
      then (do
        x ← handle (take (length w - 1) w) s
        (if not x.0 && is_last ps then done (p, x.1) else buffer_loop (q ∷ ps) x.1))
      else done (p, s)

-- What is left of the buffer.
unfoldable pub keep_from : Text → ℕ → Text
keep_from m p = if ltb p (length m) then drop p m else []

-- `none` is `exit(0)`.
unfoldable pub process_buffer :
    {S : Type 0} → Bool → (Text → S → Outcome (Bool × S)) → Text → S → Outcome (Option (Text × S))
unfolding positions buffer_loop keep_from
process_buffer print_transmission_errors handle [] s =
    if print_transmission_errors then done none else done (some ([], s))
process_buffer print_transmission_errors handle (c ∷ r) s =
    let m = c ∷ r in
    if c == 35
    then (do
      x ← buffer_loop handle m (positions 0 m ++ ((length m + 1) ∷ [])) s
      done (some (keep_from m x.0, x.1)))
    else if print_transmission_errors
    then done none
    else done (some ([], s))
