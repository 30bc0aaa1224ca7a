-- ===== src/Merkle/Level.antt =====
-- One level of the tree: how `pair_up`, the neighbour that a round pushes and one step of the check
-- fit together.
use snowball_dag_experiment.Base.{
  ℕ, zero, suc, ◌+◌, ◌-◌, ◌*◌, ◌/◌, ◌<◌, ◌≡◌, refl, ap, ◌∙◌, some, List, [], ◌∷◌, Text, length,
  get_elem?, arith,
}
use snowball_dag_experiment.Merkle.{pair_up, push_adjacent, adj_index, hash_step}

push_adjacent_below : (l : List Text) (i adj : ℕ) → adj < 2 * i → push_adjacent i adj l ≡ []
unfolding push_adjacent
push_adjacent_below [] i adj h = refl
push_adjacent_below (a ∷ []) i adj h = refl
push_adjacent_below (a ∷ b ∷ r) i adj h = ground (arith, push_adjacent_below r (i + 1) adj)

adj_index-two : (index : ℕ) → adj_index (suc (suc index)) ≡ adj_index index + 2
unfolding adj_index
adj_index-two index = ground arith

half-two : (index : ℕ) → suc (suc index) / 2 ≡ suc (index / 2)
half-two index = omega arith

push_adjacent-two :
    (a b : Text) (r : List Text) (j index : ℕ)
    → push_adjacent j (2 * j + adj_index (suc (suc index))) (a ∷ b ∷ r)
      ≡ push_adjacent (j + 1) (2 * (j + 1) + adj_index index) r
unfolding push_adjacent
push_adjacent-two a b r j index =
    rw (adj_index-two index)
      (ground (arith, ap (λ k. push_adjacent (j + 1) k r) (shift (adj_index index))))
  where
    shift : (d : ℕ) → 2 * j + (d + 2) ≡ 2 * (j + 1) + d
    shift d = omega arith

module _ (sha256 : Text → Text) where
  pub length-pair_up : (l : List Text) → length (pair_up sha256 l) ≡ length l / 2
  unfolding pair_up
  length-pair_up [] = omega arith
  length-pair_up (a ∷ []) = omega arith
  length-pair_up (a ∷ b ∷ r) = omega (arith, length-pair_up r)

  hash_step-two :
      (index : ℕ) (s x : Text) → hash_step sha256 (suc (suc index)) s x ≡ hash_step sha256 index s x
  unfolding hash_step
  hash_step-two index s x = ground arith

  -- At an even length the round pushes exactly one neighbour, and `hash_step` with it is the text of
  -- the next level at half the index.
  pub level_step :
      (l : List Text) (j m index : ℕ) (x : Text)
      → length l ≡ 2 * m
      → get_elem? l index ≡ some x
      → (s : Text) × (push_adjacent j (2 * j + adj_index index) l ≡ s ∷ [])
        × (get_elem? (pair_up sha256 l) (index / 2) ≡ some (hash_step sha256 index s x))
  unfolding push_adjacent adj_index pair_up hash_step
  level_step [] j m index x h e = absurd (ground arith)
  level_step (a ∷ []) j m index x h e = absurd (omega arith)
  level_step (a ∷ b ∷ r) j m zero x h e =
      (b, ground (arith, push_adjacent_below r (j + 1) (2 * j + 1)), ground arith)
  level_step (a ∷ b ∷ r) j m (suc zero) x h e =
      (a, ground (arith, push_adjacent_below r (j + 1) (2 * j + 0)), ground arith)
  level_step (a ∷ b ∷ r) j m (suc (suc index)) x h e =
      let (s, pushed, up) = level_step r (j + 1) (m - 1) index x (omega arith) e in
      (s, push_adjacent-two a b r j index ∙ pushed, rw (half-two index, hash_step-two index s x) up)
