-- ===== src/Merkle/Padding.antt =====
-- The complete binary tree that miner.cpp and transactions.cpp in Snowball_Main/code make of the leaves.
use snowball_dag_experiment.Base.{
  ℕ, zero, suc, ◌+◌, ◌-◌, ◌%◌, ◌^◌, ◌≤◌, ◌<◌, ◌≡◌, some, List, [], ◌∷◌, ◌++◌, Text, length,
  length-append, get_elem?, replicate, length-replicate, arith,
}

-- `EMPTY_LEAF`
abbrev pub empty_leaf : Text
empty_leaf = replicate 32 48

-- `tot_size_add`, and the loop that pushes as many empty leaves. `ceil_power n` is the `int` that the
-- floating-point expression `pow(2, ceil(log(n) / log(2)))` gives, which is a parameter.
unfoldable pub pad_leaves : (ℕ → ℕ) → List Text → List Text
pad_leaves ceil_power leaves =
    let size = length leaves in
    leaves ++ replicate ((ceil_power size + 2 ^ 64 - size) % 2 ^ 64 % 2 ^ 32) empty_leaf

get_elem?-append_left :
    (l r : List Text) (i : ℕ) (t : Text) → get_elem? l i ≡ some t → get_elem? (l ++ r) i ≡ some t
get_elem?-append_left [] r i t e = absurd (cc)
get_elem?-append_left (a ∷ l) r zero t e = e
get_elem?-append_left (a ∷ l) r (suc i) t e = get_elem?-append_left l r i t e

-- What the expression is for: a size that is not below the number of leaves, and fits an `int`.
pub record Ceils (ceil_power : ℕ → ℕ) (n k : ℕ) : Type 0 where
  pub power : ceil_power n ≡ 2 ^ k
  pub enough : n ≤ 2 ^ k
  pub fits : 2 ^ k < 2 ^ 31

pub length-pad_leaves :
    (ceil_power : ℕ → ℕ) (leaves : List Text) (k : ℕ)
    → Ceils ceil_power (length leaves) k
    → length (pad_leaves ceil_power leaves) ≡ 2 ^ k
unfolding pad_leaves
length-pad_leaves ceil_power leaves k c =
    let size = length leaves in
    let more = (ceil_power size + 2 ^ 64 - size) % 2 ^ 64 % 2 ^ 32 in
    omega (
      arith,
      length-append leaves (replicate more empty_leaf),
      length-replicate more empty_leaf,
      c.power,
      c.enough,
      c.fits,
    )

pub get_elem?-pad_leaves :
    (ceil_power : ℕ → ℕ) (leaves : List Text) (i : ℕ) (t : Text)
    → get_elem? leaves i ≡ some t
    → get_elem? (pad_leaves ceil_power leaves) i ≡ some t
unfolding pad_leaves
get_elem?-pad_leaves ceil_power leaves i t e = get_elem?-append_left leaves _ i t e
