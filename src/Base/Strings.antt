-- ===== src/Base/Strings.antt =====
-- Byte strings (`std::string`) and their equality test.
use Prim.Native.Nat.{ℕ}
use Prim.Native.Char.{code}
use Prim.Native.String.{String}
use mathlib.Core.Path.{◌≡◌, refl, ap}
use mathlib.Core.Logic.{◌≢◌, ◌↔◌, ◌⊎◌, inl, inr}
use mathlib.Core.Bool.{Bool, true, false, ◌&&◌}
use mathlib.Core.List.{List, [], ◌∷◌, ◌++◌}
use native.Mathlib.Omega.{arith}
use snowball_dag_experiment.Base.Tests.{◌==◌, Bool-cases}
use snowball_dag_experiment.Base.Lists.{length}

abbrev pub Text : Type 0
Text = List ℕ

-- The bytes of a literal.
abbrev pub bytes : String → Text
bytes String.[] = []
bytes (String.◌∷◌ c s) = code c ∷ bytes s

abbrev pub concat : List Text → Text
concat [] = []
concat (t ∷ l) = t ++ concat l

-- `size() > 0`
abbrev pub is_full : Text → Bool
is_full [] = false
is_full (c ∷ t) = true

-- `==` of two strings.
unfoldable pub text_eq : Text → Text → Bool
text_eq [] [] = true
text_eq [] (y ∷ ys) = false
text_eq (x ∷ xs) [] = false
text_eq (x ∷ xs) (y ∷ ys) = (x == y) && text_eq xs ys

pub text_eq→eq : (a b : Text) → text_eq a b ≡ true → a ≡ b
unfolding text_eq
text_eq→eq [] [] h = refl
text_eq→eq [] (y ∷ ys) h = cc
text_eq→eq (x ∷ xs) [] h = cc
text_eq→eq (x ∷ xs) (y ∷ ys) h = ground (arith, text_eq→eq xs ys)

pub text_eq_refl : (a : Text) → text_eq a a ≡ true
unfolding text_eq
text_eq_refl [] = refl
text_eq_refl (x ∷ xs) = ground (arith, text_eq_refl xs)

pub text_eq_iff : (a b : Text) → (text_eq a b ≡ true) ↔ (a ≡ b)
text_eq_iff a b = (text_eq→eq a b, λ e. rw e (text_eq_refl b))

pub Text-cases : (a b : Text) → (a ≡ b) ⊎ (a ≢ b)
Text-cases a b = elim (Bool-cases (text_eq a b)) [
  | inl h ↦ inl (text_eq→eq a b h)
  | inr h ↦ inr (λ e. cc (text_eq_refl b, ap (λ t. text_eq t b) e))
]

-- Of two equal concatenations the parts are equal, if the first parts are as long.
pub append-injective {ℓ} :
    {A : Type ℓ} (a b c d : List A) → length a ≡ length c → (a ++ b) ≡ (c ++ d) → (a ≡ c) × (b ≡ d)
append-injective [] b [] d h e = (refl, e)
append-injective [] b (y ∷ c) d h e = absurd (omega arith)
append-injective (x ∷ a) b [] d h e = absurd (omega arith)
append-injective (x ∷ a) b (y ∷ c) d h e = ground (arith, append-injective a b c d)
