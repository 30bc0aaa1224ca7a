-- ===== src/Base/Assoc.antt =====
-- `std::map`: a list of entries in the order of their keys, with one entry to a key.
use Prim.Native.Nat.{ℕ}
use mathlib.Core.Path.{◌≡◌, refl}
use mathlib.Core.Logic.{◌↔◌}
use mathlib.Core.Bool.{Bool, true, false}
use mathlib.Core.List.{List, [], ◌∷◌}
use mathlib.Core.Option.{Option, none, some}
use native.Mathlib.Omega.{arith}
use snowball_dag_experiment.Base.Tests.{ltb, ◌==◌, ==_iff, if◌then◌else◌}
use snowball_dag_experiment.Base.Strings.{Text, text_eq, text_eq_iff}
use snowball_dag_experiment.Base.Int.{ℤ, ltb_ℤ, eqb_ℤ, eqb_ℤ_iff}

-- The order of the keys.
pub record Key {ℓ} (K : Type ℓ) : Type ℓ where
  pub beq : K → K → Bool
  pub blt : K → K → Bool
  pub beq_iff : (a b : K) → (beq a b ≡ true) ↔ (a ≡ b)

abbrev eqb_ℕ : ℕ → ℕ → Bool
eqb_ℕ a b = a == b

instance abbrev pub nat_key : Key ℕ
nat_key = record { beq = eqb_ℕ; blt = ltb; beq_iff = ==_iff }

instance abbrev pub int_key : Key ℤ
int_key = record { beq = eqb_ℤ; blt = ltb_ℤ; beq_iff = eqb_ℤ_iff }

-- The order of `std::string`.
abbrev pub blt_Text : Text → Text → Bool
blt_Text [] [] = false
blt_Text [] (d ∷ t) = true
blt_Text (c ∷ s) [] = false
blt_Text (c ∷ s) (d ∷ t) = if c == d then blt_Text s t else ltb c d

instance abbrev pub text_key : Key Text
text_key = record { beq = text_eq; blt = blt_Text; beq_iff = text_eq_iff }

module _ {ℓ κ} {K : Type ℓ} {V : Type κ} ⦃o : Key K⦄ where
  unfoldable pub find : K → List (K × V) → Option V
  find k [] = none
  find k ((j, v) ∷ m) = if o.beq j k then some v else find k m

  -- `m.find(k) != m.end()`
  unfoldable pub has : K → List (K × V) → Bool
  unfolding find
  has k m = elim (find k m) [ none ↦ false | some v ↦ true ]

  unfoldable pub put : K → V → List (K × V) → List (K × V)
  put k v [] = (k, v) ∷ []
  put k v ((j, w) ∷ m) = if o.blt k j then (k, v) ∷ (j, w) ∷ m else (j, w) ∷ put k v m

  -- `m.insert(make_pair(k, v))` keeps an entry that is there.
  unfoldable pub insert : K → V → List (K × V) → List (K × V)
  insert k v m = elim (find k m) [ none ↦ put k v m | some w ↦ m ]

  unfoldable pub erase : K → List (K × V) → List (K × V)
  erase k [] = []
  erase k ((j, v) ∷ m) = if o.beq j k then erase k m else (j, v) ∷ erase k m

  -- `m.find(k)->second = v`
  unfoldable pub assign : K → V → List (K × V) → List (K × V)
  assign k v [] = []
  assign k v ((j, w) ∷ m) = if o.beq j k then (j, v) ∷ assign k v m else (j, w) ∷ assign k v m

  find-put :
      (k j : K) (v : V) (m : List (K × V))
      → find k m ≡ none
      → find j (put k v m) ≡ (if o.beq k j then some v else find j m)
  unfolding find put
  find-put k j v [] h = refl
  find-put k j v ((i, w) ∷ m) h =
      ground (arith, o.beq_iff k j, o.beq_iff i k, o.beq_iff i j, find-put k j v m)

  pub find-insert :
      (k j : K) (v : V) (m : List (K × V))
      → find j (insert k v m)
        ≡ (elim (find j m) [ none ↦ if o.beq k j then some v else none | some w ↦ some w ])
  unfolding insert
  find-insert k j v m = ground (arith, find-put k j v m, o.beq_iff k j)

  pub find-erase :
      (k j : K) (m : List (K × V)) → find j (erase k m) ≡ (if o.beq k j then none else find j m)
  unfolding find erase
  find-erase k j [] = ground (arith)
  find-erase k j ((i, w) ∷ m) =
      ground (arith, o.beq_iff k j, o.beq_iff i k, o.beq_iff i j, find-erase k j m)

  pub find-assign :
      (k j : K) (v : V) (m : List (K × V))
      → find j (assign k v m)
        ≡ (elim (find j m) [ none ↦ none | some w ↦ if o.beq k j then some v else some w ])
  unfolding find assign
  find-assign k j v [] = refl
  find-assign k j v ((i, w) ∷ m) =
      ground (arith, o.beq_iff k j, o.beq_iff i k, o.beq_iff i j, find-assign k j v m)
