-- ===== src/Split/Tokens.antt =====
-- `split` of misc.cpp at a single character, as a recursion on the text; what it makes of a text that
-- was joined from fields.
use snowball_dag_experiment.Base.{
  ℕ, zero, suc, ◌+◌, ◌-◌, ◌<◌, ◌≡◌, ◌≢◌, refl, sym, ap, ◌∙◌, inl, inr, Bool, true, false, not, ◌&&◌,
  List, [], ◌∷◌, ◌++◌, Text, ◌==◌, ltb, if◌then◌else◌, length, length-append, take, drop, arith,
  All, Bool-cases,
}
use mathlib.Core.List.{append_assoc, append-nil}
use snowball_dag_experiment.Split.{find_text, split_loop, split}

abbrev pub Free : ℕ → Text → Type 0
Free d t = All (λ c. (c == d) ≡ false) t

abbrev pub is_free : ℕ → Text → Bool
is_free d [] = true
is_free d (c ∷ t) = not (c == d) && is_free d t

-- A literal is free of a delimiter by computation.
pub Free-is_free : (d : ℕ) (t : Text) → is_free d t ≡ true → Free d t
Free-is_free d [] h = tt
Free-is_free d (c ∷ t) h = elim (Bool-cases (c == d)) [
  | inl e ↦ absurd (cc (e, h))
  | inr e ↦ (e, Free-is_free d t (ap (λ b. not b && is_free d t) (sym e) ∙ h))
]

unfoldable pub push_char : ℕ → List Text → List Text
push_char c [] = (c ∷ []) ∷ []
push_char c (t ∷ l) = (c ∷ t) ∷ l

abbrev unless_empty : Text → List Text → List Text
unless_empty [] l = []
unless_empty (c ∷ s) l = l

-- The fields between the delimiters; an empty one at the end is dropped, but for the first.
unfoldable pub tokens : ℕ → Text → List Text
unfolding push_char
tokens d [] = [] ∷ []
tokens d (c ∷ s) =
    let rest = tokens d s in if c == d then [] ∷ unless_empty s rest else push_char c rest

-- The first delimiter of a text, if it has one.
pub data Cut (d : ℕ) (s : Text) : Type 0 where
  absent : Free d s → Cut d s
  at : (t r : Text) → Free d t → s ≡ t ++ (d ∷ r) → Cut d s

pub cut : (d : ℕ) (s : Text) → Cut d s
cut d [] = absent tt
cut d (c ∷ s) = elim (Bool-cases (c == d)) [
  | inl e ↦ let same : c ≡ d = ground arith in at [] s tt (ap (λ x. x ∷ s) same)
  | inr e ↦ elim (cut d s) [
    | absent f ↦ absent (e, f)
    | at t r f q ↦ at (c ∷ t) r (e, f) (ap (λ x. c ∷ x) q)
  ]
]

tokens-absent : (d : ℕ) (t : Text) → Free d t → tokens d t ≡ t ∷ []
unfolding tokens
tokens-absent d [] f = refl
tokens-absent d (c ∷ t) f = rw (f.0, tokens-absent d t f.1) refl

tokens-at :
    (d : ℕ) (t r : Text) → Free d t → tokens d (t ++ (d ∷ r)) ≡ t ∷ unless_empty r (tokens d r)
unfolding tokens
tokens-at d [] r f = let same : (d == d) ≡ true = ground arith in rw same refl
tokens-at d (c ∷ t) r f = rw (f.0, tokens-at d t r f.1) refl

pub find_text-absent : (d : ℕ) (t : Text) → Free d t → find_text (d ∷ []) t ≡ length t
unfolding find_text
find_text-absent d [] f = refl
find_text-absent d (c ∷ t) f = ground (arith, find_text-absent d t f.1)

pub find_text-at : (d : ℕ) (t r : Text) → Free d t → find_text (d ∷ []) (t ++ (d ∷ r)) ≡ length t
unfolding find_text
find_text-at d [] r f = ground arith
find_text-at d (c ∷ t) r f = ground (arith, find_text-at d t r f.1)

pub drop-length {ℓ} : {A : Type ℓ} (u s : List A) → drop (length u) (u ++ s) ≡ s
drop-length [] s = refl
drop-length (c ∷ u) s = drop-length u s

pub take-length : (u s : Text) → take (length u) (u ++ s) ≡ u
take-length [] s = refl
take-length (c ∷ u) s = ap (λ r. c ∷ r) (take-length u s)

-- One round of the loop, where `s` is the text from `prev` on and its first token ends at `k`.
split_loop-round :
    (fuel : ℕ) (str : Text) (d prev k : ℕ) (s : Text)
    → drop prev str ≡ s
    → find_text (d ∷ []) s ≡ k
    → split_loop (suc fuel) str (d ∷ []) prev ≡ (
        if ltb (prev + k) (length str) && ltb (prev + k + 1) (length str)
        then take k s ∷ split_loop fuel str (d ∷ []) (prev + k + 1)
        else take k s ∷ [])
unfolding split_loop
split_loop-round fuel str d prev k s e f =
    let back : prev + k - prev ≡ k = omega arith in rw (e, f, back) refl

-- The choice after a token: the loop goes on where the text does.
after_token :
    (n l : ℕ) (t r : Text) (more : List Text)
    → l ≡ n + 1 + length r
    → (if ltb n l && ltb (n + 1) l then t ∷ more else t ∷ []) ≡ t ∷ unless_empty r more
after_token n l t [] more e = ground arith
after_token n l t (c ∷ r) more e = ground arith

-- Enough fuel for the rest of the text gives its tokens.
split_loop-tokens :
    (fuel d : ℕ) (u s str : Text)
    → str ≡ u ++ s
    → length s < fuel
    → split_loop fuel str (d ∷ []) (length u) ≡ tokens d s
split_loop-tokens zero d u s str e lt = absurd (omega arith)
split_loop-tokens (suc fuel) d u s str e lt =
    let here : drop (length u) str ≡ s = ap (drop (length u)) e ∙ drop-length u s in
    let total : length str ≡ length u + length s = ap length e ∙ length-append u s in
    elim (cut d s) [
      | absent f ↦
          let ends : ltb (length u + length s) (length str) ≡ false = ground arith in
          let whole : take (length s) s ≡ s =
            ap (take (length s)) (sym (append-nil s)) ∙ take-length s [] in
          split_loop-round fuel str d (length u) (length s) s here (find_text-absent d s f)
          ∙ rw (ends, whole) (sym (tokens-absent d s f))
      | at t r f q ↦
          let k = length t in
          let token : take k s ≡ t = ap (take k) q ∙ take-length t (d ∷ r) in
          let size : length s ≡ k + suc (length r) = ap length q ∙ length-append t (d ∷ r) in
          let u' = u ++ (t ++ (d ∷ [])) in
          let next : length u' ≡ length u + k + 1 =
            omega (arith, length-append u (t ++ (d ∷ [])), length-append t (d ∷ [])) in
          let splits : str ≡ u' ++ r =
            e
            ∙ ap (λ x. u ++ x) (q ∙ sym (append_assoc t (d ∷ []) r))
            ∙ sym (append_assoc u (t ++ (d ∷ [])) r) in
          let later = split_loop-tokens fuel d u' r str splits (omega arith) in
          let continued : split_loop fuel str (d ∷ []) (length u + k + 1) ≡ tokens d r =
            ap (split_loop fuel str (d ∷ [])) (sym next) ∙ later in
          split_loop-round fuel str d (length u) k s here
            (ap (find_text (d ∷ [])) q ∙ find_text-at d t r f)
          ∙ rw (token, continued)
              (after_token (length u + k) (length str) t r (tokens d r) (omega arith))
          ∙ sym (ap (tokens d) q ∙ tokens-at d t r f)
    ]

-- `split` at a single character makes the fields between the delimiters: it has fuel enough.
pub split-tokens : (str : Text) (d : ℕ) → split str (d ∷ []) ≡ tokens d str
unfolding split
split-tokens str d = split_loop-tokens (suc (length str)) d [] str str refl (omega arith)

-- The fields with the delimiter between them.
abbrev pub join : ℕ → List Text → Text
join d [] = []
join d (t ∷ []) = t
join d (t ∷ f ∷ l) = t ++ (d ∷ join d (f ∷ l))

-- There is a last field, and it is not empty.
abbrev pub EndsFull : List Text → Type 0
EndsFull [] = ⊥
EndsFull (t ∷ []) = t ≢ []
EndsFull (t ∷ f ∷ l) = EndsFull (f ∷ l)

join_full : (d : ℕ) (l : List Text) → EndsFull l → join d l ≢ []
join_full d [] h = absurd h
join_full d (t ∷ []) h = h
join_full d ([] ∷ f ∷ l) h = λ e. cc
join_full d ((c ∷ t) ∷ f ∷ l) h = λ e. cc

unless_empty_full : (s : Text) (l : List Text) → s ≢ [] → unless_empty s l ≡ l
unless_empty_full [] l h = absurd (h refl)
unless_empty_full (c ∷ s) l h = refl

tokens-join : (d : ℕ) (l : List Text) → All (Free d) l → EndsFull l → tokens d (join d l) ≡ l
tokens-join d [] f h = absurd h
tokens-join d (t ∷ []) f h = tokens-absent d t f.0
tokens-join d (t ∷ g ∷ l) f h =
    tokens-at d t (join d (g ∷ l)) f.0
    ∙ ap (λ x. t ∷ x)
        (unless_empty_full (join d (g ∷ l)) _ (join_full d (g ∷ l) h) ∙ tokens-join d (g ∷ l) f.1 h)

-- `split` reads back the fields of every text that was joined from fields without the delimiter,
-- the last of which is not empty.
pub split-join :
    (d : ℕ) (l : List Text) → All (Free d) l → EndsFull l → split (join d l) (d ∷ []) ≡ l
split-join d l f h = split-tokens (join d l) d ∙ tokens-join d l f h

pub EndsFull-append : (p l : List Text) → EndsFull l → EndsFull (p ++ l)
EndsFull-append [] l h = h
EndsFull-append (t ∷ []) [] h = absurd h
EndsFull-append (t ∷ []) (u ∷ l) h = h
EndsFull-append (t ∷ s ∷ p) l h = EndsFull-append (s ∷ p) l h
