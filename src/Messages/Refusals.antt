-- ===== src/Messages/Refusals.antt =====
-- What the parsers refuse.
use snowball_dag_experiment.Base.{
  ℕ, ◌≡◌, refl, sym, ap, ◌∙◌, inl, inr, true, false, Option, none, List, ◌∷◌, Text, text_eq_refl,
  text_eq, concat, ltb, length, take, Bool-cases,
}
use snowball_dag_experiment.Base.Outcome.{Outcome, done, ◌>>=◌, done-bind}
use snowball_dag_experiment.Messages.{is_passed, key_present, guarded}

-- The result of a parser, by whether the fields are enough and the key is new.
guarded_few :
    {A : Type 0} (n k : ℕ) (sp passed : List Text) (body : Outcome (Option A))
    → ltb (length sp) n ≡ true
    → guarded n k sp passed body ≡ done (none, passed)
unfolding guarded
guarded_few n k sp passed body few = rw (few, guarded) refl

guarded_seen :
    {A : Type 0} (n k : ℕ) (sp passed : List Text) (body : Outcome (Option A))
    → ltb (length sp) n ≡ false
    → is_passed (concat (take k sp)) passed ≡ true
    → guarded n k sp passed body ≡ done (none, passed)
unfolding guarded key_present
guarded_seen n k sp passed body e f = rw (e, f, guarded, key_present) refl

guarded_new :
    {A : Type 0} (n k : ℕ) (sp passed : List Text) (body : Outcome (Option A))
    → ltb (length sp) n ≡ false
    → is_passed (concat (take k sp)) passed ≡ false
    → guarded n k sp passed body ≡ (body >>= (λ r. done (r, concat (take k sp) ∷ passed)))
unfolding guarded key_present
guarded_new n k sp passed body e f = rw (e, f, guarded, key_present) refl

is_passed_first : (key : Text) (passed : List Text) → is_passed key (key ∷ passed) ≡ true
unfolding is_passed
is_passed_first key passed = rw (text_eq_refl key) refl

is_passed_later :
    (key first : Text) (passed : List Text)
    → is_passed key passed ≡ true
    → is_passed key (first ∷ passed) ≡ true
unfolding is_passed
is_passed_later key first passed known = elim (Bool-cases (text_eq first key)) [
  | inl q ↦ rw q refl
  | inr q ↦ rw q known
]

done_pair : {A B : Type 0} (x y : A × B) → done x ≡ done y → x.1 ≡ y.1
done_pair x y e = cc

-- After a message with enough fields, its key is in the map.
guarded_notes :
    {A : Type 0} (n k : ℕ) (sp passed passed' : List Text) (body : Outcome (Option A))
    (r : Option A)
    → guarded n k sp passed body ≡ done (r, passed')
    → ltb (length sp) n ≡ false
    → is_passed (concat (take k sp)) passed' ≡ true
guarded_notes n k sp passed passed' body r h large =
    let key = concat (take k sp) in
    elim (Bool-cases (is_passed key passed)) [
      | inl seen ↦
          let same = done_pair _ _ (sym (guarded_seen n k sp passed body large seen) ∙ h) in
          ap (is_passed key) (sym same) ∙ seen
      | inr new ↦
          let (r', _, e) =
            done-bind body (λ r'. done (r', key ∷ passed))
              (sym (guarded_new n k sp passed body large new) ∙ h) in
          ap (is_passed key) (sym (done_pair _ _ e)) ∙ is_passed_first key passed
    ]

-- A parser forgets no key.
guarded_keeps :
    {A : Type 0} (n k : ℕ) (sp passed passed' : List Text) (body : Outcome (Option A))
    (r : Option A) (key : Text)
    → guarded n k sp passed body ≡ done (r, passed')
    → is_passed key passed ≡ true
    → is_passed key passed' ≡ true
guarded_keeps n k sp passed passed' body r key h known = elim (Bool-cases (ltb (length sp) n)) [
  | inl small ↦
      let same = done_pair _ _ (sym (guarded_few n k sp passed body small) ∙ h) in
      ap (is_passed key) (sym same) ∙ known
  | inr large ↦ elim (Bool-cases (is_passed (concat (take k sp)) passed)) [
    | inl seen ↦
        let same = done_pair _ _ (sym (guarded_seen n k sp passed body large seen) ∙ h) in
        ap (is_passed key) (sym same) ∙ known
    | inr new ↦
        let (r', _, e) =
          done-bind body (λ r'. done (r', concat (take k sp) ∷ passed))
            (sym (guarded_new n k sp passed body large new) ∙ h) in
        ap (is_passed key) (sym (done_pair _ _ e))
        ∙ is_passed_later key (concat (take k sp)) passed known
  ]
]

-- The keys after the parsers of any messages.
pub data KeysAfter (passed : List Text) : List Text → Type 1 where
  none_yet : KeysAfter passed passed
  after_one :
      {A : Type 0} (n k : ℕ) (sp before after : List Text) (body : Outcome (Option A))
      (r : Option A)
      → KeysAfter passed before
      → guarded n k sp before body ≡ done (r, after)
      → KeysAfter passed after

still_passed :
    (key : Text) (passed later : List Text)
    → is_passed key passed ≡ true
    → KeysAfter passed later
    → is_passed key later ≡ true
still_passed key passed _ known none_yet = known
still_passed key passed _ known (after_one n k sp before after body r p e) =
    guarded_keeps n k sp before after body r key e (still_passed key passed before known p)

-- After a parser has read a message with enough fields, and any number of other messages were read, each
-- parser refuses a message with the same key and leaves the keys as they are: the key is the text of the
-- first fields without a separator, and nothing else of the two messages need be the same.
pub guarded_twice :
    {A B : Type 0} (n k n' k' : ℕ) (sp sp' passed passed' later : List Text)
    (body : Outcome (Option A)) (body' : Outcome (Option B)) (r : Option A)
    → guarded n k sp passed body ≡ done (r, passed')
    → ltb (length sp) n ≡ false
    → KeysAfter passed' later
    → concat (take k' sp') ≡ concat (take k sp)
    → guarded n' k' sp' later body' ≡ done (none, later)
guarded_twice n k n' k' sp sp' passed passed' later body body' r h large run same =
    elim (Bool-cases (ltb (length sp') n')) [
      | inl small ↦ guarded_few n' k' sp' later body' small
      | inr large' ↦ guarded_seen n' k' sp' later body' large' (
          ap (λ key. is_passed key later) same
          ∙ still_passed (concat (take k sp)) passed' later
              (guarded_notes n k sp passed passed' body r h large) run)
    ]
