-- ===== src/Messages/Reading.antt =====
-- How the parsers read a text that was made for them: the fields after `split`, and the numbers in them.
use snowball_dag_experiment.Base.{
  ℕ, zero, suc, ◌+◌, ◌^◌, ◌<◌, ◌≡◌, refl, ap, ◌∙◌, true, some, List, [], ◌∷◌, ◌++◌, Text, is_full,
  length, get_elem?, drop, All, arith,
}
use snowball_dag_experiment.Base.Outcome.{done}
use snowball_dag_experiment.Numbers.{to_string}
use snowball_dag_experiment.Numbers.Fields.{Free-to_string}
use snowball_dag_experiment.Split.{split}
use snowball_dag_experiment.Split.Tokens.{Free, is_free, Free-is_free, EndsFull, split-join}
use snowball_dag_experiment.Messages.{Settings, message, field, fields}

-- The settings of a sender whose address a message can hold.
pub record CanSend (st : Settings) : Type 0 where
  pub ip_free : Free 44 st.my_ip
  pub ip_full : is_full st.my_ip ≡ true
  pub port_int : st.my_port < 2 ^ 31

-- The fields of a message.
abbrev pub sent : Settings → Text → List Text → List Text
sent me tag l = tag ∷ me.my_ip ∷ to_string me.my_port ∷ l

-- `split` takes a message apart, if no field has a comma and the last one is not empty.
pub split-message :
    (me : Settings) (tag : Text) (l : List Text)
    → CanSend me
    → is_free 44 tag ≡ true
    → All (Free 44) l
    → EndsFull l
    → split (message me tag l) (44 ∷ []) ≡ sent me tag l
unfolding message
split-message me tag [] ok f a h = absurd h
split-message me tag (t ∷ l) ok f a h =
    split-join 44 (sent me tag (t ∷ l))
      (Free-is_free 44 tag f, (ok.ip_free, (Free-to_string me.my_port, a))) h

-- What follows the first `i` fields.
pub get_elem?-drop :
    (sp : List Text) (i : ℕ) {t : Text} {l : List Text}
    → drop i sp ≡ t ∷ l
    → (get_elem? sp i ≡ some t) × (drop (suc i) sp ≡ l)
get_elem?-drop [] zero e = cc
get_elem?-drop [] (suc i) e = cc
get_elem?-drop (s ∷ sp) zero e = (cc, cc)
get_elem?-drop (s ∷ sp) (suc i) e = get_elem?-drop sp i e

-- `fields` reads a list of fields, and what follows it is there too.
pub fields-drop :
    (sp : List Text) (i : ℕ) (p : List Text) {l : List Text}
    → drop i sp ≡ p ++ l
    → (fields sp i (length p) ≡ done p) × (drop (i + length p) sp ≡ l)
unfolding fields field
fields-drop sp i [] e = (refl, ap (λ k. drop k sp) (omega arith) ∙ e)
fields-drop sp i (t ∷ p) e =
    let (at, later) = get_elem?-drop sp i e in
    let (read, rest) = fields-drop sp (suc i) p later in
    (rw (at, read, fields, field) refl, ap (λ k. drop k sp) (omega arith) ∙ rest)
