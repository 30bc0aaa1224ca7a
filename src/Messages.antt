-- ===== src/Messages.antt =====
-- What the messages of Snowball_Main/code/requests.cpp share: the settings they use, the fields, and the
-- two tests in front of every parser. The child modules have the messages.
pub mod Chain
pub mod Reading
pub mod RoundTrip
pub mod Round
pub mod Headers
pub mod FullBlocks
pub mod Returns
pub mod PastEnd
pub mod Refusals
pub mod RoundMessages
pub mod PeerMessages
use snowball_dag_experiment.Base.{
  ℕ, zero, suc, ◌+◌, Bool, true, false, not, ◌&&◌, Option, none, some, List, [], ◌∷◌, ◌++◌, ℤ, pos,
  Text, text_eq, bytes, concat, is_full, ltb, if◌then◌else◌, eqb_ℤ, length, get_elem?, take,
}
use snowball_dag_experiment.Base.Outcome.{Outcome, done, ◌>>=◌, deref}
use snowball_dag_experiment.Numbers.{to_string, to_uint32, safe_stoi, safe_stoull}
use snowball_dag_experiment.Split.Tokens.{join}
use snowball_dag_experiment.Blocks.{SenderInfo}

-- The global variables of params.h that the messages read; `proof_length` is `merkle_proof_length()`.
pub record Settings : Type 0 where
  pub my_ip : Text
  pub my_port : ℕ
  pub chains : ℕ
  pub print_transmission_errors : Bool
  pub proof_length : ℕ

-- The name of the message, the sender, and the other fields, with commas between them.
unfoldable pub message : Settings → Text → List Text → Text
message st tag fields = join 44 (tag ∷ st.my_ip ∷ to_string st.my_port ∷ fields)

-- `passed` holds the keys of the map.
unfoldable pub is_passed : Text → List Text → Bool
is_passed key [] = false
is_passed key (k ∷ passed) = if text_eq k key then true else is_passed key passed

unfoldable pub key_present : Text → List Text → Bool × List Text
unfolding is_passed
key_present key passed = if is_passed key passed then (true, passed) else (false, key ∷ passed)

-- `sp[i]`
unfoldable pub field : List Text → ℕ → Outcome Text
field sp i = deref (get_elem? sp i)

-- `n` fields from `sp[i]` on
unfoldable pub fields : List Text → ℕ → ℕ → Outcome (List Text)
unfolding field
fields sp i zero = done []
fields sp i (suc n) = do s ← field sp i; rest ← fields sp (suc i) n; done (s ∷ rest)

-- A field as an `int`, as a `uint32_t` and as an `unsigned long`, with `pr`.
unfoldable pub int_at : List Text → ℕ → Bool → Outcome (ℤ × Bool)
unfolding field
int_at sp i pr = do s ← field sp i; done (safe_stoi s pr)

unfoldable pub uint32_at : List Text → ℕ → Bool → Outcome (ℕ × Bool)
unfolding int_at
uint32_at sp i pr = do x ← int_at sp i pr; done (to_uint32 x.0, x.1)

unfoldable pub ulong_at : List Text → ℕ → Bool → Outcome (ℕ × Bool)
unfolding field
ulong_at sp i pr = do s ← field sp i; done (safe_stoull s pr)

-- An `int` as a `bool`.
unfoldable pub to_bool : ℤ → Bool
to_bool z = not (eqb_ℤ z (pos 0))

-- `to_string` of a `bool`
unfoldable pub bool_to_string : Bool → Text
bool_to_string b = to_string (if b then 1 else 0)

-- What a parser returns: `none` for `false`; and the new `passed`.
abbrev pub Parsed : Type 0 → Type 0
Parsed A = Outcome (Option A × List Text)

-- The tests in front of a parser: enough fields, and a key of the first `k` of them that is new.
unfoldable pub guarded :
    {A : Type 0} → ℕ → ℕ → List Text → List Text → Outcome (Option A) → Parsed A
unfolding key_present
guarded n k sp passed body =
    let seen = key_present (concat (take k sp)) passed in
    if ltb (length sp) n
    then done (none, passed)
    else if seen.0
    then done (none, seen.1)
    else (do r ← body; done (r, seen.1))

-- The test at the end of a parser: it refuses only where errors are printed.
unfoldable pub checked : {A : Type 0} → Settings → Bool → A → Option A
checked st good value = if st.print_transmission_errors && not good then none else some value
