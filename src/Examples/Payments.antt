-- ===== src/Examples/Payments.antt =====
-- Tests of Transactions: a toy check that takes one signature, and addresses of 8 characters.
use snowball_dag_experiment.Base.{
  ◌*◌, ◌≡◌, ◌≢◌, refl, Bool, true, [], ◌∷◌, pos, Text, bytes, length,
}
use snowball_dag_experiment.Base.Strings.{text_eq}
use snowball_dag_experiment.Split.{split, find_text, starts_with}
use snowball_dag_experiment.Split.Tokens.{join}
use snowball_dag_experiment.Blocks.{ConsensusPart}
use snowball_dag_experiment.Transactions.{verify_transaction}
use snowball_dag_experiment.Transactions.Checks.{verify_transaction_sound}
use snowball_dag_experiment.Examples.Trees.{header}

abbrev signed : Text → Text → Bool
signed message signature = text_eq signature (bytes "sig")

abbrev payment : Text
payment = bytes "aaaaaaaa:bbbbbbbb:5:sig"

payment_verified : verify_transaction signed 1 payment ≡ true
unfolding verify_transaction split find_text starts_with text_eq
payment_verified = refl

verify_transaction_sound_example :
    (ad1 : Text) × (ad2 : Text) × (amount : Text) × (signature : Text) × (split payment (58 ∷ [])
      ≡ ad1 ∷ ad2 ∷ amount ∷ signature ∷ [])
    × (length ad1 ≡ 8 * 1)
    × (length ad2 ≡ 8 * 1)
    × (amount ≢ [])
    × (signed (join 58 (ad1 ∷ ad2 ∷ amount ∷ [])) signature ≡ true)
verify_transaction_sound_example = verify_transaction_sound signed 1 payment payment_verified

-- Two lines, "a" and "b".
abbrev two_lines : ConsensusPart
two_lines = record (header 40 50 0).consensus_part {
  list = 97 ∷ 10 ∷ 98 ∷ 10 ∷ [];
  tx_first = pos 3;
  tx_second = pos 5;
}
