-- ===== src/Messages/RoundMessages.antt =====
-- The parsers of the messages between the members of a round read what the other node made.
use snowball_dag_experiment.Base.{
  ℕ, ◌^◌, ◌<◌, ◌≡◌, ◌≢◌, refl, Bool, true, false, some, List, [], ◌∷◌, ℤ, pos, Text, bytes, concat,
  eqb_ℤ_iff, if◌then◌else◌, arith,
}
use snowball_dag_experiment.Base.Outcome.{done}
use snowball_dag_experiment.Numbers.{to_string, int_to_string, safe_stoi}
use snowball_dag_experiment.Numbers.Fields.{
  IsInt, Free-to_string, Free-int_to_string, to_string_full, int_to_string_full,
  safe_stoi-to_string, safe_stoi-int_to_string, safe_stoull-to_string, to_uint32-pos,
}
use snowball_dag_experiment.Split.{split}
use snowball_dag_experiment.Split.Tokens.{Free}
use snowball_dag_experiment.Blocks.{ConsensusPart}
use snowball_dag_experiment.Messages.{
  Settings, is_passed, key_present, bool_to_string, to_bool, guarded, checked,
}
use snowball_dag_experiment.Messages.Round.{
  create_consensus_block, parse_consensus_block, create_have_consensus_block,
  parse_have_consensus_block, create_answer_verified_1_info, parse_answer_verified_1_info,
}
use snowball_dag_experiment.Messages.Reading.{CanSend, split-message}

-- The key of a message: its name, the sender, and some of the fields.
abbrev pub key : Text → Settings → List Text → Text
key tag me l = concat (tag ∷ me.my_ip ∷ to_string me.my_port ∷ l)

pub Free-bool_to_string : (b : Bool) → Free 44 (bool_to_string b)
unfolding bool_to_string
Free-bool_to_string b = Free-to_string _

pub safe_stoi-bool_to_string :
    (b pr : Bool) → safe_stoi (bool_to_string b) pr ≡ (pos (if b then 1 else 0), pr)
unfolding bool_to_string
safe_stoi-bool_to_string false pr = safe_stoi-to_string 0 pr (omega arith)
safe_stoi-bool_to_string true pr = safe_stoi-to_string 1 pr (omega arith)

pub to_bool-of : (b : Bool) → to_bool (pos (if b then 1 else 0)) ≡ b
unfolding to_bool
to_bool-of false = rw ((eqb_ℤ_iff (pos 0) (pos 0)).1 refl) refl
to_bool-of true = ground (arith, eqb_ℤ_iff (pos 1) (pos 0))

module _ (me st : Settings) (passed : List Text) (ok : CanSend me) where
  -- The fields that `split` makes of the text of `create_consensus_block`, parsed with a new key, give the
  -- sender and the round, the order, the range and the list of transactions. The numbers are of the size
  -- of an `int`, the list has no comma and is not empty, and the sender can send.
  pub parse_consensus_block-create_consensus_block :
      (cp old : ConsensusPart)
      → IsInt cp.round
      → IsInt cp.order_in_round
      → IsInt cp.tx_first
      → IsInt cp.tx_second
      → Free 44 cp.list
      → cp.list ≢ []
      → is_passed
          (key (bytes "#consensus_block") me (
            int_to_string cp.round
            ∷ int_to_string cp.order_in_round
            ∷ int_to_string cp.tx_first
            ∷ int_to_string cp.tx_second
            ∷ []))
          passed
        ≡ false
      → parse_consensus_block st (split (create_consensus_block me cp) (44 ∷ [])) passed old
        ≡ done (
          some (
            record { ip = me.my_ip; port = me.my_port },
            record old {
              round = cp.round;
              order_in_round = cp.order_in_round;
              tx_first = cp.tx_first;
              tx_second = cp.tx_second;
              list = cp.list;
            },
          ),
          key (bytes "#consensus_block") me (
                int_to_string cp.round
                ∷ int_to_string cp.order_in_round
                ∷ int_to_string cp.tx_first
                ∷ int_to_string cp.tx_second
                ∷ [])
              ∷ passed,
        )
  unfolding create_consensus_block parse_consensus_block
  parse_consensus_block-create_consensus_block cp old r o a b f full new =
      rw
        (
          split-message me (bytes "#consensus_block")
              (int_to_string cp.round
                ∷ int_to_string cp.order_in_round
                ∷ int_to_string cp.tx_first
                ∷ int_to_string cp.tx_second
                ∷ cp.list
                ∷ [])
              ok refl
              (
                Free-int_to_string cp.round,
                (
                  Free-int_to_string cp.order_in_round,
                  (Free-int_to_string cp.tx_first, (Free-int_to_string cp.tx_second, (f, tt))),
                ),
              )
              full,
          new,
          safe_stoi-to_string me.my_port true ok.port_int,
          safe_stoi-int_to_string cp.round true r,
          safe_stoi-int_to_string cp.order_in_round true o,
          safe_stoi-int_to_string cp.tx_first true a,
          safe_stoi-int_to_string cp.tx_second true b,
          to_uint32-pos me.my_port ok.port_int,
          ok.ip_full,
          guarded,
          key_present,
          checked,
        )
        (ground arith)

  pub parse_have_consensus_block-create_have_consensus_block :
      (order_in_round : ℤ) (received : Bool)
      → IsInt order_in_round
      → is_passed
          (key
            (bytes "#have_consensus_block")
            me
            (int_to_string order_in_round ∷ bool_to_string received ∷ []))
          passed
        ≡ false
      → parse_have_consensus_block st
          (split (create_have_consensus_block me order_in_round received) (44 ∷ []))
          passed
        ≡ done (
          some (record {
            sender = record { ip = me.my_ip; port = me.my_port };
            order_in_round = order_in_round;
            received = received;
          }),
          key
                (bytes "#have_consensus_block")
                me
                (int_to_string order_in_round ∷ bool_to_string received ∷ [])
              ∷ passed,
        )
  unfolding create_have_consensus_block parse_have_consensus_block
  parse_have_consensus_block-create_have_consensus_block order_in_round received o new =
      rw
        (
          split-message me (bytes "#have_consensus_block")
              (int_to_string order_in_round ∷ bool_to_string received ∷ []) ok refl
              (Free-int_to_string order_in_round, (Free-bool_to_string received, tt))
              (to_string_full _),
          new,
          safe_stoi-to_string me.my_port true ok.port_int,
          safe_stoi-int_to_string order_in_round true o,
          safe_stoi-bool_to_string received true,
          to_uint32-pos me.my_port ok.port_int,
          to_bool-of received,
          ok.ip_full,
          guarded,
          key_present,
          checked,
        )
        (ground arith)

  pub parse_answer_verified_1_info-create_answer_verified_1_info :
      (hash : ℕ) (votes : ℤ)
      → hash < 2 ^ 64
      → IsInt votes
      → is_passed (key (bytes "#answer_verified_1") me (to_string hash ∷ [])) passed ≡ false
      → parse_answer_verified_1_info st
          (split (create_answer_verified_1_info me hash votes) (44 ∷ []))
          passed
        ≡ done (
          some (record {
            sender = record { ip = me.my_ip; port = me.my_port };
            hash = hash;
            votes = votes;
          }),
          key (bytes "#answer_verified_1") me (to_string hash ∷ []) ∷ passed,
        )
  unfolding create_answer_verified_1_info parse_answer_verified_1_info
  parse_answer_verified_1_info-create_answer_verified_1_info hash votes h v new =
      rw
        (
          split-message me (bytes "#answer_verified_1") (to_string hash ∷ int_to_string votes ∷ [])
              ok refl (Free-to_string hash, (Free-int_to_string votes, tt))
              (int_to_string_full votes),
          new,
          safe_stoi-to_string me.my_port true ok.port_int,
          safe_stoull-to_string hash true h,
          safe_stoi-int_to_string votes true v,
          to_uint32-pos me.my_port ok.port_int,
          ok.ip_full,
          guarded,
          key_present,
          checked,
        )
        (ground arith)
