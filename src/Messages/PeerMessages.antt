-- ===== src/Messages/PeerMessages.antt =====
-- The parsers of pings, of transactions and of the message of a miner read what the other node made.
use snowball_dag_experiment.Base.{
  ℕ, ◌^◌, ◌<◌, ◌≡◌, refl, Bool, true, false, some, List, [], ◌∷◌, ℤ, Text, bytes, arith,
}
use snowball_dag_experiment.Base.Outcome.{done}
use snowball_dag_experiment.Numbers.{to_string, int_to_string}
use snowball_dag_experiment.Numbers.Fields.{
  IsInt, Free-to_string, Free-int_to_string, to_string_full, int_to_string_full,
  safe_stoi-to_string, safe_stoi-int_to_string, safe_stoull-to_string, to_uint32-pos,
}
use snowball_dag_experiment.Split.{split}
use snowball_dag_experiment.Split.Tokens.{Free}
use snowball_dag_experiment.Messages.{
  Settings, is_passed, key_present, bool_to_string, guarded, checked,
}
use snowball_dag_experiment.Messages.Round.{
  create_ping, parse_ping, create_mining_succeed, parse_mining_succeed, create_transaction,
  parse_transaction,
}
use snowball_dag_experiment.Messages.Reading.{CanSend, split-message}
use snowball_dag_experiment.Messages.RoundMessages.{
  key, Free-bool_to_string, safe_stoi-bool_to_string, to_bool-of,
}

module _ (me st : Settings) (passed : List Text) (ok : CanSend me) where
  pub parse_mining_succeed-create_mining_succeed :
      (certificate : Bool) (random : Text) (round : ℤ)
      → Free 44 random
      → IsInt round
      → is_passed
          (key (bytes "#mining_succeed") me (bool_to_string certificate ∷ random ∷ []))
          passed
        ≡ false
      → parse_mining_succeed st
          (split (create_mining_succeed me certificate random round) (44 ∷ []))
          passed
        ≡ done (
          some (record {
            sender = record { ip = me.my_ip; port = me.my_port };
            certificate = certificate;
            round = round;
          }),
          key (bytes "#mining_succeed") me (bool_to_string certificate ∷ random ∷ []) ∷ passed,
        )
  unfolding create_mining_succeed parse_mining_succeed
  parse_mining_succeed-create_mining_succeed certificate random round f r new =
      rw
        (
          split-message me (bytes "#mining_succeed")
              (bool_to_string certificate ∷ random ∷ int_to_string round ∷ []) ok refl
              (Free-bool_to_string certificate, (f, (Free-int_to_string round, tt)))
              (int_to_string_full round),
          new,
          safe_stoi-to_string me.my_port true ok.port_int,
          safe_stoi-bool_to_string certificate true,
          safe_stoi-int_to_string round true r,
          to_uint32-pos me.my_port ok.port_int,
          to_bool-of certificate,
          ok.ip_full,
          guarded,
          key_present,
          checked,
        )
        (ground arith)

  pub parse_ping-create_ping :
      (id : Text) (dnext tsec : ℕ) (mode : ℤ)
      → Free 44 id
      → dnext < 2 ^ 31
      → tsec < 2 ^ 64
      → IsInt mode
      → is_passed (key (bytes "#ping") me []) passed ≡ false
      → parse_ping st (split (create_ping me id dnext tsec mode) (44 ∷ [])) passed
        ≡ done (
          some (record {
            sender = record { ip = me.my_ip; port = me.my_port };
            tt = id;
            dnext = dnext;
            tsec = tsec;
            mode = mode;
          }),
          key (bytes "#ping") me [] ∷ passed,
        )
  unfolding create_ping parse_ping
  parse_ping-create_ping id dnext tsec mode f d t m new =
      rw
        (
          split-message me (bytes "#ping")
              (id ∷ to_string dnext ∷ to_string tsec ∷ int_to_string mode ∷ []) ok refl
              (f, (Free-to_string dnext, (Free-to_string tsec, (Free-int_to_string mode, tt))))
              (int_to_string_full mode),
          new,
          safe_stoi-to_string me.my_port true ok.port_int,
          safe_stoi-to_string dnext true d,
          safe_stoull-to_string tsec true t,
          safe_stoi-int_to_string mode true m,
          to_uint32-pos me.my_port ok.port_int,
          to_uint32-pos dnext d,
          guarded,
          key_present,
          checked,
        )
        (ground arith)

  pub parse_transaction-create_transaction :
      (tx : Text) (time : ℕ)
      → Free 44 tx
      → time < 2 ^ 64
      → is_passed (key (bytes "#transaction") me (tx ∷ [])) passed ≡ false
      → parse_transaction st (split (create_transaction me tx time) (44 ∷ [])) passed
        ≡ done (
          some (record {
            sender = record { ip = me.my_ip; port = me.my_port };
            tx = tx;
            time = time;
          }),
          key (bytes "#transaction") me (tx ∷ []) ∷ passed,
        )
  unfolding create_transaction parse_transaction
  parse_transaction-create_transaction tx time f t new =
      rw
        (
          split-message me (bytes "#transaction") (tx ∷ to_string time ∷ []) ok refl
              (f, (Free-to_string time, tt)) (to_string_full time),
          new,
          safe_stoi-to_string me.my_port true ok.port_int,
          safe_stoull-to_string time true t,
          to_uint32-pos me.my_port ok.port_int,
          ok.ip_full,
          guarded,
          key_present,
          checked,
        )
        (ground arith)
