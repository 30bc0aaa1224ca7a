-- ===== src/Messages/Headers.antt =====
-- The headers inside a message: the parsers of "#process_block" and "#verified_1" read what the other
-- node made.
use snowball_dag_experiment.Base.{
  ◌^◌, ◌<◌, ◌≡◌, ◌≢◌, refl, Bool, true, false, some, List, [], ◌∷◌, ◌++◌, Text, bytes, concat,
  lt→ltb, All, arith,
}
use snowball_dag_experiment.Base.Outcome.{done}
use snowball_dag_experiment.Numbers.{to_string}
use snowball_dag_experiment.Numbers.Fields.{
  IsInt, Free-to_string, Free-int_to_string, safe_stoi-to_string, safe_stoi-int_to_string,
  safe_stoull-to_string, to_uint32-pos,
}
use snowball_dag_experiment.Split.{split}
use snowball_dag_experiment.Split.Tokens.{Free}
use snowball_dag_experiment.Blocks.{NetworkBlock}
use snowball_dag_experiment.Messages.{Settings, is_passed, key_present, guarded, checked}
use snowball_dag_experiment.Messages.Chain.{
  header_fields, read_header, create_process_block, parse_process_block,
}
use snowball_dag_experiment.Messages.Round.{create_verified_1_info, parse_verified_1_info}
use snowball_dag_experiment.Messages.Reading.{CanSend, split-message}

-- A header that a message can hold: no number is too large for its field, and the root has no comma.
pub record Fits (nb : NetworkBlock) : Type 0 where
  pub chain_id_int : nb.chain_id < 2 ^ 31
  pub parent_ulong : nb.parent < 2 ^ 64
  pub hash_ulong : nb.hash < 2 ^ 64
  pub no_txs_int : nb.no_txs < 2 ^ 31
  pub depth_int : nb.depth < 2 ^ 31
  pub rank_int : nb.rank < 2 ^ 31
  pub next_rank_int : nb.next_rank < 2 ^ 31
  pub round_int : IsInt nb.consensus_part.round
  pub order_int : IsInt nb.consensus_part.order_in_round
  pub first_int : IsInt nb.consensus_part.tx_first
  pub second_int : IsInt nb.consensus_part.tx_second
  pub root_free : Free 44 nb.consensus_part.merkel_root_of_txs

-- The fields of `nb` that a message holds, over `old`.
abbrev pub received : NetworkBlock → NetworkBlock → NetworkBlock
received nb old = record old {
  chain_id = nb.chain_id;
  parent = nb.parent;
  hash = nb.hash;
  no_txs = nb.no_txs;
  depth = nb.depth;
  rank = nb.rank;
  next_rank = nb.next_rank;
  consensus_part = record old.consensus_part {
    round = nb.consensus_part.round;
    order_in_round = nb.consensus_part.order_in_round;
    tx_first = nb.consensus_part.tx_first;
    tx_second = nb.consensus_part.tx_second;
    merkel_root_of_txs = nb.consensus_part.merkel_root_of_txs;
  };
}

read_header-header_fields :
    (nb old : NetworkBlock) (tag ip port : Text) (rest : List Text) (pr : Bool)
    → Fits nb
    → read_header (tag ∷ ip ∷ port ∷ (header_fields nb ++ rest)) pr old ≡ done (received nb old, pr)
unfolding read_header header_fields
read_header-header_fields nb old tag ip port rest pr f =
    rw
      (
        safe_stoi-to_string nb.chain_id pr f.chain_id_int,
        safe_stoull-to_string nb.parent pr f.parent_ulong,
        safe_stoull-to_string nb.hash pr f.hash_ulong,
        safe_stoi-to_string nb.no_txs pr f.no_txs_int,
        safe_stoi-to_string nb.depth pr f.depth_int,
        safe_stoi-to_string nb.rank pr f.rank_int,
        safe_stoi-to_string nb.next_rank pr f.next_rank_int,
        safe_stoi-int_to_string nb.consensus_part.round pr f.round_int,
        safe_stoi-int_to_string nb.consensus_part.order_in_round pr f.order_int,
        safe_stoi-int_to_string nb.consensus_part.tx_first pr f.first_int,
        safe_stoi-int_to_string nb.consensus_part.tx_second pr f.second_int,
        to_uint32-pos nb.chain_id f.chain_id_int,
        to_uint32-pos nb.no_txs f.no_txs_int,
        to_uint32-pos nb.depth f.depth_int,
        to_uint32-pos nb.rank f.rank_int,
        to_uint32-pos nb.next_rank f.next_rank_int,
      )
      refl

Free-header_fields :
    (nb : NetworkBlock) (rest : List Text)
    → Fits nb
    → All (Free 44) rest
    → All (Free 44) (header_fields nb ++ rest)
unfolding header_fields
Free-header_fields nb rest f a = (
  Free-to_string nb.chain_id,
  (
    Free-to_string nb.parent,
    (
      Free-to_string nb.hash,
      (
        Free-to_string nb.no_txs,
        (
          Free-to_string nb.depth,
          (
            Free-to_string nb.rank,
            (
              Free-to_string nb.next_rank,
              (
                Free-int_to_string nb.consensus_part.round,
                (
                  Free-int_to_string nb.consensus_part.order_in_round,
                  (
                    Free-int_to_string nb.consensus_part.tx_first,
                    (Free-int_to_string nb.consensus_part.tx_second, (f.root_free, a)),
                  ),
                ),
              ),
            ),
          ),
        ),
      ),
    ),
  ),
)

-- The key: the name, the sender, the chain, the parent and the hash.
abbrev pub header_key : Text → Settings → NetworkBlock → Text
header_key tag me nb = concat (
    tag
    ∷ me.my_ip
    ∷ to_string me.my_port
    ∷ to_string nb.chain_id
    ∷ to_string nb.parent
    ∷ to_string nb.hash
    ∷ [])

-- The fields that `split` makes of the text of `create_process_block`, parsed with a new key, give the
-- sender and all fields of the header that the message holds; the other fields are as they were. The
-- header fits into the message (32-bit fields below 2^31, no comma in the Merkle root), its Merkle root
-- is not empty, the sender can send, and the chain is one of the receiver's chains.
pub parse_process_block-create_process_block :
    (me st : Settings) (passed : List Text) (nb old : NetworkBlock)
    → CanSend me
    → Fits nb
    → nb.consensus_part.merkel_root_of_txs ≢ []
    → nb.chain_id < st.chains
    → is_passed (header_key (bytes "#process_block") me nb) passed ≡ false
    → parse_process_block st (split (create_process_block me nb) (44 ∷ [])) passed old
      ≡ done (
        some (record { ip = me.my_ip; port = me.my_port }, received nb old),
        header_key (bytes "#process_block") me nb ∷ passed,
      )
unfolding create_process_block parse_process_block header_fields
parse_process_block-create_process_block me st passed nb old ok f full c new =
    rw
      (
        split-message me (bytes "#process_block") (header_fields nb) ok refl
            (Free-header_fields nb [] f tt) full,
        new,
        safe_stoi-to_string me.my_port true ok.port_int,
        to_uint32-pos me.my_port ok.port_int,
        read_header-header_fields nb old (bytes "#process_block") me.my_ip (to_string me.my_port) []
            true f,
        ok.ip_full,
        lt→ltb nb.chain_id st.chains c,
        guarded,
        key_present,
        checked,
      )
      (ground arith)

-- The fields that `split` makes of the text of `create_verified_1_info`, parsed with a new key, give the
-- sender and all fields of the header that the message holds; the other fields are as they were. The
-- header fits into the message, the random text has no comma and is not empty, and the sender can send.
pub parse_verified_1_info-create_verified_1_info :
    (me st : Settings) (passed : List Text) (nb old : NetworkBlock) (random : Text)
    → CanSend me
    → Fits nb
    → Free 44 random
    → random ≢ []
    → is_passed (header_key (bytes "#verified_1") me nb) passed ≡ false
    → parse_verified_1_info st (split (create_verified_1_info me nb random) (44 ∷ [])) passed old
      ≡ done (
        some (record { ip = me.my_ip; port = me.my_port }, received nb old),
        header_key (bytes "#verified_1") me nb ∷ passed,
      )
unfolding create_verified_1_info parse_verified_1_info header_fields
parse_verified_1_info-create_verified_1_info me st passed nb old random ok f r full new =
    rw
      (
        split-message me (bytes "#verified_1") (header_fields nb ++ (random ∷ [])) ok refl
            (Free-header_fields nb (random ∷ []) f (r, tt)) full,
        new,
        safe_stoi-to_string me.my_port true ok.port_int,
        to_uint32-pos me.my_port ok.port_int,
        read_header-header_fields nb old (bytes "#verified_1") me.my_ip (to_string me.my_port)
            (random ∷ []) true f,
        ok.ip_full,
        guarded,
        key_present,
        checked,
      )
      (ground arith)
