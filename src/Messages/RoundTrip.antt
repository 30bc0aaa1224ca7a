-- ===== src/Messages/RoundTrip.antt =====
-- The parsers of the messages about blocks read what the other node made.
use snowball_dag_experiment.Base.{
  ℕ, ◌^◌, ◌<◌, ◌≡◌, refl, true, false, some, List, [], ◌∷◌, Text, bytes, concat, lt→ltb, arith,
}
use snowball_dag_experiment.Base.Outcome.{done}
use snowball_dag_experiment.Numbers.{to_string}
use snowball_dag_experiment.Numbers.Fields.{
  Free-to_string, to_string_full, safe_stoi-to_string, safe_stoull-to_string, to_uint32-pos,
}
use snowball_dag_experiment.Split.{split}
use snowball_dag_experiment.Split.Tokens.{is_free}
use snowball_dag_experiment.Messages.{
  Settings, message, is_passed, key_present, field, guarded, checked,
}
use snowball_dag_experiment.Messages.Chain.{
  asked_blocks, create_ask_block, parse_ask_block, ChainBlock, create_got_full_block,
  parse_got_full_block, create_have_full_block, parse_have_full_block, create_ask_full_block,
  parse_ask_full_block,
}
use snowball_dag_experiment.Messages.Reading.{CanSend, split-message}

abbrev pub ask_block_key : Settings → ℕ → ℕ → Text
ask_block_key me chain_id hash = concat (
    bytes "#ask_block" ∷ me.my_ip ∷ to_string me.my_port ∷ to_string chain_id ∷ to_string hash ∷ [])

asked_blocks_small :
    (my_depth hash_depth : ℕ) → hash_depth < 2 ^ 31 → asked_blocks my_depth hash_depth < 2 ^ 31
unfolding asked_blocks
asked_blocks_small my_depth hash_depth h = ground arith

-- The fields that `split` makes of the text of `create_ask_block`, parsed with a new key, give the
-- sender, the chain, the hash and the number of blocks to ask for, and the key is noted. The sender's
-- address has no comma and is not empty; its port, the chain and the depth of the hash are below 2^31,
-- the hash below 2^64, and the chain is one of the receiver's chains.
pub parse_ask_block-create_ask_block :
    (me st : Settings) (passed : List Text) (chain_id hash my_depth hash_depth : ℕ)
    → CanSend me
    → chain_id < st.chains
    → chain_id < 2 ^ 31
    → hash < 2 ^ 64
    → hash_depth < 2 ^ 31
    → is_passed (ask_block_key me chain_id hash) passed ≡ false
    → parse_ask_block st
        (split (create_ask_block me chain_id hash my_depth hash_depth) (44 ∷ []))
        passed
      ≡ done (
        some (record {
          sender = record { ip = me.my_ip; port = me.my_port };
          chain_id = chain_id;
          hash = hash;
          max_number_of_blocks = asked_blocks my_depth hash_depth;
        }),
        ask_block_key me chain_id hash ∷ passed,
      )
unfolding create_ask_block parse_ask_block field
parse_ask_block-create_ask_block me st passed chain_id hash my_depth hash_depth ok c c31 h d new =
    let l =
      to_string chain_id ∷ to_string hash ∷ to_string (asked_blocks my_depth hash_depth) ∷ [] in
    rw
      (
        split-message me (bytes "#ask_block") l ok refl
            (Free-to_string chain_id, (Free-to_string hash, (Free-to_string _, tt)))
            (to_string_full _),
        new,
        safe_stoi-to_string me.my_port true ok.port_int,
        safe_stoi-to_string chain_id true c31,
        safe_stoull-to_string hash true h,
        safe_stoi-to_string (asked_blocks my_depth hash_depth) true
            (asked_blocks_small my_depth hash_depth d),
        to_uint32-pos me.my_port ok.port_int,
        to_uint32-pos chain_id c31,
        to_uint32-pos (asked_blocks my_depth hash_depth) (asked_blocks_small my_depth hash_depth d),
        ok.ip_full,
        lt→ltb chain_id st.chains c,
        guarded,
        key_present,
        checked,
      )
      (ground arith)

-- The key of the three messages about a full block, of which `tag` is the name.
abbrev pub chain_block_key : Text → Settings → ℕ → ℕ → Text
chain_block_key tag me chain_id hash =
    concat (tag ∷ me.my_ip ∷ to_string me.my_port ∷ to_string chain_id ∷ to_string hash ∷ [])

chain_block_message :
    (tag : Text) (me st : Settings) (passed : List Text) (chain_id hash : ℕ)
    → is_free 44 tag ≡ true
    → CanSend me
    → chain_id < st.chains
    → chain_id < 2 ^ 31
    → hash < 2 ^ 64
    → is_passed (chain_block_key tag me chain_id hash) passed ≡ false
    → parse_got_full_block st
        (split (message me tag (to_string chain_id ∷ to_string hash ∷ [])) (44 ∷ []))
        passed
      ≡ done (
        some (record {
          sender = record { ip = me.my_ip; port = me.my_port };
          chain_id = chain_id;
          hash = hash;
        }),
        chain_block_key tag me chain_id hash ∷ passed,
      )
unfolding parse_got_full_block
chain_block_message tag me st passed chain_id hash f ok c c31 h new =
    rw
      (
        split-message me tag (to_string chain_id ∷ to_string hash ∷ []) ok f
            (Free-to_string chain_id, (Free-to_string hash, tt)) (to_string_full hash),
        new,
        safe_stoi-to_string me.my_port true ok.port_int,
        safe_stoi-to_string chain_id true c31,
        safe_stoull-to_string hash true h,
        to_uint32-pos me.my_port ok.port_int,
        to_uint32-pos chain_id c31,
        ok.ip_full,
        lt→ltb chain_id st.chains c,
        guarded,
        key_present,
        checked,
      )
      (ground arith)

-- The messages "#got_full_block", "#have_full_block" and "#ask_full_block", made for a chain and a hash,
-- split and parsed with new keys, all give the sender, the chain and the hash. The sender's address has
-- no comma and is not empty; its port and the chain are below 2^31, the hash below 2^64, and the chain
-- is one of the receiver's chains.
pub chain_block_round_trips :
    (me st : Settings) (passed : List Text) (chain_id hash : ℕ)
    → CanSend me
    → chain_id < st.chains
    → chain_id < 2 ^ 31
    → hash < 2 ^ 64
    → is_passed (chain_block_key (bytes "#got_full_block") me chain_id hash) passed ≡ false
    → is_passed (chain_block_key (bytes "#have_full_block") me chain_id hash) passed ≡ false
    → is_passed (chain_block_key (bytes "#ask_full_block") me chain_id hash) passed ≡ false
    → (b : ChainBlock) × (b ≡ record {
      sender = record { ip = me.my_ip; port = me.my_port };
      chain_id = chain_id;
      hash = hash;
    })
      × (parse_got_full_block st (split (create_got_full_block me chain_id hash) (44 ∷ [])) passed
          ≡ done (some b, chain_block_key (bytes "#got_full_block") me chain_id hash ∷ passed))
      × (parse_have_full_block st (split (create_have_full_block me chain_id hash) (44 ∷ [])) passed
          ≡ done (some b, chain_block_key (bytes "#have_full_block") me chain_id hash ∷ passed))
      × (parse_ask_full_block st (split (create_ask_full_block me chain_id hash) (44 ∷ [])) passed
          ≡ done (some b, chain_block_key (bytes "#ask_full_block") me chain_id hash ∷ passed))
unfolding create_got_full_block create_have_full_block create_ask_full_block parse_have_full_block
    parse_ask_full_block
chain_block_round_trips me st passed chain_id hash ok c c31 h n1 n2 n3 = (
  _,
  refl,
  chain_block_message (bytes "#got_full_block") me st passed chain_id hash refl ok c c31 h n1,
  chain_block_message (bytes "#have_full_block") me st passed chain_id hash refl ok c c31 h n2,
  chain_block_message (bytes "#ask_full_block") me st passed chain_id hash refl ok c c31 h n3,
)
