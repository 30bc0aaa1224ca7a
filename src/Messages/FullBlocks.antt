-- ===== src/Messages/FullBlocks.antt =====
-- The message with the rest of a block: "#full_block".
use snowball_dag_experiment.Base.{
  ℕ, suc, ◌+◌, ◌^◌, ◌<◌, ◌≡◌, refl, sym, ap, ◌∙◌, true, false, some, List, [], ◌∷◌, ◌++◌, Text,
  bytes, lt→ltb, length, length-append, get_elem?, take, drop, All, All-append, arith,
}
use snowball_dag_experiment.Base.Outcome.{done}
use snowball_dag_experiment.Numbers.{to_string}
use snowball_dag_experiment.Numbers.Fields.{
  IsInt, Free-to_string, Free-int_to_string, to_string_full, safe_stoi-to_string,
  safe_stoi-int_to_string, safe_stoull-to_string, to_uint32-pos,
}
use snowball_dag_experiment.Split.{split}
use snowball_dag_experiment.Split.Tokens.{Free, EndsFull, drop-length, EndsFull-append}
use snowball_dag_experiment.Blocks.{NetworkBlock}
use snowball_dag_experiment.Blockchain.{Blockchain, find_block_by_hash_and_chain_id}
use snowball_dag_experiment.Messages.{
  Settings, message, is_passed, key_present, fields, guarded, checked,
}
use snowball_dag_experiment.Messages.Chain.{full_block_fields, create_full_block, parse_full_block}
use snowball_dag_experiment.Messages.Reading.{
  CanSend, sent, split-message, get_elem?-drop, fields-drop,
}
use snowball_dag_experiment.Messages.RoundTrip.{chain_block_key}

-- What a "#full_block" can hold of a header.
pub record FitsFull (nb : NetworkBlock) : Type 0 where
  pub votes_int : IsInt nb.consensus_part.verify_1_numbers
  pub trailing_ulong : nb.trailing < 2 ^ 64
  pub trailing_id_int : nb.trailing_id < 2 ^ 31
  pub chains_free : Free 44 nb.merkle_root_chains
  pub txs_free : Free 44 nb.merkle_root_txs
  pub proof_free : All (Free 44) nb.proof_new_chain
  pub time_mined_ulong : nb.time_mined < 2 ^ 64

-- The fields of `nb` that a "#full_block" holds, over `old`, and the proof after that of `old`.
abbrev pub completed : NetworkBlock → NetworkBlock → NetworkBlock
completed nb old = record old {
  consensus_part = record old.consensus_part {
    verify_1_numbers = nb.consensus_part.verify_1_numbers;
  };
  trailing = nb.trailing;
  trailing_id = nb.trailing_id;
  merkle_root_chains = nb.merkle_root_chains;
  merkle_root_txs = nb.merkle_root_txs;
  proof_new_chain = old.proof_new_chain ++ nb.proof_new_chain;
  time_mined = nb.time_mined;
}

-- The last part of the message: the proof, and two times.
last_fields :
    (p l : List Text) (a b : Text)
    → length l ≡ 10
    → let sp = l ++ (p ++ (a ∷ b ∷ [])) in
      (fields sp 10 (length p) ≡ done p)
      × (get_elem? sp (10 + length p) ≡ some a)
      × (get_elem? sp (10 + length p + 1) ≡ some b)
last_fields p l a b ten =
    let sp = l ++ (p ++ (a ∷ b ∷ [])) in
    let start : drop 10 sp ≡ p ++ (a ∷ b ∷ []) =
      ap (λ k. drop k sp) (sym ten) ∙ drop-length l (p ++ (a ∷ b ∷ [])) in
    let (read, rest) = fields-drop sp 10 p start in
    let (at_a, later) = get_elem?-drop sp (10 + length p) rest in
    let (at_b, _) = get_elem?-drop sp (suc (10 + length p)) later in
    (read, at_a, ap (get_elem? sp) (omega arith) ∙ at_b)

Free-full_block_fields :
    (chain_id hash : ℕ) (nb : NetworkBlock) (now : ℕ)
    → FitsFull nb
    → All (Free 44) (full_block_fields chain_id hash nb now)
unfolding full_block_fields
Free-full_block_fields chain_id hash nb now f = (
  Free-to_string chain_id,
  (
    Free-to_string hash,
    (
      Free-int_to_string nb.consensus_part.verify_1_numbers,
      (
        Free-to_string nb.trailing,
        (
          Free-to_string nb.trailing_id,
          (
            f.chains_free,
            (
              f.txs_free,
              All-append (Free 44) nb.proof_new_chain _ f.proof_free
                  (Free-to_string nb.time_mined, (Free-to_string now, tt)),
            ),
          ),
        ),
      ),
    ),
  ),
)

EndsFull-full_block_fields :
    (chain_id hash : ℕ) (nb : NetworkBlock) (now : ℕ)
    → EndsFull (full_block_fields chain_id hash nb now)
unfolding full_block_fields
EndsFull-full_block_fields chain_id hash nb now =
    EndsFull-append (nb.merkle_root_txs ∷ nb.proof_new_chain) _ (to_string_full now)

-- Where the block is in the main tree and has a header whose Merkle proof has the length that the
-- receiver expects, `create_full_block` makes a text whose fields, parsed with a new key, give the
-- sender, the chain, the hash, the time, and the part of the header that the message holds. The fields
-- fit into the message, the sender can send, and the chain is one of the receiver's chains.
pub parse_full_block-create_full_block :
    (me st : Settings) (passed : List Text) (bc : Blockchain) (chain_id hash b now : ℕ)
    (nb old : NetworkBlock)
    → CanSend me
    → find_block_by_hash_and_chain_id bc hash chain_id ≡ some b
    → bc.store.nb b ≡ some nb
    → FitsFull nb
    → length nb.proof_new_chain ≡ st.proof_length
    → chain_id < st.chains
    → chain_id < 2 ^ 31
    → hash < 2 ^ 64
    → now < 2 ^ 64
    → is_passed (chain_block_key (bytes "#full_block") me chain_id hash) passed ≡ false
    → (t : Text) × (create_full_block me bc chain_id hash now ≡ done t)
      × (parse_full_block st (split t (44 ∷ [])) passed old
          ≡ done (
            some (record {
              sender = record { ip = me.my_ip; port = me.my_port };
              chain_id = chain_id;
              hash = hash;
              nb = completed nb old;
              sent_time = now;
            }),
            chain_block_key (bytes "#full_block") me chain_id hash ∷ passed,
          ))
unfolding create_full_block full_block_fields parse_full_block
parse_full_block-create_full_block me st passed bc chain_id hash b now nb old ok found at f len c
      c31 h n new =
    let l = full_block_fields chain_id hash nb now in
    let (read, at_mined, at_sent) =
      last_fields nb.proof_new_chain (take 10 (sent me (bytes "#full_block") l))
        (to_string nb.time_mined) (to_string now) refl in
    (
      message me (bytes "#full_block") l,
      rw (found, at) refl,
      rw
          (
            split-message me (bytes "#full_block") l ok refl
                (Free-full_block_fields chain_id hash nb now f)
                (EndsFull-full_block_fields chain_id hash nb now),
            sym len,
            new,
            read,
            at_mined,
            at_sent,
            safe_stoi-to_string me.my_port true ok.port_int,
            safe_stoi-to_string chain_id true c31,
            safe_stoull-to_string hash true h,
            safe_stoi-int_to_string nb.consensus_part.verify_1_numbers true f.votes_int,
            safe_stoull-to_string nb.trailing true f.trailing_ulong,
            safe_stoi-to_string nb.trailing_id true f.trailing_id_int,
            safe_stoull-to_string nb.time_mined true f.time_mined_ulong,
            safe_stoull-to_string now true n,
            to_uint32-pos me.my_port ok.port_int,
            to_uint32-pos chain_id c31,
            to_uint32-pos nb.trailing_id f.trailing_id_int,
            ok.ip_full,
            lt→ltb chain_id st.chains c,
            guarded,
            key_present,
            checked,
          )
          (ground (
            arith,
            length-append nb.proof_new_chain (to_string nb.time_mined ∷ to_string now ∷ []),
          )),
    )
