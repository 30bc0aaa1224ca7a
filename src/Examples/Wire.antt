-- ===== src/Examples/Wire.antt =====
-- Tests of Split and Messages: a node at 10.0.0.7 writes to one with 4 chains.
use snowball_dag_experiment.Base.{
  ℕ, zero, suc, ◌≡◌, refl, true, false, none, some, List, [], ◌∷◌, pos, Text, bytes, arith, take,
  concat,
}
use snowball_dag_experiment.Base.Outcome.{done, fault}
use snowball_dag_experiment.Numbers.{int_to_string}
use snowball_dag_experiment.Split.{split}
use snowball_dag_experiment.Split.Tokens.{Free-is_free, tokens, split-tokens}
use snowball_dag_experiment.Blocks.{update, set_nb, NetworkBlock}
use snowball_dag_experiment.Blockchain.{Blockchain, find_block_by_hash_and_chain_id}
use snowball_dag_experiment.HashTree.{find_block_by_hash}
use snowball_dag_experiment.Messages.{Settings, guarded, is_passed, key_present}
use snowball_dag_experiment.Messages.Chain.{
  parse_ask_block, create_process_block, parse_process_block, parse_got_full_block,
  parse_have_full_block, parse_ask_full_block, create_full_block, parse_full_block,
}
use snowball_dag_experiment.Messages.Round.{
  parse_ping, parse_mining_succeed, parse_consensus_block, parse_have_consensus_block,
  parse_verified_1_info, parse_answer_verified_1_info, parse_transaction,
}
use snowball_dag_experiment.Messages.Reading.{CanSend}
use snowball_dag_experiment.Messages.RoundTrip.{chain_block_key}
use snowball_dag_experiment.Messages.Headers.{
  Fits, received, header_key, parse_process_block-create_process_block,
}
use snowball_dag_experiment.Messages.FullBlocks.{
  FitsFull, completed, parse_full_block-create_full_block,
}
use snowball_dag_experiment.Messages.Refusals.{none_yet, after_one, guarded_twice}
use snowball_dag_experiment.Messages.Returns.{Returns, parsers_return}
use snowball_dag_experiment.Messages.PastEnd.{parsers_read_past_end}
use snowball_dag_experiment.Examples.Trees.{header}
use snowball_dag_experiment.Examples.Chains.{node_state}

abbrev pub me : Settings
me = record {
  my_ip = bytes "10.0.0.7";
  my_port = 8001;
  chains = 4;
  print_transmission_errors = true;
  proof_length = 3;
}

pub me-CanSend : CanSend me
me-CanSend = record {
  ip_free = Free-is_free 44 (bytes "10.0.0.7") refl;
  ip_full = refl;
  port_int = omega arith;
}

-- A header that a message can hold.
abbrev pub sent_header : NetworkBlock
sent_header = record (header 50 55 1) {
  consensus_part = record (header 50 55 1).consensus_part {
    merkel_root_of_txs = bytes "ab";
    list = bytes "7";
  };
}

sent_header-Fits : Fits sent_header
sent_header-Fits = record {
  chain_id_int = omega arith;
  parent_ulong = omega arith;
  hash_ulong = omega arith;
  no_txs_int = omega arith;
  depth_int = omega arith;
  rank_int = omega arith;
  next_rank_int = omega arith;
  round_int = omega arith;
  order_int = omega arith;
  first_int = omega arith;
  second_int = omega arith;
  root_free = Free-is_free 44 (bytes "ab") refl;
}

split-tokens_example : split (bytes "a,,b,") (44 ∷ []) ≡ tokens 44 (bytes "a,,b,")
split-tokens_example = split-tokens (bytes "a,,b,") 44

three_tokens : tokens 44 (bytes "a,,b,") ≡ bytes "a" ∷ [] ∷ bytes "b" ∷ []
unfolding tokens
three_tokens = refl

not_passed : (k : Text) → is_passed k [] ≡ false
unfolding is_passed
not_passed k = refl

parse_process_block-create_process_block_example :
    parse_process_block me (split (create_process_block me sent_header) (44 ∷ [])) [] (header 0 0 0)
    ≡ done (
      some (record { ip = bytes "10.0.0.7"; port = 8001 }, received sent_header (header 0 0 0)),
      header_key (bytes "#process_block") me sent_header ∷ [],
    )
parse_process_block-create_process_block_example =
    parse_process_block-create_process_block me me [] sent_header (header 0 0 0) me-CanSend
      sent_header-Fits (λ e. cc) (omega arith)
      (not_passed (header_key (bytes "#process_block") me sent_header))

-- The block 50 with the rest of its header.
abbrev full_header : NetworkBlock
full_header = record (header 40 50 0) {
  merkle_root_chains = bytes "c";
  merkle_root_txs = bytes "t";
  proof_new_chain = bytes "p" ∷ bytes "q" ∷ bytes "c" ∷ [];
}

abbrev holding : Blockchain
holding = record node_state { store = set_nb node_state.store 0 full_header }

found : find_block_by_hash_and_chain_id holding 50 2 ≡ some 0
unfolding find_block_by_hash_and_chain_id find_block_by_hash set_nb
found = refl

stored : holding.store.nb 0 ≡ some full_header
unfolding set_nb update
stored = refl

full_header-FitsFull : FitsFull full_header
full_header-FitsFull = record {
  votes_int = omega arith;
  trailing_ulong = omega arith;
  trailing_id_int = omega arith;
  chains_free = Free-is_free 44 (bytes "c") refl;
  txs_free = Free-is_free 44 (bytes "t") refl;
  proof_free = (
    Free-is_free 44 (bytes "p") refl,
    (Free-is_free 44 (bytes "q") refl, (Free-is_free 44 (bytes "c") refl, tt)),
  );
  time_mined_ulong = omega arith;
}

parse_full_block-create_full_block_example :
    (t : Text) × (create_full_block me holding 2 50 99 ≡ done t)
    × (parse_full_block me (split t (44 ∷ [])) [] (header 0 0 0)
        ≡ done (
          some (record {
            sender = record { ip = bytes "10.0.0.7"; port = 8001 };
            chain_id = 2;
            hash = 50;
            nb = completed full_header (header 0 0 0);
            sent_time = 99;
          }),
          chain_block_key (bytes "#full_block") me 2 50 ∷ [],
        ))
parse_full_block-create_full_block_example =
    parse_full_block-create_full_block me me [] holding 2 50 0 99 full_header (header 0 0 0)
      me-CanSend found stored full_header-FitsFull refl (omega arith) (omega arith) (omega arith)
      (omega arith) (not_passed (chain_block_key (bytes "#full_block") me 2 50))

abbrev round_fields : List Text
round_fields =
    int_to_string (pos 1)
    ∷ int_to_string (pos 0)
    ∷ int_to_string (pos 0)
    ∷ int_to_string (pos 0)
    ∷ []

-- The keys "1" "23" and "12" "3" are one.
first_run :
    guarded {A = ℕ} 2 2 (bytes "1" ∷ bytes "23" ∷ []) [] (done (some 7))
    ≡ done (some 7, bytes "123" ∷ [])
unfolding guarded key_present is_passed
first_run = refl

second_run :
    guarded {A = ℕ} 1 1 (bytes "4" ∷ []) (bytes "123" ∷ []) (done (some 9))
    ≡ done (some 9, bytes "4" ∷ bytes "123" ∷ [])
unfolding guarded key_present is_passed snowball_dag_experiment.Base.Strings.text_eq
second_run = refl

-- Chain 1 and hash 23, another message, and chain 12 and hash 3.
guarded_twice_example :
    guarded {A = ℕ} 2 2 (bytes "12" ∷ bytes "3" ∷ []) (bytes "4" ∷ bytes "123" ∷ []) (done (some 8))
    ≡ done (none, bytes "4" ∷ bytes "123" ∷ [])
guarded_twice_example =
    guarded_twice {A = ℕ} {B = ℕ} 2 2 2 2 (bytes "1" ∷ bytes "23" ∷ [])
      (bytes "12" ∷ bytes "3" ∷ []) [] (bytes "123" ∷ []) (bytes "4" ∷ bytes "123" ∷ [])
      (done (some 7)) (done (some 8)) (some 7) first_run refl
      (after_one {A = ℕ} 1 1 (bytes "4" ∷ []) (bytes "123" ∷ []) _ (done (some 9)) (some 9) none_yet
        second_run)
      refl

parsers_return_example :
    Returns (parse_ask_block me (bytes "#x" ∷ []) [])
    × Returns (parse_got_full_block me (bytes "#x" ∷ []) [])
    × Returns (parse_have_full_block me (bytes "#x" ∷ []) [])
    × Returns (parse_ask_full_block me (bytes "#x" ∷ []) [])
    × Returns (parse_process_block me (bytes "#x" ∷ []) [] sent_header)
    × Returns (parse_ping me (bytes "#x" ∷ []) [])
    × Returns (parse_mining_succeed me (bytes "#x" ∷ []) [])
    × Returns (parse_consensus_block me (bytes "#x" ∷ []) [] sent_header.consensus_part)
    × Returns (parse_have_consensus_block me (bytes "#x" ∷ []) [])
    × Returns (parse_verified_1_info me (bytes "#x" ∷ []) [] sent_header)
    × Returns (parse_answer_verified_1_info me (bytes "#x" ∷ []) [])
parsers_return_example =
    parsers_return me (bytes "#x" ∷ []) [] sent_header sent_header.consensus_part

abbrev blanks : ℕ → List Text
blanks zero = []
blanks (suc n) = bytes "0" ∷ blanks n

parsers_read_past_end_example :
    (parse_transaction me (blanks 4) [] ≡ fault)
    × (parse_full_block me (blanks 14) [] sent_header ≡ fault)
parsers_read_past_end_example =
    parsers_read_past_end me (blanks 4) (blanks 14) [] sent_header refl
      (not_passed (concat (take 4 (blanks 4)))) refl (not_passed (concat (take 5 (blanks 14))))
