-- ===== src/Handlers/FullBlocks/Verified.antt =====
-- What a block went through that a "#full_block" made full.
use snowball_dag_experiment.Base.{
  ℕ, ◌<◌, ◌≡◌, refl, sym, ap, ◌∙◌, inl, inr, Bool, true, false, not, Option, none, some, ◌++◌, Text,
  ◌==◌, ltb, if◌then◌else◌, arith, Bool-cases, Option-cases,
}
use snowball_dag_experiment.Base.Outcome.{Outcome, done, deref, done-bind, done-deref}
use snowball_dag_experiment.Numbers.{get_chain_id_from_hash, string_to_blockhash}
use snowball_dag_experiment.Merkle.{verify_merkle_proof}
use snowball_dag_experiment.Blocks.{NetworkBlock, update, set_nb}
use snowball_dag_experiment.Blockchain.{
  Blockchain, find_block_by_hash_and_chain_id, have_full_block,
}
use snowball_dag_experiment.Waiting.{add_total_verify_blocks}
use snowball_dag_experiment.Waiting.Full.{set_received, set_full, set_block_full}
use snowball_dag_experiment.Messages.{Settings}
use snowball_dag_experiment.Messages.Chain.{FullBlock}
use snowball_dag_experiment.Handlers.{done-within, Limits, Node, act}
use snowball_dag_experiment.Handlers.Rounds.Balanced.{advance_round_keeps}
use snowball_dag_experiment.Handlers.Votes.{is_enough}
use snowball_dag_experiment.Handlers.FullBlocks.{
  add_from, Verdict, incorrect, no_trailing, correct, check_header, is_left_out, store_block,
  complete_block, fill_block, on_full_block,
}

-- A block that is not full in a node is not full in the same node.
unchanged :
    (n n' : Node) (c : ℕ)
    → done n ≡ done n'
    → n.bc.store.is_full_block c ≡ false
    → n'.bc.store.is_full_block c ≡ true
    → ⊥
unchanged n n' c e f h =
    let same : n ≡ n' = cc in cc (f, ap (λ x. x.bc.store.is_full_block c) same, h)

same_block : (b c : ℕ) (f : Bool) → (if b == c then true else f) ≡ true → f ≡ false → b ≡ c
same_block b c f h g = ground (arith)

passes :
    (b : Bool) (o : Outcome Verdict)
    → (if not b then done incorrect else o) ≡ done correct
    → (b ≡ true) × (o ≡ done correct)
passes true o e = (refl, e)
passes false o e = absurd (cc)

trailing_found :
    (o : Option ℕ)
    → (elim o [ none ↦ done no_trailing | some b ↦ done correct ]) ≡ done correct
    → (t : ℕ) × (o ≡ some t)
trailing_found none e = absurd (cc)
trailing_found (some t) e = (t, refl)

-- Of the three verdicts, only the last makes a block full.
only_correct :
    (v : Verdict) (n1 n2 n3 n' : Node) (c : ℕ)
    → done (elim v [ incorrect ↦ n1 | no_trailing ↦ n2 | correct ↦ n3 ]) ≡ done n'
    → n1.bc.store.is_full_block c ≡ false
    → n2.bc.store.is_full_block c ≡ false
    → n'.bc.store.is_full_block c ≡ true
    → (v ≡ correct) × (n3 ≡ n')
only_correct incorrect n1 n2 n3 n' c e f g h = absurd (unchanged n1 n' c e f h)
only_correct no_trailing n1 n2 n3 n' c e f g h = absurd (unchanged n2 n' c e g h)
only_correct correct n1 n2 n3 n' c e f g h = (refl, cc)

set_received_keeps :
    (bc : Blockchain) (b : ℕ) (nb : NetworkBlock) (now : ℕ)
    → (set_received bc b nb now).store.is_full_block ≡ bc.store.is_full_block
unfolding set_received set_nb
set_received_keeps bc b nb now = elim (Bool-cases (ltb nb.time_mined now)) [
  | inl later ↦ rw (later, set_received) refl
  | inr early ↦ rw (early, set_received) refl
]

set_block_full_lem :
    (bc : Blockchain) (chain_id hash now b c : ℕ)
    → find_block_by_hash_and_chain_id bc hash chain_id ≡ some b
    → (set_block_full bc chain_id hash now).store.is_full_block c
      ≡ (if b == c then true else bc.store.is_full_block c)
unfolding set_block_full set_full update
set_block_full_lem bc chain_id hash now b c found = elim (Option-cases (bc.store.nb b)) [
  | inl empty ↦ rw (found, empty, set_block_full) refl
  | inr (nb, stored) ↦
      rw (found, stored, set_block_full) (ap (λ f. f c) (set_received_keeps _ b nb now))
]

module _ (digest : Text → Text) where
  -- The checks that a header passed.
  pub record IsChecked (st : Settings) (bc : Blockchain) (nb : NetworkBlock) : Type 0 where
    pub chain :
        get_chain_id_from_hash st.chains (digest (nb.merkle_root_chains ++ nb.merkle_root_txs))
        ≡ some nb.chain_id
    pub hash :
        string_to_blockhash (digest (nb.merkle_root_chains ++ nb.merkle_root_txs)) ≡ some nb.hash
    pub proof :
        verify_merkle_proof digest nb.proof_new_chain nb.parent nb.merkle_root_chains nb.chain_id
        ≡ some true
    pub trailing_chain : nb.trailing_id < st.chains
    pub trailing :
        (t : ℕ) × (find_block_by_hash_and_chain_id bc nb.trailing nb.trailing_id ≡ some t)

  check_header-IsChecked :
      (st : Settings) (bc : Blockchain) (nb : NetworkBlock)
      → check_header digest st bc nb ≡ done correct
      → IsChecked st bc nb
  unfolding check_header
  check_header-IsChecked st bc nb e =
      let h = digest (nb.merkle_root_chains ++ nb.merkle_root_txs) in
      let (c, e1, e2) = done-bind (deref (get_chain_id_from_hash st.chains h)) _ e in
      let (p, e3) = passes (c == nb.chain_id) _ e2 in
      let same_chain : c ≡ nb.chain_id = ground (arith, p) in
      let (k, e4, e5) = done-bind (deref (string_to_blockhash h)) _ e3 in
      let (q, e6) = passes (k == nb.hash) _ e5 in
      let same_hash : k ≡ nb.hash = ground (arith, q) in
      let (proved, e7, e8) =
        done-bind
          (deref (verify_merkle_proof digest nb.proof_new_chain nb.parent nb.merkle_root_chains c))
          _ e6 in
      let (r, e9) = passes proved _ e8 in
      let (there, e10) = done-within st.chains nb.trailing_id _ e9 in
      record {
        chain = done-deref (get_chain_id_from_hash st.chains h) e1 ∙ ap some same_chain;
        hash = done-deref (string_to_blockhash h) e4 ∙ ap some same_hash;
        proof =
            ap (verify_merkle_proof digest nb.proof_new_chain nb.parent nb.merkle_root_chains)
              (sym same_chain)
            ∙ done-deref _ e7
            ∙ ap some r;
        trailing_chain = there;
        trailing =
            trailing_found (find_block_by_hash_and_chain_id bc nb.trailing nb.trailing_id) e10;
      }

  -- The block that becomes full, and the others.
  complete_block_lem :
      (st : Settings) (n : Node) (q : FullBlock) (nb : NetworkBlock) (tx_size now b c : ℕ)
      → find_block_by_hash_and_chain_id n.bc q.hash q.chain_id ≡ some b
      → (complete_block digest st n q nb tx_size now).bc.store.is_full_block c
        ≡ (if b == c then true else n.bc.store.is_full_block c)
  unfolding complete_block store_block act add_total_verify_blocks
  complete_block_lem st n q nb tx_size now b c found =
      elim (Bool-cases (is_left_out digest st n.group nb.consensus_part.round)) [
        | inl out ↦ rw out (
            ap (λ s. s.is_full_block c)
              (advance_round_keeps (store_block digest n q nb tx_size now)).0
            ∙ set_block_full_lem n.bc q.chain_id q.hash now b c found)
        | inr in_group ↦ rw in_group (set_block_full_lem n.bc q.chain_id q.hash now b c found)
      ]

  -- The block `c` of the node was known with the header `nb`, and the message `q` has enough votes for
  -- it and completes the header to one that passes the checks.
  pub record IsVerified (st : Settings) (lim : Limits) (n : Node) (q : FullBlock) (c : ℕ)
      : Type 0 where
    pub nb : NetworkBlock
    pub known : find_block_by_hash_and_chain_id n.bc q.hash q.chain_id ≡ some c
    pub stored : n.bc.store.nb c ≡ some nb
    pub votes : is_enough lim q.nb.consensus_part.verify_1_numbers ≡ true
    pub checked : IsChecked st n.bc (add_from nb q.nb)

  fill_block_lem :
      (st : Settings) (n n' : Node) (q : FullBlock) (b : ℕ) (nb : NetworkBlock) (tx_size now c : ℕ)
      → find_block_by_hash_and_chain_id n.bc q.hash q.chain_id ≡ some b
      → fill_block digest st n q b nb tx_size now ≡ done n'
      → n.bc.store.is_full_block c ≡ false
      → n'.bc.store.is_full_block c ≡ true
      → (b ≡ c) × IsChecked st n.bc nb
  unfolding fill_block act set_nb find_block_by_hash_and_chain_id
  fill_block_lem st n n' q b nb tx_size now c found e before after =
      let n1 : Node = record n { bc = record n.bc { store = set_nb n.bc.store b nb } } in
      let (v, e1, e2) = done-bind (check_header digest st n1.bc nb) _ e in
      let (good, e3) =
        only_correct v n1 _ (complete_block digest st n1 q nb tx_size now) n' c e2 before before
          after in
      let full =
        sym (complete_block_lem st n1 q nb tx_size now b c found)
        ∙ ap (λ x. x.bc.store.is_full_block c) e3
        ∙ after in
      let k = check_header-IsChecked st n1.bc nb (e1 ∙ ap done good) in
      (
        same_block b c (n.bc.store.is_full_block c) full before,
        record {
          chain = k.chain;
          hash = k.hash;
          proof = k.proof;
          trailing_chain = k.trailing_chain;
          trailing = k.trailing;
        },
      )

  -- A block that the handler of "#full_block" makes full was known with a header, the message has
  -- enough votes for it, and the header with the parts from the message is correct: its digest gives
  -- the chain and the hash of the block, the Merkle proof holds for its parent, and the trailing block
  -- is known, in one of the chains of the node.
  pub on_full_block-IsVerified :
      (st : Settings) (lim : Limits) (n n' : Node) (q : FullBlock) (tx_size now c : ℕ)
      → on_full_block digest st lim n q tx_size now ≡ done n'
      → n.bc.store.is_full_block c ≡ false
      → n'.bc.store.is_full_block c ≡ true
      → IsVerified st lim n q c
  unfolding on_full_block
  on_full_block-IsVerified st lim n n' q tx_size now c e before after =
      elim (Bool-cases (have_full_block n.bc q.chain_id q.hash)) [
        | inl full ↦ absurd (unchanged n n' c (sym (rw full refl) ∙ e) before after)
        | inr part ↦ elim (Option-cases (find_block_by_hash_and_chain_id n.bc q.hash q.chain_id)) [
          | inl unknown ↦ absurd (unchanged n n' c (sym (rw (part, unknown) refl) ∙ e) before after)
          | inr (b, known) ↦ elim (Option-cases (n.bc.store.nb b)) [
            | inl bare ↦
                absurd (unchanged n n' c (sym (rw (part, known, bare) refl) ∙ e) before after)
            | inr (nb, stored) ↦
                elim (Bool-cases (is_enough lim q.nb.consensus_part.verify_1_numbers)) [
                  | inr few ↦
                      absurd (
                        unchanged n n' c (sym (rw (part, known, stored, few) refl) ∙ e) before
                          after)
                  | inl enough ↦
                      let run : fill_block digest st n q b (add_from nb q.nb) tx_size now
                          ≡ done n' =
                        sym (rw (part, known, stored, enough) refl) ∙ e in
                      let (this, checked) =
                        fill_block_lem st n n' q b (add_from nb q.nb) tx_size now c known run before
                          after in
                      record {
                        nb = nb;
                        known = known ∙ ap some this;
                        stored = ap n.bc.store.nb (sym this) ∙ stored;
                        votes = enough;
                        checked = checked;
                      }
                ]
          ]
        ]
      ]
