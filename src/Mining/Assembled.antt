-- ===== src/Mining/Assembled.antt =====
-- The parts of a header that `mined_header` puts together.
use snowball_dag_experiment.Base.{
  ◌<◌, arith, ℕ, ◌+◌, ◌%◌, ◌^◌, ◌≡◌, refl, subst, some, [], ◌++◌, Text,
}
use snowball_dag_experiment.Base.Outcome.{done, deref, done-bind, done-deref, done-injective}
use snowball_dag_experiment.Numbers.{to_string, string_to_blockhash, get_chain_id_from_hash}
use snowball_dag_experiment.Merkle.{compute_merkle_tree_root, compute_merkle_proof}
use snowball_dag_experiment.Merkle.Padding.{pad_leaves}
use snowball_dag_experiment.Blocks.{NetworkBlock, ConsensusPart}
use snowball_dag_experiment.Blockchain.{Blockchain}
use snowball_dag_experiment.Transactions.PoolFiles.{Files, create_block_from_transaction_pool}
use snowball_dag_experiment.Messages.{Settings}
use snowball_dag_experiment.Mining.{
  Tips, tips_loop, rank_after, MinerLimits, place_block, header_over, mined_header,
}
use snowball_dag_experiment.Mining.Trailing.{Surveys, tips_loop_lem, trailing_id_below}

module _ (sha256 : Text → Text) (ceil_power : ℕ → ℕ) (files : Files) (lim : MinerLimits)
    (st : Settings) (bc : Blockchain) (cp : ConsensusPart) (random time_of_now : ℕ) where
  -- What `place_block` puts into the header.
  pub record Placed (tips : Tips) (cp' : ConsensusPart) (nb : NetworkBlock) : Type 0 where
    pub proof :
        compute_merkle_proof sha256 (pad_leaves ceil_power tips.leaves) nb.chain_id
        ≡ some nb.proof_new_chain
    pub part : nb.consensus_part ≡ record cp' { list = [] }
    pub parent : nb.parent ≡ bc.store.hash (bc.deepest nb.chain_id)
    pub parent_header :
        (pnb : NetworkBlock) × (bc.store.nb (bc.deepest nb.chain_id) ≡ some pnb)
        × (nb.rank ≡ pnb.next_rank)
        × (nb.depth ≡ (pnb.depth + 1) % 2 ^ 32)
    pub trailing_chain : nb.trailing_id ≡ tips.trailing_id
    pub trailing_header :
        (tnb : NetworkBlock) × (bc.store.nb tips.trailing ≡ some tnb)
        × (nb.next_rank ≡ rank_after nb.rank tnb.next_rank)

  -- The header has the roots, the chain and the hash that it was made for.
  Named : Text → Text → ℕ → ℕ → NetworkBlock → Type 0
  Named root txs chain_id hash nb =
      (nb.merkle_root_chains ≡ root)
      × (nb.merkle_root_txs ≡ txs)
      × (nb.chain_id ≡ chain_id)
      × (nb.hash ≡ hash)

  place_block-Placed :
      (tips : Tips) (root txs : Text) (chain_id hash : ℕ) (cp' : ConsensusPart) (nb : NetworkBlock)
      → place_block sha256 ceil_power files lim bc tips root txs chain_id hash cp cp' time_of_now
        ≡ done nb
      → Named root txs chain_id hash nb × Placed tips cp' nb
  unfolding place_block Named
  place_block-Placed tips root txs chain_id hash cp' nb e =
      let (proof, e1, h1) =
        done-bind (deref (compute_merkle_proof sha256 (pad_leaves ceil_power tips.leaves) chain_id))
          _ e in
      let (pnb, e2, h2) = done-bind (deref (bc.store.nb (bc.deepest chain_id))) _ h1 in
      let (tnb, e3, h3) = done-bind (deref (bc.store.nb tips.trailing)) _ h2 in
      subst (λ x. Named root txs chain_id hash x × Placed tips cp' x) (done-injective h3)
        (
          (refl, refl, refl, refl),
          record {
            proof = done-deref _ e1;
            part = refl;
            parent = refl;
            parent_header = (pnb, done-deref _ e2, refl, refl);
            trailing_chain = refl;
            trailing_header = (tnb, done-deref _ e3, refl);
          },
        )

  -- The parts of a header that `mined_header` returns.
  pub record Assembled (nb : NetworkBlock) : Type 0 where
    pub tips : Tips
    pub cp' : ConsensusPart
    pub surveys : Surveys bc st.chains 0 (bc.deepest 0) tips
    pub trailing_below : 0 < st.chains → tips.trailing_id < st.chains
    pub root :
        compute_merkle_tree_root sha256 (pad_leaves ceil_power tips.leaves)
        ≡ some nb.merkle_root_chains
    pub chain :
        get_chain_id_from_hash st.chains (sha256 (nb.merkle_root_chains ++ nb.merkle_root_txs))
        ≡ some nb.chain_id
    pub hash :
        string_to_blockhash (sha256 (nb.merkle_root_chains ++ nb.merkle_root_txs)) ≡ some nb.hash
    pub created :
        create_block_from_transaction_pool sha256 ceil_power files lim.concurrency_blocks cp
        ≡ done cp'
    pub placed : Placed tips cp' nb

  assemble :
      (tips : Tips) (root txs : Text) (chain_id hash : ℕ) (cp' : ConsensusPart) (nb : NetworkBlock)
      → Surveys bc st.chains 0 (bc.deepest 0) tips
      → (0 < st.chains → tips.trailing_id < st.chains)
      → compute_merkle_tree_root sha256 (pad_leaves ceil_power tips.leaves) ≡ some root
      → get_chain_id_from_hash st.chains (sha256 (root ++ txs)) ≡ some chain_id
      → string_to_blockhash (sha256 (root ++ txs)) ≡ some hash
      → create_block_from_transaction_pool sha256 ceil_power files lim.concurrency_blocks cp
        ≡ done cp'
      → Named root txs chain_id hash nb
      → Placed tips cp' nb
      → Assembled nb
  unfolding Named
  assemble tips root txs chain_id hash cp' nb s below e1 e2 e3 e4
        (root_ok, txs_ok, chain_ok, hash_ok) p =
      record {
        tips = tips;
        cp' = cp';
        surveys = s;
        trailing_below = below;
        root = rw root_ok e1;
        chain = rw (root_ok, txs_ok, chain_ok) e2;
        hash = rw (root_ok, txs_ok, hash_ok) e3;
        created = e4;
        placed = p;
      }

  header_over-Assembled :
      (tips : Tips) (root txs : Text) (nb : NetworkBlock)
      → Surveys bc st.chains 0 (bc.deepest 0) tips
      → (0 < st.chains → tips.trailing_id < st.chains)
      → compute_merkle_tree_root sha256 (pad_leaves ceil_power tips.leaves) ≡ some root
      → header_over sha256 ceil_power files lim st bc tips root txs cp time_of_now ≡ done nb
      → Assembled nb
  unfolding header_over
  header_over-Assembled tips root txs nb s below at e =
      let h = sha256 (root ++ txs) in
      let (chain_id, e1, h1) = done-bind (deref (get_chain_id_from_hash st.chains h)) _ e in
      let (hash, e2, h2) = done-bind (deref (string_to_blockhash h)) _ h1 in
      let (cp', e3, h3) =
        done-bind
          (create_block_from_transaction_pool sha256 ceil_power files lim.concurrency_blocks cp) _
          h2 in
      let (named, p) = place_block-Placed tips root txs chain_id hash cp' nb h3 in
      assemble tips root txs chain_id hash cp' nb s below at (done-deref _ e1) (done-deref _ e2) e3
        named p

  pub mined_header-Assembled :
      (nb : NetworkBlock)
      → mined_header sha256 ceil_power files lim st bc cp random time_of_now ≡ done nb
      → Assembled nb
  unfolding mined_header
  mined_header-Assembled nb e =
      let (tips, e1, h1) = done-bind (tips_loop bc st.chains 0 (bc.deepest 0) 0) _ e in
      let (root, e2, h2) =
        done-bind (deref (compute_merkle_tree_root sha256 (pad_leaves ceil_power tips.leaves))) _
          h1 in
      header_over-Assembled tips root (to_string random) nb
        (tips_loop_lem bc st.chains 0 (bc.deepest 0) 0 tips e1)
        (λ p.
          omega (arith, trailing_id_below bc st.chains 0 (bc.deepest 0) 0 tips (omega arith) e1))
        (done-deref _ e2) h2
