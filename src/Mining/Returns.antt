-- ===== src/Mining/Returns.antt =====
-- `mine_new_block` of miner.cpp returns.
use snowball_dag_experiment.Base.{
  ℕ, zero, suc, ◌+◌, ◌<◌, ◌≡◌, refl, sym, ap, ◌∙◌, subst, inl, inr, some, List, ◌∷◌, ◌++◌, Text,
  ltb, if◌then◌else◌, ◌^◌, length, get_elem?, arith, Bool-cases,
}
use snowball_dag_experiment.Base.Outcome.{Outcome, done, ◌>>=◌, deref}
use snowball_dag_experiment.Numbers.{
  to_string, blockhash_to_string, string_to_blockhash, get_chain_id_from_hash,
}
use snowball_dag_experiment.Numbers.Digest.{IsDigest, digest_reads}
use snowball_dag_experiment.Merkle.{compute_merkle_proof}
use snowball_dag_experiment.Merkle.Complete.{verify_merkle_proof-compute_merkle_proof}
use snowball_dag_experiment.Merkle.Padding.{
  pad_leaves, Ceils, length-pad_leaves, get_elem?-pad_leaves,
}
use snowball_dag_experiment.Blocks.{NetworkBlock, ConsensusPart}
use snowball_dag_experiment.Blockchain.{Blockchain}
use snowball_dag_experiment.Transactions.PoolFiles.{Files, create_block_from_transaction_pool}
use snowball_dag_experiment.Messages.{Settings}
use snowball_dag_experiment.Mining.{
  Tips, tips_loop, MinerLimits, place_block, header_over, mined_header, mine_new_block,
}
use snowball_dag_experiment.Mining.Trailing.{Surveys, tips_loop_lem}
use snowball_dag_experiment.Mining.Accepted.{below_chains}

abbrev pub HasHeader : Blockchain → ℕ → Type 0
HasHeader bc b = (nb : NetworkBlock) × (bc.store.nb b ≡ some nb)

bind_returns :
    {A B : Type 0} (m : Outcome A) (f : A → Outcome B) (a : A)
    → m ≡ done a
    → (b : B) × (f a ≡ done b)
    → (b : B) × ((m >>= f) ≡ done b)
bind_returns m f a e (b, h) = (b, rw e h)

-- The loop over chains whose deepest blocks have headers.
tips_loop_returns :
    (bc : Blockchain) (n i t id : ℕ)
    → ((c : ℕ) → c < i + n → HasHeader bc (bc.deepest c))
    → HasHeader bc t
    → (tips : Tips) × (tips_loop bc n i t id ≡ done tips) × HasHeader bc tips.trailing
unfolding tips_loop
tips_loop_returns bc zero i t id all at = (_, refl, at)
tips_loop_returns bc (suc n) i t id all (tnb, at) =
    let (nb, tip) = all i (omega arith) in
    let later = ltb tnb.next_rank nb.next_rank in
    let last : HasHeader bc (if later then bc.deepest i else t) = elim (Bool-cases later) [
      | inl q ↦ (nb, rw q tip)
      | inr q ↦ (tnb, rw q at)
    ] in
    let (tips, e, trailing) =
      tips_loop_returns bc n (suc i) (if later then bc.deepest i else t) (if later then i else id)
        (λ c lt. all c (omega arith)) last in
    let leaf = blockhash_to_string (bc.store.hash (bc.deepest i)) in
    let found : Tips = record tips { leaves = leaf ∷ tips.leaves } in
    (found, rw (tip, at, e, tips_loop) refl, trailing)

module _ (sha256 : Text → Text) (ceil_power : ℕ → ℕ) (files : Files) (lim : MinerLimits)
    (st : Settings) (bc : Blockchain) (cp : ConsensusPart) (random time_of_now : ℕ) where
  place_block_returns :
      (tips : Tips) (root txs : Text) (chain_id hash : ℕ) (cp' : ConsensusPart) (proof : List Text)
      → compute_merkle_proof sha256 (pad_leaves ceil_power tips.leaves) chain_id ≡ some proof
      → HasHeader bc (bc.deepest chain_id)
      → HasHeader bc tips.trailing
      → (nb : NetworkBlock) × (place_block sha256 ceil_power files lim bc tips root txs chain_id
            hash cp cp' time_of_now
          ≡ done nb)
  unfolding place_block
  place_block_returns tips root txs chain_id hash cp' proof e (pnb, at_p) (tnb, at_t) =
      bind_returns
        (deref (compute_merkle_proof sha256 (pad_leaves ceil_power tips.leaves) chain_id)) _ proof
        (ap deref e)
        (bind_returns (deref (bc.store.nb (bc.deepest chain_id))) _ pnb (ap deref at_p)
          (bind_returns (deref (bc.store.nb tips.trailing)) _ tnb (ap deref at_t) (_, refl)))

  -- The rest of `mined_header`, for leaves that stand under a root.
  header_over_returns :
      (k : ℕ) (tips : Tips) (root txs : Text) (cp' : ConsensusPart)
      → 0 < st.chains
      → length (pad_leaves ceil_power tips.leaves) ≡ 2 ^ k
      → Surveys bc st.chains 0 (bc.deepest 0) tips
      → ((t : Text) → IsDigest (sha256 t))
      → ((c : ℕ) → c < st.chains → HasHeader bc (bc.deepest c))
      → HasHeader bc tips.trailing
      → create_block_from_transaction_pool sha256 ceil_power files lim.concurrency_blocks cp
        ≡ done cp'
      → (nb : NetworkBlock) × (header_over sha256 ceil_power files lim st bc tips root txs cp
            time_of_now
          ≡ done nb)
  unfolding header_over
  header_over_returns k tips root txs cp' pos size s digest all trailing created =
      let h = sha256 (root ++ txs) in
      let ((chain_id, e1), (hash, e2, _)) = digest_reads st.chains h (digest (root ++ txs)) in
      let lt = below_chains st.chains chain_id h pos e1 in
      let bh = bc.store.hash (bc.deepest chain_id) in
      let leaf : get_elem? (pad_leaves ceil_power tips.leaves) chain_id
          ≡ some (blockhash_to_string bh) =
        get_elem?-pad_leaves ceil_power tips.leaves chain_id _ (s.leaf chain_id lt)
        ∙ ap (λ c. some (blockhash_to_string (bc.store.hash (bc.deepest c)))) {y = chain_id}
            (omega arith) in
      let (proof, _, e3, _, _, _) =
        verify_merkle_proof-compute_merkle_proof sha256 (pad_leaves ceil_power tips.leaves) k
          chain_id bh size leaf in
      bind_returns (deref (get_chain_id_from_hash st.chains h)) _ chain_id (ap deref e1) (
        bind_returns (deref (string_to_blockhash h)) _ hash (ap deref e2) (
          bind_returns
            (create_block_from_transaction_pool sha256 ceil_power files lim.concurrency_blocks cp) _
            cp' created
            (place_block_returns tips root txs chain_id hash cp' proof e3 (all chain_id lt)
              trailing)))

  -- `mine_new_block` returns, with one chain at least: where the digest gives 64 hexadecimal digits, the
  -- size of the tree is a power of two that is not below the number of chains, every chain tip has a
  -- header, and the pre-block can be made from the files.
  pub mine_new_block_returns :
      (k : ℕ) (cp' : ConsensusPart)
      → 0 < st.chains
      → Ceils ceil_power st.chains k
      → ((t : Text) → IsDigest (sha256 t))
      → ((c : ℕ) → c < st.chains → HasHeader bc (bc.deepest c))
      → create_block_from_transaction_pool sha256 ceil_power files lim.concurrency_blocks cp
        ≡ done cp'
      → (bc' : Blockchain) × (mine_new_block sha256 ceil_power files lim st bc cp random time_of_now
          ≡ done bc')
  unfolding mine_new_block mined_header
  mine_new_block_returns k cp' pos c digest all created =
      let (tips, e1, trailing) =
        tips_loop_returns bc st.chains 0 (bc.deepest 0) 0 (λ i lt. all i (omega arith))
          (all 0 pos) in
      let s = tips_loop_lem bc st.chains 0 (bc.deepest 0) 0 tips e1 in
      let size =
        length-pad_leaves ceil_power tips.leaves k
          (subst (λ n. Ceils ceil_power n k) (sym s.size) c) in
      let (_, root, _, e2, _, _) =
        verify_merkle_proof-compute_merkle_proof sha256 (pad_leaves ceil_power tips.leaves) k 0
          (bc.store.hash (bc.deepest 0)) size
          (get_elem?-pad_leaves ceil_power tips.leaves 0 _ (s.leaf 0 pos)) in
      let (nb, e3) =
        header_over_returns k tips root (to_string random) cp' pos size s digest all trailing
          created in
      let whole : mined_header sha256 ceil_power files lim st bc cp random time_of_now ≡ done nb =
        rw (e1, ap deref e2) e3 in
      bind_returns (mined_header sha256 ceil_power files lim st bc cp random time_of_now) _ nb whole
        (_, refl)
