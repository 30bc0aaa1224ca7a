-- ===== src/Mining/Accepted.antt =====
-- A block that `mine_new_block` makes passes the checks of "#full_block" on another node, and its rank
-- follows those of the deepest blocks.
use snowball_dag_experiment.Base.{
  ℕ, ◌+◌, ◌-◌, ◌%◌, ◌^◌, ◌≤◌, ◌<◌, ◌≡◌, refl, sym, ap, ◌∙◌, subst, inl, inr, true, ◌&&◌, ◌||◌,
  Option, none, some, Text, ltb, leb, leb→le, ◌==◌, if◌then◌else◌, length, get_elem?, drop, arith,
  Bool-cases, Option-cases,
}
use native.Mathlib.Nat.{mod-lt}
use snowball_dag_experiment.Base.Outcome.{done}
use snowball_dag_experiment.Numbers.{blockhash_to_string, scan_number, get_chain_id_from_hash}
use snowball_dag_experiment.Merkle.{verify_merkle_proof}
use snowball_dag_experiment.Merkle.Complete.{verify_merkle_proof-compute_merkle_proof}
use snowball_dag_experiment.Merkle.Padding.{
  pad_leaves, Ceils, length-pad_leaves, get_elem?-pad_leaves,
}
use snowball_dag_experiment.Blocks.{NetworkBlock, ConsensusPart}
use snowball_dag_experiment.Blockchain.{Blockchain, find_block_by_hash_and_chain_id}
use snowball_dag_experiment.Transactions.PoolFiles.{Files}
use snowball_dag_experiment.Messages.{Settings}
use snowball_dag_experiment.Handlers.{within_lem}
use snowball_dag_experiment.Handlers.FullBlocks.{Verdict, no_trailing, correct, check_header}
use snowball_dag_experiment.Mining.{rank_after, MinerLimits, mined_header}
use snowball_dag_experiment.Mining.Assembled.{mined_header-Assembled}

same_value {ℓ} : {A : Type ℓ} {x y : A} → some x ≡ some y → x ≡ y
same_value e = cc

-- The chain is a remainder.
pub below_chains :
    (chains c : ℕ) (h : Text) → 0 < chains → get_chain_id_from_hash chains h ≡ some c → c < chains
unfolding get_chain_id_from_hash
below_chains chains c h pos e = elim (Bool-cases (ltb (length h) 58)) [
  | inl short ↦ absurd (ground arith)
  | inr long ↦ elim (Option-cases (scan_number 16 (drop 58 h))) [
    | inl unread ↦ absurd (ground arith)
    | inr ((neg, v), read) ↦
        let e' : (if ltb v (2 ^ 31) || (neg && (v == 2 ^ 31))
              then some ((if neg then (2 ^ 32 - v) % 2 ^ 32 else v) % chains)
              else none)
            ≡ some c =
          sym (rw (long, read, get_chain_id_from_hash) refl) ∙ e in
        ground (arith, mod-lt (if neg then (2 ^ 32 - v) % 2 ^ 32 else v) pos)
  ]
]

-- The verdict on the trailing block.
abbrev pub trailing_verdict : Option ℕ → Verdict
trailing_verdict none = no_trailing
trailing_verdict (some b) = correct

verdict_of :
    (o : Option ℕ)
    → (elim o [ none ↦ done no_trailing | some b ↦ done correct ]) ≡ done (trailing_verdict o)
verdict_of none = refl
verdict_of (some b) = refl

rank_after_lem :
    (rank t next : ℕ) → rank + 1 < 2 ^ 32 → next ≡ rank_after rank t → (rank < next) × (t ≤ next)
unfolding rank_after
rank_after_lem rank t next h e = elim (Bool-cases (leb t rank)) [
  | inl low ↦
      let same : next ≡ (rank + 1) % 2 ^ 32 = e ∙ rw (low, rank_after) refl in
      ground (arith, leb→le t rank)
  | inr high ↦ let same : next ≡ t = e ∙ rw (high, rank_after) refl in ground arith
]

module _ (sha256 : Text → Text) (ceil_power : ℕ → ℕ) (files : Files) (lim : MinerLimits)
    (st : Settings) (bc : Blockchain) (cp : ConsensusPart) (random time_of_now : ℕ) where
  -- The header of a block that the node mines passes the checks of "#full_block" for the chain, the hash
  -- and the Merkle proof on every node with the same number of chains, whatever that node holds; what
  -- remains is whether it has the trailing block. There is at least one chain, and the size of the tree
  -- is a power of two that is not below the number of chains. The chain and the chain of the
  -- trailing block are among them, and the proof has two texts more than the tree has levels.
  pub mined_header-check_header :
      (nb : NetworkBlock) (k : ℕ) (bc' : Blockchain)
      → 0 < st.chains
      → Ceils ceil_power st.chains k
      → mined_header sha256 ceil_power files lim st bc cp random time_of_now ≡ done nb
      → (check_header sha256 st bc' nb
          ≡ done
              (trailing_verdict (find_block_by_hash_and_chain_id bc' nb.trailing nb.trailing_id)))
        × (nb.chain_id < st.chains)
        × (nb.trailing_id < st.chains)
        × (length nb.proof_new_chain ≡ k + 2)
  unfolding check_header
  mined_header-check_header nb k bc' pos c e =
      let a = mined_header-Assembled sha256 ceil_power files lim st bc cp random time_of_now nb e in
      let lt = below_chains st.chains nb.chain_id _ pos a.chain in
      let at : get_elem? (pad_leaves ceil_power a.tips.leaves) nb.chain_id
          ≡ some (blockhash_to_string nb.parent) =
        get_elem?-pad_leaves ceil_power a.tips.leaves nb.chain_id _ (a.surveys.leaf nb.chain_id lt)
        ∙ ap (λ c. some (blockhash_to_string (bc.store.hash (bc.deepest c)))) {y = nb.chain_id}
            (omega arith)
        ∙ ap (λ t. some (blockhash_to_string t)) (sym a.placed.parent) in
      let (proof, root, e1, e2, size, good) =
        verify_merkle_proof-compute_merkle_proof sha256 (pad_leaves ceil_power a.tips.leaves) k
          nb.chain_id nb.parent
          (length-pad_leaves ceil_power a.tips.leaves k
            (subst (λ n. Ceils ceil_power n k) (sym a.surveys.size) c))
          at in
      let same_proof : proof ≡ nb.proof_new_chain = same_value (sym e1 ∙ a.placed.proof) in
      let same_root : root ≡ nb.merkle_root_chains = same_value (sym e2 ∙ a.root) in
      let good' : verify_merkle_proof sha256 nb.proof_new_chain nb.parent nb.merkle_root_chains
            nb.chain_id
          ≡ some true =
        rw (sym same_proof, sym same_root) good in
      let chain_ok : (nb.chain_id == nb.chain_id) ≡ true = ground arith in
      let there : nb.trailing_id < st.chains =
        omega (arith, a.placed.trailing_chain, a.trailing_below pos) in
      let hash_ok : (nb.hash == nb.hash) ≡ true = ground arith in
      (
        rw (a.chain, a.hash, chain_ok, hash_ok, good')
            (within_lem st.chains nb.trailing_id there
              ∙ verdict_of (find_block_by_hash_and_chain_id bc' nb.trailing nb.trailing_id)),
        lt,
        there,
        rw (sym same_proof) size,
      )

  -- The ranks of a block that the node mines: its rank is the next rank of its parent, a chain tip, its
  -- next rank is above its rank and not below the next rank of any chain tip, and it is one deeper than
  -- the parent. The next ranks and the depths of the chain tips are below 2^32 - 1.
  pub mined_header-ranks :
      (nb : NetworkBlock)
      → ((c : ℕ) (x : NetworkBlock)
          → c < st.chains
          → bc.store.nb (bc.deepest c) ≡ some x
          → (x.next_rank + 1 < 2 ^ 32) × (x.depth + 1 < 2 ^ 32))
      → 0 < st.chains
      → mined_header sha256 ceil_power files lim st bc cp random time_of_now ≡ done nb
      → ((pnb : NetworkBlock) × (bc.store.nb (bc.deepest nb.chain_id) ≡ some pnb)
          × (nb.rank ≡ pnb.next_rank)
          × (nb.depth ≡ pnb.depth + 1))
        × (nb.rank < nb.next_rank)
        × ((c : ℕ) (x : NetworkBlock)
            → c < st.chains
            → bc.store.nb (bc.deepest c) ≡ some x
            → x.next_rank ≤ nb.next_rank)
  unfolding rank_after
  mined_header-ranks nb small pos e =
      let a = mined_header-Assembled sha256 ceil_power files lim st bc cp random time_of_now nb e in
      let (pnb, at_p, rank, depth) = a.placed.parent_header in
      let (tnb, at_t, next) = a.placed.trailing_header in
      let lt = below_chains st.chains nb.chain_id _ pos a.chain in
      let (fits, shallow) = small nb.chain_id pnb lt at_p in
      let grows = rank_after_lem nb.rank tnb.next_rank nb.next_rank (omega arith) next in
      (
        (pnb, at_p, rank, omega arith),
        grows.0,
        λ c x lt at.
            let bound =
              a.surveys.highest c x tnb lt
                (ap (λ k. bc.store.nb (bc.deepest k)) {y = c} (omega arith) ∙ at) at_t in
            omega (arith, grows.1),
      )
