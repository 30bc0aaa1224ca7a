-- ===== src/Blockchain/Mined.antt =====
-- `add_block_by_parent_hash_and_chain_id` of Blockchain.cpp: a mined block at its place.
use snowball_dag_experiment.Base.{
  ℕ, ◌+◌, ◌≡◌, refl, sym, ap, ◌∙◌, inl, inr, Bool, true, false, Option, none, some, ◌==◌, arith,
  Option-cases,
}
use snowball_dag_experiment.HashTree.{Tree, find_block_by_hash}
use snowball_dag_experiment.Blocks.{
  Store, NetworkBlock, update, bootstrap_chain, link_child, set_nb, add_block_by_parent_hash,
}
use snowball_dag_experiment.Blocks.Links.{
  Extends-refl, Extends-set_nb, linked, grown, add_block_by_parent_hash_lem, find-grown,
}
use snowball_dag_experiment.Blockchain.{
  Blockchain, place_mined, add_block_by_parent_hash_and_chain_id,
}
use snowball_dag_experiment.Blockchain.WellFormed.{WellFormed, Grows, Grows-trans}
use snowball_dag_experiment.Blockchain.Receiving.{
  update_same, attached, attached-Grows, Grows-Extends,
}
use snowball_dag_experiment.Blockchain.Found.{update_at}

module _ (bc : Blockchain) (parent hash chain_id : ℕ) (nb : NetworkBlock) where
  -- The state after the search for the new block, which found `o`.
  unfoldable placed : Store → Tree → Option ℕ → Blockchain
  placed s t none = record bc { store = s; chains = update bc.chains chain_id t }
  placed s t (some bz) = record bc {
    store = set_nb s bz nb;
    chains = update bc.chains chain_id t;
    deepest = update bc.deepest chain_id bz;
  }

  place_mined_lem :
      (s : Store) (t : Tree) (o : Option ℕ)
      → find_block_by_hash s.hash t hash ≡ o
      → place_mined bc hash chain_id nb s t ≡ placed s t o
  unfolding place_mined placed
  place_mined_lem s t none f = rw (f, place_mined) refl
  place_mined_lem s t (some bz) f = rw (f, place_mined) refl

  placed_lem :
      (s : Store) (t : Tree) (b : Bool) (o : Option ℕ)
      → add_block_by_parent_hash bc.store (bc.chains chain_id) parent hash ≡ (s, t, b)
      → find_block_by_hash s.hash t hash ≡ o
      → add_block_by_parent_hash_and_chain_id bc parent hash chain_id nb ≡ placed s t o
  unfolding add_block_by_parent_hash_and_chain_id
  placed_lem s t b o e f =
      ap (λ r. place_mined bc hash chain_id nb r.0 r.1) e ∙ place_mined_lem s t o f

  -- The header and the deepest block change no tree.
  placed-Grows :
      (s : Store) (t : Tree) (o : Option ℕ)
      → (let bc1 : Blockchain = record bc { store = s; chains = update bc.chains chain_id t } in
          Grows bc bc1)
      → Grows bc (placed s t o)
  unfolding placed
  placed-Grows s t none g = g
  placed-Grows s t (some bz) g =
      let bc1 : Blockchain = record bc { store = s; chains = update bc.chains chain_id t } in
      Grows-trans bc bc1 _ g
        (Grows-Extends bc1 chain_id g.well_formed _ (Extends-set_nb s bz nb) refl refl)

  -- Whatever is mined, no block is lost: each keeps its hash, and what a search in a main tree found it
  -- finds again. The trees are in order afterwards if they were before.
  pub add_block_by_parent_hash_and_chain_id-Grows :
      WellFormed bc → Grows bc (add_block_by_parent_hash_and_chain_id bc parent hash chain_id nb)
  unfolding add_block_by_parent_hash attached
  add_block_by_parent_hash_and_chain_id-Grows w =
      let t = bc.chains chain_id in
      elim (Option-cases (find_block_by_hash bc.store.hash t parent)) [
        | inl absent ↦
            rw (placed_lem bc.store t false _ (rw (absent, add_block_by_parent_hash) refl) refl) (
              placed-Grows bc.store t _ (
                Grows-Extends bc chain_id w _ (Extends-refl bc.store)
                  (sym (update_same bc.chains chain_id)) refl))
        | inr (p, at) ↦
            rw
              (placed_lem _ _ true _ (add_block_by_parent_hash_lem bc.store t hash p parent at)
                refl)
              (placed-Grows _ _ _ (attached-Grows bc chain_id w p hash))
      ]

  -- Where the parent of the new block is in the main tree and its hash is not, the block is put under a
  -- new address: the search finds it, it has its header and its parent, and it is the deepest block
  -- of the chain.
  pub add_block_by_parent_hash_and_chain_id_lem :
      (p : ℕ)
      → WellFormed bc
      → find_block_by_hash bc.store.hash (bc.chains chain_id) parent ≡ some p
      → find_block_by_hash bc.store.hash (bc.chains chain_id) hash ≡ none
      → (let bc' = add_block_by_parent_hash_and_chain_id bc parent hash chain_id nb in
          (find_block_by_hash bc'.store.hash (bc'.chains chain_id) hash ≡ some bc.store.next)
          × (bc'.store.nb bc.store.next ≡ some nb)
          × (bc'.store.parent bc.store.next ≡ some p)
          × (bc'.deepest chain_id ≡ bc.store.next)
          × (bc'.store.next ≡ bc.store.next + 1))
  unfolding placed bootstrap_chain link_child set_nb
  add_block_by_parent_hash_and_chain_id_lem p w at absent =
      let s = bc.store in
      let t = bc.chains chain_id in
      let same : (hash == hash) ≡ true = ground arith in
      let found : find_block_by_hash (linked s hash p).hash (grown s t hash) hash ≡ some s.next =
        find-grown s t hash p (w.chains_ok chain_id) hash ∙ rw (absent, same) refl in
      rw
        (placed_lem (linked s hash p) (grown s t hash) true (some s.next)
          (add_block_by_parent_hash_lem s t hash p parent at) found)
        (
          rw (update_at bc.chains chain_id (grown s t hash)) found,
          update_at _ s.next _,
          update_at _ s.next _,
          update_at bc.deepest chain_id s.next,
          refl,
        )
