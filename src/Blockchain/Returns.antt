-- ===== src/Blockchain/Returns.antt =====
-- `add_received_block` returns: the searches below a block have enough fuel, and no pointer that it
-- reads through is null.
use snowball_dag_experiment.Base.{
  ℕ, suc, ◌+◌, ◌<◌, ◌≡◌, refl, sym, ap, ◌∙◌, subst, inl, inr, true, false, none, some, ◌==◌, arith,
  Option-cases, Bool-cases,
}
use snowball_dag_experiment.Base.Outcome.{done}
use snowball_dag_experiment.HashTree.{find_block_by_hash}
use snowball_dag_experiment.HashTree.Ordered.{AllBlocks-find}
use snowball_dag_experiment.Blocks.{
  Store, NetworkBlock, update, bootstrap_chain, link_child, set_nb, depth_of,
}
use snowball_dag_experiment.Blockchain.Found.{update_at}
use snowball_dag_experiment.Blocks.Depth.{Height, find_max_depth_ends}
use snowball_dag_experiment.Blocks.Links.{linked, grown, find-grown}
use snowball_dag_experiment.SideChains.{is_incomplete_hash, is_in_incomplete}
use snowball_dag_experiment.Blockchain.{
  Blockchain, Received, note_non_full, update_deepest, deepen, choose_deepest, add_below_parent,
  add_to_side_chains, add_received_block,
}
use snowball_dag_experiment.Blockchain.WellFormed.{WellFormed, SameBlocks-note_non_full}
use snowball_dag_experiment.Blockchain.Receiving.{
  attached, attach_block_lem, add_below_parent-none, update_deepest-some, add_below_parent-Grows,
}
use snowball_dag_experiment.Blockchain.Added.{after_search, after_search_lem}

-- The store with the new block, its links and its header.
abbrev finished : Store → ℕ → ℕ → NetworkBlock → Store
finished s hash p nb = set_nb (linked s hash p) s.next nb

finished-depth :
    (s : Store) (hash p : ℕ) (nb : NetworkBlock) (x d : ℕ)
    → depth_of s x ≡ done d
    → (k : ℕ) × (depth_of (finished s hash p nb) x ≡ done k)
unfolding depth_of set_nb bootstrap_chain link_child update
finished-depth s hash p nb x d e = elim (Bool-cases (s.next == x)) [
  | inl q ↦ (nb.depth, rw q refl)
  | inr q ↦ (d, rw q e)
]

finished-Height :
    (s : Store) (hash p : ℕ) (nb : NetworkBlock)
    → p < s.next
    → Height (finished s hash p nb) (finished s hash p nb).next s.next
unfolding depth_of set_nb bootstrap_chain link_child update
finished-Height s hash p nb lt =
    let other : (p == s.next) ≡ false = ground arith in
    let same : (s.next == s.next) ≡ true = ground arith in
    let more : suc s.next ≡ s.next + 1 = omega arith in
    subst (λ n. Height (finished s hash p nb) n s.next) more
      ((nb.depth, rw same refl), rw (other, same) tt)

deepen_returns :
    (bc : Blockchain) (chain_id : ℕ) (s : Store) (bz d : ℕ)
    → depth_of s (bc.deepest chain_id) ≡ done d
    → Height s s.next bz
    → (bc' : Blockchain) × (deepen bc chain_id s bz ≡ done bc')
unfolding deepen
deepen_returns bc chain_id s bz d e h =
    let (m, k, run, has) = find_max_depth_ends s s.next bz h in
    (choose_deepest bc chain_id s d m k, rw (e, run, has) refl)

module _ (bc : Blockchain) (chain_id : ℕ) (w : WellFormed bc) where
  new_block :
      (hash p : ℕ)
      → find_block_by_hash bc.store.hash (bc.chains chain_id) hash ≡ none
      → find_block_by_hash
          (linked bc.store hash p).hash
          (grown bc.store (bc.chains chain_id) hash)
          hash
        ≡ some bc.store.next
  new_block hash p absent =
      let same : (hash == hash) ≡ true = ground arith in
      find-grown bc.store (bc.chains chain_id) hash p (w.chains_ok chain_id) hash
      ∙ rw (absent, same) refl

  -- The call for a block below a known parent, no side chain of which begins with it.
  attached_returns :
      (p parent hash d : ℕ) (nb : NetworkBlock)
      → find_block_by_hash bc.store.hash (bc.chains chain_id) hash ≡ none
      → find_block_by_hash bc.store.hash (bc.chains chain_id) parent ≡ some p
      → depth_of bc.store (bc.deepest chain_id) ≡ done d
      → (let x = note_non_full (attached bc chain_id w p hash) chain_id hash in
          WellFormed x → (bc' : Blockchain) × (update_deepest x chain_id hash nb ≡ done bc'))
  unfolding attached
  attached_returns p parent hash d nb absent at e w' =
      let a = attached bc chain_id w p hash in
      let x = note_non_full a chain_id hash in
      let same = SameBlocks-note_non_full a chain_id hash in
      let t = grown bc.store (bc.chains chain_id) hash in
      let there : find_block_by_hash x.store.hash (x.chains chain_id) hash ≡ some bc.store.next =
        rw (same.same_store, same.same_chains)
          (rw (update_at bc.chains chain_id t) (new_block hash p absent)) in
      let set : set_nb x.store bc.store.next nb ≡ finished bc.store hash p nb =
        ap (λ s. set_nb s bc.store.next nb) same.same_store in
      let ok = w.chains_ok chain_id in
      let lt =
        AllBlocks-find bc.store.hash (λ b. b < bc.store.next) (bc.chains chain_id) parent p
          ok.allocated at in
      let (k, deep) = finished-depth bc.store hash p nb (bc.deepest chain_id) d e in
      rw (update_deepest-some x chain_id w' hash bc.store.next nb there) (
        subst (λ s. (bc' : Blockchain) × (deepen x chain_id s bc.store.next ≡ done bc')) (sym set)
          (deepen_returns x chain_id (finished bc.store hash p nb) bc.store.next k
            (rw (same.same_deepest) deep) (finished-Height bc.store hash p nb lt)))

  -- `add_received_block` returns, where the trees are in order, the deepest block of the chain has a
  -- header, and no side chain begins with the block.
  pub add_received_block_returns :
      (parent hash d : ℕ) (nb : NetworkBlock)
      → is_incomplete_hash bc.store (bc.inchains chain_id) hash ≡ none
      → depth_of bc.store (bc.deepest chain_id) ≡ done d
      → (r : Received) × (add_received_block bc chain_id parent hash nb ≡ done r)
  unfolding after_search
  add_received_block_returns parent hash d nb no_root e =
      let t = bc.chains chain_id in
      elim (Option-cases (find_block_by_hash bc.store.hash t hash)) [
        | inr (b, at) ↦ (
          record { bc = bc; added = false; need_parent = false },
          after_search_lem bc chain_id parent hash nb (some b) _ at refl,
        )
        | inl absent ↦ elim (Option-cases (find_block_by_hash bc.store.hash t parent)) [
          | inr (p, at) ↦
              let y = note_non_full (attached bc chain_id w p hash) chain_id hash in
              let e1 : add_below_parent bc chain_id p parent hash ≡ done y =
                add_below_parent-none bc chain_id w p parent hash no_root
                ∙ ap done (attach_block_lem bc chain_id w parent hash p at) in
              let g = add_below_parent-Grows bc chain_id w p parent hash y at e1 in
              let (bc', run) = attached_returns p parent hash d nb absent at e g.well_formed in
              (
                record { bc = bc'; added = true; need_parent = false },
                after_search_lem bc chain_id parent hash nb none (some p) absent at
                    ∙ rw (e1, run) refl,
              )
          | inl no_parent ↦
              elim (Bool-cases (is_in_incomplete bc.store (bc.inchains chain_id) parent hash)) [
                | inl q ↦ (
                  record { bc = bc; added = false; need_parent = false },
                  after_search_lem bc chain_id parent hash nb none none absent no_parent
                      ∙ rw q refl,
                )
                | inr q ↦ (
                  record {
                    bc = add_to_side_chains bc chain_id parent hash nb;
                    added = true;
                    need_parent = true;
                  },
                  after_search_lem bc chain_id parent hash nb none none absent no_parent
                      ∙ rw q refl,
                )
              ]
        ]
      ]
