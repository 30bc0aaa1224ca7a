-- ===== src/Blockchain/Settling.antt =====
-- What a call of `add_received_block` of Blockchain.cpp leaves: where the block is, its header, and the
-- deepest block of the chain.
use snowball_dag_experiment.Base.{
  ℕ, ◌≡◌, ◌≢◌, ◌⊎◌, refl, sym, ap, ◌∙◌, subst, inl, inr, true, false, Option, none, some, List, [],
  ◌∷◌, ltb, Bool-cases,
}
use snowball_dag_experiment.Base.Outcome.{done}
use snowball_dag_experiment.HashTree.{find_block_by_hash}
use snowball_dag_experiment.Blocks.{Store, NetworkBlock, set_nb, depth_of, find_max_depth}
use snowball_dag_experiment.Blocks.Depth.{
  Below, NoDeeper, find_max_depth-NoDeeper, better, better-NoDeeper, NoDeeper-trans,
}
use snowball_dag_experiment.SideChains.{
  SideChain, is_in_incomplete, find_incomplete_block, chain_with, add_block_to_incomplete,
}
use snowball_dag_experiment.SideChains.Found.{FoundIn, FoundIn-add_block_to_incomplete}
use snowball_dag_experiment.Blockchain.{
  Blockchain, Received, update_deepest, choose_deepest, set_side_header, add_to_side_chains,
  add_received_block,
}
use snowball_dag_experiment.Blockchain.WellFormed.{WellFormed}
use snowball_dag_experiment.Blockchain.Receiving.{
  update_deepest-some, deepen_lem, add_below_parent-Grows,
}
use snowball_dag_experiment.Blockchain.Added.{known, below, linked_before, aside, way}
use snowball_dag_experiment.Blockchain.Found.{
  update_at, FoundAt, add_below_parent_finds, add_below_parent_deepest,
}

-- How the call that turns `bc` into `bc'` leaves the block `b`, found under its hash in a main
-- tree.
pub record Settled (bc : Blockchain) (chain_id hash : ℕ) (nb : NetworkBlock) (b : ℕ)
    (bc' : Blockchain) : Type 0 where
  pub found : find_block_by_hash bc'.store.hash (bc'.chains chain_id) hash ≡ some b
  pub header : bc'.store.nb b ≡ some nb
  pub deeper_than_old : NoDeeper bc'.store (bc.deepest chain_id) (bc'.deepest chain_id)
  pub deeper_than_new : (d : ℕ) → Below bc'.store b d → NoDeeper bc'.store d (bc'.deepest chain_id)

module _ (bc : Blockchain) (chain_id hash : ℕ) (nb : NetworkBlock) (w : WellFormed bc) where
  choose_deepest_chooses :
      (s : Store) (old_depth deep_last d : ℕ)
      → (choose_deepest bc chain_id s old_depth deep_last d).deepest chain_id
        ≡ better s d old_depth deep_last (bc.deepest chain_id)
  unfolding choose_deepest better
  choose_deepest_chooses s old_depth deep_last d = elim (Bool-cases (ltb old_depth d)) [
    | inl gt ↦ rw gt (update_at bc.deepest chain_id deep_last)
    | inr le ↦ rw le refl
  ]

  choose_deepest_settles :
      (b old_depth deep_last d : ℕ)
      → find_block_by_hash bc.store.hash (bc.chains chain_id) hash ≡ some b
      → (let s = set_nb bc.store b nb in
          (depth_of s (bc.deepest chain_id) ≡ done old_depth)
          → (find_max_depth s.next s b ≡ done deep_last)
          → (depth_of s deep_last ≡ done d)
          → Settled bc chain_id hash nb b (choose_deepest bc chain_id s old_depth deep_last d))
  unfolding choose_deepest set_nb
  choose_deepest_settles b old_depth deep_last d at old last new =
      let s = set_nb bc.store b nb in
      let (from_new, from_old) =
        better-NoDeeper s d old_depth deep_last (bc.deepest chain_id) new old in
      let m = choose_deepest_chooses s old_depth deep_last d in
      record {
        found = at;
        header = update_at bc.store.nb b (some nb);
        deeper_than_old = subst (NoDeeper s (bc.deepest chain_id)) (sym m) from_old;
        deeper_than_new = λ e below_b. subst (NoDeeper s e) (sym m) (
            NoDeeper-trans s e deep_last _
              (find_max_depth-NoDeeper s s.next b deep_last last e below_b) from_new);
      }

  pub update_deepest_settles :
      (b : ℕ) (bc' : Blockchain)
      → find_block_by_hash bc.store.hash (bc.chains chain_id) hash ≡ some b
      → update_deepest bc chain_id hash nb ≡ done bc'
      → Settled bc chain_id hash nb b bc'
  update_deepest_settles b bc' at e =
      let h = sym (update_deepest-some bc chain_id w hash b nb at) ∙ e in
      let (old_depth, deep_last, d, old, last, new, end) =
        deepen_lem bc chain_id w (set_nb bc.store b nb) b bc' h in
      subst (Settled bc chain_id hash nb b) end
        (choose_deepest_settles b old_depth deep_last d at old last new)

find_incomplete_block-set_nb :
    (s : Store) (l : List SideChain) (h b : ℕ) (nb : NetworkBlock)
    → find_incomplete_block (set_nb s b nb) l h ≡ find_incomplete_block s l h
unfolding find_incomplete_block set_nb
find_incomplete_block-set_nb s [] h b nb = refl
find_incomplete_block-set_nb s (c ∷ l) h b nb =
    ap (λ (o : Option ℕ). elim (find_block_by_hash s.hash c.b h) [ none ↦ o | some k ↦ some k ])
      (find_incomplete_block-set_nb s l h b nb)

set_side_header_sets :
    (r : Store × List SideChain) (h : ℕ) (nb : NetworkBlock)
    → FoundIn r h
    → (let s = set_side_header r.0 r.1 h nb in
        (b : ℕ) × (find_incomplete_block s r.1 h ≡ some b) × (s.nb b ≡ some nb))
unfolding set_side_header set_nb
set_side_header_sets r h nb (b, at) = (
  b,
  rw (at, set_side_header) (find_incomplete_block-set_nb r.0 r.1 h b nb ∙ at),
  rw (at, set_side_header) (update_at r.0.nb b (some nb)),
)

module _ (bc : Blockchain) (chain_id parent hash : ℕ) (nb : NetworkBlock) where
  add_to_side_chains_sets :
      FoundIn (add_block_to_incomplete bc.store (bc.inchains chain_id) parent hash) hash
      → (let bc' = add_to_side_chains bc chain_id parent hash nb in
          (bc'.chains ≡ bc.chains)
          × (bc'.deepest ≡ bc.deepest)
          × ((b : ℕ) × (find_incomplete_block bc'.store (bc'.inchains chain_id) hash ≡ some b)
              × (bc'.store.nb b ≡ some nb)))
  unfolding add_to_side_chains
  add_to_side_chains_sets found_in =
      let r = add_block_to_incomplete bc.store (bc.inchains chain_id) parent hash in
      let (b, at, header) = set_side_header_sets r hash nb found_in in
      (refl, refl, (b, rw (update_at bc.inchains chain_id r.1) at, header))

  -- A block that `add_received_block` adds without asking for its parent is found in the main
  -- tree of its chain, with its header, and the deepest block of the chain is then at least as
  -- deep as the one before the call and as each block below the new one.
  pub add_received_block_settles :
      (r : Received)
      → WellFormed bc
      → add_received_block bc chain_id parent hash nb ≡ done r
      → r.added ≡ true
      → r.need_parent ≡ false
      → (b : ℕ) × Settled bc chain_id hash nb b r.bc
  add_received_block_settles r w e added alone = elim (way bc chain_id parent hash nb r e) [
    | known _ _ q ↦ absurd (cc (ap (λ (x : Received). x.added) q))
    | linked_before _ q ↦ absurd (cc (ap (λ (x : Received). x.added) q))
    | aside _ _ q ↦ absurd (cc (ap (λ (x : Received). x.need_parent) q))
    | below p bc1 bc2 absent at e1 e2 q ↦
        let (b, there) = add_below_parent_finds bc chain_id w p parent hash bc1 at e1 in
        let g = add_below_parent-Grows bc chain_id w p parent hash bc1 at e1 in
        let s = update_deepest_settles bc1 chain_id hash nb g.well_formed b bc2 there e2 in
        let old = add_below_parent_deepest bc chain_id w p parent hash bc1 at e1 in
        (
          b,
          subst (λ x. Settled bc chain_id hash nb b x.bc) q
              (record {
                found = s.found;
                header = s.header;
                deeper_than_old =
                    subst (λ f. NoDeeper bc2.store (f chain_id) (bc2.deepest chain_id)) old
                      s.deeper_than_old;
                deeper_than_new = s.deeper_than_new;
              }),
        )
  ]

  -- A call of `add_received_block` that adds nothing changes nothing and asks for no parent, and
  -- the block was known: in the main tree of its chain, or in a side chain below this parent.
  pub add_received_block_rejects :
      (r : Received)
      → add_received_block bc chain_id parent hash nb ≡ done r
      → r.added ≡ false
      → (r.bc ≡ bc)
        × (r.need_parent ≡ false)
        × (FoundAt bc chain_id hash
            ⊎ (is_in_incomplete bc.store (bc.inchains chain_id) parent hash ≡ true))
  add_received_block_rejects r e not_added = elim (way bc chain_id parent hash nb r e) [
    | known b at q ↦ (
      sym (ap (λ (x : Received). x.bc) q),
      sym (ap (λ (x : Received). x.need_parent) q),
      inl (b, at),
    )
    | linked_before at q ↦
        (sym (ap (λ (x : Received). x.bc) q), sym (ap (λ (x : Received). x.need_parent) q), inr at)
    | aside _ _ q ↦ absurd (cc (ap (λ (x : Received). x.added) q))
    | below _ _ _ _ _ _ _ q ↦ absurd (cc (ap (λ (x : Received). x.added) q))
  ]

  -- Unless the block and its parent already stand in one side chain, a call of `add_received_block`
  -- that asks for the parent, on trees in order, leaves the main trees and the deepest blocks as they
  -- were, and the block is found afterwards in the side chains, with its header.
  pub add_received_block_keeps_aside :
      (r : Received)
      → WellFormed bc
      → (chain_with bc.store (bc.inchains chain_id) hash ≡ none)
        ⊎ (chain_with bc.store (bc.inchains chain_id) hash
            ≢ chain_with bc.store (bc.inchains chain_id) parent)
      → add_received_block bc chain_id parent hash nb ≡ done r
      → r.need_parent ≡ true
      → (r.bc.chains ≡ bc.chains)
        × (r.bc.deepest ≡ bc.deepest)
        × ((b : ℕ) × (find_incomplete_block r.bc.store (r.bc.inchains chain_id) hash ≡ some b)
            × (r.bc.store.nb b ≡ some nb))
  add_received_block_keeps_aside r w apart e asks = elim (way bc chain_id parent hash nb r e) [
    | known _ _ q ↦ absurd (cc (ap (λ (x : Received). x.need_parent) q))
    | linked_before _ q ↦ absurd (cc (ap (λ (x : Received). x.need_parent) q))
    | below _ _ _ _ _ _ _ q ↦ absurd (cc (ap (λ (x : Received). x.need_parent) q))
    | aside _ _ q ↦
        subst
          (λ (x : Received).
            (x.bc.chains ≡ bc.chains)
            × (x.bc.deepest ≡ bc.deepest)
            × ((b : ℕ) × (find_incomplete_block x.bc.store (x.bc.inchains chain_id) hash ≡ some b)
                × (x.bc.store.nb b ≡ some nb)))
          q
          (add_to_side_chains_sets (
            FoundIn-add_block_to_incomplete bc.store (bc.inchains chain_id) (w.sides_ok chain_id)
              parent hash apart))
  ]
