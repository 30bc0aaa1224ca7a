-- ===== src/Blockchain/Found.antt =====
-- Where the parts of `add_received_block` of Blockchain.cpp put the block.
use snowball_dag_experiment.Base.{
  ℕ, zero, suc, ◌≡◌, refl, sym, ap, ◌∙◌, subst, inl, inr, true, some, List, [], ◌∷◌, ◌==◌, arith,
  Option-cases, Bool-cases,
}
use snowball_dag_experiment.Base.Outcome.{done, deref, done-bind}
use snowball_dag_experiment.HashTree.{
  Tree, null, node, root_block, find_block_by_hash, insert_subtree_by_hash,
}
use snowball_dag_experiment.Blocks.{Store, update, link_child}
use snowball_dag_experiment.Blocks.Links.{grown}
use snowball_dag_experiment.SideChains.{SideChain, root_has_hash, is_incomplete_hash, tree_at}
use snowball_dag_experiment.SideChains.Search.{TreeOk-tree_at}
use snowball_dag_experiment.SideChains.Found.{grown_finds, merged_finds}
use snowball_dag_experiment.Blockchain.{
  Blockchain, note_non_full, add_subtree_to_received_non_full, attach_side_chain, attach_block,
  link_side_chain, add_below_parent,
}
use snowball_dag_experiment.Blockchain.WellFormed.{
  WellFormed, SameBlocks, SameBlocks-note_non_full, SameBlocks-add_subtree,
}
use snowball_dag_experiment.Blockchain.Receiving.{
  attached, attach_block_lem, add_below_parent-none, add_below_parent-some,
}

pub update_at {ℓ} : {A : Type ℓ} (f : ℕ → A) (c : ℕ) (x : A) → update f c x c ≡ x
unfolding update
update_at f c x = let same : (c == c) ≡ true = ground arith in rw same refl

-- The root of the chain that `is_incomplete_hash` found has the hash.
root_found :
    (s : Store) (l : List SideChain) (h i : ℕ)
    → is_incomplete_hash s l h ≡ some i
    → root_has_hash s (tree_at l i) h ≡ true
unfolding is_incomplete_hash tree_at
root_found s [] h i e = absurd (cc)
root_found s (t ∷ l) h zero e = elim (Bool-cases (root_has_hash s t.b h)) [
  | inl q ↦ q
  | inr q ↦ elim (Option-cases (is_incomplete_hash s l h)) [
    | inl absent ↦ absurd (ground arith)
    | inr (j, at) ↦ absurd (ground arith)
  ]
]
root_found s (t ∷ l) h (suc i) e = elim (Bool-cases (root_has_hash s t.b h)) [
  | inl q ↦ absurd (ground arith)
  | inr q ↦ root_found s l h i (elim (Option-cases (is_incomplete_hash s l h)) [
    | inl absent ↦ absurd (ground arith)
    | inr (j, at) ↦ ground arith
  ])
]

find_root :
    (s : Store) (t : Tree) (h : ℕ)
    → root_has_hash s t h ≡ true
    → (b : ℕ) × (find_block_by_hash s.hash t h ≡ some b)
unfolding root_has_hash find_block_by_hash
find_root s null h e = absurd (cc)
find_root s (node l b r) h e = (b, ground arith)

abbrev pub FoundAt : Blockchain → ℕ → ℕ → Type 0
FoundAt bc chain_id hash =
    (b : ℕ) × (find_block_by_hash bc.store.hash (bc.chains chain_id) hash ≡ some b)

FoundAt-SameBlocks :
    (bc bc' : Blockchain) (c h : ℕ) → SameBlocks bc bc' → FoundAt bc c h → FoundAt bc' c h
FoundAt-SameBlocks bc bc' c h same (b, at) = (b, rw (same.same_store, same.same_chains) at)

module _ (bc : Blockchain) (chain_id : ℕ) (w : WellFormed bc) where
  attach_block_finds :
      (parent hash p : ℕ)
      → find_block_by_hash bc.store.hash (bc.chains chain_id) parent ≡ some p
      → FoundAt (attach_block bc chain_id parent hash) chain_id hash
  unfolding attached
  attach_block_finds parent hash p at =
      let (b, e) = grown_finds bc.store (bc.chains chain_id) hash p (w.chains_ok chain_id) in
      let there : FoundAt (attached bc chain_id w p hash) chain_id hash =
        (b, rw (update_at bc.chains chain_id (grown bc.store (bc.chains chain_id) hash)) e) in
      rw (attach_block_lem bc chain_id w parent hash p at) (
        FoundAt-SameBlocks (attached bc chain_id w p hash) _ chain_id hash
          (SameBlocks-note_non_full (attached bc chain_id w p hash) chain_id hash) there)

  attach_side_chain_finds :
      (p hash i : ℕ) (bc' : Blockchain)
      → is_incomplete_hash bc.store (bc.inchains chain_id) hash ≡ some i
      → attach_side_chain bc chain_id p i ≡ done bc'
      → FoundAt bc' chain_id hash
  unfolding attach_side_chain link_side_chain link_child
  attach_side_chain_finds p hash i bc' root e =
      let t = tree_at (bc.inchains chain_id) i in
      let t_ok = TreeOk-tree_at bc.store (bc.inchains chain_id) i (w.sides_ok chain_id) in
      let main = bc.chains chain_id in
      let both = insert_subtree_by_hash bc.store.hash main t in
      let bc1 = record bc { chains = update bc.chains chain_id both } in
      let (cb, e1, h1) = done-bind (deref (root_block t)) _ e in
      let (bc2, e2, h2) =
        done-bind (add_subtree_to_received_non_full bc.store.next chain_id bc1 cb) _ h1 in
      let (r, at_root) = find_root bc.store t hash (root_found bc.store _ hash i root) in
      let (b, at) = merged_finds bc.store main t hash r t_ok at_root in
      let end : link_side_chain bc2 chain_id p i cb ≡ bc' = cc in
      subst (λ x. FoundAt x chain_id hash) end
        (FoundAt-SameBlocks bc1 bc2 chain_id hash
          (SameBlocks-add_subtree bc.store.next chain_id bc1 cb bc2 e2)
          (b, rw (update_at bc.chains chain_id both) at))

  -- The deepest block is as it was until `update_deepest`.
  pub add_below_parent_deepest :
      (p parent hash : ℕ) (bc' : Blockchain)
      → find_block_by_hash bc.store.hash (bc.chains chain_id) parent ≡ some p
      → add_below_parent bc chain_id p parent hash ≡ done bc'
      → bc'.deepest ≡ bc.deepest
  unfolding attach_side_chain link_side_chain attached
  add_below_parent_deepest p parent hash bc' at e =
      elim (Option-cases (is_incomplete_hash bc.store (bc.inchains chain_id) hash)) [
        | inl no_root ↦
            let a = attached bc chain_id w p hash in
            let end : note_non_full a chain_id hash ≡ bc' = cc (
              add_below_parent-none bc chain_id w p parent hash no_root,
              attach_block_lem bc chain_id w parent hash p at,
            ) in
            sym (ap (λ (x : Blockchain). x.deepest) end)
            ∙ (SameBlocks-note_non_full a chain_id hash).same_deepest
        | inr (i, root) ↦
            let h = sym (add_below_parent-some bc chain_id w p parent hash i root) ∙ e in
            let t = tree_at (bc.inchains chain_id) i in
            let both = insert_subtree_by_hash bc.store.hash (bc.chains chain_id) t in
            let bc1 = record bc { chains = update bc.chains chain_id both } in
            let (cb, e1, h1) = done-bind (deref (root_block t)) _ h in
            let (bc2, e2, h2) =
              done-bind (add_subtree_to_received_non_full bc.store.next chain_id bc1 cb) _ h1 in
            let end : link_side_chain bc2 chain_id p i cb ≡ bc' = cc in
            sym (ap (λ (x : Blockchain). x.deepest) end)
            ∙ (SameBlocks-add_subtree bc.store.next chain_id bc1 cb bc2 e2).same_deepest
      ]

  pub add_below_parent_finds :
      (p parent hash : ℕ) (bc' : Blockchain)
      → find_block_by_hash bc.store.hash (bc.chains chain_id) parent ≡ some p
      → add_below_parent bc chain_id p parent hash ≡ done bc'
      → FoundAt bc' chain_id hash
  add_below_parent_finds p parent hash bc' at e =
      elim (Option-cases (is_incomplete_hash bc.store (bc.inchains chain_id) hash)) [
        | inl no_root ↦
            let end : attach_block bc chain_id parent hash ≡ bc' =
              cc (add_below_parent-none bc chain_id w p parent hash no_root) in
            subst (λ x. FoundAt x chain_id hash) end (attach_block_finds parent hash p at)
        | inr (i, root) ↦
            attach_side_chain_finds p hash i bc' root
              (sym (add_below_parent-some bc chain_id w p parent hash i root) ∙ e)
      ]
