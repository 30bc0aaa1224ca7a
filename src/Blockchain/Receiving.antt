-- ===== src/Blockchain/Receiving.antt =====
-- The parts of `add_received_block` of Blockchain.cpp lose no block and keep the trees in order.
use snowball_dag_experiment.Base.{
  ℕ, ◌≡◌, refl, sym, ap, ◌∙◌, subst, inl, inr, Option, none, some, List, ◌==◌, arith, Option-cases,
  Bool-cases,
}
use snowball_dag_experiment.Base.Outcome.{done, deref, done-bind}
use snowball_dag_experiment.HashTree.{root_block, find_block_by_hash, insert_subtree_by_hash}
use snowball_dag_experiment.Blocks.{
  Store, NetworkBlock, update, link_child, set_nb, depth_of, find_max_depth,
}
use snowball_dag_experiment.Blocks.Links.{
  Extends, Extends-refl, Extends-trans, Extends-link_child, Extends-set_nb, TreeOk-Extends,
  find-Extends,
}
use snowball_dag_experiment.SideChains.{
  SideChain, remove_one_chain, is_incomplete_hash, find_incomplete_block, tree_at,
  add_block_to_incomplete,
}
use snowball_dag_experiment.SideChains.Search.{
  SidesOk-Extends, TreeOk-tree_at, SidesOk-remove_one_chain,
}
use snowball_dag_experiment.SideChains.Added.{merged, add_block_to_incomplete-Kept}
use snowball_dag_experiment.Blockchain.{
  Blockchain, note_non_full, add_subtree_to_received_non_full, attach_side_chain, attach_block,
  update_deepest, deepen, link_side_chain, choose_deepest, set_side_header, add_below_parent,
  add_to_side_chains,
}
use mathlib.Core.Path.{fun_ext}
use snowball_dag_experiment.Blocks.Links.{
  linked, grown, add_block_by_parent_hash_lem, Extends-linked, TreeOk-grown, find-grown,
}
use snowball_dag_experiment.HashTree.Ordered.{or_else}
use snowball_dag_experiment.HashTree.Union.{find-insert_subtree_by_hash}
use snowball_dag_experiment.Blockchain.WellFormed.{
  WellFormed, SameBlocks, SameBlocks-note_non_full, SameBlocks-add_subtree, Grows, Grows-refl,
  Grows-trans, replaced-Grows,
}

pub Grows-SameBlocks : (bc bc' : Blockchain) → WellFormed bc → SameBlocks bc bc' → Grows bc bc'
Grows-SameBlocks bc bc' w same = record {
  extends = rw same.same_store (Extends-refl bc.store);
  keeps = λ c h b e. rw (same.same_store, same.same_chains) e;
  well_formed = record {
    chains_ok = λ c. rw (same.same_store, same.same_chains) (w.chains_ok c);
    sides_ok = λ c. rw (same.same_store, same.same_inchains) (w.sides_ok c);
  };
}

or_else_left : (a o : Option ℕ) {b : ℕ} → a ≡ some b → or_else a o ≡ some b
or_else_left none o e = cc
or_else_left (some x) o e = e

pub update_same {ℓ} : {A : Type ℓ} (f : ℕ → A) (c : ℕ) → f ≡ update f c (f c)
unfolding update
update_same f c = fun_ext (λ i. elim (Bool-cases (c == i)) [
  | inl e ↦ rw e (let same : i ≡ c = ground arith in ap f same)
  | inr e ↦ rw e refl
])

module _ (bc : Blockchain) (chain_id : ℕ) (w : WellFormed bc) where
  -- The state of `attach_block` before the entry for the non-full block.
  unfoldable pub attached : ℕ → ℕ → Blockchain
  attached p hash = record bc {
    store = linked bc.store hash p;
    chains = update bc.chains chain_id (grown bc.store (bc.chains chain_id) hash);
  }

  pub attached-Grows : (p hash : ℕ) → Grows bc (attached p hash)
  unfolding attached
  attached-Grows p hash =
      let s = bc.store in
      let t = bc.chains chain_id in
      let t_ok = w.chains_ok chain_id in
      let e = Extends-linked s t hash p in
      replaced-Grows bc (attached p hash) chain_id (grown s t hash) (bc.inchains chain_id) refl
        (update_same bc.inchains chain_id) w e (TreeOk-grown s t hash p t_ok)
        (SidesOk-Extends s (linked s hash p) (bc.inchains chain_id) e (w.sides_ok chain_id))
        (λ h b at. find-grown s t hash p t_ok h ∙ or_else_left _ _ at)

  pub attach_block_lem :
      (parent hash p : ℕ)
      → find_block_by_hash bc.store.hash (bc.chains chain_id) parent ≡ some p
      → attach_block bc chain_id parent hash ≡ note_non_full (attached p hash) chain_id hash
  unfolding attach_block attached
  attach_block_lem parent hash p at =
      rw (add_block_by_parent_hash_lem bc.store (bc.chains chain_id) hash p parent at, attach_block)
        refl

  attach_block-Grows :
      (parent hash p : ℕ)
      → find_block_by_hash bc.store.hash (bc.chains chain_id) parent ≡ some p
      → Grows bc (attach_block bc chain_id parent hash)
  attach_block-Grows parent hash p at =
      let g = attached-Grows p hash in
      rw (attach_block_lem parent hash p at) (
        Grows-trans bc (attached p hash) _ g (
          Grows-SameBlocks (attached p hash) _ g.well_formed
            (SameBlocks-note_non_full (attached p hash) chain_id hash)))

  pub Grows-Extends :
      (bc' : Blockchain)
      → Extends bc.store bc'.store
      → bc'.chains ≡ bc.chains
      → bc'.inchains ≡ bc.inchains
      → Grows bc bc'
  Grows-Extends bc' e chains inchains =
      replaced-Grows bc bc' chain_id (bc.chains chain_id) (bc.inchains chain_id)
        (chains ∙ update_same bc.chains chain_id) (inchains ∙ update_same bc.inchains chain_id) w e
        (TreeOk-Extends bc.store bc'.store e (bc.chains chain_id) (w.chains_ok chain_id))
        (SidesOk-Extends bc.store bc'.store (bc.inchains chain_id) e (w.sides_ok chain_id))
        (λ h b at.
          find-Extends bc.store bc'.store e (bc.chains chain_id) (w.chains_ok chain_id) h ∙ at)

  -- `bc2` has the side chain's tree in the main tree already.
  link_side_chain-Grows :
      (p i cb : ℕ) (bc2 : Blockchain)
      → (let t = tree_at (bc.inchains chain_id) i in
          let both = insert_subtree_by_hash bc.store.hash (bc.chains chain_id) t in
          SameBlocks (record bc { chains = update bc.chains chain_id both }) bc2)
      → Grows bc (link_side_chain bc2 chain_id p i cb)
  unfolding link_side_chain
  link_side_chain-Grows p i cb bc2 same =
      let l = bc.inchains chain_id in
      let t = tree_at l i in
      let t_ok = TreeOk-tree_at bc.store l i (w.sides_ok chain_id) in
      let main_ok = w.chains_ok chain_id in
      let both = insert_subtree_by_hash bc.store.hash (bc.chains chain_id) t in
      let s = link_child bc.store p cb in
      let e = Extends-link_child bc.store p cb in
      let merged_ok = merged bc.store (bc.chains chain_id) t main_ok t_ok in
      let same_link : link_child bc2.store p cb ≡ s = ap (λ x. link_child x p cb) same.same_store in
      replaced-Grows bc _ chain_id both (remove_one_chain l i) same.same_chains
        (ap (λ (f : ℕ → List SideChain). update f chain_id (remove_one_chain (f chain_id) i))
          same.same_inchains)
        w (rw same_link e) (rw same_link (TreeOk-Extends bc.store s e both merged_ok))
        (rw same_link (
          SidesOk-Extends bc.store s _ e
            (SidesOk-remove_one_chain bc.store l i (w.sides_ok chain_id))))
        (λ h b at. rw same_link (
          find-Extends bc.store s e both merged_ok h
          ∙ find-insert_subtree_by_hash bc.store.hash t (bc.chains chain_id) h t_ok.ordered
          ∙ or_else_left _ _ at))

  set_side_header-Extends :
      (s : Store) (l : List SideChain) (hash : ℕ) (nb : NetworkBlock)
      → Extends s (set_side_header s l hash nb)
  unfolding set_side_header
  set_side_header-Extends s l hash nb = elim (Option-cases (find_incomplete_block s l hash)) [
    | inl e ↦ rw (e, set_side_header) (Extends-refl s)
    | inr (b, e) ↦ rw (e, set_side_header) (Extends-set_nb s b nb)
  ]

  attach_side_chain-Grows :
      (p i : ℕ) (bc' : Blockchain) → attach_side_chain bc chain_id p i ≡ done bc' → Grows bc bc'
  unfolding attach_side_chain
  attach_side_chain-Grows p i bc' e =
      let t = tree_at (bc.inchains chain_id) i in
      let t_ok = TreeOk-tree_at bc.store (bc.inchains chain_id) i (w.sides_ok chain_id) in
      let main = bc.chains chain_id in
      let both = insert_subtree_by_hash bc.store.hash main t in
      let bc1 = record bc { chains = update bc.chains chain_id both } in
      let (cb, e1, h1) = done-bind (deref (root_block t)) _ e in
      let (bc2, e2, h2) =
        done-bind (add_subtree_to_received_non_full bc.store.next chain_id bc1 cb) _ h1 in
      let same = SameBlocks-add_subtree bc.store.next chain_id bc1 cb bc2 e2 in
      let end : link_side_chain bc2 chain_id p i cb ≡ bc' = cc in
      subst (Grows bc) end (link_side_chain-Grows p i cb bc2 same)

  -- What `deepen` leaves, with the depths that it compared.
  pub deepen_lem :
      (s : Store) (bz : ℕ) (bc' : Blockchain)
      → deepen bc chain_id s bz ≡ done bc'
      → (old_depth deep_last d : ℕ) × (depth_of s (bc.deepest chain_id) ≡ done old_depth)
        × (find_max_depth s.next s bz ≡ done deep_last)
        × (depth_of s deep_last ≡ done d)
        × (choose_deepest bc chain_id s old_depth deep_last d ≡ bc')
  unfolding deepen
  deepen_lem s bz bc' e =
      let (old_depth, e1, h1) = done-bind (depth_of s (bc.deepest chain_id)) _ e in
      let (deep_last, e2, h2) = done-bind (find_max_depth s.next s bz) _ h1 in
      let (d, e3, h3) = done-bind (depth_of s deep_last) _ h2 in
      (old_depth, deep_last, d, e1, e2, e3, cc)

  pub update_deepest-some :
      (hash bz : ℕ) (nb : NetworkBlock)
      → find_block_by_hash bc.store.hash (bc.chains chain_id) hash ≡ some bz
      → update_deepest bc chain_id hash nb ≡ deepen bc chain_id (set_nb bc.store bz nb) bz
  unfolding update_deepest
  update_deepest-some hash bz nb at = rw (at, update_deepest) refl

  pub deepen-Grows :
      (s : Store) (bz : ℕ) (bc' : Blockchain)
      → Extends bc.store s
      → deepen bc chain_id s bz ≡ done bc'
      → Grows bc bc'
  unfolding choose_deepest
  deepen-Grows s bz bc' ext e =
      let (old_depth, deep_last, d, _, _, _, end) = deepen_lem s bz bc' e in
      subst (Grows bc) end
        (Grows-Extends (choose_deepest bc chain_id s old_depth deep_last d) ext refl refl)

  pub update_deepest-none :
      (hash : ℕ) (nb : NetworkBlock)
      → find_block_by_hash bc.store.hash (bc.chains chain_id) hash ≡ none
      → update_deepest bc chain_id hash nb ≡ done bc
  unfolding update_deepest
  update_deepest-none hash nb at = rw (at, update_deepest) refl

  pub update_deepest-Grows :
      (hash : ℕ) (nb : NetworkBlock) (bc' : Blockchain)
      → update_deepest bc chain_id hash nb ≡ done bc'
      → Grows bc bc'
  update_deepest-Grows hash nb bc' e =
      elim (Option-cases (find_block_by_hash bc.store.hash (bc.chains chain_id) hash)) [
        | inl absent ↦
            let stays : bc ≡ bc' = cc (update_deepest-none hash nb absent) in
            subst (Grows bc) stays (Grows-refl bc w)
        | inr (bz, at) ↦
            deepen-Grows (set_nb bc.store bz nb) bz bc' (Extends-set_nb bc.store bz nb)
              (sym (update_deepest-some hash bz nb at) ∙ e)
      ]

  pub add_to_side_chains-Grows :
      (parent hash : ℕ) (nb : NetworkBlock)
      → Grows bc (add_to_side_chains bc chain_id parent hash nb)
  unfolding add_to_side_chains
  add_to_side_chains-Grows parent hash nb =
      let l = bc.inchains chain_id in
      let r = add_block_to_incomplete bc.store l parent hash in
      let kept = add_block_to_incomplete-Kept bc.store l (w.sides_ok chain_id) parent hash in
      let s1 = set_side_header r.0 r.1 hash nb in
      let e1 = set_side_header-Extends r.0 r.1 hash nb in
      let e = Extends-trans bc.store r.0 s1 kept.0 e1 in
      let t = bc.chains chain_id in
      replaced-Grows bc _ chain_id t r.1 (update_same bc.chains chain_id) refl w e
        (TreeOk-Extends bc.store s1 e t (w.chains_ok chain_id))
        (SidesOk-Extends r.0 s1 r.1 e1 kept.1)
        (λ h b at. find-Extends bc.store s1 e t (w.chains_ok chain_id) h ∙ at)

  pub add_below_parent-none :
      (p parent hash : ℕ)
      → is_incomplete_hash bc.store (bc.inchains chain_id) hash ≡ none
      → add_below_parent bc chain_id p parent hash ≡ done (attach_block bc chain_id parent hash)
  unfolding add_below_parent attach_block
  add_below_parent-none p parent hash no_root = rw (no_root, add_below_parent) refl

  pub add_below_parent-some :
      (p parent hash i : ℕ)
      → is_incomplete_hash bc.store (bc.inchains chain_id) hash ≡ some i
      → add_below_parent bc chain_id p parent hash ≡ attach_side_chain bc chain_id p i
  unfolding add_below_parent attach_side_chain
  add_below_parent-some p parent hash i root = rw (root, add_below_parent) refl

  pub add_below_parent-Grows :
      (p parent hash : ℕ) (bc' : Blockchain)
      → find_block_by_hash bc.store.hash (bc.chains chain_id) parent ≡ some p
      → add_below_parent bc chain_id p parent hash ≡ done bc'
      → Grows bc bc'
  add_below_parent-Grows p parent hash bc' at e =
      elim (Option-cases (is_incomplete_hash bc.store (bc.inchains chain_id) hash)) [
        | inl no_root ↦
            let end : attach_block bc chain_id parent hash ≡ bc' =
              cc (add_below_parent-none p parent hash no_root) in
            subst (Grows bc) end (attach_block-Grows parent hash p at)
        | inr (i, root) ↦
            attach_side_chain-Grows p i bc' (sym (add_below_parent-some p parent hash i root) ∙ e)
      ]
