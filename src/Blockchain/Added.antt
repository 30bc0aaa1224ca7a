-- ===== src/Blockchain/Added.antt =====
-- The four ways through `add_received_block` of Blockchain.cpp, and that none loses a block.
use snowball_dag_experiment.Base.{
  ℕ, ◌≡◌, refl, sym, ◌∙◌, subst, inl, inr, true, false, Option, none, some, if◌then◌else◌,
  Option-cases, Bool-cases,
}
use snowball_dag_experiment.Base.Outcome.{Outcome, done, ◌>>=◌, done-bind, done-injective}
use snowball_dag_experiment.HashTree.{find_block_by_hash}
use snowball_dag_experiment.Blocks.{NetworkBlock}
use snowball_dag_experiment.SideChains.{is_in_incomplete}
use snowball_dag_experiment.Blockchain.{
  Blockchain, Received, update_deepest, add_below_parent, add_to_side_chains, add_received_block,
}
use snowball_dag_experiment.Blockchain.WellFormed.{WellFormed, Grows, Grows-refl, Grows-trans}
use snowball_dag_experiment.Blockchain.Receiving.{
  update_deepest-Grows, add_to_side_chains-Grows, add_below_parent-Grows,
}

-- The four ways through `add_received_block`.
pub data Way (bc : Blockchain) (chain_id parent hash : ℕ) (nb : NetworkBlock) (r : Received)
    : Type 0 where
  known :
      (b : ℕ)
      → find_block_by_hash bc.store.hash (bc.chains chain_id) hash ≡ some b
      → record { bc = bc; added = false; need_parent = false } ≡ r
      → Way bc chain_id parent hash nb r
  below :
      (p : ℕ) (bc1 bc2 : Blockchain)
      → find_block_by_hash bc.store.hash (bc.chains chain_id) hash ≡ none
      → find_block_by_hash bc.store.hash (bc.chains chain_id) parent ≡ some p
      → add_below_parent bc chain_id p parent hash ≡ done bc1
      → update_deepest bc1 chain_id hash nb ≡ done bc2
      → record { bc = bc2; added = true; need_parent = false } ≡ r
      → Way bc chain_id parent hash nb r
  linked_before :
      is_in_incomplete bc.store (bc.inchains chain_id) parent hash ≡ true
      → record { bc = bc; added = false; need_parent = false } ≡ r
      → Way bc chain_id parent hash nb r
  aside :
      find_block_by_hash bc.store.hash (bc.chains chain_id) parent ≡ none
      → is_in_incomplete bc.store (bc.inchains chain_id) parent hash ≡ false
      → record {
        bc = add_to_side_chains bc chain_id parent hash nb;
        added = true;
        need_parent = true;
      }
        ≡ r
      → Way bc chain_id parent hash nb r

module _ (bc : Blockchain) (chain_id parent hash : ℕ) (nb : NetworkBlock) where
  -- The call, as a function of what the two searches found.
  unfoldable pub after_search : Option ℕ → Option ℕ → Outcome Received
  after_search (some b) o = done (record { bc = bc; added = false; need_parent = false })
  after_search none (some p) = do
    bc1 ← add_below_parent bc chain_id p parent hash
    bc2 ← update_deepest bc1 chain_id hash nb
    done (record { bc = bc2; added = true; need_parent = false })
  after_search none none =
      if is_in_incomplete bc.store (bc.inchains chain_id) parent hash
      then done (record { bc = bc; added = false; need_parent = false })
      else done (record {
        bc = add_to_side_chains bc chain_id parent hash nb;
        added = true;
        need_parent = true;
      })

  pub after_search_lem :
      (o p : Option ℕ)
      → find_block_by_hash bc.store.hash (bc.chains chain_id) hash ≡ o
      → find_block_by_hash bc.store.hash (bc.chains chain_id) parent ≡ p
      → add_received_block bc chain_id parent hash nb ≡ after_search o p
  unfolding add_received_block after_search
  after_search_lem (some b) p e q = rw (e, add_received_block) refl
  after_search_lem none (some b) e q = rw (e, q, add_received_block) refl
  after_search_lem none none e q = rw (e, q, add_received_block) refl

  pub way :
      (r : Received)
      → add_received_block bc chain_id parent hash nb ≡ done r
      → Way bc chain_id parent hash nb r
  unfolding after_search
  way r e = elim (Option-cases (find_block_by_hash bc.store.hash (bc.chains chain_id) hash)) [
    | inr (b, at) ↦ known b at (done-injective (sym (after_search_lem (some b) _ at refl) ∙ e))
    | inl absent ↦
        elim (Option-cases (find_block_by_hash bc.store.hash (bc.chains chain_id) parent)) [
          | inr (p, at) ↦
              let h = sym (after_search_lem none (some p) absent at) ∙ e in
              let (bc1, e1, h1) = done-bind (add_below_parent bc chain_id p parent hash) _ h in
              let (bc2, e2, h2) = done-bind (update_deepest bc1 chain_id hash nb) _ h1 in
              below p bc1 bc2 absent at e1 e2 (done-injective h2)
          | inl at ↦
              let h = sym (after_search_lem none none absent at) ∙ e in
              elim (Bool-cases (is_in_incomplete bc.store (bc.inchains chain_id) parent hash)) [
                | inl q ↦ linked_before q (done-injective (sym (rw q refl) ∙ h))
                | inr q ↦ aside at q (done-injective (sym (rw q refl) ∙ h))
              ]
        ]
  ]

  -- On a state whose trees are in order, a call of `add_received_block` that returns loses no block:
  -- each one keeps its hash, and what a search in a main tree found it finds again. The trees are in
  -- order afterwards.
  pub add_received_block-Grows :
      (r : Received)
      → WellFormed bc
      → add_received_block bc chain_id parent hash nb ≡ done r
      → Grows bc r.bc
  add_received_block-Grows r w e = elim (way r e) [
    | known _ _ q ↦ subst (λ x. Grows bc x.bc) q (Grows-refl bc w)
    | linked_before _ q ↦ subst (λ x. Grows bc x.bc) q (Grows-refl bc w)
    | aside _ _ q ↦
        subst (λ x. Grows bc x.bc) q (add_to_side_chains-Grows bc chain_id w parent hash nb)
    | below p bc1 bc2 absent at e1 e2 q ↦
        let g = add_below_parent-Grows bc chain_id w p parent hash bc1 at e1 in
        subst (λ x. Grows bc x.bc) q
          (Grows-trans bc bc1 bc2 g
            (update_deepest-Grows bc1 chain_id g.well_formed hash nb bc2 e2))
  ]
