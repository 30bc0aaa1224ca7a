-- ===== src/Blockchain/WellFormed.antt =====
-- The invariant of the block trees of Blockchain.cpp, and when a step loses no block.
use snowball_dag_experiment.Base.{
  ℕ, zero, suc, ◌≡◌, refl, ap, ◌∙◌, subst, inl, inr, some, List, [], ◌∷◌, ◌==◌, if◌then◌else◌,
  arith, Bool-cases,
}
use snowball_dag_experiment.Base.Outcome.{Outcome, done, done-bind}
use snowball_dag_experiment.HashTree.{Tree, find_block_by_hash}
use snowball_dag_experiment.Blocks.{update}
use snowball_dag_experiment.Blocks.Links.{
  Extends, Extends-refl, Extends-trans, TreeOk, TreeOk-Extends, find-Extends,
}
use snowball_dag_experiment.SideChains.{SideChain}
use snowball_dag_experiment.SideChains.Search.{SidesOk, SidesOk-Extends}
use snowball_dag_experiment.Blockchain.{
  Blockchain, note_non_full, each_child, add_subtree_to_received_non_full,
}

-- Every main tree and every side tree is a search tree of allocated blocks.
pub record WellFormed (bc : Blockchain) : Type 0 where
  pub chains_ok : (c : ℕ) → TreeOk bc.store (bc.chains c)
  pub sides_ok : (c : ℕ) → SidesOk bc.store (bc.inchains c)

-- Two states with the same blocks, trees and deepest blocks.
pub record SameBlocks (bc bc' : Blockchain) : Type 0 where
  pub same_store : bc'.store ≡ bc.store
  pub same_chains : bc'.chains ≡ bc.chains
  pub same_inchains : bc'.inchains ≡ bc.inchains
  pub same_deepest : bc'.deepest ≡ bc.deepest

pub SameBlocks-refl : (bc : Blockchain) → SameBlocks bc bc
SameBlocks-refl bc = record {
  same_store = refl;
  same_chains = refl;
  same_inchains = refl;
  same_deepest = refl;
}

pub SameBlocks-trans : (a b c : Blockchain) → SameBlocks a b → SameBlocks b c → SameBlocks a c
SameBlocks-trans a b c p q = record {
  same_store = q.same_store ∙ p.same_store;
  same_chains = q.same_chains ∙ p.same_chains;
  same_inchains = q.same_inchains ∙ p.same_inchains;
  same_deepest = q.same_deepest ∙ p.same_deepest;
}

pub SameBlocks-note_non_full :
    (bc : Blockchain) (chain_id hash : ℕ) → SameBlocks bc (note_non_full bc chain_id hash)
unfolding note_non_full
SameBlocks-note_non_full bc chain_id hash = ground arith

SameBlocks-each_child :
    (rec : Blockchain → ℕ → Outcome Blockchain)
    → ((a : Blockchain) (r : ℕ) (b : Blockchain) → rec a r ≡ done b → SameBlocks a b)
    → (bc : Blockchain) (cs : List ℕ) (bc' : Blockchain) → each_child rec bc cs ≡ done bc'
    → SameBlocks bc bc'
unfolding each_child
SameBlocks-each_child rec ih bc [] bc' e =
    let same : bc ≡ bc' = cc in subst (SameBlocks bc) same (SameBlocks-refl bc)
SameBlocks-each_child rec ih bc (c ∷ cs) bc' e =
    let (bc1, e1, h1) = done-bind (rec bc c) _ e in
    SameBlocks-trans bc bc1 bc' (ih bc c bc1 e1) (SameBlocks-each_child rec ih bc1 cs bc' h1)

pub SameBlocks-add_subtree :
    (fuel chain_id : ℕ) (bc : Blockchain) (b : ℕ) (bc' : Blockchain)
    → add_subtree_to_received_non_full fuel chain_id bc b ≡ done bc'
    → SameBlocks bc bc'
unfolding add_subtree_to_received_non_full
SameBlocks-add_subtree zero chain_id bc b bc' e = absurd (cc)
SameBlocks-add_subtree (suc fuel) chain_id bc b bc' e =
    SameBlocks-trans bc _ bc' (SameBlocks-note_non_full bc chain_id (bc.store.hash b)) (
      SameBlocks-each_child (add_subtree_to_received_non_full fuel chain_id)
        (λ a r c h. SameBlocks-add_subtree fuel chain_id a r c h) _ (bc.store.children b) bc' e)

-- From `bc` to `bc'` no block is lost: each known one keeps its hash, and what a search in a main
-- tree found it finds again; and the trees are in order.
pub record Grows (bc bc' : Blockchain) : Type 0 where
  pub extends : Extends bc.store bc'.store
  pub keeps :
      (c h b : ℕ)
      → find_block_by_hash bc.store.hash (bc.chains c) h ≡ some b
      → find_block_by_hash bc'.store.hash (bc'.chains c) h ≡ some b
  pub well_formed : WellFormed bc'

pub Grows-refl : (bc : Blockchain) → WellFormed bc → Grows bc bc
Grows-refl bc w = record { extends = Extends-refl bc.store; keeps = λ c h b e. e; well_formed = w }

pub Grows-trans : (a b c : Blockchain) → Grows a b → Grows b c → Grows a c
Grows-trans a b c p q = record {
  extends = Extends-trans a.store b.store c.store p.extends q.extends;
  keeps = λ i h x e. q.keeps i h x (p.keeps i h x e);
  well_formed = q.well_formed;
}

-- One main tree and one list of side chains replaced, in a store that extends the old one.
module _ (bc bc' : Blockchain) (c : ℕ) (t : Tree) (l : List SideChain)
    (chains : bc'.chains ≡ update bc.chains c t) (inchains : bc'.inchains ≡ update bc.inchains c l)
    (w : WellFormed bc) (e : Extends bc.store bc'.store) where
  at_chains : (i : ℕ) → bc'.chains i ≡ (if c == i then t else bc.chains i)
  unfolding update
  at_chains i = ap (λ f. f i) chains

  at_inchains : (i : ℕ) → bc'.inchains i ≡ (if c == i then l else bc.inchains i)
  unfolding update
  at_inchains i = ap (λ f. f i) inchains

  pub replaced-WellFormed : TreeOk bc'.store t → SidesOk bc'.store l → WellFormed bc'
  replaced-WellFormed t_ok l_ok = record {
    chains_ok = λ i. rw (at_chains i) (elim (Bool-cases (c == i)) [
      | inl h ↦ rw h t_ok
      | inr h ↦ rw h (TreeOk-Extends bc.store bc'.store e (bc.chains i) (w.chains_ok i))
    ]);
    sides_ok = λ i. rw (at_inchains i) (elim (Bool-cases (c == i)) [
      | inl h ↦ rw h l_ok
      | inr h ↦ rw h (SidesOk-Extends bc.store bc'.store (bc.inchains i) e (w.sides_ok i))
    ]);
  }

  pub replaced-Grows :
      TreeOk bc'.store t
      → SidesOk bc'.store l
      → ((h b : ℕ)
          → find_block_by_hash bc.store.hash (bc.chains c) h ≡ some b
          → find_block_by_hash bc'.store.hash t h ≡ some b)
      → Grows bc bc'
  replaced-Grows t_ok l_ok found = record {
    extends = e;
    keeps = λ i h b at. rw (at_chains i) (elim (Bool-cases (c == i)) [
      | inl q ↦ let same : c ≡ i = ground arith in rw q (found h b (rw same at))
      | inr q ↦ rw q (find-Extends bc.store bc'.store e (bc.chains i) (w.chains_ok i) h ∙ at)
    ]);
    well_formed = replaced-WellFormed t_ok l_ok;
  }
