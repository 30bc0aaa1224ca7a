-- ===== src/Blocks/Links.antt =====
-- What the operations on the store keep: the hash of every block that was there, and with it the
-- order of every tree and the results of every search.
use snowball_dag_experiment.Base.{
  ℕ, ◌≤◌, ◌<◌, ◌≡◌, refl, ap, ◌∙◌, true, none, some, ◌==◌, if◌then◌else◌, arith,
}
use snowball_dag_experiment.HashTree.{Tree, find_block_by_hash, insert_block_only_by_hash}
use snowball_dag_experiment.HashTree.Ordered.{
  or_else, AllBlocks, AllBlocks-mono, Ordered, find_congr, Ordered_congr, AllBlocks-insert,
  Ordered-insert_block_only_by_hash, find-insert_block_only_by_hash,
}
use snowball_dag_experiment.Blocks.{
  Store, NetworkBlock, update, bootstrap_chain, link_child, set_nb, add_block_by_parent_hash,
}

-- `s'` has the blocks of `s`, under their hashes, and maybe more.
pub record Extends (s s' : Store) : Type 0 where
  pub grows : s.next ≤ s'.next
  pub same : (b : ℕ) → b < s.next → s'.hash b ≡ s.hash b

pub Extends-refl : (s : Store) → Extends s s
Extends-refl s = record { grows = omega arith; same = λ b h. refl }

pub Extends-trans : (s t u : Store) → Extends s t → Extends t u → Extends s u
Extends-trans s t u e f = record {
  grows = omega arith;
  same = λ b h. f.same b (omega arith) ∙ e.same b h;
}

pub Extends-bootstrap_chain : (s : Store) (hash : ℕ) → Extends s (bootstrap_chain s hash)
unfolding bootstrap_chain update
Extends-bootstrap_chain s hash = record { grows = omega arith; same = λ b h. ground arith }

pub Extends-link_child : (s : Store) (p c : ℕ) → Extends s (link_child s p c)
unfolding link_child
Extends-link_child s p c = record { grows = omega arith; same = λ b h. refl }

pub Extends-set_nb : (s : Store) (b : ℕ) (nb : NetworkBlock) → Extends s (set_nb s b nb)
unfolding set_nb
Extends-set_nb s b nb = record { grows = omega arith; same = λ b h. refl }

-- A search tree of allocated blocks.
pub record TreeOk (s : Store) (t : Tree) : Type 0 where
  pub ordered : Ordered s.hash t
  pub allocated : AllBlocks (λ b. b < s.next) t

module _ (s s' : Store) (e : Extends s s') (t : Tree) (ok : TreeOk s t) where
  same_keys : AllBlocks (λ b. s'.hash b ≡ s.hash b) t
  same_keys = AllBlocks-mono t e.same ok.allocated

  pub TreeOk-Extends : TreeOk s' t
  TreeOk-Extends = record {
    ordered = Ordered_congr s.hash s'.hash t same_keys ok.ordered;
    allocated = AllBlocks-mono t (λ b h. omega (arith, e.grows)) ok.allocated;
  }

  pub find-Extends : (h : ℕ) → find_block_by_hash s'.hash t h ≡ find_block_by_hash s.hash t h
  find-Extends h = find_congr s.hash s'.hash t h same_keys

-- A new block in a search tree.
module _ (s s' : Store) (e : Extends s s') (t : Tree) (ok : TreeOk s t) (hash new : ℕ)
    (key : s'.hash new ≡ hash) where
  pub TreeOk-insert : new < s'.next → TreeOk s' (insert_block_only_by_hash s'.hash t hash new)
  TreeOk-insert h =
      let ok' = TreeOk-Extends s s' e t ok in
      record {
        ordered = Ordered-insert_block_only_by_hash s'.hash t hash new key ok'.ordered;
        allocated = AllBlocks-insert s'.hash (λ b. b < s'.next) t hash new h ok'.allocated;
      }

  pub find-insert :
      (h : ℕ)
      → find_block_by_hash s'.hash (insert_block_only_by_hash s'.hash t hash new) h
        ≡ or_else (find_block_by_hash s.hash t h) (if hash == h then some new else none)
  find-insert h =
      find-insert_block_only_by_hash s'.hash t hash new h key
      ∙ ap (λ o. or_else o (if hash == h then some new else none)) (find-Extends s s' e t ok h)

-- What `add_block_by_parent_hash` leaves where the parent is in the tree, at `p`.
abbrev pub linked : Store → ℕ → ℕ → Store
linked s hash p = link_child (bootstrap_chain s hash) p s.next

abbrev pub grown : Store → Tree → ℕ → Tree
grown s t hash = insert_block_only_by_hash (bootstrap_chain s hash).hash t hash s.next

module _ (s : Store) (t : Tree) (hash p : ℕ) where
  pub add_block_by_parent_hash_lem :
      (parent : ℕ)
      → find_block_by_hash s.hash t parent ≡ some p
      → add_block_by_parent_hash s t parent hash ≡ (linked s hash p, grown s t hash, true)
  unfolding add_block_by_parent_hash
  add_block_by_parent_hash_lem parent at = rw (at, add_block_by_parent_hash) refl

  pub Extends-linked : Extends s (linked s hash p)
  Extends-linked =
      Extends-trans s _ _ (Extends-bootstrap_chain s hash) (Extends-link_child _ p s.next)

  new_hash : (linked s hash p).hash s.next ≡ hash
  unfolding bootstrap_chain link_child update
  new_hash = ground arith

  same_key : (linked s hash p).hash ≡ (bootstrap_chain s hash).hash
  unfolding link_child
  same_key = refl

  new_allocated : s.next < (linked s hash p).next
  unfolding bootstrap_chain link_child
  new_allocated = omega arith

  pub TreeOk-grown : TreeOk s t → TreeOk (linked s hash p) (grown s t hash)
  unfolding link_child
  TreeOk-grown ok =
      TreeOk-insert s (linked s hash p) Extends-linked t ok hash s.next new_hash new_allocated

  pub find-grown :
      TreeOk s t
      → (h : ℕ)
      → find_block_by_hash (linked s hash p).hash (grown s t hash) h
        ≡ or_else (find_block_by_hash s.hash t h) (if hash == h then some s.next else none)
  unfolding link_child
  find-grown ok h = find-insert s (linked s hash p) Extends-linked t ok hash s.next new_hash h
