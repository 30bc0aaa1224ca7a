-- ===== src/SideChains/Search.antt =====
-- The list of side chains by position: which trees a change leaves, and where a hash is found.
use snowball_dag_experiment.Base.{
  ℕ, zero, suc, ◌<◌, ◌≡◌, refl, ap, ◌≢◌, inl, inr, none, some, List, [], ◌∷◌, ◌++◌, arith, length,
  Option-cases, All, All-mono,
}
use snowball_dag_experiment.HashTree.{Tree, null, find_block_by_hash}
use snowball_dag_experiment.Blocks.{Store}
use snowball_dag_experiment.Blocks.Links.{Extends, TreeOk, TreeOk-Extends}
use snowball_dag_experiment.SideChains.{
  SideChain, remove_one_chain, find_incomplete_block, chain_with, tree_at, set_tree, restart,
}

abbrev pub SidesOk : Store → List SideChain → Type 0
SidesOk s l = All (λ (c : SideChain). TreeOk s c.b) l

pub SidesOk-Extends :
    (s s' : Store) (l : List SideChain) → Extends s s' → SidesOk s l → SidesOk s' l
SidesOk-Extends s s' l e ok = All-mono l (λ c h. TreeOk-Extends s s' e c.b h) ok

pub TreeOk-null : (s : Store) → TreeOk s null
TreeOk-null s = record { ordered = tt; allocated = tt }

pub TreeOk-tree_at : (s : Store) (l : List SideChain) (i : ℕ) → SidesOk s l → TreeOk s (tree_at l i)
unfolding tree_at
TreeOk-tree_at s [] i ok = TreeOk-null s
TreeOk-tree_at s (c ∷ l) zero ok = ok.0
TreeOk-tree_at s (c ∷ l) (suc i) ok = TreeOk-tree_at s l i ok.1

pub SidesOk-set_tree :
    (s : Store) (l : List SideChain) (i : ℕ) (t : Tree)
    → TreeOk s t
    → SidesOk s l
    → SidesOk s (set_tree l i t)
unfolding set_tree
SidesOk-set_tree s [] i t h ok = tt
SidesOk-set_tree s (c ∷ l) zero t h ok = (h, ok.1)
SidesOk-set_tree s (c ∷ l) (suc i) t h ok = (ok.0, SidesOk-set_tree s l i t h ok.1)

pub SidesOk-restart :
    (s : Store) (l : List SideChain) (i : ℕ) (t : Tree)
    → TreeOk s t
    → SidesOk s l
    → SidesOk s (restart l i t)
unfolding restart
SidesOk-restart s [] i t h ok = tt
SidesOk-restart s (c ∷ l) zero t h ok = (h, ok.1)
SidesOk-restart s (c ∷ l) (suc i) t h ok = (ok.0, SidesOk-restart s l i t h ok.1)

pub SidesOk-remove_one_chain :
    (s : Store) (l : List SideChain) (i : ℕ) → SidesOk s l → SidesOk s (remove_one_chain l i)
unfolding remove_one_chain
SidesOk-remove_one_chain s [] i ok = tt
SidesOk-remove_one_chain s (c ∷ l) zero ok = ok.1
SidesOk-remove_one_chain s (c ∷ l) (suc i) ok = (ok.0, SidesOk-remove_one_chain s l i ok.1)

-- The place where `chain_with` finds a hash, and that the trees hold no other.
pub chain_with-some :
    (s : Store) (l : List SideChain) (h i : ℕ)
    → chain_with s l h ≡ some i
    → (i < length l) × ((b : ℕ) × (find_block_by_hash s.hash (tree_at l i) h ≡ some b))
unfolding chain_with tree_at
chain_with-some s [] h i e = absurd (cc)
chain_with-some s (c ∷ l) h zero e = elim (Option-cases (find_block_by_hash s.hash c.b h)) [
  | inr (b, here) ↦ (omega arith, (b, here))
  | inl absent ↦ absurd (ground arith)
]
chain_with-some s (c ∷ l) h (suc i) e = elim (Option-cases (find_block_by_hash s.hash c.b h)) [
  | inr (b, here) ↦ absurd (ground arith)
  | inl absent ↦ let (lt, at) = chain_with-some s l h i (ground arith) in (omega arith, at)
]

pub null_finds : (s : Store) (h : ℕ) → find_block_by_hash s.hash null h ≡ none
unfolding find_block_by_hash
null_finds s h = refl

pub find_incomplete_block_at :
    (s : Store) (l : List SideChain) (h i b : ℕ)
    → find_block_by_hash s.hash (tree_at l i) h ≡ some b
    → (c : ℕ) × (find_incomplete_block s l h ≡ some c)
unfolding find_incomplete_block tree_at
find_incomplete_block_at s [] h i b e = absurd (cc (null_finds s h, e))
find_incomplete_block_at s (c ∷ l) h zero b e = (b, ground arith)
find_incomplete_block_at s (c ∷ l) h (suc i) b e =
    elim (Option-cases (find_block_by_hash s.hash c.b h)) [
      | inr (k, first) ↦ (k, rw (first, find_incomplete_block) refl)
      | inl absent ↦
          let (k, later) = find_incomplete_block_at s l h i b e in
          (k, rw (absent, find_incomplete_block) later)
    ]

pub tree_at-set_tree :
    (l : List SideChain) (i : ℕ) (t : Tree) → i < length l → tree_at (set_tree l i t) i ≡ t
unfolding tree_at set_tree
tree_at-set_tree [] i t h = absurd (omega arith)
tree_at-set_tree (c ∷ l) zero t h = refl
tree_at-set_tree (c ∷ l) (suc i) t h = tree_at-set_tree l i t (omega arith)

pub tree_at-restart :
    (l : List SideChain) (i : ℕ) (t : Tree) → i < length l → tree_at (restart l i t) i ≡ t
unfolding tree_at restart
tree_at-restart [] i t h = absurd (omega arith)
tree_at-restart (c ∷ l) zero t h = refl
tree_at-restart (c ∷ l) (suc i) t h = tree_at-restart l i t (omega arith)

-- Taking one chain away leaves every other, at the place `j`.
pub tree_at-remove_one_chain :
    (l : List SideChain) (i k : ℕ)
    → i ≢ k
    → (j : ℕ) × (tree_at (remove_one_chain l i) j ≡ tree_at l k)
unfolding tree_at remove_one_chain
tree_at-remove_one_chain [] i k ne = (0, refl)
tree_at-remove_one_chain (c ∷ l) zero zero ne = absurd (ne refl)
tree_at-remove_one_chain (c ∷ l) zero (suc k) ne = (k, refl)
tree_at-remove_one_chain (c ∷ l) (suc i) zero ne = (0, refl)
tree_at-remove_one_chain (c ∷ l) (suc i) (suc k) ne =
    let (j, e) = tree_at-remove_one_chain l i k (λ e. ne (ap suc e)) in (suc j, e)

pub tree_at-append : (l : List SideChain) (c : SideChain) → tree_at (l ++ (c ∷ [])) (length l) ≡ c.b
unfolding tree_at
tree_at-append [] c = refl
tree_at-append (x ∷ l) c = tree_at-append l c
