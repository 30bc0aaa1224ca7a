-- ===== src/Blockchain/Ordering/Walks.antt =====
-- The two walks of `total_ordering` over the blocks of all chains.
use snowball_dag_experiment.Base.{
  ℕ, zero, suc, ◌+◌, ◌≤◌, ◌<◌, ◌≡◌, refl, sym, subst, inl, inr, Option, none, some, List, [], ◌∷◌,
  ℤ, ◌==◌, length, In, arith, Bool-cases,
}
use snowball_dag_experiment.Base.Outcome.{done}
use snowball_dag_experiment.Blockchain.{Blockchain}
use snowball_dag_experiment.Blockchain.Ordering.{
  partial_due, commit_due, mark_partial, mark_commited, walk_up, walk_chains, total_ordering,
}
use snowball_dag_experiment.Blockchain.Ordering.Marks.{mark_partial-Stage, mark_commited-Stage}
use snowball_dag_experiment.Blockchain.Ordering.Commits.{
  Stage, Stage-refl, Stage-trans, NotDue, NotDue-Stage,
}

-- The list holds the blocks from one up to one without a parent.
pub data Ancestors (parent : ℕ → Option ℕ) : Option ℕ → List ℕ → Type 0 where
  top : Ancestors parent none []
  above : (b : ℕ) (l : List ℕ) → Ancestors parent (parent b) l → Ancestors parent (some b) (b ∷ l)

module _ (round_now : ℤ) (now : ℕ) (mark : Blockchain → ℕ → Blockchain)
    (P : Blockchain → ℕ → Type 0)
    (marks : (bc : Blockchain) (t : ℕ) → Stage round_now now bc (mark bc t) × P (mark bc t) t)
    (keeps : (bc bc' : Blockchain) (b : ℕ) → Stage round_now now bc bc' → P bc b → P bc' b) where
  walk_up_marks :
      (fuel : ℕ) (bc : Blockchain) (o : Option ℕ) (l : List ℕ)
      → Ancestors bc.store.parent o l
      → length l ≤ fuel
      → (bc' : Blockchain) × (walk_up mark fuel bc o ≡ done bc')
        × Stage round_now now bc bc'
        × ((b : ℕ) → In b l → P bc' b)
  unfolding walk_up
  walk_up_marks fuel bc _ _ top h = (bc, refl, Stage-refl round_now now bc, λ b i. absurd i)
  walk_up_marks zero bc _ _ (above b l a) h = absurd (omega arith)
  walk_up_marks (suc fuel) bc _ _ (above b l a) h =
      let (s, p) = marks bc b in
      let a' = subst (λ f. Ancestors f (f b) l) (sym s.same_parent) a in
      let (bc', e, s', q) =
        walk_up_marks fuel (mark bc b) ((mark bc b).store.parent b) l a' (omega arith) in
      (
        bc',
        e,
        Stage-trans round_now now bc (mark bc b) bc' s s',
        λ d i. elim i [
          | inl same ↦ subst (P bc') (sym same) (keeps (mark bc b) bc' b s' p)
          | inr later ↦ q d later
        ],
      )

  walk_chains_marks :
      (fuel : ℕ) (anc : ℕ → List ℕ) (n i : ℕ) (bc : Blockchain)
      → ((c : ℕ)
          → c < i + n
          → Ancestors bc.store.parent (some (bc.deepest c)) (anc c) × (length (anc c) ≤ fuel))
      → (bc' : Blockchain) × (walk_chains mark fuel bc n i ≡ done bc')
        × Stage round_now now bc bc'
        × ((c b : ℕ) → i ≤ c → c < i + n → In b (anc c) → P bc' b)
  unfolding walk_chains
  walk_chains_marks fuel anc zero i bc h =
      (bc, refl, Stage-refl round_now now bc, λ c b l u. absurd (omega arith))
  walk_chains_marks fuel anc (suc n) i bc h =
      let (a, k) = h i (omega arith) in
      let (bc1, e, s, p) = walk_up_marks fuel bc (some (bc.deepest i)) (anc i) a k in
      let (bc', e', s', q) = walk_chains_marks fuel anc n (suc i) bc1 (λ c u.
        let (a', k') = h c (omega arith) in
        (
          subst (λ f. Ancestors f (some (bc1.deepest c)) (anc c)) (sym s.same_parent)
              (subst (λ d. Ancestors bc.store.parent (some (d c)) (anc c)) (sym s.same_deepest) a'),
          k',
        )) in
      (
        bc',
        rw e e',
        Stage-trans round_now now bc bc1 bc' s s',
        λ c b l u m. elim (Bool-cases (i == c)) [
          | inl same ↦
              keeps bc1 bc' b s'
                (p b (subst (λ x. In b (anc x)) (let e0 : c ≡ i = ground arith in e0) m))
          | inr later ↦ q c b (let f0 : suc i ≤ c = ground arith in f0) (omega arith) m
        ],
      )

pub walks_lem :
    (fuel chains : ℕ) (bc : Blockchain) (round_now : ℤ) (now : ℕ) (anc : ℕ → List ℕ)
    → ((c : ℕ)
        → c < chains
        → Ancestors bc.store.parent (some (bc.deepest c)) (anc c) × (length (anc c) ≤ fuel))
    → (bc' : Blockchain) × (total_ordering fuel chains bc round_now now ≡ done bc')
      × Stage round_now now bc bc'
      × ((c b : ℕ)
          → c < chains
          → In b (anc c)
          → NotDue round_now now (partial_due now) bc' b
            × NotDue round_now now (commit_due round_now now) bc' b)
unfolding total_ordering
walks_lem fuel chains bc round_now now anc h =
    let (bc1, e, s, p) =
      walk_chains_marks round_now now (mark_partial now) (NotDue round_now now (partial_due now))
        (mark_partial-Stage round_now now) (λ a a' b t. (NotDue-Stage round_now now a a' b t).0)
        fuel anc chains 0 bc (λ c u. h c (omega arith)) in
    let (bc', e', s', q) =
      walk_chains_marks round_now now (mark_commited round_now now)
        (NotDue round_now now (commit_due round_now now)) (mark_commited-Stage round_now now)
        (λ a a' b t. (NotDue-Stage round_now now a a' b t).1) fuel anc chains 0 bc1
        (λ c u.
          let (a, k) = h c (omega arith) in
          (
            subst (λ f. Ancestors f (some (bc1.deepest c)) (anc c)) (sym s.same_parent)
                (subst (λ d. Ancestors bc.store.parent (some (d c)) (anc c)) (sym s.same_deepest)
                  a),
            k,
          )) in
    (
      bc',
      rw e e',
      Stage-trans round_now now bc bc1 bc' s s',
      λ c b u i. (
        (NotDue-Stage round_now now bc1 bc' b s').0 (p c b (omega arith) (omega arith) i),
        q c b (omega arith) (omega arith) i,
      ),
    )
