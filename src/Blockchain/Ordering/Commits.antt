-- ===== src/Blockchain/Ordering/Commits.antt =====
-- What `total_ordering` leaves in the headers.
use snowball_dag_experiment.Base.{
  ℕ, ◌≡◌, refl, sym, ap, ◌∙◌, subst, ◌⊎◌, inl, inr, Bool, true, false, Option, none, some, ℤ,
}
use mathlib.Core.Option.{some-injective}
use snowball_dag_experiment.Blocks.{NetworkBlock}
use snowball_dag_experiment.Blockchain.{Blockchain}
use snowball_dag_experiment.Blockchain.Ordering.{partial_due, commit_due}

abbrev pub retime : ℕ → ℕ → NetworkBlock → NetworkBlock
retime p c nb = record nb { time_partial = p; time_commited = c }

unfoldable pub retime_in : ℕ → ℕ → Option NetworkBlock → Option NetworkBlock
retime_in p c none = none
retime_in p c (some nb) = some (retime p c nb)

module _ (round_now : ℤ) (now : ℕ) where
  -- A time is as it was, or was due and is now.
  abbrev pub Stamped : Bool → ℕ → ℕ → Type 0
  Stamped due old new = (new ≡ old) ⊎ ((due ≡ true) × (new ≡ now))

  Stamped-trans :
      (d d' : Bool) (a b c : ℕ) → (b ≡ a → d' ≡ d) → Stamped d a b → Stamped d' b c → Stamped d a c
  Stamped-trans d d' a b c f (inl e) (inl e') = inl (e' ∙ e)
  Stamped-trans d d' a b c f (inl e) (inr (q, e')) = inr (sym (f e) ∙ q, e')
  Stamped-trans d d' a b c f (inr (q, e)) (inl e') = inr (q, e' ∙ e)
  Stamped-trans d d' a b c f (inr (q, e)) (inr (_, e')) = inr (q, e')

  -- Only the two times of a header change, each only where it is due, to the time of the call.
  abbrev pub Retimed : Bool → Option NetworkBlock → Option NetworkBlock → Type 0
  Retimed full o o' =
      (p : ℕ) × (c : ℕ) × (o' ≡ retime_in p c o)
      × ((nb : NetworkBlock)
          → o ≡ some nb
          → Stamped (partial_due now full nb) nb.time_partial p
            × Stamped (commit_due round_now now full nb) nb.time_commited c)

  pub Retimed-refl : (full : Bool) (o : Option NetworkBlock) → Retimed full o o
  unfolding retime_in
  Retimed-refl full none = (0, 0, refl, λ nb e. absurd (cc))
  Retimed-refl full (some nb) = (
    nb.time_partial,
    nb.time_commited,
    refl,
    λ nb' e.
        let same : nb ≡ nb' = cc in
        (inl (ap (λ n. n.time_partial) same), inl (ap (λ n. n.time_commited) same)),
  )

  Retimed-trans :
      (full : Bool) (o o' o'' : Option NetworkBlock)
      → Retimed full o o'
      → Retimed full o' o''
      → Retimed full o o''
  unfolding retime_in partial_due commit_due
  Retimed-trans full none o' o'' (p, c, e, f) (q, d, e', f') =
      (0, 0, e' ∙ ap (retime_in q d) e, λ nb h. absurd (cc))
  Retimed-trans full (some nb) o' o'' (p, c, e, f) (q, d, e', f') =
      let (x, y) = f nb refl in
      let (x', y') = f' (retime p c nb) e in
      (
        q,
        d,
        e' ∙ ap (retime_in q d) e,
        λ nb' h.
            subst
              (λ n.
                Stamped (partial_due now full n) n.time_partial q
                × Stamped (commit_due round_now now full n) n.time_commited d)
              (some-injective nb nb' h)
              (
                Stamped-trans (partial_due now full nb) (partial_due now full (retime p c nb))
                    nb.time_partial p q (λ s. ap (λ t. partial_due now full (retime t c nb)) s) x
                    x',
                Stamped-trans (commit_due round_now now full nb)
                    (commit_due round_now now full (retime p c nb)) nb.time_commited c d
                    (λ s. ap (λ t. commit_due round_now now full (retime p t nb)) s) y y',
              ),
      )

  pub record Stage (bc bc' : Blockchain) : Type 0 where
    pub same_parent : bc'.store.parent ≡ bc.store.parent
    pub same_full : bc'.store.is_full_block ≡ bc.store.is_full_block
    pub same_deepest : bc'.deepest ≡ bc.deepest
    pub retimed : (b : ℕ) → Retimed (bc.store.is_full_block b) (bc.store.nb b) (bc'.store.nb b)

  pub Stage-refl : (bc : Blockchain) → Stage bc bc
  Stage-refl bc = record {
    same_parent = refl;
    same_full = refl;
    same_deepest = refl;
    retimed = λ b. Retimed-refl (bc.store.is_full_block b) (bc.store.nb b);
  }

  pub Stage-trans : (a b c : Blockchain) → Stage a b → Stage b c → Stage a c
  Stage-trans a b c p q = record {
    same_parent = q.same_parent ∙ p.same_parent;
    same_full = q.same_full ∙ p.same_full;
    same_deepest = q.same_deepest ∙ p.same_deepest;
    retimed = λ x.
        Retimed-trans (a.store.is_full_block x) (a.store.nb x) (b.store.nb x) (c.store.nb x)
          (p.retimed x)
          (subst (λ f. Retimed (f x) (b.store.nb x) (c.store.nb x)) p.same_full (q.retimed x));
  }

  -- No time of the block is due: `due` is one of the two tests.
  abbrev pub NotDue : (Bool → NetworkBlock → Bool) → Blockchain → ℕ → Type 0
  NotDue due bc b =
      (nb : NetworkBlock) → bc.store.nb b ≡ some nb → due (bc.store.is_full_block b) nb ≡ false

  Stamped-false : (a b : ℕ) → Stamped false a b → b ≡ a
  Stamped-false a b (inl e) = e
  Stamped-false a b (inr (q, _)) = absurd (cc)

  -- What is not due stays so.
  still_not_due :
      (full : Bool) (o o' : Option NetworkBlock)
      → Retimed full o o'
      → (((nb : NetworkBlock) → o ≡ some nb → partial_due now full nb ≡ false)
          → (nb : NetworkBlock) → o' ≡ some nb
          → partial_due now full nb ≡ false)
        × (((nb : NetworkBlock) → o ≡ some nb → commit_due round_now now full nb ≡ false)
            → (nb : NetworkBlock) → o' ≡ some nb
            → commit_due round_now now full nb ≡ false)
  unfolding retime_in partial_due commit_due
  still_not_due full none o' (p, c, e, f) = (λ h nb a. absurd (cc), λ h nb a. absurd (cc))
  still_not_due full (some nb) o' (p, c, e, f) =
      let (x, y) = f nb refl in
      (
        λ h nb' a.
            let same =
              Stamped-false nb.time_partial p
                (subst (λ d. Stamped d nb.time_partial p) (h nb refl) x) in
            subst (λ n. partial_due now full n ≡ false)
              (some-injective (retime p c nb) nb' (sym e ∙ a))
              (ap (λ t. partial_due now full (retime t c nb)) same ∙ h nb refl),
        λ h nb' a.
            let same =
              Stamped-false nb.time_commited c
                (subst (λ d. Stamped d nb.time_commited c) (h nb refl) y) in
            subst (λ n. commit_due round_now now full n ≡ false)
              (some-injective (retime p c nb) nb' (sym e ∙ a))
              (ap (λ t. commit_due round_now now full (retime p t nb)) same ∙ h nb refl),
      )

  pub NotDue-Stage :
      (bc bc' : Blockchain) (b : ℕ)
      → Stage bc bc'
      → (NotDue (partial_due now) bc b → NotDue (partial_due now) bc' b)
        × (NotDue (commit_due round_now now) bc b → NotDue (commit_due round_now now) bc' b)
  NotDue-Stage bc bc' b s =
      let (x, y) =
        still_not_due (bc.store.is_full_block b) (bc.store.nb b) (bc'.store.nb b) (s.retimed b) in
      (
        λ h nb a. ap (λ f. partial_due now (f b) nb) s.same_full ∙ x h nb a,
        λ h nb a. ap (λ f. commit_due round_now now (f b) nb) s.same_full ∙ y h nb a,
      )
