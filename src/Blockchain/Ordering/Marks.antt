-- ===== src/Blockchain/Ordering/Marks.antt =====
-- One block of the two walks of `total_ordering`: its time is set where it is due.
use mathlib.Core.Option.{some-injective}
use snowball_dag_experiment.Base.{
  ℕ, ◌≡◌, refl, sym, ap, ◌∙◌, subst, inl, inr, Bool, true, false, none, some, ◌==◌, ℤ,
  if◌then◌else◌, arith, Bool-cases, Option-cases,
}
use snowball_dag_experiment.Blocks.{NetworkBlock, set_nb, update}
use snowball_dag_experiment.Blockchain.{Blockchain}
use snowball_dag_experiment.Blockchain.Ordering.{
  partial_due, commit_due, mark_partial, mark_commited,
}
use snowball_dag_experiment.Blockchain.Ordering.Commits.{
  retime, retime_in, Stamped, Retimed, Retimed-refl, Stage, Stage-refl, NotDue,
}

module _ (round_now : ℤ) (now : ℕ) where
  commit_once :
      (full : Bool) (nb : NetworkBlock)
      → commit_due round_now now full nb ≡ true
      → commit_due round_now now full (retime nb.time_partial now nb) ≡ false
  unfolding commit_due
  commit_once full nb h = ground arith

  partial_once :
      (full : Bool) (nb : NetworkBlock)
      → partial_due now full nb ≡ true
      → partial_due now full (retime now nb.time_commited nb) ≡ false
  unfolding partial_due
  partial_once full nb h = ground arith

  -- A header with new times.
  Stage-set :
      (bc bc' : Blockchain) (t : ℕ) (nb : NetworkBlock) (p c : ℕ)
      → bc.store.nb t ≡ some nb
      → bc'.store ≡ set_nb bc.store t (retime p c nb)
      → bc'.deepest ≡ bc.deepest
      → Stamped round_now now (partial_due now (bc.store.is_full_block t) nb) nb.time_partial p
      → Stamped round_now now
          (commit_due round_now now (bc.store.is_full_block t) nb)
          nb.time_commited
          c
      → Stage round_now now bc bc'
  unfolding set_nb update retime_in
  Stage-set bc bc' t nb p c at e d x y = record {
    same_parent = ap (λ s. s.parent) e;
    same_full = ap (λ s. s.is_full_block) e;
    same_deepest = d;
    retimed = λ b.
        subst (λ s. Retimed round_now now (bc.store.is_full_block b) (bc.store.nb b) (s.nb b))
          (sym e)
          (elim (Bool-cases (t == b)) [
            | inl q ↦
                let same : t ≡ b = ground arith in
                subst
                  (λ z.
                    Retimed round_now now (bc.store.is_full_block z) (bc.store.nb z)
                      (if t == z then some (retime p c nb) else bc.store.nb z))
                  same
                  (
                    p,
                    c,
                    (let again : (t == t) ≡ true = ground arith in rw (again, at) refl),
                    λ nb' h.
                        subst
                          (λ n.
                            Stamped round_now now (partial_due now (bc.store.is_full_block t) n)
                              n.time_partial p
                            × Stamped round_now now
                                (commit_due round_now now (bc.store.is_full_block t) n)
                                n.time_commited c)
                          (some-injective nb nb' (sym at ∙ h)) (x, y),
                  )
            | inr q ↦ rw q (Retimed-refl round_now now (bc.store.is_full_block b) (bc.store.nb b))
          ]);
  }

  module _ (bc : Blockchain) (t : ℕ) where
    partial_none : bc.store.nb t ≡ none → mark_partial now bc t ≡ bc
    unfolding mark_partial
    partial_none at = rw (at, mark_partial) refl

    module _ (nb : NetworkBlock) (at : bc.store.nb t ≡ some nb) where
      partial_kept :
          partial_due now (bc.store.is_full_block t) nb ≡ false → mark_partial now bc t ≡ bc
      unfolding mark_partial
      partial_kept q = rw (at, mark_partial, q) refl

      partial_done :
          partial_due now (bc.store.is_full_block t) nb ≡ true
          → Stage round_now now bc (mark_partial now bc t)
            × ((mark_partial now bc t).store.nb t ≡ some (retime now nb.time_commited nb))
      unfolding mark_partial set_nb update
      partial_done q =
          let again : (t == t) ≡ true = ground arith in
          rw (at, mark_partial, q)
            (
              Stage-set bc _ t nb now nb.time_commited at refl refl (inr (q, refl)) (inl refl),
              rw again refl,
            )

    pub mark_partial-Stage :
        Stage round_now now bc (mark_partial now bc t)
        × NotDue round_now now (partial_due now) (mark_partial now bc t) t
    mark_partial-Stage = elim (Option-cases (bc.store.nb t)) [
      | inl at ↦
          subst (λ x. Stage round_now now bc x × NotDue round_now now (partial_due now) x t)
            (sym (partial_none at)) (Stage-refl round_now now bc, λ nb h. absurd (cc))
      | inr (nb, at) ↦ elim (Bool-cases (partial_due now (bc.store.is_full_block t) nb)) [
        | inl q ↦
            let (s, now_at) = partial_done nb at q in
            (
              s,
              λ nb' h.
                  subst
                    (λ n. partial_due now ((mark_partial now bc t).store.is_full_block t) n ≡ false)
                    (some-injective (retime now nb.time_commited nb) nb' (sym now_at ∙ h))
                    (ap (λ f. partial_due now (f t) (retime now nb.time_commited nb)) s.same_full
                      ∙ partial_once (bc.store.is_full_block t) nb q),
            )
        | inr q ↦
            subst (λ x. Stage round_now now bc x × NotDue round_now now (partial_due now) x t)
              (sym (partial_kept nb at q))
              (
                Stage-refl round_now now bc,
                λ nb' h.
                    subst (λ n. partial_due now (bc.store.is_full_block t) n ≡ false)
                      (some-injective nb nb' (sym at ∙ h)) q,
              )
      ]
    ]

  module _ (bc : Blockchain) (t : ℕ) where
    commited_none : bc.store.nb t ≡ none → mark_commited round_now now bc t ≡ bc
    unfolding mark_commited
    commited_none at = rw (at, mark_commited) refl

    module _ (nb : NetworkBlock) (at : bc.store.nb t ≡ some nb) where
      commited_kept :
          commit_due round_now now (bc.store.is_full_block t) nb ≡ false
          → mark_commited round_now now bc t ≡ bc
      unfolding mark_commited
      commited_kept q = rw (at, mark_commited, q) refl

      commited_done :
          commit_due round_now now (bc.store.is_full_block t) nb ≡ true
          → Stage round_now now bc (mark_commited round_now now bc t)
            × ((mark_commited round_now now bc t).store.nb t ≡ some (retime nb.time_partial now nb))
      unfolding mark_commited set_nb update
      commited_done q =
          let again : (t == t) ≡ true = ground arith in
          rw (at, mark_commited, q)
            (
              Stage-set bc _ t nb nb.time_partial now at refl refl (inl refl) (inr (q, refl)),
              rw again refl,
            )

    pub mark_commited-Stage :
        Stage round_now now bc (mark_commited round_now now bc t)
        × NotDue round_now now (commit_due round_now now) (mark_commited round_now now bc t) t
    mark_commited-Stage = elim (Option-cases (bc.store.nb t)) [
      | inl at ↦
          subst
            (λ x. Stage round_now now bc x × NotDue round_now now (commit_due round_now now) x t)
            (sym (commited_none at)) (Stage-refl round_now now bc, λ nb h. absurd (cc))
      | inr (nb, at) ↦ elim (Bool-cases (commit_due round_now now (bc.store.is_full_block t) nb)) [
        | inl q ↦
            let (s, now_at) = commited_done nb at q in
            (
              s,
              λ nb' h.
                  subst
                    (λ n.
                      commit_due round_now now
                        ((mark_commited round_now now bc t).store.is_full_block t) n
                      ≡ false)
                    (some-injective (retime nb.time_partial now nb) nb' (sym now_at ∙ h))
                    (ap (λ f. commit_due round_now now (f t) (retime nb.time_partial now nb))
                        s.same_full
                      ∙ commit_once (bc.store.is_full_block t) nb q),
            )
        | inr q ↦
            subst
              (λ x. Stage round_now now bc x × NotDue round_now now (commit_due round_now now) x t)
              (sym (commited_kept nb at q))
              (
                Stage-refl round_now now bc,
                λ nb' h.
                    subst (λ n. commit_due round_now now (bc.store.is_full_block t) n ≡ false)
                      (some-injective nb nb' (sym at ∙ h)) q,
              )
      ]
    ]
