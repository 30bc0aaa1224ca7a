-- ===== src/Buffer/Kept.antt =====
-- What every message keeps, the whole buffer of `process_buffer` keeps.
use snowball_dag_experiment.Base.{
  ℕ, ◌+◌, ◌-◌, ◌≡◌, ap, subst, Bool, true, false, not, ◌&&◌, Option, none, some, List, [], ◌∷◌,
  ◌++◌, Text, ◌==◌, if◌then◌else◌, length, take, drop,
}
use snowball_dag_experiment.Base.Outcome.{Outcome, done, done-bind, done-if, done-injective}
use snowball_dag_experiment.Buffer.{positions, is_complete, is_last, buffer_loop, process_buffer}

inside {ℓ} : {A : Type ℓ} {x y : A} → some x ≡ some y → x ≡ y
inside e = cc

module _ {S : Type 0} (handle : Text → S → Outcome (Bool × S)) (R : S → S → Type 0)
    (same : (s : S) → R s s) (chain : (a b c : S) → R a b → R b c → R a c)
    (keeps : (w : Text) (s s' : S) (b : Bool) → handle w s ≡ done (b, s') → R s s') where
  stopped : (s s' : S) (p q : ℕ) → ◌≡◌ {A = Outcome (ℕ × S)} (done (p, s)) (done (q, s')) → R s s'
  stopped s s' p q e = subst (R s) (ap (λ x. x.1) (done-injective e)) (same s)

  buffer_loop_keeps :
      (m : Text) (ps : List ℕ) (s s' : S) (p : ℕ)
      → buffer_loop handle m ps s ≡ done (p, s')
      → R s s'
  unfolding buffer_loop
  buffer_loop_keeps m [] s s' p e = stopped s s' 0 p e
  buffer_loop_keeps m (q ∷ []) s s' p e = stopped s s' q p e
  buffer_loop_keeps m (q ∷ r ∷ ps) s s' p e =
      let w = take (r - q) (drop q m) in
      done-if (is_complete w) _ _ e
        (λ h.
          let (x, e1, h1) = done-bind (handle (take (length w - 1) w) s) _ h in
          let first : R s x.1 = keeps (take (length w - 1) w) s x.1 x.0 e1 in
          done-if (not x.0 && is_last ps) _ _ h1
            (λ h2. chain s x.1 s' first (stopped x.1 s' q p h2))
            (λ h2. chain s x.1 s' first (buffer_loop_keeps m (r ∷ ps) x.1 s' p h2)))
        (λ h. stopped s s' q p h)

  -- What is left where the buffer does not begin with a message.
  abbrev refused : Bool → S → Outcome (Option (Text × S))
  refused print s = if print then done none else done (some ([], s))

  no_exit : (print : Bool) (s s' : S) (t : Text) → refused print s ≡ done (some (t, s')) → R s s'
  no_exit true s s' t e = absurd (cc)
  no_exit false s s' t e = subst (R s) (ap (λ x. x.1) (inside (done-injective e))) (same s)

  pub process_buffer_keeps :
      (print : Bool) (m t : Text) (s s' : S)
      → process_buffer print handle m s ≡ done (some (t, s'))
      → R s s'
  unfolding process_buffer
  process_buffer_keeps print [] t s s' e = no_exit print s s' t e
  process_buffer_keeps print (c ∷ r) t s s' e =
      let m = c ∷ r in
      done-if (c == 35) _ _ e
        (λ h.
          let (x, e1, h1) =
            done-bind (buffer_loop handle m (positions 0 m ++ ((length m + 1) ∷ [])) s) _ h in
          let loop : R s x.1 =
            buffer_loop_keeps m (positions 0 m ++ ((length m + 1) ∷ [])) s x.1 x.0 e1 in
          subst (R s) (ap (λ y. y.1) (inside (done-injective h1))) loop)
        (λ h. no_exit print s s' t h)
