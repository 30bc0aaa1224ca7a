-- ===== src/Handlers/Pings/Once.antt =====
-- How often a ping is passed on.
use snowball_dag_experiment.Base.{
  ◌≡◌, refl, ap, ◌∙◌, inl, inr, ◌⊎◌, Bool, true, false, none, some, List, [], ◌∷◌, ℤ, pos, ltb_ℤ,
  eqb_ℤ, Text, text_eq_refl, Bool-cases, Option-cases,
}
use snowball_dag_experiment.Base.Assoc.{text_key, find, has, find-insert, find-assign}
use snowball_dag_experiment.Waiting.{to_int}
use snowball_dag_experiment.Messages.{Settings}
use snowball_dag_experiment.Messages.Round.{Ping}
use snowball_dag_experiment.Handlers.{add_indirect_peer, Node, act, address}
use snowball_dag_experiment.Handlers.Pings.{add_ping, on_ping}

has-some : (m : List (Text × ℤ)) (t : Text) {v : ℤ} → find t m ≡ some v → has t m ≡ true
unfolding has
has-some m t e = rw (e, has) refl

has-none : (m : List (Text × ℤ)) (t : Text) → find t m ≡ none → has t m ≡ false
unfolding has
has-none m t e = rw (e, has) refl

-- After `add_ping` the map has a distance for the ping, the new one where the ping is passed on.
add_ping_lem :
    (m : List (Text × ℤ)) (t : Text) (d : ℤ) (overwrite : Bool)
    → (v : ℤ) × (find t (add_ping m t d overwrite).1 ≡ some v)
      × ((add_ping m t d overwrite).0 ≡ true → v ≡ d)
unfolding add_ping
add_ping_lem m t d true = elim (Option-cases (find t m)) [
  | inl new ↦ rw (new, add_ping) (d, find-insert t t d m ∙ rw (new, text_eq_refl t) refl, λ _. refl)
  | inr (v, seen) ↦ elim (Bool-cases (ltb_ℤ d v)) [
    | inl lower ↦
        rw (seen, lower, add_ping)
          (d, find-assign t t d m ∙ rw (seen, text_eq_refl t) refl, λ _. refl)
    | inr higher ↦ rw (seen, higher, add_ping) (v, seen, λ e. absurd (cc))
  ]
]
add_ping_lem m t d false = elim (Option-cases (find t m)) [
  | inl new ↦
      rw (has-none m t new, add_ping)
        (d, find-insert t t d m ∙ rw (new, text_eq_refl t) refl, λ _. refl)
  | inr (v, seen) ↦ rw (has-some m t seen, add_ping) (v, seen, λ e. absurd (cc))
]

-- A ping that the map holds with a distance `v` is not passed on, where it does not overwrite or is not nearer.
add_ping_again :
    (m : List (Text × ℤ)) (t : Text) (d v : ℤ) (overwrite : Bool)
    → find t m ≡ some v
    → (overwrite ≡ false) ⊎ (ltb_ℤ d v ≡ false)
    → add_ping m t d overwrite ≡ (false, m)
unfolding add_ping
add_ping_again m t d v true seen (inl e) = absurd (cc)
add_ping_again m t d v true seen (inr far) = rw (seen, far, add_ping) refl
add_ping_again m t d v false seen o = rw (has-some m t seen, add_ping) refl

on_ping_pings :
    (st : Settings) (n : Node) (q : Ping)
    → (on_ping st n q).pings ≡ (add_ping n.pings q.tt (to_int q.dnext) (eqb_ℤ q.mode (pos 1))).1
unfolding on_ping act
on_ping_pings st n q =
    elim (Bool-cases (add_ping n.pings q.tt (to_int q.dnext) (eqb_ℤ q.mode (pos 1))).0) [
      | inl on ↦ rw (on, on_ping) refl
      | inr off ↦ rw (off, on_ping) refl
    ]

on_ping_quiet :
    (st : Settings) (n : Node) (q : Ping)
    → add_ping n.pings q.tt (to_int q.dnext) (eqb_ℤ q.mode (pos 1)) ≡ (false, n.pings)
    → on_ping st n q ≡ act n (add_indirect_peer (address q.sender) ∷ [])
unfolding on_ping act
on_ping_quiet st n q e = rw (e, on_ping) refl

-- After a ping was handled, another one with its identifier is not passed on, and only notes its sender
-- as a peer, if it measures the latency (its mode is not 1), or if the first one was passed on and this
-- one is at no smaller distance.
pub on_ping_once :
    (st : Settings) (n : Node) (q q' : Ping)
    → q'.tt ≡ q.tt
    → (eqb_ℤ q'.mode (pos 1) ≡ false)
      ⊎ (((add_ping n.pings q.tt (to_int q.dnext) (eqb_ℤ q.mode (pos 1))).0 ≡ true)
          × (ltb_ℤ (to_int q'.dnext) (to_int q.dnext) ≡ false))
    → on_ping st (on_ping st n q) q'
      ≡ act (on_ping st n q) (add_indirect_peer (address q'.sender) ∷ [])
on_ping_once st n q q' same reason =
    let (v, found, first) = add_ping_lem n.pings q.tt (to_int q.dnext) (eqb_ℤ q.mode (pos 1)) in
    let seen : find q'.tt (on_ping st n q).pings ≡ some v =
      ap (λ t. find t (on_ping st n q).pings) same
      ∙ ap (find q.tt) (on_ping_pings st n q)
      ∙ found in
    on_ping_quiet st (on_ping st n q) q' (
      add_ping_again (on_ping st n q).pings q'.tt (to_int q'.dnext) v (eqb_ℤ q'.mode (pos 1)) seen
        (elim reason [
          | inl latency ↦ inl latency
          | inr (passed, far) ↦ inr (ap (ltb_ℤ (to_int q'.dnext)) (first passed) ∙ far)
        ]))
