-- ===== src/Handlers/Rounding.antt =====
-- The protocol of the rounds, without the blocks and the names of the members, and the parts of the
-- handlers that move a node in it.
use snowball_dag_experiment.Base.{
  ℕ, ◌+◌, ◌≤◌, ◌<◌, arith, ◌≡◌, refl, sym, ap, ◌∙◌, subst, inl, inr, Bool, true, false, not, ◌&&◌,
  ℤ, pos, ◌+ℤ◌, ltb_ℤ, eqb_ℤ, Text, if◌then◌else◌, Bool-cases,
}
use snowball_dag_experiment.Base.Assoc.{int_key, find}
use snowball_dag_experiment.Base.Outcome.{Outcome, done, deref, done-bind, done-injective}
use snowball_dag_experiment.Consensus.{
  ConsensusGroup, legitimate_certificate, open_round, add_in_future, add_member,
  join_consensus_group,
}
use snowball_dag_experiment.Consensus.Joins.{IsBalanced, join_consensus_group-IsBalanced}
use snowball_dag_experiment.Blockchain.WellFormed.{WellFormed, Grows, Grows-refl, Grows-trans}
use snowball_dag_experiment.Handlers.{Node}

-- A round, whether its consensus has started, and its number of blocks.
pub record RoundView : Type 0 where
  pub round : ℤ
  pub started : Bool
  pub blocks : ℕ

-- What the protocol allows, for `n` blocks in a round: a block is added; the consensus starts where there
-- are `n` blocks; and a consensus that has started ends, and the next round begins, not started.
pub data RoundStep (n : ℕ) : RoundView → RoundView → Type 0 where
  join : (v : RoundView) → RoundStep n v (record v { blocks = v.blocks + 1 })
  start : (v : RoundView) → n ≤ v.blocks → RoundStep n v (record v { started = true })
  finish :
      (v : RoundView) (blocks : ℕ)
      → v.started ≡ true
      → RoundStep n v (record { round = v.round +ℤ pos 1; started = false; blocks = blocks })

pub data RoundSteps (n : ℕ) : RoundView → RoundView → Type 0 where
  stay : (v : RoundView) → RoundSteps n v v
  then_step : {u v w : RoundView} → RoundSteps n u v → RoundStep n v w → RoundSteps n u w

unfoldable pub RoundSteps-trans :
    {n : ℕ} {u v w : RoundView} → RoundSteps n u v → RoundSteps n v w → RoundSteps n u w
RoundSteps-trans p (stay v) = p
RoundSteps-trans p (then_step q s) = then_step (RoundSteps-trans p q) s

unfoldable pub is_join : {n : ℕ} {u v : RoundView} → RoundStep n u v → ℕ
is_join (join v) = 1
is_join (start v h) = 0
is_join (finish v blocks h) = 0

-- The number of blocks that are added in a run.
unfoldable pub joins : {n : ℕ} {u v : RoundView} → RoundSteps n u v → ℕ
unfolding is_join
joins (stay v) = 0
joins (then_step p s) = joins p + is_join s

joins-RoundSteps-trans :
    {n : ℕ} {u v w : RoundView} (p : RoundSteps n u v) (q : RoundSteps n v w)
    → joins (RoundSteps-trans p q) ≡ joins p + joins q
unfolding joins RoundSteps-trans
joins-RoundSteps-trans p (stay v) = omega arith
joins-RoundSteps-trans p (then_step q s) = omega (arith, joins-RoundSteps-trans p q)

after_few :
    {n : ℕ} (u : RoundView) {v x : RoundView} (k : ℕ) (s : RoundStep n v x)
    → u.blocks + (k + is_join s) < n
    → (v.round ≡ u.round) × (v.started ≡ false) × (v.blocks ≡ u.blocks + k)
    → (x.round ≡ u.round) × (x.started ≡ false) × (x.blocks ≡ u.blocks + (k + is_join s))
unfolding is_join
after_few u k (join v) h (r, i, b) = (r, i, omega arith)
after_few u k (start v enough) h (r, i, b) = absurd (omega arith)
after_few u k (finish v blocks started) h (r, i, b) = absurd (cc)

-- A round leaves its first phase only with enough blocks: a run that begins in a round that has not
-- started, and adds too few blocks for `n` of them, stays in that phase of that round.
pub RoundSteps-few :
    {n : ℕ} {u v : RoundView} (p : RoundSteps n u v)
    → u.started ≡ false
    → u.blocks + joins p < n
    → (v.round ≡ u.round) × (v.started ≡ false) × (v.blocks ≡ u.blocks + joins p)
unfolding joins
RoundSteps-few (stay u) idle h = (refl, idle, omega arith)
RoundSteps-few {n} {u} (then_step p s) idle h =
    after_few u (joins p) s h (RoundSteps-few p idle (omega arith))

unfoldable pub round_view : ConsensusGroup → RoundView
round_view g = record { round = g.round; started = g.state; blocks = g.concurrency_block_numbers }

-- What a handler may do to a node: the block chain grows, the shares still add up, and the round moves
-- as the protocol allows, with at most `added` new blocks of the round.
pub record Moves (limit added : ℕ) (n n' : Node) : Type 0 where
  pub grows : WellFormed n.bc → Grows n.bc n'.bc
  pub balanced : IsBalanced n.group → IsBalanced n'.group
  pub steps : RoundSteps limit (round_view n.group) (round_view n'.group)
  pub few : joins steps ≤ added

pub Moves-sum : (k i j : ℕ) (a b c : Node) → Moves k i a b → Moves k j b c → Moves k (i + j) a c
Moves-sum k i j a b c p q = record {
  grows = λ w. let g = p.grows w in Grows-trans a.bc b.bc c.bc g (q.grows g.well_formed);
  balanced = λ h. q.balanced (p.balanced h);
  steps = RoundSteps-trans p.steps q.steps;
  few = omega (arith, p.few, q.few, joins-RoundSteps-trans p.steps q.steps);
}

pub Moves-trans : {k : ℕ} (a b c : Node) → Moves k 0 a b → Moves k 0 b c → Moves k 0 a c
Moves-trans {k} a b c p q = Moves-sum k 0 0 a b c p q

-- A bound that is not as good.
pub Moves-weaken : {k i : ℕ} (j : ℕ) (a b : Node) → i ≤ j → Moves k i a b → Moves k j a b
Moves-weaken j a b h p = record {
  grows = p.grows;
  balanced = p.balanced;
  steps = p.steps;
  few = omega (arith, p.few);
}

-- A run of one step.
pub one_step :
    (k j : ℕ) {u v : RoundView} (w : RoundView) (s : RoundStep k u v)
    → is_join s ≤ j
    → w ≡ v
    → (p : RoundSteps k u w) × (joins p ≤ j)
unfolding joins
one_step k j {u} w s h e =
    subst (λ x. (p : RoundSteps k u x) × (joins p ≤ j)) (sym e) (then_step (stay u) s, omega arith)

same_view :
    (k j : ℕ) (g g' : ConsensusGroup)
    → g' ≡ g
    → (p : RoundSteps k (round_view g) (round_view g')) × (joins p ≤ j)
unfolding joins
same_view k j g g' e =
    subst (λ x. (p : RoundSteps k (round_view g) (round_view x)) × (joins p ≤ j)) (sym e)
      (stay (round_view g), omega arith)

-- A handler that leaves the group alone.
pub Moves-bc :
    {k j : ℕ} (n n' : Node)
    → (WellFormed n.bc → Grows n.bc n'.bc)
    → n'.group ≡ n.group
    → Moves k j n n'
Moves-bc {k} {j} n n' g e =
    let (p, few) = same_view k j n.group n'.group e in
    record { grows = g; balanced = λ h. rw e h; steps = p; few = few }

pub Moves-refl : {k j : ℕ} (n : Node) → Moves k j n n
Moves-refl n = Moves-bc n n (Grows-refl n.bc) refl

-- A handler with an early return, and one with a part that is left out.
pub Moves-unless :
    {k j : ℕ} (b : Bool) (m : Outcome Node) (n n' : Node)
    → (if b then done n else m) ≡ done n'
    → (m ≡ done n' → Moves k j n n')
    → Moves k j n n'
Moves-unless {k} {j} true m n n' e f = subst (Moves k j n) (done-injective e) (Moves-refl n)
Moves-unless false m n n' e f = f e

pub Moves-when :
    {k j : ℕ} (b : Bool) (m : Outcome Node) (n n' : Node)
    → (if b then m else done n) ≡ done n'
    → (m ≡ done n' → Moves k j n n')
    → Moves k j n n'
Moves-when true m n n' e f = f e
Moves-when {k} {j} false m n n' e f = subst (Moves k j n) (done-injective e) (Moves-refl n)

module _ (k : ℕ) (g : ConsensusGroup) (ip : Text) (port : ℕ) where
  add_in_future_view :
      (g' : ConsensusGroup) (round : ℤ)
      → add_in_future g round ip port ≡ done g'
      → round_view g' ≡ round_view g
  unfolding add_in_future round_view
  add_in_future_view g' round e =
      let (info, _, h) =
        done-bind (deref (find round (open_round g.future_info round ip port))) _ e in
      ap round_view (sym (done-injective h))

  -- A run with at most one new block.
  abbrev Turn : ConsensusGroup → Type 0
  Turn g' = (p : RoundSteps k (round_view g) (round_view g')) × (joins p ≤ 1)

  -- The steps, given what the call returns.
  stepped :
      (g1 g' : ConsensusGroup) (certificate : Bool) (round_now : ℤ)
      → join_consensus_group g ip port certificate round_now ≡ done g1
      → join_consensus_group g ip port certificate round_now ≡ done g'
      → Turn g1
      → Turn g'
  stepped g1 g' certificate round_now p e r = subst Turn (done-injective (sym p ∙ e)) r

  stays : (g' : ConsensusGroup) → round_view g' ≡ round_view g → Turn g'
  unfolding joins
  stays g' e =
      subst (λ v. (p : RoundSteps k (round_view g) v) × (joins p ≤ 1)) (sym e)
        (stay (round_view g), omega arith)

  join_consensus_group_steps :
      (g' : ConsensusGroup) (certificate : Bool) (round_now : ℤ)
      → join_consensus_group g ip port certificate round_now ≡ done g'
      → Turn g'
  unfolding join_consensus_group round_view joins is_join
  join_consensus_group_steps g' certificate round_now e =
      elim (Bool-cases (eqb_ℤ round_now g.round && g.state)) [
        | inl q ↦ stepped g g' certificate round_now (rw q refl) e (stays g refl)
        | inr q ↦ elim (Bool-cases (not (legitimate_certificate certificate))) [
          | inl c ↦ stepped g g' certificate round_now (rw (q, c) refl) e (stays g refl)
          | inr c ↦ elim (Bool-cases (ltb_ℤ g.round round_now)) [
            | inl later ↦
                stays g' (add_in_future_view g' round_now (sym (rw (q, c, later) refl) ∙ e))
            | inr now ↦
                let g1 : ConsensusGroup = record g {
                  miner_list = add_member g.miner_list ip port;
                  concurrency_block_numbers = g.concurrency_block_numbers + 1;
                } in
                stepped g1 g' certificate round_now (rw (q, c, now) refl) e
                  (then_step (stay (round_view g)) (join (round_view g)), omega arith)
          ]
        ]
      ]

  pub join_consensus_group_moves :
      (g' : ConsensusGroup) (certificate : Bool) (round_now : ℤ)
      → join_consensus_group g ip port certificate round_now ≡ done g'
      → (IsBalanced g → IsBalanced g') × Turn g'
  join_consensus_group_moves g' certificate round_now e = (
    λ b.
        let (g1, e1, b1) = join_consensus_group-IsBalanced g ip port certificate round_now b in
        subst IsBalanced (done-injective (sym e1 ∙ e)) b1,
    join_consensus_group_steps g' certificate round_now e,
  )
