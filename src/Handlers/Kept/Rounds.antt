-- ===== src/Handlers/Kept/Rounds.antt =====
-- The handlers that take part in a round move it as the protocol allows, and lose no block.
use snowball_dag_experiment.Base.{
  ℕ, ◌≤◌, ◌≡◌, refl, sym, ◌∙◌, subst, inl, inr, Bool, true, false, not, ◌&&◌, Option, some, List,
  [], ◌∷◌, ℤ, pos, ltb_ℤ, eqb_ℤ, Text, text_eq, ◌==◌, leb, leb→le, Bool-cases, Option-cases, arith,
}
use snowball_dag_experiment.Base.Assoc.{nat_key, int_key, find}
use snowball_dag_experiment.Base.Outcome.{done, deref, done-bind, done-if, done-injective}
use snowball_dag_experiment.Blocks.{SenderInfo, NetworkBlock, ConsensusPart}
use snowball_dag_experiment.Blockchain.WellFormed.{WellFormed, Grows, Grows-refl}
use snowball_dag_experiment.Consensus.{
  MinerInfo, ConsensusGroup, start_consensus_of_blocks, choose_leader, join_consensus_group,
  is_in_consensus_group,
}
use snowball_dag_experiment.Transactions.{verify_pre_block}
use snowball_dag_experiment.Transactions.PoolFiles.{Files, verify_validate_block}
use snowball_dag_experiment.Messages.{Settings}
use snowball_dag_experiment.Messages.Round.{MiningSucceed}
use snowball_dag_experiment.Mining.{MinerLimits, mine_new_block}
use snowball_dag_experiment.Mining.Leader.{Inputs, mine_consensus_blocks}
use snowball_dag_experiment.Mining.Kept.{mine_new_block-Grows, mine_consensus_blocks-Grows}
use snowball_dag_experiment.Handlers.{Action, Node, act, interrupt_miner, within, done-within}
use snowball_dag_experiment.Handlers.Replies.{on_process_block}
use snowball_dag_experiment.Handlers.Rounds.{advance_round}
use snowball_dag_experiment.Handlers.Rounds.Balanced.{advance_round-IsBalanced}
use snowball_dag_experiment.Handlers.Joins.{start_consensus, start_if_enough, on_mining_succeed}
use snowball_dag_experiment.Handlers.Verifying.{
  is_leader, vote, vote_in_history, on_consensus_block, vote_on, on_verified_1,
}
use snowball_dag_experiment.Handlers.Votes.{get_member}
use snowball_dag_experiment.Handlers.Rounding.{
  start, finish, is_join, one_step, round_view, Moves, Moves-trans, Moves-bc, Moves-refl,
  Moves-unless, Moves-sum, join_consensus_group_moves,
}
use snowball_dag_experiment.Handlers.Trees.{Grows-trees, trees-advance_round}
use snowball_dag_experiment.Handlers.Kept.{on_process_block-Moves}

-- The end of a round that has started.
pub advance_round-Moves : (k : ℕ) (n : Node) → n.group.state ≡ true → Moves k 0 n (advance_round n)
unfolding round_view is_join
advance_round-Moves k n started =
    let (balanced, round, state, _, _) = advance_round-IsBalanced n in
    let (p, none) =
      one_step k 0 (round_view (advance_round n).group)
        (finish (round_view n.group) (advance_round n).group.concurrency_block_numbers started)
        (omega arith) (rw (round, state) refl) in
    record {
      grows = Grows-trees n.bc _ (trees-advance_round n);
      balanced = λ b. balanced;
      steps = p;
      few = none;
    }

module _ (sha256 : Text → Text) (ceil_power : ℕ → ℕ) (files : Files) (lim : MinerLimits)
    (st : Settings) where
  -- The group that starts with enough blocks, over any block chain that grows.
  started :
      (n n' : Node)
      → lim.concurrency_blocks ≤ n.group.concurrency_block_numbers
      → n'.group ≡ choose_leader (start_consensus_of_blocks n.group)
      → (WellFormed n.bc → Grows n.bc n'.bc)
      → Moves lim.concurrency_blocks 0 n n'
  unfolding round_view choose_leader start_consensus_of_blocks is_join
  started n n' enough g grows =
      let (p, none) =
        one_step lim.concurrency_blocks 0 (round_view n'.group) (start (round_view n.group) enough)
          (omega arith) (rw g refl) in
      record { grows = grows; balanced = λ b. rw g b; steps = p; few = none }

  start_consensus-Moves :
      (inp : Inputs) (n n' : Node)
      → lim.concurrency_blocks ≤ n.group.concurrency_block_numbers
      → start_consensus sha256 ceil_power files lim st inp n ≡ done n'
      → Moves lim.concurrency_blocks 0 n n'
  unfolding start_consensus
  start_consensus-Moves inp n n' enough e =
      let g = choose_leader (start_consensus_of_blocks n.group) in
      let n1 : Node = record n { group = g; mining = false } in
      done-if (text_eq g.leader_info.0 st.my_ip && (g.leader_info.1 == st.my_port)) _ _ e
        (λ h.
          let (bc, e1, h1) =
            done-bind (mine_consensus_blocks sha256 ceil_power files lim st inp n.bc g) _ h in
          let n2 : Node = record n1 { bc = bc } in
          subst (Moves lim.concurrency_blocks 0 n) (done-injective h1) (
            started n n2 enough refl
              (λ w. mine_consensus_blocks-Grows sha256 ceil_power files lim st inp n.bc bc g w e1)))
        (λ h.
          subst (Moves lim.concurrency_blocks 0 n) (done-injective h)
            (started n n1 enough refl (Grows-refl n.bc)))

  pub start_if_enough-Moves :
      (inp : Inputs) (l : List Action) (n n' : Node)
      → start_if_enough sha256 ceil_power files lim st inp l n ≡ done n'
      → Moves lim.concurrency_blocks 0 n n'
  unfolding start_if_enough act
  start_if_enough-Moves inp l n n' e =
      elim (Bool-cases (leb lim.concurrency_blocks n.group.concurrency_block_numbers)) [
        | inl enough ↦
            let h = sym (rw enough refl) ∙ e in
            Moves-trans n (act n l) n' (Moves-bc n _ (Grows-refl n.bc) refl) (
              start_consensus-Moves inp (act n l) n'
                (leb→le lim.concurrency_blocks n.group.concurrency_block_numbers enough) h)
        | inr few ↦
            subst (Moves lim.concurrency_blocks 0 n) (done-injective (sym (rw few refl) ∙ e))
              (Moves-refl n)
      ]

  -- A member that joined, and what follows.
  pub joined-Moves :
      (n n' : Node) (g : ConsensusGroup) (ip : Text) (port : ℕ) (certificate : Bool) (round : ℤ)
      → join_consensus_group n.group ip port certificate round ≡ done g
      → (let n1 : Node = record n { group = g } in Moves lim.concurrency_blocks 0 n1 n')
      → Moves lim.concurrency_blocks 1 n n'
  joined-Moves n n' g ip port certificate round e m =
      let n1 : Node = record n { group = g } in
      let (balanced, (steps, few)) =
        join_consensus_group_moves lim.concurrency_blocks n.group ip port g certificate round e in
      Moves-sum lim.concurrency_blocks 1 0 n n1 n'
        (record { grows = Grows-refl n.bc; balanced = balanced; steps = steps; few = few }) m

  pub on_mining_succeed-Moves :
      (inp : Inputs) (n n' : Node) (q : MiningSucceed)
      → on_mining_succeed sha256 ceil_power files lim st inp n q ≡ done n'
      → Moves lim.concurrency_blocks 1 n n'
  unfolding on_mining_succeed
  on_mining_succeed-Moves inp n n' q e =
      Moves-unless (eqb_ℤ q.round n.group.round && n.group.state) _ n n' e (λ h.
        let (g, e1, h1) =
          done-bind (join_consensus_group n.group q.sender.ip q.sender.port q.certificate q.round) _
            h in
        let n1 : Node = record n { group = g } in
        joined-Moves n n' g _ _ q.certificate q.round e1
          (start_if_enough-Moves inp (interrupt_miner ∷ []) n1 n' h1))

  pub on_consensus_block-Moves :
      (n n' : Node) (sender : SenderInfo) (cp : ConsensusPart) (random now : ℕ)
      → on_consensus_block sha256 ceil_power files lim st n sender cp random now ≡ done n'
      → Moves lim.concurrency_blocks 0 n n'
  unfolding on_consensus_block act
  on_consensus_block-Moves n n' sender cp random now e =
      Moves-unless (eqb_ℤ cp.round n.group.round && not n.group.state) _ n n' e (λ h.
        Moves-unless (not (is_leader sender)) _ n n' h (λ h1.
          let (verified, _, h2) = done-bind (verify_pre_block cp) _ h1 in
          Moves-unless (not verified) _ n n' h2 (λ h3.
            let cp0 = record cp { verify_1_numbers = pos 0; verify_2_numbers = pos 0 } in
            let (bc, e4, h4) =
              done-bind (mine_new_block sha256 ceil_power files lim st n.bc cp0 random now) _ h3 in
            subst (Moves lim.concurrency_blocks 0 n) (done-injective h4) (
              Moves-bc n _
                (λ w.
                  mine_new_block-Grows sha256 ceil_power files lim st n.bc bc cp0 random now w e4)
                refl))))

  vote-Moves :
      (n n' : Node) (sender : SenderInfo) (nb : NetworkBlock) (member : Option MinerInfo)
      → vote st n sender nb member ≡ done n'
      → Moves lim.concurrency_blocks 0 n n'
  unfolding vote act
  vote-Moves n n' sender nb member e =
      let (n1, e0, h1) =
        done-bind (within st.chains nb.chain_id (on_process_block st n sender nb)) _ e in
      let (_, e1) = done-within st.chains nb.chain_id (on_process_block st n sender nb) e0 in
      let (m, _, h2) = done-bind (deref member) _ h1 in
      subst (Moves lim.concurrency_blocks 0 n) (done-injective h2) (
        Moves-trans n n1 _ (on_process_block-Moves lim.concurrency_blocks st n sender nb n1 e1)
          (Moves-bc n1 _ (Grows-refl n1.bc) refl))

  vote_in_history-Moves :
      (n n' : Node) (sender : SenderInfo) (nb : NetworkBlock)
      → vote_in_history st n sender nb ≡ done n'
      → Moves lim.concurrency_blocks 0 n n'
  unfolding vote_in_history
  vote_in_history-Moves n n' sender nb e =
      let (info, _, h) =
        done-bind (deref (find nb.consensus_part.round n.group.history_info)) _ e in
      elim (Option-cases (get_member info.miner st.my_ip st.my_port)) [
        | inl q ↦
            subst (Moves lim.concurrency_blocks 0 n) (done-injective (sym (rw q refl) ∙ h))
              (Moves-refl n)
        | inr (m, q) ↦ vote-Moves n n' sender nb (some m) (sym (rw q refl) ∙ h)
      ]

  pub on_verified_1-Moves :
      (n n' : Node) (sender : SenderInfo) (nb : NetworkBlock)
      → on_verified_1 sha256 ceil_power files lim st n sender nb ≡ done n'
      → Moves lim.concurrency_blocks 0 n n'
  unfolding on_verified_1 vote_on
  on_verified_1-Moves n n' sender nb e =
      Moves-unless (not n.group.state && eqb_ℤ nb.consensus_part.round n.group.round) _ n n' e (λ h.
        let (valid, _, h1) =
          done-bind (verify_validate_block sha256 ceil_power files lim.concurrency_blocks nb) _ h in
        Moves-unless (not valid) _ n n' h1 (λ h2.
          done-if (ltb_ℤ nb.consensus_part.round n.group.round) _ _ h2
            (λ h3. vote_in_history-Moves n n' sender nb h3)
            (λ h3.
              Moves-unless (not (is_in_consensus_group n.group sender.ip sender.port)) _ n n' h3
                (λ h4. vote-Moves n n' sender nb _ h4))))
