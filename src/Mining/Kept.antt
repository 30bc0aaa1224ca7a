-- ===== src/Mining/Kept.antt =====
-- What the miner of Snowball_Main/code/miner.cpp does to the block chain loses no block.
use snowball_dag_experiment.Base.{
  ℕ, zero, suc, ◌+◌, ◌*◌, ◌≡◌, refl, sym, ◌∙◌, subst, inl, inr, not, ◌&&◌, List, [], ◌∷◌, ℤ, pos,
  Text, if◌then◌else◌, arith, Bool-cases,
}
use native.Mathlib.Nat.{add-mul}
use snowball_dag_experiment.Base.Assoc.{nat_key, int_key, has}
use snowball_dag_experiment.Base.Outcome.{done, done-bind, done-injective}
use snowball_dag_experiment.Blocks.{NetworkBlock, ConsensusPart}
use snowball_dag_experiment.Blockchain.{
  Blockchain, have_full_block, add_block_by_parent_hash_and_chain_id,
}
use snowball_dag_experiment.Blockchain.WellFormed.{
  WellFormed, SameBlocks, SameBlocks-refl, Grows, Grows-refl, Grows-trans,
}
use snowball_dag_experiment.Blockchain.Receiving.{Grows-SameBlocks}
use snowball_dag_experiment.Blockchain.Mined.{add_block_by_parent_hash_and_chain_id-Grows}
use snowball_dag_experiment.Waiting.{
  add_waiting_for_phase_1_blocks, add_mined_block, add_pre_blocks,
}
use snowball_dag_experiment.Consensus.{MinerInfo, ConsensusGroup, is_miner}
use snowball_dag_experiment.Consensus.Shares.{total_shares}
use snowball_dag_experiment.Transactions.PoolFiles.{Files, generate_concurrent_blocks}
use snowball_dag_experiment.Messages.{Settings}
use snowball_dag_experiment.Mining.{MinerLimits, mined_header, keep_mined, mine_new_block}
use snowball_dag_experiment.Mining.Leader.{
  Leading, Inputs, next_part, after_block, own_blocks, their_blocks, miners_loop,
  mine_consensus_blocks,
}

SameBlocks-add_waiting :
    (bc : Blockchain) (hash : ℕ) (nb : NetworkBlock)
    → SameBlocks bc (add_mined_block (add_waiting_for_phase_1_blocks bc hash nb).1)
unfolding add_waiting_for_phase_1_blocks add_mined_block
SameBlocks-add_waiting bc hash nb =
    elim (Bool-cases
      (not (has hash bc.blocks_in_phase_validate) && not (have_full_block bc nb.chain_id hash))) [
        | inl q ↦ rw q (record {
          same_store = refl;
          same_chains = refl;
          same_inchains = refl;
          same_deepest = refl;
        })
        | inr q ↦ rw q (record {
          same_store = refl;
          same_chains = refl;
          same_inchains = refl;
          same_deepest = refl;
        })
      ]

SameBlocks-add_pre_blocks :
    (bc : Blockchain) (ip : Text) (port : ℕ) (cp : ConsensusPart)
    → SameBlocks bc (add_pre_blocks bc ip port cp).1
unfolding add_pre_blocks
SameBlocks-add_pre_blocks bc ip port cp = elim (Bool-cases (has cp.order_in_round bc.pre_blocks)) [
  | inl q ↦ rw q (SameBlocks-refl bc)
  | inr q ↦
      rw q (record {
        same_store = refl;
        same_chains = refl;
        same_inchains = refl;
        same_deepest = refl;
      })
]

keep_mined-Grows :
    (bc : Blockchain) (nb : NetworkBlock) → WellFormed bc → Grows bc (keep_mined bc nb)
unfolding keep_mined
keep_mined-Grows bc nb w =
    let bc1 = add_block_by_parent_hash_and_chain_id bc nb.parent nb.hash nb.chain_id nb in
    let g = add_block_by_parent_hash_and_chain_id-Grows bc nb.parent nb.hash nb.chain_id nb w in
    Grows-trans bc bc1 _ g
      (Grows-SameBlocks bc1 _ g.well_formed (SameBlocks-add_waiting bc1 nb.hash nb))

module _ (sha256 : Text → Text) (ceil_power : ℕ → ℕ) (files : Files) (lim : MinerLimits)
    (st : Settings) where
  pub mine_new_block-Grows :
      (bc bc' : Blockchain) (cp : ConsensusPart) (random time_of_now : ℕ)
      → WellFormed bc
      → mine_new_block sha256 ceil_power files lim st bc cp random time_of_now ≡ done bc'
      → Grows bc bc'
  unfolding mine_new_block
  mine_new_block-Grows bc bc' cp random time_of_now w e =
      let (nb, _, h) =
        done-bind (mined_header sha256 ceil_power files lim st bc cp random time_of_now) _ e in
      subst (Grows bc) (done-injective h) (keep_mined-Grows bc nb w)

  -- A run of the leader's loops: the block chain grows, and `n` blocks are counted.
  record Leads (n : ℕ) (s s' : Leading) : Type 0 where
    grows : Grows s.bc s'.bc
    orders : s'.order_in_round ≡ s.order_in_round + n
    txs : s'.tx_list ≡ s.tx_list + n * lim.tx_numbers_in_a_block

  Leads-trans : (n m : ℕ) (a b c : Leading) → Leads n a b → Leads m b c → Leads (n + m) a c
  Leads-trans n m a b c p q = record {
    grows = Grows-trans a.bc b.bc c.bc p.grows q.grows;
    orders = omega (arith, p.orders, q.orders);
    txs = omega (arith, p.txs, q.txs, add-mul n m lim.tx_numbers_in_a_block);
  }

  Leads-suc : (n : ℕ) (a b c : Leading) → Leads 1 a b → Leads n b c → Leads (suc n) a c
  Leads-suc n a b c p q = subst (λ k. Leads k a c) (omega arith) (Leads-trans 1 n a b c p q)

  module _ (inp : Inputs) (round : ℤ) where
    own_blocks_lem :
        (n : ℕ) (votes : ℤ) (s s' : Leading)
        → WellFormed s.bc
        → own_blocks sha256 ceil_power files lim st inp round n votes s ≡ done s'
        → Leads n s s'
    unfolding own_blocks after_block
    own_blocks_lem zero votes s s' w e =
        subst (Leads 0 s) (done-injective e)
          (record { grows = Grows-refl s.bc w; orders = omega arith; txs = omega arith })
    own_blocks_lem (suc n) votes s s' w e =
        let cp = next_part sha256 ceil_power files lim st inp round s votes in
        let (bc, e1, h) =
          done-bind
            (mine_new_block sha256 ceil_power files lim st s.bc cp (inp.random s.order_in_round)
              (inp.clock s.order_in_round))
            _ e in
        let g = mine_new_block-Grows s.bc bc cp _ _ w e1 in
        let one : Leads 1 s (after_block sha256 ceil_power files lim st inp round s bc) = record {
          grows = g;
          orders = refl;
          txs = omega arith;
        } in
        Leads-suc n s _ s' one (own_blocks_lem n votes _ s' g.well_formed h)

    their_blocks_lem :
        (n : ℕ) (ip : Text) (port : ℕ) (s : Leading)
        → WellFormed s.bc
        → Leads n s (their_blocks sha256 ceil_power files lim st inp round n ip port s)
    unfolding their_blocks after_block
    their_blocks_lem zero ip port s w = record {
      grows = Grows-refl s.bc w;
      orders = omega arith;
      txs = omega arith;
    }
    their_blocks_lem (suc n) ip port s w =
        let cp =
          generate_concurrent_blocks sha256 ceil_power files lim.concurrency_blocks
            (next_part sha256 ceil_power files lim st inp round s inp.unset) in
        let g = Grows-SameBlocks s.bc _ w (SameBlocks-add_pre_blocks s.bc ip port cp) in
        let s1 =
          after_block sha256 ceil_power files lim st inp round s
            (add_pre_blocks s.bc ip port cp).1 in
        let one : Leads 1 s s1 = record { grows = g; orders = refl; txs = omega arith } in
        Leads-suc n s s1 _ one (their_blocks_lem n ip port s1 g.well_formed)

    miners_loop_lem :
        (l : List MinerInfo) (s s' : Leading)
        → WellFormed s.bc
        → miners_loop sha256 ceil_power files lim st inp round l s ≡ done s'
        → Leads (total_shares l) s s'
    unfolding miners_loop
    miners_loop_lem [] s s' w e =
        subst (Leads 0 s) (done-injective e)
          (record { grows = Grows-refl s.bc w; orders = omega arith; txs = omega arith })
    miners_loop_lem (m ∷ l) s s' w e =
        let n = m.share_of_block in
        let own = own_blocks sha256 ceil_power files lim st inp round n (pos n) s in
        let theirs = their_blocks sha256 ceil_power files lim st inp round n m.ip m.port s in
        let (s1, e1, h) =
          done-bind (if is_miner st.my_ip st.my_port m then own else done theirs) _ e in
        let one : Leads n s s1 = elim (Bool-cases (is_miner st.my_ip st.my_port m)) [
          | inl mine ↦ own_blocks_lem n (pos n) s s1 w (sym (rw mine refl) ∙ e1)
          | inr other ↦
              let same : theirs ≡ s1 = done-injective (sym (rw other refl) ∙ e1) in
              subst (Leads n s) same (their_blocks_lem n m.ip m.port s w)
        ] in
        Leads-trans n (total_shares l) s s1 s' one (miners_loop_lem l s1 s' one.grows.well_formed h)

  -- A leader that returns from `mine_Consensus_blocks` lost no block of its own block chain, and the
  -- trees are in order afterwards if they were before.
  pub mine_consensus_blocks-Grows :
      (inp : Inputs) (bc bc' : Blockchain) (g : ConsensusGroup)
      → WellFormed bc
      → mine_consensus_blocks sha256 ceil_power files lim st inp bc g ≡ done bc'
      → Grows bc bc'
  unfolding mine_consensus_blocks
  mine_consensus_blocks-Grows inp bc bc' g w e =
      let s : Leading = record { bc = bc; order_in_round = 1; tx_list = 1 } in
      let (s', e1, h) =
        done-bind (miners_loop sha256 ceil_power files lim st inp g.round g.miner_list s) _ e in
      let leads = miners_loop_lem inp g.round g.miner_list s s' w e1 in
      subst (Grows bc) (done-injective h) leads.grows

  -- The loops of the leader give out as many blocks as the members have shares together: the next order
  -- number is one more than that, and the transactions are numbered without a gap.
  pub miners_loop_shares :
      (inp : Inputs) (round : ℤ) (l : List MinerInfo) (s s' : Leading)
      → WellFormed s.bc
      → miners_loop sha256 ceil_power files lim st inp round l s ≡ done s'
      → (s'.order_in_round ≡ s.order_in_round + total_shares l)
        × (s'.tx_list ≡ s.tx_list + total_shares l * lim.tx_numbers_in_a_block)
  miners_loop_shares inp round l s s' w e =
      let leads = miners_loop_lem inp round l s s' w e in (leads.orders, leads.txs)
