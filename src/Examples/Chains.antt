-- ===== src/Examples/Chains.antt =====
-- Tests of Blockchain: a node that knows the block 50 in every chain, and in the side chains of chain
-- 0 the blocks 60 and 90.
use snowball_dag_experiment.Base.{
  ℕ, ◌<◌, ◌+◌, ◌≡◌, List, pos, ◌⊎◌, refl, inl, true, false, none, some, [], ◌∷◌, arith,
}
use snowball_dag_experiment.Base.Outcome.{Outcome, done}
use snowball_dag_experiment.Base.Assoc.{has}
use snowball_dag_experiment.HashTree.{null, node, find_block_by_hash, insert_block_only_by_hash}
use snowball_dag_experiment.Blocks.{
  update, set_nb, bootstrap_chain, link_child, add_block_by_parent_hash, depth_of, find_max_depth,
}
use snowball_dag_experiment.SideChains.{
  is_incomplete_hash, chain_with, is_in_incomplete, find_incomplete_block,
}
use snowball_dag_experiment.Blockchain.{
  Blockchain, Received, update_deepest, note_non_full, add_received_block,
}
use snowball_dag_experiment.Blockchain.WellFormed.{WellFormed, Grows}
use snowball_dag_experiment.Blockchain.Added.{add_received_block-Grows}
use snowball_dag_experiment.Blockchain.Found.{FoundAt}
use snowball_dag_experiment.Blockchain.Settling.{
  Settled, add_received_block_settles, add_received_block_rejects, add_received_block_keeps_aside,
}
use snowball_dag_experiment.Blockchain.Returns.{add_received_block_returns}
use snowball_dag_experiment.Blockchain.Bootstrap.{bootstrap, Started, bootstrap-WellFormed}
use snowball_dag_experiment.Blockchain.Ordering.{total_ordering}
use snowball_dag_experiment.Blockchain.Ordering.Committed.{Committed}
use snowball_dag_experiment.Examples.Trees.{header, five_blocks}

abbrev pub node_state : Blockchain
node_state = record {
  store = five_blocks;
  chains = λ c. node null 0 null;
  inchains = λ c. record { b = node null 3 (node null 4 null); last_asked = 0; no_asks = 0 } ∷ [];
  deepest = λ c. 0;
  received_non_full_blocks = [];
  waiting_for_full_blocks = [];
  blocks_in_phase_validate = [];
  waiting_for_phase_1_block = [];
  pre_blocks = [];
  blocks_in_phase_request = [];
  total_ask_for_verify1_blocks_in_one_round = 0;
  total_verify_local_block = 0;
  total_ask_for_verify_blocks = [];
  total_verify_blocks = [];
  mined_blocks = 0;
  processed_full_blocks = 0;
  total_received_blocks = 0;
  receiving_latency = 0;
  receving_total = 0;
  commited_latency = 0;
  commited_total = 0;
  partially_latency = 0;
  partially_total = 0;
}

pub node_state-WellFormed : WellFormed node_state
node_state-WellFormed = record {
  chains_ok = λ c. record { ordered = (tt, tt, tt, tt); allocated = (omega arith, tt, tt) };
  sides_ok = λ c. (
    record {
      ordered = (tt, (omega arith, tt, tt), tt, (tt, tt, tt, tt));
      allocated = (omega arith, tt, (omega arith, tt, tt));
    },
    tt,
  );
}

abbrev result : Outcome Received → Received
result (done r) = r
result o = record { bc = node_state; added = false; need_parent = false }

-- The block 55 below 50, the block 50 again, and the block 80 below 60.
abbrev below_main : Received
below_main = result (add_received_block node_state 0 50 55 (header 50 55 1))

abbrev again : Received
again = result (add_received_block node_state 0 40 50 (header 40 50 1))

abbrev below_side : Received
below_side = result (add_received_block node_state 0 60 80 (header 60 80 1))

below_main_runs :
    (add_received_block node_state 0 50 55 (header 50 55 1) ≡ done below_main)
    × (below_main.added ≡ true)
    × (below_main.need_parent ≡ false)
unfolding add_received_block find_block_by_hash is_incomplete_hash update_deepest note_non_full has
    update add_block_by_parent_hash insert_block_only_by_hash bootstrap_chain link_child depth_of
    set_nb find_max_depth
below_main_runs = (refl, refl, refl)

again_runs :
    (add_received_block node_state 0 40 50 (header 40 50 1) ≡ done again) × (again.added ≡ false)
unfolding add_received_block find_block_by_hash
again_runs = (refl, refl)

below_side_runs :
    (add_received_block node_state 0 60 80 (header 60 80 1) ≡ done below_side)
    × (below_side.need_parent ≡ true)
unfolding add_received_block find_block_by_hash is_in_incomplete
below_side_runs = (refl, refl)

apart : chain_with five_blocks (node_state.inchains 0) 80 ≡ none
unfolding chain_with find_block_by_hash
apart = refl

add_received_block-Grows_example : Grows node_state below_main.bc
add_received_block-Grows_example =
    add_received_block-Grows node_state 0 50 55 (header 50 55 1) below_main node_state-WellFormed
      below_main_runs.0

add_received_block_settles_example :
    (b : ℕ) × Settled node_state 0 55 (header 50 55 1) b below_main.bc
add_received_block_settles_example =
    add_received_block_settles node_state 0 50 55 (header 50 55 1) below_main node_state-WellFormed
      below_main_runs.0 below_main_runs.1 below_main_runs.2

add_received_block_rejects_example :
    (again.bc ≡ node_state)
    × (again.need_parent ≡ false)
    × (FoundAt node_state 0 50
        ⊎ (is_in_incomplete node_state.store (node_state.inchains 0) 40 50 ≡ true))
add_received_block_rejects_example =
    add_received_block_rejects node_state 0 40 50 (header 40 50 1) again again_runs.0 again_runs.1

add_received_block_keeps_aside_example :
    (below_side.bc.chains ≡ node_state.chains)
    × (below_side.bc.deepest ≡ node_state.deepest)
    × ((b : ℕ) × (find_incomplete_block below_side.bc.store (below_side.bc.inchains 0) 80 ≡ some b)
        × (below_side.bc.store.nb b ≡ some (header 60 80 1)))
add_received_block_keeps_aside_example =
    add_received_block_keeps_aside node_state 0 60 80 (header 60 80 1) below_side
      node_state-WellFormed (inl apart) below_side_runs.0 below_side_runs.1

no_root : is_incomplete_hash five_blocks (node_state.inchains 0) 55 ≡ none
unfolding is_incomplete_hash
no_root = refl

tip_depth : depth_of five_blocks (node_state.deepest 0) ≡ done 0
unfolding depth_of
tip_depth = refl

add_received_block_returns_example :
    (r : Received) × (add_received_block node_state 0 50 55 (header 50 55 1) ≡ done r)
add_received_block_returns_example =
    add_received_block_returns node_state 0 node_state-WellFormed 50 55 0 (header 50 55 1) no_root
      tip_depth

abbrev first_hashes : ℕ → ℕ
first_hashes c = 100 + c

bootstrap-WellFormed_example :
    WellFormed (bootstrap (header 0 0 0) first_hashes 3)
    × ((c : ℕ) → c < 3 → Started (bootstrap (header 0 0 0) first_hashes 3) c (first_hashes c))
bootstrap-WellFormed_example = bootstrap-WellFormed (header 0 0 0) first_hashes 3

-- The first three blocks in a line, full, in each of two chains, at the end of round 1.
abbrev in_a_line : Blockchain
in_a_line = record node_state {
  store = record five_blocks { is_full_block = λ b. true };
  deepest = λ c. 2;
}

abbrev line : ℕ → List ℕ
line c = 2 ∷ 1 ∷ 0 ∷ []

abbrev ordered : Outcome Blockchain → Blockchain
ordered (done bc) = bc
ordered o = node_state

-- Three blocks are committed, though two chains reach them.
three_commits : (ordered (total_ordering 3 2 in_a_line (pos 2) 1000)).commited_total ≡ 3
unfolding total_ordering set_nb update
three_commits = refl
