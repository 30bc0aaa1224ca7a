-- ===== src/Blockchain/Bootstrap.antt =====
-- The constructor of the class `Blockchain` in Blockchain.cpp.
use snowball_dag_experiment.Base.{
  ℕ, zero, suc, ◌<◌, ◌≡◌, refl, ◌∙◌, subst, inl, inr, true, false, none, some, [], ◌==◌, arith,
  Bool-cases,
}
use snowball_dag_experiment.Base.Outcome.{done}
use snowball_dag_experiment.HashTree.{null, node, find_block_by_hash}
use snowball_dag_experiment.Blocks.{NetworkBlock, update, bootstrap_chain, set_nb, depth_of}
use snowball_dag_experiment.Blocks.Links.{Extends, Extends-bootstrap_chain, find-Extends}
use snowball_dag_experiment.HashTree.Ordered.{AllBlocks-find}
use snowball_dag_experiment.SideChains.Search.{TreeOk-null}
use snowball_dag_experiment.Blockchain.{Blockchain}
use snowball_dag_experiment.Blockchain.WellFormed.{WellFormed, replaced-WellFormed}

-- The members before the loop: an array entry that was not written is null or 0.
abbrev pub unset : Blockchain
unset = record {
  store = record {
    hash = λ b. 0;
    nb = λ b. none;
    is_full_block = λ b. false;
    parent = λ b. none;
    children = λ b. [];
    next = 0;
  };
  chains = λ c. null;
  inchains = λ c. [];
  deepest = λ c. 0;
  received_non_full_blocks = [];
  waiting_for_full_blocks = [];
  blocks_in_phase_validate = [];
  waiting_for_phase_1_block = [];
  pre_blocks = [];
  blocks_in_phase_request = [];
  total_ask_for_verify1_blocks_in_one_round = 0;
  total_verify_local_block = 0;
  total_ask_for_verify_blocks = [];
  total_verify_blocks = [];
  mined_blocks = 0;
  processed_full_blocks = 0;
  total_received_blocks = 0;
  receiving_latency = 0;
  receving_total = 0;
  commited_latency = 0;
  commited_total = 0;
  partially_latency = 0;
  partially_total = 0;
}

-- The header of the first block of a chain; `blank` is what `new` leaves in the other fields.
unfoldable pub first_header : NetworkBlock → NetworkBlock
first_header blank = record blank {
  depth = 0;
  rank = 0;
  next_rank = 0;
  time_mined = 0;
  time_received = 1;
  time_commited = 1;
  time_partial = 1;
}

-- One round of the loop over the chains.
unfoldable pub open_chain : NetworkBlock → ℕ → Blockchain → ℕ → Blockchain
unfolding first_header
open_chain blank hash bc i =
    let s = bootstrap_chain bc.store hash in
    let full = record s { is_full_block = update s.is_full_block bc.store.next true } in
    record bc {
      store = set_nb full bc.store.next (first_header blank);
      chains = update bc.chains i (node null bc.store.next null);
      inchains = update bc.inchains i [];
      deepest = update bc.deepest i bc.store.next;
    }

-- `bootstrap blank hashes CHAINS` is the new object.
unfoldable pub bootstrap : NetworkBlock → (ℕ → ℕ) → ℕ → Blockchain
unfolding open_chain
bootstrap blank hashes zero = unset
bootstrap blank hashes (suc i) = open_chain blank (hashes i) (bootstrap blank hashes i) i

module _ (blank : NetworkBlock) (hash : ℕ) (bc : Blockchain) (i : ℕ) where
  open_chain-Extends : Extends bc.store (open_chain blank hash bc i).store
  unfolding open_chain set_nb
  open_chain-Extends =
      let e = Extends-bootstrap_chain bc.store hash in record { grows = e.grows; same = e.same }

  open_chain-WellFormed : WellFormed bc → WellFormed (open_chain blank hash bc i)
  unfolding open_chain set_nb bootstrap_chain update
  open_chain-WellFormed w =
      replaced-WellFormed bc (open_chain blank hash bc i) i (node null bc.store.next null) [] refl
        refl w open_chain-Extends
        (record { ordered = (tt, tt, tt, tt); allocated = (omega arith, tt, tt) }) tt

-- The chain holds the block with the hash, full and with depth 0, as its deepest block.
pub record Started (bc : Blockchain) (c hash : ℕ) : Type 0 where
  pub tip : find_block_by_hash bc.store.hash (bc.chains c) hash ≡ some (bc.deepest c)
  pub depth : depth_of bc.store (bc.deepest c) ≡ done 0
  pub full : bc.store.is_full_block (bc.deepest c) ≡ true

module _ (blank : NetworkBlock) (hash : ℕ) (bc : Blockchain) (i : ℕ) where
  Started-new : Started (open_chain blank hash bc i) i hash
  unfolding open_chain set_nb bootstrap_chain update depth_of find_block_by_hash first_header
  Started-new =
      let here : (i == i) ≡ true = ground arith in
      let there : (bc.store.next == bc.store.next) ≡ true = ground arith in
      record {
        tip = rw (here, there) (ground arith);
        depth = rw (here, there) refl;
        full = rw (here, there) refl;
      }

  Started-old :
      (c h : ℕ)
      → WellFormed bc
      → (i == c) ≡ false
      → Started bc c h
      → Started (open_chain blank hash bc i) c h
  unfolding open_chain set_nb bootstrap_chain update depth_of
  Started-old c h w apart old =
      let ok = w.chains_ok c in
      let lt =
        AllBlocks-find bc.store.hash (λ b. b < bc.store.next) (bc.chains c) h (bc.deepest c)
          ok.allocated old.tip in
      let other : (bc.store.next == bc.deepest c) ≡ false = ground arith in
      let same =
        find-Extends bc.store (open_chain blank hash bc i).store
          (open_chain-Extends blank hash bc i) (bc.chains c) ok h in
      record {
        tip = rw apart (same ∙ old.tip);
        depth = rw (apart, other) old.depth;
        full = rw (apart, other) old.full;
      }

module _ (blank : NetworkBlock) (hashes : ℕ → ℕ) where
  -- The trees of a new object are in order, and each of its chains holds its given first block as the
  -- deepest one, full and with a header of depth 0.
  pub bootstrap-WellFormed :
      (n : ℕ)
      → WellFormed (bootstrap blank hashes n)
        × ((c : ℕ) → c < n → Started (bootstrap blank hashes n) c (hashes c))
  unfolding bootstrap
  bootstrap-WellFormed zero =
      (record { chains_ok = λ c. TreeOk-null _; sides_ok = λ c. tt }, λ c lt. absurd (omega arith))
  bootstrap-WellFormed (suc i) =
      let bc = bootstrap blank hashes i in
      let (w, started) = bootstrap-WellFormed i in
      (
        open_chain-WellFormed blank (hashes i) bc i w,
        λ c lt. elim (Bool-cases (i == c)) [
          | inl q ↦
              let same : i ≡ c = ground arith in
              subst (λ x. Started (open_chain blank (hashes i) bc i) x (hashes x)) same
                (Started-new blank (hashes i) bc i)
          | inr q ↦ Started-old blank (hashes i) bc i c (hashes c) w q (started c (ground arith))
        ],
      )
