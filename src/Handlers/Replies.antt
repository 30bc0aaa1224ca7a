-- ===== src/Handlers/Replies.antt =====
-- The answers to the messages about blocks, and what a received block sets off.
pub mod Bounded
use snowball_dag_experiment.Base.{
  ℕ, zero, suc, ◌+◌, Bool, true, false, not, Option, none, some, List, [], ◌∷◌, ◌++◌, Text, ltb,
  if◌then◌else◌, bytes, text_eq,
}
use snowball_dag_experiment.Base.Outcome.{Outcome, done, ◌>>=◌, deref}
use snowball_dag_experiment.Blocks.{Store, SenderInfo, NetworkBlock, depth_of}
use snowball_dag_experiment.Blockchain.{
  Blockchain, find_block_by_hash_and_chain_id, find_incomplete_block_by_hash_and_chain_id,
  have_full_block, Received, add_received_block,
}
use snowball_dag_experiment.Waiting.{
  still_waiting_for_full_block, set_block_requested_in_phase_request,
}
use snowball_dag_experiment.TransactionPool.{add_tx_in_pool}
use snowball_dag_experiment.Messages.{Settings}
use snowball_dag_experiment.Messages.Chain.{
  AskBlock, create_ask_block, create_process_block, ChainBlock, create_have_full_block,
  create_ask_full_block, create_full_block,
}
use snowball_dag_experiment.Messages.Round.{HaveConsensusBlock, SentTransaction, create_transaction}
use snowball_dag_experiment.Handlers.{
  Action, write_to_one_peer, write_to_all_peers, add_indirect_peer, Limits, Node, act, address,
}

-- `send_block_to_one_peer`, for at most `k` blocks from `b` towards the root.
unfoldable pub send_blocks : Settings → ℕ → Store → SenderInfo → Option ℕ → Outcome (List Action)
send_blocks st zero s to b = done []
send_blocks st (suc k) s to none = done []
send_blocks st (suc k) s to (some b) = elim (s.parent b) [
  | none ↦ done []
  | some p ↦ do
    nb ← deref (s.nb b)
    rest ← send_blocks st k s to (some p)
    done (write_to_one_peer to.ip to.port (create_process_block st nb) ∷ rest)
]

-- The block in the main tree, or else in the side chains.
unfoldable pub known_block : Blockchain → ℕ → ℕ → Option ℕ
known_block bc hash chain_id = elim (find_block_by_hash_and_chain_id bc hash chain_id) [
  | some b ↦ some b
  | none ↦ find_incomplete_block_by_hash_and_chain_id bc hash chain_id
]

unfoldable pub on_ask_block : Settings → Limits → Node → AskBlock → Outcome Node
unfolding act address send_blocks known_block
on_ask_block st lim n q = do
  l ←
      send_blocks st
        (if ltb q.max_number_of_blocks lim.max_ask_blocks
          then q.max_number_of_blocks
          else lim.max_ask_blocks)
        n.bc.store q.sender (known_block n.bc q.hash q.chain_id)
  done (act n (add_indirect_peer (address q.sender) ∷ l))

-- What is sent after a call of `add_received_block` for the header `nb`.
unfoldable pub block_actions : Settings → NetworkBlock → Bool → Bool → ℕ → List Action
block_actions st nb added need_parent chain_depth =
    (if added then write_to_all_peers (create_process_block st nb) ∷ [] else [])
    ++ (if need_parent
        then write_to_all_peers (create_ask_block st nb.chain_id nb.parent chain_depth nb.depth)
          ∷ []
        else [])

unfoldable pub on_process_block : Settings → Node → SenderInfo → NetworkBlock → Outcome Node
unfolding act address block_actions
on_process_block st n sender nb = do
  r ← add_received_block n.bc nb.chain_id nb.parent nb.hash nb
  chain_depth ← depth_of r.bc.store (r.bc.deepest nb.chain_id)
  done (
      act (record n { bc = r.bc })
        (block_actions st nb r.added r.need_parent chain_depth
          ++ (add_indirect_peer (address sender) ∷ [])))

unfoldable pub on_got_full_block : Settings → Node → ChainBlock → Node
unfolding act
on_got_full_block st n q =
    if have_full_block n.bc q.chain_id q.hash
    then act n (
        write_to_one_peer q.sender.ip q.sender.port (create_have_full_block st q.chain_id q.hash)
        ∷ [])
    else n

unfoldable pub on_have_full_block : Settings → Node → ChainBlock → ℕ → Node
unfolding act
on_have_full_block st n q time_of_now =
    let w = still_waiting_for_full_block n.bc q.hash time_of_now in
    if have_full_block n.bc q.chain_id q.hash
    then n
    else if w.0
    then act (record n { bc = w.1 })
        (write_to_one_peer q.sender.ip q.sender.port (create_ask_full_block st q.chain_id q.hash)
          ∷ [])
    else record n { bc = w.1 }

unfoldable pub on_ask_full_block : Settings → Node → ChainBlock → ℕ → Outcome Node
unfolding act
on_ask_full_block st n q time_of_now =
    if not (have_full_block n.bc q.chain_id q.hash) then done n else (do
      t ← create_full_block st n.bc q.chain_id q.hash time_of_now
      done (act n (write_to_one_peer q.sender.ip q.sender.port t ∷ [])))

unfoldable pub on_have_consensus_block : Node → HaveConsensusBlock → Node
on_have_consensus_block n q =
    if not q.received
    then n
    else record n { bc = set_block_requested_in_phase_request n.bc q.order_in_round }

-- A transaction goes to the pool, and one from a client to all peers. `is_open` is whether a file of the
-- pool can be created.
unfoldable pub on_transaction : Settings → Bool → Node → SentTransaction → Node
unfolding act
on_transaction st is_open n q =
    let n1 = record n { pool = (add_tx_in_pool is_open n.pool q.tx q.time).pool } in
    if text_eq q.sender.ip (bytes "Client")
    then act n1 (write_to_all_peers (create_transaction st q.tx q.time) ∷ [])
    else n1
