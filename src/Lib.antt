-- ===== src/Lib.antt =====
-- Model of the Snowball node, a blockchain node that keeps several chains of
-- blocks (Snowball_Main/code). A block arrives with its hash, the hash of its parent and its chain. If
-- the parent is in the main tree of the chain, the block goes there, together with the side chain that
-- waits for it; if not, it goes to the side chains and the parent is asked for. The hashes of the tips
-- are the leaves of a Merkle tree, and a new block carries a proof that its parent is one of them.
--
-- The files and the code:
--   Base           shared types: decimal and hexadecimal texts, association lists for std::map, runs
--                  that end in a result, a read through a null pointer, or too little fuel.
--   Numbers        verify.cpp: blockhash_to_string, string_to_blockhash, get_chain_id_from_hash, and
--                  the part of the standard library under them (stoull, to_string, hex streams).
--   Merkle         verify.cpp: compute_merkle_tree_root, compute_merkle_proof, verify_merkle_proof.
--                  The digest, OpenSSL's SHA-256, is a parameter.
--   HashTree       Blockchain.cpp: the search trees by hash (find_block_by_hash,
--                  insert_block_only_by_hash, insert_one_node, insert_subtree_by_hash).
--   Blocks         Blockchain.hpp: the records; Blockchain.cpp: bootstrap_chain,
--                  add_block_by_parent_hash, find_max_depth, find_number_of_nodes.
--   SideChains     Blockchain.cpp: the incomplete chains (add_block_to_incomplete and its searches).
--   Blockchain     Blockchain.hpp: the class; Blockchain.cpp: the constructor, and
--                  add_received_block with what it calls; total_ordering (Ordering).
--   Waiting        Blockchain.cpp: the maps of requests, votes and awaited blocks, and what the timers
--                  ask for (Timers).
--   Consensus      Consensus_Group.cpp: the members of a round and their shares.
--   TransactionPool  Transaction_Pool.cpp: the pool of transactions and its files.
--   Split          misc.cpp: split.
--   Messages       requests.cpp: what makes and what parses the messages between nodes, and the keys of
--                  the messages that were read; with safe_stoi and safe_stoull of misc.cpp in Numbers.
--   Buffer         process_buffer.cpp: how process_buffer cuts the bytes from a peer into messages.
--   Transactions   transactions.cpp: verify_transaction and verify_pre_block (Transactions), and the
--                  functions that read the files of the pool (PoolFiles).
--   Mining         miner.cpp: mine_new_block, and mine_Consensus_blocks (Leader).
--   Handlers       process_buffer.cpp: what a node does with a parsed message: answers about blocks
--                  (Replies), pings (Pings, with add_ping of MyServer.cpp), votes and the quorum (Votes),
--                  full blocks and their checks (FullBlocks), the end of a round (Rounds), its start and
--                  one pass of the miner's loop (Joins), blocks to mine and to vote on (Verifying); the
--                  choice of the handler, and process_buffer for a node (Dispatch). The rounds as a
--                  protocol of steps are in Rounding.
--   Examples       runs on concrete inputs.
--
-- How state is modelled: a block is the address that malloc returned, a number; `Store` holds the fields
-- of all blocks as functions of the address, so that two trees share a block when they hold one address.
-- The `left` and `right` pointers are a tree of addresses, and `child` with the chain of `sibling`
-- pointers is a list. An operation takes the state and returns the new one. The arrays of the chains are
-- functions of the index; the constructor writes `CHAINS` entries, and a message that makes a handler
-- use another one ends the run (`Handlers.within`). A 64-bit counter wraps at 2^64; hashes and depths
-- are natural numbers. The handlers change a `Node`, which holds the block chain, the group and the
-- pool; what they call the server for is a list of actions in order. The digest, the floating-point size
-- of a Merkle tree, the files of the transaction pool, the random numbers and the clock are parameters
-- (`Machine`). A call of `exit` ends a run as a read through a null pointer does.
--
-- Bounds and fuel: `to_string` and the hexadecimal digits have fuel 64, enough for numbers below 2^64.
-- The loops of `split` and of verify_pre_block have the length of the text as fuel; each round but the
-- last moves on in it. The loops over levels of a Merkle tree have the number of texts as fuel. The
-- recursions over child blocks have the number of allocated blocks as fuel, which a forest cannot exceed
-- in height. The answer to "#ask_block" has the number of blocks to send. total_ordering has fuel for
-- the longest line of parents. The periods of configuration.cpp and the clock are arguments; a
-- difference of two times wraps at 2^64. An `int` of 32 bits is an integer without bounds where the code
-- only adds to it; where it is read from a text or becomes an unsigned number, its bounds are in the
-- model.
--
-- Not modelled: sockets, threads, locks, printing, the files that are written, and the reading of the
-- configuration; the waiting times of the miner and its interruption; the timers themselves. The older
-- OHIE node (OHIE_with_TX_Pool), the client simulation and the Python experiments are not modelled.
pub mod Base
pub mod Numbers
pub mod Split
pub mod Merkle
pub mod HashTree
pub mod Blocks
pub mod SideChains
pub mod Blockchain
pub mod Waiting
pub mod TransactionPool
pub mod Consensus
pub mod Messages
pub mod Mining
pub mod Buffer
pub mod Transactions
pub mod Handlers
pub mod Examples
