-- ===== src/Examples/Trees.antt =====
-- Tests of HashTree, Blocks and SideChains: five blocks with the hashes 50, 20, 70, 60 and 90, of
-- which the first is the parent of the second and the second of the third.
use snowball_dag_experiment.Base.{
  ℕ, ◌+◌, ◌≡◌, refl, inl, false, none, some, List, [], ◌∷◌, arith, pos, ◌==◌, if◌then◌else◌,
}
use snowball_dag_experiment.Base.Outcome.{done}
use snowball_dag_experiment.HashTree.{Tree, null, node, find_block_by_hash, insert_subtree_by_hash}
use snowball_dag_experiment.HashTree.Ordered.{or_else, Ordered}
use snowball_dag_experiment.HashTree.Union.{find-insert_subtree_by_hash}
use snowball_dag_experiment.Blocks.{Store, NetworkBlock, find_max_depth, depth_of}
use snowball_dag_experiment.Blocks.Depth.{
  Below, down, here, NoDeeper, Height, find_max_depth-NoDeeper,
}
use snowball_dag_experiment.SideChains.{SideChain, chain_with, add_block_to_incomplete}
use snowball_dag_experiment.SideChains.Search.{SidesOk}
use snowball_dag_experiment.SideChains.Found.{FoundIn, FoundIn-add_block_to_incomplete}

abbrev pub header : ℕ → ℕ → ℕ → NetworkBlock
header parent hash depth = record {
  chain_id = 0;
  parent = parent;
  hash = hash;
  trailing = 0;
  trailing_id = 0;
  merkle_root_chains = [];
  merkle_root_txs = [];
  proof_new_chain = [];
  no_txs = 0;
  depth = depth;
  rank = depth;
  next_rank = depth + 1;
  time_mined = 0;
  time_received = 0;
  time_commited = 0;
  time_partial = 0;
  consensus_part = record {
    round = pos 1;
    order_in_round = pos 0;
    merkel_root_of_txs = [];
    tx_first = pos 0;
    tx_second = pos 0;
    list = [];
    verify_1_numbers = pos 0;
    verify_2_numbers = pos 0;
  };
}

abbrev pub five_blocks : Store
five_blocks = record {
  hash = λ b.
      if b == 0
      then 50
      else if b == 1
      then 20
      else if b == 2
      then 70
      else if b == 3
      then 60
      else 90;
  nb = λ b.
      if b == 0
      then some (header 0 50 0)
      else if b == 1
      then some (header 50 20 1)
      else if b == 2
      then some (header 20 70 2)
      else none;
  is_full_block = λ b. false;
  parent = λ b. if b == 1 then some 0 else if b == 2 then some 1 else none;
  children = λ b. if b == 0 then 1 ∷ [] else if b == 1 then 2 ∷ [] else [];
  next = 5;
}

abbrev main_tree : Tree
main_tree = node (node null 1 null) 0 (node null 2 null)

abbrev other_tree : Tree
other_tree = node null 3 (node null 4 null)

abbrev pub main_tree_ordered : Ordered five_blocks.hash main_tree
main_tree_ordered =
    ((omega arith, tt, tt), (omega arith, tt, tt), (tt, tt, tt, tt), (tt, tt, tt, tt))

abbrev pub other_tree_ordered : Ordered five_blocks.hash other_tree
other_tree_ordered = (tt, (omega arith, tt, tt), tt, (tt, tt, tt, tt))

find-insert_subtree_by_hash_example :
    find_block_by_hash five_blocks.hash
      (insert_subtree_by_hash five_blocks.hash main_tree other_tree)
      90
    ≡ or_else
        (find_block_by_hash five_blocks.hash main_tree 90)
        (find_block_by_hash five_blocks.hash other_tree 90)
find-insert_subtree_by_hash_example =
    find-insert_subtree_by_hash five_blocks.hash other_tree main_tree 90 other_tree_ordered

deepest_found : find_max_depth 3 five_blocks 0 ≡ done 2
unfolding find_max_depth
deepest_found = refl

abbrev second_below : Below five_blocks 0 1
second_below = down 0 1 1 (inl refl) (here 1)

find_max_depth-NoDeeper_example : NoDeeper five_blocks 1 2
find_max_depth-NoDeeper_example =
    find_max_depth-NoDeeper five_blocks 3 0 2 deepest_found 1 second_below

heights : Height five_blocks 3 0
unfolding depth_of
heights = ((0, refl), (((1, refl), (((2, refl), tt), tt)), tt))

abbrev sides : List SideChain
sides = record { b = other_tree; last_asked = 0; no_asks = 0 } ∷ []

sides_ok : SidesOk five_blocks sides
sides_ok = (
  record { ordered = other_tree_ordered; allocated = (omega arith, tt, (omega arith, tt, tt)) },
  tt,
)

apart : chain_with five_blocks sides 80 ≡ none
unfolding chain_with find_block_by_hash
apart = refl

FoundIn-add_block_to_incomplete_example :
    FoundIn (add_block_to_incomplete five_blocks sides 60 80) 80
FoundIn-add_block_to_incomplete_example =
    FoundIn-add_block_to_incomplete five_blocks sides sides_ok 60 80 (inl apart)
