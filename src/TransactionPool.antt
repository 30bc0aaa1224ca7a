-- ===== src/TransactionPool.antt =====
-- The class `Transaction_Pool` of Snowball_Main/code/Transaction_Pool.cpp. Whether a file can be created
-- is an argument; what is written to it is a part of the result.
pub mod Epochs
use snowball_dag_experiment.Base.{
  ℕ, zero, suc, ◌+◌, ◌*◌, Bool, true, false, List, [], ◌∷◌, ◌++◌, map, Text, leb, if◌then◌else◌,
  length,
}
use snowball_dag_experiment.Numbers.{to_string}

pub record Transaction : Type 0 where
  pub version : ℕ
  pub tx : Text
  pub time : ℕ

-- `epoch_now` is below 2^31, the bound of the source's `int`.
pub record TransactionPool : Type 0 where
  pub tx_pool : List Transaction
  pub epoch_time : ℕ
  pub epoch_now : ℕ

abbrev pub new_pool : ℕ → TransactionPool
new_pool epoch_time = record { tx_pool = []; epoch_time = epoch_time; epoch_now = 1 }

-- One line of a file, "version:tx:time".
unfoldable pub line : Transaction → Text
line t = to_string t.version ++ (58 ∷ (t.tx ++ (58 ∷ to_string t.time)))

pub record Written : Type 0 where
  pub pool : TransactionPool
  pub file : List Text
  pub returned : Bool

unfoldable pub write_to_file : Bool → TransactionPool → Written
unfolding line
write_to_file is_open p =
    if is_open
    then record {
      pool = record p { epoch_now = p.epoch_now + 1 };
      file = map line p.tx_pool;
      returned = true;
    }
    else record { pool = p; file = []; returned = false }

unfoldable pub add_tx_in_pool : Bool → TransactionPool → Text → ℕ → Written
unfolding write_to_file
add_tx_in_pool is_open p tx time =
    let new_tx : Transaction = record { version = p.epoch_now; tx = tx; time = time } in
    let q : TransactionPool = record p { tx_pool = p.tx_pool ++ (new_tx ∷ []) } in
    if leb (3000 * p.epoch_now) (length q.tx_pool)
    then write_to_file is_open q
    else record { pool = q; file = []; returned = false }
