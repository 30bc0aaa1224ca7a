-- ===== src/TransactionPool/Epochs.antt =====
-- The epochs of Transaction_Pool.cpp: which transactions belong to which.
use snowball_dag_experiment.Base.{
  ℕ, zero, suc, ◌+◌, ◌*◌, ◌/◌, ◌≡◌, refl, sym, ap, ◌∙◌, ◌⊎◌, inl, inr, true, false, some, List, [],
  ◌∷◌, ◌++◌, Text, leb, length, get_elem?, arith, Bool-cases, length-append,
}
use snowball_dag_experiment.TransactionPool.{
  Transaction, TransactionPool, new_pool, write_to_file, add_tx_in_pool,
}

-- The transaction at the index `i` belongs to the epoch 1 + i / 3000, and so will the next one.
pub record InEpochs (p : TransactionPool) : Type 0 where
  pub epoch : p.epoch_now ≡ 1 + length p.tx_pool / 3000
  pub versions :
      (i : ℕ) (t : Transaction) → get_elem? p.tx_pool i ≡ some t → t.version ≡ 1 + i / 3000

-- An empty pool is in its first epoch.
new_pool-InEpochs : (epoch_time : ℕ) → InEpochs (new_pool epoch_time)
new_pool-InEpochs epoch_time = record { epoch = refl; versions = λ i t e. absurd (cc) }

get_elem?-append :
    (l : List Transaction) (x t : Transaction) (i : ℕ)
    → get_elem? (l ++ (x ∷ [])) i ≡ some t
    → (get_elem? l i ≡ some t) ⊎ ((i ≡ length l) × (x ≡ t))
get_elem?-append [] x t zero e = inr (refl, cc)
get_elem?-append [] x t (suc i) e = absurd (cc)
get_elem?-append (y ∷ l) x t zero e = inl e
get_elem?-append (y ∷ l) x t (suc i) e = elim (get_elem?-append l x t i e) [
  | inl there ↦ inl there
  | inr (last, same) ↦ inr (ap suc last, same)
]

epoch_ends :
    (n m e : ℕ) → m ≡ n + 1 → e ≡ 1 + n / 3000 → leb (3000 * e) m ≡ true → e + 1 ≡ 1 + m / 3000
epoch_ends n m e a b c = ground arith

epoch_goes_on :
    (n m e : ℕ) → m ≡ n + 1 → e ≡ 1 + n / 3000 → leb (3000 * e) m ≡ false → e ≡ 1 + m / 3000
epoch_goes_on n m e a b c = ground arith

module _ (p : TransactionPool) (q : InEpochs p) (tx : Text) (time : ℕ) where
  versions_after :
      (i : ℕ) (t : Transaction)
      → (let new_tx : Transaction = record { version = p.epoch_now; tx = tx; time = time } in
          get_elem? (p.tx_pool ++ (new_tx ∷ [])) i ≡ some t)
      → t.version ≡ 1 + i / 3000
  versions_after i t e = elim (get_elem?-append p.tx_pool _ t i e) [
    | inl there ↦ q.versions i t there
    | inr (last, same) ↦
        sym (ap (λ (x : Transaction). x.version) same) ∙ q.epoch ∙ ap (λ n. 1 + n / 3000) (sym last)
  ]

  -- Where every file can be created, `add_tx_in_pool` keeps the transactions in epochs of 3000: the
  -- one at the index i has the version 1 + i / 3000.
  pub add_tx_in_pool-InEpochs : InEpochs (add_tx_in_pool true p tx time).pool
  unfolding add_tx_in_pool write_to_file
  add_tx_in_pool-InEpochs =
      let new_tx : Transaction = record { version = p.epoch_now; tx = tx; time = time } in
      let n = length-append p.tx_pool (new_tx ∷ []) in
      elim (Bool-cases (leb (3000 * p.epoch_now) (length (p.tx_pool ++ (new_tx ∷ []))))) [
        | inl full ↦ rw full (record {
          epoch = epoch_ends (length p.tx_pool) _ p.epoch_now n q.epoch full;
          versions = versions_after;
        })
        | inr more ↦ rw more (record {
          epoch = epoch_goes_on (length p.tx_pool) _ p.epoch_now n q.epoch more;
          versions = versions_after;
        })
      ]
