-- ===== src/Consensus/Shares.antt =====
-- The shares of the miners in Consensus_Group.cpp: what a join adds to them.
use snowball_dag_experiment.Base.{
  ℕ, ◌+◌, ◌≡◌, refl, sym, ◌∙◌, inl, inr, Bool, true, false, none, some, List, [], ◌∷◌, ◌++◌, ℤ,
  Text, text_eq, eqb_ℤ, eqb_ℤ_iff, if◌then◌else◌, arith, Bool-cases, Option-cases, text_eq→eq,
}
use snowball_dag_experiment.Base.Assoc.{int_key, find, insert, assign, find-insert, find-assign}
use snowball_dag_experiment.Consensus.{MinerInfo, is_miner, is_member, share_up, add_member}

-- The sum of the shares of the entries with an address.
abbrev pub share_of : List MinerInfo → Text → ℕ → ℕ
share_of [] ip port = 0
share_of (m ∷ l) ip port = (if is_miner ip port m then m.share_of_block else 0) + share_of l ip port

abbrev pub total_shares : List MinerInfo → ℕ
total_shares [] = 0
total_shares (m ∷ l) = m.share_of_block + total_shares l

total_shares-append :
    (k l : List MinerInfo) → total_shares (k ++ l) ≡ total_shares k + total_shares l
total_shares-append [] l = omega arith
total_shares-append (m ∷ k) l = omega (arith, total_shares-append k l)

total_shares-share_up :
    (l : List MinerInfo) (ip : Text) (port : ℕ)
    → is_member l ip port ≡ true
    → total_shares (share_up l ip port) ≡ total_shares l + 1
unfolding is_member share_up
total_shares-share_up [] ip port h = absurd (cc)
total_shares-share_up (m ∷ l) ip port h = elim (Bool-cases (is_miner ip port m)) [
  | inl q ↦ rw q (omega arith)
  | inr q ↦ rw q (omega (arith, total_shares-share_up l ip port (sym (rw q refl) ∙ h)))
]

pub total_shares-add_member :
    (l : List MinerInfo) (ip : Text) (port : ℕ)
    → total_shares (add_member l ip port) ≡ total_shares l + 1
unfolding add_member
total_shares-add_member l ip port = elim (Bool-cases (is_member l ip port)) [
  | inl q ↦ rw q (total_shares-share_up l ip port q)
  | inr q ↦ rw q (
      omega
        (arith, total_shares-append l (record { ip = ip; port = port; share_of_block = 1 } ∷ [])))
]

share_of-append :
    (k l : List MinerInfo) (ip : Text) (port : ℕ)
    → share_of (k ++ l) ip port ≡ share_of k ip port + share_of l ip port
share_of-append [] l ip port = omega arith
share_of-append (m ∷ k) l ip port = omega (arith, share_of-append k l ip port)

-- An entry that is the miner's own has the miner's address.
is_miner-same :
    (ip ip' : Text) (port port' : ℕ) (m : MinerInfo)
    → is_miner ip port m ≡ true
    → is_miner ip' port' m
      ≡ is_miner ip' port' (record { ip = ip; port = port; share_of_block = 1 })
unfolding is_miner
is_miner-same ip ip' port port' m h =
    let same_text : text_eq m.ip ip ≡ true = ground arith in
    let same_port : m.port ≡ port = ground arith in
    rw (text_eq→eq m.ip ip same_text, same_port) refl

is_miner-up :
    (ip : Text) (port : ℕ) (m : MinerInfo)
    → is_miner ip port (record m { share_of_block = m.share_of_block + 1 }) ≡ is_miner ip port m
unfolding is_miner
is_miner-up ip port m = refl

one_more :
    (a b c : Bool) (n s : ℕ)
    → a ≡ b
    → b ≡ c
    → (if a then n + 1 else 0) + s ≡ (if b then n else 0) + s + ((if c then 1 else 0) + 0)
one_more a b c n s p q = ground arith

share_of-share_up :
    (l : List MinerInfo) (ip ip' : Text) (port port' : ℕ)
    → is_member l ip port ≡ true
    → share_of (share_up l ip port) ip' port'
      ≡ share_of l ip' port'
        + share_of (record { ip = ip; port = port; share_of_block = 1 } ∷ []) ip' port'
unfolding is_member share_up
share_of-share_up [] ip ip' port port' h = absurd (cc)
share_of-share_up (m ∷ l) ip ip' port port' h = elim (Bool-cases (is_miner ip port m)) [
  | inl q ↦ rw q (
      one_more _ (is_miner ip' port' m) _ m.share_of_block (share_of l ip' port')
        (is_miner-up ip' port' m) (is_miner-same ip ip' port port' m q))
  | inr q ↦
      let ih = share_of-share_up l ip ip' port port' (sym (rw q refl) ∙ h) in
      rw q (omega (arith, ih))
]

pub share_of-add_member :
    (l : List MinerInfo) (ip ip' : Text) (port port' : ℕ)
    → share_of (add_member l ip port) ip' port'
      ≡ share_of l ip' port'
        + share_of (record { ip = ip; port = port; share_of_block = 1 } ∷ []) ip' port'
unfolding add_member
share_of-add_member l ip ip' port port' = elim (Bool-cases (is_member l ip port)) [
  | inl q ↦ rw q (share_of-share_up l ip ip' port port' q)
  | inr q ↦
      rw q (share_of-append l (record { ip = ip; port = port; share_of_block = 1 } ∷ []) ip' port')
]

eqb_ℤ_refl : (r : ℤ) → eqb_ℤ r r ≡ true
eqb_ℤ_refl r = (eqb_ℤ_iff r r).1 refl

module _ {V : Type 0} (r : ℤ) (v : V) (m : List (ℤ × V)) where
  pub find_assigned : (w : V) → find r m ≡ some w → find r (assign r v m) ≡ some v
  find_assigned w e = rw (find-assign r r v m, e, eqb_ℤ_refl r) refl

  pub find_inserted : find r m ≡ none → find r (insert r v m) ≡ some v
  find_inserted e = rw (find-insert r r v m, e, eqb_ℤ_refl r) refl

  pub find_not_assigned : (o : ℤ) → eqb_ℤ r o ≡ false → find o (assign r v m) ≡ find o m
  find_not_assigned o apart = elim (Option-cases (find o m)) [
    | inl e ↦ rw (find-assign r o v m, e) refl
    | inr (w, e) ↦ rw (find-assign r o v m, e, apart) refl
  ]

  pub find_not_inserted : (o : ℤ) → eqb_ℤ r o ≡ false → find o (insert r v m) ≡ find o m
  find_not_inserted o apart = elim (Option-cases (find o m)) [
    | inl e ↦ rw (find-insert r o v m, e, apart) refl
    | inr (w, e) ↦ rw (find-insert r o v m, e) refl
  ]
