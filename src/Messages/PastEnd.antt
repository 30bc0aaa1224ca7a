-- ===== src/Messages/PastEnd.antt =====
-- The two parsers that read past the end of the fields.
use snowball_dag_experiment.Base.{
  ℕ, zero, suc, ◌+◌, ◌≤◌, ◌≡◌, refl, Bool, true, false, Option, none, List, [], ◌∷◌, Text, ltb,
  concat, length, get_elem?, take, arith,
}
use snowball_dag_experiment.Base.Outcome.{Outcome, fault, ◌>>=◌}
use snowball_dag_experiment.Blocks.{NetworkBlock}
use snowball_dag_experiment.Messages.{
  Settings, is_passed, key_present, field, fields, int_at, uint32_at, ulong_at, guarded,
}
use snowball_dag_experiment.Messages.Chain.{parse_full_block}
use snowball_dag_experiment.Messages.Round.{parse_transaction}
use snowball_dag_experiment.Messages.Returns.{
  Returns, Returns-bind, Returns-field, Returns-int_at, Returns-uint32_at, Returns-ulong_at,
}

Returns-fields : (sp : List Text) (i n : ℕ) → i + n ≤ length sp → Returns (fields sp i n)
unfolding Returns fields
Returns-fields sp i zero h = (_, refl)
Returns-fields sp i (suc n) h = Returns-bind (field sp i) _ (Returns-field sp i (omega arith)) (λ s.
    Returns-bind (fields sp (suc i) n) _ (Returns-fields sp (suc i) n (omega arith))
      (λ r. (_, refl)))

-- A run that reads past the end after a part that returns.
fault_after :
    {A B : Type 0} (m : Outcome A) (f : A → Outcome B)
    → Returns m
    → ((a : A) → f a ≡ fault)
    → (m >>= f) ≡ fault
unfolding Returns
fault_after m f (a, e) g = rw e (g a)

past_end : (l : List Text) (i : ℕ) → length l ≤ i → get_elem? l i ≡ none
past_end [] i h = refl
past_end (t ∷ l) zero h = absurd (omega arith)
past_end (t ∷ l) (suc i) h = past_end l i (omega arith)

ulong_at_past_end : (sp : List Text) (i : ℕ) (pr : Bool) → length sp ≤ i → ulong_at sp i pr ≡ fault
unfolding ulong_at field
ulong_at_past_end sp i pr h = rw (past_end sp i h, ulong_at, field) refl

guarded_faults :
    {A : Type 0} (n k : ℕ) (sp passed : List Text) (body : Outcome (Option A))
    → length sp ≡ n
    → is_passed (concat (take k sp)) passed ≡ false
    → body ≡ fault
    → guarded n k sp passed body ≡ fault
unfolding guarded key_present
guarded_faults n k sp passed body e new f =
    let enough : ltb (length sp) n ≡ false = ground arith in
    rw (enough, new, f, guarded, key_present) refl

transaction_faults :
    (st : Settings) (sp passed : List Text)
    → length sp ≡ 4
    → is_passed (concat (take 4 sp)) passed ≡ false
    → parse_transaction st sp passed ≡ fault
unfolding parse_transaction
transaction_faults st sp passed e new = guarded_faults 4 4 sp passed _ e new (
    fault_after (field sp 1) _ (Returns-field sp 1 (omega arith)) (λ s1.
      fault_after (uint32_at sp 2 true) _ (Returns-uint32_at sp 2 true (omega arith)) (λ x2.
        fault_after (field sp 3) _ (Returns-field sp 3 (omega arith))
          (λ s3. rw (ulong_at_past_end sp 4 x2.1 (omega arith)) refl))))

full_block_faults :
    (st : Settings) (sp passed : List Text) (nb : NetworkBlock)
    → length sp ≡ 10 + st.proof_length + 1
    → is_passed (concat (take 5 sp)) passed ≡ false
    → parse_full_block st sp passed nb ≡ fault
unfolding parse_full_block
full_block_faults st sp passed nb e new =
    guarded_faults (10 + st.proof_length + 1) 5 sp passed _ e new (
      fault_after (field sp 1) _ (Returns-field sp 1 (omega arith)) (λ s1.
        fault_after (uint32_at sp 2 true) _ (Returns-uint32_at sp 2 true (omega arith)) (λ x2.
          fault_after (uint32_at sp 3 x2.1) _ (Returns-uint32_at sp 3 x2.1 (omega arith)) (λ x3.
            fault_after (ulong_at sp 4 x3.1) _ (Returns-ulong_at sp 4 x3.1 (omega arith)) (λ x4.
              fault_after (int_at sp 5 x4.1) _ (Returns-int_at sp 5 x4.1 (omega arith)) (λ x5.
                fault_after (ulong_at sp 6 x5.1) _ (Returns-ulong_at sp 6 x5.1 (omega arith)) (λ x6.
                  fault_after (uint32_at sp 7 x6.1) _ (Returns-uint32_at sp 7 x6.1 (omega arith))
                    (λ x7. fault_after (field sp 8) _ (Returns-field sp 8 (omega arith)) (λ s8.
                      fault_after (field sp 9) _ (Returns-field sp 9 (omega arith)) (λ s9.
                        fault_after (fields sp 10 st.proof_length) _
                          (Returns-fields sp 10 st.proof_length (omega arith))
                          (λ p.
                            fault_after (ulong_at sp (10 + st.proof_length) x7.1) _
                              (Returns-ulong_at sp (10 + st.proof_length) x7.1 (omega arith))
                              (λ xm.
                                rw
                                  (ulong_at_past_end sp (10 + st.proof_length + 1) xm.1
                                    (omega arith))
                                  refl))))))))))))

-- With as many fields as the test asks for and a new key, the parsers of "#transaction" and of
-- "#full_block" read the field after the last one.
pub parsers_read_past_end :
    (st : Settings) (sp sp' passed : List Text) (nb : NetworkBlock)
    → length sp ≡ 4
    → is_passed (concat (take 4 sp)) passed ≡ false
    → length sp' ≡ 10 + st.proof_length + 1
    → is_passed (concat (take 5 sp')) passed ≡ false
    → (parse_transaction st sp passed ≡ fault) × (parse_full_block st sp' passed nb ≡ fault)
parsers_read_past_end st sp sp' passed nb e new e' new' =
    (transaction_faults st sp passed e new, full_block_faults st sp' passed nb e' new')
