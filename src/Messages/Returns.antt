-- ===== src/Messages/Returns.antt =====
-- The parsers return on every list of fields, but for two that read past its end.
use snowball_dag_experiment.Base.{
  ℕ, zero, suc, ◌≤◌, ◌<◌, ◌≡◌, refl, inl, inr, Bool, true, Option, some, List, [], ◌∷◌, Text, ltb,
  concat, length, get_elem?, take, arith, Bool-cases,
}
use snowball_dag_experiment.Base.Outcome.{Outcome, done, ◌>>=◌}
use snowball_dag_experiment.Blocks.{NetworkBlock, ConsensusPart}
use snowball_dag_experiment.Messages.{
  Settings, key_present, field, int_at, uint32_at, ulong_at, guarded,
}
use snowball_dag_experiment.Messages.Chain.{
  parse_ask_block, read_header, parse_process_block, parse_got_full_block, parse_have_full_block,
  parse_ask_full_block,
}
use snowball_dag_experiment.Messages.Round.{
  parse_ping, parse_mining_succeed, parse_consensus_block, parse_have_consensus_block,
  parse_verified_1_info, parse_answer_verified_1_info,
}

-- The run has a result: no read past the end.
unfoldable pub Returns : {A : Type 0} → Outcome A → Type 0
Returns {A} o = (a : A) × (o ≡ done a)

pub Returns-bind :
    {A B : Type 0} (m : Outcome A) (f : A → Outcome B)
    → Returns m
    → ((a : A) → Returns (f a))
    → Returns (m >>= f)
unfolding Returns
Returns-bind m f (a, e) g = rw e (g a)

Returns-guarded :
    {A : Type 0} (n k : ℕ) (sp passed : List Text) (body : Outcome (Option A))
    → (n ≤ length sp → Returns body)
    → Returns (guarded n k sp passed body)
unfolding Returns guarded
Returns-guarded n k sp passed body h = elim (Bool-cases (ltb (length sp) n)) [
  | inl few ↦ rw few (_, refl)
  | inr enough ↦ elim (Bool-cases (key_present (concat (take k sp)) passed).0) [
    | inl seen ↦ rw (enough, seen) (_, refl)
    | inr new ↦ let (r, e) = h (ground arith) in rw (enough, new, e) (_, refl)
  ]
]

module _ (sp : List Text) where
  in_range : (i : ℕ) (l : List Text) → i < length l → (t : Text) × (get_elem? l i ≡ some t)
  in_range i [] h = absurd (omega arith)
  in_range zero (t ∷ l) h = (t, refl)
  in_range (suc i) (t ∷ l) h = in_range i l (omega arith)

  pub Returns-field : (i : ℕ) → i < length sp → Returns (field sp i)
  unfolding Returns field
  Returns-field i h = let (t, e) = in_range i sp h in rw e (t, refl)

  pub Returns-int_at : (i : ℕ) (pr : Bool) → i < length sp → Returns (int_at sp i pr)
  unfolding Returns int_at
  Returns-int_at i pr h = Returns-bind (field sp i) _ (Returns-field i h) (λ s. (_, refl))

  pub Returns-uint32_at : (i : ℕ) (pr : Bool) → i < length sp → Returns (uint32_at sp i pr)
  unfolding Returns uint32_at
  Returns-uint32_at i pr h =
      Returns-bind (int_at sp i pr) _ (Returns-int_at i pr h) (λ x. (_, refl))

  pub Returns-ulong_at : (i : ℕ) (pr : Bool) → i < length sp → Returns (ulong_at sp i pr)
  unfolding Returns ulong_at
  Returns-ulong_at i pr h = Returns-bind (field sp i) _ (Returns-field i h) (λ s. (_, refl))

Returns-read_header :
    (sp : List Text) (pr : Bool) (nb : NetworkBlock)
    → 15 ≤ length sp
    → Returns (read_header sp pr nb)
unfolding Returns read_header
Returns-read_header sp pr nb h =
    Returns-bind (uint32_at sp 3 pr) _ (Returns-uint32_at sp 3 pr (omega arith)) (λ x3.
      Returns-bind (ulong_at sp 4 x3.1) _ (Returns-ulong_at sp 4 x3.1 (omega arith)) (λ x4.
        Returns-bind (ulong_at sp 5 x4.1) _ (Returns-ulong_at sp 5 x4.1 (omega arith)) (λ x5.
          Returns-bind (uint32_at sp 6 x5.1) _ (Returns-uint32_at sp 6 x5.1 (omega arith)) (λ x6.
            Returns-bind (uint32_at sp 7 x6.1) _ (Returns-uint32_at sp 7 x6.1 (omega arith)) (λ x7.
              Returns-bind (uint32_at sp 8 x7.1) _ (Returns-uint32_at sp 8 x7.1 (omega arith))
                (λ x8.
                  Returns-bind (uint32_at sp 9 x8.1) _ (Returns-uint32_at sp 9 x8.1 (omega arith))
                    (λ x9.
                      Returns-bind (int_at sp 10 x9.1) _ (Returns-int_at sp 10 x9.1 (omega arith))
                        (λ x10.
                          Returns-bind (int_at sp 11 x10.1) _
                            (Returns-int_at sp 11 x10.1 (omega arith))
                            (λ x11.
                              Returns-bind (int_at sp 12 x11.1) _
                                (Returns-int_at sp 12 x11.1 (omega arith))
                                (λ x12.
                                  Returns-bind (int_at sp 13 x12.1) _
                                    (Returns-int_at sp 13 x12.1 (omega arith))
                                    (λ x13.
                                      Returns-bind (field sp 14) _
                                        (Returns-field sp 14 (omega arith))
                                        (λ s14. (_, refl)))))))))))))

parse_ask_block-Returns :
    (st : Settings) (sp passed : List Text) → Returns (parse_ask_block st sp passed)
unfolding Returns parse_ask_block
parse_ask_block-Returns st sp passed = Returns-guarded 6 5 sp passed _ (λ h.
    Returns-bind (field sp 1) _ (Returns-field sp 1 (omega arith)) (λ s1.
      Returns-bind (uint32_at sp 2 true) _ (Returns-uint32_at sp 2 true (omega arith)) (λ x2.
        Returns-bind (uint32_at sp 3 x2.1) _ (Returns-uint32_at sp 3 x2.1 (omega arith)) (λ x3.
          Returns-bind (ulong_at sp 4 x3.1) _ (Returns-ulong_at sp 4 x3.1 (omega arith)) (λ x4.
            Returns-bind (uint32_at sp 5 x4.1) _ (Returns-uint32_at sp 5 x4.1 (omega arith))
              (λ x5. (_, refl)))))))

parse_got_full_block-Returns :
    (st : Settings) (sp passed : List Text) → Returns (parse_got_full_block st sp passed)
unfolding Returns parse_got_full_block
parse_got_full_block-Returns st sp passed = Returns-guarded 5 5 sp passed _ (λ h.
    Returns-bind (field sp 1) _ (Returns-field sp 1 (omega arith)) (λ s1.
      Returns-bind (uint32_at sp 2 true) _ (Returns-uint32_at sp 2 true (omega arith)) (λ x2.
        Returns-bind (uint32_at sp 3 x2.1) _ (Returns-uint32_at sp 3 x2.1 (omega arith)) (λ x3.
          Returns-bind (ulong_at sp 4 x3.1) _ (Returns-ulong_at sp 4 x3.1 (omega arith))
            (λ x4. (_, refl))))))

-- The two parsers with the body of this one.
parse_have_full_block-Returns :
    (st : Settings) (sp passed : List Text) → Returns (parse_have_full_block st sp passed)
unfolding parse_have_full_block
parse_have_full_block-Returns st sp passed = parse_got_full_block-Returns st sp passed

parse_ask_full_block-Returns :
    (st : Settings) (sp passed : List Text) → Returns (parse_ask_full_block st sp passed)
unfolding parse_ask_full_block
parse_ask_full_block-Returns st sp passed = parse_got_full_block-Returns st sp passed

parse_process_block-Returns :
    (st : Settings) (sp passed : List Text) (nb : NetworkBlock)
    → Returns (parse_process_block st sp passed nb)
unfolding Returns parse_process_block
parse_process_block-Returns st sp passed nb = Returns-guarded 15 6 sp passed _ (λ h.
    Returns-bind (field sp 1) _ (Returns-field sp 1 (omega arith)) (λ s1.
      Returns-bind (uint32_at sp 2 true) _ (Returns-uint32_at sp 2 true (omega arith)) (λ x2.
        Returns-bind (read_header sp x2.1 nb) _ (Returns-read_header sp x2.1 nb (omega arith))
          (λ x. (_, refl)))))

parse_ping-Returns : (st : Settings) (sp passed : List Text) → Returns (parse_ping st sp passed)
unfolding Returns parse_ping
parse_ping-Returns st sp passed = Returns-guarded 7 3 sp passed _ (λ h.
    Returns-bind (field sp 1) _ (Returns-field sp 1 (omega arith)) (λ s1.
      Returns-bind (uint32_at sp 2 true) _ (Returns-uint32_at sp 2 true (omega arith)) (λ x2.
        Returns-bind (field sp 3) _ (Returns-field sp 3 (omega arith)) (λ s3.
          Returns-bind (uint32_at sp 4 x2.1) _ (Returns-uint32_at sp 4 x2.1 (omega arith)) (λ x4.
            Returns-bind (ulong_at sp 5 x4.1) _ (Returns-ulong_at sp 5 x4.1 (omega arith)) (λ x5.
              Returns-bind (int_at sp 6 x5.1) _ (Returns-int_at sp 6 x5.1 (omega arith))
                (λ x6. (_, refl))))))))

parse_mining_succeed-Returns :
    (st : Settings) (sp passed : List Text) → Returns (parse_mining_succeed st sp passed)
unfolding Returns parse_mining_succeed
parse_mining_succeed-Returns st sp passed = Returns-guarded 6 5 sp passed _ (λ h.
    Returns-bind (field sp 1) _ (Returns-field sp 1 (omega arith)) (λ s1.
      Returns-bind (uint32_at sp 2 true) _ (Returns-uint32_at sp 2 true (omega arith)) (λ x2.
        Returns-bind (int_at sp 3 x2.1) _ (Returns-int_at sp 3 x2.1 (omega arith)) (λ x3.
          Returns-bind (int_at sp 5 x3.1) _ (Returns-int_at sp 5 x3.1 (omega arith))
            (λ x5. (_, refl))))))

parse_consensus_block-Returns :
    (st : Settings) (sp passed : List Text) (cp : ConsensusPart)
    → Returns (parse_consensus_block st sp passed cp)
unfolding Returns parse_consensus_block
parse_consensus_block-Returns st sp passed cp = Returns-guarded 8 7 sp passed _ (λ h.
    Returns-bind (field sp 1) _ (Returns-field sp 1 (omega arith)) (λ s1.
      Returns-bind (uint32_at sp 2 true) _ (Returns-uint32_at sp 2 true (omega arith)) (λ x2.
        Returns-bind (int_at sp 3 x2.1) _ (Returns-int_at sp 3 x2.1 (omega arith)) (λ x3.
          Returns-bind (int_at sp 4 x3.1) _ (Returns-int_at sp 4 x3.1 (omega arith)) (λ x4.
            Returns-bind (int_at sp 5 x4.1) _ (Returns-int_at sp 5 x4.1 (omega arith)) (λ x5.
              Returns-bind (int_at sp 6 x5.1) _ (Returns-int_at sp 6 x5.1 (omega arith)) (λ x6.
                Returns-bind (field sp 7) _ (Returns-field sp 7 (omega arith))
                  (λ s7. (_, refl)))))))))

parse_have_consensus_block-Returns :
    (st : Settings) (sp passed : List Text) → Returns (parse_have_consensus_block st sp passed)
unfolding Returns parse_have_consensus_block
parse_have_consensus_block-Returns st sp passed = Returns-guarded 5 5 sp passed _ (λ h.
    Returns-bind (field sp 1) _ (Returns-field sp 1 (omega arith)) (λ s1.
      Returns-bind (uint32_at sp 2 true) _ (Returns-uint32_at sp 2 true (omega arith)) (λ x2.
        Returns-bind (int_at sp 3 x2.1) _ (Returns-int_at sp 3 x2.1 (omega arith)) (λ x3.
          Returns-bind (int_at sp 4 x3.1) _ (Returns-int_at sp 4 x3.1 (omega arith))
            (λ x4. (_, refl))))))

parse_verified_1_info-Returns :
    (st : Settings) (sp passed : List Text) (nb : NetworkBlock)
    → Returns (parse_verified_1_info st sp passed nb)
unfolding Returns parse_verified_1_info
parse_verified_1_info-Returns st sp passed nb = Returns-guarded 16 6 sp passed _ (λ h.
    Returns-bind (field sp 1) _ (Returns-field sp 1 (omega arith)) (λ s1.
      Returns-bind (uint32_at sp 2 true) _ (Returns-uint32_at sp 2 true (omega arith)) (λ x2.
        Returns-bind (read_header sp x2.1 nb) _ (Returns-read_header sp x2.1 nb (omega arith))
          (λ x. (_, refl)))))

parse_answer_verified_1_info-Returns :
    (st : Settings) (sp passed : List Text) → Returns (parse_answer_verified_1_info st sp passed)
unfolding Returns parse_answer_verified_1_info
parse_answer_verified_1_info-Returns st sp passed = Returns-guarded 5 4 sp passed _ (λ h.
    Returns-bind (field sp 1) _ (Returns-field sp 1 (omega arith)) (λ s1.
      Returns-bind (uint32_at sp 2 true) _ (Returns-uint32_at sp 2 true (omega arith)) (λ x2.
        Returns-bind (ulong_at sp 3 x2.1) _ (Returns-ulong_at sp 3 x2.1 (omega arith)) (λ x3.
          Returns-bind (int_at sp 4 x3.1) _ (Returns-int_at sp 4 x3.1 (omega arith))
            (λ x4. (_, refl))))))

-- Every parser but that of "#full_block" and that of "#transaction" returns on every list of fields.
pub parsers_return :
    (st : Settings) (sp passed : List Text) (nb : NetworkBlock) (cp : ConsensusPart)
    → Returns (parse_ask_block st sp passed)
      × Returns (parse_got_full_block st sp passed)
      × Returns (parse_have_full_block st sp passed)
      × Returns (parse_ask_full_block st sp passed)
      × Returns (parse_process_block st sp passed nb)
      × Returns (parse_ping st sp passed)
      × Returns (parse_mining_succeed st sp passed)
      × Returns (parse_consensus_block st sp passed cp)
      × Returns (parse_have_consensus_block st sp passed)
      × Returns (parse_verified_1_info st sp passed nb)
      × Returns (parse_answer_verified_1_info st sp passed)
parsers_return st sp passed nb cp = (
  parse_ask_block-Returns st sp passed,
  parse_got_full_block-Returns st sp passed,
  parse_have_full_block-Returns st sp passed,
  parse_ask_full_block-Returns st sp passed,
  parse_process_block-Returns st sp passed nb,
  parse_ping-Returns st sp passed,
  parse_mining_succeed-Returns st sp passed,
  parse_consensus_block-Returns st sp passed cp,
  parse_have_consensus_block-Returns st sp passed,
  parse_verified_1_info-Returns st sp passed nb,
  parse_answer_verified_1_info-Returns st sp passed,
)
