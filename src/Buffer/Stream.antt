-- ===== src/Buffer/Stream.antt =====
-- A buffer of whole messages and the beginning of one more.
use snowball_dag_experiment.Base.{
  ℕ, zero, suc, ◌+◌, ◌-◌, ◌≤◌, ◌≡◌, refl, sym, ap, ◌∙◌, Bool, true, false, not, ◌&&◌, Option, some,
  List, [], ◌∷◌, ◌++◌, Text, ltb, if◌then◌else◌, length, length-append, take, drop, All, arith,
}
use mathlib.Core.List.{append_assoc}
use snowball_dag_experiment.Base.Outcome.{Outcome, done, fault, exited, no_fuel, ◌>>=◌}
use snowball_dag_experiment.Split.Tokens.{Free, drop-length, take-length}
use snowball_dag_experiment.Buffer.{
  positions, is_complete, is_last, buffer_loop, keep_from, process_buffer,
}

-- A message as it is sent, without its "#", between "#" and "!".
abbrev pub frame : Text → Text
frame w = 35 ∷ (w ++ (33 ∷ []))

-- The messages one after the other, and then `rest`.
abbrev pub stream : List Text → Text → Text
stream [] rest = rest
stream (w ∷ ws) rest = frame w ++ stream ws rest

positions-Free : (i : ℕ) (t : Text) → Free 35 t → positions i t ≡ []
unfolding positions
positions-Free i [] f = refl
positions-Free i (c ∷ t) f = rw (f.0, positions-Free (suc i) t f.1) refl

positions-append :
    (i : ℕ) (t r : Text) → Free 35 t → positions i (t ++ r) ≡ positions (i + length t) r
unfolding positions
positions-append i [] r f = ap (λ j. positions j r) (omega arith)
positions-append i (c ∷ t) r f =
    rw (f.0, positions-append (suc i) t r f.1) (ap (λ j. positions j r) (omega arith))

is_complete_end : (t : Text) (c : ℕ) → is_complete (c ∷ (t ++ (33 ∷ []))) ≡ true
unfolding is_complete
is_complete_end [] c = refl
is_complete_end (d ∷ t) c = is_complete_end t d

is_last_end : (ps : List ℕ) (q : ℕ) → is_last (ps ++ (q ∷ [])) ≡ false
is_last_end [] q = refl
is_last_end (p ∷ ps) q = refl

stream_start : (ws : List Text) (t : Text) → (r : Text) × (stream ws (35 ∷ t) ≡ 35 ∷ r)
stream_start [] t = (t, refl)
stream_start (w ∷ ws) t = (_, refl)

take_enough : (n : ℕ) (t : Text) → length t ≤ n → take n t ≡ t
take_enough zero [] h = refl
take_enough (suc n) [] h = refl
take_enough zero (c ∷ t) h = absurd (omega arith)
take_enough (suc n) (c ∷ t) h = ap (λ x. c ∷ x) (take_enough n t (omega arith))

-- The places of "#" in a stream that begins with a message.
positions-stream :
    (i : ℕ) (w : Text) (ws : List Text) (t : Text)
    → Free 35 w
    → positions i (stream (w ∷ ws) (35 ∷ t)) ≡ i ∷ positions (i + length w + 2) (stream ws (35 ∷ t))
unfolding positions
positions-stream i w ws t f =
    let rest = stream ws (35 ∷ t) in
    ap (λ x. i ∷ x)
      (ap (positions (suc i)) (append_assoc w (33 ∷ []) rest)
        ∙ positions-append (suc i) w (33 ∷ rest) f
        ∙ ap (λ j. positions j rest) (omega arith))

-- The run of the handler on each message in its turn.
unfoldable pub handle_all :
    {S : Type 0} → (Text → S → Outcome (Bool × S)) → List Text → S → Outcome S
handle_all handle [] s = done s
handle_all handle (w ∷ ws) s = do x ← handle (35 ∷ w) s; handle_all handle ws x.1

not_the_last :
    {S A : Type 0} (o : Outcome (Bool × S)) (b : Bool) (stop next : S → Outcome A)
    → b ≡ false
    → (o >>= (λ x. if not x.0 && b then stop x.1 else next x.1)) ≡ (o >>= (λ x. next x.1))
not_the_last (done (true, s)) b stop next e = refl
not_the_last (done (false, s)) b stop next e = rw e refl
not_the_last fault b stop next e = refl
not_the_last exited b stop next e = refl
not_the_last no_fuel b stop next e = refl

and_then :
    {S A : Type 0} (o : Outcome (Bool × S)) (k : S → Outcome A) (h : S → Outcome S)
    (fin : S → Outcome A)
    → ((s : S) → k s ≡ (h s >>= fin))
    → (o >>= (λ x. k x.1)) ≡ ((o >>= (λ x. h x.1)) >>= fin)
and_then (done x) k h fin e = e x.1
and_then fault k h fin e = refl
and_then exited k h fin e = refl
and_then no_fuel k h fin e = refl

module _ {S : Type 0} (handle : Text → S → Outcome (Bool × S)) where
  -- One round of the loop on a whole message that is not the last piece.
  buffer_loop-frame :
      (m : Text) (p q : ℕ) (ps : List ℕ) (w : Text) (s : S)
      → take (q - p) (drop p m) ≡ frame w
      → is_last ps ≡ false
      → buffer_loop handle m (p ∷ q ∷ ps) s
        ≡ (handle (35 ∷ w) s >>= (λ x. buffer_loop handle m (q ∷ ps) x.1))
  unfolding buffer_loop
  buffer_loop-frame m p q ps w s e l =
      let body : take (length (frame w) - 1) (frame w) ≡ 35 ∷ w =
        ap (λ k. take k (frame w)) {y = length (35 ∷ w)} (omega (arith, length-append w (33 ∷ [])))
        ∙ take-length (35 ∷ w) (33 ∷ []) in
      rw (e, is_complete_end w 35, body)
        (not_the_last (handle (35 ∷ w) s) (is_last ps) (λ s'. done (p, s'))
          (buffer_loop handle m (q ∷ ps)) l)

  loop-stream :
      (ws : List Text) (t u m : Text) (s : S)
      → All (Free 35) ws
      → Free 35 t
      → is_complete (35 ∷ t) ≡ false
      → m ≡ u ++ stream ws (35 ∷ t)
      → buffer_loop handle m (positions (length u) (stream ws (35 ∷ t)) ++ ((length m + 1) ∷ [])) s
        ≡ (handle_all handle ws s >>= (λ s'. done (length m - suc (length t), s')))
  unfolding buffer_loop positions handle_all
  loop-stream [] t u m s a f open_end e =
      let size : length m ≡ length u + suc (length t) = ap length e ∙ length-append u (35 ∷ t) in
      let piece : take (length m + 1 - length u) (drop (length u) m) ≡ 35 ∷ t =
        ap (λ x. take (length m + 1 - length u) (drop (length u) x)) e
        ∙ ap (take (length m + 1 - length u)) (drop-length u (35 ∷ t))
        ∙ take_enough (length m + 1 - length u) (35 ∷ t) (omega arith) in
      rw (positions-Free (suc (length u)) t f, piece, open_end)
        (ap (λ k. done (k, s)) (omega arith))
  loop-stream (w ∷ ws) t u m s a f open_end e =
      let p = length u in
      let u' = u ++ frame w in
      let q = length u' in
      let rest = stream ws (35 ∷ t) in
      let ends = (length m + 1) ∷ [] in
      let (r, starts) = stream_start ws t in
      let next : q ≡ p + length w + 2 =
        omega (arith, length-append u (frame w), length-append w (33 ∷ [])) in
      let splits : m ≡ u' ++ rest = e ∙ sym (append_assoc u (frame w) rest) in
      let ps = positions (suc q) r ++ ends in
      let tail : positions q rest ++ ends ≡ q ∷ ps = ap (λ x. positions q x ++ ends) starts in
      let token : take (q - p) (drop p m) ≡ frame w =
        ap (λ x. take (q - p) (drop p x)) e
        ∙ ap (take (q - p)) (drop-length u (frame w ++ rest))
        ∙ ap (λ k. take k (frame w ++ rest)) {y = length (frame w)}
            (omega (arith, length-append u (frame w)))
        ∙ take-length (frame w) rest in
      ap (λ l. buffer_loop handle m (l ++ ends) s)
        (positions-stream p w ws t a.0 ∙ ap (λ k. p ∷ positions k rest) (sym next))
      ∙ ap (λ l. buffer_loop handle m (p ∷ l) s) tail
      ∙ buffer_loop-frame m p q ps w s token (is_last_end (positions (suc q) r) (length m + 1))
      ∙ and_then (handle (35 ∷ w) s) (buffer_loop handle m (q ∷ ps)) (handle_all handle ws) _ (λ s'.
        ap (λ l. buffer_loop handle m l s') (sym tail)
        ∙ loop-stream ws t u' m s' a.1 f open_end splits)

stream_front : (ws : List Text) (rest : Text) → (u : Text) × (stream ws rest ≡ u ++ rest)
stream_front [] rest = ([], refl)
stream_front (w ∷ ws) rest =
    let (u, e) = stream_front ws rest in
    (frame w ++ u, ap (λ x. frame w ++ x) e ∙ sym (append_assoc (frame w) u rest))

-- The beginning of a message at the end is kept.
keep_from-end :
    (u m t : Text) (c : ℕ) → m ≡ u ++ (c ∷ t) → keep_from m (length m - suc (length t)) ≡ c ∷ t
unfolding keep_from
keep_from-end u m t c e =
    let size : length m ≡ length u + suc (length t) = ap length e ∙ length-append u (c ∷ t) in
    let place : length m - suc (length t) ≡ length u = omega arith in
    let inside : ltb (length u) (length m) ≡ true = ground arith in
    ap (λ k. if ltb k (length m) then drop k m else []) place
    ∙ rw inside (ap (drop (length u)) e ∙ drop-length u (c ∷ t))

abbrev placed : {S : Type 0} → ℕ → S → Outcome (ℕ × S)
placed p s = done (p, s)

abbrev left : {S : Type 0} → Text → ℕ × S → Outcome (Option (Text × S))
left m x = done (some (keep_from m x.0, x.1))

abbrev holding : {S : Type 0} → Text → S → Outcome (Option (Text × S))
holding t s = done (some (t, s))

kept :
    {S : Type 0} (o : Outcome S) (m t : Text) (p : ℕ)
    → keep_from m p ≡ t
    → ((o >>= placed p) >>= left m) ≡ (o >>= holding t)
kept (done s) m t p e = ap (λ k. holding k s) e
kept fault m t p e = refl
kept exited m t p e = refl
kept no_fuel m t p e = refl

process_buffer_started :
    {S : Type 0} (print : Bool) (handle : Text → S → Outcome (Bool × S)) (m r : Text) (s : S)
    → m ≡ 35 ∷ r
    → process_buffer print handle m s ≡ (
        buffer_loop handle m (positions 0 m ++ ((length m + 1) ∷ [])) s
        >>= (λ x. done (some (keep_from m x.0, x.1))))
unfolding process_buffer
process_buffer_started print handle m r s e = rw e refl

-- A buffer of whole messages and a beginning of one more: the messages are given to the handler once
-- each, in their order, whether they are parsed or not, and if it returns on all of them, the beginning
-- is kept. (No message has a "#" after its first byte, and the beginning does not end in "!".)
pub process_buffer-stream :
    {S : Type 0} (print : Bool) (handle : Text → S → Outcome (Bool × S)) (ws : List Text) (t : Text)
    (s : S)
    → All (Free 35) ws
    → Free 35 t
    → is_complete (35 ∷ t) ≡ false
    → process_buffer print handle (stream ws (35 ∷ t)) s
      ≡ (handle_all handle ws s >>= (λ s'. done (some (35 ∷ t, s'))))
process_buffer-stream print handle ws t s a f open_end =
    let m = stream ws (35 ∷ t) in
    let (r, starts) = stream_start ws t in
    let (u, e) = stream_front ws (35 ∷ t) in
    process_buffer_started print handle m r s starts
    ∙ ap (λ o. o >>= (λ x. done (some (keep_from m x.0, x.1))))
        (loop-stream handle ws t [] m s a f open_end refl)
    ∙ kept (handle_all handle ws s) m (35 ∷ t) (length m - suc (length t))
        (keep_from-end u m t 35 e)
