-- ===== src/Handlers/Replies/Bounded.antt =====
-- How many blocks an answer sends.
use snowball_dag_experiment.Base.{
  ℕ, zero, suc, ◌≤◌, ◌≡◌, refl, sym, subst, ◌∙◌, inl, inr, Option, none, some, List, [], ◌∷◌, ◌++◌,
  ltb, if◌then◌else◌, length, arith, Option-cases,
}
use snowball_dag_experiment.Base.Outcome.{done, ◌>>=◌, deref, done-bind, done-deref}
use snowball_dag_experiment.Blocks.{Store, SenderInfo, NetworkBlock}
use snowball_dag_experiment.Messages.{Settings}
use snowball_dag_experiment.Messages.Chain.{AskBlock, create_process_block}
use snowball_dag_experiment.Handlers.{
  Action, write_to_one_peer, add_indirect_peer, Limits, Node, address,
}
use snowball_dag_experiment.Handlers.Replies.{send_blocks, known_block, on_ask_block}

-- Every action writes the header of a stored block to the one peer.
abbrev pub SendsHeaders : Settings → Store → SenderInfo → List Action → Type 0
SendsHeaders st s to [] = Unit {0}
SendsHeaders st s to (a ∷ l) =
    ((b : ℕ) × (nb : NetworkBlock) × (s.nb b ≡ some nb)
      × (a ≡ write_to_one_peer to.ip to.port (create_process_block st nb)))
    × SendsHeaders st s to l

send_blocks-root :
    (st : Settings) (k : ℕ) (s : Store) (to : SenderInfo) (b : ℕ)
    → s.parent b ≡ none
    → send_blocks st (suc k) s to (some b) ≡ done []
unfolding send_blocks
send_blocks-root st k s to b e = rw (e, send_blocks) refl

send_blocks-below :
    (st : Settings) (k : ℕ) (s : Store) (to : SenderInfo) (b p : ℕ)
    → s.parent b ≡ some p
    → send_blocks st (suc k) s to (some b) ≡ (
        deref (s.nb b) >>= (λ nb.
          send_blocks st k s to (some p)
          >>= (λ rest. done (write_to_one_peer to.ip to.port (create_process_block st nb) ∷ rest))))
unfolding send_blocks
send_blocks-below st k s to b p e = rw (e, send_blocks) refl

same_result : {A : Type 0} (a b : A) → done a ≡ done b → a ≡ b
same_result a b e = cc

send_blocks_lem :
    (st : Settings) (k : ℕ) (s : Store) (to : SenderInfo) (o : Option ℕ) (l : List Action)
    → send_blocks st k s to o ≡ done l
    → (length l ≤ k) × SendsHeaders st s to l
unfolding send_blocks
send_blocks_lem st zero s to o [] e = (omega arith, tt)
send_blocks_lem st zero s to o (a ∷ l) e = absurd (cc)
send_blocks_lem st (suc k) s to none [] e = (omega arith, tt)
send_blocks_lem st (suc k) s to none (a ∷ l) e = absurd (cc)
send_blocks_lem st (suc k) s to (some b) l e = elim (Option-cases (s.parent b)) [
  | inl root ↦
      let empty = same_result [] l (sym (send_blocks-root st k s to b root) ∙ e) in
      subst (λ x. (length x ≤ suc k) × SendsHeaders st s to x) empty (omega arith, tt)
  | inr (p, up) ↦
      let (nb, at, e1) =
        done-bind (deref (s.nb b)) _ (sym (send_blocks-below st k s to b p up) ∙ e) in
      let (rest, e2, e3) = done-bind (send_blocks st k s to (some p)) _ e1 in
      let (few, headers) = send_blocks_lem st k s to (some p) rest e2 in
      subst (λ x. (length x ≤ suc k) × SendsHeaders st s to x) (same_result _ l e3)
        (omega arith, ((b, nb, done-deref (s.nb b) at, refl), headers))
]

-- The node that answers an "#ask_block" keeps its state. It notes the sender as a peer and then sends
-- it headers of its own blocks: at most as many as were asked for, and at most `MAX_ASK_BLOCKS`.
pub on_ask_block-SendsHeaders :
    (st : Settings) (lim : Limits) (n n' : Node) (q : AskBlock)
    → on_ask_block st lim n q ≡ done n'
    → (l : List Action) × (n'
        ≡ record n { actions = n.actions ++ (add_indirect_peer (address q.sender) ∷ l) })
      × SendsHeaders st n.bc.store q.sender l
      × (length l ≤ q.max_number_of_blocks)
      × (length l ≤ lim.max_ask_blocks)
unfolding on_ask_block
on_ask_block-SendsHeaders st lim n n' q e =
    let k =
      if ltb q.max_number_of_blocks lim.max_ask_blocks
      then q.max_number_of_blocks
      else lim.max_ask_blocks in
    let (l, sent, e1) =
      done-bind (send_blocks st k n.bc.store q.sender (known_block n.bc q.hash q.chain_id)) _ e in
    let (few, headers) = send_blocks_lem st k n.bc.store q.sender _ l sent in
    let small : (k ≤ q.max_number_of_blocks) × (k ≤ lim.max_ask_blocks) = ground arith in
    (l, sym (same_result _ n' e1), headers, omega arith, omega arith)
