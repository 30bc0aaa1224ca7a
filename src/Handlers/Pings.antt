-- ===== src/Handlers/Pings.antt =====
-- The handler of "#ping", and `add_ping` of Snowball_Main/code/MyServer.cpp. The file of the pings is left
-- out.
pub mod Once
use snowball_dag_experiment.Base.{
  ℕ, ◌+◌, ◌%◌, ◌^◌, Bool, true, false, Option, none, some, List, [], ◌∷◌, ◌++◌, ℤ, pos, ltb_ℤ,
  eqb_ℤ, Text, if◌then◌else◌,
}
use snowball_dag_experiment.Base.Assoc.{text_key, find, has, insert, assign}
use snowball_dag_experiment.Blocks.{SenderInfo}
use snowball_dag_experiment.Waiting.{to_int}
use snowball_dag_experiment.Messages.{Settings}
use snowball_dag_experiment.Messages.Round.{Ping, create_ping}
use snowball_dag_experiment.Handlers.{
  Action, write_to_all_peers, add_indirect_peer, Node, act, address,
}

-- Whether the ping is passed on, and the new map.
unfoldable pub add_ping : List (Text × ℤ) → Text → ℤ → Bool → Bool × List (Text × ℤ)
add_ping pings tt dnext overwrite =
    if overwrite
    then elim (find tt pings) [
      | none ↦ (true, insert tt dnext pings)
      | some seen ↦ if ltb_ℤ dnext seen then (true, assign tt dnext pings) else (false, pings)
    ]
    else if has tt pings
    then (false, pings)
    else (true, insert tt dnext pings)

-- The ping for the next peers.
unfoldable pub pass_on : Settings → Ping → Action
pass_on st q = write_to_all_peers (create_ping st q.tt ((q.dnext + 1) % 2 ^ 32) q.tsec q.mode)

unfoldable pub on_ping : Settings → Node → Ping → Node
unfolding add_ping pass_on act address
on_ping st n q =
    let added = add_ping n.pings q.tt (to_int q.dnext) (eqb_ℤ q.mode (pos 1)) in
    let n1 = act (record n { pings = added.1 }) (add_indirect_peer (address q.sender) ∷ []) in
    if added.0 then act n1 (pass_on st q ∷ []) else n1
