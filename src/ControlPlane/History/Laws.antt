-- ===== src/ControlPlane/History/Laws.antt =====
-- What holds of nodes and agents through all requests and sweeps.
use circuit_agent_cloud.Prelude.{
  ℕ, ◌≡◌, ◌≢◌, inl, inr, Bool, String, List, [], ◌∷◌, some, lookup, lookup-map_values, arith,
  Bool-cases, Option-cases,
}
use circuit_agent_cloud.ControlPlane.State.{Cloud}
use circuit_agent_cloud.ControlPlane.Sweep.{Limits, sweep}
use circuit_agent_cloud.ControlPlane.Sweep.Laws.{retire}
use circuit_agent_cloud.ControlPlane.Sweep.Keys.{sweep-nodes}
use circuit_agent_cloud.ControlPlane.Access.{start, stop, destroy}
use circuit_agent_cloud.ControlPlane.Heartbeat.{Custody, heartbeat, not_your_node}
use circuit_agent_cloud.ControlPlane.Nodes.{Registration, forbidden, register, report, trust}
use circuit_agent_cloud.ControlPlane.Nodes.Laws.{
  Bound, Bound-same, insert-Bound, register-Bound, heartbeat-Bound, found_there,
  stranger_turned_away,
}
use circuit_agent_cloud.ControlPlane.Create.{complete, hand_over}
use circuit_agent_cloud.ControlPlane.History.{Event, registers, beats, trusts, sweeps, step, run}

trust-Bound :
    (configured : Bool) (node : String) (mark : Bool) (id key : String) (c : Cloud)
    → Bound id key c
    → Bound id key (trust configured node mark c).0
unfolding trust
trust-Bound configured node mark id key c (n, found, bound) =
    let c' : Cloud = (trust configured node mark c).0 in
    elim (Option-cases (lookup node c.nodes)) [
      | inl missing ↦ Bound-same id key c c' (ground arith) (n, found, bound)
      | inr (m, there) ↦ elim (Bool-cases configured) [
        | inr off ↦ Bound-same id key c c' (ground arith) (n, found, bound)
        | inl on ↦
            insert-Bound node id key (record m { trusted = mark }) c c' (ground arith)
              (λ same. ground (arith, there, bound, found_there node id c n same found))
              (n, found, bound)
      ]
    ]

sweep-Bound :
    (l : Limits) (t : ℕ) (id key : String) (c : Cloud) → Bound id key c → Bound id key (sweep l t c)
sweep-Bound l t id key c (n, found, bound) = (
  retire l t n,
  ground (arith, sweep-nodes l t c, lookup-map_values (retire l t) id c.nodes, found),
  ground arith,
)

-- The steps that leave the nodes alone.
step-Bound : (e : Event) (id key : String) (c : Cloud) → Bound id key c → Bound id key (step e c)
unfolding step start stop destroy report complete hand_over
step-Bound (registers now caller r) id key c b = register-Bound now caller r id key c b
step-Bound (beats cu now caller node r) id key c b = heartbeat-Bound cu now caller node r id key c b
step-Bound (trusts configured node mark) id key c b = trust-Bound configured node mark id key c b
step-Bound (sweeps l t) id key c b = sweep-Bound l t id key c b
step-Bound e id key c b = Bound-same id key c (step e c) (ground arith) b

run-Bound :
    (es : List Event) (id key : String) (c : Cloud) → Bound id key c → Bound id key (run c es)
unfolding run
run-Bound [] id key c b = b
run-Bound (e ∷ es) id key c b = run-Bound es id key (step e c) (step-Bound e id key c b)

-- Once a node's id is bound to a key, it stays bound to it through any history of requests and sweeps,
-- and a caller with another verified key can neither register as this node nor beat as it.
pub run_keeps_node :
    (es : List Event) (id key other : String) (c : Cloud) (cu : Custody) (now : ℕ)
    (r : Registration) (running_ids : List String)
    → Bound id key c
    → r.node_id ≡ id
    → id ≢ ""
    → other ≢ key
    → Bound id key (run c es)
      × (register now (some other) r (run c es) ≡ (run c es, forbidden))
      × (heartbeat cu now (some other) id running_ids (run c es) ≡ (run c es, not_your_node))
run_keeps_node es id key other c cu now r running_ids b same named strange =
    let after = run-Bound es id key c b in
    let (x, y) =
      stranger_turned_away cu now id key other r running_ids (run c es) after same named strange in
    (after, x, y)
