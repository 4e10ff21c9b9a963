-- ===== src/ControlPlane/Placement.antt =====
-- control-plane/server.js: `pickNode` and `schedule`.
pub mod Pick
pub mod Laws
pub mod Live
use circuit_agent_cloud.Prelude.{
  ℕ, ◌-◌, Bool, true, false, not, ◌&&◌, String, List, [], ◌∷◌, Option, none, some, lookup, insert,
  includes, ltb, if◌then◌else◌,
}
use circuit_agent_cloud.Proto.Sandbox.{node_satisfies}
use circuit_agent_cloud.ControlPlane.State.{
  Status, up, down, Node, State, pending, scheduled, Agent, Cloud, is_up, count_assigned, needs,
}

-- The slots that are left; the source's difference may be negative, which counts as none.
pub free_slots : List (String × Agent) → Node → ℕ
free_slots agents n = n.max_agents - count_assigned n.node_id agents

-- The two filters: a live node that did not fail the agent, may run it, and has room.
pub is_candidate : List (String × Agent) → Agent → List String → Node → Bool
unfolding free_slots
is_candidate agents a avoid n =
    is_up n.status
    && not (includes n.node_id avoid)
    && node_satisfies n.sandbox n.trusted (needs a.bundle) a.require_sandbox
    && ltb 0 (free_slots agents n)

-- The first of the candidates with the most room: the head of the stable sort.
pub better : List (String × Agent) → Node → Option Node → Node
unfolding free_slots
better agents n none = n
better agents n (some best) = if ltb (free_slots agents n) (free_slots agents best) then best else n

pub pick_node : List (String × Agent) → Agent → List String → List (String × Node) → Option Node
unfolding is_candidate better
pick_node agents a avoid [] = none
pick_node agents a avoid ((id, n) ∷ rest) =
    let best = pick_node agents a avoid rest in
    if is_candidate agents a avoid n then some (better agents n best) else best

-- The agent's node is on record and up.
unfoldable pub on_live_node : Cloud → Agent → Bool
on_live_node c a = elim a.node_id [
  | none ↦ false
  | some id ↦ elim (lookup id c.nodes) [ none ↦ false | some n ↦ is_up n.status ]
]

is_empty : List String → Bool
is_empty [] = true
is_empty (x ∷ xs) = false

-- What `schedule` makes of a choice.
pub place : ℕ → Agent → Option Node → Agent
place now a none = record a { node_id = none; state = pending }
place now a (some n) = record a { node_id = some n.node_id; state = scheduled; placed_at = now }

-- The agent that `schedule` leaves; the store holds the same object.
pub scheduled_agent : ℕ → Cloud → Agent → Agent
unfolding pick_node is_empty place on_live_node
scheduled_agent now c a =
    if not a.desired
    then a
    else if on_live_node c a
    then a
    else elim (pick_node c.agents a a.failed_nodes c.nodes) [
      | some n ↦ place now a (some n)
      | none ↦
          if is_empty a.failed_nodes
          then place now a none
          else place now (record a { failed_nodes = [] }) (pick_node c.agents a [] c.nodes)
    ]

unfoldable pub schedule : ℕ → String → Cloud → Cloud
unfolding scheduled_agent
schedule now id c = elim (lookup id c.agents) [
  | none ↦ c
  | some a ↦ record c { agents = insert id (scheduled_agent now c a) c.agents }
]
