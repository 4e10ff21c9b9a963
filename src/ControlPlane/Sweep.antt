-- ===== src/ControlPlane/Sweep.antt =====
-- control-plane/server.js: the sweep that runs every five seconds. It takes down the nodes that fell
-- silent, bounces the agents that did not start in time, and schedules what has no place.
pub mod Laws
pub mod Keys
use circuit_agent_cloud.Prelude.{
  ℕ, ◌+◌, Bool, true, false, not, ◌&&◌, ◌||◌, String, ◌==◌, List, [], ◌∷◌, ◌++◌, Option, none, some,
  includes, ltb, map_values, if◌then◌else◌,
}
use circuit_agent_cloud.ControlPlane.State.{
  Status, up, down, Node, State, pending, scheduled, running, stopping, stopped, failed, Agent,
  Cloud, is_up, assigned_to,
}
use circuit_agent_cloud.ControlPlane.Placement.{schedule}

-- `NODE_TIMEOUT_MS` and `STUCK_MS`.
pub record Limits : Type 0 where
  pub node_timeout_ms : ℕ
  pub stuck_ms : ℕ

-- `n.status !== 'down' && t - (n.lastSeen || 0) > NODE_TIMEOUT_MS`.
pub is_silent : Limits → ℕ → Node → Bool
is_silent l t n = is_up n.status && ltb (n.last_seen + l.node_timeout_ms) t

-- An agent that should run on the node loses its place.
pub evict : String → Agent → Agent
evict node_id a = if assigned_to node_id a then record a { node_id = none; state = failed } else a

-- The loop over the nodes.
pub time_out :
    Limits
    → ℕ
    → List (String × Node)
    → List (String × Agent)
    → List (String × Node) × List (String × Agent)
unfolding is_silent evict
time_out l t [] agents = ([], agents)
time_out l t ((id, n) ∷ rest) agents =
    let (kept_nodes, kept_agents) = time_out l t rest agents in
    let (nodes, evicted) = time_out l t rest (map_values (evict n.node_id) agents) in
    if is_silent l t n
    then ((id, record n { status = down }) ∷ nodes, evicted)
    else ((id, n) ∷ kept_nodes, kept_agents)

is_scheduled : State → Bool
is_scheduled scheduled = true
is_scheduled _ = false

is_waiting : State → Bool
is_waiting pending = true
is_waiting failed = true
is_waiting _ = false

-- `[...new Set([...xs, x])]`, where `xs` was made this way.
add_distinct : List String → String → List String
add_distinct xs x = if includes x xs then xs else xs ++ x ∷ []

-- The watchdog, on one agent.
pub bounce : Limits → ℕ → Agent → Agent
unfolding is_scheduled add_distinct
bounce l t a = elim a.node_id [
  | none ↦ a
  | some n ↦
      if a.desired && is_scheduled a.state && ltb (a.placed_at + l.stuck_ms) t
      then record a {
        failed_nodes = add_distinct a.failed_nodes n;
        place_attempts = a.place_attempts + 1;
        node_id = none;
        state = pending;
      }
      else a
]

-- The agents that the last loop goes over, by id.
pub wants_place : Agent → Bool
unfolding is_waiting
wants_place a = a.desired && elim a.node_id [ none ↦ true | some n ↦ is_waiting a.state ]

pub waiting : List (String × Agent) → List String
unfolding wants_place
waiting [] = []
waiting ((id, a) ∷ rest) = if wants_place a then id ∷ waiting rest else waiting rest

pub schedule_all : ℕ → List String → Cloud → Cloud
schedule_all t [] c = c
schedule_all t (id ∷ ids) c = schedule_all t ids (schedule t id c)

pub sweep : Limits → ℕ → Cloud → Cloud
unfolding time_out bounce waiting schedule_all
sweep l t c =
    let (nodes, agents) = time_out l t c.nodes c.agents in
    let bounced = map_values (bounce l t) agents in
    schedule_all t (waiting bounced) (record { nodes = nodes; agents = bounced })
