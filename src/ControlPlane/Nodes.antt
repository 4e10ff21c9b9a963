-- ===== src/ControlPlane/Nodes.antt =====
-- control-plane/server.js: the registration of a node, and a node's report on an agent.
pub mod Laws
use circuit_agent_cloud.Prelude.{
  ℕ, Bool, true, false, not, ◌||◌, String, ◌==◌, List, [], ◌∷◌, Option, none, some, lookup, insert,
  nat_eq, if◌then◌else◌,
}
use circuit_agent_cloud.Proto.Value.{Value, is_falsy}
use circuit_agent_cloud.ControlPlane.State.{Status, up, Node, Agent, Cloud}
use circuit_agent_cloud.ControlPlane.Quota.{may_act_as, append_logs}
use circuit_agent_cloud.ControlPlane.Access.{put}

-- What a node says of itself: the isolation it offers ("" if missing) and its budget.
pub record Registration : Type 0 where
  pub node_id : String
  pub sandbox : String
  pub max_agents : ℕ

pub data Reply : Type 0 where
  accepted : Reply
  -- An error without a status.
  bad_request : Reply
  -- Status 403.
  forbidden : Reply

-- `authedNode || onFile || null`.
unfoldable pub bind_key : Option String → Option String → Option String
bind_key none on_file = on_file
bind_key (some key) on_file = some key

-- `onFile || now()`.
abbrev or_now : ℕ → ℕ → ℕ
or_now on_file now = if nat_eq on_file 0 then now else on_file

-- The record that registration leaves; a mark of trust stays.
unfoldable pub registered : ℕ → Option String → Registration → Option Node → Node
unfolding bind_key
registered now caller r none = record {
  node_id = r.node_id;
  status = up;
  last_seen = now;
  max_agents = r.max_agents;
  sandbox = r.sandbox;
  trusted = false;
  pubkey = caller;
  registered_at = now;
}
registered now caller r (some n) = record n {
  node_id = r.node_id;
  status = up;
  last_seen = now;
  max_agents = r.max_agents;
  sandbox = r.sandbox;
  pubkey = bind_key caller n.pubkey;
  registered_at = or_now n.registered_at now;
}

abbrev pub key_of : Option Node → Option String
key_of none = none
key_of (some n) = n.pubkey

-- `POST /v1/nodes/register`, for a caller with this verified key.
unfoldable pub register : ℕ → Option String → Registration → Cloud → Cloud × Reply
unfolding registered
register now caller r c =
    let on_file : Option Node = lookup r.node_id c.nodes in
    if r.node_id == ""
    then (c, bad_request)
    else if not (may_act_as (key_of on_file) caller)
    then (c, forbidden)
    else (record c { nodes = insert r.node_id (registered now caller r on_file) c.nodes }, accepted)

abbrev pub Logs : Type 0
Logs = List (String × List Value)

-- `store.appendLogs`, if there are any lines.
unfoldable pub add_lines : String → List Value → Logs → Logs
add_lines id [] logs = logs
add_lines id (x ∷ xs) logs = elim (lookup id logs) [
  | none ↦ insert id (append_logs [] (x ∷ xs)) logs
  | some buf ↦ insert id (append_logs buf (x ∷ xs)) logs
]

-- Does the verified key belong to the node that runs the agent?
unfoldable pub runs_it : Cloud → Agent → Option String → Bool
runs_it c a none = true
runs_it c a (some key) = elim a.node_id [
  | none ↦ false
  | some id ↦ elim (lookup id c.nodes) [
    | none ↦ false
    | some n ↦ elim n.pubkey [ none ↦ false | some k ↦ k == key ]
  ]
]

-- `POST /v1/agents/:id/report`.
unfoldable pub report :
    ℕ → Option String → String → Value → List Value → Cloud → Logs → Cloud × Logs × Reply
unfolding add_lines runs_it
report now caller id health lines c logs = elim (lookup id c.agents) [
  | none ↦ (c, logs, bad_request)
  | some a ↦ if not (runs_it c a caller) then (c, logs, forbidden) else (
    put c id
        (record a { health = if is_falsy health then a.health else health; last_report = now }),
    add_lines id lines logs,
    accepted,
  )
]

-- `PUT /v1/nodes/:id/trust`, behind the admin's bearer check, where a key is configured.
unfoldable pub trust : Bool → String → Bool → Cloud → Cloud × Reply
trust configured id mark c = elim (lookup id c.nodes) [
  | none ↦ (c, if configured then bad_request else forbidden)
  | some n ↦
      if not configured
      then (c, forbidden)
      else (record c { nodes = insert id (record n { trusted = mark }) c.nodes }, accepted)
]
