-- ===== src/ControlPlane/Heartbeat.antt =====
-- control-plane/server.js: the heartbeat of a node, with the sessions that it opens. What a node
-- reports as running is compared with the agents on record, and the differences are its assignments.
-- The calls to the signer are answered before another request is served.
pub mod Loop
pub mod Quiet
pub mod Laws
pub mod Apart
pub mod Sessions
use circuit_agent_cloud.Prelude.{
  ℕ, zero, suc, ◌-◌, Bool, true, false, not, ◌&&◌, ◌||◌, String, ◌==◌, List, [], ◌∷◌, ◌++◌, Option,
  none, some, length, includes, lookup, insert, ltb, nat_eq, if◌then◌else◌,
}
use circuit_agent_cloud.Proto.Sandbox.{Bundle}
use circuit_agent_cloud.ControlPlane.State.{
  Status, up, Node, State, pending, running, stopping, stopped, Session, Agent, Cloud, BundleSpec,
  needs,
}
use circuit_agent_cloud.ControlPlane.Quota.{may_act_as}

-- What the signer answers when a session is opened.
pub record Opened : Type 0 where
  pub epoch : ℕ
  pub token : String
  pub paper : Bool

-- The settings: the signer that opens a session for an agent on a node, `none` where there is no
-- signer, and the address under which workloads reach it. A call that throws answers `none`.
pub record Custody : Type 0 where
  pub open_session : Option (String → String → Option Opened)
  pub public_url : Option String

-- `a.session && a.session.node === a.nodeId`.
unfoldable pub is_current : String → Option Session → Bool
is_current node none = false
is_current node (some s) = s.node == node

-- `ensureSession`.
unfoldable pub ensure_session : Custody → String → Agent → Agent
unfolding is_current
ensure_session c id a = elim c.open_session [
  | none ↦ a
  | some open_session ↦ elim a.node_id [
    | none ↦ a
    | some node ↦ if is_current node a.session then a else elim (open_session id node) [
      | none ↦ a
      | some o ↦ record a {
        session = some (record { epoch = o.epoch; token = o.token; node = node });
        paper = o.paper;
      }
    ]
  ]
]

pub record SignerBlock : Type 0 where
  pub url : String
  pub agent_id : String
  pub epoch : ℕ
  pub token : String
  pub address : Option String
  pub paper : Bool

-- `signerBlockFor`.
unfoldable pub signer_block_for : Custody → String → Agent → Option SignerBlock
signer_block_for c id a = elim c.public_url [
  | none ↦ none
  | some url ↦ elim a.session [
    | none ↦ none
    | some s ↦ some (record {
      url = url;
      agent_id = id;
      epoch = s.epoch;
      token = s.token;
      address = a.address;
      paper = a.paper;
    })
  ]
]

-- `bundleBlockFor`: the runtime that the node is told.
unfoldable pub block_runtime : Bundle → String
block_runtime b =
    if not (b.runtime == "")
    then b.runtime
    else if not (b.manifest_runtime == "")
    then b.manifest_runtime
    else "node"

pub data Assignment : Type 0 where
  -- The agent's id, its owner, the runtime of its bundle and the block for its signer.
  starts : String → Option String → Option String → Option SignerBlock → Assignment
  stops : String → Assignment

abbrev pub runtime_of : Option BundleSpec → Option String
runtime_of b = elim (needs b) [ none ↦ none | some n ↦ some (block_runtime n) ]

start_for : Custody → String → Agent → Assignment
unfolding signer_block_for block_runtime
start_for c id a = starts id a.owner (runtime_of a.bundle) (signer_block_for c id a)

abbrev pub resides : String → Agent → Bool
resides node a = elim a.node_id [ none ↦ false | some n ↦ n == node ]

-- An agent that should run and does: the watchdog's memory is cleared.
unfoldable pub confirm : Agent → Agent
confirm a = record a { state = running; place_attempts = 0; failed_nodes = [] }

-- The branches of the loop on one agent of the node, with the slots that are left.
unfoldable pub visit : Custody → List String → ℕ → String → Agent → Agent × ℕ × List Assignment
unfolding start_for ensure_session confirm
visit c running_ids slots id a =
    let leased : Agent = ensure_session c id a in
    let begun : Agent × ℕ × List Assignment = (leased, slots - 1, start_for c id leased ∷ []) in
    let here : Bool = includes id running_ids in
    if a.desired && not here
    then (if nat_eq slots 0
        then (record a { node_id = none; state = pending }, slots, [])
        else begun)
    else if a.desired
    then (confirm a, slots, [])
    else if here
    then (record a { state = stopping }, slots, stops id ∷ [])
    else (record a { state = stopped }, slots, [])

-- The loop over the agents of the node, in the order of the store.
unfoldable pub reconcile :
    Custody
    → String
    → List String
    → ℕ
    → List (String × Agent)
    → List (String × Agent) × List Assignment
unfolding visit
reconcile c node running_ids slots [] = ([], [])
reconcile c node running_ids slots ((id, a) ∷ rest) =
    let (a', left, issued) = visit c running_ids slots id a in
    let (visited, assigned) = reconcile c node running_ids left rest in
    let (others, elsewhere) = reconcile c node running_ids slots rest in
    if resides node a
    then ((id, a') ∷ visited, issued ++ assigned)
    else ((id, a) ∷ others, elsewhere)

-- The node runs something that is not assigned to it.
unfoldable pub is_orphan : String → List (String × Agent) → String → Bool
is_orphan node agents id = elim (lookup id agents) [ none ↦ true | some a ↦ not (resides node a) ]

unfoldable pub orphans : String → List (String × Agent) → List String → List Assignment
unfolding is_orphan
orphans node agents [] = []
orphans node agents (id ∷ ids) =
    if is_orphan node agents id then stops id ∷ orphans node agents ids else orphans node agents ids

pub data Answer : Type 0 where
  assignments : List Assignment → Answer
  -- Status 403, and 409.
  not_your_node unknown_node : Answer

-- The whole handler. `caller` is the key whose signature was verified; the usage and the available
-- slots on record, which nothing here reads, are left out.
unfoldable pub heartbeat :
    Custody → ℕ → Option String → String → List String → Cloud → Cloud × Answer
unfolding reconcile orphans
heartbeat c now caller node running_ids cloud = elim (lookup node cloud.nodes) [
  | none ↦ (cloud, unknown_node)
  | some n ↦
      if not (may_act_as n.pubkey caller)
      then (cloud, not_your_node)
      else let seen : Node = record n { status = up; last_seen = now } in
        let (agents, issued) =
          reconcile c node running_ids (n.max_agents - length running_ids) cloud.agents in
        (
          record { nodes = insert node seen cloud.nodes; agents = agents },
          assignments (issued ++ orphans node agents running_ids),
        )
]
