-- ===== src/ControlPlane/State.antt =====
-- lib/store.js and control-plane/server.js: the nodes and the agents on record, in insertion order.
use circuit_agent_cloud.Prelude.{
  ℕ, suc, Bool, true, false, ◌&&◌, String, ◌==◌, ◌≡◌, lookup, List, [], ◌∷◌, Option, none, some,
  if◌then◌else◌,
}
use circuit_agent_cloud.Proto.Value.{Value}
use circuit_agent_cloud.Proto.Sandbox.{Bundle}

pub data Status : Type 0 where
  up down : Status

-- `budget.maxAgents ?? 0`, `caps.sandbox` ("" if missing), and the operator's mark.
pub record Node : Type 0 where
  pub node_id : String
  pub status : Status
  pub last_seen : ℕ
  pub max_agents : ℕ
  pub sandbox : String
  pub trusted : Bool
  -- The key that the id is bound to.
  pub pubkey : Option String
  pub registered_at : ℕ

pub data State : Type 0 where
  pending scheduled running stopping stopped failed : State

-- A manifest's fields that the binding reads.
pub record Manifest : Type 0 where
  pub publisher : String
  pub agent_id : String
  pub sha256 : String
  pub runtime : String
  pub signature : String

pub record BundleSpec : Type 0 where
  pub manifest : Option Manifest
  pub sha256 : String
  -- "" if missing.
  pub runtime : String

-- What the placement reads of a bundle.
abbrev pub needs : Option BundleSpec → Option Bundle
needs none = none
needs (some b) = some (record {
  runtime = b.runtime;
  manifest_runtime = elim b.manifest [ none ↦ "" | some m ↦ m.runtime ];
})

-- A lease at the signer, for one placement.
pub record Session : Type 0 where
  pub epoch : ℕ
  pub token : String
  pub node : String

-- `desired` is whether the agent should run; a missing time or count is 0.
pub record Agent : Type 0 where
  pub id : String
  pub owner : Option String
  pub desired : Bool
  pub state : State
  pub node_id : Option String
  pub placed_at : ℕ
  pub place_attempts : ℕ
  pub failed_nodes : List String
  pub bundle : Option BundleSpec
  pub require_sandbox : String
  pub session : Option Session
  pub address : Option String
  -- `paper !== false`.
  pub paper : Bool
  pub health : Value
  pub last_report : ℕ

pub record Cloud : Type 0 where
  pub nodes : List (String × Node)
  pub agents : List (String × Agent)

unfoldable pub is_up : Status → Bool
is_up up = true
is_up down = false

-- `a.nodeId === nodeId && a.desired === 'running'`.
unfoldable pub assigned_to : String → Agent → Bool
assigned_to node_id a = elim a.node_id [ none ↦ false | some n ↦ n == node_id && a.desired ]

-- `countAssigned`.
unfoldable pub count_assigned : String → List (String × Agent) → ℕ
count_assigned node_id [] = 0
count_assigned node_id ((id, a) ∷ rest) =
    let others = count_assigned node_id rest in if assigned_to node_id a then suc others else others

-- No id stands twice.
abbrev pub Distinct : List (String × Agent) → Type 0
Distinct [] = Unit
Distinct ((k, a) ∷ rest) = (lookup k rest ≡ none) × Distinct rest
