-- ===== src/ControlPlane/History.antt =====
-- The requests to control-plane/server.js and its sweeps, in sequence.
pub mod Laws
pub mod Ids
use circuit_agent_cloud.Prelude.{ℕ, Bool, String, List, [], ◌∷◌, Option}
use circuit_agent_cloud.Proto.Value.{Value}
use circuit_agent_cloud.ControlPlane.State.{Agent, Cloud, Manifest}
use circuit_agent_cloud.ControlPlane.Sweep.{Limits, sweep}
use circuit_agent_cloud.ControlPlane.Access.{Wallet, start, stop, destroy}
use circuit_agent_cloud.ControlPlane.Heartbeat.{Custody, heartbeat}
use circuit_agent_cloud.ControlPlane.Nodes.{Registration, register, report, trust}
use circuit_agent_cloud.ControlPlane.Create.{Provision, complete, hand_over}

pub data Event : Type 0 where
  registers : ℕ → Option String → Registration → Event
  beats : Custody → ℕ → Option String → String → List String → Event
  reports : ℕ → Option String → String → Value → Event
  trusts : Bool → String → Bool → Event
  -- The agent that a creation drafted before.
  creates : Agent → Provision → Event
  starts : Bool → ℕ → Option String → String → Event
  stops : Bool → Option String → String → Event
  destroys : Bool → Option String → String → Wallet → Event
  hands_over : (Manifest → Bool) → Bool → Option String → String → Option String → Bool → Event
  sweeps : Limits → ℕ → Event

unfoldable pub step : Event → Cloud → Cloud
step (registers now caller r) c = (register now caller r c).0
step (beats cu now caller node running_ids) c = (heartbeat cu now caller node running_ids c).0
step (reports now caller id health) c = (report now caller id health [] c []).0
step (trusts configured id mark) c = (trust configured id mark c).0
step (creates a p) c = (complete a p c).0
step (starts strict now caller id) c = (start strict now caller id c).0
step (stops strict caller id) c = (stop strict caller id c).0
step (destroys strict caller id wallet) c = (destroy strict caller id wallet c).0
step (hands_over verify strict caller id owner agrees) c =
    (hand_over verify strict caller id owner agrees c).0
step (sweeps l t) c = sweep l t c

unfoldable pub run : Cloud → List Event → Cloud
unfolding step
run c [] = c
run c (e ∷ es) = run (step e c) es
