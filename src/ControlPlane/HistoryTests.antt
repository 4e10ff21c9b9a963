-- ===== src/ControlPlane/HistoryTests.antt =====
-- Heartbeats, creations and histories at a concrete state.
use circuit_agent_cloud.Prelude.{
  ◌≡◌, refl, Bool, true, String, ◌==◌, List, [], ◌∷◌, none, some, lookup, insert, arith, eq_iff,
  eq_refl,
}
use circuit_agent_cloud.ControlPlane.State.{Agent, Cloud, Manifest, BundleSpec}
use circuit_agent_cloud.ControlPlane.Toy.{plain, container, resident, settled, manifest, bundle}
use circuit_agent_cloud.ControlPlane.Quota.{rate_limit, may_act_as}
use circuit_agent_cloud.ControlPlane.Access.{bound_to, binds, no_signer}
use circuit_agent_cloud.ControlPlane.Heartbeat.{
  starts, stops, Custody, Assignment, assignments, heartbeat, reconcile, visit, orphans, is_orphan,
  is_current, resides, not_your_node,
}
use circuit_agent_cloud.ControlPlane.Heartbeat.Loop.{started_by}
use circuit_agent_cloud.ControlPlane.Heartbeat.Laws.{obey, heartbeat_settles}
use circuit_agent_cloud.ControlPlane.Heartbeat.Sessions.{heartbeat-Leased}
use circuit_agent_cloud.ControlPlane.Nodes.{Registration, forbidden, register}
use circuit_agent_cloud.ControlPlane.Nodes.Laws.{Bound}
use circuit_agent_cloud.ControlPlane.Create.{
  NewAgent, drafted, prepare, draft, is_agent_id, choose_id, manifest_id, is_alphanumeric,
}
use circuit_agent_cloud.ControlPlane.History.{Event, registers, beats, starts, destroys, run}
use circuit_agent_cloud.ControlPlane.History.Laws.{run_keeps_node}

-- A signer that opens every session.
abbrev custody : Custody
custody = record {
  open_session = some (λ id node. some (record { epoch = 2; token = "t2"; paper = true }));
  public_url = some "https://signer";
}

-- The agent of `settled` is placed on the first node, which runs something else.
abbrev leased : Agent
leased = record resident { session = some (record { epoch = 2; token = "t2"; node = "n1" }) }

abbrev after_beat : Cloud
after_beat = record {
  nodes = ("n1", record plain { last_seen = 2000 }) ∷ ("n2", container) ∷ [];
  agents = ("b", leased) ∷ [];
}

abbrev told : List Assignment
told =
    starts "b" (some "owner") none (
      some (record {
        url = "https://signer";
        agent_id = "b";
        epoch = 2;
        token = "t2";
        address = none;
        paper = true;
      }))
    ∷ stops "x"
    ∷ []

beat : heartbeat custody 2000 none "n1" ("x" ∷ []) settled ≡ (after_beat, assignments told)
unfolding heartbeat reconcile visit orphans is_orphan lookup insert may_act_as
beat = refl

heartbeat_settles_example :
    (heartbeat custody 7000 none "n1" (obey ("x" ∷ []) told) after_beat).1 ≡ assignments []
unfolding lookup
heartbeat_settles_example =
    heartbeat_settles custody custody 2000 7000 none "n1" ("x" ∷ []) settled after_beat told
      (refl, tt) beat

heartbeat-Leased_example :
    (a : Agent) × (lookup "b" after_beat.agents ≡ some a)
    × (resides "n1" a ≡ true)
    × (is_current "n1" a.session ≡ true)
unfolding lookup started_by
heartbeat-Leased_example =
    heartbeat-Leased custody "n1" ("x" ∷ [])
      (λ id node. some (record { epoch = 2; token = "t2"; paper = true })) refl (λ id n e. cc) 2000
      none settled after_beat told "b" (refl, tt) beat refl

-- The first node's id is bound to `k1`.
abbrev claim : Registration
claim = record { node_id = "n1"; sandbox = "oci"; max_agents = 100 }

abbrev events : List Event
events =
    beats custody 2000 (some "k1") "n1" ("x" ∷ [])
    ∷ destroys true (some "owner") "b" no_signer
    ∷ registers 9000 (some "k1") claim
    ∷ []

run_keeps_node_example :
    Bound "n1" "k1" (run settled events)
    × (register 9500 (some "thief") claim (run settled events) ≡ (run settled events, forbidden))
    × (heartbeat custody 9500 (some "thief") "n1" [] (run settled events)
        ≡ (run settled events, not_your_node))
unfolding lookup
run_keeps_node_example =
    run_keeps_node events "n1" "k1" "thief" settled custody 9500 claim [] (plain, refl, refl) refl
      (ground (arith, eq_iff "n1" "")) (ground (arith, eq_iff "thief" "k1"))

-- Two owners create an agent under one id at once.
abbrev bundle_of : String → BundleSpec
bundle_of owner = record bundle { manifest = some (record manifest { publisher = owner }) }

abbrev asked : String → NewAgent
asked owner = record {
  name = "dca";
  owner = none;
  bundle = some (bundle_of owner);
  require_sandbox = "";
}

abbrev empty : Cloud
empty = record { nodes = []; agents = [] }

abbrev verify : Manifest → Bool
verify m = m.signature == "sig"

prepared :
    (owner : String)
    → prepare verify 0 2000 (some owner) "new" (asked owner) empty []
      ≡ ([], drafted (draft 2000 (some owner) "a" (asked owner)))
unfolding prepare lookup bound_to rate_limit choose_id manifest_id is_agent_id is_alphanumeric binds
prepared owner = ground (arith, eq_refl owner)
