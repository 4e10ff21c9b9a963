-- ===== src/NodeHost/Host/Tests.antt =====
-- A host through a few events.
use circuit_agent_cloud.Prelude.{
  ◌≡◌, refl, true, List, [], ◌∷◌, none, some, length, lookup, get_elem?, same, All, arith, insert,
  erase,
}
use circuit_agent_cloud.Proto.Value.{undefined}
use circuit_agent_cloud.ControlPlane.State.{Cloud}
use circuit_agent_cloud.ControlPlane.Quota.{may_act_as}
use circuit_agent_cloud.ControlPlane.Toy.{plain, container, settled}
use circuit_agent_cloud.ControlPlane.Heartbeat.{
  Custody, Assignment, starts, assignments, heartbeat, reconcile, visit, orphans, is_orphan,
}
use circuit_agent_cloud.NodeHost.Container.{build_container_spec}
use circuit_agent_cloud.NodeHost.Toy.{site, digest, plain_order, bundle_order, idle}
use circuit_agent_cloud.NodeHost.Resolve.{Site, Order, reference_workload, resolve_workload}
use circuit_agent_cloud.NodeHost.Host.{
  Host, Rec, start, output, admits, finish_start, start_agent, stop_agent, on_exit, carry_out, ids,
}
use circuit_agent_cloud.NodeHost.Host.Cycle.{IsReady, Wire, deliver, heartbeat-carry_out}
use circuit_agent_cloud.NodeHost.Host.Unpacked.{IsSound}
use circuit_agent_cloud.NodeHost.Host.History.{
  Event, resting, wrote, ended, told_to_stop, answered, goes_on, run, EventConsistent, run-IsSound,
}
use circuit_agent_cloud.NodeHost.Host.Overlap.{finish_start-overlaps, on_exit-forgets}

abbrev next : Event
next = goes_on 1000 (λ pid. none) (λ id. undefined)

-- A beat with two starts; the second waits while the process of the first writes and ends.
abbrev events : List Event
events =
    answered (start bundle_order ∷ start plain_order ∷ [])
    ∷ next
    ∷ next
    ∷ next
    ∷ wrote 0 ((1500, output "up") ∷ [])
    ∷ ended 2000 0 (some 1)
    ∷ next
    ∷ next
    ∷ told_to_stop
    ∷ []

events-Consistent : All EventConsistent events
events-Consistent = (
  ((λ b m e f. ground (arith, e, f)), ((λ b m e f. ground (arith, e, f)), tt)),
  (tt, (tt, (tt, (tt, (tt, (tt, (tt, (tt, tt)))))))),
)

abbrev final : Host
final = elim (run site events (idle, resting)) [ none ↦ idle | some (h, p) ↦ h ]

whole_beat : run site events (idle, resting) ≡ some (final, resting)
unfolding run lookup resolve_workload same build_container_spec insert erase
whole_beat = refl

-- The bundle is pulled, verified, unpacked, and runs in a container.
unpacked_test : final.cache ≡ (digest, "agent.js" ∷ []) ∷ []
unfolding run lookup resolve_workload same build_container_spec insert erase
unpacked_test = refl

run-IsSound_example : IsSound site final
run-IsSound_example =
    run-IsSound site events idle final resting events-Consistent (omega arith, tt) whole_beat

-- One slot is left, and two starts are let in.
abbrev narrow : Site
narrow = record site { max_agents = 1 }

abbrev other_order : Order
other_order = record plain_order { id = "c" }

plain_order-IsReady : IsReady narrow plain_order
unfolding resolve_workload
plain_order-IsReady cache = (reference_workload, refl)

other_order-IsReady : IsReady narrow other_order
unfolding resolve_workload
other_order-IsReady cache = (reference_workload, refl)

finish_start-overlaps_example :
    length (finish_start narrow 9 other_order (finish_start narrow 5 plain_order idle)).agents ≡ 2
unfolding admits lookup
finish_start-overlaps_example =
    finish_start-overlaps narrow 5 9 plain_order other_order idle refl refl refl plain_order-IsReady
      other_order-IsReady refl

-- Process 0 was told to stop, and exits after the agent was started again.
abbrev old_rec : Rec
old_rec = record {
  agent = "b";
  runs = reference_workload;
  sidecar = none;
  log_buf = [];
  last_sent = 0;
  started_at = 0;
  alive = true;
}

abbrev one_running : Host
one_running = record idle { agents = ("b", 0) ∷ []; recs = old_rec ∷ [] }

abbrev after_exit : Host
after_exit = on_exit 9000 0 none (start_agent narrow 8000 plain_order (stop_agent "b" one_running))

on_exit-forgets_example :
    (lookup "b" after_exit.agents ≡ none)
    × ((new : Rec) × (get_elem? after_exit.recs 1 ≡ some new)
        × (new.agent ≡ "b")
        × (new.alive ≡ true))
unfolding stop_agent lookup erase
on_exit-forgets_example =
    on_exit-forgets narrow 8000 9000 none plain_order one_running 0 old_rec refl refl (omega arith)
      plain_order-IsReady

-- A heartbeat of the control plane, carried out.
abbrev no_custody : Custody
no_custody = record { open_session = none; public_url = none }

abbrev wire : Wire
wire id owner runtime signer_block = record plain_order { id = id }

abbrev told : List Assignment
told = starts "b" (some "owner") none none ∷ []

abbrev after_beat : Cloud
after_beat = record settled {
  nodes = ("n1", record plain { last_seen = 2000 }) ∷ ("n2", container) ∷ [];
}

told_test : heartbeat no_custody 2000 none "n1" [] settled ≡ (after_beat, assignments told)
unfolding heartbeat reconcile visit orphans is_orphan lookup insert may_act_as
told_test = refl

heartbeat-carry_out_example :
    (heartbeat no_custody 7000 none "n1"
      (ids (carry_out site 2500 (deliver wire told) idle).agents)
      after_beat).1
    ≡ assignments []
unfolding lookup ids resolve_workload
heartbeat-carry_out_example =
    heartbeat-carry_out site wire no_custody no_custody 2000 2500 7000 none "n1" idle settled
      after_beat plain told (λ id owner runtime b. refl) ((λ cache. (reference_workload, refl)), tt)
      (refl, tt) refl (omega arith) told_test
