-- ===== src/ControlPlane/Tests.antt =====
-- The control plane at a concrete state.
use circuit_agent_cloud.Prelude.{List}
use circuit_agent_cloud.Prelude.{insert, String}
use circuit_agent_cloud.Prelude.{arith, eq_iff, subst, inl, inr}
use circuit_agent_cloud.Prelude.{◌≡◌, refl, [], ◌∷◌, some, none, true, false, lookup}
use circuit_agent_cloud.ControlPlane.Toy.{guest, small, resident, settled}
use circuit_agent_cloud.ControlPlane.Quota.{Hits, rate_limit}
use circuit_agent_cloud.ControlPlane.State.{Node, is_up}
use circuit_agent_cloud.ControlPlane.Placement.{scheduled_agent, schedule, on_live_node}
use circuit_agent_cloud.ControlPlane.Placement.Laws.{
  Placed, scheduled_agent-Placed, Within, schedule-Within,
}
use circuit_agent_cloud.ControlPlane.Placement.Pick.{Listed}
use circuit_agent_cloud.ControlPlane.Placement.Live.{Keyed, Housed, Homed}
use circuit_agent_cloud.ControlPlane.Sweep.{sweep}
use circuit_agent_cloud.ControlPlane.Sweep.Laws.{sweep-Housed}
use circuit_agent_cloud.ControlPlane.Access.Reads.{
  forbidden, request_withdrawal, request_export, show_agent, show_logs,
}
use circuit_agent_cloud.ControlPlane.Access
use circuit_agent_cloud.ControlPlane.Access.{
  start, stop, destroy, not_yours, wiped, lacks_signature,
}
use circuit_agent_cloud.ControlPlane.Access.Laws.{not_owner-refused}

homeless : on_live_node small guest ≡ false
unfolding on_live_node
homeless = refl

scheduled_agent-Placed_example : Placed 2000 small guest (scheduled_agent 2000 small guest)
scheduled_agent-Placed_example = scheduled_agent-Placed 2000 small guest refl homeless

schedule-Within_example : Within small "n2" (schedule 2000 "a" small).agents
schedule-Within_example = schedule-Within 2000 "a" small "n2"

own_id : (n : Node) → Listed n small.nodes → lookup n.node_id small.nodes ≡ some n
unfolding lookup
own_id n (inl e) = subst (λ w. lookup w.node_id small.nodes ≡ some w) e refl
own_id n (inr (inl e)) = subst (λ w. lookup w.node_id small.nodes ≡ some w) e refl
own_id n (inr (inr absent)) = absurd absent

small-Keyed : Keyed small.nodes
unfolding lookup
small-Keyed = record { own = own_id; keyed = λ k n h. ground (arith, eq_iff "n1" k, eq_iff "n2" k) }

settled-Housed : Housed settled
unfolding lookup on_live_node is_up
settled-Housed id a h =
    let same : resident ≡ a = ground arith in subst (Homed settled) same (inr (inr refl))

sweep-Housed_example :
    Housed (sweep (record { node_timeout_ms = 30000; stuck_ms = 45000 }) 40000 settled)
sweep-Housed_example =
    sweep-Housed (record { node_timeout_ms = 30000; stuck_ms = 45000 }) 40000 settled small-Keyed
      settled-Housed

not_owner-refused_example :
    (start true 2000 (some "other") "b" settled ≡ (settled, not_yours))
    × (stop true (some "other") "b" settled ≡ (settled, not_yours))
    × (destroy true (some "other") "b" wiped settled ≡ (settled, not_yours))
    × (request_withdrawal true (some "other") "b" (some 5) settled ≡ forbidden)
    × (request_export true (some "other") "b" settled ≡ forbidden)
    × (show_agent true (some "other") "b" settled ≡ forbidden)
    × (show_logs true (some "other") "b" 0 settled [] ≡ forbidden)
unfolding lookup
not_owner-refused_example =
    not_owner-refused 2000 "owner" "b" (some "other") wiped (some 5) 0 [] settled resident refl refl
      (ground (arith, eq_iff "other" "owner"))

-- The second request of a minute in which two are allowed.
abbrev counted : Hits
counted = ("owner", 1000 ∷ []) ∷ []

second_passes : rate_limit 2 2000 (some "owner") counted ≡ some (("owner", 1000 ∷ 2000 ∷ []) ∷ [])
unfolding rate_limit lookup insert
second_passes = refl

abbrev old_lines : List String
old_lines = "up" ∷ []

abbrev new_lines : List String
new_lines = "down" ∷ []

-- No signature where one is demanded: 401.
unsigned_test : (start true 2000 none "b" settled).1 ≡ Access.unsigned
unfolding start lookup lacks_signature
unsigned_test = refl
