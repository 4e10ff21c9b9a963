-- ===== src/ControlPlane/Placement/Live.antt =====
-- Placements and live nodes.
use circuit_agent_cloud.Prelude.{
  ℕ, ◌≡◌, sym, subst, ◌∙◌, ◌⊎◌, inl, inr, true, false, String, ◌==◌, List, none, some, lookup,
  lookup-insert, arith, Bool-cases, Option-cases,
}
use circuit_agent_cloud.ControlPlane.State.{Node, Agent, Cloud}
use circuit_agent_cloud.ControlPlane.Placement.{
  on_live_node, scheduled_agent, schedule, is_candidate,
}
use circuit_agent_cloud.ControlPlane.Placement.Pick.{Listed}
use circuit_agent_cloud.ControlPlane.Placement.Laws.{scheduled_agent-Placed, Placed→Somewhere}

-- Every node is found under its own id, and under no other.
pub record Keyed (nodes : List (String × Node)) : Type 0 where
  pub own : (n : Node) → Listed n nodes → lookup n.node_id nodes ≡ some n
  pub keyed : (k : String) (n : Node) → lookup k nodes ≡ some n → n.node_id ≡ k

-- An agent that should run has no node, or one that is up.
abbrev pub Homed : Cloud → Agent → Type 0
Homed c a = (a.desired ≡ false) ⊎ ((a.node_id ≡ none) ⊎ (on_live_node c a ≡ true))

abbrev pub Housed : Cloud → Type 0
Housed c = (id : String) (a : Agent) → lookup id c.agents ≡ some a → Homed c a

live_same : (c c' : Cloud) (a : Agent) → c'.nodes ≡ c.nodes → on_live_node c' a ≡ on_live_node c a
unfolding on_live_node
live_same c c' a e = ground arith

pub Homed-same : (c c' : Cloud) (a : Agent) → c'.nodes ≡ c.nodes → Homed c a → Homed c' a
Homed-same c c' a e (inl idle) = inl idle
Homed-same c c' a e (inr (inl nowhere)) = inr (inl nowhere)
Homed-same c c' a e (inr (inr home)) = inr (inr (live_same c c' a e ∙ home))

placed-live :
    (c : Cloud) (a a' : Agent) (avoid : List String) (n : Node)
    → lookup n.node_id c.nodes ≡ some n
    → is_candidate c.agents a avoid n ≡ true
    → a'.node_id ≡ some n.node_id
    → on_live_node c a' ≡ true
unfolding on_live_node is_candidate
placed-live c a a' avoid n found candidate there = ground arith

pub scheduled_agent-Homed :
    (t : ℕ) (c : Cloud) (a : Agent) → Keyed c.nodes → Homed c (scheduled_agent t c a)
unfolding scheduled_agent
scheduled_agent-Homed t c a keyed = elim (Bool-cases a.desired) [
  | inr idle ↦ inl (ground arith)
  | inl want ↦ elim (Bool-cases (on_live_node c a)) [
    | inl home ↦
        let same : scheduled_agent t c a ≡ a = ground arith in
        subst (Homed c) (sym same) (inr (inr home))
    | inr homeless ↦
        elim (Placed→Somewhere t c a (scheduled_agent t c a)
          (scheduled_agent-Placed t c a want homeless)) [
            | inr nowhere ↦ inr (inl nowhere)
            | inl (n, avoid, listed, candidate, there) ↦ inr (
                inr (
                  placed-live c a (scheduled_agent t c a) avoid n (keyed.own n listed) candidate
                    there))
          ]
  ]
]

pub schedule-nodes : (t : ℕ) (id : String) (c : Cloud) → (schedule t id c).nodes ≡ c.nodes
unfolding schedule
schedule-nodes t id c = ground arith

pub schedule-Housed :
    (t : ℕ) (id : String) (c : Cloud) → Keyed c.nodes → Housed c → Housed (schedule t id c)
unfolding schedule
schedule-Housed t id c keyed housed j b h = elim (Option-cases (lookup id c.agents)) [
  | inl free ↦ Homed-same c (schedule t id c) b (schedule-nodes t id c) (housed j b (ground arith))
  | inr (a, found) ↦
      Homed-same c (schedule t id c) b (schedule-nodes t id c) (elim (Bool-cases (id == j)) [
        | inr other ↦
            housed j b (ground (arith, lookup-insert id j (scheduled_agent t c a) c.agents))
        | inl same ↦
            let e : scheduled_agent t c a ≡ b =
              ground (arith, lookup-insert id j (scheduled_agent t c a) c.agents) in
            subst (Homed c) e (scheduled_agent-Homed t c a keyed)
      ])
]
