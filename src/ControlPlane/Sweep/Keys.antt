-- ===== src/ControlPlane/Sweep/Keys.antt =====
-- The sweep leaves the ids of nodes and agents as they are.
use circuit_agent_cloud.Prelude.{
  ℕ, ◌≡◌, refl, subst, ◌∙◌, inl, inr, String, ◌==◌, List, [], ◌∷◌, none, lookup, insert, erase,
  false, lookup-insert, lookup-erase, map_values, lookup-map_values, arith, Bool-cases,
  Option-cases, eq_iff,
}
use circuit_agent_cloud.ControlPlane.State.{Node, Agent, Cloud, Distinct}
use circuit_agent_cloud.ControlPlane.Placement.{schedule, scheduled_agent}
use circuit_agent_cloud.ControlPlane.Placement.Live.{schedule-nodes}
use circuit_agent_cloud.ControlPlane.Sweep.{
  Limits, is_silent, evict, time_out, bounce, waiting, schedule_all, sweep,
}
use circuit_agent_cloud.ControlPlane.Sweep.Laws.{retire, time_out-nodes}

schedule_all-nodes :
    (t : ℕ) (ids : List String) (c : Cloud) → (schedule_all t ids c).nodes ≡ c.nodes
unfolding schedule_all
schedule_all-nodes t [] c = refl
schedule_all-nodes t (id ∷ ids) c =
    schedule_all-nodes t ids (schedule t id c) ∙ schedule-nodes t id c

pub sweep-nodes :
    (l : Limits) (t : ℕ) (c : Cloud) → (sweep l t c).nodes ≡ map_values (retire l t) c.nodes
unfolding sweep
sweep-nodes l t c =
    let (nodes, agents) = time_out l t c.nodes c.agents in
    let bounced = map_values (bounce l t) agents in
    schedule_all-nodes t (waiting bounced) (record { nodes = nodes; agents = bounced })
    ∙ time_out-nodes l t c.nodes c.agents

pub insert-Distinct :
    (id : String) (a : Agent) (agents : List (String × Agent))
    → Distinct agents
    → Distinct (insert id a agents)
unfolding insert lookup
insert-Distinct id a [] d = (refl, tt)
insert-Distinct id a ((k, b) ∷ rest) (fresh, d) = elim (Bool-cases (k == id)) [
  | inl same ↦ rw same (fresh, d)
  | inr other ↦
      let apart : (id == k) ≡ false = ground (arith, eq_iff k id, eq_iff id k) in
      let gone : lookup k (insert id a rest) ≡ none =
        ground (arith, apart, fresh, lookup-insert id k a rest) in
      rw other (gone, insert-Distinct id a rest d)
]

pub erase-Distinct :
    (id : String) (agents : List (String × Agent)) → Distinct agents → Distinct (erase id agents)
unfolding erase
erase-Distinct id [] d = tt
erase-Distinct id ((k, b) ∷ rest) (fresh, d) = elim (Bool-cases (k == id)) [
  | inl same ↦ rw same (erase-Distinct id rest d)
  | inr other ↦
      let gone : lookup k (erase id rest) ≡ none = ground (arith, fresh, lookup-erase id k rest) in
      rw other (gone, erase-Distinct id rest d)
]

map_values-Distinct :
    (f : Agent → Agent) (agents : List (String × Agent))
    → Distinct agents
    → Distinct (map_values f agents)
unfolding map_values
map_values-Distinct f [] d = tt
map_values-Distinct f ((k, b) ∷ rest) (fresh, d) =
    (ground (arith, fresh, lookup-map_values f k rest), map_values-Distinct f rest d)

schedule_all-Distinct :
    (t : ℕ) (ids : List String) (c : Cloud)
    → Distinct c.agents
    → Distinct (schedule_all t ids c).agents
unfolding schedule_all schedule
schedule_all-Distinct t [] c d = d
schedule_all-Distinct t (id ∷ ids) c d =
    schedule_all-Distinct t ids (schedule t id c) (elim (Option-cases (lookup id c.agents)) [
      | inl missing ↦
          let same : c ≡ schedule t id c = ground arith in
          subst (λ (w : Cloud). Distinct w.agents) same d
      | inr (a, found) ↦
          let placed : insert id (scheduled_agent t c a) c.agents ≡ (schedule t id c).agents =
            ground arith in
          subst Distinct placed (insert-Distinct id (scheduled_agent t c a) c.agents d)
    ])

time_out-Distinct :
    (l : Limits) (t : ℕ) (nodes : List (String × Node)) (agents : List (String × Agent))
    → Distinct agents
    → Distinct (time_out l t nodes agents).1
unfolding time_out
time_out-Distinct l t [] agents d = d
time_out-Distinct l t ((k, n) ∷ rest) agents d = elim (Bool-cases (is_silent l t n)) [
  | inl silent ↦ rw silent (
      time_out-Distinct l t rest (map_values (evict n.node_id) agents)
        (map_values-Distinct (evict n.node_id) agents d))
  | inr alive ↦ rw alive (time_out-Distinct l t rest agents d)
]

pub sweep-Distinct :
    (l : Limits) (t : ℕ) (c : Cloud) → Distinct c.agents → Distinct (sweep l t c).agents
unfolding sweep
sweep-Distinct l t c d =
    let (nodes, agents) = time_out l t c.nodes c.agents in
    let bounced = map_values (bounce l t) agents in
    schedule_all-Distinct t (waiting bounced) (record { nodes = nodes; agents = bounced })
      (map_values-Distinct (bounce l t) agents (time_out-Distinct l t c.nodes c.agents d))
