-- ===== src/ControlPlane/Sweep/Laws.antt =====
-- The places of agents after a sweep.
use circuit_agent_cloud.Prelude.{
  ℕ, ◌≡◌, refl, sym, subst, ◌⊎◌, inl, inr, true, false, String, ◌==◌, List, [], ◌∷◌, none, some,
  lookup, map_values, lookup-map_values, if◌then◌else◌, arith, eq_refl, Bool-cases, Option-cases,
}
use circuit_agent_cloud.ControlPlane.State.{Node, Agent, Cloud, down, assigned_to}
use circuit_agent_cloud.ControlPlane.Placement.{on_live_node, schedule}
use circuit_agent_cloud.ControlPlane.Placement.Pick.{Listed}
use circuit_agent_cloud.ControlPlane.Placement.Live.{
  Keyed, Homed, Housed, Homed-same, schedule-nodes, schedule-Housed,
}
use circuit_agent_cloud.ControlPlane.Sweep.{
  Limits, is_silent, evict, time_out, bounce, waiting, schedule_all, sweep,
}

-- What `time_out` makes of a node.
abbrev pub retire : Limits → ℕ → Node → Node
retire l t n = if is_silent l t n then record n { status = down } else n

pub time_out-nodes :
    (l : Limits) (t : ℕ) (nodes : List (String × Node)) (agents : List (String × Agent))
    → (time_out l t nodes agents).0 ≡ map_values (retire l t) nodes
unfolding time_out map_values
time_out-nodes l t [] agents = refl
time_out-nodes l t ((id, n) ∷ rest) agents = ground (
  arith,
  time_out-nodes l t rest agents,
  time_out-nodes l t rest (map_values (evict n.node_id) agents),
)

-- The agent was evicted, or it was not assigned to any node that fell silent.
abbrev Survives : Limits → ℕ → List (String × Node) → Agent → Type 0
Survives l t [] a = Unit
Survives l t ((id, n) ∷ rest) a =
    (is_silent l t n ≡ true → assigned_to n.node_id a ≡ false) × Survives l t rest a

abbrev Fate : Limits → ℕ → List (String × Node) → List (String × Agent) → String → Agent → Type 0
Fate l t nodes agents id a' =
    (a'.node_id ≡ none) ⊎ ((lookup id agents ≡ some a') × Survives l t nodes a')

evicted-cases :
    (k id : String) (agents : List (String × Agent)) (a' : Agent)
    → lookup id (map_values (evict k) agents) ≡ some a'
    → (a'.node_id ≡ none) ⊎ ((lookup id agents ≡ some a') × (assigned_to k a' ≡ false))
unfolding evict
evicted-cases k id agents a' h = elim (Option-cases (lookup id agents)) [
  | inl free ↦ absurd (ground (arith, lookup-map_values (evict k) id agents))
  | inr (a, found) ↦ elim (Bool-cases (assigned_to k a)) [
    | inl there ↦ inl (ground (arith, lookup-map_values (evict k) id agents))
    | inr elsewhere ↦ inr (
      ground (arith, lookup-map_values (evict k) id agents),
      ground (arith, lookup-map_values (evict k) id agents),
    )
  ]
]

time_out-Fate :
    (l : Limits) (t : ℕ) (nodes : List (String × Node)) (agents : List (String × Agent))
    (id : String) (a' : Agent)
    → lookup id (time_out l t nodes agents).1 ≡ some a'
    → Fate l t nodes agents id a'
unfolding time_out
time_out-Fate l t [] agents id a' h = inr (h, tt)
time_out-Fate l t ((k, n) ∷ rest) agents id a' h = elim (Bool-cases (is_silent l t n)) [
  | inr alive ↦ elim (time_out-Fate l t rest agents id a' (ground arith)) [
    | inl gone ↦ inl gone
    | inr (found, s) ↦ inr (found, ((λ silent. absurd (ground arith)), s))
  ]
  | inl silent ↦
      elim (time_out-Fate l t rest (map_values (evict n.node_id) agents) id a' (ground arith)) [
        | inl gone ↦ inl gone
        | inr (found, s) ↦ elim (evicted-cases n.node_id id agents a' found) [
          | inl gone ↦ inl gone
          | inr (before, free) ↦ inr (before, ((λ x. free), s))
        ]
      ]
]

-- A node that is found took part in the loop.
found-Survives :
    (l : Limits) (t : ℕ) (nodes : List (String × Node)) (k : String) (n : Node) (a : Agent)
    → lookup k nodes ≡ some n
    → Survives l t nodes a
    → is_silent l t n ≡ true
    → assigned_to n.node_id a ≡ false
unfolding lookup
found-Survives l t [] k n a h s silent = absurd (ground arith)
found-Survives l t ((j, m) ∷ rest) k n a h (x, s) silent = elim (Bool-cases (j == k)) [
  | inl same ↦
      let e : m ≡ n = ground arith in
      subst (λ w. is_silent l t w ≡ true → assigned_to w.node_id a ≡ false) e x silent
  | inr other ↦ found-Survives l t rest k n a (ground arith) s silent
]

-- An agent on a live node that did not fall silent is still on a live node.
live_after-time_out :
    (l : Limits) (t : ℕ) (c : Cloud) (agents : List (String × Agent)) (a : Agent)
    → Keyed c.nodes
    → Survives l t c.nodes a
    → a.desired ≡ true
    → on_live_node c a ≡ true
    → on_live_node (record { nodes = map_values (retire l t) c.nodes; agents = agents }) a ≡ true
unfolding on_live_node assigned_to
live_after-time_out l t c agents a keyed s want home = elim (Option-cases a.node_id) [
  | inl nowhere ↦ absurd (ground arith)
  | inr (k, there) ↦ elim (Option-cases (lookup k c.nodes)) [
    | inl missing ↦ absurd (ground arith)
    | inr (n, found) ↦ elim (Bool-cases (is_silent l t n)) [
      | inl silent ↦
          let own = keyed.keyed k n found in
          absurd (ground (arith, found-Survives l t c.nodes k n a found s silent, eq_refl k))
      | inr alive ↦ ground (arith, lookup-map_values (retire l t) k c.nodes)
    ]
  ]
]

time_out-Housed :
    (l : Limits) (t : ℕ) (c : Cloud)
    → Keyed c.nodes
    → Housed c
    → Housed (record {
      nodes = map_values (retire l t) c.nodes;
      agents = (time_out l t c.nodes c.agents).1;
    })
time_out-Housed l t c keyed housed id a' h = elim (time_out-Fate l t c.nodes c.agents id a' h) [
  | inl gone ↦ inr (inl gone)
  | inr (found, s) ↦ elim (Bool-cases a'.desired) [
    | inr idle ↦ inl idle
    | inl want ↦ elim (housed id a' found) [
      | inl idle ↦ inl idle
      | inr (inl nowhere) ↦ inr (inl nowhere)
      | inr (inr home) ↦
          inr
            (inr (live_after-time_out l t c (time_out l t c.nodes c.agents).1 a' keyed s want home))
    ]
  ]
]

retired-Listed :
    (l : Limits) (t : ℕ) (nodes : List (String × Node)) (n' : Node)
    → Listed n' (map_values (retire l t) nodes)
    → (n : Node) × Listed n nodes × (retire l t n ≡ n')
unfolding map_values
retired-Listed l t [] n' listed = absurd listed
retired-Listed l t ((id, m) ∷ rest) n' (inl e) = (m, inl refl, e)
retired-Listed l t ((id, m) ∷ rest) n' (inr listed) =
    let (n, there, e) = retired-Listed l t rest n' listed in (n, inr there, e)

retired-own :
    (l : Limits) (t : ℕ) (nodes : List (String × Node)) (n : Node)
    → lookup n.node_id nodes ≡ some n
    → lookup (retire l t n).node_id (map_values (retire l t) nodes) ≡ some (retire l t n)
retired-own l t nodes n found =
    let same_id : (retire l t n).node_id ≡ n.node_id = ground arith in
    ground (arith, lookup-map_values (retire l t) n.node_id nodes)

retired-key :
    (l : Limits) (t : ℕ) (nodes : List (String × Node))
    → Keyed nodes
    → (k : String) (n' : Node) → lookup k (map_values (retire l t) nodes) ≡ some n'
    → n'.node_id ≡ k
retired-key l t nodes keyed k n' h = elim (Option-cases (lookup k nodes)) [
  | inl missing ↦ absurd (ground (arith, lookup-map_values (retire l t) k nodes))
  | inr (n, found) ↦
      let own = keyed.keyed k n found in ground (arith, lookup-map_values (retire l t) k nodes)
]

time_out-Keyed :
    (l : Limits) (t : ℕ) (nodes : List (String × Node))
    → Keyed nodes
    → Keyed (map_values (retire l t) nodes)
time_out-Keyed l t nodes keyed = record {
  own = λ n' listed.
      let (n, there, e) = retired-Listed l t nodes n' listed in
      let found = keyed.own n there in
      subst (λ (w : Node). lookup w.node_id (map_values (retire l t) nodes) ≡ some w) e
        (retired-own l t nodes n found);
  keyed = λ k n' h. retired-key l t nodes keyed k n' h;
}

bounce-cases :
    (l : Limits) (t : ℕ) (a : Agent) → (bounce l t a ≡ a) ⊎ ((bounce l t a).node_id ≡ none)
unfolding bounce
bounce-cases l t a = ground arith

-- The watchdog leaves an agent alone or takes its node away.
bounce-Homed :
    (l : Limits) (t : ℕ) (c c' : Cloud) (a : Agent)
    → c'.nodes ≡ c.nodes
    → Homed c a
    → Homed c' (bounce l t a)
bounce-Homed l t c c' a e h = elim (bounce-cases l t a) [
  | inl same ↦ subst (Homed c') (sym same) (Homed-same c c' a e h)
  | inr nowhere ↦ inr (inl nowhere)
]

bounce-Housed :
    (l : Limits) (t : ℕ) (nodes : List (String × Node)) (agents : List (String × Agent))
    → Housed (record { nodes = nodes; agents = agents })
    → Housed (record { nodes = nodes; agents = map_values (bounce l t) agents })
bounce-Housed l t nodes agents housed id a' h = elim (Option-cases (lookup id agents)) [
  | inl free ↦ absurd (ground (arith, lookup-map_values (bounce l t) id agents))
  | inr (a, found) ↦
      let e : bounce l t a ≡ a' = ground (arith, lookup-map_values (bounce l t) id agents) in
      let c1 : Cloud = record { nodes = nodes; agents = agents } in
      let c2 : Cloud = record { nodes = nodes; agents = map_values (bounce l t) agents } in
      subst (Homed c2) e (bounce-Homed l t c1 c2 a refl (housed id a found))
]

schedule_all-Housed :
    (t : ℕ) (ids : List String) (c : Cloud)
    → Keyed c.nodes
    → Housed c
    → Housed (schedule_all t ids c)
unfolding schedule_all
schedule_all-Housed t [] c keyed housed = housed
schedule_all-Housed t (id ∷ ids) c keyed housed =
    schedule_all-Housed t ids (schedule t id c) (subst Keyed (sym (schedule-nodes t id c)) keyed)
      (schedule-Housed t id c keyed housed)

-- If every node is found under its own id, and every agent that should run has no node or one that is
-- up: the same holds of the agents after a sweep, at whatever time and with whatever limits, with the
-- nodes that fell silent taken down.
pub sweep-Housed :
    (l : Limits) (t : ℕ) (c : Cloud) → Keyed c.nodes → Housed c → Housed (sweep l t c)
unfolding sweep
sweep-Housed l t c keyed housed =
    let agents = (time_out l t c.nodes c.agents).1 in
    let retired = map_values (retire l t) c.nodes in
    let bounced : List (String × Agent) = map_values (bounce l t) agents in
    let goal : Housed
        (schedule_all t (waiting bounced) (record { nodes = retired; agents = bounced })) =
      schedule_all-Housed t (waiting bounced) (record { nodes = retired; agents = bounced })
        (time_out-Keyed l t c.nodes keyed)
        (bounce-Housed l t retired agents (time_out-Housed l t c keyed housed)) in
    subst
      (λ (w : List (String × Node)).
        Housed (schedule_all t (waiting bounced) (record { nodes = w; agents = bounced })))
      (sym (time_out-nodes l t c.nodes c.agents)) goal
