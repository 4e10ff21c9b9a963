-- ===== src/ControlPlane/Placement/Laws.antt =====
-- Placements and the nodes' budgets.
use circuit_agent_cloud.Prelude.{
  ℕ, ◌+◌, ◌≤◌, ◌≡◌, refl, sym, ap, subst, ◌⊎◌, inl, inr, Bool, true, false, String, ◌==◌, List, [],
  ◌∷◌, Option, none, some, lookup, insert, arith, eq_iff, Bool-cases, Option-cases,
}
use circuit_agent_cloud.ControlPlane.State.{
  Node, Agent, Cloud, count_assigned, assigned_to, pending, scheduled,
}
use circuit_agent_cloud.ControlPlane.Placement.{
  free_slots, is_candidate, pick_node, on_live_node, is_empty, place, scheduled_agent, schedule,
}
use circuit_agent_cloud.ControlPlane.Placement.Pick.{
  Listed, Bound, NoCandidate, Chosen, pick_node-Chosen,
}

abbrev as_number : Bool → ℕ
as_number true = 1
as_number false = 0

-- Replacing one agent's record changes the count by that agent alone.
count_assigned-insert :
    (k id : String) (a b : Agent) (agents : List (String × Agent))
    → lookup id agents ≡ some a
    → count_assigned k (insert id b agents) + as_number (assigned_to k a)
      ≡ count_assigned k agents + as_number (assigned_to k b)
unfolding lookup insert count_assigned
count_assigned-insert k id a b [] h = ground arith
count_assigned-insert k id a b ((j, c) ∷ rest) h = elim (Bool-cases (j == id)) [
  | inl same ↦ ground arith
  | inr other ↦ ground (arith, count_assigned-insert k id a b rest (ground arith))
]

-- On a node of the store that qualifies, where none that qualifies has more room; `avoid` are the nodes
-- that are passed over.
abbrev pub OnBest : ℕ → Cloud → Agent → List String → Agent → Type 0
OnBest now c a avoid a' =
    (n : Node) × Listed n c.nodes
    × (is_candidate c.agents a avoid n ≡ true)
    × Bound c.agents a avoid c.nodes (free_slots c.agents n)
    × (a'.node_id ≡ some n.node_id)
    × (a'.state ≡ scheduled)
    × (a'.placed_at ≡ now)

-- On the best node that did not fail the agent; or, where there is none, on the best node with all of
-- them forgiven; or, where there is none either, pending with no node.
abbrev pub Placed : ℕ → Cloud → Agent → Agent → Type 0
Placed now c a a' =
    OnBest now c a a.failed_nodes a'
    ⊎ ((NoCandidate c.agents a a.failed_nodes c.nodes
          × (a'.failed_nodes ≡ [])
          × OnBest now c a [] a')
        ⊎ (NoCandidate c.agents a [] c.nodes × (a'.node_id ≡ none) × (a'.state ≡ pending)))

-- Some node of the store that qualifies, or none.
abbrev pub Somewhere : Cloud → Agent → Agent → Type 0
Somewhere c a a' =
    ((n : Node) × (avoid : List String) × Listed n c.nodes
      × (is_candidate c.agents a avoid n ≡ true)
      × (a'.node_id ≡ some n.node_id))
    ⊎ (a'.node_id ≡ none)

pub Placed→Somewhere : (now : ℕ) (c : Cloud) (a a' : Agent) → Placed now c a a' → Somewhere c a a'
Placed→Somewhere now c a a' (inl (n, listed, candidate, _, there, _, _)) =
    inl (n, a.failed_nodes, listed, candidate, there)
Placed→Somewhere now c a a' (inr (inl (_, _, (n, listed, candidate, _, there, _, _)))) =
    inl (n, [], listed, candidate, there)
Placed→Somewhere now c a a' (inr (inr (_, nowhere, _))) = inr nowhere

picked :
    (c : Cloud) (a : Agent) (avoid : List String) (o : Option Node)
    → pick_node c.agents a avoid c.nodes ≡ o
    → Chosen c.agents a avoid c.nodes o
picked c a avoid o e =
    subst (Chosen c.agents a avoid c.nodes) e (pick_node-Chosen c.agents a avoid c.nodes)

is_empty→≡ : (xs : List String) → is_empty xs ≡ true → xs ≡ []
unfolding is_empty
is_empty→≡ [] h = refl
is_empty→≡ (x ∷ xs) h = ground arith

-- An agent that should run and has no live node comes out of `schedule` on a node of the store that
-- qualifies and did not fail it before, with no other such node having more free slots; or, if there
-- is no such node, on one that qualifies, with no other that qualifies having more free slots, and with
-- its failed nodes forgotten: both scheduled at this time; or pending with no node, and then no node
-- of the store qualifies, even those that failed it before.
pub scheduled_agent-Placed :
    (now : ℕ) (c : Cloud) (a : Agent)
    → a.desired ≡ true
    → on_live_node c a ≡ false
    → Placed now c a (scheduled_agent now c a)
unfolding scheduled_agent place is_empty
scheduled_agent-Placed now c a want homeless =
    elim (Option-cases (pick_node c.agents a a.failed_nodes c.nodes)) [
      | inr (n, e) ↦
          let (listed, candidate, bound) = picked c a a.failed_nodes (some n) e in
          inl (n, listed, candidate, bound, ground arith, ground arith, ground arith)
      | inl e ↦ elim (Bool-cases (is_empty a.failed_nodes)) [
        | inl unblocked ↦ inr (
            inr (
              subst (λ avoid. NoCandidate c.agents a avoid c.nodes)
                  (is_empty→≡ a.failed_nodes unblocked) (picked c a a.failed_nodes none e),
              ground arith,
              ground arith,
            ))
        | inr blocked ↦ elim (Option-cases (pick_node c.agents a [] c.nodes)) [
          | inr (n, e') ↦
              let (listed, candidate, bound) = picked c a [] (some n) e' in
              inr (
                inl (
                  picked c a a.failed_nodes none e,
                  ground arith,
                  (n, listed, candidate, bound, ground arith, ground arith, ground arith),
                ))
          | inl e' ↦ inr (inr (picked c a [] none e', ground arith, ground arith))
        ]
      ]
    ]

as_number_le : (b : Bool) → as_number b ≤ 1
as_number_le true = omega arith
as_number_le false = omega arith

assigned_to-nowhere : (k : String) (a : Agent) → a.node_id ≡ none → assigned_to k a ≡ false
unfolding assigned_to
assigned_to-nowhere k a h = ground arith

assigned_to-elsewhere :
    (k m : String) (a : Agent) → a.node_id ≡ some m → (m == k) ≡ false → assigned_to k a ≡ false
unfolding assigned_to
assigned_to-elsewhere k m a h other = ground arith

candidate-room :
    (agents : List (String × Agent)) (a : Agent) (avoid : List String) (n : Node)
    → is_candidate agents a avoid n ≡ true
    → count_assigned n.node_id agents + 1 ≤ n.max_agents
unfolding is_candidate free_slots
candidate-room agents a avoid n h = ground arith

-- The count after an update in which the agent's own part did not grow.
abbrev Counted : Cloud → ℕ → Agent → Agent → String → Type 0
Counted c after a a' k =
    after + as_number (assigned_to k a) ≡ count_assigned k c.agents + as_number (assigned_to k a')

schedule_same :
    (now : ℕ) (c : Cloud) (a : Agent) (k : String) {after : ℕ}
    → a.desired ≡ false
    → Counted c after a (scheduled_agent now c a) k
    → after ≤ count_assigned k c.agents
unfolding scheduled_agent
schedule_same now c a k idle counts =
    let same : scheduled_agent now c a ≡ a = ground arith in
    omega (arith, ap (λ (b : Agent). as_number (assigned_to k b)) same, counts)

schedule_home :
    (now : ℕ) (c : Cloud) (a : Agent) (k : String) {after : ℕ}
    → on_live_node c a ≡ true
    → Counted c after a (scheduled_agent now c a) k
    → after ≤ count_assigned k c.agents
unfolding scheduled_agent
schedule_home now c a k home counts =
    let same : scheduled_agent now c a ≡ a = ground arith in
    omega (arith, ap (λ (b : Agent). as_number (assigned_to k b)) same, counts)

-- What a count of agents may become.
abbrev pub Within : Cloud → String → List (String × Agent) → Type 0
Within c k agents =
    (count_assigned k agents ≤ count_assigned k c.agents)
    ⊎ ((n : Node) × Listed n c.nodes × (n.node_id ≡ k) × (count_assigned k agents ≤ n.max_agents))

scheduled_agent-Within :
    (now : ℕ) (id : String) (c : Cloud) (k : String) (a : Agent)
    → lookup id c.agents ≡ some a
    → Within c k (insert id (scheduled_agent now c a) c.agents)
scheduled_agent-Within now id c k a found =
    let a' = scheduled_agent now c a in
    let counts = count_assigned-insert k id a a' c.agents found in
    elim (Bool-cases a.desired) [
      | inr idle ↦ inl (schedule_same now c a k idle counts)
      | inl want ↦ elim (Bool-cases (on_live_node c a)) [
        | inl home ↦ inl (schedule_home now c a k home counts)
        | inr homeless ↦
            elim (Placed→Somewhere now c a a' (scheduled_agent-Placed now c a want homeless)) [
              | inr nowhere ↦
                  inl (omega (arith, ap as_number (assigned_to-nowhere k a' nowhere), counts))
              | inl (n, avoid, listed, candidate, there) ↦ elim (Bool-cases (n.node_id == k)) [
                | inr other ↦ inl (
                    omega (
                      arith,
                      ap as_number (assigned_to-elsewhere k n.node_id a' there other),
                      counts,
                    ))
                | inl here ↦
                    let at_k : n.node_id ≡ k = (eq_iff n.node_id k).0 here in
                    let room = candidate-room c.agents a avoid n candidate in
                    inr (
                      n,
                      listed,
                      at_k,
                      omega (
                        arith,
                        ap (λ (j : String). count_assigned j c.agents) at_k,
                        room,
                        as_number_le (assigned_to k a'),
                        counts,
                      ),
                    )
              ]
            ]
      ]
    ]

-- Scheduling an agent fills no node beyond its budget: on every node the count of assigned agents does
-- not rise, or the node is one of the store's and the count after is at most its budget.
pub schedule-Within :
    (now : ℕ) (id : String) (c : Cloud) (k : String) → Within c k (schedule now id c).agents
unfolding schedule
schedule-Within now id c k = elim (Option-cases (lookup id c.agents)) [
  | inl free ↦ inl (ground arith)
  | inr (a, found) ↦
      let after : (schedule now id c).agents ≡ insert id (scheduled_agent now c a) c.agents =
        ground arith in
      subst (Within c k) (sym after) (scheduled_agent-Within now id c k a found)
]
