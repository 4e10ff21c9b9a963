-- ===== src/ControlPlane/Placement/Pick.antt =====
-- What `pickNode` chooses.
use circuit_agent_cloud.Prelude.{
  ℕ, ◌≤◌, ◌≡◌, refl, sym, subst, ◌⊎◌, inl, inr, true, false, String, List, [], ◌∷◌, Option, none,
  some, ltb, arith, Bool-cases,
}
use circuit_agent_cloud.ControlPlane.State.{Node, Agent}
use circuit_agent_cloud.ControlPlane.Placement.{free_slots, is_candidate, better, pick_node}

abbrev pub Listed : Node → List (String × Node) → Type 0
Listed n [] = ⊥
Listed n ((id, m) ∷ rest) = (m ≡ n) ⊎ Listed n rest

-- Every candidate has at most this room.
abbrev pub Bound : List (String × Agent) → Agent → List String → List (String × Node) → ℕ → Type 0
Bound agents a avoid [] room = Unit
Bound agents a avoid ((id, m) ∷ rest) room =
    (is_candidate agents a avoid m ≡ true → free_slots agents m ≤ room)
    × Bound agents a avoid rest room

Bound-up :
    (agents : List (String × Agent)) (a : Agent) (avoid : List String)
    (nodes : List (String × Node)) (room more : ℕ)
    → room ≤ more
    → Bound agents a avoid nodes room
    → Bound agents a avoid nodes more
Bound-up agents a avoid [] room more h b = tt
Bound-up agents a avoid ((id, m) ∷ rest) room more h (x, b) =
    ((λ c. omega (arith, x c)), Bound-up agents a avoid rest room more h b)

-- No node qualifies.
abbrev pub NoCandidate : List (String × Agent) → Agent → List String → List (String × Node) → Type 0
NoCandidate agents a avoid [] = Unit
NoCandidate agents a avoid ((id, m) ∷ rest) =
    (is_candidate agents a avoid m ≡ false) × NoCandidate agents a avoid rest

NoCandidate-Bound :
    (agents : List (String × Agent)) (a : Agent) (avoid : List String)
    (nodes : List (String × Node)) (room : ℕ)
    → NoCandidate agents a avoid nodes
    → Bound agents a avoid nodes room
NoCandidate-Bound agents a avoid [] room c = tt
NoCandidate-Bound agents a avoid ((id, m) ∷ rest) room (unfit, c) =
    ((λ fits. absurd (ground arith)), NoCandidate-Bound agents a avoid rest room c)

-- The choice is a node of the store that qualifies, and no other that qualifies has more room.
abbrev pub Chosen :
    List (String × Agent) → Agent → List String → List (String × Node) → Option Node → Type 0
Chosen agents a avoid nodes none = NoCandidate agents a avoid nodes
Chosen agents a avoid nodes (some n) =
    Listed n nodes
    × (is_candidate agents a avoid n ≡ true)
    × Bound agents a avoid nodes (free_slots agents n)

better-cases :
    (agents : List (String × Agent)) (n b : Node)
    → ((better agents n (some b) ≡ n) × (free_slots agents b ≤ free_slots agents n))
      ⊎ ((better agents n (some b) ≡ b) × (free_slots agents n ≤ free_slots agents b))
unfolding better
better-cases agents n b = elim (Bool-cases (ltb (free_slots agents n) (free_slots agents b))) [
  | inl less ↦ inr (ground arith)
  | inr more ↦ inl (ground arith)
]

-- A candidate joins the rest of the list.
join :
    (agents : List (String × Agent)) (a : Agent) (avoid : List String) (id : String) (n : Node)
    (rest : List (String × Node)) (best : Option Node)
    → is_candidate agents a avoid n ≡ true
    → Chosen agents a avoid rest best
    → Chosen agents a avoid ((id, n) ∷ rest) (some (better agents n best))
unfolding better
join agents a avoid id n rest none fits c = (
  inl refl,
  fits,
  ((λ x. omega arith), NoCandidate-Bound agents a avoid rest (free_slots agents n) c),
)
join agents a avoid id n rest (some b) fits (listed, candidate, bound) =
    elim (better-cases agents n b) [
      | inl (e, more) ↦
          subst (λ w. Chosen agents a avoid ((id, n) ∷ rest) (some w)) (sym e)
            (
              inl refl,
              fits,
              (
                (λ x. omega arith),
                Bound-up agents a avoid rest (free_slots agents b) (free_slots agents n) more bound,
              ),
            )
      | inr (e, more) ↦
          subst (λ w. Chosen agents a avoid ((id, n) ∷ rest) (some w)) (sym e)
            (inr listed, candidate, ((λ x. more), bound))
    ]

pass_over :
    (agents : List (String × Agent)) (a : Agent) (avoid : List String) (id : String) (n : Node)
    (rest : List (String × Node)) (best : Option Node)
    → is_candidate agents a avoid n ≡ false
    → Chosen agents a avoid rest best
    → Chosen agents a avoid ((id, n) ∷ rest) best
pass_over agents a avoid id n rest none unfit c = (unfit, c)
pass_over agents a avoid id n rest (some b) unfit (listed, candidate, bound) =
    (inr listed, candidate, ((λ fits. absurd (ground arith)), bound))

-- The choice is a node that is up, did not fail the agent, satisfies its bundle's isolation and has a
-- free slot, and no other such node has more free slots; there is no choice only when no node of
-- the store qualifies.
pub pick_node-Chosen :
    (agents : List (String × Agent)) (a : Agent) (avoid : List String)
    (nodes : List (String × Node))
    → Chosen agents a avoid nodes (pick_node agents a avoid nodes)
unfolding pick_node
pick_node-Chosen agents a avoid [] = tt
pick_node-Chosen agents a avoid ((id, n) ∷ rest) =
    let best = pick_node agents a avoid rest in
    elim (Bool-cases (is_candidate agents a avoid n)) [
      | inl fits ↦
          rw fits (join agents a avoid id n rest best fits (pick_node-Chosen agents a avoid rest))
      | inr unfit ↦
          rw unfit
            (pass_over agents a avoid id n rest best unfit (pick_node-Chosen agents a avoid rest))
    ]
