-- ===== src/ControlPlane/Heartbeat/Laws.antt =====
-- The answers to heartbeats: how many agents a node is told to start, and what is left to do once it
-- has done what it was told.
use circuit_agent_cloud.Prelude.{
  ℕ, ◌+◌, ◌-◌, ◌≤◌, ◌≡◌, refl, ap, ◌∙◌, inl, inr, Bool, true, false, not, ◌&&◌, ◌||◌, String, ◌==◌,
  List, [], ◌∷◌, ◌++◌, Option, some, length, includes, keep, lookup, insert, lookup-insert_self,
  max, arith, Bool-cases, Option-cases, eq_iff, eq_refl,
}
use circuit_agent_cloud.ControlPlane.State.{Node, Agent, Cloud, Distinct, up}
use circuit_agent_cloud.ControlPlane.Quota.{may_act_as}
use circuit_agent_cloud.ControlPlane.Heartbeat.{
  Custody, Assignment, starts, stops, resides, visit, reconcile, is_orphan, orphans, assignments,
  heartbeat,
}
use circuit_agent_cloud.ControlPlane.Heartbeat.Loop.{
  started_by, stopped_by, count_starts, started_by-append, stopped_by-append, count_starts-append,
  reconcile_slots, reconcile-absent, reconcile-Served,
}
use circuit_agent_cloud.ControlPlane.Heartbeat.Quiet.{started-resides, reconcile_quiet}

-- What runs on a node that carried out its assignments: what ran before and is not stopped, and what
-- is started.
unfoldable pub started : List Assignment → List String
started [] = []
started (starts id owner runtime block ∷ rest) = id ∷ started rest
started (stops id ∷ rest) = started rest

unfoldable pub obey : List String → List Assignment → List String
unfolding started stopped_by
obey running_ids issued = keep (λ id. not (stopped_by issued id)) running_ids ++ started issued

pub includes-append :
    (id : String) (xs ys : List String)
    → includes id (xs ++ ys) ≡ (includes id xs || includes id ys)
includes-append id [] ys = refl
includes-append id (x ∷ xs) ys = ground (arith, includes-append id xs ys)

pub includes-keep :
    (p : String → Bool) (id : String) (xs : List String)
    → includes id (keep p xs) ≡ (includes id xs && p id)
includes-keep p id [] = refl
includes-keep p id (x ∷ xs) = elim (Bool-cases (x == id)) [
  | inl same ↦
      let e : p x ≡ p id = ap p ((eq_iff x id).0 same) in ground (arith, e, includes-keep p id xs)
  | inr other ↦ ground (arith, includes-keep p id xs)
]

includes-started :
    (id : String) (issued : List Assignment) → includes id (started issued) ≡ started_by issued id
unfolding started started_by
includes-started id [] = refl
includes-started id (starts k owner runtime block ∷ rest) = ground (arith, includes-started id rest)
includes-started id (stops k ∷ rest) = ground (arith, includes-started id rest)

includes-obey :
    (id : String) (r : List String) (issued : List Assignment)
    → includes id (obey r issued)
      ≡ ((includes id r && not (stopped_by issued id)) || started_by issued id)
unfolding obey
includes-obey id r issued =
    let p : String → Bool = λ x. not (stopped_by issued x) in
    ground (
      arith,
      includes-append id (keep p r) (started issued),
      includes-keep p id r,
      includes-started id issued,
    )

module _ (node : String) (agents : List (String × Agent)) where
  pub orphans-stopped :
      (ids : List String) (id : String)
      → stopped_by (orphans node agents ids) id ≡ (includes id ids && is_orphan node agents id)
  unfolding orphans stopped_by
  orphans-stopped [] id = refl
  orphans-stopped (x ∷ xs) id = elim (Bool-cases (x == id)) [
    | inl same ↦
        let e : is_orphan node agents x ≡ is_orphan node agents id =
          ap (is_orphan node agents) ((eq_iff x id).0 same) in
        ground (arith, e, orphans-stopped xs id)
    | inr other ↦ ground (arith, orphans-stopped xs id)
  ]

  pub orphans-started :
      (ids : List String) (id : String) → started_by (orphans node agents ids) id ≡ false
  unfolding orphans started_by
  orphans-started [] id = refl
  orphans-started (x ∷ xs) id = ground (arith, orphans-started xs id)

  count_starts-orphans : (ids : List String) → count_starts (orphans node agents ids) ≡ 0
  unfolding orphans count_starts
  count_starts-orphans [] = refl
  count_starts-orphans (x ∷ xs) = ground (arith, count_starts-orphans xs)

  no_orphans :
      (ids : List String)
      → ((id : String) → includes id ids ≡ true → is_orphan node agents id ≡ false)
      → orphans node agents ids ≡ []
  unfolding orphans
  no_orphans [] h = refl
  no_orphans (x ∷ xs) h =
      let first = h x (ground (arith, eq_refl x)) in
      let rest = no_orphans xs (λ id found. h id (ground (arith, found))) in
      ground (arith, first, rest)

-- A node is told to start at most as many agents as its budget has room for beside those it reports.
pub heartbeat_starts :
    (c : Custody) (now : ℕ) (caller : Option String) (node : String) (r : List String)
    (cloud : Cloud) (n : Node) (cloud' : Cloud) (issued : List Assignment)
    → lookup node cloud.nodes ≡ some n
    → heartbeat c now caller node r cloud ≡ (cloud', assignments issued)
    → count_starts issued + length r ≤ max n.max_agents (length r)
unfolding heartbeat
heartbeat_starts c now caller node r cloud n cloud' issued found h =
    let slots : ℕ = n.max_agents - length r in
    let (agents, visited) = reconcile c node r slots cloud.agents in
    ground (
      arith,
      found,
      reconcile_slots c node r slots cloud.agents,
      count_starts-append visited (orphans node agents r),
      count_starts-orphans node agents r,
    )

module _ (c : Custody) (node : String) (r : List String) where
  pub reconcile-Distinct :
      (slots : ℕ) (agents : List (String × Agent))
      → Distinct agents
      → Distinct (reconcile c node r slots agents).0
  unfolding reconcile
  reconcile-Distinct slots [] d = tt
  reconcile-Distinct slots ((k, a) ∷ rest) (fresh, d) =
      let left : ℕ = (visit c r slots k a).1 in
      elim (Bool-cases (resides node a)) [
        | inl here ↦
            rw here
              ((reconcile-absent c node r left rest k fresh).0, reconcile-Distinct left rest d)
        | inr away ↦
            rw away
              ((reconcile-absent c node r slots rest k fresh).0, reconcile-Distinct slots rest d)
      ]

  -- After the first answer, every agent of the node is served by what then runs there.
  obey-serves :
      (slots : ℕ) (agents : List (String × Agent)) (id : String) (a : Agent)
      → Distinct agents
      → lookup id (reconcile c node r slots agents).0 ≡ some a
      → resides node a ≡ true
      → a.desired
        ≡ includes id (
            obey r (
              (reconcile c node r slots agents).1
              ++ orphans node (reconcile c node r slots agents).0 r))
  unfolding is_orphan
  obey-serves slots agents id a d found home =
      let (left, visited) = reconcile c node r slots agents in
      let orphaned : List Assignment = orphans node left r in
      ground (
        arith,
        found,
        home,
        reconcile-Served c node r slots agents id a d found home,
        includes-obey id r (visited ++ orphaned),
        stopped_by-append visited orphaned id,
        started_by-append visited orphaned id,
        orphans-stopped node left r id,
        orphans-started node left r id,
      )

  -- And what runs there is an agent of the node.
  obey-resides :
      (slots : ℕ) (agents : List (String × Agent)) (id : String)
      → Distinct agents
      → includes id (
          obey r (
            (reconcile c node r slots agents).1
            ++ orphans node (reconcile c node r slots agents).0 r))
        ≡ true
      → is_orphan node (reconcile c node r slots agents).0 id ≡ false
  obey-resides slots agents id d h =
      let (left, visited) = reconcile c node r slots agents in
      let orphaned : List Assignment = orphans node left r in
      ground (
        arith,
        includes-obey id r (visited ++ orphaned),
        stopped_by-append visited orphaned id,
        started_by-append visited orphaned id,
        orphans-stopped node left r id,
        orphans-started node left r id,
        started-resides c node r slots agents id d,
      )

-- If the ids on record are distinct and a node carries out the answer to its heartbeat, the answer to
-- its next one assigns nothing, at whatever time and whatever the signer answers, as long as no other
-- request comes between.
pub heartbeat_settles :
    (c c' : Custody) (now later : ℕ) (caller : Option String) (node : String) (r : List String)
    (cloud cloud' : Cloud) (issued : List Assignment)
    → Distinct cloud.agents
    → heartbeat c now caller node r cloud ≡ (cloud', assignments issued)
    → (heartbeat c' later caller node (obey r issued) cloud').1 ≡ assignments []
unfolding heartbeat
heartbeat_settles c c' now later caller node r cloud cloud' issued d h =
    elim (Option-cases (lookup node cloud.nodes)) [
      | inl missing ↦ absurd (ground arith)
      | inr (n, found) ↦ elim (Bool-cases (may_act_as n.pubkey caller)) [
        | inr stranger ↦ absurd (ground arith)
        | inl known ↦
            let slots : ℕ = n.max_agents - length r in
            let (agents, visited) = reconcile c node r slots cloud.agents in
            let all_issued : List Assignment = visited ++ orphans node agents r in
            let r' : List String = obey r all_issued in
            let seen : Node = record n { status = up; last_seen = now } in
            let (quiet, still) =
              reconcile_quiet c' node r' (n.max_agents - length r') agents
                (reconcile-Distinct c node r slots cloud.agents d)
                (λ id a there home. obey-serves c node r slots cloud.agents id a d there home) in
            let after : List (String × Agent) =
              (reconcile c' node r' (n.max_agents - length r') agents).0 in
            let none_left =
              no_orphans node after r'
                (λ id there. still id ∙ obey-resides c node r slots cloud.agents id d there) in
            let state : cloud' ≡ record { nodes = insert node seen cloud.nodes; agents = agents } =
              ground arith in
            let told : issued ≡ all_issued = ground arith in
            ground (arith, state, told, quiet, none_left, lookup-insert_self node seen cloud.nodes)
      ]
    ]
