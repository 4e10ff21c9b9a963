-- ===== src/ControlPlane/Heartbeat/Sessions.antt =====
-- The sessions of the agents that heartbeats start (`ensureSession`, `signerBlockFor`).
use circuit_agent_cloud.Prelude.{
  ℕ, ◌-◌, ◌<◌, ◌≡◌, ◌≢◌, subst, ap, inl, inr, true, false, String, ◌==◌, List, [], ◌∷◌, ◌++◌,
  Option, none, some, length, includes, lookup, arith, Bool-cases, Option-cases, eq_iff, eq_refl,
}
use circuit_agent_cloud.ControlPlane.State.{Session, Agent, Cloud, Distinct}
use circuit_agent_cloud.ControlPlane.Quota.{may_act_as}
use circuit_agent_cloud.ControlPlane.Heartbeat.{
  Custody, Assignment, starts, resides, visit, reconcile, orphans, assignments, heartbeat, Opened,
  is_current, ensure_session, signer_block_for, runtime_of, Opened, is_current, ensure_session,
}
use circuit_agent_cloud.ControlPlane.Heartbeat.Loop.{
  visit-other, ensure_session-node, started_by, started_by-append, reconcile-absent,
}
use circuit_agent_cloud.ControlPlane.Heartbeat.Laws.{orphans-started}

-- A started agent's session is for this node, if the signer always opens one.
module _ (c : Custody) (node : String) (r : List String) (f : String → String → Option Opened)
    (custody : c.open_session ≡ some f) (opens : (id n : String) → f id n ≢ none) where
  ensure_session-current :
      (id : String) (a : Agent)
      → resides node a ≡ true
      → is_current node (ensure_session c id a).session ≡ true
  unfolding ensure_session is_current
  ensure_session-current id a home = elim (Option-cases a.node_id) [
    | inl nowhere ↦ absurd (ground arith)
    | inr (n, there) ↦
        let same : n ≡ node = (eq_iff n node).0 (ground arith) in
        elim (Option-cases (f id n)) [
          | inl failed ↦ absurd (opens id n failed)
          | inr (o, opened) ↦ ground (arith, custody, there, opened, same, eq_refl node)
        ]
  ]

  -- On record, with a current session.
  abbrev pub Leased : List (String × Agent) → String → Type 0
  Leased agents id =
      (a : Agent) × (lookup id agents ≡ some a)
      × (resides node a ≡ true)
      × (is_current node a.session ≡ true)

  visit-Leased :
      (slots : ℕ) (k : String) (a : Agent)
      → resides node a ≡ true
      → started_by (visit c r slots k a).2 k ≡ true
      → (resides node (visit c r slots k a).0 ≡ true)
        × (is_current node (visit c r slots k a).0.session ≡ true)
  unfolding visit started_by
  visit-Leased slots k a home s =
      (ground (arith, ensure_session-node c k a), ground (arith, ensure_session-current k a home))

  started-Leased :
      (slots : ℕ) (agents : List (String × Agent)) (id : String)
      → Distinct agents
      → started_by (reconcile c node r slots agents).1 id ≡ true
      → Leased (reconcile c node r slots agents).0 id
  unfolding reconcile lookup started_by
  started-Leased slots [] id d s = absurd (ground arith)
  started-Leased slots ((k, a) ∷ rest) id (fresh, d) s =
      let (v, left, issued) = visit c r slots k a in
      elim (Bool-cases (k == id)) [
        | inl same ↦
            let e : k ≡ id = (eq_iff k id).0 same in
            let gone = subst (λ (x : String). lookup x rest ≡ none) e fresh in
            let (m, x, y) = reconcile-absent c node r left rest id gone in
            let (m', x', y') = reconcile-absent c node r slots rest id gone in
            let at : started_by issued k ≡ started_by issued id = ap (started_by issued) e in
            let both = started_by-append issued (reconcile c node r left rest).1 id in
            elim (Bool-cases (resides node a)) [
              | inr away ↦ absurd (ground (arith, y'))
              | inl here ↦
                  let (home, current) = visit-Leased slots k a here (ground (arith, y, at, both)) in
                  (v, ground arith, home, current)
            ]
        | inr other ↦
            let (_, t) = visit-other c node r slots k a id other in
            let both = started_by-append issued (reconcile c node r left rest).1 id in
            elim (Bool-cases (resides node a)) [
              | inr away ↦
                  let (b, found, home, current) = started-Leased slots rest id d (ground arith) in
                  (b, ground (arith, found), home, current)
              | inl here ↦
                  let (b, found, home, current) =
                    started-Leased left rest id d (ground (arith, t, both)) in
                  (b, ground (arith, found), home, current)
            ]
      ]

  -- If the ids on record are distinct, there is a signer, and it opens every session it is asked for:
  -- each agent that a heartbeat has its node start is on record with this node, and with a session that
  -- was opened for this node.
  pub heartbeat-Leased :
      (now : ℕ) (caller : Option String) (cloud cloud' : Cloud) (issued : List Assignment)
      (id : String)
      → Distinct cloud.agents
      → heartbeat c now caller node r cloud ≡ (cloud', assignments issued)
      → started_by issued id ≡ true
      → Leased cloud'.agents id
  unfolding heartbeat
  heartbeat-Leased now caller cloud cloud' issued id d h s =
      elim (Option-cases (lookup node cloud.nodes)) [
        | inl missing ↦ absurd (ground arith)
        | inr (n, found) ↦ elim (Bool-cases (may_act_as n.pubkey caller)) [
          | inr stranger ↦ absurd (ground arith)
          | inl known ↦
              let slots : ℕ = n.max_agents - length r in
              let (agents, visited) = reconcile c node r slots cloud.agents in
              let state : agents ≡ cloud'.agents = ground arith in
              let told : visited ++ orphans node agents r ≡ issued = ground arith in
              let begun : started_by visited id ≡ true = ground (
                arith,
                told,
                started_by-append visited (orphans node agents r) id,
                orphans-started node agents r id,
              ) in
              subst (λ (x : List (String × Agent)). Leased x id) state
                (started-Leased slots cloud.agents id d begun)
        ]
      ]

-- Where the signer fails, the session of another node is handed on: an agent that is to start here
-- gets the token of the session that was opened for the node it was on before.
visit_stale :
    (c : Custody) (r : List String) (slots : ℕ) (id url : String)
    (f : String → String → Option Opened) (a : Agent) (s : Session)
    → c.open_session ≡ some f
    → c.public_url ≡ some url
    → ((n : String) → f id n ≡ none)
    → a.desired ≡ true
    → includes id r ≡ false
    → 0 < slots
    → a.session ≡ some s
    → (visit c r slots id a).2
      ≡ starts id a.owner (runtime_of a.bundle) (
          some (record {
            url = url;
            agent_id = id;
            epoch = s.epoch;
            token = s.token;
            address = a.address;
            paper = a.paper;
          }))
        ∷ []
unfolding visit ensure_session signer_block_for
visit_stale c r slots id url f a s custody public fails want idle room old =
    let same : ensure_session c id a ≡ a = elim (Option-cases a.node_id) [
      | inl nowhere ↦ ground arith
      | inr (n, there) ↦ ground (arith, fails n)
    ] in
    ground (arith, same)
