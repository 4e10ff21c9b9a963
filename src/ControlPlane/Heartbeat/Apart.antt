-- ===== src/ControlPlane/Heartbeat/Apart.antt =====
-- What a heartbeat starts does not run on the node yet, and what it stops does.
use circuit_agent_cloud.Prelude.{
  ℕ, ◌-◌, ◌≡◌, inl, inr, true, false, String, ◌==◌, List, [], ◌∷◌, ◌++◌, includes, arith,
  Bool-cases, eq_iff, eq_refl, ap, subst, Option, Option-cases, lookup, length,
}
use circuit_agent_cloud.ControlPlane.State.{Agent, Cloud, Distinct}
use circuit_agent_cloud.ControlPlane.Quota.{may_act_as}
use circuit_agent_cloud.ControlPlane.Heartbeat.Laws.{orphans-stopped, orphans-started}
use circuit_agent_cloud.ControlPlane.Heartbeat.{
  Custody, Assignment, starts, stops, resides, visit, reconcile, orphans, is_orphan, assignments,
  heartbeat,
}
use circuit_agent_cloud.ControlPlane.Heartbeat.Loop.{
  started_by, stopped_by, started_by-append, stopped_by-append, visit-other, reconcile-absent,
}

-- No agent is started twice.
abbrev pub StartsOnce : List Assignment → Type 0
StartsOnce [] = Unit
StartsOnce (starts id owner runtime block ∷ rest) = (started_by rest id ≡ false) × StartsOnce rest
StartsOnce (stops id ∷ rest) = StartsOnce rest

pub StartsOnce-append :
    (xs ys : List Assignment)
    → StartsOnce xs
    → StartsOnce ys
    → ((id : String) → started_by xs id ≡ true → started_by ys id ≡ false)
    → StartsOnce (xs ++ ys)
unfolding started_by
StartsOnce-append [] ys p q apart = q
StartsOnce-append (starts id owner runtime block ∷ rest) ys (fresh, p) q apart = (
  ground (arith, fresh, started_by-append rest ys id, apart id, eq_refl id),
  StartsOnce-append rest ys p q (λ k found. apart k (ground (arith, found))),
)
StartsOnce-append (stops id ∷ rest) ys p q apart =
    StartsOnce-append rest ys p q (λ k found. apart k (ground (arith, found)))

module _ (c : Custody) (node : String) (r : List String) where
  visit-apart :
      (slots : ℕ) (k : String) (a : Agent)
      → (started_by (visit c r slots k a).2 k ≡ true → includes k r ≡ false)
        × (stopped_by (visit c r slots k a).2 k ≡ true → includes k r ≡ true)
        × StartsOnce (visit c r slots k a).2
  unfolding visit started_by stopped_by
  visit-apart slots k a = (λ s. ground (arith, s), λ s. ground (arith, s), ground arith)

  pub reconcile-apart :
      (slots : ℕ) (agents : List (String × Agent)) (id : String)
      → (started_by (reconcile c node r slots agents).1 id ≡ true → includes id r ≡ false)
        × (stopped_by (reconcile c node r slots agents).1 id ≡ true → includes id r ≡ true)
  unfolding reconcile started_by stopped_by
  reconcile-apart slots [] id = (λ s. absurd (ground (arith, s)), λ s. absurd (ground (arith, s)))
  reconcile-apart slots ((k, a) ∷ rest) id =
      let (v, left, issued) = visit c r slots k a in
      let later : List Assignment = (reconcile c node r left rest).1 in
      let (p, q) = reconcile-apart left rest id in
      let (p', q') = reconcile-apart slots rest id in
      elim (Bool-cases (k == id)) [
        | inl same ↦
            let e : k ≡ id = (eq_iff k id).0 same in
            let (s, t, once) = visit-apart slots k a in
            let there : includes k r ≡ includes id r = ap (λ (x : String). includes x r) e in
            let begun : started_by issued k ≡ started_by issued id = ap (started_by issued) e in
            let ended : stopped_by issued k ≡ stopped_by issued id = ap (stopped_by issued) e in
            (
              λ h. ground (arith, h, p, p', s, there, begun, started_by-append issued later id),
              λ h. ground (arith, h, q, q', t, there, ended, stopped_by-append issued later id),
            )
        | inr other ↦
            let (t, s) = visit-other c node r slots k a id other in
            (
              λ h. ground (arith, h, p, p', s, started_by-append issued later id),
              λ h. ground (arith, h, q, q', t, stopped_by-append issued later id),
            )
      ]

  pub reconcile-StartsOnce :
      (slots : ℕ) (agents : List (String × Agent))
      → Distinct agents
      → StartsOnce (reconcile c node r slots agents).1
  unfolding reconcile
  reconcile-StartsOnce slots [] d = tt
  reconcile-StartsOnce slots ((k, a) ∷ rest) (fresh, d) =
      let (v, left, issued) = visit c r slots k a in
      let (s, t, once) = visit-apart slots k a in
      let (m, x, y) = reconcile-absent c node r left rest k fresh in
      let whole : StartsOnce (issued ++ (reconcile c node r left rest).1) =
        StartsOnce-append issued (reconcile c node r left rest).1 once
          (reconcile-StartsOnce left rest d)
          (λ id found. elim (Bool-cases (k == id)) [
            | inl same ↦
                subst (λ (x : String). started_by (reconcile c node r left rest).1 x ≡ false)
                  ((eq_iff k id).0 same) y
            | inr other ↦
                let (t', s') = visit-other c node r slots k a id other in
                absurd (ground (arith, s', found))
          ]) in
      elim (Bool-cases (resides node a)) [
        | inl here ↦ rw here whole
        | inr away ↦ rw away (reconcile-StartsOnce slots rest d)
      ]

  pub orphans-running :
      (agents : List (String × Agent)) (id : String)
      → stopped_by (orphans node agents r) id ≡ true
      → includes id r ≡ true
  orphans-running agents id h = ground (arith, h, orphans-stopped node agents r id)

orphans-StartsOnce :
    (node : String) (agents : List (String × Agent)) (ids : List String)
    → StartsOnce (orphans node agents ids)
unfolding orphans
orphans-StartsOnce node agents [] = tt
orphans-StartsOnce node agents (id ∷ ids) = elim (Bool-cases (is_orphan node agents id)) [
  | inl orphan ↦ rw orphan (orphans-StartsOnce node agents ids)
  | inr home ↦ rw home (orphans-StartsOnce node agents ids)
]

-- The whole answer.
pub heartbeat-apart :
    (c : Custody) (now : ℕ) (caller : Option String) (node : String) (r : List String)
    (cloud cloud' : Cloud) (issued : List Assignment)
    → Distinct cloud.agents
    → heartbeat c now caller node r cloud ≡ (cloud', assignments issued)
    → StartsOnce issued
      × ((id : String) → started_by issued id ≡ true → includes id r ≡ false)
      × ((id : String) → stopped_by issued id ≡ true → includes id r ≡ true)
unfolding heartbeat
heartbeat-apart c now caller node r cloud cloud' issued d h =
    elim (Option-cases (lookup node cloud.nodes)) [
      | inl missing ↦ absurd (ground arith)
      | inr (n, found) ↦ elim (Bool-cases (may_act_as n.pubkey caller)) [
        | inr stranger ↦ absurd (ground arith)
        | inl known ↦
            let slots : ℕ = n.max_agents - length r in
            let (agents, visited) = reconcile c node r slots cloud.agents in
            let orphaned : List Assignment = orphans node agents r in
            let told : issued ≡ visited ++ orphaned = ground arith in
            rw told (
              StartsOnce-append visited orphaned
                  (reconcile-StartsOnce c node r slots cloud.agents d)
                  (orphans-StartsOnce node agents r) (λ id found. orphans-started node agents r id),
              λ id s. ground (
                arith,
                s,
                started_by-append visited orphaned id,
                orphans-started node agents r id,
                reconcile-apart c node r slots cloud.agents id,
              ),
              λ id s. ground (
                arith,
                s,
                stopped_by-append visited orphaned id,
                orphans-running c node r agents id,
                reconcile-apart c node r slots cloud.agents id,
              ),
            )
      ]
    ]
