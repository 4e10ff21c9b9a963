-- ===== src/ControlPlane/History/Ids.antt =====
-- The ids of agents through all requests and sweeps.
use circuit_agent_cloud.Prelude.{
  ℕ, ◌-◌, length, ◌≡◌, sym, subst, ◌⊎◌, ◌||◌, ◌&&◌, not, inl, inr, Bool, String, List, [], ◌∷◌,
  Option, some, lookup, insert, if◌then◌else◌, arith, Bool-cases, Option-cases,
}
use circuit_agent_cloud.ControlPlane.State.{Manifest, Agent, Cloud, Distinct}
use circuit_agent_cloud.Proto.Value.{Value, is_falsy}
use circuit_agent_cloud.ControlPlane.Quota.{may_act_as}
use circuit_agent_cloud.ControlPlane.Sweep.Keys.{sweep-Distinct, insert-Distinct, erase-Distinct}
use circuit_agent_cloud.ControlPlane.Access.{
  Reply, with_own, Wallet, start, stop, destroy, owns, lacks_signature, bound_to,
}
use circuit_agent_cloud.ControlPlane.Heartbeat.{Custody, heartbeat, reconcile}
use circuit_agent_cloud.ControlPlane.Heartbeat.Laws.{reconcile-Distinct}
use circuit_agent_cloud.ControlPlane.Nodes.{register, report, runs_it, trust}
use circuit_agent_cloud.ControlPlane.Create.{
  no_signer, unavailable, provisioned, complete, hand_over,
}
use circuit_agent_cloud.ControlPlane.History.{
  Event, registers, beats, reports, trusts, creates, starts, stops, destroys, hands_over, sweeps,
  step, run,
}

heartbeat-Distinct :
    (cu : Custody) (now : ℕ) (caller : Option String) (node : String) (r : List String) (c : Cloud)
    → Distinct c.agents
    → Distinct (heartbeat cu now caller node r c).0.agents
unfolding heartbeat
heartbeat-Distinct cu now caller node r c d =
    let c' : Cloud = (heartbeat cu now caller node r c).0 in
    elim (Option-cases (lookup node c.nodes)) [
      | inl missing ↦ let same : c.agents ≡ c'.agents = ground arith in subst Distinct same d
      | inr (n, found) ↦ elim (Bool-cases (may_act_as n.pubkey caller)) [
        | inr stranger ↦ let same : c.agents ≡ c'.agents = ground arith in subst Distinct same d
        | inl known ↦
            let slots : ℕ = n.max_agents - length r in
            let visited : (reconcile cu node r slots c.agents).0 ≡ c'.agents = ground arith in
            subst Distinct visited (reconcile-Distinct cu node r slots c.agents d)
      ]
    ]

with_own-Distinct :
    (strict : Bool) (caller : Option String) (id : String) (c : Cloud) (f : Agent → Cloud × Reply)
    → Distinct c.agents
    → ((a : Agent) → Distinct (f a).0.agents)
    → Distinct (with_own strict caller id c f).0.agents
with_own-Distinct strict caller id c f d h =
    let c' : Cloud = (with_own strict caller id c f).0 in
    elim (Option-cases (lookup id c.agents)) [
      | inl missing ↦ let same : c.agents ≡ c'.agents = ground arith in subst Distinct same d
      | inr (a, found) ↦
          elim (Bool-cases (not (lacks_signature strict caller) && owns strict a.owner caller)) [
            | inl own ↦
                let done : (f a).0.agents ≡ c'.agents = ground arith in subst Distinct done (h a)
            | inr strange ↦ let same : c.agents ≡ c'.agents = ground arith in subst Distinct same d
          ]
    ]

-- A route that changes nothing, or one record.
one-Distinct :
    (id : String) (c c' : Cloud)
    → Distinct c.agents
    → (c'.agents ≡ c.agents) ⊎ ((a : Agent) × (c'.agents ≡ insert id a c.agents))
    → Distinct c'.agents
one-Distinct id c c' d (inl same) = subst Distinct (sym same) d
one-Distinct id c c' d (inr (a, one)) = subst Distinct (sym one) (insert-Distinct id a c.agents d)

report-Distinct :
    (now : ℕ) (caller : Option String) (id : String) (health : Value) (c : Cloud)
    → Distinct c.agents
    → Distinct (report now caller id health [] c []).0.agents
unfolding report
report-Distinct now caller id health c d =
    let c' : Cloud = (report now caller id health [] c []).0 in
    elim (Option-cases (lookup id c.agents)) [
      | inl missing ↦ one-Distinct id c c' d (inl (ground arith))
      | inr (a, found) ↦ elim (Bool-cases (runs_it c a caller)) [
        | inr strange ↦ one-Distinct id c c' d (inl (ground arith))
        | inl runs ↦
            let a' : Agent = record a {
              health = if is_falsy health then a.health else health;
              last_report = now;
            } in
            one-Distinct id c c' d (inr (a', ground arith))
      ]
    ]

hand_over-Distinct :
    (verify : Manifest → Bool) (strict : Bool) (caller : Option String) (id : String)
    (owner : Option String) (agrees : Bool) (c : Cloud)
    → Distinct c.agents
    → Distinct (hand_over verify strict caller id owner agrees c).0.agents
unfolding hand_over
hand_over-Distinct verify strict caller id owner agrees c d =
    let c' : Cloud = (hand_over verify strict caller id owner agrees c).0 in
    elim (Option-cases (lookup id c.agents)) [
      | inl missing ↦ one-Distinct id c c' d (inl (ground arith))
      | inr (a, found) ↦
          elim (Bool-cases (
            lacks_signature strict caller
            || not (owns strict a.owner caller)
            || not (bound_to verify a.bundle owner id))) [
              | inl strange ↦ one-Distinct id c c' d (inl (ground arith))
              | inr own ↦ one-Distinct id c c' d (inr (record a { owner = owner }, ground arith))
            ]
    ]

step-Distinct : (e : Event) (c : Cloud) → Distinct c.agents → Distinct (step e c).agents
unfolding step start stop destroy complete register trust
step-Distinct (registers now caller r) c d =
    let same : c.agents ≡ (register now caller r c).0.agents = ground arith in subst Distinct same d
step-Distinct (beats cu now caller node r) c d = heartbeat-Distinct cu now caller node r c d
step-Distinct (reports now caller id health) c d = report-Distinct now caller id health c d
step-Distinct (trusts configured node mark) c d =
    let same : c.agents ≡ (trust configured node mark c).0.agents = ground arith in
    subst Distinct same d
step-Distinct (creates a no_signer) c d = insert-Distinct a.id a c.agents d
step-Distinct (creates a unavailable) c d = d
step-Distinct (creates a (provisioned address paper)) c d =
    insert-Distinct a.id (record a { address = some address; paper = paper }) c.agents d
step-Distinct (starts strict now caller id) c d =
    with_own-Distinct strict caller id c _ d (λ a. insert-Distinct id _ c.agents d)
step-Distinct (stops strict caller id) c d =
    with_own-Distinct strict caller id c _ d (λ a. insert-Distinct id _ c.agents d)
step-Distinct (destroys strict caller id Wallet.no_signer) c d =
    with_own-Distinct strict caller id c _ d (λ a. erase-Distinct id c.agents d)
step-Distinct (destroys strict caller id Wallet.wiped) c d =
    with_own-Distinct strict caller id c _ d (λ a. erase-Distinct id c.agents d)
step-Distinct (destroys strict caller id (Wallet.kept status)) c d =
    with_own-Distinct strict caller id c _ d (λ a. d)
step-Distinct (hands_over verify strict caller id owner agrees) c d =
    hand_over-Distinct verify strict caller id owner agrees c d
step-Distinct (sweeps l t) c d = sweep-Distinct l t c d

-- No two agents on record share an id, through any history of requests and sweeps.
pub run-Distinct : (es : List Event) (c : Cloud) → Distinct c.agents → Distinct (run c es).agents
unfolding run
run-Distinct [] c d = d
run-Distinct (e ∷ es) c d = run-Distinct es (step e c) (step-Distinct e c d)
