-- ===== src/Signer/Trade/Live.antt =====
-- Live trades: what is checked when a swap begins, and that the same trade can begin again.
use circuit_agent_cloud.Prelude.{
  ℕ, ◌-◌, ◌≡◌, false, String, some, lookup, lookup-insert_self, arith, insert_twice, ap, ◌∙◌,
}
use circuit_agent_cloud.VerifiedIntent.Replay.{Nonces}
use circuit_agent_cloud.Signer.State.{ok, Agent, Signer, Runtime}
use circuit_agent_cloud.Signer.Change.{Keyed}
use circuit_agent_cloud.Signer.Trade.{
  Body, Pending, submitting, roll_day, settle, intent, fence, gate, policy_checks, amount_checks,
  trade,
}
use circuit_agent_cloud.Signer.Trade.Budget.{
  Passed, spent_today, roll_day_fields, settle-submitting, intent-settles,
}

-- A live trade that begins passed the same stages, and may spend what is left of the day's cap; the
-- agent on file has the new day but neither the amount nor the time of the trade.
pub intent-submitting_budget :
    (rt : Runtime) (now : ℕ) (id : String) (b : Body) (s s' : Signer) (p : Pending)
    → intent rt now id b s ≡ (s', submitting p)
    → (a : Agent) × Passed rt now id b s a
      × (a.policy.paper ≡ false)
      × (p.max_notional_sol ≡ a.policy.max_notional_sol)
      × (p.remaining_daily_sol ≡ a.policy.max_daily_sol - spent_today now a)
      × (lookup a.id s'.agents ≡ some (roll_day now a))
intent-submitting_budget rt now id b s s' p h =
    let (a, size, passed, sized, settled) =
      intent-settles rt now id b s s' (submitting p) h (λ status code e. cc) in
    let rolled : Agent = roll_day now a in
    let s1 : Signer = record s { nonces = (gate rt now a b s.nonces).1 } in
    let (live, state, remaining, notional, _, _) =
      settle-submitting rt now s1 rolled b size s' p settled in
    let (spent, policy, id_eq, day) = roll_day_fields now a in
    (
      a,
      passed,
      ground arith,
      ground arith,
      ground arith,
      ground (arith, state, id_eq, lookup-insert_self rolled.id rolled s.agents),
    )

roll_day_idem : (now : ℕ) (a : Agent) → roll_day now (roll_day now a) ≡ roll_day now a
unfolding roll_day
roll_day_idem now a = ground arith

policy_checks-roll_day :
    (now : ℕ) (a : Agent) (b : Body)
    → policy_checks now (roll_day now a) b.intent ≡ policy_checks now a b.intent
unfolding policy_checks roll_day
policy_checks-roll_day now a b = ground arith

fence-roll_day :
    (rt : Runtime) (now : ℕ) (a : Agent) (b : Body) → fence rt (roll_day now a) b ≡ fence rt a b
unfolding fence roll_day
fence-roll_day rt now a b = ground arith

gate_off :
    (rt : Runtime) (now : ℕ) (a : Agent) (b : Body) (m : Nonces)
    → a.policy.require_verified_intent ≡ false
    → gate rt now a b m ≡ (ok tt, m)
unfolding gate
gate_off rt now a b m h = ground arith

-- Settling once more from the state that a live settlement left changes nothing and begins again.
settle_again :
    (rt : Runtime) (now : ℕ) (s s' : Signer) (a : Agent) (b : Body) (size : ℕ) (p : Pending)
    → settle rt now s a b size ≡ (s', submitting p)
    → settle rt now s' a b size ≡ (s', submitting p)
unfolding settle
settle_again rt now s s' a b size p h =
    ground (arith, settle-submitting rt now s a b size s' p h, insert_twice a.id a a s.agents)

-- An intent that passes the stages is settled.
intent-eq-settle :
    (rt : Runtime) (now : ℕ) (id : String) (b : Body) (s : Signer) (a : Agent) (size : ℕ)
    (m : Nonces)
    → lookup id s.agents ≡ some a
    → fence rt a b ≡ ok tt
    → (gate rt now a b s.nonces).0 ≡ ok tt
    → (gate rt now a b s.nonces).1 ≡ m
    → policy_checks now a b.intent ≡ ok tt
    → amount_checks rt (roll_day now a) b ≡ ok size
    → intent rt now id b s ≡ settle rt now (record s { nonces = m }) (roll_day now a) b size
unfolding intent trade
intent-eq-settle rt now id b s a size m found fenced gated left checked sized =
    rw (found, fenced, gated, checked, sized, intent, trade)
      (ap (λ (n : Nonces). settle rt now (record s { nonces = n }) (roll_day now a) b size) left)

-- While a live swap is under way its amount is not counted and the cooldown does not run: without the
-- verified-intent gate, the same session can begin the same trade again at once, with the same budget.
pub intent_again :
    (rt : Runtime) (now : ℕ) (id : String) (b : Body) (s s' : Signer) (a : Agent) (p : Pending)
    → Keyed s
    → lookup id s.agents ≡ some a
    → a.policy.require_verified_intent ≡ false
    → intent rt now id b s ≡ (s', submitting p)
    → intent rt now id b s' ≡ (s', submitting p)
intent_again rt now id b s s' a p keyed found off h =
    let (c, size, passed, sized, settled) =
      intent-settles rt now id b s s' (submitting p) h (λ status code e. cc) in
    let rolled : Agent = roll_day now c in
    let s1 : Signer = record s { nonces = (gate rt now c b s.nonces).1 } in
    let (_, policy, id_eq, _) = roll_day_fields now c in
    let (_, state, _, _, _, _) = settle-submitting rt now s1 rolled b size s' p settled in
    let on_file : lookup id s'.agents ≡ some rolled = ground (
      arith,
      state,
      id_eq,
      keyed id c passed.found,
      lookup-insert_self rolled.id rolled s.agents,
    ) in
    let open_gate : gate rt now rolled b s'.nonces ≡ (ok tt, s'.nonces) =
      gate_off rt now rolled b s'.nonces (ground (arith, policy, passed.found)) in
    let again = settle_again rt now s1 s' rolled b size p settled in
    intent-eq-settle rt now id b s' rolled size s'.nonces on_file
      (fence-roll_day rt now c b ∙ passed.fenced) (λ i. (open_gate i).0) (λ i. (open_gate i).1)
      (policy_checks-roll_day now c b ∙ passed.checked)
      (ap (λ (x : Agent). amount_checks rt x b) (roll_day_idem now c) ∙ sized)
    ∙ ap (λ (x : Agent). settle rt now s' x b size) (roll_day_idem now c)
    ∙ again
