-- ===== src/Signer/Trade/Budget.antt =====
-- The owner's limits on what an agent trades.
use circuit_agent_cloud.Prelude.{
  ℕ, ◌+◌, ◌-◌, ◌≤◌, ◌<◌, ◌≡◌, refl, inl, inr, true, false, not, ◌&&◌, String, some, lookup,
  lookup-insert_self, arith, Option-cases, if◌then◌else◌, ◌≢◌, nat_eq,
}
use circuit_agent_cloud.Proto.Value.{is_falsy}
use circuit_agent_cloud.Signer.State.{ok, Agent, Signer, Runtime, utc_day}
use circuit_agent_cloud.VerifiedIntent.Rule.{Intent}
use circuit_agent_cloud.Signer.Trade.{
  Body, Pending, Reply, refused, signed, submitting, put, roll_day, settle, trade, intent, fence,
  gate, policy_checks, amount_checks, includes_value, off_allowlist,
}
use circuit_agent_cloud.Signer.Trade.Effect.{Result-cases}

-- What the policy's checks established about an intent.
pub record Permitted (now : ℕ) (a : Agent) (i : Intent) : Type 0 where
  pub kind : includes_value i.kind a.policy.allow ≡ true
  pub not_denied : (not (is_falsy i.token) && includes_value i.token a.policy.deny_tokens) ≡ false
  pub allowlist : off_allowlist i.token a.policy.allow_tokens ≡ false
  pub cooled : a.last_trade_ts + a.policy.cooldown_ms ≤ now

policy_checks-Permitted :
    (now : ℕ) (a : Agent) (i : Intent) → policy_checks now a i ≡ ok tt → Permitted now a i
unfolding policy_checks
policy_checks-Permitted now a i h = ground arith

amount_checks-fits :
    (rt : Runtime) (a : Agent) (b : Body) (n : ℕ)
    → amount_checks rt a b ≡ ok n
    → a.policy.paper ≡ true
    → (0 < n) × (n ≤ a.policy.max_notional_sol) × (a.day_spent_sol + n ≤ a.policy.max_daily_sol)
unfolding amount_checks
amount_checks-fits rt a b n h p = ground arith

-- The agent after a paper trade of size `n`.
abbrev pub booked : ℕ → Agent → ℕ → Agent
booked now a n = record a { day_spent_sol = a.day_spent_sol + n; last_trade_ts = now }

settle-signed :
    (rt : Runtime) (now : ℕ) (s : Signer) (a : Agent) (b : Body) (size : ℕ) (s' : Signer)
    (sig : String) (n total : ℕ)
    → settle rt now s a b size ≡ (s', signed sig n total)
    → (a.policy.paper ≡ true)
      × (n ≡ size)
      × (total ≡ a.day_spent_sol + size)
      × (s' ≡ put s (booked now a size))
unfolding settle
settle-signed rt now s a b size s' sig n total h = ground arith

pub settle-submitting :
    (rt : Runtime) (now : ℕ) (s : Signer) (a : Agent) (b : Body) (size : ℕ) (s' : Signer)
    (p : Pending)
    → settle rt now s a b size ≡ (s', submitting p)
    → (a.policy.paper ≡ false)
      × (s' ≡ put s a)
      × (p.remaining_daily_sol ≡ a.policy.max_daily_sol - a.day_spent_sol)
      × (p.max_notional_sol ≡ a.policy.max_notional_sol)
      × (p.agent_id ≡ a.id)
      × (p.ts ≡ now)
unfolding settle
settle-submitting rt now s a b size s' p h = ground arith

-- The stages that an intent passed on its way to the signature.
pub record Passed (rt : Runtime) (now : ℕ) (id : String) (b : Body) (s : Signer) (a : Agent)
    : Type 0 where
  pub found : lookup id s.agents ≡ some a
  pub fenced : fence rt a b ≡ ok tt
  pub gated : (gate rt now a b s.nonces).0 ≡ ok tt
  pub checked : policy_checks now a b.intent ≡ ok tt
  pub permitted : Permitted now a b.intent

-- Unless an intent is refused it passed every stage and was settled.
pub intent-settles :
    (rt : Runtime) (now : ℕ) (id : String) (b : Body) (s s' : Signer) (r : Reply)
    → intent rt now id b s ≡ (s', r)
    → ((status : ℕ) (code : String) → r ≢ refused status code)
    → (a : Agent) × (size : ℕ) × Passed rt now id b s a
      × (amount_checks rt (roll_day now a) b ≡ ok size)
      × (settle rt now (record s { nonces = (gate rt now a b s.nonces).1 }) (roll_day now a) b size
          ≡ (s', r))
unfolding intent trade
intent-settles rt now id b s s' r h not_refused = elim (Option-cases (lookup id s.agents)) [
  | inl e ↦ absurd (not_refused 404 "no-agent" (ground arith))
  | inr (a, e) ↦ elim (Result-cases (fence rt a b)) [
    | inr (status, code, f) ↦ absurd (not_refused status code (ground arith))
    | inl (_, f) ↦ elim (Result-cases (gate rt now a b s.nonces).0) [
      | inr (status, code, g) ↦ absurd (not_refused status code (ground arith))
      | inl (_, g) ↦ elim (Result-cases (policy_checks now a b.intent)) [
        | inr (status, code, k) ↦ absurd (not_refused status code (ground arith))
        | inl (_, k) ↦ elim (Result-cases (amount_checks rt (roll_day now a) b)) [
          | inr (status, code, m) ↦ absurd (not_refused status code (ground arith))
          | inl (size, m) ↦ (
            a,
            size,
            record {
              found = e;
              fenced = f;
              gated = g;
              checked = k;
              permitted = policy_checks-Permitted now a b.intent k;
            },
            m,
            ground arith,
          )
        ]
      ]
    ]
  ]
]

-- What was spent on the current day.
abbrev pub spent_today : ℕ → Agent → ℕ
spent_today now a = if nat_eq a.day (utc_day now) then a.day_spent_sol else 0

pub roll_day_fields :
    (now : ℕ) (a : Agent)
    → ((roll_day now a).day_spent_sol ≡ spent_today now a)
      × ((roll_day now a).policy ≡ a.policy)
      × ((roll_day now a).id ≡ a.id)
      × ((roll_day now a).day ≡ utc_day now)
unfolding roll_day
roll_day_fields now a = ground arith

-- A paper trade is signed only for the holder of the session, past the gate and the policy; its size
-- is at most the cap of one trade, and with it the day's total stays within the day's cap. The agent
-- on file afterwards carries this total, the current day and the time of the trade.
pub intent-signed_within :
    (rt : Runtime) (now : ℕ) (id : String) (b : Body) (s s' : Signer) (sig : String) (n total : ℕ)
    → intent rt now id b s ≡ (s', signed sig n total)
    → (a : Agent) × Passed rt now id b s a
      × (0 < n)
      × (n ≤ a.policy.max_notional_sol)
      × (total ≡ spent_today now a + n)
      × (total ≤ a.policy.max_daily_sol)
      × ((a' : Agent) × (lookup a.id s'.agents ≡ some a')
          × (a'.day_spent_sol ≡ total)
          × (a'.day ≡ utc_day now)
          × (a'.last_trade_ts ≡ now))
intent-signed_within rt now id b s s' sig n total h =
    let (a, size, passed, sized, settled) =
      intent-settles rt now id b s s' (signed sig n total) h (λ status code e. cc) in
    let rolled : Agent = roll_day now a in
    let s1 : Signer = record s { nonces = (gate rt now a b s.nonces).1 } in
    let (paper, same, sum, state) = settle-signed rt now s1 rolled b size s' sig n total settled in
    let (spent, policy, id_eq, day) = roll_day_fields now a in
    let (positive, small, fits) = amount_checks-fits rt rolled b size sized paper in
    let a' : Agent = booked now rolled size in
    (
      a,
      passed,
      omega arith,
      ground arith,
      omega arith,
      ground arith,
      (
        a',
        ground (arith, state, id_eq, lookup-insert_self rolled.id a' s.agents),
        omega arith,
        day,
        refl,
      ),
    )
