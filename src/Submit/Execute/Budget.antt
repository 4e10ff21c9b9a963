-- ===== src/Submit/Execute/Budget.antt =====
-- A live trade from its request to its booking: the handler of `intent` of signer/server.js around
-- `executeUltraSwap` of signer/submit.js.
use circuit_agent_cloud.Prelude.{
  ℕ, ◌+◌, ◌≤◌, ◌<◌, ◌≡◌, String, List, some, lookup, lookup-insert_self, arith, max, Bool-cases,
  inl, inr, ◌==◌,
}
use circuit_agent_cloud.Proto.Value.{Convert}
use circuit_agent_cloud.Signer.State.{ok, Agent, Signer, Runtime}
use circuit_agent_cloud.Signer.Trade.{Body, Pending, submitting, roll_day, intent, finish, gate}
use circuit_agent_cloud.Signer.Trade.Budget.{
  Passed, spent_today, roll_day_fields, settle-submitting, intent-settles,
}
use circuit_agent_cloud.Submit.Execute.{Broker, Swap, execute_ultra_swap}
use circuit_agent_cloud.Submit.Execute.Landing.{execute_ultra_swap-Landed}

-- Where the agent stands after the booking of a swap.
finish-day_spent :
    (p : Pending) (v : ℕ) (s : Signer) (a : Agent)
    → p.agent_id ≡ a.id
    → lookup a.id s.agents ≡ some a
    → (a' : Agent) × (lookup a.id (finish p v s).agents ≡ some a')
      × (a'.day_spent_sol ≤ a.day_spent_sol + v)
unfolding finish
finish-day_spent p v s a e f = elim (Bool-cases (a.address == p.address)) [
  | inl same ↦
      let a' : Agent = record a { day_spent_sol = a.day_spent_sol + v; last_trade_ts = p.ts } in
      (a', ground (arith, e, f, lookup-insert_self a.id a' s.agents), omega arith)
  | inr other ↦ (a, ground (arith, e, f), omega arith)
]

-- A live trade that begins passed the stages of the handler; if its swap lands, it moves at least
-- something and at most the cap of one trade, and one unit of 10^-9 SOL more; and if it is booked
-- before any other request is served, the agent's day then stands at most that one unit above the
-- day's cap, or above what was spent before.
pub execute_ultra_swap-within_budget :
    (rt : Runtime) (now : ℕ) (id : String) (b : Body) (s s' : Signer) (p : Pending)
    (broker : Broker) (c : Convert) (sign : List ℕ → List ℕ) (allowlist : List (List ℕ))
    (base : String) (r : Swap)
    → intent rt now id b s ≡ (s', submitting p)
    → execute_ultra_swap broker c sign allowlist base p ≡ ok r
    → (a : Agent) × Passed rt now id b s a
      × (0 < r.sol_value)
      × (r.sol_value ≤ a.policy.max_notional_sol + 1)
      × ((a' : Agent) × (lookup a.id (finish p r.sol_value s').agents ≡ some a')
          × (a'.day_spent_sol ≤ max a.policy.max_daily_sol (spent_today now a) + 1))
execute_ultra_swap-within_budget rt now id b s s' p broker c sign allowlist base r h landed =
    let (a, size, passed, sized, settled) =
      intent-settles rt now id b s s' (submitting p) h (λ status code e. cc) in
    let rolled : Agent = roll_day now a in
    let s1 : Signer = record s { nonces = (gate rt now a b s.nonces).1 } in
    let (live, state, remaining, notional, agent_id, _) =
      settle-submitting rt now s1 rolled b size s' p settled in
    let (spent, policy, id_eq, day) = roll_day_fields now a in
    let l = execute_ultra_swap-Landed broker c sign allowlist base p r landed in
    let checked = l.checked in
    let on_file : lookup rolled.id s'.agents ≡ some rolled =
      ground (arith, state, lookup-insert_self rolled.id rolled s.agents) in
    let (a', found, bound) = finish-day_spent p r.sol_value s' rolled agent_id on_file in
    (
      a,
      passed,
      checked.has_value,
      ground (arith, checked.within_trade, notional, policy),
      (
        a',
        ground (arith, id_eq, found),
        ground (arith, bound, checked.within_day, remaining, spent, policy),
      ),
    )
