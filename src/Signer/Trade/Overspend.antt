-- ===== src/Signer/Trade/Overspend.antt =====
-- Two live trades under way at once, and the cap of the day.
use circuit_agent_cloud.Prelude.{
  ℕ, ◌+◌, ◌<◌, ◌≡◌, sym, ap, ◌∙◌, false, String, some, lookup, lookup-insert_self, arith, insert,
  eq_iff,
}
use circuit_agent_cloud.Proto.Policy.{Policy}
use circuit_agent_cloud.Signer.State.{Agent, Signer, Runtime}
use circuit_agent_cloud.Signer.Trade.{
  Body, Pending, submitting, roll_day, settle, intent, finish, gate,
}
use circuit_agent_cloud.Signer.Trade.Budget.{
  spent_today, roll_day_fields, settle-submitting, intent-settles,
}
use circuit_agent_cloud.Signer.Trade.Live.{intent_again}
use circuit_agent_cloud.Signer.History.Custody.{Custody, Custody→Keyed, Owns}

finish_books :
    (p : Pending) (v : ℕ) (s : Signer) (a : Agent)
    → lookup p.agent_id s.agents ≡ some a
    → a.id ≡ p.agent_id
    → a.address ≡ p.address
    → (finish p v s).agents
      ≡ insert p.agent_id
          (record a { day_spent_sol = a.day_spent_sol + v; last_trade_ts = p.ts })
          s.agents
unfolding finish
finish_books p v s a found own_id own_address =
    ground (arith, found, own_id, (eq_iff a.address p.address).1 own_address)

-- Two swaps of an agent are booked in full, one after the other.
finish_twice :
    (p : Pending) (v w : ℕ) (s : Signer) (a : Agent)
    → lookup p.agent_id s.agents ≡ some a
    → a.id ≡ p.agent_id
    → a.address ≡ p.address
    → lookup p.agent_id (finish p w (finish p v s)).agents
      ≡ some (record a { day_spent_sol = a.day_spent_sol + v + w; last_trade_ts = p.ts })
finish_twice p v w s a found own_id own_address =
    let a1 : Agent = record a { day_spent_sol = a.day_spent_sol + v; last_trade_ts = p.ts } in
    let a2 : Agent = record a1 { day_spent_sol = a.day_spent_sol + v + w; last_trade_ts = p.ts } in
    let on_file : lookup p.agent_id (finish p v s).agents ≡ some a1 =
      rw (finish_books p v s a found own_id own_address)
        (lookup-insert_self p.agent_id a1 s.agents) in
    rw (finish_books p w (finish p v s) a1 on_file own_id own_address)
      (lookup-insert_self p.agent_id a2 (finish p v s).agents)

-- The swap is that of the wallet which the agent shows.
settle-address :
    (rt : Runtime) (now : ℕ) (s s' : Signer) (a : Agent) (b : Body) (size : ℕ) (p : Pending)
    (sealed seed : String)
    → lookup a.id s.keys ≡ some sealed
    → rt.open_seal sealed ≡ some seed
    → settle rt now s a b size ≡ (s', submitting p)
    → p.address ≡ rt.address_of seed
unfolding settle
settle-address rt now s s' a b size p sealed seed on_file opens h = ground (arith, on_file, opens)

roll_day-address : (now : ℕ) (a : Agent) → (roll_day now a).address ≡ a.address
unfolding roll_day
roll_day-address now a = ground arith

-- The defect of a budget that advances only when a swap has landed: of an agent in custody whose trades
-- need no verified intent, a live trade that begins can begin again at once, on the same budget; and if
-- the two swaps land at more, together, than what was left of the day's cap, both are booked in full,
-- and the agent's day ends above its cap.
pub live_overspends :
    (rt : Runtime) (now : ℕ) (id : String) (b : Body) (s s' : Signer) (a : Agent) (p : Pending)
    (v w : ℕ)
    → Custody rt s
    → lookup id s.agents ≡ some a
    → a.policy.require_verified_intent ≡ false
    → intent rt now id b s ≡ (s', submitting p)
    → p.remaining_daily_sol < v + w
    → (intent rt now id b s' ≡ (s', submitting p))
      × ((a' : Agent) × (lookup p.agent_id (finish p w (finish p v s')).agents ≡ some a')
          × (a'.policy ≡ a.policy)
          × (a'.day_spent_sol ≡ spent_today now a + v + w)
          × (a.policy.max_daily_sol < a'.day_spent_sol))
live_overspends rt now id b s s' a p v w custody found off h over =
    let keyed = Custody→Keyed rt s custody in
    let (c, size, passed, sized, settled) =
      intent-settles rt now id b s s' (submitting p) h (λ status code e. cc) in
    let same : c ≡ a = ground (arith, found, passed.found) in
    let rolled : Agent = roll_day now c in
    let s1 : Signer = record s { nonces = (gate rt now c b s.nonces).1 } in
    let (spent, policy, id_eq, _) = roll_day_fields now c in
    let (_, state, remaining, _, own_id, _) =
      settle-submitting rt now s1 rolled b size s' p settled in
    let owns : Owns rt s id c = custody id c passed.found in
    let key : lookup rolled.id s.keys ≡ some owns.sealed =
      ap (λ k. lookup k s.keys) (id_eq ∙ owns.same_id) ∙ owns.on_file in
    let address : rolled.address ≡ p.address =
      roll_day-address now c
      ∙ owns.address
      ∙ sym (
          settle-address rt now s1 s' rolled b size p owns.sealed owns.seed key owns.opens
            settled) in
    let on_file : lookup p.agent_id s'.agents ≡ some rolled =
      ground (arith, state, own_id, lookup-insert_self rolled.id rolled s.agents) in
    let total : rolled.day_spent_sol ≡ spent_today now a = spent ∙ ap (spent_today now) same in
    let caps : rolled.policy ≡ a.policy = policy ∙ ap (λ (x : Agent). x.policy) same in
    (
      intent_again rt now id b s s' a p keyed found off h,
      (
        record rolled { day_spent_sol = rolled.day_spent_sol + v + w; last_trade_ts = p.ts },
        finish_twice p v w s' rolled on_file (sym own_id) address,
        caps,
        ap (λ n. n + v + w) total,
        omega (arith, remaining, over, ap (λ (x : Policy). x.max_daily_sol) caps),
      ),
    )
