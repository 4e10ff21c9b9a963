-- ===== src/Signer/Trade.antt =====
-- signer/server.js: `POST /v1/agents/:id/intent`. A paper trade is one step. A live trade is two: the
-- handler hands over to `executeUltraSwap` and awaits it, and other requests run meanwhile.
pub mod Effect
pub mod Budget
pub mod Live
pub mod Runs
pub mod Unproved
pub mod Overspend
use circuit_agent_cloud.Prelude.{
  ℕ, zero, suc, ◌+◌, ◌-◌, Bool, true, false, not, ◌&&◌, ◌||◌, String, ◌==◌, List, [], ◌∷◌, Option,
  none, some, lookup, insert, any, ltb, nat_eq, if◌then◌else◌, Number, nan, num, pos, negsuc, max,
}
use circuit_agent_cloud.Proto.Value.{Value, text, null, number, strict_eq, is_falsy, to_number}
use circuit_agent_cloud.Proto.Policy.{Policy}
use circuit_agent_cloud.VerifiedIntent.Evidence.{Evidence, Options, Code}
use circuit_agent_cloud.VerifiedIntent.Replay.{Nonces}
use circuit_agent_cloud.VerifiedIntent.Rule.{Intent, Inputs, Rule, Verified}
use circuit_agent_cloud.VerifiedIntent.Gate.{
  VerifiedIntent, Verdict, verified, threw, rejected, decision_gate,
}
use circuit_agent_cloud.Signer.State.{
  Result, ok, fail, ◌>>=◌, ◌>>◌, fail_if, or_fail, Session, Agent, Signer, Attestation, Runtime,
  utc_day,
}

-- The body. `epoch` is `none` where it is no number; `token` is `String(token || "")`.
pub record Body : Type 0 where
  pub epoch : Option ℕ
  pub token : String
  pub intent : Intent
  pub amount : Value
  pub max_slippage_bps : Value
  pub rule : Option String
  pub inputs : Inputs
  pub evidence : List Evidence

-- 1. The fence: the request must come from the holder of the current session.
pub holds_session : Runtime → Body → Session → Bool
holds_session rt b s =
    elim b.epoch [ none ↦ false | some e ↦ nat_eq e s.epoch ]
    && rt.sha256hex b.token == s.token_hash

pub fence : Runtime → Agent → Body → Result (Unit {0})
fence rt a b = elim a.session [
  | none ↦ fail 403 "fenced"
  | some s ↦ fail_if (not (holds_session rt b s)) 403 "fenced"
]

-- `g.code` as text.
pub code_text : Code → String
code_text Code.evidence_unknown = "evidence-unknown"
code_text Code.evidence_untrusted_key = "evidence-untrusted-key"
code_text Code.evidence_invalid = "evidence-invalid"
code_text Code.evidence_stale = "evidence-stale"
code_text Code.evidence_replay = "evidence-replay"
code_text Code.evidence_untrusted_notary = "evidence-untrusted-notary"
code_text Code.evidence_zktls_unverified = "evidence-zktls-unverified"
code_text Code.unknown_rule = "unknown-rule"
code_text Code.input_mismatch = "input-mismatch"
code_text Code.decision_unjustified = "decision-unjustified"

-- The options that the handler passes: no zkTLS verifier, and no demand for one.
pub gate_options : Runtime → Verified → Options
gate_options rt v = record {
  accepted_keys = v.accepted_keys;
  accepted_notaries = v.accepted_notaries;
  max_age_ms = v.evidence_max_age_ms;
  verify_payload = rt.verify_payload;
  verify_zk_tls = none;
  require_zk_tls_proof = false;
}

abbrev pub claim_of : Body → VerifiedIntent
claim_of b = record { rule = b.rule; intent = b.intent; inputs = b.inputs; evidence = b.evidence }

abbrev verdict_result : Verdict → Result (Unit {0})
verdict_result verified = ok tt
verdict_result threw = fail 400 ""
verdict_result (rejected c) = fail 403 (code_text c)

-- 1b. The verified-intent gate, with the nonces that it leaves.
pub gate : Runtime → ℕ → Agent → Body → Nonces → Result (Unit {0}) × Nonces
unfolding gate_options
gate rt now a b replay =
    if not a.policy.require_verified_intent then (ok tt, replay) else elim a.verified.rule [
      | none ↦ (fail 409 "no-rule", replay)
      | some r ↦
          let (verdict, replay') =
            decision_gate rt.convert (gate_options rt a.verified) r now (claim_of b) replay in
          (verdict_result verdict, replay')
    ]

-- `list.includes(v)` for a list of texts.
pub includes_value : Value → List String → Bool
includes_value v ts = any (λ t. strict_eq (text t) v) ts

-- `intent.token && policy.allowTokens && !policy.allowTokens.includes(intent.token)`.
pub off_allowlist : Value → Option (List String) → Bool
unfolding includes_value
off_allowlist token none = false
off_allowlist token (some ts) = not (is_falsy token) && not (includes_value token ts)

abbrev kinds : List String
kinds = "buy" ∷ "sell" ∷ []

-- 2. The checks of the policy up to the cooldown.
pub policy_checks : ℕ → Agent → Intent → Result (Unit {0})
unfolding includes_value off_allowlist
policy_checks now a i = do
  fail_if (not (includes_value i.kind kinds)) 400 "bad-intent"
  fail_if (not (includes_value i.kind a.policy.allow)) 403 "action-not-allowed"
  fail_if (not (is_falsy i.token) && includes_value i.token a.policy.deny_tokens) 403 "token-denied"
  fail_if (off_allowlist i.token a.policy.allow_tokens) 403 "token-not-allowed"
  -- `Date.now() - lastTradeTs < cooldownMs`.
  fail_if (ltb now (a.last_trade_ts + a.policy.cooldown_ms)) 429 "cooldown"

-- A new day resets what was spent.
pub roll_day : ℕ → Agent → Agent
roll_day now a =
    if nat_eq a.day (utc_day now) then a else record a { day = utc_day now; day_spent_sol = 0 }

-- `x > 0`, with the amount.
pub positive : Number → Option ℕ
positive nan = none
positive (num (pos zero)) = none
positive (num (pos (suc n))) = some (suc n)
positive (num (negsuc n)) = none

-- The caps on a declared size; the agent's day is the current one.
pub size_checks : Agent → Number → Result ℕ
unfolding positive
size_checks a size = do
  n ← or_fail (positive size) 400 "bad-intent"
  fail_if (ltb a.policy.max_notional_sol n) 403 "over-trade-cap"
  fail_if (ltb a.policy.max_daily_sol (a.day_spent_sol + n)) 403 "over-daily-cap"
  ok n

pub is_sell : Value → Bool
is_sell v = strict_eq v (text "sell")

abbrev or_zero : Option ℕ → ℕ
or_zero none = 0
or_zero (some n) = n

-- The declared size of a trade that passes; a live sell is sized by its proceeds, later.
pub amount_checks : Runtime → Agent → Body → Result ℕ
unfolding size_checks is_sell positive
amount_checks rt a b =
    if is_sell b.intent.kind && not a.policy.paper
    then (or_fail (positive (to_number rt.convert b.amount)) 400 "bad-intent" >>= λ _.
        ok (or_zero (positive (to_number rt.convert b.intent.size_sol))))
    else size_checks a (to_number rt.convert b.intent.size_sol)

-- A swap that is under way, with what it will be judged and booked by.
pub record Pending : Type 0 where
  pub agent_id : String
  pub address : String
  pub ts : ℕ
  pub intent : Intent
  pub amount : Value
  pub max_notional_sol : ℕ
  pub remaining_daily_sol : ℕ

pub data Reply : Type 0 where
  refused : ℕ → String → Reply
  -- A paper trade: the signature over the attestation, the size, and the day's total after it.
  signed : String → ℕ → ℕ → Reply
  submitting : Pending → Reply

-- `null` for a missing token or size.
abbrev or_null : Value → Value
or_null v = if is_falsy v then null else v

attestation : Runtime → Agent → Body → ℕ → Attestation
attestation rt a b now = record {
  agent_id = a.id;
  epoch = or_zero b.epoch;
  kind = b.intent.kind;
  token = or_null b.intent.token;
  size_sol = or_null (number (to_number rt.convert b.intent.size_sol));
  ts = now;
}

abbrev pub put : Signer → Agent → Signer
put s a = record s { agents = insert a.id a s.agents }

-- 3 and 4: sign, then book a paper trade or hand a live one over. The key is looked up by the
-- agent's id, and no key is a key that does not open.
pub settle : Runtime → ℕ → Signer → Agent → Body → ℕ → Signer × Reply
unfolding attestation
settle rt now s a b size = elim (lookup a.id s.keys) [
  | none ↦ (put s a, refused 400 "")
  | some sealed ↦ elim (rt.open_seal sealed) [
    | none ↦ (put s a, refused 400 "")
    | some seed ↦
        if a.policy.paper
        then (
          put s (record a { day_spent_sol = a.day_spent_sol + size; last_trade_ts = now }),
          signed (rt.sign seed (rt.print (attestation rt a b now))) size (a.day_spent_sol + size),
        )
        else (
          put s a,
          submitting (record {
            agent_id = a.id;
            address = rt.address_of seed;
            ts = now;
            intent = b.intent;
            amount = b.amount;
            max_notional_sol = a.policy.max_notional_sol;
            remaining_daily_sol = a.policy.max_daily_sol - a.day_spent_sol;
          }),
        )
  ]
]

-- The amounts are checked after the day is rolled, which stands even if they fail.
pub trade : Runtime → ℕ → Signer → Agent → Body → Signer × Reply
unfolding settle
trade rt now s a b = elim (policy_checks now a b.intent) [
  | fail status code ↦ (s, refused status code)
  | ok _ ↦
      let a' = roll_day now a in
      elim (amount_checks rt a' b) [
        | fail status code ↦ (put s a', refused status code)
        | ok size ↦ settle rt now s a' b size
      ]
]

-- The whole handler.
pub intent : Runtime → ℕ → String → Body → Signer → Signer × Reply
intent rt now id b s = elim (lookup id s.agents) [
  | none ↦ (s, refused 404 "no-agent")
  | some a ↦ elim (fence rt a b) [
    | fail status code ↦ (s, refused status code)
    | ok _ ↦
        let (passed, nonces) = gate rt now a b s.nonces in
        let s' = record s { nonces = nonces } in
        elim passed [ fail status code ↦ (s', refused status code) | ok _ ↦ trade rt now s' a b ]
  ]
]

-- The end of a live trade whose swap landed at `sol_value`. The source holds on to the agent object;
-- where the agent was destroyed meanwhile (or provisioned anew, with another wallet), the booking
-- goes to an object that nothing reads.
unfoldable pub finish : Pending → ℕ → Signer → Signer
finish p sol_value s = elim (lookup p.agent_id s.agents) [
  | none ↦ s
  | some a ↦
      if a.address == p.address
      then put s (record a { day_spent_sol = a.day_spent_sol + sol_value; last_trade_ts = p.ts })
      else s
]
