-- ===== src/Signer/Trade/Runs.antt =====
-- Two trades of the toy signer, run: one on paper and one live.
use circuit_agent_cloud.Prelude.{String, ◌≡◌, refl, lookup, insert, [], ◌∷◌}
use circuit_agent_cloud.Proto.Policy.{default_policy}
use circuit_agent_cloud.Proto.Value.{undefined}
use circuit_agent_cloud.Signer.State.{Signer}
use circuit_agent_cloud.Signer.Trade.{
  Pending, signed, submitting, intent, holds_session, fence, gate, trade, policy_checks, roll_day,
  amount_checks, settle,
}
use circuit_agent_cloud.Signer.Toy.{toy, toy_at, dca, signer_of, live_policy, buy}

abbrev pub paper_after : Signer
paper_after = record (signer_of default_policy) {
  agents =
      ("dca", record (dca default_policy) { day_spent_sol = 500_000_000; last_trade_ts = 40000 })
      ∷ [];
}

pub paper_runs :
    intent toy 40000 "dca" buy (signer_of default_policy)
    ≡ (paper_after, signed "seed" 20_000_000 500_000_000)
unfolding intent trade settle lookup insert fence holds_session gate policy_checks amount_checks
    roll_day
paper_runs = refl

abbrev pub live_after : Signer
live_after = signer_of live_policy

abbrev pub live_pending : Pending
live_pending = record {
  agent_id = "dca";
  address = "seed";
  ts = 40000;
  intent = buy.intent;
  amount = undefined;
  max_notional_sol = 50_000_000;
  remaining_daily_sol = 20_000_000;
}

pub live_runs :
    intent toy 40000 "dca" buy (signer_of live_policy) ≡ (live_after, submitting live_pending)
unfolding intent trade settle lookup insert fence holds_session gate policy_checks amount_checks
    roll_day
live_runs = refl

pub live_runs_at :
    (w : String)
    → intent (toy_at w) 40000 "dca" buy (signer_of live_policy)
      ≡ (live_after, submitting (record live_pending { address = w }))
unfolding intent trade settle lookup insert fence holds_session gate policy_checks amount_checks
    roll_day
live_runs_at w = refl
