-- ===== src/Signer/Tests.antt =====
-- The properties of trades and of histories at concrete requests.
use circuit_agent_cloud.Prelude.{ℕ, ◌+◌, ◌≤◌, ◌<◌, ◌≡◌, refl, List, [], ◌∷◌, some, lookup, arith}
use circuit_agent_cloud.Proto.Policy.{default_policy}
use circuit_agent_cloud.Signer.State.{Agent, Signer, utc_day}
use circuit_agent_cloud.Signer.Trade.{refused, submitting, intent, finish}
use circuit_agent_cloud.Signer.Trade.Budget.{Passed, spent_today, intent-signed_within}
use circuit_agent_cloud.Signer.Trade.Overspend.{live_overspends}
use circuit_agent_cloud.Signer.Trade.Runs.{
  paper_after, paper_runs, live_after, live_pending, live_runs,
}
use circuit_agent_cloud.Signer.History.{Call, opens_session, trades, step, run}
use circuit_agent_cloud.Signer.History.Custody.{Custody, run-Custody}
use circuit_agent_cloud.Signer.History.Fence.{open_session_fences}
use circuit_agent_cloud.Signer.Toy.{toy, dca, signer_of, signer_of-Custody, live_policy, buy}

-- The paper buy of 0.02 SOL on day 0, with 0.48 SOL spent before.
intent-signed_within_example :
    (a : Agent) × Passed toy 40000 "dca" buy (signer_of default_policy) a
    × (0 < 20_000_000)
    × (20_000_000 ≤ a.policy.max_notional_sol)
    × (500_000_000 ≡ spent_today 40000 a + 20_000_000)
    × (500_000_000 ≤ a.policy.max_daily_sol)
    × ((a' : Agent) × (lookup a.id paper_after.agents ≡ some a')
        × (a'.day_spent_sol ≡ 500_000_000)
        × (a'.day ≡ utc_day 40000)
        × (a'.last_trade_ts ≡ 40000))
intent-signed_within_example =
    intent-signed_within toy 40000 "dca" buy (signer_of default_policy) paper_after "seed"
      20_000_000 500_000_000 paper_runs

-- Both land at 0.02 SOL, where 0.02 SOL are left: the day ends at 0.52 of 0.5 SOL.
live_overspends_example :
    (intent toy 40000 "dca" buy live_after ≡ (live_after, submitting live_pending))
    × ((a' : Agent) × (lookup "dca"
            (finish live_pending 20_000_000 (finish live_pending 20_000_000 live_after)).agents
          ≡ some a')
        × (a'.policy ≡ live_policy)
        × (a'.day_spent_sol ≡ spent_today 40000 (dca live_policy) + 20_000_000 + 20_000_000)
        × (live_policy.max_daily_sol < a'.day_spent_sol))
unfolding lookup
live_overspends_example =
    live_overspends toy 40000 "dca" buy (signer_of live_policy) live_after (dca live_policy)
      live_pending 20_000_000 20_000_000 (signer_of-Custody live_policy) refl refl live_runs
      (omega arith)

abbrev history : List (ℕ × Call)
history = (40000, trades "dca" buy) ∷ (50000, opens_session "dca" "n2" "t2") ∷ []

run-Custody_example : Custody toy (run toy (signer_of default_policy) history)
run-Custody_example =
    run-Custody toy (signer_of default_policy) history (λ seed. refl)
      (signer_of-Custody default_policy)

-- The holder of epoch 1 comes back after epoch 2 was opened.
abbrev superseded : Signer
superseded =
    run toy (step toy (signer_of default_policy) (9, opens_session "dca" "n2" "t2")) history

open_session_fences_example :
    intent toy 60000 "dca" buy superseded ≡ (superseded, refused 403 "fenced")
unfolding lookup
open_session_fences_example =
    open_session_fences toy (signer_of default_policy) "dca" "n2" "t2" 9 60000 history
      (dca default_policy) buy 1 (λ seed. refl) (signer_of-Custody default_policy) refl
      ((λ h. h), ((λ h. h), tt)) refl (omega arith)
