-- ===== src/Signer/History.antt =====
-- The signer over time: the requests that change its state, each at its time, in the order in which
-- their state changes happen. A live trade is two steps, with any others between them.

pub mod Custody
pub mod Fence
use circuit_agent_cloud.Prelude.{ℕ, Bool, String, List, [], ◌∷◌, Option}
use circuit_agent_cloud.Proto.Policy.{PolicyInput}
use circuit_agent_cloud.VerifiedIntent.Rule.{RawVerified}
use circuit_agent_cloud.Signer.State.{Signer, Runtime}
use circuit_agent_cloud.Signer.Transfer.{RpcResult}
use circuit_agent_cloud.Signer.Trade.{Body, Pending, intent, finish}
use circuit_agent_cloud.Signer.Routes.{
  Provision, provision, set_policy, set_owner, open_session, destroy,
}

pub data Call : Type 0 where
  -- With the seed that the key generator draws.
  provisions : String → Provision → Call
  sets_policy : String → Option PolicyInput → Option RawVerified → Call
  sets_owner : String → String → Call
  -- With the token that is drawn.
  opens_session : String → String → String → Call
  trades : String → Body → Call
  finishes : Pending → ℕ → Call
  destroys : String → Bool → RpcResult ℕ → List (RpcResult (List ℕ)) → Call

module _ (rt : Runtime) where
  pub step : Signer → ℕ × Call → Signer
  step s (now, provisions seed p) = (provision rt now seed p s).0
  step s (now, sets_policy id policy verified) = (set_policy rt now id policy verified s).0
  step s (now, sets_owner id owner) = (set_owner now id owner s).0
  step s (now, opens_session id node token) = (open_session rt now id node token s).0
  step s (now, trades id b) = (intent rt now id b s).0
  step s (now, finishes p sol_value) = finish p sol_value s
  step s (now, destroys id force balance programs) = (destroy id force balance programs s).0

  pub run : Signer → List (ℕ × Call) → Signer
  run s [] = s
  run s (c ∷ cs) = run (step s c) cs
