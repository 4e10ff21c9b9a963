-- ===== src/Signer/Routes/Effect.antt =====
-- What the other requests change.
use circuit_agent_cloud.Prelude.{
  ℕ, ◌+◌, ◌≡◌, refl, inl, inr, Bool, String, ◌==◌, List, Option, some, lookup, lookup-insert_self,
  arith, Option-cases, Bool-cases,
}
use circuit_agent_cloud.Base58.{is_pubkey}
use circuit_agent_cloud.Proto.Policy.{PolicyInput}
use circuit_agent_cloud.VerifiedIntent.Rule.{RawVerified}
use circuit_agent_cloud.Signer.State.{Session, Agent, Signer, Runtime}
use circuit_agent_cloud.Signer.Change.{Change, kept, updated, created, removed, epoch_of}
use circuit_agent_cloud.Signer.Transfer.{RpcResult}
use circuit_agent_cloud.Signer.Routes.{
  Provision, bad_owner, new_agent, updated_agent, provision, set_policy, set_owner, open_session,
  destroy, not_empty, has_token_balance, with_agent,
}

pub provision-Change :
    {gone : String → Type 0} (rt : Runtime) (now : ℕ) (seed : String) (p : Provision) (s : Signer)
    → Change rt gone s (provision rt now seed p s).0
unfolding provision
provision-Change rt now seed p s = elim (Bool-cases (p.agent_id == "")) [
  | inl e ↦ rw (e, provision) (kept refl refl)
  | inr e ↦ elim (Bool-cases (bad_owner p.owner)) [
    | inl f ↦ rw (e, f, provision) (kept refl refl)
    | inr f ↦ elim (Option-cases (lookup p.agent_id s.agents)) [
      | inl free ↦
          rw (e, f, free, provision)
            (created p.agent_id (new_agent rt now seed p) seed free refl refl refl refl)
      | inr (a, found) ↦
          rw (e, f, found, provision)
            (updated p.agent_id a (updated_agent rt p a) found
              (record { same_id = refl; same_address = refl; no_older = omega arith }) refl refl)
    ]
  ]
]

pub set_policy-Change :
    {gone : String → Type 0} (rt : Runtime) (now : ℕ) (id : String) (policy : Option PolicyInput)
    (verified : Option RawVerified) (s : Signer)
    → Change rt gone s (set_policy rt now id policy verified s).0
unfolding set_policy
set_policy-Change rt now id policy verified s = elim (Option-cases (lookup id s.agents)) [
  | inl e ↦ rw (e, set_policy, with_agent) (kept refl refl)
  | inr (a, e) ↦
      rw (e, set_policy, with_agent)
        (updated id a _ e (record { same_id = refl; same_address = refl; no_older = omega arith })
          refl refl)
]

pub set_owner-Change :
    {gone : String → Type 0} (rt : Runtime) (now : ℕ) (id owner : String) (s : Signer)
    → Change rt gone s (set_owner now id owner s).0
unfolding set_owner
set_owner-Change rt now id owner s = elim (Option-cases (lookup id s.agents)) [
  | inl e ↦ rw (e, set_owner, with_agent) (kept refl refl)
  | inr (a, e) ↦ elim (Bool-cases (is_pubkey owner)) [
    | inr f ↦ rw (e, f, set_owner, with_agent) (kept refl refl)
    | inl f ↦
        rw (e, f, set_owner, with_agent)
          (updated id a _ e (record { same_id = refl; same_address = refl; no_older = omega arith })
            refl refl)
  ]
]

pub open_session-Change :
    {gone : String → Type 0} (rt : Runtime) (now : ℕ) (id node token : String) (s : Signer)
    → Change rt gone s (open_session rt now id node token s).0
unfolding open_session
open_session-Change rt now id node token s = elim (Option-cases (lookup id s.agents)) [
  | inl e ↦ rw (e, open_session, with_agent) (kept refl refl)
  | inr (a, e) ↦
      rw (e, open_session, with_agent)
        (updated id a _ e (record { same_id = refl; same_address = refl; no_older = omega arith })
          refl refl)
]

pub destroy-Change :
    (rt : Runtime) (id : String) (force : Bool) (balance : RpcResult ℕ)
    (programs : List (RpcResult (List ℕ))) (s : Signer)
    → Change rt (λ k. k ≡ id) s (destroy id force balance programs s).0
unfolding destroy
destroy-Change rt id force balance programs s = elim (Option-cases (lookup id s.agents)) [
  | inl e ↦ rw (e, destroy, with_agent) (kept refl refl)
  | inr (a, e) ↦ elim (Bool-cases force) [
    | inl f ↦ rw (e, f, destroy, with_agent) (removed id refl refl refl)
    | inr f ↦ elim (Option-cases (not_empty balance (has_token_balance programs))) [
      | inl g ↦ rw (e, f, g, destroy, with_agent) (removed id refl refl refl)
      | inr ((status, code), g) ↦ rw (e, f, g, destroy, with_agent) (kept refl refl)
    ]
  ]
]

-- Opening a session raises the epoch by one.
pub open_session_epoch :
    (rt : Runtime) (now : ℕ) (id node token : String) (s : Signer) (a : Agent)
    → lookup id s.agents ≡ some a
    → (a' : Agent) × (lookup id (open_session rt now id node token s).0.agents ≡ some a')
      × (epoch_of a' ≡ epoch_of a + 1)
unfolding open_session
open_session_epoch rt now id node token s a found =
    let opened : Session = record {
      epoch = epoch_of a + 1;
      token_hash = rt.sha256hex token;
      node = node;
      opened_at = now;
    } in
    let a' : Agent = record a { session = some opened } in
    (a', rw (found, open_session, with_agent) (lookup-insert_self id a' s.agents), refl)
