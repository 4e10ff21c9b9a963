-- ===== src/ControlPlane/Access.antt =====
-- control-plane/server.js: who may act on an agent (`assertOwns`, `assertBundleOwnerBinding`), and the
-- routes that start, stop and destroy one.
pub mod Reads
pub mod Laws
use circuit_agent_cloud.Prelude.{
  ℕ, Bool, true, false, not, ◌&&◌, ◌||◌, String, ◌==◌, List, [], ◌∷◌, Option, none, some, lookup,
  insert, erase, if◌then◌else◌,
}
use circuit_agent_cloud.ControlPlane.State.{
  State, pending, scheduled, running, stopping, stopped, failed, Agent, Cloud, Manifest, BundleSpec,
}
use circuit_agent_cloud.ControlPlane.Placement.{scheduled_agent}

-- The caller is the owner whose signature was verified, or none for an unsigned request; `strict` is
-- `REQUIRE_OWNER_AUTH`.
unfoldable pub owns : Bool → Option String → Option String → Bool
owns strict none caller = true
owns strict (some owner) none = not strict
owns strict (some owner) (some caller) = owner == caller

-- `requireOwner` throws 401: the request is unsigned, and signatures are demanded.
unfoldable pub lacks_signature : Bool → Option String → Bool
lacks_signature strict none = strict
lacks_signature strict (some caller) = false

pub data Reply : Type 0 where
  done : Agent → Reply
  deleted : Reply
  no_agent : Reply
  -- Status 401 and 403.
  unsigned not_yours : Reply
  -- The signer's refusal, with its status.
  refused : ℕ → Reply

-- The lookup, `requireOwner` and the ownership check that the routes begin with.
abbrev pub with_own :
    Bool → Option String → String → Cloud → (Agent → Cloud × Reply) → Cloud × Reply
with_own strict caller id c f = elim (lookup id c.agents) [
  | none ↦ (c, no_agent)
  | some a ↦
      if lacks_signature strict caller
      then (c, unsigned)
      else if owns strict a.owner caller
      then f a
      else (c, not_yours)
]

unfoldable pub restart : State → State
restart stopped = pending
restart failed = pending
restart s = s

unfoldable pub halt : State → State
halt running = stopping
halt s = stopped

abbrev pub put : Cloud → String → Agent → Cloud
put c id a = record c { agents = insert id a c.agents }

-- `POST /v1/agents/:id/start`. The store already holds the agent as it is to be scheduled.
unfoldable pub start : Bool → ℕ → Option String → String → Cloud → Cloud × Reply
unfolding restart
start strict now caller id c = with_own strict caller id c λ a.
    let wanted = record a { desired = true; state = restart a.state } in
    let placed = scheduled_agent now (put c id wanted) wanted in (put c id placed, done placed)

-- `POST /v1/agents/:id/stop`.
unfoldable pub stop : Bool → Option String → String → Cloud → Cloud × Reply
unfolding halt
stop strict caller id c = with_own strict caller id c λ a.
    let halted = record a { desired = false; state = halt a.state } in
    (put c id halted, done halted)

-- What became of the wallet: there is no signer, the signer wiped it, or refused with a status.
pub data Wallet : Type 0 where
  no_signer wiped : Wallet
  kept : ℕ → Wallet

-- `DELETE /v1/agents/:id`.
unfoldable pub destroy : Bool → Option String → String → Wallet → Cloud → Cloud × Reply
destroy strict caller id wallet c = with_own strict caller id c λ a. elim wallet [
  | kept status ↦ (c, refused status)
  | no_signer ↦ (record c { agents = erase id c.agents }, deleted)
  | wiped ↦ (record c { agents = erase id c.agents }, deleted)
]

-- The checks of a manifest against the agent's owner and id.
unfoldable pub binds : (Manifest → Bool) → BundleSpec → String → String → Manifest → Bool
binds verify b owner agent_id m =
    verify m
    && m.publisher == owner
    && m.agent_id == agent_id
    && m.sha256 == b.sha256
    && (b.runtime == "" || m.runtime == b.runtime)

-- `assertBundleOwnerBinding`, with the signature check of the manifest. The agent's id is never empty.
unfoldable pub bound_to : (Manifest → Bool) → Option BundleSpec → Option String → String → Bool
bound_to verify none owner agent_id = true
bound_to verify (some b) owner agent_id = elim b.manifest [
  | none ↦ false
  | some m ↦ elim owner [ none ↦ false | some o ↦ binds verify b o agent_id m ]
]
