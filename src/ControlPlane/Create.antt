-- ===== src/ControlPlane/Create.antt =====
-- control-plane/server.js: the creation of an agent and the change of its owner. A creation is two
-- steps where there is a signer: the handler awaits the wallet, and other requests run meanwhile.
pub mod Laws
use circuit_agent_cloud.Prelude.{
  ℕ, suc, Bool, true, false, not, ◌&&◌, ◌||◌, String, ◌==◌, List, [], ◌∷◌, Option, none, some,
  length, all, lookup, leb, nat_eq, if◌then◌else◌,
}
use circuit_agent_cloud.Proto.Value.{null}
use circuit_agent_cloud.Base58.{codes}
use circuit_agent_cloud.ControlPlane.State.{State, pending, Manifest, BundleSpec, Agent, Cloud}
use circuit_agent_cloud.ControlPlane.Quota.{Hits, rate_limit}
use circuit_agent_cloud.ControlPlane.Access.{owns, lacks_signature, bound_to, put}

-- The body; the policy and the verified-intent configuration go to the signer as they are.
pub record NewAgent : Type 0 where
  pub name : String
  pub owner : Option String
  pub bundle : Option BundleSpec
  pub require_sandbox : String

abbrev between : ℕ → ℕ → ℕ → Bool
between low high c = leb low c && leb c high

unfoldable pub is_alphanumeric : ℕ → Bool
is_alphanumeric c = between b'a' b'z' c || between b'A' b'Z' c || between b'0' b'9' c

is_word : ℕ → Bool
unfolding is_alphanumeric
is_word c = is_alphanumeric c || nat_eq c b'_' || nat_eq c b'-'

-- `/^[a-zA-Z0-9][a-zA-Z0-9_-]{0,63}$/`.
unfoldable pub is_agent_id : List ℕ → Bool
unfolding is_word
is_agent_id [] = false
is_agent_id (c ∷ rest) = is_alphanumeric c && all is_word rest && leb (length rest) 63

-- `spec?.bundle?.manifest?.agentId`, if it is not empty.
unfoldable pub manifest_id : Option BundleSpec → Option String
manifest_id none = none
manifest_id (some b) = elim b.manifest [
  | none ↦ none
  | some m ↦ if m.agent_id == "" then none else some m.agent_id
]

pub data Reply : Type 0 where
  drafted : Agent → Reply
  -- An error without a status, and 429.
  bad_request too_many : Reply

-- `authedOwner || owner || null`.
abbrev pub either_owner : Option String → Option String → Option String
either_owner (some o) other = some o
either_owner none other = other

unfoldable pub draft : ℕ → Option String → String → NewAgent → Agent
draft now owner id n = record {
  id = id;
  owner = owner;
  desired = false;
  state = pending;
  node_id = none;
  placed_at = 0;
  place_attempts = 0;
  failed_nodes = [];
  bundle = n.bundle;
  require_sandbox = n.require_sandbox;
  session = none;
  address = none;
  paper = true;
  health = null;
  last_report = 0;
}

-- The id of the manifest, if it may be used, or the fresh one.
unfoldable pub choose_id : String → Cloud → Option BundleSpec → Option String
unfolding manifest_id is_agent_id
choose_id new_id c b = elim (manifest_id b) [
  | none ↦ some new_id
  | some id ↦
      if not (is_agent_id (codes id))
      then none
      else elim (lookup id c.agents) [ none ↦ some id | some a ↦ none ]
]

-- `POST /v1/agents`, past `authOwner`, up to the call of the signer.
unfoldable pub prepare :
    (Manifest → Bool) → ℕ → ℕ → Option String → String → NewAgent → Cloud → Hits → Hits × Reply
unfolding choose_id draft
prepare verify limit now caller new_id n c hits =
    let owner : Option String = either_owner caller n.owner in
    if n.name == "" then (hits, bad_request) else elim (rate_limit limit now owner hits) [
      | none ↦ (hits, too_many)
      | some hits' ↦ elim (choose_id new_id c n.bundle) [
        | none ↦ (hits', bad_request)
        | some id ↦
            if bound_to verify n.bundle owner id
            then (hits', drafted (draft now owner id n))
            else (hits', bad_request)
      ]
    ]

-- What the signer did: there is none, it has a wallet, or the call failed (503).
pub data Provision : Type 0 where
  no_signer unavailable : Provision
  provisioned : String → Bool → Provision

-- The rest of the handler; `putAgent` looks nothing up.
unfoldable pub complete : Agent → Provision → Cloud → Cloud × Bool
complete a no_signer c = (put c a.id a, true)
complete a unavailable c = (c, false)
complete a (provisioned address paper) c =
    (put c a.id (record a { address = some address; paper = paper }), true)

pub data HandOver : Type 0 where
  -- The signer knows the new owner; or the call of the signer failed.
  handed_over signer_failed : HandOver
  refused no_agent : HandOver

-- `PUT /v1/agents/:id/owner`: the record changes before the signer is asked.
unfoldable pub hand_over :
    (Manifest → Bool)
    → Bool
    → Option String
    → String
    → Option String
    → Bool
    → Cloud
    → Cloud × HandOver
hand_over verify strict caller id owner signer_agrees c = elim (lookup id c.agents) [
  | none ↦ (c, no_agent)
  | some a ↦
      if lacks_signature strict caller
        || not (owns strict a.owner caller)
        || not (bound_to verify a.bundle owner id)
      then (c, refused)
      else (
        put c id (record a { owner = owner }),
        if signer_agrees then handed_over else signer_failed,
      )
]
