-- ===== src/Signer/Routes.antt =====
-- signer/server.js: the routes other than the trade intent, behind their bearer check (`auth`).
pub mod Effect
use circuit_agent_cloud.Prelude.{
  ℕ, zero, suc, ◌+◌, Bool, true, false, not, ◌&&◌, ◌||◌, String, ◌==◌, List, [], ◌∷◌, Option, none,
  some, lookup, insert, erase, ltb, nat_eq, if◌then◌else◌, Number, nan, num, pos, negsuc, any,
}
use circuit_agent_cloud.Base58.{is_pubkey}
use circuit_agent_cloud.Proto.Policy.{Policy, PolicyInput, normalize_policy, empty_input}
use circuit_agent_cloud.Proto.Policy.{absent}
use circuit_agent_cloud.VerifiedIntent.Rule.{RawVerified, Verified, Rule, normalize_verified}
use circuit_agent_cloud.Signer.Change.{epoch_of}
use circuit_agent_cloud.Signer.State.{Session, Agent, Signer, Runtime, utc_day}
use circuit_agent_cloud.Signer.Transfer.{
  Response, RpcResult, result, unavailable, method_error, rpc, Chain, Withdrawal, withdraw_sol,
}
use circuit_agent_cloud.Signer.Trade.{positive}

pub record PublicView : Type 0 where
  pub agent_id : String
  pub address : String
  pub policy : Policy
  pub day_spent_sol : ℕ
  pub epoch : ℕ
  pub has_session : Bool
  pub last_trade_ts : ℕ
  pub owner : Option String
  pub rule_id : Option String

abbrev has_session : Agent → Bool
has_session a = elim a.session [ none ↦ false | some s ↦ true ]

abbrev rule_id : Option Rule → Option String
rule_id none = none
rule_id (some r) = some r.id

pub public_view : ℕ → Agent → PublicView
public_view now a = record {
  agent_id = a.id;
  address = a.address;
  policy = a.policy;
  day_spent_sol = if nat_eq a.day (utc_day now) then a.day_spent_sol else 0;
  epoch = epoch_of a;
  has_session = has_session a;
  last_trade_ts = a.last_trade_ts;
  owner = a.owner;
  rule_id = rule_id a.verified.rule;
}

pub data Answer : Type 0 where
  refused : ℕ → String → Answer
  view : PublicView → Answer
  -- Address, epoch, token and paper mode.
  session : String → ℕ → String → Bool → Answer
  withdrawal : Withdrawal → Answer
  -- Address and secret key.
  exported : String → String → Answer
  destroyed : Answer

-- A missing id is "".
pub record Provision : Type 0 where
  pub agent_id : String
  pub policy : Option PolicyInput
  pub verified : Option RawVerified
  pub owner : Option String

abbrev policy_or_empty : Option PolicyInput → Policy
policy_or_empty none = normalize_policy empty_input
policy_or_empty (some p) = normalize_policy p

abbrev empty_verified : RawVerified
empty_verified = record {
  rule = none;
  accepted_keys = absent;
  accepted_notaries = absent;
  evidence_max_age_ms = none;
}

abbrev verified_or_empty : Runtime → Option RawVerified → Verified
verified_or_empty rt none = normalize_verified rt.convert empty_verified
verified_or_empty rt (some v) = normalize_verified rt.convert v

-- `owner != null && !isPubkey(owner)`.
bad_owner : Option String → Bool
bad_owner none = false
bad_owner (some o) = not (is_pubkey o)

-- A wallet with the seed that `newKeypair` drew.
new_agent : Runtime → ℕ → String → Provision → Agent
new_agent rt now seed p = record {
  id = p.agent_id;
  address = rt.address_of seed;
  owner = p.owner;
  policy = policy_or_empty p.policy;
  verified = verified_or_empty rt p.verified;
  day = utc_day now;
  day_spent_sol = 0;
  last_trade_ts = 0;
  session = none;
  created_at = now;
}

abbrev owner_or : Option String → Option String → Option String
owner_or old none = old
owner_or old (some o) = some o

updated_agent : Runtime → Provision → Agent → Agent
updated_agent rt p a = record a {
  policy = elim p.policy [ none ↦ a.policy | some i ↦ normalize_policy i ];
  verified = elim p.verified [ none ↦ a.verified | some v ↦ normalize_verified rt.convert v ];
  owner = owner_or a.owner p.owner;
}

-- `POST /v1/agents`.
pub provision : Runtime → ℕ → String → Provision → Signer → Signer × Answer
unfolding bad_owner new_agent updated_agent
provision rt now seed p s =
    if p.agent_id == ""
    then (s, refused 400 "bad-request")
    else if bad_owner p.owner
    then (s, refused 400 "bad-owner")
    else elim (lookup p.agent_id s.agents) [
      | none ↦
          let a = new_agent rt now seed p in
          (
            record s {
              agents = insert p.agent_id a s.agents;
              keys = insert p.agent_id (rt.seal seed) s.keys;
            },
            view (public_view now a),
          )
      | some old ↦
          let a = updated_agent rt p old in
          (record s { agents = insert p.agent_id a s.agents }, view (public_view now a))
    ]

-- The lookup that the remaining routes begin with.
abbrev pub with_agent : String → Signer → (Agent → Signer × Answer) → Signer × Answer
with_agent id s f = elim (lookup id s.agents) [ none ↦ (s, refused 404 "no-agent") | some a ↦ f a ]

-- `GET /v1/agents/:id`.
pub get_agent : ℕ → String → Signer → Signer × Answer
get_agent now id s = with_agent id s λ a. (s, view (public_view now a))

-- `PUT /v1/agents/:id/policy`.
pub set_policy :
    Runtime → ℕ → String → Option PolicyInput → Option RawVerified → Signer → Signer × Answer
set_policy rt now id policy verified s = with_agent id s λ a.
    let a' = record a {
      policy = policy_or_empty policy;
      verified = elim verified [ none ↦ a.verified | some v ↦ normalize_verified rt.convert v ];
    } in
    (record s { agents = insert id a' s.agents }, view (public_view now a'))

-- `PUT /v1/agents/:id/owner`; an owner that is no text is "".
pub set_owner : ℕ → String → String → Signer → Signer × Answer
set_owner now id owner s = with_agent id s λ a.
    let a' = record a { owner = some owner } in
    if is_pubkey owner
    then (record s { agents = insert id a' s.agents }, view (public_view now a'))
    else (s, refused 400 "bad-owner")

-- The agent's key, opened for one use; a key that is missing or does not open throws.
abbrev pub open_key : Runtime → Agent → Signer → Option String
open_key rt a s = elim (lookup a.id s.keys) [ none ↦ none | some sealed ↦ rt.open_seal sealed ]

-- The amount is `Math.round(Number(amountSol) * 1e9)`, so counted in lamports; an amount that is not
-- above zero is refused.
abbrev requested : Option Number → Option (Option ℕ)
requested none = some none
requested (some x) = elim (positive x) [ none ↦ none | some n ↦ some (some n) ]

withdraw_checked : Runtime → Chain → Agent → Option Number → Signer → Answer
withdraw_checked rt net a amount s = elim a.owner [
  | none ↦ refused 409 "no-owner"
  | some owner ↦ elim (requested amount) [
    | none ↦ refused 400 "bad-amount"
    | some lamports ↦ elim (open_key rt a s) [
      | none ↦ refused 400 ""
      | some seed ↦ withdrawal (withdraw_sol (rt.sign_bytes seed) net a.address owner lamports)
    ]
  ]
]

-- `POST /v1/agents/:id/withdraw`. The recipient is the owner on file.
pub withdraw : Runtime → Chain → String → Option Number → Signer → Signer × Answer
unfolding withdraw_checked
withdraw rt net id amount s = with_agent id s λ a. (s, withdraw_checked rt net a amount s)

-- `POST /v1/agents/:id/export`.
pub export_key : Runtime → String → Signer → Signer × Answer
export_key rt id s = with_agent id s λ a. elim (lookup a.id s.keys) [
  | none ↦ (s, refused 400 "")
  | some sealed ↦ elim (rt.open_seal sealed) [
    | none ↦ (s, refused 400 "")
    | some seed ↦ (s, exported a.address (rt.secret_key_of seed))
  ]
]

-- `POST /v1/agents/:id/session`, with the token that was drawn.
pub open_session : Runtime → ℕ → String → String → String → Signer → Signer × Answer
open_session rt now id node token s = with_agent id s λ a.
    let epoch = epoch_of a + 1 in
    let opened : Session = record {
      epoch = epoch;
      token_hash = rt.sha256hex token;
      node = node;
      opened_at = now;
    } in
    (
      record s { agents = insert id (record a { session = some opened }) s.agents },
      session a.address epoch token a.policy.paper,
    )

-- signer/withdraw.js: `hasTokenBalance`, over the amounts that each token program reports.
pub has_token_balance : List (RpcResult (List ℕ)) → RpcResult Bool
has_token_balance [] = result false
has_token_balance (unavailable ∷ programs) = unavailable
has_token_balance (method_error ∷ programs) = method_error
has_token_balance (result amounts ∷ programs) =
    let rest = has_token_balance programs in
    if any (λ n. ltb 0 n) amounts then result true else rest

-- The refusal of a destruction, or none.
pub not_empty : RpcResult ℕ → RpcResult Bool → Option (ℕ × String)
not_empty (result balance) (result tokens) =
    if ltb 10000 balance || tokens then some (409, "not-empty") else none
not_empty _ _ = some (503, "balance-unreadable")

-- `DELETE /v1/agents/:id`.
pub destroy : String → Bool → RpcResult ℕ → List (RpcResult (List ℕ)) → Signer → Signer × Answer
unfolding has_token_balance not_empty
destroy id force balance programs s = with_agent id s λ a.
    let gone : Signer × Answer =
      (record s { agents = erase id s.agents; keys = erase id s.keys }, destroyed) in
    if force then gone else elim (not_empty balance (has_token_balance programs)) [
      | some (status, code) ↦ (s, refused status code)
      | none ↦ gone
    ]
