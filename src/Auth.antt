-- ===== src/Auth.antt =====
-- lib/owner-auth.js and lib/node-auth.js: requests signed by an owner's wallet or by a node's key. The
-- two verifiers are the same but for the first line of the message.
pub mod Nonces
pub mod Laws
pub mod Replay
mod Tests
use circuit_agent_cloud.Prelude.{
  ℕ, ◌+◌, ◌-◌, ◌≡◌, Bool, true, false, not, ◌&&◌, ◌||◌, String, ◌==◌, List, [], ◌∷◌, Option, none,
  some, leb, nat_eq, if◌then◌else◌, Number, nan, num, ℤ, pos, negsuc,
}
use circuit_agent_cloud.Base58.{codes, base58decode}
use circuit_agent_cloud.Auth.Nonces.{Store, has, after_has, add}

-- The four headers, "" for one that is missing; `X-Circuit-Owner` or `X-Circuit-Node` is `who`. `body`
-- is what `stableStringify(body ?? {})` prints.
pub record Request : Type 0 where
  pub method : String
  pub path : String
  pub body : String
  pub who : String
  pub ts : String
  pub nonce : String
  pub sig : String

-- The lines that are signed, before they are joined.
pub record Message : Type 0 where
  pub domain : String
  pub method : String
  pub path : String
  pub body_hash : String
  pub ts : ℤ
  pub nonce : String

-- The runtime's part. `verify` is `none` where it throws, and joins the lines itself.
pub record Crypto : Type 0 where
  pub sha256hex : String → String
  pub to_upper : String → String
  pub parse_number : String → Number
  pub verify : List ℕ → Message → List ℕ → Option Bool

-- `ownerAuthMessage` and `nodeAuthMessage`.
pub auth_message : Crypto → String → Request → ℤ → Message
auth_message c domain r ts = record {
  domain = domain;
  method = c.to_upper r.method;
  path = r.path;
  body_hash = c.sha256hex r.body;
  ts = ts;
  nonce = r.nonce;
}

-- For a time stamp that is finite and at most `max_age` from now, either way: the moment at which it
-- ages out.
pub expiry : ℕ → ℕ → Number → Option ℕ
expiry max_age now nan = none
expiry max_age now (num (pos t)) =
    if leb (now - t) max_age && leb (t - now) max_age then some (t + max_age) else none
expiry max_age now (num (negsuc t)) =
    if leb (now + t + 1) max_age then some (max_age - (t + 1)) else none

abbrev pub stamp_of : Number → ℤ
stamp_of nan = pos 0
stamp_of (num z) = z

-- `verify(base58decode(who), message, base58decode(sig))`, `none` where one of them throws.
pub signed_by : Crypto → String → Request → ℤ → Option Bool
unfolding auth_message
signed_by c domain r ts = elim (base58decode (codes r.who)) [
  | none ↦ none
  | some key ↦ elim (base58decode (codes r.sig)) [
    | none ↦ none
    | some sig ↦ c.verify key (auth_message c domain r ts) sig
  ]
]

pub data Outcome : Type 0 where
  unsigned : Outcome
  authenticated : String → Outcome
  -- Status 401, with the reason.
  refused : String → Outcome

abbrev pub judge_signature : Option Bool → String → Outcome
judge_signature none who = refused "malformed signature"
judge_signature (some false) who = refused "bad signature"
judge_signature (some true) who = authenticated who

abbrev pub is_unsigned : Request → Bool
is_unsigned r = r.who == "" && r.ts == "" && r.nonce == "" && r.sig == ""

abbrev pub is_incomplete : Request → Bool
is_incomplete r = r.who == "" || r.ts == "" || r.nonce == "" || r.sig == ""

-- `verifyOwnerRequest` and `verifyNodeRequest`, with the nonces that they leave. The nonce is spent
-- before the signature is looked at.
pub verify_request : Crypto → String → ℕ → ℕ → Request → Store → Outcome × Store
unfolding expiry signed_by
verify_request c domain max_age now r store =
    if is_unsigned r
    then (unsigned, store)
    else if is_incomplete r
    then (refused "incomplete signature headers", store)
    else elim (expiry max_age now (c.parse_number r.ts)) [
      | none ↦ (refused "stale or invalid timestamp", store)
      | some e ↦ if has now r.nonce store then (refused "nonce replay", store) else (
        judge_signature (signed_by c domain r (stamp_of (c.parse_number r.ts))) r.who,
        add now r.nonce e (after_has now r.nonce store),
      )
    ]

abbrev pub owner_domain : String
owner_domain = "circuit-owner-auth"

abbrev pub node_domain : String
node_domain = "circuit-node-auth"
