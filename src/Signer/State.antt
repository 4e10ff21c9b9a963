-- ===== src/Signer/State.antt =====
-- signer/server.js: the state of the signer (`agents`, `keys`, the spent nonces) and what it takes
-- from elsewhere. Agent ids that every object inherits (`constructor`) are not modelled: the source
-- keeps the agents in a plain object.
use circuit_agent_cloud.Prelude.{ℕ, ◌/◌, Bool, String, List, Option, none, some}
use circuit_agent_cloud.Proto.Policy.{Policy}
use circuit_agent_cloud.Proto.Value.{Value, Convert}
use circuit_agent_cloud.VerifiedIntent.Evidence.{Payload}
use circuit_agent_cloud.VerifiedIntent.Replay.{Nonces}
use circuit_agent_cloud.VerifiedIntent.Rule.{Verified}

pub data Result {ℓ} (A : Type ℓ) : Type ℓ where
  ok : A → Result A
  -- `fail(status, code, …)`.
  fail : ℕ → String → Result A

infixl 5 ◌>>=◌ ◌>>◌
abbrev pub ◌>>=◌ {ℓ κ} : {A : Type ℓ} {B : Type κ} → Result A → (A → Result B) → Result B
ok a >>= f = f a
fail status code >>= f = fail status code

abbrev pub ◌>>◌ {ℓ} : {B : Type ℓ} → Result (Unit {0}) → Result B → Result B
m >> k = m >>= λ _. k

-- `if (test) fail(status, code, …)`.
abbrev pub fail_if : Bool → ℕ → String → Result (Unit {0})
fail_if Bool.true status code = fail status code
fail_if Bool.false status code = ok tt

abbrev pub or_fail {ℓ} : {A : Type ℓ} → Option A → ℕ → String → Result A
or_fail none status code = fail status code
or_fail (some a) status code = ok a

pub record Session : Type 0 where
  pub epoch : ℕ
  pub token_hash : String
  pub node : String
  pub opened_at : ℕ

pub record Agent : Type 0 where
  pub id : String
  pub address : String
  pub owner : Option String
  pub policy : Policy
  pub verified : Verified
  pub day : ℕ
  pub day_spent_sol : ℕ
  pub last_trade_ts : ℕ
  pub session : Option Session
  pub created_at : ℕ

pub record Signer : Type 0 where
  pub agents : List (String × Agent)
  pub keys : List (String × String)
  pub nonces : Nonces

-- What a signature over an intent covers, before it is printed as JSON.
pub record Attestation : Type 0 where
  pub agent_id : String
  pub epoch : ℕ
  pub kind : Value
  pub token : Value
  pub size_sol : Value
  pub ts : ℕ

-- The cryptography and the conversions that the runtime provides. Seeds, sealed seeds, keys and
-- signatures are their text forms; `open_seal` is `none` where decryption throws.
pub record Runtime : Type 0 where
  pub sha256hex : String → String
  pub seal : String → String
  pub open_seal : String → Option String
  pub address_of : String → String
  pub secret_key_of : String → String
  pub sign : String → String → String
  pub print : Attestation → String
  -- The signature over bytes.
  pub sign_bytes : String → List ℕ → List ℕ
  pub verify_payload : Value → Payload → Value → Bool
  pub convert : Convert

-- `utcDay()`, as the number of the day.
abbrev pub utc_day : ℕ → ℕ
utc_day now = now / 86_400_000
