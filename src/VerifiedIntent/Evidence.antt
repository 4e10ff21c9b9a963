-- ===== src/VerifiedIntent/Evidence.antt =====
-- lib/verified-intent.js: `quotePayload`, `receiptPayload`, `verifyEvidence` and `evidenceBacks`.
-- Evidence comes out of a JSON body as it is: a field may have any type, and a missing one is
-- `undefined`. The nonce store is always given, as the signer gives it.
pub mod Laws
use circuit_agent_cloud.Prelude.{
  ℕ, suc, ◌+◌, ◌*◌, Bool, true, false, not, ◌&&◌, String, ◌==◌, List, [], ◌∷◌, Option, none, some,
  Number, nan, num, pos, negsuc, lookup, any, ltb, nat_eq, if◌then◌else◌,
}
use circuit_agent_cloud.Proto.Value.{
  Value, undefined, null, text, scale, Convert, strict_eq, is_nullish, to_text, to_number,
}
use circuit_agent_cloud.VerifiedIntent.Replay.{Nonces, has, add}

abbrev pub Fields : Type 0
Fields = List (String × Value)

-- The `data` of a quote or the `claim` of a session: an object's own fields, or a value that is no
-- object.
pub data Content : Type 0 where
  fields : Fields → Content
  scalar : Value → Content

pub record SignedQuote : Type 0 where
  pub key : Value
  pub path : Value
  pub content : Content
  pub ts : Value
  pub nonce : Value
  pub sig : Value

pub record InferenceReceipt : Type 0 where
  pub key : Value
  pub input_hash : Value
  pub output_hash : Value
  pub verdict : Value
  pub model_fp : Value
  pub ts : Value
  pub nonce : Value
  pub sig : Value

pub record ZkTls : Type 0 where
  pub notary : Value
  pub claim : Content
  pub session_time : Value
  pub nonce : Value

-- `unknown`: no object, or an object of another kind.
pub data Evidence : Type 0 where
  signed_quote : SignedQuote → Evidence
  inference_receipt : InferenceReceipt → Evidence
  zktls : ZkTls → Evidence
  unknown : Evidence

-- The fields that a signature covers.
pub data Payload : Type 0 where
  quote : Value → Content → Value → Value → Payload
  receipt : Value → Value → Value → Value → Value → Value → Payload

unfoldable pub quote_payload : SignedQuote → Payload
quote_payload q = quote q.path q.content q.ts q.nonce

pub receipt_payload : InferenceReceipt → Payload
receipt_payload r =
    receipt r.input_hash r.output_hash (if is_nullish r.verdict then null else r.verdict) r.model_fp
      r.ts r.nonce

pub data Code : Type 0 where
  evidence_unknown evidence_untrusted_key evidence_invalid evidence_stale evidence_replay : Code
  evidence_untrusted_notary evidence_zktls_unverified : Code
  unknown_rule input_mismatch decision_unjustified : Code

-- `opts`. `verify_payload` is the signature test on the canonical text of a payload, false where it
-- throws; a missing `verifyZkTls` is `none`, and a missing `maxAgeMs` 0.
pub record Options : Type 0 where
  pub accepted_keys : List (String × String)
  pub accepted_notaries : List String
  pub max_age_ms : ℕ
  pub verify_payload : Value → Payload → Value → Bool
  pub verify_zk_tls : Option (ZkTls → Bool)
  pub require_zk_tls_proof : Bool

-- `opts.maxAgeMs || 60000`.
unfoldable pub max_age : Options → ℕ
max_age o = if nat_eq o.max_age_ms 0 then 60000 else o.max_age_ms

-- `opts.acceptedKeys[key] === class`.
unfoldable pub trusts : Convert → Options → Value → String → Bool
trusts c o key class = elim (lookup (to_text c key) o.accepted_keys) [
  | none ↦ false
  | some found ↦ found == class
]

-- `now - ts > maxAge`, for the number that a stamp counts as; with NaN it is false.
unfoldable pub stale : Options → ℕ → Number → Bool
unfolding max_age
stale o now nan = false
stale o now (num (pos ts)) = ltb (max_age o * scale + ts) (now * scale)
stale o now (num (negsuc ts)) = ltb (max_age o * scale) (now * scale + suc ts)

-- The answer, and the store of spent nonces, which a rejection leaves as it was.
pub data Outcome : Type 0 where
  pass : Nonces → Outcome
  reject : Code → Outcome

-- The tail that the three kinds share: freshness, then replay, then the nonce is spent.
unfoldable pub fresh_once : Convert → Options → ℕ → Value → Value → Nonces → Outcome
fresh_once c o now ts nonce replay =
    if stale o now (to_number c ts)
    then reject evidence_stale
    else if has nonce replay
    then reject evidence_replay
    else pass (add now nonce replay)

-- `opts.acceptedNotaries.includes(notary)`.
unfoldable pub accepts : Options → Value → Bool
accepts o notary = any (λ t. strict_eq (text t) notary) o.accepted_notaries

unfoldable pub proof_code : Options → ZkTls → Option Code
proof_code o z = elim o.verify_zk_tls [
  | some verifies ↦ if verifies z then none else some evidence_invalid
  | none ↦ if o.require_zk_tls_proof then some evidence_zktls_unverified else none
]

unfoldable pub verify_evidence : Convert → Options → ℕ → Evidence → Nonces → Outcome
verify_evidence c o now (signed_quote q) replay =
    if not (trusts c o q.key "data")
    then reject evidence_untrusted_key
    else if not (o.verify_payload q.key (quote_payload q) q.sig)
    then reject evidence_invalid
    else fresh_once c o now q.ts q.nonce replay
verify_evidence c o now (inference_receipt r) replay =
    if not (trusts c o r.key "inference")
    then reject evidence_untrusted_key
    else if not (o.verify_payload r.key (receipt_payload r) r.sig)
    then reject evidence_invalid
    else fresh_once c o now r.ts r.nonce replay
verify_evidence c o now (zktls z) replay =
    if not (accepts o z.notary) then reject evidence_untrusted_notary else elim (proof_code o z) [
      | some code ↦ reject code
      | none ↦ fresh_once c o now z.session_time z.nonce replay
    ]
verify_evidence c o now unknown replay = reject evidence_unknown

-- `input in content && content[input] === value`; `none` is the error that `in` throws.
unfoldable pub holds : Content → String → Value → Option Bool
holds (fields fs) input value =
    some (elim (lookup input fs) [ none ↦ false | some v ↦ strict_eq v value ])
holds (scalar v) input value = none

unfoldable pub backs : Evidence → String → Value → Option Bool
unfolding holds
backs (signed_quote q) input value = holds q.content input value
backs (zktls z) input value = holds z.claim input value
backs (inference_receipt r) input value =
    some (not (strict_eq r.verdict undefined) && strict_eq r.verdict value)
backs unknown input value = some false

unfoldable pub evidence_backs : List Evidence → String → Value → Option Bool
unfolding backs
evidence_backs [] input value = some false
evidence_backs (e ∷ es) input value = elim (backs e input value) [
  | none ↦ none
  | some true ↦ some true
  | some false ↦ evidence_backs es input value
]
