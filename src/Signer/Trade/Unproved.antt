-- ===== src/Signer/Trade/Unproved.antt =====
-- zkTLS evidence under the options that the intent handler passes to the gate.
use circuit_agent_cloud.Prelude.{ℕ, ◌≡◌, refl, true, false}
use circuit_agent_cloud.Proto.Value.{to_number}
use circuit_agent_cloud.VerifiedIntent.Evidence.{
  ZkTls, zktls, Content, accepts, max_age, verify_evidence, pass, proof_code,
}
use circuit_agent_cloud.VerifiedIntent.Evidence.Laws.{IsFresh, verify_evidence_iff}
use circuit_agent_cloud.VerifiedIntent.Replay.{Nonces, has, add}
use circuit_agent_cloud.VerifiedIntent.Rule.{Verified}
use circuit_agent_cloud.Signer.State.{Runtime}
use circuit_agent_cloud.Signer.Trade.{gate_options}

-- The gap that the handler's options leave: zkTLS evidence passes without any proof, whatever its claim
-- says, as soon as it names an accepted notary, a fresh session and a nonce that is not on file.
pub zktls-unproved :
    (rt : Runtime) (v : Verified) (now : ℕ) (z : ZkTls) (m : Nonces) (claim : Content)
    → accepts (gate_options rt v) z.notary ≡ true
    → IsFresh (max_age (gate_options rt v)) now (to_number rt.convert z.session_time)
    → has z.nonce m ≡ false
    → verify_evidence rt.convert (gate_options rt v) now (zktls (record z { claim = claim })) m
      ≡ pass (add now z.nonce m)
unfolding gate_options proof_code
zktls-unproved rt v now z m claim accepted recent unspent =
    (verify_evidence_iff rt.convert (gate_options rt v) now (zktls (record z { claim = claim })) m
        (add now z.nonce m)).1
      (((accepted, refl), recent), unspent, refl)
