-- ===== src/Base58/Tests.antt =====
-- Bytes to characters and back.
use circuit_agent_cloud.Prelude.{◌≡◌, [], ◌∷◌, some, arith}
use circuit_agent_cloud.Base58.{base58, base58decode, push_carry}
use circuit_agent_cloud.Base58.Value.{value, push_carry-value}
use circuit_agent_cloud.Base58.RoundTrip.{base58decode-base58}

base58decode-base58_example :
    base58decode (base58 (0 ∷ 0 ∷ 255 ∷ 3 ∷ [])) ≡ some (0 ∷ 0 ∷ 255 ∷ 3 ∷ [])
base58decode-base58_example =
    base58decode-base58 (0 ∷ 0 ∷ 255 ∷ 3 ∷ [])
      (omega arith, (omega arith, (omega arith, (omega arith, tt))))

push_carry-value_example : value 58 (push_carry 58 16383 16383) ≡ 16383
push_carry-value_example = push_carry-value 58 (omega arith) 16383 16383 (omega arith)
