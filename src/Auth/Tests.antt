-- ===== src/Auth/Tests.antt =====
-- A signed request of a toy runtime, in which every signature verifies, and the time stamp is 1000.
use circuit_agent_cloud.Prelude.{
  ℕ, ◌+◌, ◌≤◌, ◌≡◌, ◌≢◌, refl, true, false, String, [], ◌∷◌, some, num, pos, arith, lookup, insert,
  ℤ,
}
use circuit_agent_cloud.Base58.{
  base58decode, digits_from, mul_add, push_carry, leading, after_leading, digits_of, index_of,
}
use circuit_agent_cloud.Auth.Nonces.{Store, has, after_has, add}
use circuit_agent_cloud.Auth.{
  Request, Crypto, authenticated, expiry, signed_by, verify_request, owner_domain, auth_message,
}
use circuit_agent_cloud.Auth.Laws.{Signed, verify_request_sound}
use circuit_agent_cloud.Auth.Replay.{run_requests, authenticated_once}

abbrev toy : Crypto
toy = record {
  sha256hex = λ s. s;
  to_upper = λ s. s;
  parse_number = λ s. num (pos 1000);
  verify = λ key message sig. some true;
}

abbrev start_agent : Request
start_agent = record {
  method = "POST";
  path = "/v1/agents/a/start";
  body = "{}";
  who = "2";
  ts = "1000";
  nonce = "n";
  sig = "3";
}

abbrev stored : Store
stored = ("n", 31000) ∷ []

request_runs :
    verify_request toy owner_domain 30000 2000 start_agent [] ≡ (authenticated "2", stored)
unfolding verify_request expiry signed_by auth_message has after_has add lookup insert base58decode
    digits_from mul_add push_carry leading after_leading digits_of index_of
request_runs = refl

expires_at : expiry 30000 2000 (num (pos 1000)) ≡ some 31000
unfolding expiry
expires_at = refl

verify_request_sound_example :
    (◌≡◌ {A = String} "2" "2")
    × (has 2000 "n" [] ≡ false)
    × ((z : ℤ) × (e : ℕ) × (num (pos 1000) ≡ num z)
        × Signed toy owner_domain start_agent z
        × (expiry 30000 2000 (num z) ≡ some e)
        × (2000 ≤ e)
        × (e ≤ 2000 + 30000 + 30000)
        × (stored ≡ add 2000 "n" e (after_has 2000 "n" [])))
verify_request_sound_example =
    verify_request_sound toy owner_domain "2" 30000 2000 start_agent [] stored request_runs

abbrev other_agent : Request
other_agent = record start_agent { nonce = "m" }

authenticated_once_example :
    verify_request toy owner_domain 30000 4000 start_agent
      (run_requests toy owner_domain 30000 ((3000, other_agent) ∷ []) stored)
    ≢ (authenticated "2", [])
authenticated_once_example =
    authenticated_once toy owner_domain "2" "2" 30000 2000 4000 start_agent
      ((3000, other_agent) ∷ []) [] stored [] (pos 1000) 31000 request_runs refl expires_at
      (omega arith, omega arith) (ground arith)
