-- ===== src/Proto/Tests.antt =====
-- The policy and the placement test at concrete requests.
use circuit_agent_cloud.Prelude.{false, [], ◌∷◌, none, some, nan, num, pos}
use circuit_agent_cloud.Proto.Policy.{PolicyInput, absent, given, malformed}
use circuit_agent_cloud.Proto.Sandbox.{Bundle}

abbrev odd_input : PolicyInput
odd_input = record {
  max_notional_sol = some (num (pos 7));
  max_daily_sol = some nan;
  cooldown_ms = none;
  allow = given ("buy" ∷ "withdraw" ∷ []);
  deny_tokens = malformed;
  allow_tokens = absent;
  paper = given false;
  require_verified_intent = malformed;
}

abbrev untrusted_bundle : Bundle
untrusted_bundle = record { runtime = ""; manifest_runtime = "oci" }

abbrev own_bundle : Bundle
own_bundle = record { runtime = "node"; manifest_runtime = "node" }
