-- ===== src/NodeHost/Tests.antt =====
-- A bundle's environment on an operator's machine.
use circuit_agent_cloud.Prelude.{◌≡◌, refl, true, [], ◌∷◌, none, some, lookup, All}
use circuit_agent_cloud.NodeHost.Env.{Vars, Assignment, secret_env, build_agent_env}
use circuit_agent_cloud.NodeHost.Env.Laws.{build_agent_env-keeps_secrets}

abbrev guest : Assignment
guest = record {
  name = "guest";
  has_bundle = true;
  declared = ("AGENT_KEYPAIR", "forged") ∷ ("CIRCUIT_AGENT_ID", "forged") ∷ ("MODE", "fast") ∷ [];
  signer = some (record {
    url = "http://signer";
    agent_id = "a";
    epoch = "1";
    token = "t";
    address = "addr";
    paper = true;
  });
}

abbrev operator : Vars
operator = ("AGENT_KEYPAIR", "secret") ∷ ("CIRCUIT_RPC_URL", "keyed") ∷ ("GATEWAY_URL", "url") ∷ []

build_agent_env-keeps_secrets_example :
    All (λ k. lookup k (build_agent_env guest "/d" "/d/tmp" operator) ≡ none) secret_env
build_agent_env-keeps_secrets_example =
    build_agent_env-keeps_secrets guest "/d" "/d/tmp" operator refl
