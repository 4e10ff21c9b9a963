-- ===== src/Http/Tests.antt =====
-- A few requests.
use circuit_agent_cloud.Prelude.{
  ℕ, ◌≡◌, refl, true, false, [], ◌∷◌, Option, none, some, inl, nat_eq, same, if◌then◌else◌,
}
use circuit_agent_cloud.Base58.{codes}
use circuit_agent_cloud.Http.{
  Text, Route, Params, Ending, raises, returns_value, sends, unhandled, segments, serve, listener,
}
use circuit_agent_cloud.Http.Laws.{Reaches, serve-unhandled}

-- Only `%` cannot be decoded.
abbrev decode : Text → Option Text
decode [] = some []
decode (c ∷ cs) = if nat_eq c b'%' then none else some (c ∷ cs)

abbrev list_agents : Route ℕ
list_agents = record {
  method = "GET";
  parts = codes "v1" ∷ codes "agents" ∷ [];
  handler = 0;
  raw = false;
}

abbrev get_agent : Route ℕ
get_agent = record {
  method = "GET";
  parts = codes "v1" ∷ codes "agents" ∷ codes ":id" ∷ [];
  handler = 1;
  raw = false;
}

abbrev start_agent : Route ℕ
start_agent = record get_agent { method = "POST"; handler = 2 }

-- An agent that does not exist is an error without a status.
abbrev run : ℕ → Params → Text → Ending
run handler params text = if nat_eq handler 0 then returns_value false else raises 0 false

segments_test : segments [] (codes "/v1//agents/") ≡ codes "v1" ∷ codes "agents" ∷ []
unfolding segments
segments_test = refl

missing_test :
    serve decode (λ t. true) run (list_agents ∷ get_agent ∷ []) "GET" (codes "/v2") [] ≡ sends 404
unfolding serve
missing_test = refl

-- A URL without a host part is its path; one with an empty host is none.
abbrev pathname : Text → Option Text
pathname url = if same (codes "//") url then none else some url

empty_host_test : listener pathname decode (λ t. true) run [] "GET" (codes "//") [] ≡ unhandled
unfolding listener same
empty_host_test = refl

get_agent-Reaches :
    Reaches decode (λ t. true) run "GET" (codes "/v1/agents/%") [] (list_agents ∷ []) get_agent
unfolding segments
get_agent-Reaches = record { passed = (inl refl, tt); candidate = refl }

serve-unhandled_example :
    serve decode (λ t. true) run (list_agents ∷ get_agent ∷ []) "GET" (codes "/v1/agents/%") []
    ≡ unhandled
unfolding segments
serve-unhandled_example =
    serve-unhandled decode (λ t. true) run "GET" (codes "/v1/agents/%") [] (list_agents ∷ [])
      get_agent [] (codes "v1" ∷ codes "agents" ∷ []) (codes "id") (codes "%") [] []
      get_agent-Reaches refl refl (refl, (refl, tt)) refl
