-- ===== src/VerifiedIntent/Gate/Tests.antt =====
-- The gate at a dip-buying rule with one signed quote.
use circuit_agent_cloud.Prelude.{
  ◌≡◌, refl, ◌≢◌, false, [], ◌∷◌, none, some, nan, num, pos, lookup, arith,
}
use circuit_agent_cloud.Proto.Value.{text, number, other, undefined, strict_eq, Convert}
use circuit_agent_cloud.VerifiedIntent.Replay.{Nonces, has, add, find, file}
use circuit_agent_cloud.VerifiedIntent.Replay.Laws.{add_all}
use circuit_agent_cloud.VerifiedIntent.Evidence.{
  Evidence, signed_quote, Options, pass, verify_evidence, trusts, quote_payload, fresh_once,
  evidence_backs, backs, holds, fields, stale, max_age, zktls, accepts, proof_code,
}
use circuit_agent_cloud.VerifiedIntent.Evidence.Laws.{replay_refused}
use circuit_agent_cloud.VerifiedIntent.Rule.{
  Rule, evaluate_rule, same_intent, fires, cmp, input_at, intent_of, nullish_to_null,
}
use circuit_agent_cloud.VerifiedIntent.Gate.{
  VerifiedIntent, verified, verify_all, decision_gate, names_rule, judge, all_backed, justified,
}
use circuit_agent_cloud.VerifiedIntent.Gate.Laws.{
  IsJustified, decision_gate_sound, decision_gate_complete,
}

abbrev convert : Convert
convert = record { show_number = λ n. "0"; parse_number = λ s. nan }

abbrev options : Options
options = record {
  accepted_keys = ("feed", "data") ∷ [];
  accepted_notaries = [];
  max_age_ms = 60000;
  verify_payload = λ key p sig. strict_eq sig (text "genuine");
  verify_zk_tls = none;
  require_zk_tls_proof = false;
}

abbrev quote : Evidence
quote = signed_quote (record {
  key = text "feed";
  path = text "/price";
  content = fields (("price", number (num (pos 90))) ∷ []);
  ts = number (num (pos 1_000_000_000_000));
  nonce = text "n1";
  sig = text "genuine";
})

abbrev dip : Rule
dip = record {
  id = "dip";
  conditions = record { input = "price"; op = "<"; value = number (num (pos 100)) } ∷ [];
  action = record {
    kind = text "buy";
    token = text "MINT";
    size_sol = number (num (pos 5));
    token_input = none;
    size_input = none;
  };
  requires = "price" ∷ [];
}

abbrev claim : VerifiedIntent
claim = record {
  rule = some "dip";
  intent = record { kind = text "buy"; token = text "MINT"; size_sol = number (num (pos 5)) };
  inputs = ("price", number (num (pos 90))) ∷ [];
  evidence = quote ∷ [];
}

abbrev spent : Nonces
spent = (text "n1", 2000) ∷ []

gate_runs : decision_gate convert options dip 2000 claim [] ≡ (verified, spent)
unfolding decision_gate names_rule judge verify_all verify_evidence trusts quote_payload fresh_once
    stale max_age has find add file lookup all_backed evidence_backs backs holds input_at justified
    evaluate_rule fires cmp intent_of same_intent nullish_to_null
gate_runs = refl

quote_passes : verify_evidence convert options 2000 quote [] ≡ pass spent
unfolding verify_evidence trusts quote_payload fresh_once stale max_age has find add file lookup
quote_passes = refl

decision_gate_sound_example : IsJustified convert options dip 2000 claim [] spent
decision_gate_sound_example = decision_gate_sound convert options dip 2000 claim [] spent gate_runs

decision_gate_complete_example : decision_gate convert options dip 2000 claim [] ≡ (verified, spent)
decision_gate_complete_example =
    decision_gate_complete convert options dip 2000 claim [] spent decision_gate_sound_example

replay_refused_example :
    verify_evidence convert options 3000 quote (add_all ((2500, text "n2") ∷ []) spent) ≢ pass []
unfolding max_age
replay_refused_example =
    replay_refused convert options options quote 2000 3000 ((2500, text "n2") ∷ []) [] spent []
      quote_passes refl (omega arith) (omega arith) (omega arith)

-- A session of an accepted notary with no time, and a list for its nonce: it passes for the second time,
-- a quarter of an hour after the first.
abbrev notarised : Options
notarised = record options { accepted_notaries = "notary" ∷ [] }

abbrev undated : Evidence
undated = zktls (record {
  notary = text "notary";
  claim = fields [];
  session_time = undefined;
  nonce = other "";
})

undated_passes :
    verify_evidence convert notarised 900_000 undated ((other "", 2000) ∷ [])
    ≡ pass ((other "", 2000) ∷ (other "", 900_000) ∷ [])
unfolding verify_evidence accepts proof_code fresh_once stale has find add file
undated_passes = refl
