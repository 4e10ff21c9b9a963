-- ===== src/VerifiedIntent/Gate.antt =====
-- lib/verified-intent.js: `decisionGate`.
pub mod Laws
mod Tests
use circuit_agent_cloud.Prelude.{
  ℕ, Bool, true, false, not, String, ◌==◌, List, [], ◌∷◌, Option, none, some, if◌then◌else◌,
}
use circuit_agent_cloud.Proto.Value.{Convert}
use circuit_agent_cloud.VerifiedIntent.Replay.{Nonces}
use circuit_agent_cloud.VerifiedIntent.Evidence.{
  Evidence, Options, Code, unknown_rule, input_mismatch, decision_unjustified, pass, reject,
  verify_evidence, evidence_backs,
}
use circuit_agent_cloud.VerifiedIntent.Rule.{
  Rule, Inputs, Intent, input_at, evaluate_rule, same_intent,
}

-- `vi`, with a body field that is no text as `none`, and one that is missing as empty.
pub record VerifiedIntent : Type 0 where
  pub rule : Option String
  pub intent : Intent
  pub inputs : Inputs
  pub evidence : List Evidence

pub data Verdict : Type 0 where
  verified : Verdict
  -- An error was thrown.
  threw : Verdict
  rejected : Code → Verdict

-- The loop over the evidence. What was spent before a rejection stays spent.
pub verify_all : Convert → Options → ℕ → List Evidence → Nonces → Option Code × Nonces
verify_all c o now [] replay = (none, replay)
verify_all c o now (e ∷ es) replay = elim (verify_evidence c o now e replay) [
  | reject code ↦ (some code, replay)
  | pass replay' ↦ verify_all c o now es replay'
]

-- The loop over `rule.requires`; `none` is a thrown error.
pub all_backed : List String → List Evidence → Inputs → Option Bool
all_backed [] evidence inputs = some true
all_backed (k ∷ ks) evidence inputs = elim (evidence_backs evidence k (input_at inputs k)) [
  | none ↦ none
  | some false ↦ some false
  | some true ↦ all_backed ks evidence inputs
]

pub justified : Convert → Rule → VerifiedIntent → Bool
justified c r vi = elim (evaluate_rule c r vi.inputs) [
  | none ↦ false
  | some expected ↦ same_intent expected vi.intent
]

names_rule : Rule → VerifiedIntent → Bool
names_rule r vi = elim vi.rule [ none ↦ false | some id ↦ id == r.id ]

judge : Convert → Rule → VerifiedIntent → Option Code → Verdict
judge c r vi (some code) = rejected code
judge c r vi none = elim (all_backed r.requires vi.evidence vi.inputs) [
  | none ↦ threw
  | some false ↦ rejected input_mismatch
  | some true ↦ if justified c r vi then verified else rejected decision_unjustified
]

pub decision_gate : Convert → Options → Rule → ℕ → VerifiedIntent → Nonces → Verdict × Nonces
unfolding names_rule judge
decision_gate c o r now vi replay =
    let checked = verify_all c o now vi.evidence replay in
    if not (names_rule r vi)
    then (rejected unknown_rule, replay)
    else (judge c r vi checked.0, checked.1)
