-- ===== src/VerifiedIntent/Rule.antt =====
-- lib/proto.js: `normalizeRule`, `normalizeVerified`; lib/verified-intent.js: `cmp`, `evaluateRule`,
-- `sameIntent`.
pub mod Laws
use circuit_agent_cloud.Prelude.{
  ℕ, zero, suc, max, Bool, true, false, not, ◌&&◌, String, ◌==◌, List, [], ◌∷◌, Option, none, some,
  lookup, map, if◌then◌else◌, lt_number, le_number, Number, nan, num, pos, negsuc, eq_number,
}
use circuit_agent_cloud.Proto.Value.{
  Value, undefined, null, boolean, number, text, other, Convert, strict_eq, is_nullish, is_falsy,
  to_text, to_number,
}
use circuit_agent_cloud.Proto.Policy.{Arg, absent, malformed, given}

pub record Condition : Type 0 where
  pub input : String
  pub op : String
  pub value : Value

-- `rule.then`; `token_input` and `size_input` are `none` when null.
pub record Action : Type 0 where
  pub kind : Value
  pub token : Value
  pub size_sol : Value
  pub token_input : Option String
  pub size_input : Option String

pub record Rule : Type 0 where
  pub id : String
  pub conditions : List Condition
  pub action : Action
  pub requires : List String

pub record RawCondition : Type 0 where
  pub input : Value
  pub op : Value
  pub value : Value

pub record RawRule : Type 0 where
  pub id : Value
  pub conditions : Arg (List RawCondition)
  pub action : Arg Action
  pub requires : Arg (List Value)

normalize_condition : Convert → RawCondition → Condition
normalize_condition c r = record { input = to_text c r.input; op = to_text c r.op; value = r.value }

abbrev default_action : Action
default_action = record {
  kind = text "buy";
  token = undefined;
  size_sol = undefined;
  token_input = none;
  size_input = none;
}

abbrev conditions_or_empty : Convert → Arg (List RawCondition) → List Condition
conditions_or_empty c (given cs) = map (normalize_condition c) cs
conditions_or_empty c _ = []

abbrev action_or_default : Arg Action → Action
action_or_default (given a) = a
action_or_default _ = default_action

abbrev texts_or_empty : Convert → Arg (List Value) → List String
texts_or_empty c (given vs) = map (to_text c) vs
texts_or_empty c _ = []

-- The argument is an object; `normalize_verified` handles a missing rule.
unfoldable pub normalize_rule : Convert → RawRule → Rule
unfolding normalize_condition
normalize_rule c r = record {
  id = if is_falsy r.id then "" else to_text c r.id;
  conditions = conditions_or_empty c r.conditions;
  action = action_or_default r.action;
  requires = texts_or_empty c r.requires;
}

pub record RawVerified : Type 0 where
  pub rule : Option RawRule
  pub accepted_keys : Arg (List (String × String))
  pub accepted_notaries : Arg (List Value)
  pub evidence_max_age_ms : Option Number

pub record Verified : Type 0 where
  pub rule : Option Rule
  pub accepted_keys : List (String × String)
  pub accepted_notaries : List String
  pub evidence_max_age_ms : ℕ

-- `Math.max(1000, Number(x) || 60000)`.
abbrev age_or_default : Option Number → ℕ
age_or_default none = 60000
age_or_default (some nan) = 60000
age_or_default (some (num (pos zero))) = 60000
age_or_default (some (num (pos (suc n)))) = max 1000 (suc n)
age_or_default (some (num (negsuc n))) = 1000

abbrev keys_or_empty : Arg (List (String × String)) → List (String × String)
keys_or_empty (given ks) = ks
keys_or_empty _ = []

abbrev rule_or_none : Convert → Option RawRule → Option Rule
rule_or_none c none = none
rule_or_none c (some r) = some (normalize_rule c r)

unfoldable pub normalize_verified : Convert → RawVerified → Verified
normalize_verified c v = record {
  rule = rule_or_none c v.rule;
  accepted_keys = keys_or_empty v.accepted_keys;
  accepted_notaries = texts_or_empty c v.accepted_notaries;
  evidence_max_age_ms = age_or_default v.evidence_max_age_ms;
}

abbrev on_numbers : (Number → Number → Bool) → Value → Value → Bool
on_numbers f (number a) (number b) = f a b
on_numbers f _ _ = false

unfoldable pub cmp : Value → String → Value → Bool
cmp a op b =
    if op == "=="
    then strict_eq a b
    else if op == "!="
    then not (strict_eq a b)
    else if op == "<"
    then on_numbers lt_number a b
    else if op == "<="
    then on_numbers le_number a b
    else if op == ">"
    then on_numbers (λ x y. lt_number y x) a b
    else if op == ">="
    then on_numbers (λ x y. le_number y x) a b
    else false

abbrev pub Inputs : Type 0
Inputs = List (String × Value)

-- `inputs[k]`.
unfoldable pub input_at : Inputs → String → Value
input_at inputs k = elim (lookup k inputs) [ none ↦ undefined | some v ↦ v ]

-- A missing field is `undefined`.
pub record Intent : Type 0 where
  pub kind : Value
  pub token : Value
  pub size_sol : Value

unfoldable pub fires : Inputs → List Condition → Bool
fires inputs [] = true
fires inputs (c ∷ cs) = cmp (input_at inputs c.input) c.op c.value && fires inputs cs

abbrev token_from : Convert → Inputs → Option String → Value
token_from c inputs none = undefined
token_from c inputs (some k) = text (to_text c (input_at inputs k))

abbrev size_from : Convert → Inputs → Option String → Value
size_from c inputs none = undefined
size_from c inputs (some k) = number (to_number c (input_at inputs k))

unfoldable pub intent_of : Convert → Action → Inputs → Intent
intent_of c a inputs = record {
  kind = a.kind;
  token = if is_nullish a.token then token_from c inputs a.token_input else a.token;
  size_sol = if is_nullish a.size_sol then size_from c inputs a.size_input else a.size_sol;
}

unfoldable pub evaluate_rule : Convert → Rule → Inputs → Option Intent
evaluate_rule c r inputs =
    if fires inputs r.conditions then some (intent_of c r.action inputs) else none

-- `nn`.
unfoldable pub nullish_to_null : Value → Value
nullish_to_null v = if is_nullish v then null else v

unfoldable pub same_intent : Intent → Intent → Bool
unfolding nullish_to_null
same_intent a b =
    strict_eq a.kind b.kind
    && strict_eq (nullish_to_null a.token) (nullish_to_null b.token)
    && strict_eq (nullish_to_null a.size_sol) (nullish_to_null b.size_sol)
