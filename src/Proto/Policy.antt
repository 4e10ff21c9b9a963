-- ===== src/Proto/Policy.antt =====
-- lib/proto.js: the owner's trading limits, and their normalisation.
-- Amounts of SOL are counted in units of 10^-9 SOL, times in milliseconds.
pub mod Laws
use circuit_agent_cloud.Prelude.{
  ℕ, max, Bool, true, false, String, ◌==◌, ◌||◌, List, [], ◌∷◌, Option, none, some, Number,
  max_zero, keep,
}

-- A field of an untyped object: missing, present with another type, or present with the wanted one.
pub data Arg {ℓ} (A : Type ℓ) : Type ℓ where
  absent malformed : Arg A
  given : A → Arg A

-- The argument of `normalizePolicy`. A present amount is the `Number` of whatever is there.
pub record PolicyInput : Type 0 where
  pub max_notional_sol : Option Number
  pub max_daily_sol : Option Number
  pub cooldown_ms : Option Number
  pub allow : Arg (List String)
  pub deny_tokens : Arg (List String)
  pub allow_tokens : Arg (List String)
  pub paper : Arg Bool
  pub require_verified_intent : Arg Bool

pub record Policy : Type 0 where
  pub max_notional_sol : ℕ
  pub max_daily_sol : ℕ
  pub cooldown_ms : ℕ
  pub allow : List String
  pub deny_tokens : List String
  pub allow_tokens : Option (List String)
  pub paper : Bool
  pub require_verified_intent : Bool

abbrev pub default_policy : Policy
default_policy = record {
  max_notional_sol = 50_000_000;
  max_daily_sol = 500_000_000;
  cooldown_ms = 30000;
  allow = "buy" ∷ "sell" ∷ [];
  deny_tokens = [];
  allow_tokens = none;
  paper = true;
  require_verified_intent = false;
}

-- `Math.max(0, Number(x) || 0)` of a field that a default fills.
abbrev amount_or : ℕ → Option Number → ℕ
amount_or d none = d
amount_or d (some x) = max_zero x

abbrev pub is_kind : String → Bool
is_kind k = k == "buy" || k == "sell"

abbrev kinds : Arg (List String) → List String
kinds (given ks) = keep is_kind ks
kinds _ = "buy" ∷ "sell" ∷ []

abbrev tokens : Arg (List String) → List String
tokens (given ts) = ts
tokens _ = []

abbrev some_tokens : Arg (List String) → Option (List String)
some_tokens (given ts) = some ts
some_tokens _ = none

-- `x !== false` and `x === true`.
abbrev pub not_false : Arg Bool → Bool
not_false (given false) = false
not_false _ = true

abbrev pub is_true : Arg Bool → Bool
is_true (given true) = true
is_true _ = false

unfoldable pub normalize_policy : PolicyInput → Policy
normalize_policy p =
    let notional = amount_or default_policy.max_notional_sol p.max_notional_sol in
    record {
      max_notional_sol = notional;
      max_daily_sol = max notional (amount_or default_policy.max_daily_sol p.max_daily_sol);
      cooldown_ms = amount_or default_policy.cooldown_ms p.cooldown_ms;
      allow = kinds p.allow;
      deny_tokens = tokens p.deny_tokens;
      allow_tokens = some_tokens p.allow_tokens;
      paper = not_false p.paper;
      require_verified_intent = is_true p.require_verified_intent;
    }

-- The fields of `{}`.
abbrev pub empty_input : PolicyInput
empty_input = record {
  max_notional_sol = none;
  max_daily_sol = none;
  cooldown_ms = none;
  allow = absent;
  deny_tokens = absent;
  allow_tokens = absent;
  paper = absent;
  require_verified_intent = absent;
}
