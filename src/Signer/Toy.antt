-- ===== src/Signer/Toy.antt =====
-- The signer on one agent, `dca`: a toy runtime whose hashes and seals are the texts themselves.
use circuit_agent_cloud.Prelude.{
  String, refl, ◌==◌, [], ◌∷◌, none, some, nan, num, pos, lookup, arith, Bool-cases, inl, inr,
  eq_iff, false,
}
use circuit_agent_cloud.Proto.Value.{strict_eq, text, undefined, number, Convert}
use circuit_agent_cloud.Proto.Policy.{Policy, default_policy}
use circuit_agent_cloud.VerifiedIntent.Rule.{Verified}
use circuit_agent_cloud.Signer.State.{Agent, Session, Signer, Runtime}
use circuit_agent_cloud.Signer.Change.{Keyed}
use circuit_agent_cloud.Signer.Trade.{Body}
use circuit_agent_cloud.Signer.History.Custody.{Custody}

abbrev pub toy_convert : Convert
toy_convert = record { show_number = λ n. "0"; parse_number = λ s. nan }

abbrev pub toy : Runtime
toy = record {
  sha256hex = λ s. s;
  seal = λ s. s;
  open_seal = λ s. some s;
  address_of = λ s. s;
  secret_key_of = λ s. s;
  sign = λ seed m. seed;
  print = λ a. "intent";
  sign_bytes = λ seed bytes. bytes;
  verify_payload = λ key p sig. strict_eq sig (text "genuine");
  convert = toy_convert;
}

-- The same with another address.
abbrev pub toy_at : String → Runtime
toy_at w = record toy { address_of = λ seed. w }

abbrev pub no_rule : Verified
no_rule = record {
  rule = none;
  accepted_keys = [];
  accepted_notaries = [];
  evidence_max_age_ms = 60000;
}

abbrev pub first_session : Session
first_session = record { epoch = 1; token_hash = "t1"; node = "n1"; opened_at = 0 }

abbrev pub dca : Policy → Agent
dca p = record {
  id = "dca";
  address = "seed";
  owner = some "owner";
  policy = p;
  verified = no_rule;
  day = 0;
  day_spent_sol = 480_000_000;
  last_trade_ts = 0;
  session = some first_session;
  created_at = 0;
}

abbrev pub signer_of : Policy → Signer
signer_of p = record { agents = ("dca", dca p) ∷ []; keys = ("dca", "seed") ∷ []; nonces = [] }

abbrev pub live_policy : Policy
live_policy = record default_policy { paper = false }

abbrev pub buy : Body
buy = record {
  epoch = some 1;
  token = "t1";
  intent = record {
    kind = text "buy";
    token = text "MINT";
    size_sol = number (num (pos 20_000_000));
  };
  amount = undefined;
  max_slippage_bps = undefined;
  rule = none;
  inputs = [];
  evidence = [];
}

pub signer_of-Custody : (p : Policy) → Custody toy (signer_of p)
unfolding lookup
signer_of-Custody p id a h = elim (Bool-cases ("dca" == id)) [
  | inl same ↦ record {
    same_id = ground (arith, eq_iff "dca" id);
    sealed = "seed";
    seed = "seed";
    on_file = ground arith;
    opens = refl;
    address = ground arith;
  }
  | inr other ↦ absurd (ground arith)
]

pub signer_of-Keyed : (p : Policy) → Keyed (signer_of p)
signer_of-Keyed p id a h = (signer_of-Custody p id a h).same_id
