-- ===== src/VerifiedIntent/Rule/Laws.antt =====
-- Equality of intents.
use circuit_agent_cloud.Prelude.{
  ◌≡◌, true, false, arith, eq_iff, nan, num, pos, negsuc, and_parts, ap, Number, eq_number,
}
use circuit_agent_cloud.Proto.Value.{Value, undefined, null, boolean, number, text, strict_eq}
use circuit_agent_cloud.VerifiedIntent.Rule.{Intent, same_intent, nullish_to_null}

eq_number→≡ : (a b : Number) → eq_number a b ≡ true → a ≡ b
eq_number→≡ nan b h = cc
eq_number→≡ (num a) nan h = cc
eq_number→≡ (num (pos a)) (num b) h = ground arith
eq_number→≡ (num (negsuc a)) (num b) h = ground arith

pub strict_eq→≡ : (a b : Value) → strict_eq a b ≡ true → a ≡ b
strict_eq→≡ (number a) (number b) h = ap number (eq_number→≡ a b h)
strict_eq→≡ (text s) (text t) h = ap text ((eq_iff s t).0 h)
strict_eq→≡ (boolean true) (boolean b) h = ground arith
strict_eq→≡ (boolean false) (boolean b) h = ground arith
strict_eq→≡ undefined b h = ground arith
strict_eq→≡ null b h = ground arith
strict_eq→≡ _ _ h = ground arith

-- Two intents that the source calls the same agree on the action, the token and the size, where
-- `undefined` and `null` count as one.
pub same_intent→≡ :
    (a b : Intent)
    → same_intent a b ≡ true
    → (a.kind ≡ b.kind)
      × (nullish_to_null a.token ≡ nullish_to_null b.token)
      × (nullish_to_null a.size_sol ≡ nullish_to_null b.size_sol)
unfolding same_intent
same_intent→≡ a b h =
    let (front, size) = and_parts _ _ h in
    let (kind, token) = and_parts _ _ front in
    (strict_eq→≡ _ _ kind, strict_eq→≡ _ _ token, strict_eq→≡ _ _ size)
