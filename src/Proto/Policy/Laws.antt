-- ===== src/Proto/Policy/Laws.antt =====
-- What `normalizePolicy` guarantees to the signer, which trusts a stored policy.
use circuit_agent_cloud.Prelude.{
  ◌≤◌, ◌≡◌, refl, Bool, true, String, List, [], ◌∷◌, Option, none, some, num, pos, keep, All, arith,
}
use circuit_agent_cloud.Proto.Policy.{
  Arg, absent, malformed, given, PolicyInput, Policy, is_kind, normalize_policy, kinds,
}

-- Every listed action is `buy` or `sell`, and one trade fits in the day.
pub record IsNormal (p : Policy) : Type 0 where
  pub kinds_only : All (λ k. is_kind k ≡ true) p.allow
  pub fits : p.max_notional_sol ≤ p.max_daily_sol

keep-All : {A : Type 0} (f : A → Bool) (xs : List A) → All (λ x. f x ≡ true) (keep f xs)
keep-All f [] = tt
keep-All f (x ∷ xs) = ground (arith, keep-All f xs)

keep_id : {A : Type 0} (f : A → Bool) (xs : List A) → All (λ x. f x ≡ true) xs → keep f xs ≡ xs
keep_id f [] h = refl
keep_id f (x ∷ xs) h = ground (arith, keep_id f xs h.1)

kinds-All : (a : Arg (List String)) → All (λ k. is_kind k ≡ true) (kinds a)
kinds-All absent = (refl, (refl, tt))
kinds-All malformed = (refl, (refl, tt))
kinds-All (given ks) = keep-All is_kind ks

-- Whatever object the caller sends, the policy that is stored allows only `buy` and `sell`, and its
-- largest single trade is at most its daily total.
pub normalize_policy-IsNormal : (p : PolicyInput) → IsNormal (normalize_policy p)
unfolding normalize_policy
normalize_policy-IsNormal p = record { kinds_only = kinds-All p.allow; fits = omega arith }

some_or_malformed : Option (List String) → Arg (List String)
some_or_malformed none = malformed
some_or_malformed (some ts) = given ts

-- A policy as the JSON object that another process sends and normalises again; `null` for no list.
pub as_input : Policy → PolicyInput
unfolding some_or_malformed
as_input p = record {
  max_notional_sol = some (num (pos p.max_notional_sol));
  max_daily_sol = some (num (pos p.max_daily_sol));
  cooldown_ms = some (num (pos p.cooldown_ms));
  allow = given p.allow;
  deny_tokens = given p.deny_tokens;
  allow_tokens = some_or_malformed p.allow_tokens;
  paper = given p.paper;
  require_verified_intent = given p.require_verified_intent;
}

as_input_stable : (p : Policy) → IsNormal p → normalize_policy (as_input p) ≡ p
unfolding normalize_policy as_input
as_input_stable p n = ground (arith, keep_id is_kind p.allow n.kinds_only)

-- The control plane normalises a policy and the signer normalises it once more: the second time
-- changes nothing.
pub normalize_policy_idem :
    (p : PolicyInput) → normalize_policy (as_input (normalize_policy p)) ≡ normalize_policy p
normalize_policy_idem p = as_input_stable (normalize_policy p) (normalize_policy-IsNormal p)
