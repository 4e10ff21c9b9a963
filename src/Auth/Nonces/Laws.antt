-- ===== src/Auth/Nonces/Laws.antt =====
-- A nonce that has not aged out stays in the store.
use circuit_agent_cloud.Prelude.{
  inl, inr, ℕ, ◌<◌, ◌≡◌, true, false, String, ◌==◌, [], ◌∷◌, some, lookup, insert, lookup-insert,
  lookup-erase, lookup-insert_self, arith, Bool-cases, Option-cases,
}
use circuit_agent_cloud.Auth.Nonces.{Store, has, after_has, sweep, add}

sweep-lookup :
    (now : ℕ) (n : String) (m : Store) (e : ℕ)
    → now < e
    → lookup n m ≡ some e
    → lookup n (sweep now m) ≡ some e
unfolding lookup sweep
sweep-lookup now n [] e h found = found
sweep-lookup now n ((k, d) ∷ m) e h found = elim (Bool-cases (k == n)) [
  | inl same ↦ ground arith
  | inr other ↦ ground (arith, sweep-lookup now n m e h (ground arith))
]

pub after_has-lookup :
    (now : ℕ) (n k : String) (m : Store)
    → (k == n) ≡ false
    → lookup n (after_has now k m) ≡ lookup n m
unfolding after_has
after_has-lookup now n k m other = elim (Option-cases (lookup k m)) [
  | inl free ↦ ground arith
  | inr (e, found) ↦ ground (arith, lookup-erase k n m)
]

pub add-lookup :
    (now : ℕ) (n k : String) (d : ℕ) (m : Store) (e : ℕ)
    → (k == n) ≡ false
    → now < e
    → lookup n m ≡ some e
    → lookup n (add now k d m) ≡ some e
unfolding add
add-lookup now n k d m e other h found =
    let stored : lookup n (insert k d m) ≡ some e = ground (arith, lookup-insert k n d m) in
    ground (arith, sweep-lookup now n (insert k d m) e h stored)

pub has-stored :
    (now : ℕ) (n : String) (m : Store) (e : ℕ) → now < e → lookup n m ≡ some e → has now n m ≡ true
unfolding has
has-stored now n m e h found = ground arith

pub add_self :
    (now : ℕ) (n : String) (e : ℕ) (m : Store) → now < e → lookup n (add now n e m) ≡ some e
unfolding add
add_self now n e m h = ground (
  arith,
  sweep-lookup now n (insert n e m) e h (lookup-insert_self n e m),
  lookup-insert_self n e m,
)

-- From its expiry on it does not count.
pub has_expired : (n : String) (m : Store) (e : ℕ) → lookup n m ≡ some e → has e n m ≡ false
unfolding has
has_expired n m e found = ground arith
