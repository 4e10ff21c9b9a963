-- ===== src/Auth/Nonces.antt =====
-- lib/owner-auth.js: `NonceStore`, nonces with the moment at which each ages out.
pub mod Laws
use circuit_agent_cloud.Prelude.{
  ℕ, Bool, true, false, not, ◌&&◌, String, List, [], ◌∷◌, Option, none, some, length, lookup,
  insert, erase, ltb, nat_eq, if◌then◌else◌,
}

abbrev pub Store : Type 0
Store = List (String × ℕ)

-- The answer of `has`; an expiry of 0 counts as missing.
unfoldable pub has : ℕ → String → Store → Bool
has now n m = elim (lookup n m) [ none ↦ false | some e ↦ not (nat_eq e 0) && ltb now e ]

-- What `has` leaves behind: a nonce that aged out is deleted.
unfoldable pub after_has : ℕ → String → Store → Store
after_has now n m = elim (lookup n m) [
  | none ↦ m
  | some e ↦ if not (nat_eq e 0) && not (ltb now e) then erase n m else m
]

-- The loop that deletes what aged out.
pub sweep : ℕ → Store → Store
sweep now [] = []
sweep now ((k, e) ∷ m) = let rest = sweep now m in if ltb now e then (k, e) ∷ rest else rest

unfoldable pub add : ℕ → String → ℕ → Store → Store
add now n e m =
    let stored = insert n e m in if ltb 5000 (length stored) then sweep now stored else stored
