-- ===== src/VerifiedIntent/Replay.antt =====
-- signer/server.js: `VERIFIED_NONCES`, the store of the evidence nonces that were spent. A nonce is any
-- JSON value; the `Map` finds an object only by its identity, and each request brings objects of its own.
pub mod Laws
use circuit_agent_cloud.Prelude.{
  ℕ, ◌+◌, Bool, true, false, List, [], ◌∷◌, Option, none, some, length, ltb, if◌then◌else◌,
}
use circuit_agent_cloud.Proto.Value.{Value, same_key}

abbrev pub Nonces : Type 0
Nonces = List (Value × ℕ)

abbrev pub sweep_above : ℕ
sweep_above = 5000

abbrev pub sweep_age : ℕ
sweep_age = 300_000

-- The `Map`'s `get` and `set`.
unfoldable pub find : Value → Nonces → Option ℕ
find n [] = none
find n ((k, t) ∷ m) = if same_key k n then some t else find n m

unfoldable pub file : Value → ℕ → Nonces → Nonces
file n now [] = (n, now) ∷ []
file n now ((k, t) ∷ m) = if same_key k n then (k, now) ∷ m else (k, t) ∷ file n now m

unfoldable pub has : Value → Nonces → Bool
unfolding find
has n m = elim (find n m) [ none ↦ false | some t ↦ true ]

-- The loop that deletes what is older than `sweep_age`.
pub sweep : ℕ → Nonces → Nonces
sweep now [] = []
sweep now ((k, t) ∷ m) =
    let rest = sweep now m in if ltb (t + sweep_age) now then rest else (k, t) ∷ rest

unfoldable pub add : ℕ → Value → Nonces → Nonces
unfolding file
add now n m = let m' = file n now m in if ltb sweep_above (length m') then sweep now m' else m'
