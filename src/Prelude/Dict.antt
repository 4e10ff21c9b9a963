-- ===== src/Prelude/Dict.antt =====
-- A map with text keys (a JavaScript object or `Map`), as an association list in insertion order.
use Prim.Native.String.{String}
use mathlib.Core.Path.{◌≡◌, refl}
use mathlib.Core.List.{List, [], ◌∷◌}
use mathlib.Core.Option.{Option, none, some}
use native.Mathlib.Omega.{arith}
use text.Mathlib.Text.{◌==◌}
use text.Mathlib.TextEquality.{eq_iff}
use text.Mathlib.TextPositions.{eq_refl}
use mathlib.Core.Logic.{inl, inr}
use circuit_agent_cloud.Prelude.Tests.{if◌then◌else◌, Bool-cases}

module _ {ℓ} {V : Type ℓ} where
  unfoldable pub lookup : String → List (String × V) → Option V
  lookup key [] = none
  lookup key ((other, value) ∷ rest) = if other == key then some value else lookup key rest

  -- A write keeps the key's place.
  unfoldable pub insert : String → V → List (String × V) → List (String × V)
  insert key value [] = (key, value) ∷ []
  insert key value ((other, old) ∷ rest) =
      if other == key then (other, value) ∷ rest else (other, old) ∷ insert key value rest

  unfoldable pub erase : String → List (String × V) → List (String × V)
  erase key [] = []
  erase key ((other, value) ∷ rest) =
      if other == key then erase key rest else (other, value) ∷ erase key rest

  pub lookup-insert :
      (key other : String) (value : V) (rest : List (String × V))
      → lookup other (insert key value rest)
        ≡ (if key == other then some value else lookup other rest)
  unfolding lookup insert
  lookup-insert key other value [] = refl
  lookup-insert key other value ((third, old) ∷ rest) = ground (
    arith,
    eq_iff key other,
    eq_iff third key,
    eq_iff third other,
    lookup-insert key other value rest,
  )

  pub lookup-erase :
      (key other : String) (rest : List (String × V))
      → lookup other (erase key rest) ≡ (if key == other then none else lookup other rest)
  unfolding lookup erase
  lookup-erase key other [] = ground arith
  lookup-erase key other ((third, old) ∷ rest) =
      ground
        (arith, eq_iff key other, eq_iff third key, eq_iff third other, lookup-erase key other rest)

  pub lookup-insert_self :
      (key : String) (value : V) (rest : List (String × V))
      → lookup key (insert key value rest) ≡ some value
  lookup-insert_self key value rest = ground (arith, lookup-insert key key value rest, eq_refl key)

  pub insert_twice :
      (key : String) (value old : V) (rest : List (String × V))
      → insert key old (insert key value rest) ≡ insert key old rest
  unfolding insert
  insert_twice key value old [] = ground (arith, eq_refl key)
  insert_twice key value old ((other, u) ∷ rest) =
      ground (arith, eq_iff other key, insert_twice key value old rest)

module _ {ℓ} {V : Type ℓ} where
  -- A change of every value.
  unfoldable pub map_values : (V → V) → List (String × V) → List (String × V)
  map_values f [] = []
  map_values f ((key, value) ∷ rest) = (key, f value) ∷ map_values f rest

  pub lookup-map_values :
      (f : V → V) (key : String) (rest : List (String × V))
      → lookup key (map_values f rest)
        ≡ elim (lookup key rest) [ none ↦ none | some value ↦ some (f value) ]
  unfolding lookup map_values
  lookup-map_values f key [] = refl
  lookup-map_values f key ((other, value) ∷ rest) = elim (Bool-cases (other == key)) [
    | inl same ↦ rw same refl
    | inr distinct ↦ rw distinct (lookup-map_values f key rest)
  ]
