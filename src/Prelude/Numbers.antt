-- ===== src/Prelude/Numbers.antt =====
-- A JavaScript number: `NaN`, or an integral multiple of one fixed unit.
use Prim.Native.Nat.{ℕ}
use mathlib.Core.Bool.{Bool, true, false}
use circuit_agent_cloud.Prelude.Tests.{ltb, nat_eq}

-- `negsuc n` is -(n + 1).
pub data ℤ : Type 0 where
  pos : ℕ → ℤ
  negsuc : ℕ → ℤ

pub data Number : Type 0 where
  nan : Number
  num : ℤ → Number

abbrev pub lt_ℤ : ℤ → ℤ → Bool
lt_ℤ (pos a) (pos b) = ltb a b
lt_ℤ (pos a) (negsuc b) = false
lt_ℤ (negsuc a) (pos b) = true
lt_ℤ (negsuc a) (negsuc b) = ltb b a

abbrev pub eq_ℤ : ℤ → ℤ → Bool
eq_ℤ (pos a) (pos b) = nat_eq a b
eq_ℤ (pos a) (negsuc b) = false
eq_ℤ (negsuc a) (pos b) = false
eq_ℤ (negsuc a) (negsuc b) = nat_eq a b

-- `a < b`, `a <= b` and `a === b`: false as soon as one side is `NaN`.
abbrev pub lt_number : Number → Number → Bool
lt_number nan b = false
lt_number (num a) nan = false
lt_number (num a) (num b) = lt_ℤ a b

abbrev pub eq_number : Number → Number → Bool
eq_number nan b = false
eq_number (num a) nan = false
eq_number (num a) (num b) = eq_ℤ a b

abbrev pub le_number : Number → Number → Bool
le_number nan b = false
le_number (num a) nan = false
le_number (num a) (num b) = elim (lt_ℤ b a) [ true ↦ false | false ↦ true ]

-- `Math.max(0, x || 0)`: a number that is not positive counts as zero.
abbrev pub max_zero : Number → ℕ
max_zero nan = 0
max_zero (num (pos n)) = n
max_zero (num (negsuc n)) = 0
