-- ===== src/Prelude/Lists.antt =====
-- Lists measured by native numbers, and the array methods of the source as Boolean functions.
use Prim.Native.Nat.{ℕ, zero, suc, ◌+◌}
use Prim.Native.String.{String}
use mathlib.Core.Path.{◌≡◌, refl, ap, sym, subst, ◌∙◌}
use mathlib.Core.Bool.{Bool, true, false, ◌&&◌, ◌||◌}
use mathlib.Core.List.{List, [], ◌∷◌, ◌++◌}
use mathlib.Core.Option.{Option, none, some}
use native.Mathlib.Omega.{arith}
use native.Mathlib.Nat.{suc-add, zero-add}
use text.Mathlib.Text.{◌==◌}
use circuit_agent_cloud.Prelude.Tests.{nat_eq, if◌then◌else◌}

module _ {ℓ} {A : Type ℓ} where
  abbrev pub length : List A → ℕ
  length [] = 0
  length (x ∷ xs) = suc (length xs)

  -- `xs[i]`, with `none` for `undefined`.
  abbrev pub get_elem? : List A → ℕ → Option A
  get_elem? [] i = none
  get_elem? (x ∷ xs) zero = some x
  get_elem? (x ∷ xs) (suc i) = get_elem? xs i

  -- `xs[i] = v`; nothing is written out of range.
  abbrev pub set : List A → ℕ → A → List A
  set [] i v = []
  set (x ∷ xs) zero v = v ∷ xs
  set (x ∷ xs) (suc i) v = x ∷ set xs i v

  -- `xs.some(p)` and `xs.every(p)`.
  abbrev pub any : (A → Bool) → List A → Bool
  any p [] = false
  any p (x ∷ xs) = p x || any p xs

  abbrev pub all : (A → Bool) → List A → Bool
  all p [] = true
  all p (x ∷ xs) = p x && all p xs

  -- `xs.filter(p)`.
  abbrev pub keep : (A → Bool) → List A → List A
  keep p [] = []
  keep p (x ∷ xs) = if p x then x ∷ keep p xs else keep p xs

  -- `P` holds of every entry.
  abbrev pub All {κ} : (A → Type κ) → List A → Type κ
  All P [] = Unit
  All P (x ∷ xs) = P x × All P xs

  -- `P` holds of some entry.
  abbrev pub In {κ} : (A → Type κ) → List A → Type (ℓ ⊔ κ)
  In P xs = (before : List A) × (x : A) × (after : List A) × (xs ≡ before ++ x ∷ after) × P x

  pub length-append : (xs ys : List A) → length (xs ++ ys) ≡ length xs + length ys
  length-append [] ys = omega arith
  length-append (x ∷ xs) ys = omega (arith, length-append xs ys)

module _ {ℓ} {A : Type ℓ} where
  -- `xs.slice(n)` and `xs.slice(0, n)`.
  unfoldable pub drop : ℕ → List A → List A
  drop zero xs = xs
  drop (suc n) [] = []
  drop (suc n) (x ∷ xs) = drop n xs

  unfoldable pub take : ℕ → List A → List A
  take zero xs = []
  take (suc n) [] = []
  take (suc n) (x ∷ xs) = x ∷ take n xs

  pub drop-append : (xs ys : List A) → drop (length xs) (xs ++ ys) ≡ ys
  unfolding drop
  drop-append [] ys = refl
  drop-append (x ∷ xs) ys = drop-append xs ys

  pub take-append : (xs ys : List A) → take (length xs) (xs ++ ys) ≡ xs
  unfolding take
  take-append [] ys = refl
  take-append (x ∷ xs) ys = ap (◌∷◌ x) (take-append xs ys)

  drop_empty : (k : ℕ) → ◌≡◌ {A = List A} (drop k []) []
  unfolding drop
  drop_empty zero = refl
  drop_empty (suc k) = refl

  pub drop_add : (n k : ℕ) (xs : List A) → drop (n + k) xs ≡ drop k (drop n xs)
  unfolding drop
  drop_add zero k xs = rw zero-add refl
  drop_add (suc n) k [] = drop_empty (suc n + k) ∙ sym (drop_empty k)
  drop_add (suc n) k (x ∷ xs) = rw (suc-add, drop) (drop_add n k xs)

module _ {ℓ} {A : Type ℓ} where
  -- A first part, by its known length.
  pub take_first : (k : ℕ) (xs ys : List A) → length xs ≡ k → take k (xs ++ ys) ≡ xs
  take_first k xs ys e = subst (λ n. take n (xs ++ ys) ≡ xs) e (take-append xs ys)

  pub drop_first : (k : ℕ) (xs ys : List A) → length xs ≡ k → drop k (xs ++ ys) ≡ ys
  drop_first k xs ys e = subst (λ n. drop n (xs ++ ys) ≡ ys) e (drop-append xs ys)

  take-length : (xs : List A) → take (length xs) xs ≡ xs
  unfolding take
  take-length [] = refl
  take-length (x ∷ xs) = ap (◌∷◌ x) (take-length xs)

  pub take_all : (k : ℕ) (xs : List A) → length xs ≡ k → take k xs ≡ xs
  take_all k xs e = subst (λ n. take n xs ≡ xs) e (take-length xs)

-- `xs.includes(s)`.
abbrev pub includes : String → List String → Bool
includes s xs = any (λ x. x == s) xs

-- Texts and buffers, as lists of code points or bytes, compared.
unfoldable pub same : List ℕ → List ℕ → Bool
same [] [] = true
same [] (y ∷ ys) = false
same (x ∷ xs) [] = false
same (x ∷ xs) (y ∷ ys) = nat_eq x y && same xs ys
