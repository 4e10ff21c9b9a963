-- ===== src/Base58/Value.antt =====
-- The number that a list of digits stands for, the lowest digit first, through the loops of base58.
use circuit_agent_cloud.Prelude.{
  ℕ, zero, suc, ◌+◌, ◌*◌, ◌/◌, ◌%◌, ◌≤◌, ◌<◌, ◌≡◌, refl, sym, ap, ◌∙◌, inl, inr, List, [], ◌∷◌,
  ◌++◌, reverse, All, append_assoc, nat_eq, arith, Bool-cases,
}
use mathlib.Core.List.{reverse-cons}
use circuit_agent_cloud.Base58.{push_carry, mul_add, digits_from}

unfoldable pub value : ℕ → List ℕ → ℕ
value base [] = 0
value base (d ∷ ds) = d + base * value base ds

-- `acc * factor + b`, digit by digit.
unfoldable pub horner : ℕ → ℕ → List ℕ → ℕ
horner factor acc [] = acc
horner factor acc (b ∷ bs) = horner factor (b + factor * acc) bs

-- Every digit is below the base, and the highest one is not zero.
abbrev pub IsCanonical : ℕ → List ℕ → Type 0
IsCanonical base [] = Unit
IsCanonical base (d ∷ ds) = (d < base) × (1 ≤ value base (d ∷ ds)) × IsCanonical base ds

module _ (base : ℕ) (big : 2 ≤ base) where
  split : (n : ℕ) → n % base + base * (n / base) ≡ n
  split n = grind arith

  div_small : (n : ℕ) → 1 ≤ n → n / base < n
  div_small n h = grind arith

  regroup :
      (low high carry d factor v : ℕ)
      → low + base * high ≡ carry + d * factor
      → low + base * (high + factor * v) ≡ carry + factor * (d + base * v)
  regroup low high carry d factor v e = grind (arith, e)

  -- The loop that pushes the carry ends within as many rounds as the carry: with that much fuel, or
  -- more, the digits stand for the carry in any base above 1.
  pub push_carry-value :
      (fuel carry : ℕ) → carry ≤ fuel → value base (push_carry base fuel carry) ≡ carry
  unfolding push_carry value
  push_carry-value zero carry enough = omega (arith, enough)
  push_carry-value (suc fuel) carry enough = elim (Bool-cases (nat_eq carry 0)) [
    | inl done ↦ ground (arith, done)
    | inr more ↦
        let less : carry / base ≤ fuel = grind (arith, more, enough, div_small carry) in
        let rest = push_carry-value fuel (carry / base) less in rw (more, rest) (split carry)
  ]

  mul_add-value :
      (factor : ℕ) (ds : List ℕ) (carry : ℕ)
      → value base (mul_add factor base ds carry) ≡ carry + factor * value base ds
  unfolding mul_add value
  mul_add-value factor [] carry = push_carry-value carry carry (omega arith) ∙ grind arith
  mul_add-value factor (d ∷ ds) carry =
      let sum : ℕ = carry + d * factor in
      let rest = mul_add-value factor ds (sum / base) in
      rw rest (regroup (sum % base) (sum / base) carry d factor (value base ds) (split sum))

  pub digits_from-value :
      (factor : ℕ) (bs ds : List ℕ)
      → value base (digits_from factor base ds bs) ≡ horner factor (value base ds) bs
  unfolding digits_from horner
  digits_from-value factor [] ds = refl
  digits_from-value factor (b ∷ bs) ds =
      digits_from-value factor bs (mul_add factor base ds b)
      ∙ ap (λ v. horner factor v bs) (mul_add-value factor ds b)

  mod_small : (n : ℕ) → n % base < base
  mod_small n = grind arith

  push_carry-IsCanonical :
      (fuel carry : ℕ) → carry ≤ fuel → IsCanonical base (push_carry base fuel carry)
  unfolding push_carry
  push_carry-IsCanonical zero carry enough = tt
  push_carry-IsCanonical (suc fuel) carry enough = elim (Bool-cases (nat_eq carry 0)) [
    | inl done ↦ rw done tt
    | inr more ↦
        let less : carry / base ≤ fuel = grind (arith, more, enough, div_small carry) in
        let whole : value base (push_carry base (suc fuel) carry) ≡ carry =
          push_carry-value (suc fuel) carry enough in
        rw more (
          mod_small carry,
          ground (arith, more, whole),
          push_carry-IsCanonical fuel (carry / base) less,
        )
  ]

  at_least : (carry factor v : ℕ) → 1 ≤ factor → 1 ≤ v → 1 ≤ carry + factor * v
  at_least carry factor v p q = grind arith

  mul_add-IsCanonical :
      (factor : ℕ) (ds : List ℕ) (carry : ℕ)
      → 1 ≤ factor
      → IsCanonical base ds
      → IsCanonical base (mul_add factor base ds carry)
  unfolding mul_add
  mul_add-IsCanonical factor [] carry pos_factor c =
      push_carry-IsCanonical carry carry (omega arith)
  mul_add-IsCanonical factor (d ∷ ds) carry pos_factor (small, nonzero, c) =
      let sum : ℕ = carry + d * factor in
      (
        mod_small sum,
        rw (mul_add-value factor (d ∷ ds) carry)
            (at_least carry factor (value base (d ∷ ds)) pos_factor nonzero),
        mul_add-IsCanonical factor ds (sum / base) pos_factor c,
      )

  pub digits_from-IsCanonical :
      (factor : ℕ) (bs ds : List ℕ)
      → 1 ≤ factor
      → IsCanonical base ds
      → IsCanonical base (digits_from factor base ds bs)
  unfolding digits_from
  digits_from-IsCanonical factor [] ds pos_factor c = c
  digits_from-IsCanonical factor (b ∷ bs) ds pos_factor c =
      digits_from-IsCanonical factor bs (mul_add factor base ds b) pos_factor
        (mul_add-IsCanonical factor ds b pos_factor c)

  low_digit : (x v : ℕ) → x < base → (x + base * v) % base ≡ x
  low_digit x v small = grind arith

  high_digits : (x v : ℕ) → x < base → (x + base * v) / base ≡ v
  high_digits x v small = grind arith

  -- A number has one list of digits.
  pub IsCanonical-unique :
      (xs ys : List ℕ)
      → IsCanonical base xs
      → IsCanonical base ys
      → value base xs ≡ value base ys
      → xs ≡ ys
  unfolding value
  IsCanonical-unique [] [] p q e = refl
  IsCanonical-unique [] (y ∷ ys) p (small, nonzero, q) e = absurd (omega (arith, nonzero, e))
  IsCanonical-unique (x ∷ xs) [] (small, nonzero, p) q e = absurd (omega (arith, nonzero, e))
  IsCanonical-unique (x ∷ xs) (y ∷ ys) (sx, nx, p) (sy, ny, q) e =
      let low : x ≡ y =
        sym (low_digit x (value base xs) sx)
        ∙ ap (λ n. n % base) e
        ∙ low_digit y (value base ys) sy in
      let high : value base xs ≡ value base ys =
        sym (high_digits x (value base xs) sx)
        ∙ ap (λ n. n / base) e
        ∙ high_digits y (value base ys) sy in
      ap (λ (zs : List ℕ). x ∷ zs) (IsCanonical-unique xs ys p q high) ∙ ap (λ z. z ∷ ys) low

  nonzero_above : (x v : ℕ) → 1 ≤ v → 1 ≤ x + base * v
  nonzero_above x v h = grind arith

  snoc_pos : (xs : List ℕ) (t : ℕ) → 1 ≤ t → 1 ≤ value base (xs ++ t ∷ [])
  unfolding value
  snoc_pos [] t h = grind (arith, h)
  snoc_pos (x ∷ xs) t h = nonzero_above x (value base (xs ++ t ∷ [])) (snoc_pos xs t h)

  pub IsCanonical-snoc :
      (xs : List ℕ) (t : ℕ)
      → All (λ x. x < base) xs
      → t < base
      → 1 ≤ t
      → IsCanonical base (xs ++ t ∷ [])
  unfolding value
  IsCanonical-snoc [] t all small nonzero = (small, grind (arith, nonzero), tt)
  IsCanonical-snoc (x ∷ xs) t (first, all) small nonzero =
      let rest = IsCanonical-snoc xs t all small nonzero in
      (first, nonzero_above x (value base (xs ++ t ∷ [])) (snoc_pos xs t nonzero), rest)

-- The digits from the highest one.
pub horner-reverse :
    (base : ℕ) (xs ys : List ℕ) → horner base (value base ys) xs ≡ value base (reverse xs ++ ys)
unfolding horner value
horner-reverse base [] ys = refl
horner-reverse base (x ∷ xs) ys =
    horner-reverse base xs (x ∷ ys)
    ∙ ap (value base) (
        sym (
          ap (λ (zs : List ℕ). zs ++ ys) (reverse-cons x xs)
          ∙ append_assoc (reverse xs) (x ∷ []) ys))
