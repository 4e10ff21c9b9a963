-- ===== src/Submit/Wire/Laws.antt =====
-- Reads of what `compactU16` of signer/withdraw.js wrote.
use Prim.Native.Nat.{bit_or, bit_or-bitwise, digits}
use circuit_agent_cloud.Prelude.{
  ℕ, zero, suc, ◌+◌, ◌-◌, ◌*◌, ◌/◌, ◌%◌, ◌≤◌, ◌<◌, ◌≡◌, refl, ap, subst, ◌∙◌, inl, inr, List, [],
  ◌∷◌, ◌++◌, max, length, drop, drop-append, drop_add, length-append, ltb, arith, Bool-cases, pos,
}
use circuit_agent_cloud.Signer.Transfer.Message.{compact_u16, compact_fuel}
use circuit_agent_cloud.Submit.Wire.{read_groups, read_compact_u16}

-- The law of `bit_or` for the lowest digit.
abbrev or_digits : ℕ → ℕ → ℕ → ℕ
or_digits n a b = digits (λ b. b) max n a b

or_digits_fuel : (n m a b : ℕ) → a ≤ n → a ≤ m → or_digits n a b ≡ or_digits m a b
or_digits_fuel zero zero a b p q = refl
or_digits_fuel zero (suc m) zero b p q = refl
or_digits_fuel zero (suc m) (suc a) b p q = absurd (omega arith)
or_digits_fuel (suc n) zero zero b p q = refl
or_digits_fuel (suc n) zero (suc a) b p q = absurd (omega arith)
or_digits_fuel (suc n) (suc m) zero b p q = refl
or_digits_fuel (suc n) (suc m) (suc a) b p q =
    omega (arith, or_digits_fuel n m (suc a / 2) (b / 2) (omega arith) (omega arith))

zero-bit_or : (b : ℕ) → bit_or 0 b ≡ b
zero-bit_or b = bit_or-bitwise 0 b

bit_or_step : (a b : ℕ) → bit_or a b ≡ bit_or (a / 2) (b / 2) * 2 + max (a % 2) (b % 2)
bit_or_step zero b = omega (arith, zero-bit_or b, zero-bit_or (b / 2))
bit_or_step (suc a) b = omega (
  arith,
  bit_or-bitwise (suc a) b,
  bit_or-bitwise (suc a / 2) (b / 2),
  or_digits_fuel a (suc a / 2) (suc a / 2) (b / 2) (omega arith) (omega arith),
)

abbrev shift_left : ℕ → ℕ → ℕ
shift_left zero g = g
shift_left (suc s) g = 2 * shift_left s g

-- Groups of bits that do not overlap are added.
bit_or-shift_left :
    (s a g : ℕ) → a < shift_left s 1 → bit_or a (shift_left s g) ≡ a + shift_left s g
bit_or-shift_left zero a g h =
    let e : a ≡ 0 = omega arith in omega (arith, zero-bit_or g, ap (λ (x : ℕ). bit_or x g) e)
bit_or-shift_left (suc s) a g h =
    let t : ℕ = shift_left s g in
    let half : 2 * t / 2 ≡ t = omega arith in
    omega (
      arith,
      bit_or_step a (2 * t),
      ap (bit_or (a / 2)) half,
      bit_or-shift_left s (a / 2) g (omega arith),
    )

bit_or_seven : (a g : ℕ) → a < 128 → bit_or a (g * 128) ≡ a + g * 128
bit_or_seven a g h =
    let e : g * 128 ≡ shift_left 7 g = omega arith in rw e (bit_or-shift_left 7 a g (omega arith))

bit_or_fourteen : (a g : ℕ) → a < 16384 → bit_or a (g * 16384) ≡ a + g * 16384
bit_or_fourteen a g h =
    let e : g * 16384 ≡ shift_left 14 g = omega arith in
    rw e (bit_or-shift_left 14 a g (omega arith))

compact_one : (n : ℕ) → n < 128 → compact_u16 n ≡ n ∷ []
unfolding compact_u16 compact_fuel
compact_one n h = ground arith

compact_two : (n : ℕ) → 128 ≤ n → n < 16384 → compact_u16 n ≡ (n % 128 + 128) ∷ (n / 128) ∷ []
unfolding compact_u16 compact_fuel
compact_two n l h = ground arith

compact_three :
    (n : ℕ)
    → 16384 ≤ n
    → n < 65536
    → compact_u16 n ≡ (n % 128 + 128) ∷ (n / 128 % 128 + 128) ∷ (n / 16384) ∷ []
unfolding compact_u16 compact_fuel
compact_three n l h = ground arith

read_one : (n : ℕ) (s : List ℕ) → n < 128 → read_groups (n ∷ s) 0 0 ≡ (n, 1)
unfolding read_groups
read_one n s h = ground (arith, zero-bit_or n)

read_two :
    (n : ℕ) (s : List ℕ)
    → 128 ≤ n
    → n < 16384
    → read_groups ((n % 128 + 128) ∷ (n / 128) ∷ s) 0 0 ≡ (n, 2)
unfolding read_groups
read_two n s l h =
    ground (arith, zero-bit_or (n % 128), bit_or_seven (n % 128) (n / 128) (omega arith))

read_three :
    (n : ℕ) (s : List ℕ)
    → 16384 ≤ n
    → n < 65536
    → read_groups ((n % 128 + 128) ∷ (n / 128 % 128 + 128) ∷ (n / 16384) ∷ s) 0 0 ≡ (n, 3)
unfolding read_groups
read_three n s l h = ground (
  arith,
  zero-bit_or (n % 128),
  bit_or_seven (n % 128) (n / 128 % 128) (omega arith),
  bit_or_fourteen (n % 128 + n / 128 % 128 * 128) (n / 16384) (omega arith),
)

-- The loop reads back a number of 16 bits, whatever follows it.
read_groups-compact_u16 :
    (n : ℕ) (s : List ℕ)
    → n < 65536
    → read_groups (compact_u16 n ++ s) 0 0 ≡ (n, length (compact_u16 n))
read_groups-compact_u16 n s h = elim (Bool-cases (ltb n 128)) [
  | inl a ↦ let e = compact_one n (ground arith) in rw e (read_one n s (ground arith))
  | inr a ↦ elim (Bool-cases (ltb n 16384)) [
    | inl b ↦
        let e = compact_two n (ground arith) (ground arith) in
        rw e (read_two n s (ground arith) (ground arith))
    | inr b ↦ let e = compact_three n (ground arith) h in rw e (read_three n s (ground arith) h)
  ]
]

-- At a position where the number stands.
pub read_compact_u16-compact_u16 :
    (m : List ℕ) (p n : ℕ) (s : List ℕ)
    → n < 65536
    → drop p m ≡ compact_u16 n ++ s
    → read_compact_u16 m (pos p) ≡ (pos n, pos (p + length (compact_u16 n)))
unfolding read_compact_u16
read_compact_u16-compact_u16 m p n s h e = rw e (ground (arith, read_groups-compact_u16 n s h))

length-drop : (p : ℕ) (m : List ℕ) → length (drop p m) ≡ length m - p
unfolding drop
length-drop zero m = omega arith
length-drop (suc p) [] = omega arith
length-drop (suc p) (x ∷ m) = omega (arith, length-drop p m)

-- From the position on, the buffer holds these bytes.
abbrev pub Stands : List ℕ → ℕ → List ℕ → Type 0
Stands m p s = (drop p m ≡ s) × (p ≤ length m)

pub Stands-start : (m : List ℕ) → Stands m 0 m
unfolding drop
Stands-start m = (refl, omega arith)

-- What stands behind a first part of a known length.
pub Stands-behind :
    (m : List ℕ) (p k : ℕ) (x s : List ℕ) → length x ≡ k → Stands m p (x ++ s) → Stands m (p + k) s
Stands-behind m p k x s h (e, l) = (
  subst (λ n. drop (p + n) m ≡ s) h
      (drop_add p (length x) m ∙ (ap (drop (length x)) e ∙ drop-append x s)),
  omega (arith, length-drop p m, ap length e, length-append x s),
)

-- A number of 16 bits is read where it stands, and the rest stands behind it.
pub read_compact_u16-Stands :
    (m : List ℕ) (p n : ℕ) (s : List ℕ)
    → n < 65536
    → Stands m p (compact_u16 n ++ s)
    → (q : ℕ) × (read_compact_u16 m (pos p) ≡ (pos n, pos q)) × Stands m q s
read_compact_u16-Stands m p n s h (e, l) = (
  p + length (compact_u16 n),
  read_compact_u16-compact_u16 m p n s h e,
  Stands-behind m p (length (compact_u16 n)) (compact_u16 n) s refl (e, l),
)
