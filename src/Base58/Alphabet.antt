-- ===== src/Base58/Alphabet.antt =====
-- The characters of base58 and the digits that they stand for.
use mathlib.Core.List.{append-nil, reverse-cons}
use circuit_agent_cloud.Prelude.{
  ℕ, zero, suc, ◌≤◌, ◌<◌, ◌≡◌, refl, sym, ap, ◌∙◌, inl, inr, Bool, true, false, not, ◌&&◌, List, [],
  ◌∷◌, ◌++◌, map, reverse, none, some, All, append_assoc, nat_eq, arith, Bool-cases, Option-cases,
}
use circuit_agent_cloud.Base58.{
  alphabet, leading, after_leading, replicate, char_of, index_of, digits_of,
}
use circuit_agent_cloud.Base58.Value.{value, IsCanonical}

-- Every number below `n`.
below : (ℕ → Bool) → ℕ → Bool
below p zero = true
below p (suc n) = p n && below p n

below-lt : (p : ℕ → Bool) (n d : ℕ) → below p n ≡ true → d < n → p d ≡ true
unfolding below
below-lt p zero d h small = absurd (omega (arith, small))
below-lt p (suc n) d h small = elim (Bool-cases (nat_eq d n)) [
  | inl same ↦ let e : d ≡ n = ground (arith, same) in rw e (ground (arith, h))
  | inr other ↦ below-lt p n d (ground (arith, h)) (ground (arith, small, other))
]

reads_back : ℕ → Bool
reads_back d = elim (index_of 0 (char_of d) alphabet) [ none ↦ false | some i ↦ nat_eq i d ]

all_read_back : below reads_back 58 ≡ true
unfolding below reads_back index_of char_of
all_read_back = refl

pub index_of-char_of : (d : ℕ) → d < 58 → index_of 0 (char_of d) alphabet ≡ some d
unfolding reads_back
index_of-char_of d small = elim (Option-cases (index_of 0 (char_of d) alphabet)) [
  | inl missing ↦ absurd (ground (arith, missing, below-lt reads_back 58 d all_read_back small))
  | inr (i, found) ↦ ground (arith, found, below-lt reads_back 58 d all_read_back small)
]

is_one : ℕ → Bool
is_one d = nat_eq (char_of d) b'1' && not (nat_eq d 0)

none_is_one : below (λ d. not (is_one d)) 58 ≡ true
unfolding below is_one char_of
none_is_one = refl

-- Only the digit 0 is written '1'.
pub char_of-one : (d : ℕ) → d < 58 → 1 ≤ d → nat_eq (char_of d) b'1' ≡ false
unfolding is_one
char_of-one d small nonzero =
    ground (arith, nonzero, below-lt (λ x. not (is_one x)) 58 d none_is_one small)

pub digits_of-map : (ds : List ℕ) → All (λ d. d < 58) ds → digits_of (map char_of ds) ≡ some ds
unfolding digits_of
digits_of-map [] all = refl
digits_of-map (d ∷ ds) (small, all) = ground (arith, index_of-char_of d small, digits_of-map ds all)

-- What starts with nothing but `z`, and goes on with something else.
pub leading-replicate :
    (z n : ℕ) (xs : List ℕ) → leading z xs ≡ 0 → leading z (replicate n z ++ xs) ≡ n
unfolding leading
leading-replicate z zero xs h = h
leading-replicate z (suc n) xs h = ground (arith, leading-replicate z n xs h)

pub after_leading-replicate :
    (z n : ℕ) (xs : List ℕ) → leading z xs ≡ 0 → after_leading z (replicate n z ++ xs) ≡ xs
unfolding leading after_leading
after_leading-replicate z zero [] h = refl
after_leading-replicate z zero (x ∷ xs) h = ground (arith, h)
after_leading-replicate z (suc n) xs h = ground (arith, after_leading-replicate z n xs h)

pub leading_parts : (z : ℕ) (xs : List ℕ) → xs ≡ replicate (leading z xs) z ++ after_leading z xs
unfolding leading after_leading
leading_parts z [] = refl
leading_parts z (x ∷ xs) = elim (Bool-cases (nat_eq x z)) [
  | inl same ↦ let e : x ≡ z = ground (arith, same) in ground (arith, same, e, leading_parts z xs)
  | inr other ↦ ground (arith, other)
]

leading-cons :
    (d : ℕ) (ds ys : List ℕ)
    → IsCanonical 58 (d ∷ ds)
    → leading b'1' (map char_of (reverse (d ∷ ds) ++ ys)) ≡ 0
unfolding leading value
leading-cons d [] ys (small, nonzero, c) =
    let other = char_of-one d small (omega (arith, nonzero)) in ground (arith, other)
leading-cons d (e ∷ ds) ys (small, nonzero, c) =
    ap (λ (zs : List ℕ). leading b'1' (map char_of zs))
      (ap (λ (zs : List ℕ). zs ++ ys) (reverse-cons d (e ∷ ds))
        ∙ append_assoc (reverse (e ∷ ds)) (d ∷ []) ys)
    ∙ leading-cons e ds (d ∷ ys) c

-- No '1' stands before the digits of a number.
pub leading-chars : (ds : List ℕ) → IsCanonical 58 ds → leading b'1' (map char_of (reverse ds)) ≡ 0
unfolding leading
leading-chars [] c = refl
leading-chars (d ∷ ds) c =
    ap (λ (zs : List ℕ). leading b'1' (map char_of zs)) (sym (append-nil (reverse (d ∷ ds))))
    ∙ leading-cons d ds [] c
