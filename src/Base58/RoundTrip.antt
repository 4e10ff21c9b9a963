-- ===== src/Base58/RoundTrip.antt =====
-- `base58decode` after `base58`.
use mathlib.Core.List.{append-nil, reverse-cons, reverse-reverse}
use circuit_agent_cloud.Prelude.{
  ℕ, ◌<◌, ◌≡◌, sym, ap, ◌∙◌, inl, inr, List, [], ◌∷◌, ◌++◌, map, reverse, some, All, nat_eq, arith,
  Bool-cases,
}
use circuit_agent_cloud.Base58.{
  base58, base58decode, digits_from, leading, after_leading, replicate, char_of, digits_of,
}
use circuit_agent_cloud.Base58.Value.{
  value, IsCanonical, digits_from-value, digits_from-IsCanonical, IsCanonical-unique,
  IsCanonical-snoc, horner-reverse,
}
use circuit_agent_cloud.Base58.Alphabet.{
  digits_of-map, leading-replicate, after_leading-replicate, leading_parts, leading-chars,
}

-- Bytes.
abbrev pub AreBytes : List ℕ → Type 0
AreBytes bytes = All (λ b. b < 256) bytes

All-append : (P : ℕ → Type 0) (xs ys : List ℕ) → All P xs → All P ys → All P (xs ++ ys)
All-append P [] ys p q = q
All-append P (x ∷ xs) ys (first, p) q = (first, All-append P xs ys p q)

All-reverse : (P : ℕ → Type 0) (xs : List ℕ) → All P xs → All P (reverse xs)
All-reverse P [] p = tt
All-reverse P (x ∷ xs) (first, p) =
    rw (reverse-cons x xs) (All-append P (reverse xs) (x ∷ []) (All-reverse P xs p) (first, tt))

canonical-small : (base : ℕ) (ds : List ℕ) → IsCanonical base ds → All (λ d. d < base) ds
canonical-small base [] c = tt
canonical-small base (d ∷ ds) (small, nonzero, c) = (small, canonical-small base ds c)

-- The bytes after the leading zeros, from the last one.
after_leading-IsCanonical :
    (bytes : List ℕ) → AreBytes bytes → IsCanonical 256 (reverse (after_leading 0 bytes))
unfolding after_leading
after_leading-IsCanonical [] all = tt
after_leading-IsCanonical (b ∷ bs) (small, all) = elim (Bool-cases (nat_eq b 0)) [
  | inl zeroed ↦ rw zeroed (after_leading-IsCanonical bs all)
  | inr other ↦
      rw (other, reverse-cons b bs)
        (IsCanonical-snoc 256 (omega arith) (reverse bs) b (All-reverse (λ x. x < 256) bs all) small
          (ground (arith, other)))
]

module _ (bytes : List ℕ) (all : AreBytes bytes) where
  abbrev tail : List ℕ
  tail = after_leading 0 bytes

  abbrev digits : List ℕ
  digits = digits_from 256 58 [] tail

  digits-IsCanonical : IsCanonical 58 digits
  digits-IsCanonical = digits_from-IsCanonical 58 (omega arith) 256 tail [] (omega arith) tt

  -- Both directions keep the number.
  digits-value : value 58 digits ≡ value 256 (reverse tail)
  unfolding value
  digits-value =
      digits_from-value 58 (omega arith) 256 tail []
      ∙ horner-reverse 256 tail []
      ∙ ap (value 256) (append-nil (reverse tail))

  back-value : value 256 (digits_from 58 256 [] (reverse digits)) ≡ value 58 digits
  unfolding value
  back-value =
      digits_from-value 256 (omega arith) 58 (reverse digits) []
      ∙ horner-reverse 58 (reverse digits) []
      ∙ ap (value 58) (append-nil (reverse (reverse digits)) ∙ reverse-reverse digits)

  back : digits_from 58 256 [] (reverse digits) ≡ reverse tail
  back =
      IsCanonical-unique 256 (omega arith) (digits_from 58 256 [] (reverse digits)) (reverse tail)
        (digits_from-IsCanonical 256 (omega arith) 58 (reverse digits) [] (omega arith) tt)
        (after_leading-IsCanonical bytes all) (back-value ∙ digits-value)

  abbrev chars : List ℕ
  chars = map char_of (reverse digits)

  read : digits_of chars ≡ some (reverse digits)
  read =
      digits_of-map (reverse digits)
        (All-reverse (λ d. d < 58) digits (canonical-small 58 digits digits-IsCanonical))

decode_parts :
    (str : List ℕ) (n : ℕ) (rest ds : List ℕ)
    → leading b'1' str ≡ n
    → after_leading b'1' str ≡ rest
    → digits_of rest ≡ some ds
    → base58decode str ≡ some (replicate n 0 ++ reverse (digits_from 58 256 [] ds))
unfolding base58decode
decode_parts str n rest ds zeros after known = ground (arith, zeros, after, known)

-- Decoding the encoding of bytes gives the bytes, whatever their number and their leading zeros.
pub base58decode-base58 :
    (bytes : List ℕ) → AreBytes bytes → base58decode (base58 bytes) ≡ some bytes
unfolding base58
base58decode-base58 bytes all =
    let n : ℕ = leading 0 bytes in
    let first : leading b'1' (chars bytes all) ≡ 0 =
      leading-chars (digits bytes all) (digits-IsCanonical bytes all) in
    let zeros = leading-replicate b'1' n (chars bytes all) first in
    let rest = after_leading-replicate b'1' n (chars bytes all) first in
    let whole : replicate n 0 ++ reverse (digits_from 58 256 [] (reverse (digits bytes all)))
        ≡ bytes =
      ap (λ (xs : List ℕ). replicate n 0 ++ xs)
        (ap reverse (back bytes all) ∙ reverse-reverse (tail bytes all))
      ∙ sym (leading_parts 0 bytes) in
    decode_parts (base58 bytes) n (chars bytes all) (reverse (digits bytes all)) zeros rest
      (read bytes all)
    ∙ ap (λ (xs : List ℕ). some xs) whole
