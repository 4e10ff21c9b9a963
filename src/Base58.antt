-- ===== src/Base58.antt =====
-- lib/ed25519.js: `base58` and `base58decode`. Bytes and characters are numbers (a character is its
-- code point); the source's `carry` stays below 2^15, so its 32-bit shifts and masks are the
-- divisions and remainders written here.
pub mod Value
pub mod Alphabet
pub mod RoundTrip
mod Tests
use Prim.Native.Char.{code}
use circuit_agent_cloud.Prelude.{
  ℕ, zero, suc, ◌+◌, ◌*◌, ◌/◌, ◌%◌, Bool, String, List, [], ◌∷◌, ◌++◌, map, reverse, Option, none,
  some, get_elem?, nat_eq, if◌then◌else◌, length, ◌≡◌, refl,
}

abbrev pub codes : String → List ℕ
codes String.[] = []
codes (String.◌∷◌ c s) = code c ∷ codes s

abbrev pub alphabet : List ℕ
alphabet = codes "123456789ABCDEFGHJKLMNPQRSTUVWXYZabcdefghijkmnopqrstuvwxyz"

-- `while (carry) { push(carry % base); carry = carry / base }`.
unfoldable pub push_carry : ℕ → ℕ → ℕ → List ℕ
push_carry base zero carry = []
push_carry base (suc fuel) carry =
    let rest = (carry % base) ∷ push_carry base fuel (carry / base) in
    if nat_eq carry 0 then [] else rest

-- The two inner loops over an array whose lowest digit stands first: times `factor`, plus `carry`.
-- The carry is fuel enough for the second loop.
unfoldable pub mul_add : ℕ → ℕ → List ℕ → ℕ → List ℕ
mul_add factor base [] carry = push_carry base carry carry
mul_add factor base (d ∷ ds) carry =
    let sum = carry + d * factor in (sum % base) ∷ mul_add factor base ds (sum / base)

-- The outer loop.
unfoldable pub digits_from : ℕ → ℕ → List ℕ → List ℕ → List ℕ
digits_from factor base ds [] = ds
digits_from factor base ds (b ∷ bs) = digits_from factor base (mul_add factor base ds b) bs

-- The leading entries that equal `z`: how many, and what follows.
unfoldable pub leading : ℕ → List ℕ → ℕ
leading z [] = 0
leading z (x ∷ xs) = if nat_eq x z then suc (leading z xs) else 0

unfoldable pub after_leading : ℕ → List ℕ → List ℕ
after_leading z [] = []
after_leading z (x ∷ xs) = if nat_eq x z then after_leading z xs else x ∷ xs

abbrev pub replicate : ℕ → ℕ → List ℕ
replicate zero x = []
replicate (suc n) x = x ∷ replicate n x

-- `B58[d]`; a digit is below 58.
unfoldable pub char_of : ℕ → ℕ
char_of d = elim (get_elem? alphabet d) [ none ↦ 0 | some c ↦ c ]

unfoldable pub base58 : List ℕ → List ℕ
unfolding digits_from mul_add push_carry leading after_leading char_of
base58 bytes =
    replicate (leading 0 bytes) b'1'
    ++ map char_of (reverse (digits_from 256 58 [] (after_leading 0 bytes)))

-- `B58_MAP[c]`.
unfoldable pub index_of : ℕ → ℕ → List ℕ → Option ℕ
index_of i c [] = none
index_of i c (a ∷ as') = if nat_eq a c then some i else index_of (suc i) c as'

unfoldable pub digits_of : List ℕ → Option (List ℕ)
digits_of [] = some []
digits_of (c ∷ cs) = elim (index_of 0 c alphabet) [
  | none ↦ none
  | some d ↦ elim (digits_of cs) [ none ↦ none | some ds ↦ some (d ∷ ds) ]
]

-- `none` is the thrown error. (The source stops at the first bad character; the loop has no effect
-- outside, so reading the digits first is the same.)
unfoldable pub base58decode : List ℕ → Option (List ℕ)
unfolding digits_from mul_add push_carry leading after_leading digits_of index_of
base58decode str = elim (digits_of (after_leading b'1' str)) [
  | none ↦ none
  | some ds ↦ some (replicate (leading b'1' str) 0 ++ reverse (digits_from 58 256 [] ds))
]

-- signer/server.js: `isPubkey`, of a text.
pub is_pubkey : String → Bool
unfolding base58decode
is_pubkey s = elim (base58decode (codes s)) [
  | none ↦ Bool.false
  | some bytes ↦ nat_eq (length bytes) 32
]

round_trip_test : base58decode (base58 (0 ∷ 0 ∷ 255 ∷ 3 ∷ 0 ∷ [])) ≡ some (0 ∷ 0 ∷ 255 ∷ 3 ∷ 0 ∷ [])
unfolding base58 base58decode
round_trip_test = refl

system_program : is_pubkey "11111111111111111111111111111111" ≡ Bool.true
unfolding is_pubkey
system_program = refl
