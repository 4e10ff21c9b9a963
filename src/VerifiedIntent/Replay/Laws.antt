-- ===== src/VerifiedIntent/Replay/Laws.antt =====
-- How long a spent nonce stays known.
use circuit_agent_cloud.Prelude.{
  ℕ, ◌+◌, ◌≤◌, ◌<◌, ◌≡◌, refl, sym, ◌∙◌, ap, ◌⊎◌, inl, inr, true, false, nan, num, List, [], ◌∷◌,
  some, none, arith, length, ltb, Bool-cases, if◌then◌else◌,
}
use circuit_agent_cloud.Proto.Value.{
  Value, undefined, null, boolean, number, text, other, strict_eq, same_key, is_nan,
}
use circuit_agent_cloud.VerifiedIntent.Rule.Laws.{strict_eq→≡}
use circuit_agent_cloud.VerifiedIntent.Replay.{
  Nonces, find, file, has, sweep, add, sweep_age, sweep_above,
}

is_nan→≡ : (a : Value) → is_nan a ≡ true → a ≡ number nan
is_nan→≡ (number nan) h = refl
is_nan→≡ (number (num n)) h = cc
is_nan→≡ undefined h = cc
is_nan→≡ null h = cc
is_nan→≡ (boolean b) h = cc
is_nan→≡ (text s) h = cc
is_nan→≡ (other t) h = cc

-- Keys that a `Map` takes for the same are the same value.
pub same_key→≡ : (a b : Value) → same_key a b ≡ true → a ≡ b
same_key→≡ a b h = elim (Bool-cases (strict_eq a b)) [
  | inl same ↦ strict_eq→≡ a b same
  | inr distinct ↦ elim (Bool-cases (is_nan a)) [
    | inr number_a ↦ absurd (ground arith)
    | inl nan_a ↦ elim (Bool-cases (is_nan b)) [
      | inr number_b ↦ absurd (ground arith)
      | inl nan_b ↦ is_nan→≡ a nan_a ∙ sym (is_nan→≡ b nan_b)
    ]
  ]
]

-- What is filed is found, under a key that is found at all.
pub find-file :
    (k n : Value) (now : ℕ) (m : Nonces)
    → find n (file k now m) ≡ (if same_key k n then some now else find n m)
unfolding find file
find-file k n now [] = refl
find-file k n now ((j, t) ∷ m) = elim (Bool-cases (same_key j k)) [
  | inl jk ↦
      let e : same_key j n ≡ same_key k n = ap (λ x. same_key x n) (same_key→≡ j k jk) in
      elim (Bool-cases (same_key k n)) [
        | inl kn ↦ rw (jk, find) (rw (e, kn) refl)
        | inr apart ↦ rw (jk, find) (rw (e, apart) refl)
      ]
  | inr distinct ↦ elim (Bool-cases (same_key j n)) [
    | inr jn ↦ rw (distinct, find) (rw jn (find-file k n now m))
    | inl jn ↦ elim (Bool-cases (same_key k n)) [
      | inr kn ↦ rw (distinct, find) (rw (jn, kn) refl)
      | inl kn ↦
          let same : j ≡ k = same_key→≡ j n jn ∙ sym (same_key→≡ k n kn) in
          let e : same_key j k ≡ same_key k n =
            ap (λ x. same_key x k) same ∙ ap (same_key k) (same_key→≡ k n kn) in
          absurd (ground (arith, e, kn, distinct))
    ]
  ]
]

-- A key that is not even the same as itself is never found.
find-incomparable : (n : Value) (m : Nonces) → same_key n n ≡ false → find n m ≡ none
unfolding find
find-incomparable n [] h = refl
find-incomparable n ((k, t) ∷ m) h = elim (Bool-cases (same_key k n)) [
  | inr distinct ↦ rw (distinct, find) (find-incomparable n m h)
  | inl kn ↦
      let e : same_key k n ≡ same_key n n = ap (λ x. same_key x n) (same_key→≡ k n kn) in
      absurd (ground (arith, e, kn, h))
]

pub has-incomparable : (n : Value) (m : Nonces) → same_key n n ≡ false → has n m ≡ false
unfolding has
has-incomparable n m h = rw (find-incomparable n m h, has) refl

-- The nonce is on file since `t` or later, or `t` is longer ago than the sweep age.
abbrev pub Kept : Value → ℕ → ℕ → Nonces → Type 0
Kept n t now m = ((u : ℕ) × (find n m ≡ some u) × (t ≤ u)) ⊎ (t + sweep_age < now)

sweep-find :
    (now : ℕ) (n : Value) (m : Nonces) (u : ℕ)
    → find n m ≡ some u
    → (find n (sweep now m) ≡ some u) ⊎ (u + sweep_age < now)
unfolding find sweep
sweep-find now n [] u h = inl h
sweep-find now n ((k, t) ∷ m) u h = elim (Bool-cases (same_key k n)) [
  | inl same ↦ elim (Bool-cases (ltb (t + sweep_age) now)) [
    | inl old ↦ inr (ground arith)
    | inr young ↦ inl (ground arith)
  ]
  | inr apart ↦ elim (sweep-find now n m u (ground arith)) [
    | inl found ↦ inl (ground arith)
    | inr gone ↦ inr gone
  ]
]

sweep-Kept :
    (now : ℕ) (n : Value) (t : ℕ) (m : Nonces) → Kept n t now m → Kept n t now (sweep now m)
sweep-Kept now n t m (inr late) = inr late
sweep-Kept now n t m (inl (u, found, after)) = elim (sweep-find now n m u found) [
  | inl still ↦ inl (u, still, after)
  | inr gone ↦ inr (omega arith)
]

file-Kept :
    (now : ℕ) (n k : Value) (t : ℕ) (m : Nonces)
    → t ≤ now
    → Kept n t now m
    → Kept n t now (file k now m)
file-Kept now n k t m h (inr late) = inr late
file-Kept now n k t m h (inl (u, found, after)) = elim (Bool-cases (same_key k n)) [
  | inl same ↦ inl (now, rw (find-file k n now m, same) refl, h)
  | inr apart ↦ inl (u, rw (find-file k n now m, apart) found, after)
]

-- Spending another nonce, sweep included, does not lose a young one.
pub add-Kept :
    (now : ℕ) (n k : Value) (t : ℕ) (m : Nonces)
    → t ≤ now
    → Kept n t now m
    → Kept n t now (add now k m)
unfolding add
add-Kept now n k t m h kept = elim (Bool-cases (ltb sweep_above (length (file k now m)))) [
  | inl full ↦ rw full (sweep-Kept now n t (file k now m) (file-Kept now n k t m h kept))
  | inr room ↦ rw room (file-Kept now n k t m h kept)
]

-- Right after it is spent a nonce is known, unless it is an object.
pub add_self :
    (now : ℕ) (n : Value) (m : Nonces) → same_key n n ≡ true → Kept n now now (add now n m)
unfolding add
add_self now n m comparable = elim (Bool-cases (ltb sweep_above (length (file n now m)))) [
  | inl full ↦ rw full (
      sweep-Kept now n now (file n now m)
        (inl (now, rw (find-file n n now m, comparable) refl, omega arith)))
  | inr room ↦ rw room (inl (now, rw (find-file n n now m, comparable) refl, omega arith))
]

-- The additions of later requests, each at its own time.
pub add_all : List (ℕ × Value) → Nonces → Nonces
add_all [] m = m
add_all ((now, k) ∷ later) m = add_all later (add now k m)

-- Times do not fall, from `t` on up to `end`.
abbrev pub Ordered : ℕ → List (ℕ × Value) → ℕ → Type 0
Ordered t [] end = t ≤ end
Ordered t ((now, k) ∷ later) end = (t ≤ now) × Ordered now later end

Kept-mono :
    (n : Value) (t now later : ℕ) (m : Nonces) → now ≤ later → Kept n t now m → Kept n t later m
Kept-mono n t now later m h (inl found) = inl found
Kept-mono n t now later m h (inr late) = inr (omega arith)

add_all-Kept :
    (n : Value) (t from end : ℕ) (later : List (ℕ × Value)) (m : Nonces)
    → t ≤ from
    → Ordered from later end
    → Kept n t from m
    → Kept n t end (add_all later m)
unfolding add_all
add_all-Kept n t from end [] m h o kept = Kept-mono n t from end m o kept
add_all-Kept n t from end ((now, k) ∷ later) m h (o, os) kept =
    add_all-Kept n t now end later (add now k m) (omega arith) os
      (add-Kept now n k t m (omega arith) (Kept-mono n t from now m o kept))

-- A nonce that is no object, spent at time `t`, is still refused at any time up to `sweep_age` later, whatever other
-- nonces were spent in between and however often the store was swept.
pub has_after_add :
    (n : Value) (t end : ℕ) (later : List (ℕ × Value)) (m : Nonces)
    → same_key n n ≡ true
    → Ordered t later end
    → end ≤ t + sweep_age
    → has n (add_all later (add t n m)) ≡ true
unfolding has
has_after_add n t end later m comparable o h =
    elim (add_all-Kept n t t end later (add t n m) (omega arith) o (add_self t n m comparable)) [
      | inl (u, found, _) ↦ rw (found, has) refl
      | inr late ↦ absurd (omega arith)
    ]
