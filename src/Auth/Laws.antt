-- ===== src/Auth/Laws.antt =====
-- What an authenticated request shows, and that it is not accepted twice.
use circuit_agent_cloud.Prelude.{
  ℕ, ◌+◌, ◌≤◌, ◌≡◌, ◌≢◌, refl, ◌⊎◌, inl, inr, Bool, true, false, String, List, Option, none, some,
  Number, nan, num, ℤ, pos, negsuc, arith, Option-cases,
}
use circuit_agent_cloud.Auth.Nonces.{Store, has, after_has, add}
use circuit_agent_cloud.Base58.{codes, base58decode}
use circuit_agent_cloud.Auth.{
  auth_message, Request, Crypto, authenticated, expiry, signed_by, verify_request, judge_signature,
}

Number-cases : (x : Number) → (x ≡ nan) ⊎ ((z : ℤ) × (x ≡ num z))
Number-cases nan = inl refl
Number-cases (num z) = inr (z, refl)

expiry-nan : (max_age now : ℕ) → expiry max_age now nan ≡ none
unfolding expiry
expiry-nan max_age now = refl

-- Within the window, either way.
pub expiry-window :
    (max_age now : ℕ) (z : ℤ) (e : ℕ)
    → expiry max_age now (num z) ≡ some e
    → (now ≤ e) × (e ≤ now + max_age + max_age)
unfolding expiry
expiry-window max_age now (pos t) e h = ground arith
expiry-window max_age now (negsuc t) e h = ground arith

-- The signature over the request's message verifies under the key that `who` spells.
abbrev pub Signed : Crypto → String → Request → ℤ → Type 0
Signed c domain r z =
    (key sig : List ℕ) × (base58decode (codes r.who) ≡ some key)
    × (base58decode (codes r.sig) ≡ some sig)
    × (c.verify key (auth_message c domain r z) sig ≡ some true)

signed_by-Signed :
    (c : Crypto) (domain : String) (r : Request) (z : ℤ)
    → signed_by c domain r z ≡ some true
    → Signed c domain r z
unfolding signed_by
signed_by-Signed c domain r z h = elim (Option-cases (base58decode (codes r.who))) [
  | inl none_key ↦ absurd (ground arith)
  | inr (key, k) ↦ elim (Option-cases (base58decode (codes r.sig))) [
    | inl none_sig ↦ absurd (ground arith)
    | inr (sig, g) ↦ (key, sig, k, g, ground arith)
  ]
]

pub judge_signature-authenticated :
    (o : Option Bool) (a who : String)
    → judge_signature o a ≡ authenticated who
    → (o ≡ some true) × (a ≡ who)
judge_signature-authenticated none a who h = ground arith
judge_signature-authenticated (some false) a who h = ground arith
judge_signature-authenticated (some true) a who h = ground arith

pub verify_request-stale :
    (c : Crypto) (domain who : String) (max_age now : ℕ) (r : Request) (m m' : Store) (x : Number)
    → c.parse_number r.ts ≡ x
    → expiry max_age now x ≡ none
    → verify_request c domain max_age now r m ≢ (authenticated who, m')
unfolding verify_request
verify_request-stale c domain who max_age now r m m' x parsed stale h = ground arith

pub verify_request-judged :
    (c : Crypto) (domain who : String) (max_age now : ℕ) (r : Request) (m m' : Store) (z : ℤ)
    (e : ℕ)
    → c.parse_number r.ts ≡ num z
    → expiry max_age now (num z) ≡ some e
    → verify_request c domain max_age now r m ≡ (authenticated who, m')
    → (has now r.nonce m ≡ false)
      × (judge_signature (signed_by c domain r z) r.who ≡ authenticated who)
      × (m' ≡ add now r.nonce e (after_has now r.nonce m))
unfolding verify_request
verify_request-judged c domain who max_age now r m m' z e parsed fresh h = ground arith

-- A request is authenticated as `who` only if it names `who`, its time stamp is a number, at most
-- `max_age` from now (`e` is the moment at which it ages out), its nonce is not live, and the signature
-- over its message verifies under the key that `who` spells; then its nonce is stored until `e`.
pub verify_request_sound :
    (c : Crypto) (domain who : String) (max_age now : ℕ) (r : Request) (m m' : Store)
    → verify_request c domain max_age now r m ≡ (authenticated who, m')
    → (r.who ≡ who)
      × (has now r.nonce m ≡ false)
      × ((z : ℤ) × (e : ℕ) × (c.parse_number r.ts ≡ num z)
          × Signed c domain r z
          × (expiry max_age now (num z) ≡ some e)
          × (now ≤ e)
          × (e ≤ now + max_age + max_age)
          × (m' ≡ add now r.nonce e (after_has now r.nonce m)))
verify_request_sound c domain who max_age now r m m' h = elim (Number-cases (c.parse_number r.ts)) [
  | inl bad ↦
      absurd
        (verify_request-stale c domain who max_age now r m m' nan bad (expiry-nan max_age now) h)
  | inr (z, parsed) ↦ elim (Option-cases (expiry max_age now (num z))) [
    | inl stale ↦
        absurd (verify_request-stale c domain who max_age now r m m' (num z) parsed stale h)
    | inr (e, fresh) ↦
        let (live, judged, stored) =
          verify_request-judged c domain who max_age now r m m' z e parsed fresh h in
        let (verifies, named) =
          judge_signature-authenticated (signed_by c domain r z) r.who who judged in
        let (upper, lower) = expiry-window max_age now z e fresh in
        (
          named,
          live,
          (z, e, parsed, signed_by-Signed c domain r z verifies, fresh, upper, lower, stored),
        )
  ]
]
