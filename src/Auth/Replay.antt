-- ===== src/Auth/Replay.antt =====
-- The second use of a signed request.
use circuit_agent_cloud.Prelude.{
  ℕ, ◌≤◌, ◌<◌, ◌≡◌, ◌≢◌, ◌⊎◌, inl, inr, false, String, ◌==◌, List, [], ◌∷◌, some, ltb, num, ℤ, pos,
  negsuc, ◌∙◌, lookup, arith, eq_iff, Bool-cases, Option-cases,
}
use circuit_agent_cloud.Auth.Nonces.{Store, has, after_has, add}
use circuit_agent_cloud.Auth.Nonces.Laws.{
  after_has-lookup, add-lookup, has-stored, add_self, has_expired,
}
use circuit_agent_cloud.Auth.{
  is_unsigned, is_incomplete, signed_by, judge_signature, Request, Crypto, authenticated, expiry,
  verify_request,
}
use circuit_agent_cloud.Auth.Laws.{verify_request-stale, verify_request-judged, expiry-window}

-- The nonce is stored with this expiry, or it has come.
abbrev pub Live : String → ℕ → ℕ → Store → Type 0
Live n e now m = (lookup n m ≡ some e) ⊎ (e ≤ now)

-- A request leaves the store as it is, or adds its own nonce, which was not live.
store-cases :
    (c : Crypto) (domain : String) (max_age now : ℕ) (r : Request) (m : Store)
    → ((verify_request c domain max_age now r m).1 ≡ m)
      ⊎ ((d : ℕ) × (has now r.nonce m ≡ false)
          × ((verify_request c domain max_age now r m).1
              ≡ add now r.nonce d (after_has now r.nonce m)))
unfolding verify_request
store-cases c domain max_age now r m =
    elim (Option-cases (expiry max_age now (c.parse_number r.ts))) [
      | inl stale ↦ inl (ground arith)
      | inr (e, fresh) ↦ elim (Bool-cases (has now r.nonce m)) [
        | inl live ↦ inl (ground arith)
        | inr free ↦ elim (Bool-cases (is_unsigned r)) [
          | inl u ↦ inl (ground arith)
          | inr u ↦ elim (Bool-cases (is_incomplete r)) [
            | inl i ↦ inl (ground arith)
            | inr i ↦ inr (e, free, ground arith)
          ]
        ]
      ]
    ]

verify_request-Live :
    (c : Crypto) (domain : String) (max_age from now : ℕ) (r : Request) (m : Store) (n : String)
    (e : ℕ)
    → from ≤ now
    → Live n e from m
    → Live n e now (verify_request c domain max_age now r m).1
verify_request-Live c domain max_age from now r m n e h (inr late) = inr (omega arith)
verify_request-Live c domain max_age from now r m n e h (inl found) =
    elim (Bool-cases (ltb now e)) [
      | inr late ↦ inr (ground arith)
      | inl before ↦
          let h' : now < e = ground arith in
          inl (elim (store-cases c domain max_age now r m) [
            | inl same ↦ rw same found
            | inr (d, free, stored) ↦
                let other : (r.nonce == n) ≡ false =
                  ground (arith, eq_iff r.nonce n, has-stored now n m e h' found) in
                rw stored (
                  add-lookup now n r.nonce d (after_has now r.nonce m) e other h'
                    (after_has-lookup now n r.nonce m other ∙ found))
          ])
    ]

-- Any requests, each at its time.
pub run_requests : Crypto → String → ℕ → List (ℕ × Request) → Store → Store
run_requests c domain max_age [] m = m
run_requests c domain max_age ((now, r) ∷ later) m =
    run_requests c domain max_age later (verify_request c domain max_age now r m).1

-- The times of the requests do not go back, from `from` up to `end`.
abbrev pub Ordered : ℕ → List (ℕ × Request) → ℕ → Type 0
Ordered from [] end = from ≤ end
Ordered from ((now, r) ∷ later) end = (from ≤ now) × Ordered now later end

run_requests-Live :
    (c : Crypto) (domain : String) (max_age from end : ℕ) (later : List (ℕ × Request)) (m : Store)
    (n : String) (e : ℕ)
    → Ordered from later end
    → Live n e from m
    → Live n e end (run_requests c domain max_age later m)
unfolding run_requests
run_requests-Live c domain max_age from end [] m n e o (inl found) = inl found
run_requests-Live c domain max_age from end [] m n e o (inr late) = inr (omega arith)
run_requests-Live c domain max_age from end ((now, r) ∷ later) m n e (h, o) live =
    run_requests-Live c domain max_age now end later (verify_request c domain max_age now r m).1 n e
      o (verify_request-Live c domain max_age from now r m n e h live)

Ordered→≤ : (from end : ℕ) (later : List (ℕ × Request)) → Ordered from later end → from ≤ end
Ordered→≤ from end [] o = o
Ordered→≤ from end ((now, r) ∷ later) (h, o) = omega (arith, Ordered→≤ now end later o)

expiry_fixed :
    (max_age t u : ℕ) (z : ℤ) (e d : ℕ)
    → expiry max_age t (num z) ≡ some e
    → expiry max_age u (num z) ≡ some d
    → e ≡ d
unfolding expiry
expiry_fixed max_age t u (pos n) e d p q = ground arith
expiry_fixed max_age t u (negsuc n) e d p q = ground arith

expiry_last :
    (max_age t : ℕ) (z : ℤ) (e : ℕ)
    → expiry max_age t (num z) ≡ some e
    → expiry max_age e (num z) ≡ some e
unfolding expiry
expiry_last max_age t (pos n) e p = ground arith
expiry_last max_age t (negsuc n) e p = ground arith

-- A complete request with a fresh stamp and a free nonce is judged by its signature alone.
verify_request-unchanged :
    (c : Crypto) (domain who : String) (max_age t u : ℕ) (r : Request) (m m' : Store) (z : ℤ)
    (e : ℕ)
    → c.parse_number r.ts ≡ num z
    → expiry max_age t (num z) ≡ some e
    → expiry max_age u (num z) ≡ some e
    → has u r.nonce m' ≡ false
    → judge_signature (signed_by c domain r z) r.who ≡ authenticated who
    → verify_request c domain max_age t r m ≡ (authenticated who, m')
    → (verify_request c domain max_age u r m').0 ≡ authenticated who
unfolding verify_request
verify_request-unchanged c domain who max_age t u r m m' z e parsed fresh fresh' free judged first =
    elim (Bool-cases (is_unsigned r)) [
      | inl a ↦ absurd (ground arith)
      | inr a ↦ elim (Bool-cases (is_incomplete r)) [
        | inl b ↦ absurd (ground arith)
        | inr b ↦ ground arith
      ]
    ]

-- A request that was authenticated once is never authenticated again, after any other requests at
-- times that do not go back, except at the very millisecond `e` at which its time stamp ages out.
pub authenticated_once :
    (c : Crypto) (domain who who' : String) (max_age t end : ℕ) (r : Request)
    (later : List (ℕ × Request)) (m m' m'' : Store) (z : ℤ) (e : ℕ)
    → verify_request c domain max_age t r m ≡ (authenticated who, m')
    → c.parse_number r.ts ≡ num z
    → expiry max_age t (num z) ≡ some e
    → Ordered t later end
    → end ≢ e
    → verify_request c domain max_age end r (run_requests c domain max_age later m')
      ≢ (authenticated who', m'')
authenticated_once c domain who who' max_age t end r later m m' m'' z e first parsed fresh o other
      again =
    let m1 : Store = run_requests c domain max_age later m' in
    let (_, _, stored) =
      verify_request-judged c domain who max_age t r m m' z e parsed fresh first in
    elim (Option-cases (expiry max_age end (num z))) [
      | inl stale ↦
          verify_request-stale c domain who' max_age end r m1 m'' (num z) parsed stale again
      | inr (d, fresh') ↦
          let (free, _, _) =
            verify_request-judged c domain who' max_age end r m1 m'' z d parsed fresh' again in
          let same : e ≡ d = expiry_fixed max_age t end z e d fresh fresh' in
          let (until, _) = expiry-window max_age end z d fresh' in
          let before : end < e = ground (arith, same) in
          let on_file : lookup r.nonce m' ≡ some e = rw stored (
            add_self t r.nonce e (after_has t r.nonce m)
              (omega (arith, Ordered→≤ t end later o))) in
          elim (run_requests-Live c domain max_age t end later m' r.nonce e o (inl on_file)) [
            | inl found ↦ ground (arith, has-stored end r.nonce m1 e before found)
            | inr late ↦ omega arith
          ]
    ]

-- The boundary that is left: at the millisecond `e` at which its time stamp ages out, a request that
-- was authenticated before is authenticated a second time, for its nonce no longer counts while its
-- time stamp still does.
pub authenticated_twice :
    (c : Crypto) (domain who : String) (max_age t : ℕ) (r : Request) (m m' : Store) (z : ℤ) (e : ℕ)
    → verify_request c domain max_age t r m ≡ (authenticated who, m')
    → c.parse_number r.ts ≡ num z
    → expiry max_age t (num z) ≡ some e
    → t < e
    → (verify_request c domain max_age e r m').0 ≡ authenticated who
authenticated_twice c domain who max_age t r m m' z e first parsed fresh h =
    let (_, judged, stored) =
      verify_request-judged c domain who max_age t r m m' z e parsed fresh first in
    let on_file : lookup r.nonce m' ≡ some e =
      rw stored (add_self t r.nonce e (after_has t r.nonce m) h) in
    let free : has e r.nonce m' ≡ false = has_expired r.nonce m' e on_file in
    let fresh' : expiry max_age e (num z) ≡ some e = expiry_last max_age t z e fresh in
    verify_request-unchanged c domain who max_age t e r m m' z e parsed fresh fresh' free judged
      first
