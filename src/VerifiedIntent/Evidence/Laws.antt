-- ===== src/VerifiedIntent/Evidence/Laws.antt =====
-- When evidence is accepted, when it is accepted once, and when it is not.
use circuit_agent_cloud.Prelude.{
  ℕ, suc, ◌+◌, ◌*◌, ◌≤◌, ◌≡◌, refl, sym, subst, ◌↔◌, ◌≢◌, inl, inr, true, false, String, List, none,
  some, Number, nan, num, pos, negsuc, lookup, arith, eq_iff, Option-cases,
}
use circuit_agent_cloud.Proto.Value.{Value, undefined, scale, Convert, same_key, to_text, to_number}
use circuit_agent_cloud.VerifiedIntent.Replay.{Nonces, has, add, sweep_age}
use circuit_agent_cloud.VerifiedIntent.Replay.Laws.{
  add_all, Ordered, has_after_add, has-incomparable,
}
use circuit_agent_cloud.VerifiedIntent.Evidence.{
  Evidence, signed_quote, inference_receipt, zktls, unknown, Options, max_age, pass, quote_payload,
  receipt_payload, trusts, stale, fresh_once, accepts, proof_code, verify_evidence,
}

abbrev pub nonce_of : Evidence → Value
nonce_of (signed_quote q) = q.nonce
nonce_of (inference_receipt r) = r.nonce
nonce_of (zktls z) = z.nonce
nonce_of unknown = undefined

abbrev pub stamp_of : Evidence → Value
stamp_of (signed_quote q) = q.ts
stamp_of (inference_receipt r) = r.ts
stamp_of (zktls z) = z.session_time
stamp_of unknown = undefined

-- Who vouches for the content.
abbrev pub Vouched : Convert → Options → Evidence → Type 0
Vouched c o (signed_quote q) =
    (lookup (to_text c q.key) o.accepted_keys ≡ some "data")
    × (o.verify_payload q.key (quote_payload q) q.sig ≡ true)
Vouched c o (inference_receipt r) =
    (lookup (to_text c r.key) o.accepted_keys ≡ some "inference")
    × (o.verify_payload r.key (receipt_payload r) r.sig ≡ true)
Vouched c o (zktls z) = (accepts o z.notary ≡ true) × (proof_code o z ≡ none)
Vouched c o unknown = ⊥

-- Not older than the age, in the unit of numbers; a stamp that is no number is of no age.
abbrev pub IsFresh : ℕ → ℕ → Number → Type 0
IsFresh age now nan = Unit
IsFresh age now (num (pos ts)) = now * scale ≤ age * scale + ts
IsFresh age now (num (negsuc ts)) = now * scale + suc ts ≤ age * scale

abbrev pub Authentic : Convert → Options → ℕ → Evidence → Type 0
Authentic c o now e = Vouched c o e × IsFresh (max_age o) now (to_number c (stamp_of e))

trusts_iff :
    (c : Convert) (o : Options) (key : Value) (class : String)
    → (trusts c o key class ≡ true) ↔ (lookup (to_text c key) o.accepted_keys ≡ some class)
unfolding trusts
trusts_iff c o key class = elim (Option-cases (lookup (to_text c key) o.accepted_keys)) [
  | inl e ↦ ground arith
  | inr (found, e) ↦ ground (arith, eq_iff found class)
]

stale_iff :
    (o : Options) (now : ℕ) (n : Number) → (stale o now n ≡ false) ↔ IsFresh (max_age o) now n
unfolding stale
stale_iff o now nan = ground arith
stale_iff o now (num (pos ts)) = ground arith
stale_iff o now (num (negsuc ts)) = ground arith

fresh_once_iff :
    (c : Convert) (o : Options) (now : ℕ) (ts nonce : Value) (m m' : Nonces)
    → (fresh_once c o now ts nonce m ≡ pass m')
      ↔ (IsFresh (max_age o) now (to_number c ts) × (has nonce m ≡ false) × (m' ≡ add now nonce m))
unfolding fresh_once
fresh_once_iff c o now ts nonce m m' =
    let (fresh, unstale) = stale_iff o now (to_number c ts) in
    (
      (λ h. (fresh (ground (arith, h)), ground (arith, h), ground (arith, h))),
      (λ (young, unspent, spent). ground (arith, unstale young, unspent, spent)),
    )

pub verify_evidence_iff :
    (c : Convert) (o : Options) (now : ℕ) (e : Evidence) (m m' : Nonces)
    → (verify_evidence c o now e m ≡ pass m')
      ↔ (Authentic c o now e × (has (nonce_of e) m ≡ false) × (m' ≡ add now (nonce_of e) m))
unfolding verify_evidence
verify_evidence_iff c o now (signed_quote q) m m' =
    ground (arith, trusts_iff c o q.key "data", fresh_once_iff c o now q.ts q.nonce m m')
verify_evidence_iff c o now (inference_receipt r) m m' =
    ground (arith, trusts_iff c o r.key "inference", fresh_once_iff c o now r.ts r.nonce m m')
verify_evidence_iff c o now (zktls z) m m' = elim (Option-cases (proof_code o z)) [
  | inl e ↦ ground (arith, fresh_once_iff c o now z.session_time z.nonce m m')
  | inr (code, e) ↦ ground arith
]
verify_evidence_iff c o now unknown m m' = ground arith

-- A stamp that is a number, and not later than the time.
abbrev pub IsDated : ℕ → Number → Type 0
IsDated t nan = ⊥
IsDated t (num (pos ts)) = ts ≤ t * scale
IsDated t (num (negsuc ts)) = Unit

fresh_dated : (age t end : ℕ) (n : Number) → IsDated t n → IsFresh age end n → end ≤ t + age
fresh_dated age t end nan dated fresh = absurd dated
fresh_dated age t end (num (pos ts)) dated fresh = omega arith
fresh_dated age t end (num (negsuc ts)) dated fresh = omega arith

-- Evidence that was accepted once is refused ever after, if its nonce is no object and no array, it is
-- stamped with a number and not dated in the future, and evidence ages out no later than the nonce
-- store may forget: whatever the later options with that age, and whatever other nonces were spent in
-- between.
pub replay_refused :
    (c : Convert) (o o' : Options) (e : Evidence) (t end : ℕ) (later : List (ℕ × Value))
    (m m' m'' : Nonces)
    → verify_evidence c o t e m ≡ pass m'
    → same_key (nonce_of e) (nonce_of e) ≡ true
    → IsDated t (to_number c (stamp_of e))
    → max_age o' ≤ sweep_age
    → Ordered t later end
    → verify_evidence c o' end e (add_all later m') ≢ pass m''
replay_refused c o o' e t end later m m' m'' first comparable dated short order again =
    let (_, _, spent) = (verify_evidence_iff c o t e m m').0 first in
    let ((_, fresh), unspent, _) =
      (verify_evidence_iff c o' end e (add_all later m') m'').0 again in
    let due = fresh_dated (max_age o') t end (to_number c (stamp_of e)) dated fresh in
    ground (
      arith,
      spent,
      has_after_add (nonce_of e) t end later m comparable order (omega (arith, due, short)),
    )

-- The defect that is left: evidence that passed once, with an object or an array for its nonce and
-- stamped with no number, passes again under the same options, at any time and whatever nonces are
-- on file by then.
pub replay_accepted :
    (c : Convert) (o : Options) (e : Evidence) (t end : ℕ) (m m' later : Nonces)
    → verify_evidence c o t e m ≡ pass m'
    → same_key (nonce_of e) (nonce_of e) ≡ false
    → to_number c (stamp_of e) ≡ nan
    → verify_evidence c o end e later ≡ pass (add end (nonce_of e) later)
replay_accepted c o e t end m m' later first incomparable unstamped =
    let ((vouched, _), _, _) = (verify_evidence_iff c o t e m m').0 first in
    let fresh : IsFresh (max_age o) end (to_number c (stamp_of e)) =
      subst (IsFresh (max_age o) end) (sym unstamped) tt in
    (verify_evidence_iff c o end e later (add end (nonce_of e) later)).1
      ((vouched, fresh), has-incomparable (nonce_of e) later incomparable, refl)
