-- ===== src/VerifiedIntent/Gate/Laws.antt =====
-- What a verified decision proves.
use circuit_agent_cloud.Prelude.{
  ℕ, ◌≡◌, refl, ◌↔◌, ◌⊎◌, inl, inr, true, false, String, List, [], ◌∷◌, Option, none, some, All,
  arith, eq_iff, eq_refl, Option-cases, Bool-cases,
}
use circuit_agent_cloud.Proto.Value.{Convert}
use circuit_agent_cloud.VerifiedIntent.Replay.{Nonces, has, add}
use circuit_agent_cloud.VerifiedIntent.Evidence.{
  Evidence, Options, Code, Outcome, pass, reject, verify_evidence, evidence_backs,
}
use circuit_agent_cloud.VerifiedIntent.Evidence.Laws.{nonce_of, Authentic, verify_evidence_iff}
use circuit_agent_cloud.VerifiedIntent.Rule.{
  Rule, Inputs, Intent, input_at, evaluate_rule, same_intent,
}
use circuit_agent_cloud.VerifiedIntent.Gate.{
  VerifiedIntent, verified, verify_all, all_backed, justified, decision_gate, names_rule, judge,
}

-- Each piece of evidence is authentic, and its nonce is unspent when its turn comes.
abbrev pub Accepted : Convert → Options → ℕ → List Evidence → Nonces → Nonces → Type 0
Accepted c o now [] m m' = m' ≡ m
Accepted c o now (e ∷ es) m m' =
    Authentic c o now e
    × (has (nonce_of e) m ≡ false)
    × Accepted c o now es (add now (nonce_of e) m) m'

Outcome-cases : (r : Outcome) → ((m : Nonces) × (r ≡ pass m)) ⊎ ((c : Code) × (r ≡ reject c))
Outcome-cases (pass m) = inl (m, refl)
Outcome-cases (reject c) = inr (c, refl)

verify_all-Accepted :
    (c : Convert) (o : Options) (now : ℕ) (es : List Evidence) (m m' : Nonces)
    → verify_all c o now es m ≡ (none, m')
    → Accepted c o now es m m'
unfolding verify_all
verify_all-Accepted c o now [] m m' h = ground arith
verify_all-Accepted c o now (e ∷ es) m m' h = elim (Outcome-cases (verify_evidence c o now e m)) [
  | inl (n, passed) ↦
      let (authentic, unspent, spent) = (verify_evidence_iff c o now e m n).0 passed in
      (
        authentic,
        unspent,
        verify_all-Accepted c o now es (add now (nonce_of e) m) m' (ground arith),
      )
  | inr (code, refused) ↦ absurd (ground arith)
]

Accepted-verify_all :
    (c : Convert) (o : Options) (now : ℕ) (es : List Evidence) (m m' : Nonces)
    → Accepted c o now es m m'
    → verify_all c o now es m ≡ (none, m')
unfolding verify_all
Accepted-verify_all c o now [] m m' h = ground arith
Accepted-verify_all c o now (e ∷ es) m m' (authentic, unspent, rest) =
    rw
      (
        (verify_evidence_iff c o now e m (add now (nonce_of e) m)).1 (authentic, unspent, refl),
        verify_all,
      )
      (Accepted-verify_all c o now es (add now (nonce_of e) m) m' rest)

abbrev pub Backed : List Evidence → Inputs → List String → Type 0
Backed evidence inputs = All (λ k. evidence_backs evidence k (input_at inputs k) ≡ some true)

all_backed_iff :
    (ks : List String) (evidence : List Evidence) (inputs : Inputs)
    → (all_backed ks evidence inputs ≡ some true) ↔ Backed evidence inputs ks
unfolding all_backed
all_backed_iff [] evidence inputs = ground arith
all_backed_iff (k ∷ ks) evidence inputs = ground (arith, all_backed_iff ks evidence inputs)

-- The conditions of a verified decision.
pub record IsJustified (c : Convert) (o : Options) (r : Rule) (now : ℕ) (vi : VerifiedIntent)
    (m m' : Nonces) : Type 0 where
  pub rule : vi.rule ≡ some r.id
  pub accepted : Accepted c o now vi.evidence m m'
  pub backed : Backed vi.evidence vi.inputs r.requires
  pub derived :
      (i : Intent) × (evaluate_rule c r vi.inputs ≡ some i) × (same_intent i vi.intent ≡ true)

judge-verified :
    (c : Convert) (r : Rule) (vi : VerifiedIntent) (code : Option Code)
    → judge c r vi code ≡ verified
    → (code ≡ none)
      × (all_backed r.requires vi.evidence vi.inputs ≡ some true)
      × (justified c r vi ≡ true)
unfolding judge
judge-verified c r vi none h = ground arith
judge-verified c r vi (some code) h = cc

justified→derived :
    (c : Convert) (r : Rule) (vi : VerifiedIntent)
    → justified c r vi ≡ true
    → (i : Intent) × (evaluate_rule c r vi.inputs ≡ some i) × (same_intent i vi.intent ≡ true)
unfolding justified
justified→derived c r vi h = elim (Option-cases (evaluate_rule c r vi.inputs)) [
  | inl e ↦ absurd (ground arith)
  | inr (i, e) ↦ (i, e, ground arith)
]

names_rule→≡ : (r : Rule) (vi : VerifiedIntent) → names_rule r vi ≡ true → vi.rule ≡ some r.id
unfolding names_rule
names_rule→≡ r vi h = elim (Option-cases vi.rule) [
  | inl e ↦ absurd (ground arith)
  | inr (id, e) ↦ ground (arith, eq_iff id r.id)
]

pub decision_gate_sound :
    (c : Convert) (o : Options) (r : Rule) (now : ℕ) (vi : VerifiedIntent) (m m' : Nonces)
    → decision_gate c o r now vi m ≡ (verified, m')
    → IsJustified c o r now vi m m'
unfolding decision_gate
decision_gate_sound c o r now vi m m' h = elim (Bool-cases (names_rule r vi)) [
  | inr other ↦ absurd (ground arith)
  | inl named ↦
      let e : (judge c r vi (verify_all c o now vi.evidence m).0 ≡ verified)
          × ((verify_all c o now vi.evidence m).1 ≡ m') =
        ground arith in
      let (accepted, backed, derived) =
        judge-verified c r vi (verify_all c o now vi.evidence m).0 e.0 in
      record {
        rule = names_rule→≡ r vi named;
        accepted = verify_all-Accepted c o now vi.evidence m m' (λ i. (accepted i, e.1 i));
        backed = (all_backed_iff r.requires vi.evidence vi.inputs).0 backed;
        derived = justified→derived c r vi derived;
      }
]

-- Conversely a decision that meets these conditions is verified, and the store holds the spent nonces.
pub decision_gate_complete :
    (c : Convert) (o : Options) (r : Rule) (now : ℕ) (vi : VerifiedIntent) (m m' : Nonces)
    → IsJustified c o r now vi m m'
    → decision_gate c o r now vi m ≡ (verified, m')
unfolding decision_gate names_rule judge justified
decision_gate_complete c o r now vi m m' j =
    let (i, evaluated, same) = j.derived in
    ground (
      arith,
      Accepted-verify_all c o now vi.evidence m m' j.accepted,
      (all_backed_iff r.requires vi.evidence vi.inputs).1 j.backed,
      evaluated,
      same,
      eq_refl r.id,
    )
