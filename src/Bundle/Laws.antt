-- ===== src/Bundle/Laws.antt =====
-- What a signature on a manifest covers, and a bundle's way from its publisher to a node.
use mathlib.Core.List.{Perm}
use circuit_agent_cloud.Prelude.{
  ℕ, ◌≡◌, refl, sym, ap, ◌∙◌, ◌↔◌, ◌≢◌, ◌⊎◌, inl, inr, true, false, ◌==◌, List, [], ◌∷◌, Option,
  none, some, arith, nan,
}
use circuit_agent_cloud.Proto.Value.{Value, number, other}
use circuit_agent_cloud.Base58.{codes, base58, base58decode}
use circuit_agent_cloud.Base58.RoundTrip.{AreBytes, base58decode-base58}
use circuit_agent_cloud.Bundle.{
  Crypto, bundle_schema, Resources, SignedManifest, Canonical, canonical, canon_resources,
  sort_texts, manifest_signing_bytes, sign_manifest, verify_manifest,
}
use circuit_agent_cloud.Bundle.Sorted.{sort_texts-eq}

abbrev pub egress_of : SignedManifest → List (List ℕ)
egress_of m = elim m.egress [ none ↦ [] | some hosts ↦ hosts ]

-- Two manifests agree in everything but the order of their egress classes, the publisher and the
-- signature.
pub record Agree (m m' : SignedManifest) : Type 0 where
  pub agent_id : m.agent_id ≡ m'.agent_id
  pub egress : Perm (egress_of m) (egress_of m')
  pub entry : m.entry ≡ m'.entry
  pub resources : canon_resources m.resources ≡ canon_resources m'.resources
  pub runtime : m.runtime ≡ m'.runtime
  pub sdk : m.sdk ≡ m'.sdk
  pub sha256 : m.sha256 ≡ m'.sha256

canonical-egress : (m : SignedManifest) → (canonical m).egress ≡ sort_texts (egress_of m)
unfolding canonical sort_texts
canonical-egress m = ground arith

canonical-eq : (m m' : SignedManifest) → Agree m m' → canonical m ≡ canonical m'
unfolding canonical
canonical-eq m m' a =
    let sorted = (sort_texts-eq (egress_of m) (egress_of m')).1 a.egress in
    let egress : (canonical m).egress ≡ (canonical m').egress =
      canonical-egress m ∙ sorted ∙ sym (canonical-egress m') in
    λ i. record {
      agent_id = a.agent_id i;
      egress = egress i;
      entry = a.entry i;
      resources = a.resources i;
      runtime = a.runtime i;
      schema = bundle_schema;
      sdk = a.sdk i;
      sha256 = a.sha256 i;
    }

-- Two manifests whose signed values are printed alike only if they are equal are signed as the same
-- bytes exactly if they agree: in everything signed but the order of the egress classes.
pub canonical-Agree :
    (c : Crypto) (m m' : SignedManifest)
    → (c.print (canonical m) ≡ c.print (canonical m') → canonical m ≡ canonical m')
    → (manifest_signing_bytes c m ≡ manifest_signing_bytes c m') ↔ Agree m m'
unfolding manifest_signing_bytes
canonical-Agree c m m' injective = (
  λ e.
      let same : canonical m ≡ canonical m' = injective e in
      record {
        agent_id = ap (λ (v : Canonical). v.agent_id) same;
        egress = (sort_texts-eq (egress_of m) (egress_of m')).0 (
            sym (canonical-egress m) ∙ ap (λ (v : Canonical). v.egress) same ∙ canonical-egress m');
        entry = ap (λ (v : Canonical). v.entry) same;
        resources = ap (λ (v : Canonical). v.resources) same;
        runtime = ap (λ (v : Canonical). v.runtime) same;
        sdk = ap (λ (v : Canonical). v.sdk) same;
        sha256 = ap (λ (v : Canonical). v.sha256) same;
      },
  λ a. ap c.print (canonical-eq m m' a),
)

decode_empty : base58decode [] ≡ some []
unfolding base58decode
decode_empty = refl

base58-ne-nil : (xs : List ℕ) → AreBytes xs → xs ≢ [] → base58 xs ≢ []
base58-ne-nil xs all present e =
    let back : some xs ≡ some [] =
      sym (base58decode-base58 xs all) ∙ ap base58decode e ∙ decode_empty in
    present (ground (arith, back))

List-cases : (xs : List ℕ) → (xs ≡ []) ⊎ ((x : ℕ) × (rest : List ℕ) × (xs ≡ x ∷ rest))
List-cases [] = inl refl
List-cases (x ∷ rest) = inr (x, rest, refl)

-- What a key pair promises: signatures are byte strings that are not empty, and the public key
-- verifies what the private one signed.
pub record KeyPair (c : Crypto) (priv key : List ℕ) : Type 0 where
  pub bytes : (msg : List ℕ) → AreBytes (c.sign priv msg)
  pub nonempty : (msg : List ℕ) → c.sign priv msg ≢ []
  pub verifies : (msg : List ℕ) → c.verify key msg (c.sign priv msg) ≡ true

verify_parts :
    (c : Crypto) (m : SignedManifest) (key sig : List ℕ)
    → base58decode (codes m.publisher) ≡ some key
    → (m.publisher == "") ≡ false
    → m.sig ≢ []
    → base58decode m.sig ≡ some sig
    → c.verify key (manifest_signing_bytes c m) sig ≡ true
    → verify_manifest c m ≡ true
unfolding verify_manifest
verify_parts c m key sig known named present read ok = elim (List-cases m.sig) [
  | inl gone ↦ absurd (present gone)
  | inr (x, xs, e) ↦ ground (arith, e, known, named, read, ok)
]

-- A manifest that was signed with the publisher's key is verified.
pub sign_manifest-verified :
    (c : Crypto) (priv key : List ℕ) (m : SignedManifest)
    → KeyPair c priv key
    → base58decode (codes m.publisher) ≡ some key
    → (m.publisher == "") ≡ false
    → verify_manifest c (record m { sig = sign_manifest c priv m }) ≡ true
unfolding sign_manifest manifest_signing_bytes canonical
sign_manifest-verified c priv key m pair known named =
    let msg : List ℕ = manifest_signing_bytes c m in
    let signed : SignedManifest = record m { sig = sign_manifest c priv m } in
    verify_parts c signed key (c.sign priv msg) known named
      (base58-ne-nil (c.sign priv msg) (pair.bytes msg) (pair.nonempty msg))
      (base58decode-base58 (c.sign priv msg) (pair.bytes msg)) (pair.verifies msg)

-- A value that JSON can write: no number that is none, and no object.
abbrev pub IsPlain : Value → Type 0
IsPlain (number nan) = ⊥
IsPlain (other t) = ⊥
IsPlain _ = Unit

abbrev pub ArePlain : Option Resources → Type 0
ArePlain none = Unit
ArePlain (some r) = IsPlain r.max_cpu × IsPlain r.max_memory_mb
