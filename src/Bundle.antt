-- ===== src/Bundle.antt =====
-- lib/bundle.js: the signed manifest of a bundle and its verification. Bytes are numbers; the hash,
-- the signature scheme, `JSON.stringify` and `tar` are left open.
pub mod Sorted
pub mod Store
pub mod Pull
pub mod Laws
pub mod Uploads
pub mod Pulled
mod Tests
use circuit_agent_cloud.Prelude.{
  ℕ, ◌+◌, ◌-◌, ◌*◌, ◌/◌, ◌%◌, Bool, true, false, not, ◌&&◌, ◌||◌, String, ◌==◌, List, [], ◌∷◌, ◌++◌,
  Option, none, some, all, leb, ltb, nat_eq, if◌then◌else◌,
}
use circuit_agent_cloud.Proto.Value.{Value, null, is_nullish}
use circuit_agent_cloud.Base58.{codes, base58, base58decode}

-- The values are of any type; a missing one is `undefined`.
pub record Resources : Type 0 where
  pub max_cpu : Value
  pub max_memory_mb : Value

-- A missing field is `none`; a missing publisher or signature is "", and an egress list that is no
-- array is `none`. Its texts are lists of UTF-16 code units, and the signature a list of characters.
pub record SignedManifest : Type 0 where
  pub agent_id : Option String
  pub egress : Option (List (List ℕ))
  pub entry : Option String
  pub resources : Option Resources
  pub runtime : Option String
  pub sdk : Option String
  pub sha256 : Option String
  pub publisher : String
  pub sig : List ℕ

-- What is signed, before it is printed.
pub record Canonical : Type 0 where
  pub agent_id : Option String
  pub egress : List (List ℕ)
  pub entry : Option String
  pub resources : Option Resources
  pub runtime : Option String
  pub schema : ℕ
  pub sdk : Option String
  pub sha256 : Option String

pub record Crypto : Type 0 where
  pub sha256hex : List ℕ → String
  -- `JSON.stringify`, as bytes.
  pub print : Canonical → List ℕ
  -- The text form of an object, after `JSON.parse(JSON.stringify(object))`.
  pub reread : String → String
  -- Of a private key and a message.
  pub sign : List ℕ → List ℕ → List ℕ
  -- Of a public key, a message and a signature; false where it throws.
  pub verify : List ℕ → List ℕ → List ℕ → Bool

abbrev pub bundle_schema : ℕ
bundle_schema = 1

-- `a <= b` on code units.
unfoldable pub before : List ℕ → List ℕ → Bool
before [] ys = true
before (x ∷ xs) [] = false
before (x ∷ xs) (y ∷ ys) = ltb x y || (nat_eq x y && before xs ys)

unfoldable pub insert_text : List ℕ → List (List ℕ) → List (List ℕ)
unfolding before
insert_text x [] = x ∷ []
insert_text x (y ∷ ys) = let rest = insert_text x ys in if before x y then x ∷ y ∷ ys else y ∷ rest

-- `[...texts].sort()`.
unfoldable pub sort_texts : List (List ℕ) → List (List ℕ)
unfolding insert_text
sort_texts [] = []
sort_texts (x ∷ xs) = insert_text x (sort_texts xs)

-- `v ?? null`.
abbrev or_null : Value → Value
or_null v = if is_nullish v then null else v

unfoldable pub canon_resources : Option Resources → Option Resources
canon_resources none = none
canon_resources (some r) =
    some (record { max_cpu = or_null r.max_cpu; max_memory_mb = or_null r.max_memory_mb })

unfoldable pub canonical : SignedManifest → Canonical
unfolding sort_texts canon_resources
canonical m = record {
  agent_id = m.agent_id;
  egress = elim m.egress [ none ↦ [] | some hosts ↦ sort_texts hosts ];
  entry = m.entry;
  resources = canon_resources m.resources;
  runtime = m.runtime;
  schema = bundle_schema;
  sdk = m.sdk;
  sha256 = m.sha256;
}

unfoldable pub manifest_signing_bytes : Crypto → SignedManifest → List ℕ
unfolding canonical
manifest_signing_bytes c m = c.print (canonical m)

unfoldable pub sign_manifest : Crypto → List ℕ → SignedManifest → List ℕ
unfolding manifest_signing_bytes base58
sign_manifest c priv m = base58 (c.sign priv (manifest_signing_bytes c m))

abbrev is_empty : List ℕ → Bool
is_empty [] = true
is_empty (x ∷ xs) = false

unfoldable pub verify_manifest : Crypto → SignedManifest → Bool
unfolding manifest_signing_bytes base58decode
verify_manifest c m =
    if is_empty m.sig || m.publisher == "" then false else elim (base58decode (codes m.publisher)) [
      | none ↦ false
      | some key ↦ elim (base58decode m.sig) [
        | none ↦ false
        | some sig ↦ c.verify key (manifest_signing_bytes c m) sig
      ]
    ]

abbrev between : ℕ → ℕ → ℕ → Bool
between low high c = leb low c && leb c high

-- `\w`.
abbrev is_word : ℕ → Bool
is_word c = between b'a' b'z' c || between b'A' b'Z' c || between b'0' b'9' c || nat_eq c b'_'

-- `[\w.-]`.
abbrev is_word_dot : ℕ → Bool
is_word_dot c = is_word c || nat_eq c b'.' || nat_eq c b'-'

unfoldable pub is_file_name : List ℕ → Bool
is_file_name [] = false
is_file_name (c ∷ rest) = is_word c && all is_word_dot rest

-- The pattern admits none of what the source tests after it.
unfoldable pub is_safe_entry : Option String → Bool
unfolding is_file_name
is_safe_entry none = false
is_safe_entry (some entry) =
    is_file_name (codes entry)
    && not (entry == ".")
    && not (entry == "..")
    && all (λ c. not (nat_eq c b'/')) (codes entry)

-- `a !== b`.
abbrev pub is_text : Option String → String → Bool
is_text none s = false
is_text (some t) s = t == s

pub data Verdict : Type 0 where
  valid : Verdict
  sha256_mismatch bad_manifest_sig publisher_not_owner agent_id_mismatch bad_entry : Verdict

-- An expectation that is missing or empty is `none`.
abbrev contradicts : Option String → Option String → Bool
contradicts claimed none = false
contradicts claimed (some expected) = not (is_text claimed expected)

unfoldable pub verify_bundle :
    Crypto → List ℕ → SignedManifest → Option String → Option String → Verdict
unfolding verify_manifest is_safe_entry
verify_bundle c bytes m owner agent =
    if not (is_text m.sha256 (c.sha256hex bytes))
    then sha256_mismatch
    else if not (verify_manifest c m)
    then bad_manifest_sig
    else if contradicts (some m.publisher) owner
    then publisher_not_owner
    else if contradicts m.agent_id agent
    then agent_id_mismatch
    else if not (is_safe_entry m.entry)
    then bad_entry
    else valid

-- The arguments of `createBundle`.
pub record Draft : Type 0 where
  pub agent_id : String
  pub runtime : String
  pub entry : String
  pub sdk : Option String
  pub egress : List (List ℕ)
  pub resources : Option Resources
  pub publisher : String

unfoldable pub draft_manifest : Draft → String → SignedManifest
draft_manifest d sha = record {
  agent_id = some d.agent_id;
  egress = some d.egress;
  entry = some d.entry;
  resources = d.resources;
  runtime = some d.runtime;
  sdk = d.sdk;
  sha256 = some sha;
  publisher = d.publisher;
  sig = [];
}

-- `createBundle`; `none` is a thrown error. `has_entry` is whether the directory has the entry, and
-- `packed` what `tar` makes of the directory.
unfoldable pub create_bundle :
    Crypto → List ℕ → Bool → Option (List ℕ) → Draft → Option (List ℕ × SignedManifest)
unfolding draft_manifest sign_manifest is_safe_entry
create_bundle c priv has_entry packed d =
    if not (d.runtime == "node" || d.runtime == "oci")
    then none
    else if not (is_safe_entry (some d.entry))
    then none
    else if not has_entry
    then none
    else elim packed [
      | none ↦ none
      | some bytes ↦
          let m : SignedManifest = draft_manifest d (c.sha256hex bytes) in
          some (bytes, record m { sig = sign_manifest c priv m })
    ]
