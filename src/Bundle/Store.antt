-- ===== src/Bundle/Store.antt =====
-- lib/bundle-store.js: the store of a local directory, and the routes of control-plane/server.js that
-- upload and download bundles. A directory is a map from content hashes to what is filed under them.
use circuit_agent_cloud.Prelude.{
  ℕ, Bool, true, false, not, ◌&&◌, ◌||◌, String, ◌==◌, List, nan, num, Option, none, some, lookup,
  insert, length, all, leb, ltb, nat_eq, if◌then◌else◌,
}
use circuit_agent_cloud.Base58.{codes}
use circuit_agent_cloud.Proto.Value.{Value, undefined, null, boolean, number, text, other}
use circuit_agent_cloud.Bundle.{Crypto, SignedManifest, Resources, is_text}

-- `JSON.parse(JSON.stringify(v))` in a field of an object: a number that is none is written as null, a
-- field that is `undefined` is left out, which reads as `undefined` again.
unfoldable pub value_as_json : Crypto → Value → Value
value_as_json c (number nan) = null
value_as_json c (number (num n)) = number (num n)
value_as_json c (other t) = other (c.reread t)
value_as_json c undefined = undefined
value_as_json c null = null
value_as_json c (boolean b) = boolean b
value_as_json c (text s) = text s

unfoldable pub resources_as_json : Crypto → Option Resources → Option Resources
unfolding value_as_json
resources_as_json c none = none
resources_as_json c (some r) = some (record {
  max_cpu = value_as_json c r.max_cpu;
  max_memory_mb = value_as_json c r.max_memory_mb;
})

-- The same of a manifest, whose other fields are texts and lists of texts.
unfoldable pub as_json : Crypto → SignedManifest → SignedManifest
unfolding resources_as_json
as_json c m = record m { resources = resources_as_json c m.resources }

-- The files `<sha>.tgz` and `<sha>.manifest.json`, the latter by what its JSON says.
pub record Shelf : Type 0 where
  pub blobs : List (String × List ℕ)
  pub manifests : List (String × SignedManifest)

unfoldable pub has : String → Shelf → Bool
has sha s = elim (lookup sha s.blobs) [ none ↦ false | some bytes ↦ true ]

-- `put`; the answer is the hash under which the bundle stands, and `none` the thrown error.
unfoldable pub put : Crypto → List ℕ → SignedManifest → Shelf → Shelf × Option String
unfolding as_json
put c bytes m s =
    let h : String = c.sha256hex bytes in
    if not (is_text m.sha256 h) then (s, none) else (
      record { blobs = insert h bytes s.blobs; manifests = insert h (as_json c m) s.manifests },
      some h,
    )

-- `getBytes` and `getManifest`; `none` is the thrown error.
unfoldable pub get_bytes : String → Shelf → Option (List ℕ)
get_bytes sha s = lookup sha s.blobs

unfoldable pub get_manifest : String → Shelf → Option SignedManifest
get_manifest sha s = lookup sha s.manifests

abbrev pub hex_digit : ℕ → Bool
hex_digit c = (leb b'0' c && leb c b'9') || (leb b'a' c && leb c b'f')

-- `/^[0-9a-f]{64}$/`.
unfoldable pub is_sha : String → Bool
is_sha sha = nat_eq (length (codes sha)) 64 && all hex_digit (codes sha)

pub data Upload : Type 0 where
  uploaded : String → ℕ → Upload
  -- Status 400 for the name, 401, 413, and 400 for the bytes.
  bad_name unsigned too_large mismatch : Upload

-- `PUT /v1/bundles/:name`. `name` is the hash in the path, if the path has the form `<hash>.tgz`;
-- `owner` is who signed the request, and the body is read only after that.
unfoldable pub upload :
    Crypto
    → ℕ
    → Option String
    → Option String
    → List ℕ
    → List (String × List ℕ)
    → List (String × List ℕ) × Upload
unfolding is_sha
upload c max_bytes none owner body blobs = (blobs, bad_name)
upload c max_bytes (some sha) none body blobs =
    if not (is_sha sha) then (blobs, bad_name) else (blobs, unsigned)
upload c max_bytes (some sha) (some owner) body blobs =
    if not (is_sha sha)
    then (blobs, bad_name)
    else if ltb max_bytes (length body)
    then (blobs, too_large)
    else if not (c.sha256hex body == sha)
    then (blobs, mismatch)
    else elim (lookup sha blobs) [
      | none ↦ (insert sha body blobs, uploaded sha (length body))
      | some old ↦ (blobs, uploaded sha (length body))
    ]

pub data Download : Type 0 where
  body : List ℕ → Download
  -- Status 400 and 404.
  invalid_name not_found : Download

-- `GET /v1/bundles/:name`.
unfoldable pub download : Option String → List (String × List ℕ) → Download
unfolding is_sha
download none blobs = invalid_name
download (some sha) blobs =
    if not (is_sha sha)
    then invalid_name
    else elim (lookup sha blobs) [ none ↦ not_found | some bytes ↦ body bytes ]
