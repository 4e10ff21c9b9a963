-- ===== src/Bundle/Tests.antt =====
-- A bundle on its way.
use circuit_agent_cloud.Prelude.{
  ℕ, ◌≤◌, ◌≡◌, ◌↔◌, ◌⊎◌, refl, false, String, List, [], ◌∷◌, none, some, length, lookup, same,
  arith, nat_eq,
}
use circuit_agent_cloud.Base58.{codes, base58}
use circuit_agent_cloud.Bundle.{
  Crypto, SignedManifest, Draft, canonical, manifest_signing_bytes, draft_manifest, sort_texts,
  is_safe_entry,
}
use circuit_agent_cloud.Bundle.Store.{Shelf, upload, uploaded, download, body}
use circuit_agent_cloud.Bundle.Laws.{Agree, canonical-Agree}
use circuit_agent_cloud.Bundle.Uploads.{Blobs, Put, run, IsAddressed, upload-download}
use circuit_agent_cloud.Bundle.Pull.{Transport, pull_bytes}
use circuit_agent_cloud.Bundle.Pulled.{FromHttps, FromRoot, pull_bytes-bounded}
use circuit_agent_cloud.NodeHost.Egress.{Net}

abbrev digest : String
digest = "00112233445566778899aabbccddeeff00112233445566778899aabbccddeeff"

abbrev crypto : Crypto
crypto = record {
  sha256hex = λ bytes. digest;
  print = λ v. [];
  reread = λ t. t;
  sign = λ priv msg. 0 ∷ 200 ∷ [];
  verify = λ key msg sig. nat_eq (length sig) 2;
}

sort_test : sort_texts (codes "rpc" ∷ codes "data" ∷ []) ≡ codes "data" ∷ codes "rpc" ∷ []
unfolding sort_texts
sort_test = refl

escape_test : is_safe_entry (some "../agent.js") ≡ false
unfolding is_safe_entry
escape_test = refl

abbrev draft : Draft
draft = record {
  agent_id = "a";
  runtime = "node";
  entry = "agent.js";
  sdk = none;
  egress = codes "rpc" ∷ codes "data" ∷ [];
  resources = none;
  publisher = "z";
}

abbrev signed : SignedManifest
signed = record (draft_manifest draft digest) { sig = base58 (0 ∷ 200 ∷ []) }

abbrev shelf : Shelf
shelf = record { blobs = []; manifests = [] }

-- The same manifest, with its egress classes in another order.
abbrev reordered : SignedManifest
reordered = record signed { egress = some (codes "data" ∷ codes "rpc" ∷ []) }

canonical-Agree_example :
    (manifest_signing_bytes crypto signed ≡ manifest_signing_bytes crypto reordered)
    ↔ Agree signed reordered
unfolding canonical draft_manifest
canonical-Agree_example = canonical-Agree crypto signed reordered (λ e. refl)

-- An upload, another one under the same hash, and a download.
abbrev second : Put
second = record { sha = some digest; owner = some "mallory"; content = 9 ∷ [] }

abbrev after_upload : Blobs
after_upload = (upload crypto 10 (some digest) (some "owner") (31 ∷ []) []).0

accepted : (upload crypto 10 (some digest) (some "owner") (31 ∷ []) []).1 ≡ uploaded digest 1
unfolding upload lookup
accepted = refl

nothing-Addressed : IsAddressed crypto []
unfolding lookup
nothing-Addressed sha bytes e = ground (arith, e)

upload-download_example :
    (bytes : List ℕ) × (crypto.sha256hex bytes ≡ digest)
    × (download (some digest) after_upload ≡ body bytes)
    × (download (some digest) (run crypto 10 (second ∷ []) after_upload) ≡ body bytes)
upload-download_example =
    upload-download crypto 10 (some digest) (some "owner") (31 ∷ []) [] digest 1 (second ∷ [])
      nothing-Addressed accepted

-- A file of the store.
abbrev net : Net
net = record { parse = λ h. none; unclean = λ h. false; resolve_dns = λ h. none }

abbrev transport : Transport
transport = record {
  parse_url = λ url. none;
  https_get = λ url ip. none;
  real_path = λ p. some p;
  read_file = λ p. some (31 ∷ 139 ∷ []);
}

pulled : pull_bytes net transport (some (codes "/s")) 10 (codes "/s/b.tgz") ≡ some (31 ∷ 139 ∷ [])
unfolding pull_bytes same
pulled = refl

pull_bytes-bounded_example :
    (2 ≤ 10)
    × (FromHttps net transport 10 (codes "/s/b.tgz") (31 ∷ 139 ∷ [])
        ⊎ FromRoot transport (codes "/s") (codes "/s/b.tgz") (31 ∷ 139 ∷ []))
pull_bytes-bounded_example =
    pull_bytes-bounded net transport (codes "/s") 10 (codes "/s/b.tgz") (31 ∷ 139 ∷ []) pulled
