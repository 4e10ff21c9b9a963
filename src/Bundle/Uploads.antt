-- ===== src/Bundle/Uploads.antt =====
-- Uploads to the shared store of bundles, and what a download finds afterwards.
use circuit_agent_cloud.Prelude.{
  ℕ, ◌≡◌, inl, inr, true, String, List, [], ◌∷◌, Option, none, some, lookup, lookup-insert,
  lookup-insert_self, arith, Option-cases, eq_iff,
}
use circuit_agent_cloud.Bundle.{Crypto}
use circuit_agent_cloud.Bundle.Store.{uploaded, body, is_sha, upload, download}

abbrev pub Blobs : Type 0
Blobs = List (String × List ℕ)

-- A request: the hash in its path, who signed it, and its body.
pub record Put : Type 0 where
  pub sha : Option String
  pub owner : Option String
  pub content : List ℕ

unfoldable pub run : Crypto → ℕ → List Put → Blobs → Blobs
run c max_bytes [] blobs = blobs
run c max_bytes (r ∷ requests) blobs =
    run c max_bytes requests (upload c max_bytes r.sha r.owner r.content blobs).0

-- Every file has the hash that it is named after.
abbrev pub IsAddressed : Crypto → Blobs → Type 0
IsAddressed c blobs =
    (sha : String) (bytes : List ℕ) → lookup sha blobs ≡ some bytes → c.sha256hex bytes ≡ sha

module _ (c : Crypto) (max_bytes : ℕ) where
  upload-IsAddressed :
      (sha owner : Option String) (content : List ℕ) (blobs : Blobs)
      → IsAddressed c blobs
      → IsAddressed c (upload c max_bytes sha owner content blobs).0
  unfolding upload
  upload-IsAddressed none owner content blobs all k bytes h = all k bytes h
  upload-IsAddressed (some sha) none content blobs all k bytes h = all k bytes (ground (arith, h))
  upload-IsAddressed (some sha) (some owner) content blobs all k bytes h = ground (
    arith,
    h,
    all k bytes,
    lookup-insert sha k content blobs,
    eq_iff (c.sha256hex content) sha,
    eq_iff sha k,
  )

  upload-kept :
      (sha owner : Option String) (content : List ℕ) (blobs : Blobs) (k : String) (bytes : List ℕ)
      → lookup k blobs ≡ some bytes
      → lookup k (upload c max_bytes sha owner content blobs).0 ≡ some bytes
  unfolding upload
  upload-kept none owner content blobs k bytes h = h
  upload-kept (some sha) none content blobs k bytes h = ground (arith, h)
  upload-kept (some sha) (some owner) content blobs k bytes h =
      ground (arith, h, lookup-insert sha k content blobs, eq_iff sha k)

  pub run-IsAddressed :
      (requests : List Put) (blobs : Blobs)
      → IsAddressed c blobs
      → IsAddressed c (run c max_bytes requests blobs)
  unfolding run
  run-IsAddressed [] blobs all = all
  run-IsAddressed (r ∷ requests) blobs all =
      run-IsAddressed requests (upload c max_bytes r.sha r.owner r.content blobs).0
        (upload-IsAddressed r.sha r.owner r.content blobs all)

  run-kept :
      (requests : List Put) (blobs : Blobs) (k : String) (bytes : List ℕ)
      → lookup k blobs ≡ some bytes
      → lookup k (run c max_bytes requests blobs) ≡ some bytes
  unfolding run
  run-kept [] blobs k bytes h = h
  run-kept (r ∷ requests) blobs k bytes h =
      run-kept requests (upload c max_bytes r.sha r.owner r.content blobs).0 k bytes
        (upload-kept r.sha r.owner r.content blobs k bytes h)

  -- An accepted upload is there.
  upload-there :
      (sha owner : Option String) (content : List ℕ) (blobs : Blobs) (k : String) (n : ℕ)
      → (upload c max_bytes sha owner content blobs).1 ≡ uploaded k n
      → (is_sha k ≡ true)
        × ((bytes : List ℕ) × (lookup k (upload c max_bytes sha owner content blobs).0
              ≡ some bytes))
  unfolding upload
  upload-there none owner content blobs k n h = absurd (ground (arith, h))
  upload-there (some sha) none content blobs k n h = absurd (ground (arith, h))
  upload-there (some sha) (some owner) content blobs k n h =
      let e : sha ≡ k = ground (arith, h) in
      elim (Option-cases (lookup sha blobs)) [
        | inl fresh ↦ (
          ground (arith, h),
          (content, ground (arith, h, e, fresh, lookup-insert_self sha content blobs)),
        )
        | inr (old, found) ↦ (ground (arith, h), (old, ground (arith, h, e, found)))
      ]

-- After an upload was accepted under a hash, and whatever is uploaded later, a download of that hash
-- answers with bytes of that hash, always the same, if every file had its hash before.
pub upload-download :
    (c : Crypto) (max_bytes : ℕ) (sha owner : Option String) (content : List ℕ) (blobs : Blobs)
    (k : String) (n : ℕ) (later : List Put)
    → IsAddressed c blobs
    → (upload c max_bytes sha owner content blobs).1 ≡ uploaded k n
    → (bytes : List ℕ) × (c.sha256hex bytes ≡ k)
      × (download (some k) (upload c max_bytes sha owner content blobs).0 ≡ body bytes)
      × (download (some k) (run c max_bytes later (upload c max_bytes sha owner content blobs).0)
          ≡ body bytes)
unfolding download
upload-download c max_bytes sha owner content blobs k n later all accepted =
    let after : Blobs = (upload c max_bytes sha owner content blobs).0 in
    let (named, (bytes, there)) = upload-there c max_bytes sha owner content blobs k n accepted in
    (
      bytes,
      upload-IsAddressed c max_bytes sha owner content blobs all k bytes there,
      ground (arith, named, there),
      ground (arith, named, run-kept c max_bytes later after k bytes there),
    )
