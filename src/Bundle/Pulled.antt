-- ===== src/Bundle/Pulled.antt =====
-- What a pull of a bundle can give.
use circuit_agent_cloud.Prelude.{
  ℕ, ◌+◌, ◌≤◌, ◌≡◌, refl, ap, ◌∙◌, ◌⊎◌, inl, inr, true, List, [], ◌∷◌, ◌++◌, some, length,
  length-append, same, ltb, arith, Bool-cases, Option-cases,
}
use circuit_agent_cloud.Base58.{codes}
use circuit_agent_cloud.NodeHost.Egress.{Net, assert_public_host}
use circuit_agent_cloud.Bundle.Pull.{
  Url, Transport, Response, has_scheme, receive, first_of, pull_https, pull_file, is_inside,
  pull_bytes,
}

receive-bounded :
    (max_bytes len : ℕ) (got : List ℕ) (chunks : List (List ℕ)) (bytes : List ℕ)
    → len ≡ length got
    → length got ≤ max_bytes
    → receive max_bytes len got chunks ≡ some bytes
    → length bytes ≤ max_bytes
unfolding receive
receive-bounded max_bytes len got [] bytes counted fits h = ground (arith, h, fits)
receive-bounded max_bytes len got (c ∷ chunks) bytes counted fits h =
    elim (Bool-cases (ltb max_bytes (len + length c))) [
      | inl over ↦ absurd (ground (arith, over, h))
      | inr within ↦
          receive-bounded max_bytes (len + length c) (got ++ c) chunks bytes
            (ground (arith, counted, length-append got c))
            (ground (arith, counted, within, length-append got c)) (ground (arith, within, h))
    ]

-- Where bytes come from: an answer over https from the first vetted address of a public host, or a
-- file that lies inside the store's root.
abbrev pub FromHttps : Net → Transport → ℕ → List ℕ → List ℕ → Type 0
FromHttps net t max_bytes url bytes =
    (u : Url) × (vetted : List (List ℕ)) × (r : Response) × (t.parse_url url ≡ some u)
    × (same u.protocol (codes "https:") ≡ true)
    × (assert_public_host net u.hostname ≡ some vetted)
    × (t.https_get url (first_of vetted) ≡ some r)
    × (r.status ≡ 200)
    × (receive max_bytes 0 [] r.chunks ≡ some bytes)

abbrev pub FromRoot : Transport → List ℕ → List ℕ → List ℕ → Type 0
FromRoot t base url bytes =
    (root : List ℕ) × (p : List ℕ) × (t.real_path base ≡ some root)
    × (t.real_path url ≡ some p)
    × (is_inside root p ≡ true)
    × (t.read_file p ≡ some bytes)

pull_https-bounded :
    (net : Net) (t : Transport) (max_bytes : ℕ) (url bytes : List ℕ)
    → pull_https net t max_bytes url ≡ some bytes
    → (length bytes ≤ max_bytes) × FromHttps net t max_bytes url bytes
unfolding pull_https
pull_https-bounded net t max_bytes url bytes h = elim (Option-cases (t.parse_url url)) [
  | inl bad ↦ absurd (ground (arith, bad, h))
  | inr (u, parsed) ↦ elim (Option-cases (assert_public_host net u.hostname)) [
    | inl private ↦ absurd (ground (arith, parsed, private, h))
    | inr (vetted, public) ↦ elim (Option-cases (t.https_get url (first_of vetted))) [
      | inl failed ↦ absurd (ground (arith, parsed, public, failed, h))
      | inr (r, answered) ↦
          let got : receive max_bytes 0 [] r.chunks ≡ some bytes =
            ground (arith, parsed, public, answered, h) in
          (
            receive-bounded max_bytes 0 [] r.chunks bytes refl (omega arith) got,
            (
              u,
              vetted,
              r,
              parsed,
              ground (arith, parsed, public, answered, h),
              public,
              answered,
              ground (arith, parsed, public, answered, h),
              got,
            ),
          )
    ]
  ]
]

pull_file-bounded :
    (t : Transport) (base : List ℕ) (max_bytes : ℕ) (url bytes : List ℕ)
    → pull_file t (some base) max_bytes url ≡ some bytes
    → (length bytes ≤ max_bytes) × FromRoot t base url bytes
unfolding pull_file
pull_file-bounded t base max_bytes url bytes h = elim (Option-cases (t.real_path url)) [
  | inl missing ↦ absurd (ground (arith, missing, h))
  | inr (p, there) ↦ elim (Option-cases (t.real_path base)) [
    | inl missing ↦ absurd (ground (arith, there, missing, h))
    | inr (root, based) ↦ elim (Option-cases (t.read_file p)) [
      | inl unread ↦ absurd (ground (arith, there, based, unread, h))
      | inr (content, read) ↦
          let e : content ≡ bytes = ground (arith, there, based, read, h) in
          (
            ground (arith, there, based, read, e, h),
            (
              root,
              p,
              based,
              there,
              ground (arith, there, based, read, h),
              read ∙ ap (λ (xs : List ℕ). some xs) e,
            ),
          )
    ]
  ]
]

-- Bytes that are pulled with a store root are not more than the cap, and they come over https from a
-- vetted address with status 200, or from a file inside the root.
pub pull_bytes-bounded :
    (net : Net) (t : Transport) (base : List ℕ) (max_bytes : ℕ) (url bytes : List ℕ)
    → pull_bytes net t (some base) max_bytes url ≡ some bytes
    → (length bytes ≤ max_bytes) × (FromHttps net t max_bytes url bytes ⊎ FromRoot t base url bytes)
unfolding pull_bytes
pull_bytes-bounded net t base max_bytes url bytes h = elim (Bool-cases (has_scheme url)) [
  | inl remote ↦
      let (fits, from) = pull_https-bounded net t max_bytes url bytes (ground (arith, remote, h)) in
      (fits, inl from)
  | inr local ↦
      let (fits, from) = pull_file-bounded t base max_bytes url bytes (ground (arith, local, h)) in
      (fits, inr from)
]
