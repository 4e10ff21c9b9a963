-- ===== src/Bundle/Pull.antt =====
-- lib/bundle-store.js: `pullBytes`. Texts are lists of code points. The transport and the file system
-- are left open; the address that a connection is pinned to is the first vetted one.
use circuit_agent_cloud.Prelude.{
  ℕ, ◌+◌, Bool, true, false, not, ◌&&◌, ◌||◌, List, [], ◌∷◌, ◌++◌, Option, none, some, length, same,
  leb, ltb, nat_eq, if◌then◌else◌,
}
use circuit_agent_cloud.Base58.{codes}
use circuit_agent_cloud.NodeHost.Egress.{Net, assert_public_host}

-- What `new URL` reads of a text.
pub record Url : Type 0 where
  pub protocol : List ℕ
  pub hostname : List ℕ

pub record Response : Type 0 where
  pub status : ℕ
  pub chunks : List (List ℕ)

-- The parser of URLs (`none` where it throws), `https.get` for a URL over an address (`none` for a
-- failed connection), `realpathSync` and the content of a file.
pub record Transport : Type 0 where
  pub parse_url : List ℕ → Option Url
  pub https_get : List ℕ → Option (List ℕ) → Option Response
  pub real_path : List ℕ → Option (List ℕ)
  pub read_file : List ℕ → Option (List ℕ)

abbrev is_letter : ℕ → Bool
is_letter c = (leb b'a' c && leb c b'z') || (leb b'A' c && leb c b'Z')

-- `text.startsWith(prefix)`.
unfoldable pub starts_with : List ℕ → List ℕ → Bool
starts_with [] text = true
starts_with (p ∷ ps) [] = false
starts_with (p ∷ ps) (x ∷ xs) = nat_eq p x && starts_with ps xs

-- `[a-z]*:\/\/`, and with a first letter, `/^[a-z]+:\/\//i`.
unfoldable pub scheme_rest : List ℕ → Bool
unfolding starts_with
scheme_rest [] = false
scheme_rest (c ∷ rest) =
    let later = scheme_rest rest in
    if is_letter c then later else starts_with (codes "://") (c ∷ rest)

unfoldable pub has_scheme : List ℕ → Bool
unfolding scheme_rest
has_scheme [] = false
has_scheme (c ∷ rest) = is_letter c && scheme_rest rest

-- The handlers of `data` and `end`: what is left of the cap, and the chunks so far.
unfoldable pub receive : ℕ → ℕ → List ℕ → List (List ℕ) → Option (List ℕ)
receive max_bytes len got [] = some got
receive max_bytes len got (c ∷ chunks) =
    let rest = receive max_bytes (len + length c) (got ++ c) chunks in
    if ltb max_bytes (len + length c) then none else rest

abbrev pub first_of : List (List ℕ) → Option (List ℕ)
first_of [] = none
first_of (a ∷ rest) = some a

unfoldable pub pull_https : Net → Transport → ℕ → List ℕ → Option (List ℕ)
unfolding receive
pull_https net t max_bytes url = elim (t.parse_url url) [
  | none ↦ none
  | some u ↦
      if not (same u.protocol (codes "https:"))
      then none
      else elim (assert_public_host net u.hostname) [
        | none ↦ none
        | some vetted ↦ elim (t.https_get url (first_of vetted)) [
          | none ↦ none
          | some r ↦
              if leb 300 r.status && ltb r.status 400
              then none
              else if not (nat_eq r.status 200)
              then none
              else receive max_bytes 0 [] r.chunks
        ]
      ]
]

-- `p === root || p.startsWith(root + path.sep)`.
unfoldable pub is_inside : List ℕ → List ℕ → Bool
unfolding starts_with
is_inside root p = same p root || starts_with (root ++ b'/' ∷ []) p

-- The size of a file is the length of its content.
abbrev read_capped : Transport → ℕ → List ℕ → Option (List ℕ)
read_capped t max_bytes p = elim (t.read_file p) [
  | none ↦ none
  | some bytes ↦ if ltb max_bytes (length bytes) then none else some bytes
]

-- A store root that is missing or empty is `none`.
unfoldable pub pull_file : Transport → Option (List ℕ) → ℕ → List ℕ → Option (List ℕ)
unfolding is_inside
pull_file t store_root max_bytes url = elim (t.real_path url) [
  | none ↦ none
  | some p ↦ elim store_root [
    | none ↦ read_capped t max_bytes p
    | some base ↦ elim (t.real_path base) [
      | none ↦ none
      | some root ↦ if not (is_inside root p) then none else read_capped t max_bytes p
    ]
  ]
]

unfoldable pub pull_bytes : Net → Transport → Option (List ℕ) → ℕ → List ℕ → Option (List ℕ)
unfolding has_scheme pull_https pull_file
pull_bytes net t store_root max_bytes url =
    if has_scheme url then pull_https net t max_bytes url else pull_file t store_root max_bytes url
