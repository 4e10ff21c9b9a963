-- ===== src/NodeHost/Host/Unpacked.antt =====
-- The bundles that a start leaves unpacked.
use circuit_agent_cloud.Prelude.{
  ℕ, suc, ◌≤◌, ◌≡◌, refl, sym, subst, inl, inr, not, ◌&&◌, ◌||◌, ◌⊎◌, String, ◌==◌, List, [], ◌∷◌,
  Option, none, some, lookup, insert, length, All, arith, Bool-cases, Option-cases, eq_iff,
}
use circuit_agent_cloud.Proto.Sandbox.{is_first_party_node_runtime}
use circuit_agent_cloud.Bundle.Store.{is_sha}
use circuit_agent_cloud.Bundle.Pull.{pull_bytes}
use circuit_agent_cloud.Bundle.{SignedManifest, Crypto, Verdict, valid, verify_bundle}
use circuit_agent_cloud.NodeHost.Resolve.{
  Site, Order, Block, Cache, Fetched, unpacked, rejected, unpack_if, fetch, resolve_bundle,
  block_runtime, publisher_of, Failure, store_root, bundle_store_url, non_empty, resolve_workload,
}
use circuit_agent_cloud.NodeHost.Host.{Host, finish_start, report_agent, launch_process}
use circuit_agent_cloud.NodeHost.Host.Keys.{finish_start-bounded}

-- The names were unpacked from bytes with this hash, for which a manifest was verified.
abbrev pub Genuine : Site → String × List String → Type 0
Genuine site (sha, names) =
    (bytes : List ℕ) × (m : SignedManifest) × (owner : Option String) × (agent : Option String)
    × (verify_bundle site.crypto bytes m owner agent ≡ valid)
    × (site.crypto.sha256hex bytes ≡ sha)
    × (site.unpack bytes ≡ some names)

-- A bundle block names the hash that its manifest names, as the control plane sees to.
abbrev pub IsConsistent : Order → Type 0
IsConsistent o =
    (b : Block) (m : SignedManifest)
    → o.block ≡ some b
    → b.manifest ≡ some m
    → m.sha256 ≡ some b.sha256

abbrev pub IsSound : Site → Host → Type 0
IsSound site h = (length h.agents ≤ site.max_agents) × All (Genuine site) h.cache

All-insert :
    (P : String × List String → Type 0) (key : String) (v : List String) (cache : Cache)
    → P (key, v)
    → All P cache
    → All P (insert key v cache)
unfolding insert
All-insert P key v [] p all = (p, tt)
All-insert P key v ((k, old) ∷ rest) p (first, all) = elim (Bool-cases (k == key)) [
  | inl same ↦ rw same (subst (λ (x : String). P (x, v)) (sym ((eq_iff k key).0 same)) p, all)
  | inr other ↦ rw other (first, All-insert P key v rest p all)
]

unpack_if-unpacked :
    (v : Verdict) (u : Option (List String)) (names : List String)
    → unpack_if v u ≡ unpacked names
    → (v ≡ valid) × (u ≡ some names)
unfolding unpack_if
unpack_if-unpacked v u names h = ground (arith, h)

-- What was verified has the hash of its manifest.
verify_bundle-sha :
    (c : Crypto) (bytes : List ℕ) (m : SignedManifest) (owner agent : Option String)
    → verify_bundle c bytes m owner agent ≡ valid
    → m.sha256 ≡ some (c.sha256hex bytes)
unfolding verify_bundle
verify_bundle-sha c bytes m owner agent h = elim (Option-cases m.sha256) [
  | inl missing ↦ absurd (ground arith)
  | inr (t, found) ↦ ground (arith, found, eq_iff t (c.sha256hex bytes))
]

Fetched-cases :
    (f : Fetched)
    → ((why : Failure) × (f ≡ rejected why)) ⊎ ((names : List String) × (f ≡ unpacked names))
Fetched-cases (rejected why) = inl (why, refl)
Fetched-cases (unpacked names) = inr (names, refl)

module _ (site : Site) where
  -- The cache stays, or gains what was fetched.
  resolve_bundle-cache :
      (o : Order) (b : Block) (cache : Cache)
      → ((resolve_bundle site o b cache).0 ≡ cache)
        ⊎ ((names : List String) × (fetch site o b ≡ unpacked names)
            × ((resolve_bundle site o b cache).0 ≡ insert b.sha256 names cache))
  unfolding resolve_bundle
  resolve_bundle-cache o b cache = elim (Fetched-cases (fetch site o b)) [
    | inl (why, fetched) ↦ inl (ground (arith, fetched))
    | inr (names, fetched) ↦ elim (Option-cases (lookup b.sha256 cache)) [
      | inr (old, hit) ↦ inl (ground (arith, hit))
      | inl miss ↦
          elim (Bool-cases (
            not (block_runtime b == "node" || block_runtime b == "oci")
            || not (is_sha b.sha256)
            || (block_runtime b == "node"
                && not (is_first_party_node_runtime (publisher_of b) site.first_party_keys)))) [
                  | inl refused ↦ inl (ground (arith, refused))
                  | inr passed ↦ inr (names, fetched, ground (arith, fetched, miss, passed))
                ]
    ]
  ]

  fetch-Genuine :
      (o : Order) (b : Block) (names : List String)
      → ((m : SignedManifest) → b.manifest ≡ some m → m.sha256 ≡ some b.sha256)
      → fetch site o b ≡ unpacked names
      → Genuine site (b.sha256, names)
  unfolding fetch
  fetch-Genuine o b names consistent h =
      elim (Option-cases (
        pull_bytes site.net site.transport (store_root site) site.max_bundle_bytes
          (bundle_store_url site b.sha256))) [
            | inl gone ↦ absurd (ground arith)
            | inr (bytes, pulled) ↦ elim (Option-cases b.manifest) [
              | inl missing ↦ absurd (ground arith)
              | inr (m, found) ↦
                  let (ok, u) =
                    unpack_if-unpacked
                      (verify_bundle site.crypto bytes m (non_empty o.owner) (non_empty o.id))
                      (site.unpack bytes) names (ground arith) in
                  let sha =
                    verify_bundle-sha site.crypto bytes m (non_empty o.owner) (non_empty o.id) ok in
                  (
                    bytes,
                    m,
                    non_empty o.owner,
                    non_empty o.id,
                    ok,
                    ground (arith, sha, consistent m found),
                    u,
                  )
            ]
          ]

  resolve_bundle-Genuine :
      (o : Order) (b : Block) (cache : Cache)
      → ((m : SignedManifest) → b.manifest ≡ some m → m.sha256 ≡ some b.sha256)
      → All (Genuine site) cache
      → All (Genuine site) (resolve_bundle site o b cache).0
  resolve_bundle-Genuine o b cache consistent all = elim (resolve_bundle-cache o b cache) [
    | inl same ↦ subst (All (Genuine site)) (sym same) all
    | inr (names, fetched, grown) ↦ subst (All (Genuine site)) (sym grown) (
        All-insert (Genuine site) b.sha256 names cache (fetch-Genuine o b names consistent fetched)
          all)
  ]

  resolve_workload-cache :
      (o : Order) (cache : Cache) → o.block ≡ none → (resolve_workload site o cache).0 ≡ cache
  unfolding resolve_workload
  resolve_workload-cache o cache missing = ground (arith, missing)

  resolve_workload-Genuine :
      (o : Order) (cache : Cache)
      → IsConsistent o
      → All (Genuine site) cache
      → All (Genuine site) (resolve_workload site o cache).0
  unfolding resolve_workload
  resolve_workload-Genuine o cache consistent all = elim (Option-cases o.block) [
    | inl missing ↦ subst (All (Genuine site)) (sym (resolve_workload-cache o cache missing)) all
    | inr (b, found) ↦ rw found (resolve_bundle-Genuine o b cache (λ m. consistent b m found) all)
  ]

  finish_start-cache :
      (now : ℕ) (o : Order) (h : Host)
      → (finish_start site now o h).cache ≡ (resolve_workload site o h.cache).0
  unfolding finish_start report_agent launch_process
  finish_start-cache now o h = ground arith

  pub finish_start-IsSound :
      (now : ℕ) (o : Order) (h : Host)
      → IsConsistent o
      → suc (length h.agents) ≤ site.max_agents
      → IsSound site h
      → IsSound site (finish_start site now o h)
  finish_start-IsSound now o h consistent free (room, all) = (
    omega (arith, free, finish_start-bounded site now o h),
    subst (All (Genuine site)) (sym (finish_start-cache now o h))
        (resolve_workload-Genuine o h.cache consistent all),
  )
