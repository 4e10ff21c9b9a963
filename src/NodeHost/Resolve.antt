-- ===== src/NodeHost/Resolve.antt =====
-- node-host/host.js: what a start assignment resolves to (`resolveWorkload`, `resolveBundle`). The
-- directory of unpacked bundles is the state; the runtimes, `tar` and the transport are left open.
mod Setting
pub use Setting.*
use circuit_agent_cloud.Prelude.{
  ℕ, Bool, true, not, ◌&&◌, ◌||◌, String, ◌==◌, List, [], ◌∷◌, ◌++◌, ◌<>◌, Option, none, some,
  lookup, includes, insert, map, min, nat_eq, if◌then◌else◌,
}
use circuit_agent_cloud.Base58.{codes}
use circuit_agent_cloud.Proto.Sandbox.{is_first_party_node_runtime}
use circuit_agent_cloud.Bundle.{
  Crypto, SignedManifest, Verdict, valid, verify_bundle, is_safe_entry,
}
use circuit_agent_cloud.Bundle.Store.{is_sha}
use circuit_agent_cloud.Bundle.Pull.{Transport, starts_with, pull_bytes}
use circuit_agent_cloud.NodeHost.Egress.{Net, strip_last, resolve_egress_hosts}
use circuit_agent_cloud.NodeHost.Env.{Vars, SignerBlock, build_agent_env}
use circuit_agent_cloud.NodeHost.Container.{Container, Word, flag, build_container_spec}

abbrev is_http : List ℕ → Bool
is_http base = starts_with (codes "http://") base || starts_with (codes "https://") base

-- `bundleStoreUrl`.
unfoldable pub bundle_store_url : Site → String → List ℕ
unfolding strip_last starts_with
bundle_store_url site sha =
    let file : List ℕ = codes sha ++ codes ".tgz" in
    if is_http site.store_base
    then strip_last b'/' site.store_base ++ b'/' ∷ file
    else site.store_path site.store_base file

-- `b.runtime || b.manifest?.runtime || 'node'`.
unfoldable pub block_runtime : Block → String
block_runtime b = if not (b.runtime == "") then b.runtime else elim b.manifest [
  | none ↦ "node"
  | some m ↦ elim m.runtime [ none ↦ "node" | some r ↦ if r == "" then "node" else r ]
]

abbrev pub publisher_of : Block → String
publisher_of b = elim b.manifest [ none ↦ "" | some m ↦ m.publisher ]

-- `resolveSandbox`, which is computed once.
unfoldable pub resolve_sandbox : Site → String
resolve_sandbox site =
    if not (site.sandbox == "")
    then site.sandbox
    else if site.has_microvm
    then "microvm"
    else elim site.oci_runtime [ none ↦ "node" | some runtime ↦ "oci" ]

-- `capMemMb`; a request of 0 counts as missing.
unfoldable pub cap_mem_mb : Site → Order → ℕ
cap_mem_mb site o =
    min (if nat_eq o.max_memory_mb 0 then site.max_memory_mb else o.max_memory_mb)
      site.max_memory_mb

abbrev pub non_empty : String → Option String
non_empty s = if s == "" then none else some s

-- `storeRoot`.
abbrev pub store_root : Site → Option (List ℕ)
store_root site =
    if is_http site.store_base
    then none
    else elim site.store_base [ [] ↦ none | c ∷ rest ↦ some (c ∷ rest) ]

pub data Fetched : Type 0 where
  -- The names in the unpacked bundle.
  unpacked : List String → Fetched
  rejected : Failure → Fetched

-- What becomes of pulled bytes: only verified ones are unpacked.
unfoldable pub unpack_if : Verdict → Option (List String) → Fetched
unpack_if valid none = rejected unpack_failed
unpack_if valid (some names) = unpacked names
unpack_if why names = rejected (not_verified why)

-- The body of `if (!fs.existsSync(okMarker))`: pull, verify, unpack.
unfoldable pub fetch : Site → Order → Block → Fetched
unfolding bundle_store_url pull_bytes verify_bundle unpack_if
fetch site o b =
    elim (pull_bytes site.net site.transport (store_root site) site.max_bundle_bytes
      (bundle_store_url site b.sha256)) [
        | none ↦ rejected pull_failed
        | some bytes ↦ elim b.manifest [
          | none ↦ rejected no_manifest
          | some m ↦
              unpack_if (verify_bundle site.crypto bytes m (non_empty o.owner) (non_empty o.id))
                (site.unpack bytes)
        ]
      ]

-- `fs.existsSync(path.join(cacheDir, entry))`.
unfoldable pub entry_exists : Site → String → List String → String → Bool
unfolding is_safe_entry
entry_exists site sha names entry =
    if is_safe_entry (some entry) then includes entry names else site.elsewhere sha entry

-- `env` of the container, in which the data directory is /data.
abbrev container_env : Site → Order → Vars
container_env site o =
    build_agent_env
      (record { name = o.name; has_bundle = true; declared = o.declared; signer = o.signer })
      "/data" "/data/tmp" site.environment

abbrev container_of : Site → Order → Block → String → Container
container_of site o b entry = record {
  image = site.oci_image;
  name = "circuit-" <> o.id;
  bundle_dir = site.cache_path b.sha256;
  data_dir = site.data_path o.id;
  entry = entry;
  env = container_env site o;
  proxy_url = some ("http://circuit-proxy-" <> o.id <> ":8888");
  network = site.egress_network;
  seccomp_profile = site.seccomp_profile;
  mem_mb = cap_mem_mb site o;
  pids = 256;
  vm_runtime = if resolve_sandbox site == "microvm" then some site.microvm_class else none;
}

-- The branch for `runtime === 'oci'`.
unfoldable pub contain : Site → Order → Block → SignedManifest → String → Resolved
unfolding resolve_sandbox cap_mem_mb resolve_egress_hosts
contain site o b m entry = elim site.oci_runtime [
  | none ↦ failed no_oci_runtime
  | some runtime ↦
      if site.egress_network == ""
      then failed no_network
      else let classes : List String = elim m.egress [
        | none ↦ []
        | some texts ↦ map site.text texts
      ] in
        let allowed : List (List ℕ) =
          resolve_egress_hosts site.endpoints site.hostname classes [] in
        let proxy : String = "circuit-proxy-" <> o.id in
        if not (site.starts_sidecar proxy allowed)
        then failed no_sidecar
        else elim (build_container_spec (container_of site o b entry)) [
          | none ↦ failed bad_spec
          | some words ↦ command (container (flag runtime ∷ words) proxy)
        ]
]

-- From `entryPath` on.
unfoldable pub launch : Site → Order → Block → List String → Resolved
unfolding block_runtime entry_exists contain
launch site o b names = elim b.manifest [
  | none ↦ failed no_manifest
  | some m ↦ elim m.entry [
    | none ↦ failed entry_missing
    | some entry ↦
        if not (entry_exists site b.sha256 names entry)
        then failed entry_missing
        else if block_runtime b == "oci"
        then contain site o b m entry
        else command (node_bundle b.sha256 entry)
  ]
]

-- `resolveBundle`: the cache, and what runs.
unfoldable pub resolve_bundle : Site → Order → Block → Cache → Cache × Resolved
unfolding block_runtime is_sha fetch launch
resolve_bundle site o b cache =
    let runtime : String = block_runtime b in
    if not (runtime == "node" || runtime == "oci")
    then (cache, failed unknown_runtime)
    else if not (is_sha b.sha256)
    then (cache, failed bad_sha)
    else if runtime == "node"
        && not (is_first_party_node_runtime (publisher_of b) site.first_party_keys)
    then (cache, failed not_first_party)
    else elim (lookup b.sha256 cache) [
      | some names ↦ (cache, launch site o b names)
      | none ↦ elim (fetch site o b) [
        | rejected why ↦ (cache, failed why)
        | unpacked names ↦ (insert b.sha256 names cache, launch site o b names)
      ]
    ]

-- `resolveWorkload`.
unfoldable pub resolve_workload : Site → Order → Cache → Cache × Resolved
unfolding resolve_bundle
resolve_workload site o cache = elim o.block [
  | some b ↦ resolve_bundle site o b cache
  | none ↦
      if o.spec_bundle
      then (cache, failed no_block)
      else if o.workload == "circuit-agent"
      then (cache, command circuit_agent)
      else (cache, command reference_workload)
]
