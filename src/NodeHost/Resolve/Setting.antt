-- ===== src/NodeHost/Resolve/Setting.antt =====
-- node-host/host.js: the settings of a host (`CFG`) and what it is asked to start.
use circuit_agent_cloud.Prelude.{ℕ, Bool, String, List, Option}
use circuit_agent_cloud.Bundle.{Crypto, SignedManifest, Verdict}
use circuit_agent_cloud.Bundle.Pull.{Transport}
use circuit_agent_cloud.NodeHost.Egress.{Net}
use circuit_agent_cloud.NodeHost.Env.{Vars, SignerBlock}
use circuit_agent_cloud.NodeHost.Container.{Word}

-- The bundle of an assignment; a missing text is "".
pub record Block : Type 0 where
  pub runtime : String
  pub sha256 : String
  pub manifest : Option SignedManifest

-- The agent of a start assignment: its bundle block, whether its spec names a bundle, and of the spec
-- the workload ("" if missing), the memory that it asks for (0 if missing) and its variables.
pub record Order : Type 0 where
  pub id : String
  pub name : String
  pub owner : String
  pub block : Option Block
  pub spec_bundle : Bool
  pub workload : String
  pub max_memory_mb : ℕ
  pub declared : Vars
  pub signer : Option SignerBlock

-- The operator's settings, and what the machine offers: the container runtime and the microVM backend
-- that were found, `tar` as the names in an unpacked bundle (`none` where it fails), the paths, and
-- whether the sidecar of the proxy starts.
pub record Site : Type 0 where
  pub max_agents : ℕ
  pub max_memory_mb : ℕ
  pub store_base : List ℕ
  pub max_bundle_bytes : ℕ
  pub first_party_keys : List String
  pub egress_network : String
  pub oci_image : String
  pub seccomp_profile : String
  pub microvm_class : String
  pub sandbox : String
  pub endpoints : String → Option String
  pub environment : Vars
  pub oci_runtime : Option String
  pub has_microvm : Bool
  pub crypto : Crypto
  pub net : Net
  pub transport : Transport
  pub hostname : String → Option (List ℕ)
  pub unpack : List ℕ → Option (List String)
  pub starts_sidecar : String → List (List ℕ) → Bool
  -- `path.join` of the store's base and a file name.
  pub store_path : List ℕ → List ℕ → List ℕ
  pub cache_path : String → String
  pub data_path : String → String
  -- Whether `path.join` of a cached bundle and an entry exists that is no name in the bundle.
  pub elsewhere : String → String → Bool
  -- The text of some UTF-16 code units.
  pub text : List ℕ → String

-- The bundles that are unpacked and marked, each with the names in it.
abbrev pub Cache : Type 0
Cache = List (String × List String)

pub data Command : Type 0 where
  -- The two workloads of the host, and a bundle's entry, named by its hash.
  circuit_agent reference_workload : Command
  node_bundle : String → String → Command
  -- The words of the command line, and the sidecar to remove at the end.
  container : List Word → String → Command

pub data Failure : Type 0 where
  no_block unknown_runtime bad_sha not_first_party pull_failed no_manifest : Failure
  not_verified : Verdict → Failure
  unpack_failed entry_missing no_oci_runtime no_network no_sidecar bad_spec : Failure

pub data Resolved : Type 0 where
  command : Command → Resolved
  failed : Failure → Resolved
