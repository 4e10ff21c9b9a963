-- ===== src/NodeHost/Toy.antt =====
-- A host with a local store of bundles, and one bundle.
use circuit_agent_cloud.Prelude.{true, false, String, [], ◌∷◌, ◌++◌, none, some}
use circuit_agent_cloud.Base58.{codes}
use circuit_agent_cloud.Bundle.{Crypto, SignedManifest}
use circuit_agent_cloud.Bundle.Pull.{Transport}
use circuit_agent_cloud.NodeHost.Egress.{Net}
use circuit_agent_cloud.NodeHost.Resolve.{Site, Order, Block}
use circuit_agent_cloud.NodeHost.Host.{Host}

abbrev pub digest : String
digest = "00112233445566778899aabbccddeeff00112233445566778899aabbccddeeff"

abbrev pub crypto : Crypto
crypto = record {
  sha256hex = λ bytes. digest;
  print = λ v. [];
  reread = λ t. t;
  sign = λ priv msg. 7 ∷ [];
  verify = λ key msg sig. true;
}

abbrev pub net : Net
net = record { parse = λ h. none; unclean = λ h. false; resolve_dns = λ h. none }

abbrev pub transport : Transport
transport = record {
  parse_url = λ url. none;
  https_get = λ url ip. none;
  real_path = λ p. some p;
  read_file = λ p. some (31 ∷ 139 ∷ []);
}

abbrev pub site : Site
site = record {
  max_agents = 4;
  max_memory_mb = 512;
  store_base = codes "/store";
  max_bundle_bytes = 100;
  first_party_keys = [];
  egress_network = "isolated";
  oci_image = "node:20";
  seccomp_profile = "default";
  microvm_class = "kata";
  sandbox = "";
  endpoints = λ c. none;
  environment = [];
  oci_runtime = some "docker";
  has_microvm = false;
  crypto = crypto;
  net = net;
  transport = transport;
  hostname = λ url. none;
  unpack = λ bytes. some ("agent.js" ∷ []);
  starts_sidecar = λ name hosts. true;
  store_path = λ base file. base ++ b'/' ∷ file;
  cache_path = λ sha. sha;
  data_path = λ id. id;
  elsewhere = λ sha entry. false;
  text = λ units. "";
}

abbrev pub manifest : SignedManifest
manifest = record {
  agent_id = some "a";
  egress = none;
  entry = some "agent.js";
  resources = none;
  runtime = some "oci";
  sdk = none;
  sha256 = some digest;
  publisher = "owner";
  sig = codes "8";
}

abbrev pub block : Block
block = record { runtime = ""; sha256 = digest; manifest = some manifest }

abbrev pub plain_order : Order
plain_order = record {
  id = "b";
  name = "plain";
  owner = "";
  block = none;
  spec_bundle = false;
  workload = "";
  max_memory_mb = 0;
  declared = [];
  signer = none;
}

abbrev pub bundle_order : Order
bundle_order = record plain_order { id = "a"; owner = "owner"; block = some block }

abbrev pub idle : Host
idle = record { agents = []; recs = []; cache = []; sidecars = []; posts = [] }
