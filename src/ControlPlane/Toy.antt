-- ===== src/ControlPlane/Toy.antt =====
-- Two nodes, and one agent whose bundle needs a container.
use circuit_agent_cloud.Proto.Value.{null}
use circuit_agent_cloud.Prelude.{[], ◌∷◌, none, some, true, false}
use circuit_agent_cloud.ControlPlane.State.{
  Manifest, BundleSpec, Node, Agent, Cloud, up, pending, running,
}

abbrev pub plain : Node
plain = record {
  node_id = "n1";
  status = up;
  last_seen = 1000;
  max_agents = 4;
  sandbox = "node";
  trusted = false;
  pubkey = some "k1";
  registered_at = 500;
}

abbrev pub container : Node
container = record plain {
  node_id = "n2";
  sandbox = "oci";
  trusted = true;
  max_agents = 1;
  last_seen = 35000;
}

abbrev pub guest : Agent
guest = record {
  id = "a";
  owner = some "owner";
  desired = true;
  state = pending;
  node_id = none;
  placed_at = 0;
  place_attempts = 0;
  failed_nodes = [];
  bundle = some (record { manifest = none; sha256 = "f00d"; runtime = "oci" });
  require_sandbox = "";
  session = none;
  address = none;
  paper = true;
  health = null;
  last_report = 0;
}

abbrev pub small : Cloud
small = record { nodes = ("n1", plain) ∷ ("n2", container) ∷ []; agents = ("a", guest) ∷ [] }

-- One agent on the first node, which then falls silent.
abbrev pub resident : Agent
resident = record guest { id = "b"; bundle = none; node_id = some "n1"; state = running }

abbrev pub settled : Cloud
settled = record small { agents = ("b", resident) ∷ [] }

abbrev pub manifest : Manifest
manifest = record {
  publisher = "owner";
  agent_id = "a";
  sha256 = "f00d";
  runtime = "oci";
  signature = "sig";
}

abbrev pub bundle : BundleSpec
bundle = record { manifest = some manifest; sha256 = "f00d"; runtime = "" }
