-- ===== src/NodeHost/Egress/Tests.antt =====
-- The proxy on one class and one host.
use circuit_agent_cloud.Prelude.{
  drop, ℕ, ◌≡◌, refl, true, false, same, String, List, [], ◌∷◌, Option, none, some, if◌then◌else◌,
  ◌==◌,
}
use circuit_agent_cloud.Base58.{codes}
use circuit_agent_cloud.Netguard.{v4, is_private_v4, v4_in_cidr}
use circuit_agent_cloud.NodeHost.Egress.{
  Net, ip4, is_private, is_private_ip, norm_host, strip_first, strip_last, is_local_name, ends_with,
  assert_public_host, egress_decision, connect, resolve_egress_hosts, add_host,
}
use circuit_agent_cloud.NodeHost.Egress.Laws.{FromClass, connect-FromClass}

abbrev address : List ℕ
address = codes "8.8.8.8"

abbrev net : Net
net = record {
  parse = λ t. if same t address then some (ip4 (v4 8 8 8 8)) else none;
  unclean = λ t. true;
  resolve_dns = λ h. some (address ∷ []);
}

abbrev endpoints : String → Option String
endpoints c = if c == "rpc" then some "https://API.example.com./x" else none

abbrev hostname : String → Option (List ℕ)
hostname url = some (codes "API.example.com.")

connect-FromClass_example :
    (◌≡◌ {A = ℕ} 443 443)
    × ((a : List ℕ) × (◌≡◌ {A = Option (List ℕ)} (some address) (some a))
        × (is_private_ip net a ≡ false))
    × FromClass endpoints hostname ("rpc" ∷ []) (same (norm_host (codes "api.example.com")))
unfolding connect egress_decision assert_public_host is_local_name ends_with is_private_ip
    is_private is_private_v4 v4_in_cidr norm_host strip_first strip_last resolve_egress_hosts
    add_host same drop
connect-FromClass_example =
    connect-FromClass endpoints hostname net ("rpc" ∷ []) (codes "api.example.com") none 443
      (some address) refl
