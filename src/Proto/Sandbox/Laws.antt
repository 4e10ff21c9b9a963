-- ===== src/Proto/Sandbox/Laws.antt =====
-- What a placement guarantees about the isolation of the node.
use circuit_agent_cloud.Prelude.{
  ℕ, ◌≤◌, ◌≡◌, Bool, true, false, String, some, arith, max, if◌then◌else◌, ◌↔◌,
}
use circuit_agent_cloud.Proto.Sandbox.{
  Bundle, rank, sandbox_rank, is_inherited, is_oci, node_satisfies,
}

-- The tier that the bundle's runtime asks for, raised to the owner's own requirement.
abbrev pub required : Bundle → String → ℕ
required b require_sandbox = max (if is_oci b then 2 else 1) (rank require_sandbox)

-- For names that are not inherited by every object: a node is accepted for a bundle exactly when its
-- tier is at least the required one and, for an `oci` bundle, the operator marked it trusted.
pub node_satisfies_iff :
    (caps_sandbox : String) (trusted : Bool) (b : Bundle) (require_sandbox : String)
    → is_inherited caps_sandbox ≡ false
    → is_inherited require_sandbox ≡ false
    → (node_satisfies caps_sandbox trusted (some b) require_sandbox ≡ true)
      ↔ ((required b require_sandbox ≤ rank caps_sandbox) × (is_oci b ≡ true → trusted ≡ true))
unfolding node_satisfies sandbox_rank
node_satisfies_iff caps_sandbox trusted b require_sandbox p q = ground arith

-- The table lookup also finds what every object inherits: a node that reports such a name as its
-- sandbox passes the tier test for every bundle that is not `oci`, whatever tier the owner insists on.
pub node_satisfies_inherited :
    (caps_sandbox : String) (trusted : Bool) (b : Bundle) (require_sandbox : String)
    → is_inherited caps_sandbox ≡ true
    → is_oci b ≡ false
    → node_satisfies caps_sandbox trusted (some b) require_sandbox ≡ true
unfolding node_satisfies sandbox_rank
node_satisfies_inherited caps_sandbox trusted b require_sandbox p q = ground arith
