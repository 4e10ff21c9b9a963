-- ===== src/Proto/Sandbox.antt =====
-- lib/proto.js: which node may run which agent (`SANDBOX_RANK`, `nodeSatisfies`,
-- `isFirstPartyNodeRuntime`).
pub mod Laws
use circuit_agent_cloud.Prelude.{
  ℕ, max, Bool, true, false, not, ◌&&◌, String, ◌==◌, List, [], ◌∷◌, Option, none, some, Number,
  nan, num, pos, lt_number, includes, if◌then◌else◌,
}

-- A missing text is "".
pub record Bundle : Type 0 where
  pub runtime : String
  pub manifest_runtime : String

-- `SANDBOX_RANK[name] ?? 0`. The table is a plain object, so the names that every object inherits
-- give a function or an object, which as a number is `NaN`.
abbrev inherited : List String
inherited =
    "constructor" ∷ "__defineGetter__" ∷ "__defineSetter__" ∷ "hasOwnProperty" ∷ "__lookupGetter__"
    ∷ "__lookupSetter__" ∷ "isPrototypeOf" ∷ "propertyIsEnumerable" ∷ "toString" ∷ "valueOf"
    ∷ "__proto__" ∷ "toLocaleString" ∷ []

unfoldable pub is_inherited : String → Bool
is_inherited name = includes name inherited

pub rank : String → ℕ
rank name =
    if name == "node" then 1 else if name == "oci" then 2 else if name == "microvm" then 3 else 0

pub sandbox_rank : String → Number
sandbox_rank name = if is_inherited name then nan else num (pos (rank name))

-- `Math.max(floor, r)`.
abbrev max_number : ℕ → Number → Number
max_number floor nan = nan
max_number floor (num (pos r)) = num (pos (max floor r))
max_number floor (num _) = num (pos floor)

-- `b.runtime || b.manifest?.runtime`.
abbrev pub runtime_of : Bundle → String
runtime_of b = if b.runtime == "" then b.manifest_runtime else b.runtime

abbrev pub is_oci : Bundle → Bool
is_oci b = runtime_of b == "oci"

pub need : Bundle → String → Number
unfolding sandbox_rank
need b require_sandbox = max_number (if is_oci b then 2 else 1) (sandbox_rank require_sandbox)

-- Arguments: the node's `caps.sandbox` and `trusted`, the agent's `spec.bundle` and
-- `spec.requireSandbox`.
pub node_satisfies : String → Bool → Option Bundle → String → Bool
unfolding need
node_satisfies caps_sandbox trusted none require_sandbox = true
node_satisfies caps_sandbox trusted (some b) require_sandbox =
    if lt_number (sandbox_rank caps_sandbox) (need b require_sandbox)
    then false
    else if is_oci b && not trusted
    then false
    else true

pub is_first_party_node_runtime : String → List String → Bool
is_first_party_node_runtime publisher [] = true
is_first_party_node_runtime publisher (k ∷ ks) = includes publisher (k ∷ ks)
