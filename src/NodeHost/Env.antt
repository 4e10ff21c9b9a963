-- ===== src/NodeHost/Env.antt =====
-- node-host/env.js: `buildAgentEnv`. An environment is an object from names to texts.
pub mod Laws
use circuit_agent_cloud.Prelude.{
  ℕ, ◌+◌, Bool, true, false, not, ◌&&◌, ◌||◌, String, ◌==◌, List, [], ◌∷◌, ◌++◌, Option, none, some,
  lookup, insert, includes, any, map, leb, nat_eq, if◌then◌else◌,
}
use circuit_agent_cloud.Base58.{codes}

abbrev pub Vars : Type 0
Vars = List (String × String)

abbrev pub endpoint_env : List String
endpoint_env = "CIRCUIT_API_URL" ∷ "GATEWAY_URL" ∷ "PRICE_FEED_URL" ∷ "CIRCUIT_INFERENCE_URL" ∷ []

abbrev pub credentialed_endpoint_env : List String
credentialed_endpoint_env = "CIRCUIT_RPC_URL" ∷ []

abbrev pub secret_env : List String
secret_env =
    "AGENT_KEYPAIR" ∷ "CIRCUIT_SETUP_KEYPAIR" ∷ "CIRCUIT_INTERNAL_KEY" ∷ "JUPITER_API_KEY"
    ∷ "OPENROUTER_API_KEY" ∷ "TELEGRAM_BOT_TOKEN" ∷ []

abbrev pub cosmetic_env : List String
cosmetic_env = "FORCE_COLOR" ∷ []

-- `/^prefix/`, on the code points of a name.
unfoldable pub begins : List ℕ → List ℕ → Bool
begins [] xs = true
begins (p ∷ ps) [] = false
begins (p ∷ ps) (x ∷ xs) = nat_eq p x && begins ps xs

-- The letters A to Z in lower case.
unfoldable pub lower : ℕ → ℕ
lower c = if leb 65 c && leb c 90 then c + 32 else c

-- `PROTECTED`.
unfoldable pub is_protected : String → Bool
unfolding begins
is_protected k =
    begins (codes "CIRCUIT_AGENT_") (codes k) || begins (codes "CIRCUIT_SIGNER_") (codes k)

-- `DANGEROUS_ENV`.
unfoldable pub is_dangerous : String → Bool
unfolding begins lower
is_dangerous k =
    k == "NODE_OPTIONS"
    || begins (codes "LD_") (codes k)
    || k == "BASH_ENV"
    || begins (codes "npm_config_") (map lower (codes k))
    || begins (codes "DYLD_") (codes k)

-- The agent's session at the signer, its numbers as text; a missing address is "".
pub record SignerBlock : Type 0 where
  pub url : String
  pub agent_id : String
  pub epoch : String
  pub token : String
  pub address : String
  pub paper : Bool

-- The start assignment: its name ("" if missing), whether a bundle is attached to it or to its spec,
-- and `spec.env` with the values as text.
pub record Assignment : Type 0 where
  pub name : String
  pub has_bundle : Bool
  pub declared : Vars
  pub signer : Option SignerBlock

-- `srcEnv[k] || fallback`.
or_else : Vars → String → String → String
or_else src k fallback = elim (lookup k src) [
  | none ↦ fallback
  | some v ↦ if v == "" then fallback else v
]

-- 1. The process minimum; `tmp` is `path.join(dir, 'tmp')`.
unfoldable pub minimum : Assignment → String → String → Vars → Vars
unfolding or_else
minimum a dir tmp src =
    ("PATH", or_else src "PATH" "/usr/local/bin:/usr/bin:/bin")
    ∷ ("HOME", dir)
    ∷ ("TMPDIR", tmp)
    ∷ ("LANG", or_else src "LANG" "C.UTF-8")
    ∷ ("TZ", or_else src "TZ" "UTC")
    ∷ ("CIRCUIT_AGENT_DATA_DIR", dir)
    ∷ ("AGENT_NAME", a.name)
    ∷ []

-- 2. The session.
unfoldable pub with_session : Option SignerBlock → Vars → Vars
with_session none env = env
with_session (some s) env = insert "CIRCUIT_AGENT_PAPER" (if s.paper then "1" else "0") (
    insert "CIRCUIT_AGENT_ADDRESS" s.address (
      insert "CIRCUIT_AGENT_SESSION" s.token (
        insert "CIRCUIT_AGENT_EPOCH" s.epoch
          (insert "CIRCUIT_AGENT_ID" s.agent_id (insert "CIRCUIT_SIGNER_URL" s.url env)))))

-- 3. What is passed through.
abbrev pub allow : Bool → List String
allow trusted =
    endpoint_env
    ++ (cosmetic_env ++ (if trusted then credentialed_endpoint_env ++ secret_env else []))

pub forward : List String → Vars → Vars → Vars
forward [] src env = env
forward (k ∷ ks) src env = elim (lookup k src) [
  | none ↦ forward ks src env
  | some v ↦ forward ks src (insert k v env)
]

pub substitute_rpc : Bool → Vars → Vars → Vars
substitute_rpc true src env = env
substitute_rpc false src env = elim (lookup "CIRCUIT_PUBLIC_RPC_URL" src) [
  | none ↦ env
  | some v ↦ if v == "" then env else insert "CIRCUIT_RPC_URL" v env
]

-- 4. The names that `spec.env` may not set.
unfoldable pub is_blocked : Bool → String → Bool
unfolding is_protected is_dangerous
is_blocked trusted k =
    is_protected k
    || is_dangerous k
    || not trusted && (includes k secret_env || includes k credentialed_endpoint_env)

pub declare_vars : Bool → Vars → Vars → Vars
declare_vars trusted [] env = env
declare_vars trusted ((k, v) ∷ rest) env =
    let set = declare_vars trusted rest (insert k v env) in
    let skipped = declare_vars trusted rest env in if is_blocked trusted k then skipped else set

-- Up to the declared variables.
pub host_env : Assignment → String → String → Vars → Vars
unfolding minimum with_session forward substitute_rpc
host_env a dir tmp src =
    let trusted = not a.has_bundle in
    substitute_rpc trusted src
      (forward (allow trusted) src (with_session a.signer (minimum a dir tmp src)))

pub build_agent_env : Assignment → String → String → Vars → Vars
unfolding host_env declare_vars
build_agent_env a dir tmp src = declare_vars (not a.has_bundle) a.declared (host_env a dir tmp src)
