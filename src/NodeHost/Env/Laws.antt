-- ===== src/NodeHost/Env/Laws.antt =====
-- What a workload can and cannot find in its environment.
use circuit_agent_cloud.Prelude.{
  ◌≡◌, refl, ◌∙◌, inl, inr, Bool, true, false, not, String, ◌==◌, List, [], ◌∷◌, Option, none, some,
  lookup, insert, lookup-insert, includes, All, arith, eq_iff, Bool-cases, Option-cases,
}
use circuit_agent_cloud.NodeHost.Env.{
  Vars, secret_env, allow, forward, substitute_rpc, is_blocked, declare_vars, host_env,
  build_agent_env, Assignment, SignerBlock, is_protected, is_dangerous, begins, lower, minimum,
  with_session,
}

-- A blocked name keeps the value it had before the declared variables.
declare_vars-blocked :
    (trusted : Bool) (k : String) (declared env : Vars)
    → is_blocked trusted k ≡ true
    → lookup k (declare_vars trusted declared env) ≡ lookup k env
unfolding declare_vars
declare_vars-blocked trusted k [] env b = refl
declare_vars-blocked trusted k ((j, v) ∷ rest) env b = elim (Bool-cases (is_blocked trusted j)) [
  | inl skip ↦ rw skip (declare_vars-blocked trusted k rest env b)
  | inr set ↦
      let other : (j == k) ≡ false = ground (arith, eq_iff j k) in
      rw set (
        declare_vars-blocked trusted k rest (insert j v env) b
        ∙ ground (arith, lookup-insert j k v env))
]

-- Whatever an agent's spec declares, a protected or process-influencing name (and for a bundle a secret
-- or keyed one) has the value that the host gave it, or none.
pub build_agent_env-blocked :
    (a : Assignment) (dir tmp : String) (src : Vars) (k : String)
    → is_blocked (not a.has_bundle) k ≡ true
    → lookup k (build_agent_env a dir tmp src) ≡ lookup k (host_env a dir tmp src)
unfolding build_agent_env
build_agent_env-blocked a dir tmp src k b =
    declare_vars-blocked (not a.has_bundle) k a.declared (host_env a dir tmp src) b

forward-other :
    (k : String) (names : List String) (src env : Vars)
    → includes k names ≡ false
    → lookup k (forward names src env) ≡ lookup k env
unfolding forward
forward-other k [] src env h = refl
forward-other k (j ∷ names) src env h = elim (Option-cases (lookup j src)) [
  | inl missing ↦ ground (arith, forward-other k names src env (ground arith))
  | inr (v, found) ↦
      ground
        (arith, forward-other k names src (insert j v env) (ground arith), lookup-insert j k v env)
]

substitute_rpc-other :
    (k : String) (trusted : Bool) (src env : Vars)
    → ("CIRCUIT_RPC_URL" == k) ≡ false
    → lookup k (substitute_rpc trusted src env) ≡ lookup k env
unfolding substitute_rpc
substitute_rpc-other k true src env h = refl
substitute_rpc-other k false src env h = elim (Option-cases (lookup "CIRCUIT_PUBLIC_RPC_URL" src)) [
  | inl missing ↦ ground arith
  | inr (v, found) ↦ ground (arith, lookup-insert "CIRCUIT_RPC_URL" k v env)
]

secret_absent :
    (a : Assignment) (dir tmp : String) (src : Vars) (k : String)
    → a.has_bundle ≡ true
    → is_blocked false k ≡ true
    → includes k (allow false) ≡ false
    → ("CIRCUIT_RPC_URL" == k) ≡ false
    → lookup k (with_session a.signer (minimum a dir tmp src)) ≡ none
    → lookup k (build_agent_env a dir tmp src) ≡ none
unfolding host_env
secret_absent a dir tmp src k bundled blocked withheld other bare =
    let base = with_session a.signer (minimum a dir tmp src) in
    build_agent_env-blocked a dir tmp src k (rw bundled blocked)
    ∙ rw bundled (
        substitute_rpc-other k false src (forward (allow false) src base) other
        ∙ (forward-other k (allow false) src base withheld ∙ bare))

-- A name that neither the minimum nor the session sets.
bare :
    (s : Option SignerBlock) (a : Assignment) (dir tmp : String) (src : Vars)
    → All (λ k. lookup k (with_session s (minimum a dir tmp src)) ≡ none) secret_env
unfolding lookup insert with_session minimum
bare none a dir tmp src = (refl, (refl, (refl, (refl, (refl, (refl, tt))))))
bare (some s) a dir tmp src = (refl, (refl, (refl, (refl, (refl, (refl, tt))))))

-- A workload with a bundle finds none of the operator's secrets under their names, whatever the
-- operator's environment and whatever its own spec declares.
pub build_agent_env-keeps_secrets :
    (a : Assignment) (dir tmp : String) (src : Vars)
    → a.has_bundle ≡ true
    → All (λ k. lookup k (build_agent_env a dir tmp src) ≡ none) secret_env
unfolding is_blocked is_protected is_dangerous begins lower
build_agent_env-keeps_secrets a dir tmp src bundled =
    let (b1, (b2, (b3, (b4, (b5, (b6, _)))))) = bare a.signer a dir tmp src in
    (
      secret_absent a dir tmp src "AGENT_KEYPAIR" bundled refl refl refl b1,
      (
        secret_absent a dir tmp src "CIRCUIT_SETUP_KEYPAIR" bundled refl refl refl b2,
        (
          secret_absent a dir tmp src "CIRCUIT_INTERNAL_KEY" bundled refl refl refl b3,
          (
            secret_absent a dir tmp src "JUPITER_API_KEY" bundled refl refl refl b4,
            (
              secret_absent a dir tmp src "OPENROUTER_API_KEY" bundled refl refl refl b5,
              (secret_absent a dir tmp src "TELEGRAM_BOT_TOKEN" bundled refl refl refl b6, tt),
            ),
          ),
        ),
      ),
    )
