-- ===== src/ControlPlane/Quota.antt =====
-- control-plane/server.js: `rateLimitOwner` and `assertNodeIdentity`; lib/store.js: `appendLogs`.
pub mod Laws
use circuit_agent_cloud.Prelude.{
  ℕ, zero, suc, ◌-◌, ◌+◌, Bool, true, false, not, String, ◌==◌, List, [], ◌∷◌, ◌++◌, Option, none,
  some, length, drop, keep, leb, ltb, nat_eq, lookup, insert, if◌then◌else◌,
}

abbrev pub Hits : Type 0
Hits = List (String × List ℕ)

abbrev pub hits_of : String → Hits → List ℕ
hits_of owner hits = elim (lookup owner hits) [ none ↦ [] | some ts ↦ ts ]

-- `t - x < 60_000`.
abbrev pub is_recent : ℕ → ℕ → Bool
is_recent t x = ltb t (x + 60000)

-- The hits that are left, or `none` for the refusal (429). A limit of 0 is no limit, and an unsigned
-- request has no owner to count.
unfoldable pub rate_limit : ℕ → ℕ → Option String → Hits → Option Hits
rate_limit limit t none hits = some hits
rate_limit limit t (some owner) hits =
    let recent : List ℕ = keep (is_recent t) (hits_of owner hits) in
    if nat_eq limit 0
    then some hits
    else if leb limit (length recent)
    then none
    else some (insert owner (recent ++ t ∷ []) hits)

-- May a caller with this verified key act as the node, whose key on file is given?
unfoldable pub may_act_as : Option String → Option String → Bool
may_act_as on_file none = true
may_act_as none (some caller) = true
may_act_as (some key) (some caller) = key == caller

-- `LOG_RING`.
abbrev pub log_ring : ℕ
log_ring = 500

unfoldable pub append_logs {ℓ} : {A : Type ℓ} → List A → List A → List A
append_logs buf lines = let all_lines = buf ++ lines in drop (length all_lines - log_ring) all_lines
