-- ===== src/ControlPlane/Access/Laws.antt =====
-- Ownership in the routes, and the binding of bundles.
use circuit_agent_cloud.Prelude.{
  ℕ, ◌≡◌, ◌≢◌, refl, subst, ◌⊎◌, ◌↔◌, inl, inr, Bool, true, false, String, ◌==◌, List, Option, none,
  some, lookup, lookup-insert, arith, eq_iff, Bool-cases, Option-cases,
}
use circuit_agent_cloud.ControlPlane.State.{Agent, Cloud, Manifest, BundleSpec}
use circuit_agent_cloud.ControlPlane.Placement.{scheduled_agent}
use circuit_agent_cloud.ControlPlane.Placement.Live.{
  Keyed, Homed, Housed, Homed-same, scheduled_agent-Homed,
}
use circuit_agent_cloud.ControlPlane.Access
use circuit_agent_cloud.ControlPlane.Access.Reads
use circuit_agent_cloud.ControlPlane.Access.Reads.{
  LogLine, Reading, forbidden, request_withdrawal, request_export, show_agent, show_logs,
}
use circuit_agent_cloud.ControlPlane.Access.{
  owns, lacks_signature, Reply, not_yours, start, stop, destroy, Wallet, bound_to, binds, restart,
  put,
}

owns-stranger :
    (owner : String) (on_file caller : Option String)
    → on_file ≡ some owner
    → caller ≢ some owner
    → owns true on_file caller ≡ false
unfolding owns
owns-stranger owner none caller owned other = ground arith
owns-stranger owner (some o) none owned other = refl
owns-stranger owner (some o) (some k) owned other = elim (Bool-cases (o == k)) [
  | inr distinct ↦ distinct
  | inl same ↦ let e : o ≡ k = (eq_iff o k).0 same in absurd (other (ground arith))
]

-- The answers 401 and 403 of the routes, to an unsigned request and to another's.
abbrev pub refusal : Option String → Reply
refusal none = Access.unsigned
refusal (some caller) = not_yours

abbrev pub reading_refusal : Option String → Reading
reading_refusal none = Reads.unsigned
reading_refusal (some caller) = forbidden

-- In the strict mode, a request on an owned agent that is not signed by its owner changes nothing: the
-- start, stop and destroy routes, and the routes that withdraw its funds, export its key, show it and
-- show its log, answer with 401 if it is unsigned, and with 403 if another signed it.
pub not_owner-refused :
    (now : ℕ) (owner id : String) (caller : Option String) (wallet : Wallet) (amount : Option ℕ)
    (since : ℕ) (logs : List (String × List LogLine)) (c : Cloud) (a : Agent)
    → lookup id c.agents ≡ some a
    → a.owner ≡ some owner
    → caller ≢ some owner
    → (start true now caller id c ≡ (c, refusal caller))
      × (stop true caller id c ≡ (c, refusal caller))
      × (destroy true caller id wallet c ≡ (c, refusal caller))
      × (request_withdrawal true caller id amount c ≡ reading_refusal caller)
      × (request_export true caller id c ≡ reading_refusal caller)
      × (show_agent true caller id c ≡ reading_refusal caller)
      × (show_logs true caller id since c logs ≡ reading_refusal caller)
unfolding start stop destroy request_withdrawal request_export show_agent show_logs lacks_signature
not_owner-refused now owner id none wallet amount since logs c a found owned other =
    (ground arith, ground arith, ground arith, ground arith, ground arith, ground arith, refl)
not_owner-refused now owner id (some k) wallet amount since logs c a found owned other =
    let strange = owns-stranger owner a.owner (some k) owned other in
    (
      ground arith,
      ground arith,
      ground arith,
      ground arith,
      ground arith,
      ground arith,
      ground arith,
    )

-- What the binding asks of a manifest.
abbrev pub Binds : (Manifest → Bool) → BundleSpec → String → String → Manifest → Type 0
Binds verify b owner agent_id m =
    (verify m ≡ true)
    × (m.publisher ≡ owner)
    × (m.agent_id ≡ agent_id)
    × (m.sha256 ≡ b.sha256)
    × ((b.runtime ≡ "") ⊎ (m.runtime ≡ b.runtime))

binds_iff :
    (verify : Manifest → Bool) (b : BundleSpec) (owner agent_id : String) (m : Manifest)
    → (binds verify b owner agent_id m ≡ true) ↔ Binds verify b owner agent_id m
unfolding binds
binds_iff verify b owner agent_id m = ground (
  arith,
  eq_iff m.publisher owner,
  eq_iff m.agent_id agent_id,
  eq_iff m.sha256 b.sha256,
  eq_iff b.runtime "",
  eq_iff m.runtime b.runtime,
)

-- A bundle is bound exactly if its manifest is signed, and names the owner, the agent and the bundle's
-- own hash and, where the bundle names a runtime, that one.
pub bound_to_iff :
    (verify : Manifest → Bool) (b : BundleSpec) (owner agent_id : String)
    → (bound_to verify (some b) (some owner) agent_id ≡ true)
      ↔ ((m : Manifest) × (b.manifest ≡ some m) × Binds verify b owner agent_id m)
unfolding bound_to binds
bound_to_iff verify b owner agent_id = elim (Option-cases b.manifest) [
  | inl missing ↦ ground arith
  | inr (m, e) ↦ (
    (λ h. (m, e, (binds_iff verify b owner agent_id m).0 (ground arith))),
    (λ (m', e', p). let checked = (binds_iff verify b owner agent_id m').1 p in ground arith),
  )
]

put-Housed : (c : Cloud) (id : String) (a : Agent) → Housed c → Homed c a → Housed (put c id a)
put-Housed c id a housed homed j b h = elim (Bool-cases (id == j)) [
  | inr other ↦
      Homed-same c (put c id a) b refl (housed j b (ground (arith, lookup-insert id j a c.agents)))
  | inl same ↦
      let e : a ≡ b = ground (arith, lookup-insert id j a c.agents) in
      Homed-same c (put c id a) b refl (subst (Homed c) e homed)
]

-- If every node is found under its own id, and every agent that should run has no node or one that is
-- up: the same holds of the agents after a start, whoever asks, also if the agent was stopped on a node
-- that went down meanwhile.
pub start-Housed :
    (strict : Bool) (now : ℕ) (caller : Option String) (id : String) (c : Cloud)
    → Keyed c.nodes
    → Housed c
    → Housed (start strict now caller id c).0
unfolding start
start-Housed strict now caller id c keyed housed = elim (Option-cases (lookup id c.agents)) [
  | inl free ↦ subst Housed (ground arith) housed
  | inr (a, found) ↦ elim (Bool-cases (lacks_signature strict caller)) [
    | inl unsigned ↦ subst Housed (ground arith) housed
    | inr signed ↦ elim (Bool-cases (owns strict a.owner caller)) [
      | inr strange ↦ subst Housed (ground arith) housed
      | inl own ↦
          let wanted : Agent = record a { desired = true; state = restart a.state } in
          let placed : Agent = scheduled_agent now (put c id wanted) wanted in
          let homed =
            Homed-same (put c id wanted) c placed refl
              (scheduled_agent-Homed now (put c id wanted) wanted keyed) in
          subst Housed (ground arith) (put-Housed c id placed housed homed)
    ]
  ]
]
