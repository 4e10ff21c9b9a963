-- ===== src/Signer/History/Custody.antt =====
-- The wallet behind an address: the sealed key of every agent opens to a seed of its address.
use circuit_agent_cloud.Prelude.{
  ℕ, ◌≡◌, inl, inr, String, ◌==◌, List, [], ◌∷◌, some, lookup, lookup-insert, lookup-erase, arith,
  eq_iff, Bool-cases,
}
use circuit_agent_cloud.Signer.State.{Agent, Signer, Runtime}
use circuit_agent_cloud.Signer.Change.{Change, kept, updated, created, removed, Keyed}
use circuit_agent_cloud.Signer.Trade.Effect.{intent-Change, finish-Change}
use circuit_agent_cloud.Signer.Routes.Effect.{
  provision-Change, set_policy-Change, set_owner-Change, open_session-Change, destroy-Change,
}
use circuit_agent_cloud.Signer.History.{
  Call, provisions, sets_policy, sets_owner, opens_session, trades, finishes, destroys, step, run,
}

-- The id that a request may remove.
abbrev pub GoneBy : ℕ × Call → String → Type 0
GoneBy (now, destroys id force balance programs) k = k ≡ id
GoneBy (now, provisions seed p) k = ⊥
GoneBy (now, sets_policy id policy verified) k = ⊥
GoneBy (now, sets_owner id owner) k = ⊥
GoneBy (now, opens_session id node token) k = ⊥
GoneBy (now, trades id b) k = ⊥
GoneBy (now, finishes p sol_value) k = ⊥

-- Every request makes one of the four changes.
pub step-Change :
    (rt : Runtime) (s : Signer) (c : ℕ × Call) → Keyed s → Change rt (GoneBy c) s (step rt s c)
unfolding step
step-Change rt s (now, provisions seed p) k = provision-Change rt now seed p s
step-Change rt s (now, sets_policy id policy verified) k =
    set_policy-Change rt now id policy verified s
step-Change rt s (now, sets_owner id owner) k = set_owner-Change rt now id owner s
step-Change rt s (now, opens_session id node token) k = open_session-Change rt now id node token s
step-Change rt s (now, trades id b) k = intent-Change rt now id b s k
step-Change rt s (now, finishes p sol_value) k = finish-Change rt p sol_value s k
step-Change rt s (now, destroys id force balance programs) k =
    destroy-Change rt id force balance programs s

-- The agent stands under its id, and its sealed key opens to a seed of its address.
pub record Owns (rt : Runtime) (s : Signer) (id : String) (a : Agent) : Type 0 where
  pub same_id : a.id ≡ id
  pub sealed : String
  pub seed : String
  pub on_file : lookup id s.keys ≡ some sealed
  pub opens : rt.open_seal sealed ≡ some seed
  pub address : a.address ≡ rt.address_of seed

abbrev pub Custody : Runtime → Signer → Type 0
Custody rt s = (id : String) (a : Agent) → lookup id s.agents ≡ some a → Owns rt s id a

pub Custody→Keyed : (rt : Runtime) (s : Signer) → Custody rt s → Keyed s
Custody→Keyed rt s c id a h = (c id a h).same_id

-- Opening undoes sealing.
abbrev pub Unseals : Runtime → Type 0
Unseals rt = (seed : String) → rt.open_seal (rt.seal seed) ≡ some seed

pub Change-Custody :
    {gone : String → Type 0} (rt : Runtime) (s s' : Signer)
    → Unseals rt
    → Change rt gone s s'
    → Custody rt s
    → Custody rt s'
Change-Custody rt s s' u (kept p q) c j b h =
    let o = c j b (rw p at h) in
    record {
      same_id = o.same_id;
      sealed = o.sealed;
      seed = o.seed;
      on_file = rw q o.on_file;
      opens = o.opens;
      address = o.address;
    }
Change-Custody rt s s' u (updated id a a' found goes_on p q) c j b h = elim (Bool-cases (id == j)) [
  | inl same ↦
      let o = c id a found in
      record {
        same_id = ground (arith, eq_iff id j, lookup-insert id j a' s.agents, o.same_id);
        sealed = o.sealed;
        seed = o.seed;
        on_file = ground (arith, eq_iff id j, o.on_file);
        opens = o.opens;
        address = ground (arith, lookup-insert id j a' s.agents, o.address);
      }
  | inr other ↦
      let o = c j b (ground (arith, lookup-insert id j a' s.agents)) in
      record {
        same_id = o.same_id;
        sealed = o.sealed;
        seed = o.seed;
        on_file = rw q o.on_file;
        opens = o.opens;
        address = o.address;
      }
]
Change-Custody rt s s' u (created id a seed free same_id address p q) c j b h =
    elim (Bool-cases (id == j)) [
      | inl same ↦ record {
        same_id = ground (arith, eq_iff id j, lookup-insert id j a s.agents);
        sealed = rt.seal seed;
        seed = seed;
        on_file = ground (arith, lookup-insert id j (rt.seal seed) s.keys);
        opens = u seed;
        address = ground (arith, lookup-insert id j a s.agents);
      }
      | inr other ↦
          let o = c j b (ground (arith, lookup-insert id j a s.agents)) in
          record {
            same_id = o.same_id;
            sealed = o.sealed;
            seed = o.seed;
            on_file = ground (arith, lookup-insert id j (rt.seal seed) s.keys, o.on_file);
            opens = o.opens;
            address = o.address;
          }
    ]
Change-Custody rt s s' u (removed id g p q) c j b h = elim (Bool-cases (id == j)) [
  | inl same ↦ absurd (ground (arith, lookup-erase id j s.agents))
  | inr other ↦
      let o = c j b (ground (arith, lookup-erase id j s.agents)) in
      record {
        same_id = o.same_id;
        sealed = o.sealed;
        seed = o.seed;
        on_file = ground (arith, lookup-erase id j s.keys, o.on_file);
        opens = o.opens;
        address = o.address;
      }
]

-- If opening undoes sealing: after any history of requests that starts with custody of every agent,
-- the key on file for each agent still opens to a seed of the address that the agent shows.
pub run-Custody :
    (rt : Runtime) (s : Signer) (cs : List (ℕ × Call))
    → Unseals rt
    → Custody rt s
    → Custody rt (run rt s cs)
unfolding run
run-Custody rt s [] u c = c
run-Custody rt s (e ∷ es) u c =
    run-Custody rt (step rt s e) es u
      (Change-Custody rt s (step rt s e) u (step-Change rt s e (Custody→Keyed rt s c)) c)
