-- ===== src/Signer/History/Fence.antt =====
-- Sessions and addresses over a history of requests.
use circuit_agent_cloud.Prelude.{
  ℕ, ◌≤◌, ◌≡◌, refl, inl, inr, String, ◌==◌, List, [], ◌∷◌, some, lookup, lookup-insert,
  lookup-erase, arith, eq_iff, Bool-cases, subst, ◌∙◌, ◌⊎◌,
}
use circuit_agent_cloud.Signer.State.{Agent, Signer, Runtime}
use circuit_agent_cloud.Signer.Change.{Change, kept, updated, created, removed, Continues, epoch_of}
use circuit_agent_cloud.Signer.Trade.{Body, refused, intent}
use circuit_agent_cloud.Signer.Trade.Effect.{intent_older}
use circuit_agent_cloud.Signer.Routes.Effect.{open_session_epoch}
use circuit_agent_cloud.Signer.History.{Call, step, run, opens_session}
use circuit_agent_cloud.Signer.History.Custody.{
  step-Change, Custody, Change-Custody, Unseals, Custody→Keyed, GoneBy,
}

-- No request of the history destroys the agent.
abbrev pub Spared : String → List (ℕ × Call) → Type 0
Spared id [] = Unit
Spared id (c ∷ cs) = (¬ GoneBy c id) × Spared id cs

-- The agent is still there, with its wallet, and its session is no older.
abbrev pub Lives : Signer → String → Agent → Type 0
Lives s id a = (a' : Agent) × (lookup id s.agents ≡ some a') × Continues a a'

Change-Lives :
    {gone : String → Type 0} (rt : Runtime) (s s' : Signer) (id : String) (a : Agent)
    → Change rt gone s s'
    → lookup id s.agents ≡ some a
    → Lives s' id a ⊎ gone id
Change-Lives rt s s' id a (kept p q) h =
    inl (a, rw p h, record { same_id = refl; same_address = refl; no_older = omega arith })
Change-Lives rt s s' id a (updated k b b' found goes_on p q) h = elim (Bool-cases (k == id)) [
  | inl same ↦ inl (b', ground (arith, lookup-insert k id b' s.agents), ground (arith, eq_iff k id))
  | inr other ↦ inl (
    a,
    ground (arith, lookup-insert k id b' s.agents),
    record { same_id = refl; same_address = refl; no_older = omega arith },
  )
]
Change-Lives rt s s' id a (created k b seed free same_id address p q) h =
    elim (Bool-cases (k == id)) [
      | inl same ↦ absurd (ground (arith, eq_iff k id))
      | inr other ↦ inl (
        a,
        ground (arith, lookup-insert k id b s.agents),
        record { same_id = refl; same_address = refl; no_older = omega arith },
      )
    ]
Change-Lives {gone = gone} rt s s' id a (removed k g p q) h = elim (Bool-cases (k == id)) [
  | inl same ↦ inr (subst gone ((eq_iff k id).0 same) g)
  | inr other ↦ inl (
    a,
    ground (arith, lookup-erase k id s.agents),
    record { same_id = refl; same_address = refl; no_older = omega arith },
  )
]

Lives-trans : (s : Signer) (id : String) (a b : Agent) → Continues a b → Lives s id b → Lives s id a
Lives-trans s id a b g (c, found, h) = (
  c,
  found,
  record {
    same_id = h.same_id ∙ g.same_id;
    same_address = h.same_address ∙ g.same_address;
    no_older = omega arith;
  },
)

run-Lives :
    (rt : Runtime) (s : Signer) (cs : List (ℕ × Call)) (id : String) (a : Agent)
    → Unseals rt
    → Custody rt s
    → Spared id cs
    → lookup id s.agents ≡ some a
    → Lives (run rt s cs) id a
unfolding run
run-Lives rt s [] id a u k sp h =
    (a, h, record { same_id = refl; same_address = refl; no_older = omega arith })
run-Lives rt s (c ∷ cs) id a u k sp h =
    let change = step-Change rt s c (Custody→Keyed rt s k) in
    elim (Change-Lives rt s (step rt s c) id a change h) [
      | inr gone ↦ absurd (sp.0 gone)
      | inl (b, found, goes_on) ↦ Lives-trans (run rt (step rt s c) cs) id a b goes_on (
          run-Lives rt (step rt s c) cs id b u (Change-Custody rt s (step rt s c) u change k) sp.1
            found)
    ]

-- After any history that does not destroy it, an agent still has the address that it was given, and
-- its session's epoch has not fallen, given custody of every agent at the start and that opening
-- undoes sealing.
pub run-same_wallet :
    (rt : Runtime) (s : Signer) (cs : List (ℕ × Call)) (id : String) (a : Agent)
    → Unseals rt
    → Custody rt s
    → Spared id cs
    → lookup id s.agents ≡ some a
    → (a' : Agent) × (lookup id (run rt s cs).agents ≡ some a')
      × (a'.address ≡ a.address)
      × (epoch_of a ≤ epoch_of a')
run-same_wallet rt s cs id a u k sp h =
    let (a', found, goes_on) = run-Lives rt s cs id a u k sp h in
    (a', found, goes_on.same_address, goes_on.no_older)

-- Once a newer session was opened for an agent, an intent that shows an older epoch is refused as
-- fenced and changes nothing: at any later time, after any history of requests that does not destroy
-- the agent, whatever token and evidence the intent carries, given custody of every agent at the start
-- and that opening undoes sealing.
pub open_session_fences :
    (rt : Runtime) (s : Signer) (id node token : String) (t now : ℕ) (cs : List (ℕ × Call))
    (a : Agent) (b : Body) (e : ℕ)
    → Unseals rt
    → Custody rt s
    → lookup id s.agents ≡ some a
    → Spared id cs
    → b.epoch ≡ some e
    → e ≤ epoch_of a
    → let later = run rt (step rt s (t, opens_session id node token)) cs in
      intent rt now id b later ≡ (later, refused 403 "fenced")
unfolding step
open_session_fences rt s id node token t now cs a b e u k found sp sent old =
    let (a1, opened, newer) = open_session_epoch rt t id node token s a found in
    let call : ℕ × Call = (t, opens_session id node token) in
    let s1 = step rt s call in
    let k1 = Change-Custody rt s s1 u (step-Change rt s call (Custody→Keyed rt s k)) k in
    let (a2, here, _, epochs) = run-same_wallet rt s1 cs id a1 u k1 sp opened in
    intent_older rt now id b (run rt s1 cs) a2 e here sent (omega arith)
