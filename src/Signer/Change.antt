-- ===== src/Signer/Change.antt =====
-- How a request may change the signer's agents and keys: not at all, one agent that goes on with
-- its wallet, one that is created with a new wallet, or one that is removed,
-- which `gone` allows.
use circuit_agent_cloud.Prelude.{ℕ, ◌≤◌, ◌≡◌, String, none, some, lookup, insert, erase}
use circuit_agent_cloud.Signer.State.{Agent, Signer, Runtime}

-- `a.session?.epoch ?? 0`.
abbrev pub epoch_of : Agent → ℕ
epoch_of a = elim a.session [ none ↦ 0 | some s ↦ s.epoch ]

-- The same wallet, and no older session.
pub record Continues (a a' : Agent) : Type 0 where
  pub same_id : a'.id ≡ a.id
  pub same_address : a'.address ≡ a.address
  pub no_older : epoch_of a ≤ epoch_of a'

pub data Change (rt : Runtime) (gone : String → Type 0) (s s' : Signer) : Type 0 where
  kept : s'.agents ≡ s.agents → s'.keys ≡ s.keys → Change rt gone s s'
  updated :
      (id : String) (a a' : Agent)
      → lookup id s.agents ≡ some a
      → Continues a a'
      → s'.agents ≡ insert id a' s.agents
      → s'.keys ≡ s.keys
      → Change rt gone s s'
  created :
      (id : String) (a : Agent) (seed : String)
      → lookup id s.agents ≡ none
      → a.id ≡ id
      → a.address ≡ rt.address_of seed
      → s'.agents ≡ insert id a s.agents
      → s'.keys ≡ insert id (rt.seal seed) s.keys
      → Change rt gone s s'
  removed :
      (id : String)
      → gone id
      → s'.agents ≡ erase id s.agents
      → s'.keys ≡ erase id s.keys
      → Change rt gone s s'

-- Every agent stands under its own id.
abbrev pub Keyed : Signer → Type 0
Keyed s = (id : String) (a : Agent) → lookup id s.agents ≡ some a → a.id ≡ id
