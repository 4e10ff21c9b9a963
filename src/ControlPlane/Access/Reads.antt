-- ===== src/ControlPlane/Access/Reads.antt =====
-- control-plane/server.js: the routes of an agent's owner that leave the records alone: the withdrawal
-- and the export, which ask the signer, and what is shown of an agent and of its log.
use circuit_agent_cloud.Prelude.{
  ℕ, Bool, String, List, [], Option, none, some, lookup, keep, ltb, if◌then◌else◌,
}
use circuit_agent_cloud.ControlPlane.State.{Agent, Cloud}
use circuit_agent_cloud.ControlPlane.Access.{owns, lacks_signature}

-- A line of the log, with its time.
abbrev pub LogLine : Type 0
LogLine = ℕ × String

pub data Reading : Type 0 where
  shows : Agent → Reading
  lists : List LogLine → Reading
  -- The signer is asked, and its answer passed on: the agent's id, and the amount if there is one.
  asks_withdrawal : String → Option ℕ → Reading
  asks_export : String → Reading
  -- An error without a status, 401 and 403.
  unknown_agent unsigned forbidden : Reading

abbrev read_own : Bool → Option String → String → Cloud → (Agent → Reading) → Reading
read_own strict caller id c f = elim (lookup id c.agents) [
  | none ↦ unknown_agent
  | some a ↦
      if lacks_signature strict caller
      then unsigned
      else if owns strict a.owner caller
      then f a
      else forbidden
]

-- `POST /v1/agents/:id/withdraw`.
unfoldable pub request_withdrawal : Bool → Option String → String → Option ℕ → Cloud → Reading
request_withdrawal strict caller id amount c =
    read_own strict caller id c λ a. asks_withdrawal a.id amount

-- `POST /v1/agents/:id/export`.
unfoldable pub request_export : Bool → Option String → String → Cloud → Reading
request_export strict caller id c = read_own strict caller id c λ a. asks_export a.id

-- `GET /v1/agents/:id`.
unfoldable pub show_agent : Bool → Option String → String → Cloud → Reading
show_agent strict caller id c = read_own strict caller id c λ a. shows a

abbrev is_after : ℕ → LogLine → Bool
is_after since (at, line) = ltb since at

-- `getLogs`.
unfoldable pub get_logs : String → ℕ → List (String × List LogLine) → List LogLine
get_logs id since logs = elim (lookup id logs) [
  | none ↦ []
  | some lines ↦ keep (is_after since) lines
]

-- `GET /v1/agents/:id/logs`: the signature is asked for first; an agent that is not on record is not
-- refused.
unfoldable pub show_logs :
    Bool → Option String → String → ℕ → Cloud → List (String × List LogLine) → Reading
unfolding get_logs
show_logs strict caller id since c logs =
    if lacks_signature strict caller then unsigned else elim (lookup id c.agents) [
      | none ↦ lists (get_logs id since logs)
      | some a ↦ if owns strict a.owner caller then lists (get_logs id since logs) else forbidden
    ]
