-- ===== src/NodeHost/Host/Records.antt =====
-- node-host/host.js: the records of a host. A record of a process is shared by the map of the agents and
-- by the handlers of the process, so the records stand in a list and the map has their places.
use circuit_agent_cloud.Prelude.{ℕ, Bool, String, List, [], ◌∷◌, Option, none, some}
use circuit_agent_cloud.Proto.Value.{Value}
use circuit_agent_cloud.NodeHost.Resolve.{Cache, Command, container, Failure}

-- A line of the agent's output; why a start failed; how a process ended (`none` for a signal), and
-- how many milliseconds it ran.
pub data Line : Type 0 where
  output : String → Line
  start_failed : Failure → Line
  spawn_failed : Line
  exited : Option ℕ → ℕ → Line

-- `{ ts, line }`.
abbrev pub Stamped : Type 0
Stamped = ℕ × Line

-- `rec`. The sidecar is the container that is removed with the agent.
pub record Rec : Type 0 where
  pub agent : String
  pub runs : Command
  pub sidecar : Option String
  pub log_buf : List Stamped
  pub last_sent : ℕ
  pub started_at : ℕ
  pub alive : Bool

-- A report to the control plane on an agent.
pub record Post : Type 0 where
  pub agent : String
  pub health : Value
  pub lines : List Stamped

-- `agents`, with the place of each record; the records of all the processes that were started; the
-- unpacked bundles; the sidecars that run; and what was posted.
pub record Host : Type 0 where
  pub agents : List (String × ℕ)
  pub recs : List Rec
  pub cache : Cache
  pub sidecars : List String
  pub posts : List Post

abbrev pub sidecar_of : Command → Option String
sidecar_of (container words proxy) = some proxy
sidecar_of _ = none

-- `agents.keys()`.
unfoldable pub ids : List (String × ℕ) → List String
ids [] = []
ids ((id, pid) ∷ rest) = id ∷ ids rest
