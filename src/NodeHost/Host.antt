-- ===== src/NodeHost/Host.antt =====
-- node-host/host.js: the agents that a host runs. A process that was told to stop lives until its exit is
-- seen. The directories can be made.
mod Records
pub mod Fits
pub mod Keys
pub mod Cycle
pub mod Shrinks
pub mod Unpacked
pub mod History
mod Tests
pub mod Overlap
unfoldable pub use Records.*
use circuit_agent_cloud.Prelude.{
  ℕ, suc, ◌+◌, ◌-◌, ◌*◌, Bool, true, false, not, ◌&&◌, ◌||◌, String, ◌==◌, List, [], ◌∷◌, ◌++◌,
  Option, none, some, lookup, insert, erase, includes, length, drop, map, keep, set, get_elem?, leb,
  ltb, nat_eq, if◌then◌else◌,
}
use circuit_agent_cloud.Proto.Value.{Value, undefined}
use circuit_agent_cloud.NodeHost.Resolve.{
  Site, Order, Cache, Command, container, Failure, Resolved, command, failed, resolve_workload,
}

-- `reportAgent`.
unfoldable pub report_agent : String → List Stamped → Host → Host
report_agent id lines h = if id == "" then h else record h {
  posts = h.posts ++ record { agent = id; health = undefined; lines = lines } ∷ [];
}

-- `proxy?.close()`.
unfoldable pub close_sidecar : Option String → Host → Host
close_sidecar none h = h
close_sidecar (some name) h = record h { sidecars = keep (λ s. not (s == name)) h.sidecars }

abbrev open_sidecar : Option String → List String → List String
open_sidecar none names = names
open_sidecar (some name) names = keep (λ s. not (s == name)) names ++ name ∷ []

-- `spawn` and `agents.set`.
unfoldable pub launch_process : ℕ → Order → Command → Host → Host
launch_process now o c h = record h {
  agents = insert o.id (length h.recs) h.agents;
  recs =
      h.recs
      ++ record {
        agent = o.id;
        runs = c;
        sidecar = sidecar_of c;
        log_buf = [];
        last_sent = 0;
        started_at = now;
        alive = true;
      }
        ∷ [];
  sidecars = open_sidecar (sidecar_of c) h.sidecars;
}

-- `startAgent` up to its first wait: is the agent new, and is there room?
unfoldable pub admits : Site → Order → Host → Bool
admits site o h = elim (lookup o.id h.agents) [
  | some pid ↦ false
  | none ↦ not (leb site.max_agents (length h.agents))
]

-- The rest of it.
unfoldable pub finish_start : Site → ℕ → Order → Host → Host
unfolding report_agent launch_process
finish_start site now o h =
    let (cache, resolved) = resolve_workload site o h.cache in
    let fetched : Host = record h { cache = cache } in
    elim resolved [
      | failed why ↦ report_agent o.id ((now, start_failed why) ∷ []) fetched
      | command c ↦ launch_process now o c fetched
    ]

-- `startAgent`, with nothing in between.
unfoldable pub start_agent : Site → ℕ → Order → Host → Host
unfolding admits finish_start
start_agent site now o h = if admits site o h then finish_start site now o h else h

-- `stopAgent`, up to the process's exit.
unfoldable pub stop_agent : String → Host → Host
unfolding close_sidecar
stop_agent id h = elim (lookup id h.agents) [
  | none ↦ h
  | some pid ↦
      let closed : Host = elim (get_elem? h.recs pid) [
        | none ↦ h
        | some r ↦ close_sidecar r.sidecar h
      ] in
      record closed { agents = erase id closed.agents }
]

-- The handler of `data`, for the lines that are not blank: at most 300 stay.
unfoldable pub log_lines : List Stamped → List Stamped → List Stamped
log_lines buf [] = buf
log_lines buf (l ∷ lines) =
    let pushed : List Stamped = buf ++ l ∷ [] in
    log_lines (if ltb 300 (length pushed) then drop 1 pushed else pushed) lines

unfoldable pub on_data : ℕ → List Stamped → Host → Host
unfolding log_lines
on_data pid lines h = elim (get_elem? h.recs pid) [
  | none ↦ h
  | some r ↦ record h { recs = set h.recs pid (record r { log_buf = log_lines r.log_buf lines }) }
]

abbrev bury : ℕ → Rec → Host → Host
bury pid r h = record h { recs = set h.recs pid (record r { alive = false }) }

-- The handler of `error`: the process did not start.
unfoldable pub on_error : ℕ → ℕ → Host → Host
unfolding report_agent
on_error now pid h = elim (get_elem? h.recs pid) [
  | none ↦ h
  | some r ↦
      let reported : Host = report_agent r.agent ((now, spawn_failed) ∷ []) (bury pid r h) in
      record reported { agents = erase r.agent reported.agents }
]

-- `logBuf.slice(-20)`.
abbrev last_20 : List Stamped → List Stamped
last_20 buf = drop (length buf - 20) buf

abbrev is_clean : Option ℕ → Bool
is_clean none = false
is_clean (some code) = nat_eq code 0

abbrev restamp : ℕ → Stamped → Stamped
restamp now (at, line) = (now, line)

-- The report of the handler of `exit`.
unfoldable pub report_exit : ℕ → Option ℕ → Rec → Host → Host
unfolding report_agent
report_exit now code r h =
    let ran : ℕ = now - r.started_at in
    if not (is_clean code) || ltb ran 5000
    then report_agent r.agent (map (restamp now) (last_20 r.log_buf) ++ (now, exited code ran) ∷ [])
        h
    else h

-- The handler of `exit`, which deletes the agent by its id.
unfoldable pub on_exit : ℕ → ℕ → Option ℕ → Host → Host
unfolding report_exit close_sidecar
on_exit now pid code h = elim (get_elem? h.recs pid) [
  | none ↦ h
  | some r ↦
      let closed : Host = close_sidecar r.sidecar (report_exit now code r (bury pid r h)) in
      record closed { agents = erase r.agent closed.agents }
]

-- `enforceMemory`, over the agents that it started with. The resident set is in kilobytes, and `none`
-- if it cannot be read.
unfoldable pub enforce_memory : Site → (ℕ → Option ℕ) → List (String × ℕ) → Host → Host
unfolding stop_agent
enforce_memory site rss [] h = h
enforce_memory site rss ((id, pid) ∷ rest) h =
    let kept = enforce_memory site rss rest h in
    let stopped = enforce_memory site rss rest (stop_agent id h) in
    elim (rss pid) [
      | none ↦ kept
      | some kb ↦ if ltb (site.max_memory_mb * 1024) kb then stopped else kept
    ]

abbrev is_newer : ℕ → Stamped → Bool
is_newer last_sent (at, line) = ltb last_sent at

-- The loop that forwards health and new lines, agent by agent.
unfoldable pub forward_reports : ℕ → (String → Value) → List (String × ℕ) → Host → Host
forward_reports now read_health [] h = h
forward_reports now read_health ((id, pid) ∷ rest) h = elim (get_elem? h.recs pid) [
  | none ↦ forward_reports now read_health rest h
  | some r ↦
      let post : Post = record {
        agent = id;
        health = read_health id;
        lines = keep (is_newer r.last_sent) r.log_buf;
      } in
      forward_reports now read_health rest (record h {
        recs = set h.recs pid (record r { last_sent = now });
        posts = h.posts ++ post ∷ [];
      })
]

pub data Action : Type 0 where
  start : Order → Action
  stop : String → Action

-- The loop over `res.assignments`, one after the other.
unfoldable pub carry_out : Site → ℕ → List Action → Host → Host
unfolding start_agent stop_agent
carry_out site now [] h = h
carry_out site now (start o ∷ rest) h = carry_out site now rest (start_agent site now o h)
carry_out site now (stop id ∷ rest) h = carry_out site now rest (stop_agent id h)

-- `shutdown`.
unfoldable pub stop_all : List String → Host → Host
unfolding stop_agent
stop_all [] h = h
stop_all (id ∷ rest) h = stop_all rest (stop_agent id h)

unfoldable pub shutdown : Host → Host
unfolding stop_all ids
shutdown h = stop_all (ids h.agents) h
