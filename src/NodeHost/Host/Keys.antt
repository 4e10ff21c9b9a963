-- ===== src/NodeHost/Host/Keys.antt =====
-- Which agents a host runs after its operations.
use circuit_agent_cloud.Prelude.{
  ℕ, suc, ◌≤◌, ◌≡◌, refl, true, false, not, String, ◌==◌, List, [], ◌∷◌, ◌++◌, none, some, lookup,
  insert, erase, includes, length, keep, max, arith,
}
use circuit_agent_cloud.NodeHost.Resolve.{Site, Order, Command, command, resolve_workload}
use circuit_agent_cloud.NodeHost.Host.{
  Host, ids, report_agent, launch_process, admits, finish_start, start_agent, close_sidecar,
  stop_agent,
}

pub length-ids : (agents : List (String × ℕ)) → length (ids agents) ≡ length agents
unfolding ids
length-ids [] = refl
length-ids ((id, pid) ∷ rest) = ground (arith, length-ids rest)

pub includes-ids :
    (id : String) (agents : List (String × ℕ))
    → includes id (ids agents) ≡ elim (lookup id agents) [ none ↦ false | some pid ↦ true ]
unfolding ids lookup
includes-ids id [] = refl
includes-ids id ((k, pid) ∷ rest) = ground (arith, includes-ids id rest)

pub ids-insert :
    (id : String) (pid : ℕ) (agents : List (String × ℕ))
    → lookup id agents ≡ none
    → ids (insert id pid agents) ≡ ids agents ++ id ∷ []
unfolding ids insert lookup
ids-insert id pid [] fresh = refl
ids-insert id pid ((k, old) ∷ rest) fresh = ground (arith, ids-insert id pid rest)

pub ids-erase :
    (id : String) (agents : List (String × ℕ))
    → ids (erase id agents) ≡ keep (λ k. not (k == id)) (ids agents)
unfolding ids erase
ids-erase id [] = refl
ids-erase id ((k, pid) ∷ rest) = ground (arith, ids-erase id rest)

pub length-erase :
    (id : String) (agents : List (String × ℕ)) → length (erase id agents) ≤ length agents
unfolding erase
length-erase id [] = omega arith
length-erase id ((k, pid) ∷ rest) = ground (arith, length-erase id rest)

pub length-insert :
    (id : String) (pid : ℕ) (agents : List (String × ℕ))
    → length (insert id pid agents) ≤ suc (length agents)
unfolding insert
length-insert id pid [] = omega arith
length-insert id pid ((k, old) ∷ rest) = ground (arith, length-insert id pid rest)

erase_absent :
    (id : String) (agents : List (String × ℕ)) → lookup id agents ≡ none → erase id agents ≡ agents
unfolding erase lookup
erase_absent id [] h = refl
erase_absent id ((k, pid) ∷ rest) h = ground (arith, erase_absent id rest)

pub stop_agent-agents : (id : String) (h : Host) → (stop_agent id h).agents ≡ erase id h.agents
unfolding stop_agent close_sidecar
stop_agent-agents id h = ground (arith, erase_absent id h.agents)

-- A start that may happen, and comes to a command.
pub start_agent-agents :
    (site : Site) (now : ℕ) (o : Order) (h : Host) (c : Command)
    → lookup o.id h.agents ≡ none
    → suc (length h.agents) ≤ site.max_agents
    → (resolve_workload site o h.cache).1 ≡ command c
    → (start_agent site now o h).agents ≡ insert o.id (length h.recs) h.agents
unfolding start_agent admits finish_start launch_process
start_agent-agents site now o h c fresh room ready = ground arith

-- No start brings the host over its budget, and no operation adds an agent beside it.
pub start_agent-bounded :
    (site : Site) (now : ℕ) (o : Order) (h : Host)
    → length (start_agent site now o h).agents ≤ max site.max_agents (length h.agents)
unfolding start_agent admits finish_start report_agent launch_process
start_agent-bounded site now o h = ground (arith, length-insert o.id (length h.recs) h.agents)

-- The rest of a start adds one agent at most.
pub finish_start-bounded :
    (site : Site) (now : ℕ) (o : Order) (h : Host)
    → length (finish_start site now o h).agents ≤ suc (length h.agents)
unfolding finish_start report_agent launch_process
finish_start-bounded site now o h = ground (arith, length-insert o.id (length h.recs) h.agents)

pub stop_agent-bounded :
    (id : String) (h : Host) → length (stop_agent id h).agents ≤ length h.agents
stop_agent-bounded id h = rw stop_agent-agents (length-erase id h.agents)
