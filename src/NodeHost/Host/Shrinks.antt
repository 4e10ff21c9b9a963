-- ===== src/NodeHost/Host/Shrinks.antt =====
-- The operations of a host that start nothing.
use circuit_agent_cloud.Prelude.{
  ℕ, ◌≤◌, ◌≡◌, refl, ◌∙◌, inl, inr, String, get_elem?, List, [], ◌∷◌, Option, length, arith,
  Option-cases,
}
use circuit_agent_cloud.Proto.Value.{Value}
use circuit_agent_cloud.NodeHost.Resolve.{Site}
use circuit_agent_cloud.NodeHost.Host.{
  Host, Stamped, stop_agent, close_sidecar, report_agent, on_data, on_error, on_exit, report_exit,
  enforce_memory, forward_reports, stop_all,
}
use circuit_agent_cloud.NodeHost.Host.Keys.{length-erase, stop_agent-bounded}

-- No agent is added and no bundle is unpacked.
abbrev pub Shrinks : Host → Host → Type 0
Shrinks h h' = (length h'.agents ≤ length h.agents) × (h'.cache ≡ h.cache)

pub Shrinks-trans : (h h' h'' : Host) → Shrinks h h' → Shrinks h' h'' → Shrinks h h''
Shrinks-trans h h' h'' (p, e) (q, f) = (omega (arith, p, q), f ∙ e)

report_agent-agents :
    (id : String) (lines : List Stamped) (h : Host) → (report_agent id lines h).agents ≡ h.agents
unfolding report_agent
report_agent-agents id lines h = ground arith

pub report_agent-cache :
    (id : String) (lines : List Stamped) (h : Host) → (report_agent id lines h).cache ≡ h.cache
unfolding report_agent
report_agent-cache id lines h = ground arith

stop_agent-cache : (id : String) (h : Host) → (stop_agent id h).cache ≡ h.cache
unfolding stop_agent close_sidecar
stop_agent-cache id h = ground arith

pub stop_agent-Shrinks : (id : String) (h : Host) → Shrinks h (stop_agent id h)
stop_agent-Shrinks id h = (stop_agent-bounded id h, stop_agent-cache id h)

pub stop_all-Shrinks : (names : List String) (h : Host) → Shrinks h (stop_all names h)
unfolding stop_all
stop_all-Shrinks [] h = (omega arith, refl)
stop_all-Shrinks (id ∷ rest) h =
    Shrinks-trans h (stop_agent id h) (stop_all rest (stop_agent id h)) (stop_agent-Shrinks id h)
      (stop_all-Shrinks rest (stop_agent id h))

pub enforce_memory-Shrinks :
    (site : Site) (rss : ℕ → Option ℕ) (agents : List (String × ℕ)) (h : Host)
    → Shrinks h (enforce_memory site rss agents h)
unfolding enforce_memory
enforce_memory-Shrinks site rss [] h = (omega arith, refl)
enforce_memory-Shrinks site rss ((id, pid) ∷ rest) h =
    let kept = enforce_memory-Shrinks site rss rest h in
    let stopped : Shrinks h (enforce_memory site rss rest (stop_agent id h)) =
      Shrinks-trans h (stop_agent id h) (enforce_memory site rss rest (stop_agent id h))
        (stop_agent-Shrinks id h) (enforce_memory-Shrinks site rss rest (stop_agent id h)) in
    (ground (arith, kept, stopped), ground (arith, kept, stopped))

pub forward_reports-Shrinks :
    (now : ℕ) (read_health : String → Value) (agents : List (String × ℕ)) (h : Host)
    → Shrinks h (forward_reports now read_health agents h)
unfolding forward_reports
forward_reports-Shrinks now read_health [] h = (omega arith, refl)
forward_reports-Shrinks now read_health ((id, pid) ∷ rest) h =
    elim (Option-cases (get_elem? h.recs pid)) [
      | inl missing ↦ rw (missing, forward_reports) (forward_reports-Shrinks now read_health rest h)
      | inr (r, found) ↦
          rw (found, forward_reports) (forward_reports-Shrinks now read_health rest _)
    ]

pub on_data-Shrinks : (pid : ℕ) (lines : List Stamped) (h : Host) → Shrinks h (on_data pid lines h)
unfolding on_data
on_data-Shrinks pid lines h = (ground arith, ground arith)

pub on_error-Shrinks : (now pid : ℕ) (h : Host) → Shrinks h (on_error now pid h)
unfolding on_error report_agent
on_error-Shrinks now pid h = elim (Option-cases (get_elem? h.recs pid)) [
  | inl missing ↦ (ground (arith, missing), ground (arith, missing))
  | inr (r, found) ↦ (ground (arith, length-erase r.agent h.agents), ground arith)
]

pub on_exit-Shrinks :
    (now pid : ℕ) (code : Option ℕ) (h : Host) → Shrinks h (on_exit now pid code h)
unfolding on_exit report_exit report_agent close_sidecar
on_exit-Shrinks now pid code h = elim (Option-cases (get_elem? h.recs pid)) [
  | inl missing ↦ (ground (arith, missing), ground (arith, missing))
  | inr (r, found) ↦ (ground (arith, length-erase r.agent h.agents), ground arith)
]
