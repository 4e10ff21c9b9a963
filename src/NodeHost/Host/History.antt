-- ===== src/NodeHost/Host/History.antt =====
-- The events of a host, and what no sequence of them breaks. A beat is several steps: where `startAgent`
-- awaits what its agent runs, other handlers run before it goes on. A beat that begins while another is
-- under way is the subject of Host/Overlap; here it is no step.
use circuit_agent_cloud.Prelude.{
  ℕ, suc, ◌≤◌, ◌≡◌, sym, subst, inl, inr, true, String, List, [], ◌∷◌, Option, none, some, length,
  All, arith, Bool-cases, Option-cases, if◌then◌else◌,
}
use circuit_agent_cloud.Proto.Value.{Value}
use circuit_agent_cloud.NodeHost.Resolve.{Site, Order}
use circuit_agent_cloud.NodeHost.Host.{
  Host, Stamped, Action, start, stop, admits, finish_start, stop_agent, on_data, on_error, on_exit,
  enforce_memory, forward_reports, stop_all, shutdown, ids,
}
use circuit_agent_cloud.NodeHost.Host.Shrinks.{
  Shrinks, Shrinks-trans, stop_agent-Shrinks, stop_all-Shrinks, enforce_memory-Shrinks,
  forward_reports-Shrinks, on_data-Shrinks, on_error-Shrinks, on_exit-Shrinks,
}
use circuit_agent_cloud.NodeHost.Host.Unpacked.{
  Genuine, IsConsistent, IsSound, finish_start-IsSound,
}

-- Where `beat` stands: between two beats; before the assignments that are left; or at the wait of
-- `startAgent` for an agent that was let in.
pub data Phase : Type 0 where
  resting : Phase
  working : List Action → Phase
  awaiting : Order → List Action → Phase

-- Output, a process that did not start, a process that ended, a signal to stop; a heartbeat that is
-- answered with assignments, or not; and `beat` going on to its next wait or to its end.
pub data Event : Type 0 where
  wrote : ℕ → List Stamped → Event
  not_spawned : ℕ → ℕ → Event
  ended : ℕ → ℕ → Option ℕ → Event
  told_to_stop : Event
  answered : List Action → Event
  unanswered : Event
  goes_on : ℕ → (ℕ → Option ℕ) → (String → Value) → Event

-- The end of a beat.
unfoldable pub finish_beat : Site → ℕ → (ℕ → Option ℕ) → (String → Value) → Host → Host
unfolding enforce_memory forward_reports
finish_beat site now rss read_health h =
    let trimmed : Host = enforce_memory site rss h.agents h in
    forward_reports now read_health trimmed.agents trimmed

-- One assignment, the rest of the one that was awaited, or the end.
unfoldable pub go_on :
    Site → ℕ → (ℕ → Option ℕ) → (String → Value) → Phase → Host → Option (Host × Phase)
unfolding finish_beat admits finish_start stop_agent
go_on site now rss read_health resting h = none
go_on site now rss read_health (working []) h =
    some (finish_beat site now rss read_health h, resting)
go_on site now rss read_health (working (stop id ∷ rest)) h = some (stop_agent id h, working rest)
go_on site now rss read_health (working (start o ∷ rest)) h =
    if admits site o h then some (h, awaiting o rest) else some (h, working rest)
go_on site now rss read_health (awaiting o rest) h = some (finish_start site now o h, working rest)

-- A heartbeat is sent, and its answer taken, between two beats only.
unfoldable pub begin_beat : List Action → Phase → Host → Option (Host × Phase)
begin_beat actions resting h = some (h, working actions)
begin_beat actions _ h = none

unfoldable pub step : Site → Event → Host × Phase → Option (Host × Phase)
unfolding on_data on_error on_exit shutdown go_on begin_beat
step site (wrote pid lines) (h, p) = some (on_data pid lines h, p)
step site (not_spawned now pid) (h, p) = some (on_error now pid h, p)
step site (ended now pid code) (h, p) = some (on_exit now pid code h, p)
step site told_to_stop (h, p) = some (shutdown h, p)
step site (answered actions) (h, p) = begin_beat actions p h
step site unanswered (h, p) = some (h, p)
step site (goes_on now rss read_health) (h, p) = go_on site now rss read_health p h

-- `none` where an event cannot come next.
unfoldable pub run : Site → List Event → Host × Phase → Option (Host × Phase)
unfolding step
run site [] s = some s
run site (e ∷ events) s = elim (step site e s) [ none ↦ none | some s' ↦ run site events s' ]

abbrev pub ActionConsistent : Action → Type 0
ActionConsistent (start o) = IsConsistent o
ActionConsistent (stop id) = Unit

-- The blocks of the start assignments are consistent.
abbrev pub EventConsistent : Event → Type 0
EventConsistent (answered actions) = All ActionConsistent actions
EventConsistent _ = Unit

-- What is left to do is consistent, and for the agent that was let in there is room.
abbrev pub IsReady : Site → Host → Phase → Type 0
IsReady site h resting = Unit
IsReady site h (working rest) = All ActionConsistent rest
IsReady site h (awaiting o rest) =
    IsConsistent o × All ActionConsistent rest × (suc (length h.agents) ≤ site.max_agents)

abbrev IsSafe : Site → Host × Phase → Type 0
IsSafe site (h, p) = IsSound site h × IsReady site h p

module _ (site : Site) where
  Shrinks-IsSound : (h h' : Host) → Shrinks h h' → IsSound site h → IsSound site h'
  Shrinks-IsSound h h' (fewer, same) (room, all) =
      (omega (arith, fewer, room), subst (All (Genuine site)) (sym same) all)

  -- What shrinks the host keeps the room for an agent that was let in.
  Shrinks-IsSafe :
      (h h' : Host) (p : Phase) → Shrinks h h' → IsSafe site (h, p) → IsSafe site (h', p)
  Shrinks-IsSafe h h' resting less (sound, _) = (Shrinks-IsSound h h' less sound, tt)
  Shrinks-IsSafe h h' (working rest) less (sound, all) = (Shrinks-IsSound h h' less sound, all)
  Shrinks-IsSafe h h' (awaiting o rest) less (sound, (first, all, room)) =
      (Shrinks-IsSound h h' less sound, (first, all, omega (arith, less.0, room)))

  admits-room :
      (o : Order) (h : Host) → admits site o h ≡ true → suc (length h.agents) ≤ site.max_agents
  unfolding admits
  admits-room o h ok = ground arith

  finish_beat-Shrinks :
      (now : ℕ) (rss : ℕ → Option ℕ) (read_health : String → Value) (h : Host)
      → Shrinks h (finish_beat site now rss read_health h)
  unfolding finish_beat
  finish_beat-Shrinks now rss read_health h =
      let trimmed : Host = enforce_memory site rss h.agents h in
      Shrinks-trans h trimmed (forward_reports now read_health trimmed.agents trimmed)
        (enforce_memory-Shrinks site rss h.agents h)
        (forward_reports-Shrinks now read_health trimmed.agents trimmed)

  -- A value that is reached as `some` is safe.
  abbrev Reaches : Option (Host × Phase) → Type 0
  Reaches o = (s : Host × Phase) → o ≡ some s → IsSafe site s

  some-Reaches : (s : Host × Phase) → IsSafe site s → Reaches (some s)
  some-Reaches s safe s' e = let same : s ≡ s' = ground (arith, e) in subst (IsSafe site) same safe

  none-Reaches : Reaches none
  none-Reaches s e = absurd (ground (arith, e))

  go_on-Reaches :
      (now : ℕ) (rss : ℕ → Option ℕ) (read_health : String → Value) (p : Phase) (h : Host)
      → IsSafe site (h, p)
      → Reaches (go_on site now rss read_health p h)
  unfolding go_on
  go_on-Reaches now rss read_health resting h safe = none-Reaches
  go_on-Reaches now rss read_health (working []) h (sound, _) =
      some-Reaches (finish_beat site now rss read_health h, resting)
        (
          Shrinks-IsSound h (finish_beat site now rss read_health h)
              (finish_beat-Shrinks now rss read_health h) sound,
          tt,
        )
  go_on-Reaches now rss read_health (working (stop id ∷ rest)) h (sound, (_, all)) =
      some-Reaches (stop_agent id h, working rest)
        (Shrinks-IsSound h (stop_agent id h) (stop_agent-Shrinks id h) sound, all)
  go_on-Reaches now rss read_health (working (start o ∷ rest)) h (sound, (first, all)) =
      elim (Bool-cases (admits site o h)) [
        | inl let_in ↦
            rw let_in
              (some-Reaches (h, awaiting o rest) (sound, (first, all, admits-room o h let_in)))
        | inr refused ↦ rw refused (some-Reaches (h, working rest) (sound, all))
      ]
  go_on-Reaches now rss read_health (awaiting o rest) h (sound, (first, all, room)) =
      some-Reaches (finish_start site now o h, working rest)
        (finish_start-IsSound site now o h first room sound, all)

  begin_beat-Reaches :
      (actions : List Action) (p : Phase) (h : Host)
      → All ActionConsistent actions
      → IsSafe site (h, p)
      → Reaches (begin_beat actions p h)
  unfolding begin_beat
  begin_beat-Reaches actions resting h ok (sound, _) = some-Reaches (h, working actions) (sound, ok)
  begin_beat-Reaches actions (working rest) h ok safe = none-Reaches
  begin_beat-Reaches actions (awaiting o rest) h ok safe = none-Reaches

  step-Reaches :
      (e : Event) (h : Host) (p : Phase)
      → EventConsistent e
      → IsSafe site (h, p)
      → Reaches (step site e (h, p))
  unfolding step shutdown
  step-Reaches (wrote pid lines) h p ok safe =
      some-Reaches (on_data pid lines h, p)
        (Shrinks-IsSafe h (on_data pid lines h) p (on_data-Shrinks pid lines h) safe)
  step-Reaches (not_spawned now pid) h p ok safe =
      some-Reaches (on_error now pid h, p)
        (Shrinks-IsSafe h (on_error now pid h) p (on_error-Shrinks now pid h) safe)
  step-Reaches (ended now pid code) h p ok safe =
      some-Reaches (on_exit now pid code h, p)
        (Shrinks-IsSafe h (on_exit now pid code h) p (on_exit-Shrinks now pid code h) safe)
  step-Reaches told_to_stop h p ok safe =
      some-Reaches (stop_all (ids h.agents) h, p)
        (Shrinks-IsSafe h (stop_all (ids h.agents) h) p (stop_all-Shrinks (ids h.agents) h) safe)
  step-Reaches (answered actions) h p ok safe = begin_beat-Reaches actions p h ok safe
  step-Reaches unanswered h p ok safe = some-Reaches (h, p) safe
  step-Reaches (goes_on now rss read_health) h p ok safe =
      go_on-Reaches now rss read_health p h safe

  run-IsSafe :
      (events : List Event) (s s' : Host × Phase)
      → All EventConsistent events
      → IsSafe site s
      → run site events s ≡ some s'
      → IsSafe site s'
  unfolding run
  run-IsSafe [] s s' ok safe h =
      let same : s ≡ s' = ground (arith, h) in subst (IsSafe site) same safe
  run-IsSafe (e ∷ events) (h, p) s' (first, ok) safe ran =
      elim (Option-cases (step site e (h, p))) [
        | inl stuck ↦ absurd (ground (arith, stuck, ran))
        | inr (s1, went) ↦
            run-IsSafe events s1 s' ok (step-Reaches e h p first safe s1 went)
              (ground (arith, went, ran))
      ]

  -- In any order of output, spawn errors, exits, stop signals and heartbeats, also while `startAgent`
  -- awaits what its agent runs, but with no beat that begins before the last one is done: if the map of
  -- agents of a host was within its budget, it stays so, and if every bundle that is unpacked and
  -- marked was unpacked from bytes that have the hash under which it stands and for which a manifest
  -- was verified, that stays so too, as long as the bundle blocks that it is sent name the hashes of
  -- their manifests.
  pub run-IsSound :
      (events : List Event) (h h' : Host) (p : Phase)
      → All EventConsistent events
      → IsSound site h
      → run site events (h, resting) ≡ some (h', p)
      → IsSound site h'
  run-IsSound events h h' p ok sound ran =
      (run-IsSafe events (h, resting) (h', p) ok (sound, tt) ran).0
