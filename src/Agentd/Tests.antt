-- ===== src/Agentd/Tests.antt =====
-- The workload through a few events.
use circuit_agent_cloud.Prelude.{◌+◌, ◌≤◌, ◌≡◌, refl, true, false, List, [], ◌∷◌, length}
use circuit_agent_cloud.Agentd.{off_box, Event, ticks, replies, signalled, initial, run}
use circuit_agent_cloud.Agentd.Laws.{grants, run_single}

-- The second timer fires while the first entry waits for the signer.
abbrev events : List Event
events =
    ticks 100_000 5 0
    ∷ ticks 100_000 5 0
    ∷ replies true
    ∷ ticks 350_000 5 7
    ∷ ticks 100_000 5 0
    ∷ replies false
    ∷ signalled
    ∷ []

closed_test : (run off_box events initial).realized ≡ 7 ∷ []
unfolding run
closed_test = refl

run_single_example :
    (length (run off_box events initial).positions ≤ 1)
    × (length (run off_box events initial).realized + length (run off_box events initial).positions
        ≤ 1)
unfolding grants
run_single_example = run_single off_box events
