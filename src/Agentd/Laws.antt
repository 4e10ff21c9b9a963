-- ===== src/Agentd/Laws.antt =====
-- What no order of timers, replies and signals breaks in the reference workload.
use circuit_agent_cloud.Prelude.{
  not, ◌⊎◌, ℕ, suc, ◌+◌, ◌≤◌, ◌≡◌, refl, ap, inl, inr, Bool, true, false, List, [], ◌∷◌, length,
  length-append, nat_eq, arith, if◌then◌else◌,
}
use circuit_agent_cloud.Agentd.{
  Position, Custody, local, off_box, Agentd, pop, tick, reply, shutdown, Event, ticks, replies,
  signalled, step, run, granted, initial,
}

-- At most one position is open or being asked for, the workload is busy exactly while one is asked for,
-- and every position that is open or closed was granted.
pub record IsSound (a : Agentd) : Type 0 where
  pub single : length a.positions + length a.asked ≤ 1
  pub waiting : a.busy ≡ not (nat_eq (length a.asked) 0)
  pub accounted : a.signed_trades ≡ length a.realized + length a.positions

length-pop : (p : Position) (ps : List Position) → suc (length (pop (p ∷ ps))) ≡ suc (length ps)
unfolding pop
length-pop p [] = refl
length-pop p (q ∷ rest) = ap suc (length-pop q rest)

length-pop_one :
    (ps : List Position) → nat_eq (length ps) 0 ≡ false → suc (length (pop ps)) ≡ length ps
length-pop_one [] h = absurd (ground (arith, h))
length-pop_one (p ∷ ps) h = length-pop p ps

tick-IsSound : (draw size gain : ℕ) (a : Agentd) → IsSound a → IsSound (tick draw size gain a)
unfolding tick
tick-IsSound draw size gain a v =
    let popped = length-pop_one a.positions in
    let grown = length-append a.realized (gain ∷ []) in
    let entry : Position = record { symbol = suc a.scans; size = size } in
    let asked = length-append a.asked (entry ∷ []) in
    record {
      single = ground (arith, v.single, v.waiting, popped, asked);
      waiting = ground (arith, v.waiting, asked);
      accounted = ground (arith, v.accounted, popped, grown);
    }

asked-cases :
    (ps : List Position) → (ps ≡ []) ⊎ ((p : Position) × (rest : List Position) × (ps ≡ p ∷ rest))
asked-cases [] = inl refl
asked-cases (p ∷ rest) = inr (p, rest, refl)

reply-IsSound : (ok : Bool) (a : Agentd) → IsSound a → IsSound (reply ok a)
unfolding reply
reply-IsSound ok a v = elim (asked-cases a.asked) [
  | inl idle ↦ record {
    single = ground (arith, idle, v.single);
    waiting = ground (arith, idle, v.waiting);
    accounted = ground (arith, idle, v.accounted);
  }
  | inr (p, rest, asked) ↦
      let grown = length-append a.positions (p ∷ []) in
      let one : length a.asked ≡ suc (length rest) = ap length asked in
      record {
        single = ground (arith, asked, one, v.single, grown);
        waiting = ground (arith, asked, one, v.single, v.waiting);
        accounted = ground (arith, asked, v.accounted, grown);
      }
]

shutdown-IsSound : (a : Agentd) → IsSound a → IsSound (shutdown a)
unfolding shutdown
shutdown-IsSound a v = record { single = v.single; waiting = v.waiting; accounted = v.accounted }

pub events-IsSound :
    (c : Custody) (events : List Event) (a : Agentd) → IsSound a → IsSound (run c events a)
unfolding run step
events-IsSound c [] a v = v
events-IsSound c (ticks draw size gain ∷ events) a v =
    events-IsSound c events (tick draw size gain a) (tick-IsSound draw size gain a v)
events-IsSound c (replies signs ∷ events) a v =
    events-IsSound c events (reply (granted c signs) a) (reply-IsSound (granted c signs) a v)
events-IsSound c (signalled ∷ events) a v =
    events-IsSound c events (shutdown a) (shutdown-IsSound a v)

initial-IsSound : IsSound initial
initial-IsSound = record { single = omega arith; waiting = refl; accounted = omega arith }

-- The replies that grant an entry: with a signer those that sign, without one all of them.
unfoldable pub grants : Custody → List Event → ℕ
grants c [] = 0
grants c (replies signs ∷ events) =
    let rest = grants c events in if granted c signs then suc rest else rest
grants c (_ ∷ events) = grants c events

tick-signed :
    (draw size gain : ℕ) (a : Agentd) → (tick draw size gain a).signed_trades ≡ a.signed_trades
unfolding tick
tick-signed draw size gain a = ground arith

reply-signed : (a : Agentd) → (reply true a).signed_trades ≤ suc a.signed_trades
unfolding reply
reply-signed a = ground arith

refusal-signed : (a : Agentd) → (reply false a).signed_trades ≡ a.signed_trades
unfolding reply
refusal-signed a = ground arith

shutdown-signed : (a : Agentd) → (shutdown a).signed_trades ≡ a.signed_trades
unfolding shutdown
shutdown-signed a = refl

run-signed :
    (c : Custody) (events : List Event) (a : Agentd)
    → (run c events a).signed_trades ≤ a.signed_trades + grants c events
unfolding run step grants
run-signed c [] a = omega arith
run-signed c (ticks draw size gain ∷ events) a =
    omega (arith, run-signed c events (tick draw size gain a), tick-signed draw size gain a)
run-signed local (replies signs ∷ events) a =
    omega (arith, run-signed local events (reply true a), reply-signed a)
run-signed off_box (replies true ∷ events) a =
    omega (arith, run-signed off_box events (reply true a), reply-signed a)
run-signed off_box (replies false ∷ events) a =
    omega (arith, run-signed off_box events (reply false a), refusal-signed a)
run-signed c (signalled ∷ events) a =
    omega (arith, run-signed c events (shutdown a), shutdown-signed a)

-- In every order of timers, replies and signals, with a signer or without one, the workload holds at
-- most one position, and opens and closes no more positions than entries were granted: with a signer,
-- those that it signed for.
pub run_single :
    (c : Custody) (events : List Event)
    → (length (run c events initial).positions ≤ 1)
      × (length (run c events initial).realized + length (run c events initial).positions
          ≤ grants c events)
run_single c events =
    let v = events-IsSound c events initial initial-IsSound in
    (omega (arith, v.single), omega (arith, v.accounted, run-signed c events initial))
