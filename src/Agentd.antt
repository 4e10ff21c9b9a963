-- ===== src/Agentd.antt =====
-- agentd/agentd.js: the reference workload. A draw of `Math.random()` is a number of millionths, what
-- a position realized is left open, and the log and the heartbeat file are left out.
pub mod Laws
mod Tests
use circuit_agent_cloud.Prelude.{
  ℕ, suc, ◌+◌, Bool, true, false, not, ◌&&◌, ◌||◌, String, List, [], ◌∷◌, ◌++◌, Option, none, some,
  length, leb, ltb, nat_eq, if◌then◌else◌,
}

-- `symbol` is the number of the scan in `TKN<n>`; the size is in any unit.
pub record Position : Type 0 where
  pub symbol : ℕ
  pub size : ℕ

-- The reply of the signer: whether it signed. Without a signer the trade is only on paper.
pub data Custody : Type 0 where
  local off_box : Custody

-- `asked` are the entries that calls of `tick` await the signer on, in their order, and `realized` the gains and losses that
-- `pnlPct` adds up, in a unit of the model's own.
pub record Agentd : Type 0 where
  pub running : Bool
  pub busy : Bool
  pub scans : ℕ
  pub positions : List Position
  pub asked : List Position
  pub realized : List ℕ
  pub signed_trades : ℕ

abbrev pub initial : Agentd
initial = record {
  running = true;
  busy = false;
  scans = 0;
  positions = [];
  asked = [];
  realized = [];
  signed_trades = 0;
}

-- `positions.pop()`: what is left, and whether there was one.
unfoldable pub pop : List Position → List Position
pop [] = []
pop (p ∷ []) = []
pop (p ∷ (q ∷ rest)) = p ∷ pop (q ∷ rest)

-- `tick` up to the call of the signer, or to its end where there is none.
unfoldable pub tick : ℕ → ℕ → ℕ → Agentd → Agentd
unfolding pop
tick draw size gain a =
    if not a.running || a.busy
    then a
    else let n : ℕ = suc a.scans in
      if nat_eq (length a.positions) 0 && ltb draw 300_000
      then record a {
        scans = n;
        busy = true;
        asked = a.asked ++ record { symbol = n; size = size } ∷ [];
      }
      else if not (nat_eq (length a.positions) 0) && ltb draw 400_000
      then record a { scans = n; positions = pop a.positions; realized = a.realized ++ gain ∷ [] }
      else record a { scans = n }

-- The rest of `tick`, after the reply to the entry that was asked for first, unless the process is gone;
-- a failed call is a refusal.
unfoldable pub reply : Bool → Agentd → Agentd
reply ok a = elim a.asked [
  | [] ↦ a
  | p ∷ rest ↦
      if not a.running
      then a
      else if ok
      then record a {
        busy = false;
        asked = rest;
        positions = a.positions ++ p ∷ [];
        signed_trades = suc a.signed_trades;
      }
      else record a { busy = false; asked = rest }
]

-- `signTrade`, for a reply that signs or not: without a signer it is always granted.
abbrev pub granted : Custody → Bool → Bool
granted local signs = true
granted off_box signs = signs

-- `shutdown`, after which the process is gone.
unfoldable pub shutdown : Agentd → Agentd
shutdown a = record a { running = false }

pub data Event : Type 0 where
  ticks : ℕ → ℕ → ℕ → Event
  replies : Bool → Event
  signalled : Event

unfoldable pub step : Custody → Event → Agentd → Agentd
unfolding tick reply shutdown
step c (ticks draw size gain) a = tick draw size gain a
step c (replies signs) a = reply (granted c signs) a
step c signalled a = shutdown a

unfoldable pub run : Custody → List Event → Agentd → Agentd
unfolding step
run c [] a = a
run c (e ∷ events) a = run c events (step c e a)
