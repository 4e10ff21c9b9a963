-- ===== src/Submit/Execute/Landing.antt =====
-- What a swap went through before it landed: `executeUltraSwap` of signer/submit.js.
use circuit_agent_cloud.Prelude.{
  ℕ, ◌+◌, ◌≤◌, ◌<◌, ◌≡◌, refl, subst, ap, Bool, true, false, String, List, Option, none, some,
  arith,
}
use circuit_agent_cloud.Proto.Value.{text, Convert, is_falsy}
use circuit_agent_cloud.Base58.{codes, base58decode}
use circuit_agent_cloud.Signer.State.{Result, ok, fail, fail_if, or_fail, ◌>>=◌}
use circuit_agent_cloud.Signer.Trade.{Pending}
use circuit_agent_cloud.Submit.Inspect.{Inspection, inspect_transaction, sign_serialized_tx}
use circuit_agent_cloud.Submit.Execute.{
  Broker, Request, Order, Executed, Swap, assert_safe_base, amount_of, request_of, mismatch,
  check_order, land_order, execute_ultra_swap,
}

-- A chain that succeeds gives its first result to a rest that succeeds.
pub >>=-eq-ok {ℓ κ} :
    {X : Type ℓ} {Y : Type κ} (first : Result X) (rest : X → Result Y) {y : Y}
    → (first >>= rest) ≡ ok y
    → (x : X) × (first ≡ ok x) × (rest x ≡ ok y)
>>=-eq-ok (fail status code) rest h = cc
>>=-eq-ok (ok x) rest h = (x, refl, h)

or_fail-eq-ok {ℓ} :
    {A : Type ℓ} (o : Option A) (status : ℕ) (code : String) {a : A}
    → or_fail o status code ≡ ok a
    → o ≡ some a
or_fail-eq-ok none status code h = cc
or_fail-eq-ok (some x) status code h = cc

fail_if-eq-ok :
    (b : Bool) (status : ℕ) (code : String) {u : Unit {0}}
    → fail_if b status code ≡ ok u
    → b ≡ false
fail_if-eq-ok true status code h = cc
fail_if-eq-ok false status code h = refl

-- What holds of an order whose value passed the checks.
pub record Checked (p : Pending) (r : Request) (o : Order) (v : ℕ) : Type 0 where
  pub input_matches : mismatch o.input_mint r.input_mint ≡ false
  pub output_matches : mismatch o.output_mint r.output_mint ≡ false
  pub has_value : 0 < v
  pub within_trade : v ≤ p.max_notional_sol + 1
  pub within_day : v ≤ p.remaining_daily_sol + 1

check_order-Checked :
    (p : Pending) (r : Request) (o : Order) (v : ℕ) → check_order p r o ≡ ok v → Checked p r o v
unfolding check_order
check_order-Checked p r o v h = ground arith

abbrev value_of : Result Swap → ℕ
value_of (ok s) = s.sol_value
value_of (fail status code) = 0

-- The way of an order's bytes to the broker's answer.
pub record Sent (broker : Broker) (sign : List ℕ → List ℕ) (allowlist : List (List ℕ))
    (base : String) (pubkey : List ℕ) (o : Order) (raw : List ℕ) : Type 0 where
  pub found : Inspection
  pub sent : List ℕ
  pub answer : Executed
  pub inspected : inspect_transaction allowlist raw pubkey ≡ ok found
  pub signed : sign_serialized_tx sign raw pubkey ≡ ok sent
  pub executed : broker.execute base sent o.request_id ≡ some answer
  pub succeeded : mismatch answer.status (text "Success") ≡ false

-- The way of a swap that landed, from the order on.
pub record Landed (broker : Broker) (c : Convert) (sign : List ℕ → List ℕ)
    (allowlist : List (List ℕ)) (base : String) (p : Pending) (s : Swap) : Type 0 where
  pub pubkey : List ℕ
  pub amount : ℕ
  pub given : Order
  pub raw : List ℕ
  pub priced : amount_of c p ≡ ok amount
  pub is_key : base58decode (codes p.address) ≡ some pubkey
  pub ordered : broker.order base (request_of p amount) ≡ some given
  pub carries : given.transaction ≡ some raw
  pub checked : Checked p (request_of p amount) given s.sol_value
  pub on_the_way : Sent broker sign allowlist base pubkey given raw

module _ (broker : Broker) (sign : List ℕ → List ℕ) (allowlist : List (List ℕ))
    (base : String) where
  land_order-Sent :
      (pubkey : List ℕ) (o : Order) (raw : List ℕ) (v : ℕ) (s : Swap)
      → land_order broker sign allowlist base pubkey o raw v ≡ ok s
      → Sent broker sign allowlist base pubkey o raw × (v ≡ s.sol_value)
  unfolding land_order
  land_order-Sent pubkey o raw v s h =
      let (found, inspected, h1) = >>=-eq-ok (inspect_transaction allowlist raw pubkey) _ h in
      let (sent, signed, h2) = >>=-eq-ok (sign_serialized_tx sign raw pubkey) _ h1 in
      let (answer, executed, h3) =
        >>=-eq-ok (or_fail (broker.execute base sent o.request_id) 502 "submit-failed") _ h2 in
      let (_, success, h4) =
        >>=-eq-ok (fail_if (mismatch answer.status (text "Success")) 502 "submit-failed") _ h3 in
      (
        record {
          found = found;
          sent = sent;
          answer = answer;
          inspected = inspected;
          signed = signed;
          executed = or_fail-eq-ok _ _ _ executed;
          succeeded = fail_if-eq-ok _ _ _ success;
        },
        ap value_of h4,
      )

-- If a swap lands, the broker gave an order whose mints are absent or those of the request, whose
-- value is above zero and exceeds neither the cap per trade nor what is left of the day by more than
-- one unit of 10^-9 SOL; its bytes passed the inspection for the wallet's key; and what the broker
-- executed, without a status of failure, is those bytes signed by the agent.
pub execute_ultra_swap-Landed :
    (broker : Broker) (c : Convert) (sign : List ℕ → List ℕ) (allowlist : List (List ℕ))
    (base : String) (p : Pending) (s : Swap)
    → execute_ultra_swap broker c sign allowlist base p ≡ ok s
    → Landed broker c sign allowlist base p s
unfolding execute_ultra_swap
execute_ultra_swap-Landed broker c sign allowlist base p s h =
    let (_, _, h1) = >>=-eq-ok (assert_safe_base broker.parse_url base) _ h in
    let (pubkey, key, h2) =
      >>=-eq-ok (or_fail (base58decode (codes p.address)) 502 "submit-failed") _ h1 in
    let (_, _, h3) = >>=-eq-ok (fail_if (is_falsy p.intent.token) 400 "bad-intent") _ h2 in
    let (amount, priced, h4) = >>=-eq-ok (amount_of c p) _ h3 in
    let r : Request = request_of p amount in
    let (o, ordered, h5) = >>=-eq-ok (or_fail (broker.order base r) 502 "submit-failed") _ h4 in
    let (raw, carries, h6) = >>=-eq-ok (or_fail o.transaction 502 "no-route") _ h5 in
    let (_, _, h7) = >>=-eq-ok (fail_if (is_falsy o.request_id) 502 "no-route") _ h6 in
    let (v, checked, h8) = >>=-eq-ok (check_order p r o) _ h7 in
    let (way, value) = land_order-Sent broker sign allowlist base pubkey o raw v s h8 in
    record {
      pubkey = pubkey;
      amount = amount;
      given = o;
      raw = raw;
      priced = priced;
      is_key = or_fail-eq-ok _ _ _ key;
      ordered = or_fail-eq-ok _ _ _ ordered;
      carries = or_fail-eq-ok _ _ _ carries;
      checked = subst (Checked p r o) value (check_order-Checked p r o v checked);
      on_the_way = way;
    }
