-- ===== src/Submit/Execute.antt =====
-- signer/submit.js: `assertSafeBase` and `executeUltraSwap`. The broker, the URL parser and the
-- signature are parameters; the base64 around transactions and the slippage of a request are left out.
pub mod Landing
pub mod Programs
pub mod Budget
use circuit_agent_cloud.Prelude.{
  ℕ, zero, suc, ◌+◌, ◌/◌, Bool, true, false, not, ◌&&◌, ◌||◌, String, ◌==◌, List, [], ◌∷◌, Option,
  none, some, map, length, any, includes, ltb, if◌then◌else◌, Number, nan, num, pos, negsuc,
}
use circuit_agent_cloud.Proto.Value.{
  Value, text, null, Convert, strict_eq, is_falsy, to_number, scale,
}
use circuit_agent_cloud.Base58.{codes, base58decode}
use circuit_agent_cloud.Signer.State.{Result, ok, fail, fail_if, or_fail, ◌>>=◌, ◌>>◌}
use circuit_agent_cloud.Signer.Trade.{Pending}
use circuit_agent_cloud.Submit.Inspect.{Inspection, inspect_transaction, sign_serialized_tx}

pub record Url : Type 0 where
  pub protocol : String
  pub hostname : String

abbrev loopback : List String
loopback = "localhost" ∷ "127.0.0.1" ∷ "::1" ∷ []

-- `assertSafeBase`, without the slash that it takes off the end.
unfoldable pub assert_safe_base : (String → Option Url) → String → Result (Unit {0})
assert_safe_base parse base = or_fail (parse base) 400 "bad-config" >>= λ u.
    fail_if (not (u.protocol == "https:") && not (includes u.hostname loopback)) 400
      "insecure-endpoint"

-- The programs that a swap may run, without those that the environment adds.
abbrev pub base_programs : List (List ℕ)
base_programs = map codes (
    "11111111111111111111111111111111" ∷ "ComputeBudget111111111111111111111111111111"
    ∷ "TokenkegQfeZyiNwAJbNbGKPFXCWuBvf9Ss623VQ5DA" ∷ "TokenzQdBNbLqP5VEhdkAS6EPFLC1PHnBqCXEpPxuEb"
    ∷ "ATokenGPvbdGVxr1b2hvZbsiqW5xWH25efTNsLJA8knL" ∷ "JUP6LkbZbjS1jKKwapdHNy74zcZ3tLUZoi5QNyVTaV4"
    ∷ "proVF4pMXVaYqmy4NjniPh4pqKNfMmsihgd4wdkCX3u" ∷ [])

-- What the broker is asked for.
pub record Request : Type 0 where
  pub input_mint : Value
  pub output_mint : Value
  pub amount : ℕ
  pub taker : String

-- An order. `transaction` holds the decoded bytes, `none` where there are none; the amounts are what
-- `Number` makes of them, in whole units.
pub record Order : Type 0 where
  pub transaction : Option (List ℕ)
  pub request_id : Value
  pub input_mint : Value
  pub output_mint : Value
  pub in_amount : Number
  pub out_amount : Number

pub record Executed : Type 0 where
  pub signature : Value
  pub txid : Value
  pub status : Value

-- `none` stands for a call that throws.
pub record Broker : Type 0 where
  pub parse_url : String → Option Url
  pub order : String → Request → Option Order
  pub execute : String → List ℕ → Value → Option Executed

pub record Swap : Type 0 where
  pub txid : Value
  pub status : Value
  pub sol_value : ℕ
  pub in_amount : Number
  pub out_amount : Number
  pub alt_programs : ℕ

abbrev pub sol_mint : Value
sol_mint = text "So11111111111111111111111111111111111111112"

abbrev pub is_buy : Pending → Bool
is_buy p = strict_eq p.intent.kind (text "buy")

-- `x > 0`, with the amount.
abbrev pub above_zero : Number → Option ℕ
above_zero nan = none
above_zero (num (pos zero)) = none
above_zero (num (pos (suc n))) = some (suc n)
above_zero (num (negsuc n)) = none

-- `Math.floor(x)` of a number of Proto/Value, for what may be above zero.
abbrev floor_positive : Number → Number
floor_positive nan = nan
floor_positive (num (pos n)) = num (pos (n / scale))
floor_positive (num (negsuc n)) = num (negsuc (n / scale))

-- The amount, in units of the token that is paid with: a multiple of 10^-9 SOL is a whole lamport.
unfoldable pub amount_of : Convert → Pending → Result ℕ
amount_of c p =
    or_fail
      (above_zero
        (if is_buy p then to_number c p.intent.size_sol else floor_positive (to_number c p.amount)))
      400 "bad-intent"

unfoldable pub request_of : Pending → ℕ → Request
request_of p amount = record {
  input_mint = if is_buy p then sol_mint else p.intent.token;
  output_mint = if is_buy p then p.intent.token else sol_mint;
  amount = amount;
  taker = p.address;
}

-- `order.inputMint && order.inputMint !== inputMint`.
abbrev pub mismatch : Value → Value → Bool
mismatch given wanted = not (is_falsy given) && not (strict_eq given wanted)

-- `Number(order.inAmount) || amount`.
abbrev or_amount : Number → ℕ → Number
or_amount nan amount = num (pos amount)
or_amount (num (pos zero)) amount = num (pos amount)
or_amount (num (pos (suc n))) amount = num (pos (suc n))
or_amount (num (negsuc n)) amount = num (negsuc n)

-- The SOL value of an order, in lamports: what a buy pays, what a sell receives.
unfoldable pub sol_value_of : Pending → ℕ → Order → Result ℕ
sol_value_of p amount o =
    or_fail (above_zero (if is_buy p then or_amount o.in_amount amount else o.out_amount)) 502
      "no-route"

-- The checks on an order; the caps have room for one unit of the last place.
unfoldable pub check_order : Pending → Request → Order → Result ℕ
unfolding sol_value_of
check_order p r o =
    fail_if (mismatch o.input_mint r.input_mint) 403 "order-mismatch"
    >> fail_if (mismatch o.output_mint r.output_mint) 403 "order-mismatch"
    >> (sol_value_of p r.amount o >>= λ v.
        fail_if (ltb (p.max_notional_sol + 1) v) 403 "over-trade-cap"
        >> fail_if (ltb (p.remaining_daily_sol + 1) v) 403 "over-daily-cap"
        >> ok v)

-- `a || b`.
abbrev or_value : Value → Value → Value
or_value a b = if is_falsy a then b else a

-- An order that passed is inspected, signed and executed.
unfoldable pub land_order :
    Broker → (List ℕ → List ℕ) → List (List ℕ) → String → List ℕ → Order → List ℕ → ℕ → Result Swap
land_order broker sign allowlist base pubkey o raw v =
    inspect_transaction allowlist raw pubkey >>= λ found.
    sign_serialized_tx sign raw pubkey >>= λ signed.
    or_fail (broker.execute base signed o.request_id) 502 "submit-failed" >>= λ res.
    fail_if (mismatch res.status (text "Success")) 502 "submit-failed"
    >> ok (record {
      txid = or_value (or_value res.signature res.txid) null;
      status = or_value res.status (text "Success");
      sol_value = v;
      in_amount = o.in_amount;
      out_amount = o.out_amount;
      alt_programs = length found.unresolved;
    })

-- The whole function, with what the handler of `intent` passes on.
unfoldable pub execute_ultra_swap :
    Broker → Convert → (List ℕ → List ℕ) → List (List ℕ) → String → Pending → Result Swap
unfolding assert_safe_base amount_of request_of check_order land_order
execute_ultra_swap broker c sign allowlist base p =
    assert_safe_base broker.parse_url base
    >> (or_fail (base58decode (codes p.address)) 502 "submit-failed" >>= λ pubkey.
        fail_if (is_falsy p.intent.token) 400 "bad-intent"
        >> (amount_of c p >>= λ amount.
            let r : Request = request_of p amount in
            or_fail (broker.order base r) 502 "submit-failed" >>= λ o.
            or_fail o.transaction 502 "no-route" >>= λ raw.
            fail_if (is_falsy o.request_id) 502 "no-route"
            >> (check_order p r o >>= λ v. land_order broker sign allowlist base pubkey o raw v)))
