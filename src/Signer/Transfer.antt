-- ===== src/Signer/Transfer.antt =====
-- signer/withdraw.js: the RPC with failover, and the transfer of an agent's SOL to its owner.
pub mod Message
pub mod Laws
pub mod Readback
mod Tests
use circuit_agent_cloud.Prelude.{
  ℕ, zero, suc, ◌-◌, ◌^◌, Bool, true, false, ◌||◌, String, ◌==◌, List, [], ◌∷◌, ◌++◌, Option, none,
  some, ltb, nat_eq, any, if◌then◌else◌, ℤ, pos, negsuc, eq_ℤ,
}
use circuit_agent_cloud.Base58.{codes, base58decode}
use circuit_agent_cloud.Signer.Transfer.Message.{compact_u16, build_sol_transfer_message}

-- What one endpoint answers to a call: nothing (network error or timeout), an HTTP error status, a
-- JSON-RPC error with its code, or the result.
pub data Response {ℓ} (A : Type ℓ) : Type ℓ where
  no_answer : Response A
  http_error : ℕ → Response A
  rpc_error : ℤ → Response A
  answer : A → Response A

pub data RpcResult {ℓ} (A : Type ℓ) : Type ℓ where
  result : A → RpcResult A
  -- Status 503, code `rpc-unavailable`.
  unavailable : RpcResult A
  -- The error of the last endpoint that was asked, which has no status of its own.
  method_error : RpcResult A

abbrev failover_http : List ℕ
failover_http = 403 ∷ 408 ∷ 409 ∷ 425 ∷ 429 ∷ 500 ∷ 502 ∷ 503 ∷ 504 ∷ []

-- -32429, -32005, -32004.
abbrev failover_rpc_code : List ℤ
failover_rpc_code = negsuc 32428 ∷ negsuc 32004 ∷ negsuc 32003 ∷ []

pub is_transient {ℓ} : {A : Type ℓ} → Response A → Bool
is_transient no_answer = true
is_transient (http_error status) = any (λ s. nat_eq s status) failover_http
is_transient (rpc_error code) = any (λ c. eq_ℤ c code) failover_rpc_code
is_transient (answer a) = false

-- The failure of the endpoint that was asked last.
abbrev give_up {ℓ} : {A : Type ℓ} → Bool → RpcResult A
give_up true = unavailable
give_up false = method_error

-- The list holds what each endpoint would answer, in the order of the configuration.
unfoldable pub rpc {ℓ} : {A : Type ℓ} → List (Response A) → RpcResult A
unfolding is_transient
rpc [] = unavailable
rpc (answer a ∷ rest) = result a
rpc (no_answer ∷ rest) = rpc rest
rpc (http_error status ∷ []) = give_up (is_transient {A = ℕ} (http_error status))
rpc (http_error status ∷ r ∷ rest) = elim (is_transient {A = ℕ} (http_error status)) [
  | true ↦ rpc (r ∷ rest)
  | false ↦ method_error
]
rpc (rpc_error code ∷ []) = give_up (is_transient {A = ℕ} (rpc_error code))
rpc (rpc_error code ∷ r ∷ rest) = elim (is_transient {A = ℕ} (rpc_error code)) [
  | true ↦ rpc (r ∷ rest)
  | false ↦ method_error
]

-- Lamports that stay back for the fee.
abbrev pub fee_reserve : ℕ
fee_reserve = 5000

pub data Plan : Type 0 where
  send : ℕ → Plan
  nothing_to_send insufficient : Plan

-- The amount of the transfer; no amount asks for the whole balance less the fee. The source's
-- `spendable` may be negative: then every branch below takes the same turn with 0.
pub plan_withdrawal : ℕ → Option ℕ → Plan
plan_withdrawal balance requested =
    let spendable = balance - fee_reserve in
    let amount : ℕ = elim requested [ none ↦ spendable | some n ↦ n ] in
    if nat_eq amount 0
    then nothing_to_send
    else if ltb spendable amount
    then insufficient
    else send amount

-- A signature's status in one poll: unknown yet, landed, or failed on chain.
pub data Status : Type 0 where
  pending landed failed : Status

pub data Withdrawal : Type 0 where
  -- Recipient, signature, lamports, remaining.
  withdrawn : String → String → ℕ → ℕ → Withdrawal
  not_withdrawn : ℕ → String → Withdrawal

abbrev error_of {ℓ} : {A : Type ℓ} → RpcResult A → Withdrawal
error_of unavailable = not_withdrawn 503 "rpc-unavailable"
error_of _ = not_withdrawn 502 "withdraw-failed"

-- The polls, at most fifteen; a transfer that is not confirmed by then counts as sent.
pub confirm : ℕ → List (List (Response Status)) → Withdrawal → Withdrawal
unfolding rpc
confirm zero polls done = done
confirm (suc n) [] done = done
confirm (suc n) (p ∷ polls) done = elim (rpc p) [
  | result pending ↦ confirm n polls done
  | result landed ↦ done
  | result failed ↦ not_withdrawn 502 "tx-failed"
  | unavailable ↦ error_of {A = Status} unavailable
  | method_error ↦ error_of {A = Status} method_error
]

-- What the endpoints answer during one withdrawal: the balance of an address, a blockhash, the broadcast
-- of a transaction, given as its bytes, and the polls.
pub record Chain : Type 0 where
  pub balance : String → List (Response ℕ)
  pub blockhash : List (Response String)
  pub broadcast : List ℕ → List (Response String)
  pub polls : List (List (Response Status))

abbrev failed_withdrawal : Withdrawal
failed_withdrawal = not_withdrawn 502 "withdraw-failed"

-- `signTransferTx`, before base64; `sign` is the signature with the agent's key.
unfoldable pub sign_transfer_tx : (List ℕ → List ℕ) → List ℕ → List ℕ
unfolding compact_u16
sign_transfer_tx sign message = compact_u16 1 ++ (sign message ++ message)

-- The message that is sent; `none` is a thrown error.
unfoldable pub transfer_message : List ℕ → List ℕ → ℕ → String → Option (List ℕ)
unfolding base58decode build_sol_transfer_message
transfer_message from to amount hash = elim (base58decode (codes hash)) [
  | none ↦ none
  | some blockhash ↦ build_sol_transfer_message from to amount blockhash
]

-- The broadcast and the polls. `owner` is what the reply names.
pub broadcast_signed : (List ℕ → List ℕ) → Chain → String → ℕ → ℕ → List ℕ → Withdrawal
unfolding rpc confirm sign_transfer_tx
broadcast_signed sign net owner balance amount message =
    elim (rpc (net.broadcast (sign_transfer_tx sign message))) [
      | unavailable ↦ error_of {A = String} unavailable
      | method_error ↦ error_of {A = String} method_error
      | result signature ↦
          confirm 15 net.polls (withdrawn owner signature amount (balance - amount - fee_reserve))
    ]

-- `writeBigUInt64LE` throws if the amount is too large for it.
pub send_to_owner : (List ℕ → List ℕ) → Chain → List ℕ → List ℕ → String → ℕ → ℕ → Withdrawal
unfolding rpc transfer_message broadcast_signed
send_to_owner sign net from to owner balance amount = elim (rpc net.blockhash) [
  | unavailable ↦ error_of {A = String} unavailable
  | method_error ↦ error_of {A = String} method_error
  | result hash ↦ elim (transfer_message from to amount hash) [
    | none ↦ failed_withdrawal
    | some message ↦
        if ltb amount (2 ^ 64)
        then broadcast_signed sign net owner balance amount message
        else not_withdrawn 502 "ERR_OUT_OF_RANGE"
  ]
]

-- From here on the keys are decoded.
pub withdraw_between :
    (List ℕ → List ℕ) → Chain → List ℕ → List ℕ → String → String → Option ℕ → Withdrawal
unfolding send_to_owner plan_withdrawal rpc
withdraw_between sign net from to address owner requested = elim (rpc (net.balance address)) [
  | unavailable ↦ error_of {A = ℕ} unavailable
  | method_error ↦ error_of {A = ℕ} method_error
  | result balance ↦ elim (plan_withdrawal balance requested) [
    | nothing_to_send ↦ not_withdrawn 400 "empty"
    | insufficient ↦ not_withdrawn 400 "insufficient"
    | send amount ↦ send_to_owner sign net from to owner balance amount
  ]
]

-- `withdrawSol`, from the agent's address to the owner's.
pub withdraw_sol : (List ℕ → List ℕ) → Chain → String → String → Option ℕ → Withdrawal
unfolding withdraw_between base58decode
withdraw_sol sign net address owner requested =
    if owner == "" then not_withdrawn 409 "no-owner" else elim (base58decode (codes address)) [
      | none ↦ failed_withdrawal
      | some from ↦ elim (base58decode (codes owner)) [
        | none ↦ failed_withdrawal
        | some to ↦ withdraw_between sign net from to address owner requested
      ]
    ]
