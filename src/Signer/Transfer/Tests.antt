-- ===== src/Signer/Transfer/Tests.antt =====
-- A withdrawal with a failing first endpoint, and a message read back.
use circuit_agent_cloud.Prelude.{ℕ, ◌≡◌, refl, String, List, [], ◌∷◌, none, some, arith, negsuc}
use circuit_agent_cloud.Base58.{replicate, codes, base58decode}
use circuit_agent_cloud.Signer.Transfer.{
  Response, no_answer, http_error, rpc_error, answer, rpc, Chain, landed, pending, withdraw_sol,
  withdraw_between, withdrawn, plan_withdrawal, send_to_owner, transfer_message, broadcast_signed,
  confirm, is_transient,
}
use circuit_agent_cloud.Signer.Transfer.Laws.{Withdrew, withdraw_sol-withdrawn}
use circuit_agent_cloud.Signer.Transfer.Message.{build_sol_transfer_message, read_message, then_do}
use circuit_agent_cloud.Signer.Transfer.Readback.{read_message-build_sol_transfer_message}

abbrev failing : List (Response ℕ)
failing = no_answer ∷ http_error 429 ∷ rpc_error (negsuc 32004) ∷ []

abbrev net : Chain
net = record {
  balance = λ address. http_error 403 ∷ answer 12000 ∷ [];
  blockhash = answer "11111111111111111111111111111111" ∷ [];
  broadcast = λ bytes. answer "sig" ∷ [];
  polls = (answer pending ∷ []) ∷ (answer landed ∷ []) ∷ [];
}

-- 32 bytes each.
abbrev agent_address : String
agent_address = "4uQeVj5tqViQh7yWWGStvkEG1Zmhx6uasJtWCJziofM"

abbrev owner_address : String
owner_address = "11111111111111111111111111111111"

abbrev sign : List ℕ → List ℕ
sign message = replicate 64 3

sweep_runs :
    withdraw_sol sign net agent_address owner_address none ≡ withdrawn owner_address "sig" 7000 0
unfolding withdraw_sol withdraw_between rpc is_transient plan_withdrawal send_to_owner
    transfer_message broadcast_signed confirm
sweep_runs = refl

withdraw_sol-withdrawn_example :
    (from : List ℕ) × (to : List ℕ) × (base58decode (codes agent_address) ≡ some from)
    × (base58decode (codes owner_address) ≡ some to)
    × Withdrew sign net from to agent_address owner_address none owner_address "sig" 7000 0
withdraw_sol-withdrawn_example =
    withdraw_sol-withdrawn sign net agent_address owner_address none owner_address "sig" 7000 0
      sweep_runs

read_message-build_sol_transfer_message_example :
    then_do
      (build_sol_transfer_message (replicate 32 7) (replicate 32 9) 123456789 (replicate 32 1))
      read_message
    ≡ some (record {
      from = replicate 32 7;
      to = replicate 32 9;
      lamports = 123456789;
      blockhash = replicate 32 1;
    })
read_message-build_sol_transfer_message_example =
    read_message-build_sol_transfer_message (replicate 32 7) (replicate 32 9) (replicate 32 1)
      123456789 refl refl refl (omega arith)
