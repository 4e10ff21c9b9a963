-- ===== src/Submit/Tests.antt =====
-- Inspections, signings and swaps run on one versioned transaction.
use circuit_agent_cloud.Prelude.{
  same, ℕ, ◌+◌, ◌≤◌, ◌<◌, ◌≡◌, refl, true, String, List, [], ◌∷◌, ◌++◌, some, map, All, max, drop,
  take, lookup, arith, num, pos,
}
use circuit_agent_cloud.Base58.{
  codes, base58, base58decode, replicate, mul_add, push_carry, digits_from, leading, after_leading,
  char_of,
}
use circuit_agent_cloud.Proto.Value.{text, undefined}
use circuit_agent_cloud.Signer.State.{ok, ◌>>=◌, Agent}
use circuit_agent_cloud.Signer.Trade.{Pending, finish}
use circuit_agent_cloud.Signer.Trade.Budget.{Passed, spent_today}
use circuit_agent_cloud.Signer.Toy.{toy_at, toy_convert, buy, live_policy, signer_of}
use circuit_agent_cloud.Signer.Trade.Runs.{live_after, live_pending, live_runs_at}
use circuit_agent_cloud.Signer.Transfer.Message.{compact_u16}
use circuit_agent_cloud.Submit.Wire.{read_head, message_of}
use circuit_agent_cloud.Submit.Inspect.{
  inspect_transaction, sign_serialized_tx, last_index, index_of_text, resolve, walk, copy_into,
}
use circuit_agent_cloud.Submit.Transaction.{
  Transaction, print_transaction, IsTransaction, analysis, unresolved_of, signed,
}
use circuit_agent_cloud.Submit.Transaction.Readback.{inspect_transaction-print_transaction}
use circuit_agent_cloud.Submit.Transaction.Signing.{sign_serialized_tx-print_transaction}
use circuit_agent_cloud.Submit.Execute.{
  Order, Executed, Broker, Swap, base_programs, sol_mint, assert_safe_base, amount_of, request_of,
  check_order, sol_value_of, land_order, execute_ultra_swap,
}
use circuit_agent_cloud.Submit.Execute.Programs.{IsAllowed, execute_ultra_swap-programs}
use circuit_agent_cloud.Submit.Execute.Budget.{execute_ultra_swap-within_budget}

-- Keys of 32 bytes: the relayer, the agent and the system program.
abbrev relayer : List ℕ
relayer = replicate 31 0 ++ (2 ∷ [])

abbrev wallet : List ℕ
wallet = replicate 31 0 ++ (1 ∷ [])

abbrev system : List ℕ
system = replicate 32 0

-- Two signers, of which the agent is the second; the first instruction runs the system program, and
-- the second one from a table.
abbrev two_signers : Transaction
two_signers = record {
  signatures = replicate 64 0 ∷ replicate 64 0 ∷ [];
  versioned = true;
  num_req_sig = 2;
  ro_signed = 0;
  ro_unsigned = 1;
  keys = relayer ∷ wallet ∷ system ∷ [];
  blockhash = replicate 32 9;
  instructions =
      record { program = 2; accounts = 0 ∷ 1 ∷ []; content = 7 ∷ [] }
      ∷ record { program = 5; accounts = []; content = [] }
      ∷ [];
  tables = 0 ∷ [];
}

two_signers-IsTransaction : IsTransaction two_signers
two_signers-IsTransaction = record {
  signature_count = omega arith;
  signature_sizes = (refl, (refl, tt));
  header = omega arith;
  key_count = omega arith;
  key_sizes = (refl, (refl, (refl, tt)));
  blockhash_size = refl;
  instruction_count = omega arith;
  instruction_sizes = ((omega arith, omega arith), ((omega arith, omega arith), tt));
}

analysis-two_signers :
    analysis base_programs two_signers wallet
    ≡ ok (record { unresolved = some 5 ∷ []; fee_payer = some (base58 relayer); signer_index = 1 })
unfolding analysis index_of_text unresolved_of resolve same base58 leading after_leading digits_from
    mul_add push_carry char_of
analysis-two_signers = refl

inspect_transaction-print_transaction_example :
    inspect_transaction base_programs (print_transaction two_signers) wallet
    ≡ analysis base_programs two_signers wallet
inspect_transaction-print_transaction_example =
    inspect_transaction-print_transaction base_programs two_signers wallet two_signers-IsTransaction

abbrev sign : List ℕ → List ℕ
sign m = replicate 64 7

abbrev two_signed : Transaction
two_signed = record two_signers { signatures = replicate 64 0 ∷ replicate 64 7 ∷ [] }

signed_two_signers : signed sign two_signers wallet ≡ ok two_signed
unfolding signed last_index same
signed_two_signers = refl

sign_serialized_tx-print_transaction_example :
    sign_serialized_tx sign (print_transaction two_signers) wallet
    ≡ (signed sign two_signers wallet >>= λ t'. ok (print_transaction t'))
sign_serialized_tx-print_transaction_example =
    sign_serialized_tx-print_transaction sign two_signers wallet two_signers-IsTransaction refl

-- The wallet's address, and a live buy of 0.02 SOL from it.
abbrev address : String
address = "11111111111111111111111111111112"

abbrev pending : Pending
pending = record live_pending { address = address }

abbrev order : Order
order = record {
  transaction = some (print_transaction two_signers);
  request_id = text "r1";
  input_mint = sol_mint;
  output_mint = text "MINT";
  in_amount = num (pos 20_000_001);
  out_amount = num (pos 5);
}

abbrev executed : Executed
executed = record { signature = text "sig"; txid = undefined; status = text "Success" }

abbrev broker : Broker
broker = record {
  parse_url = λ u. some (record { protocol = "https:"; hostname = "lite-api.jup.ag" });
  order = λ base r. some order;
  execute = λ base raw id. some executed;
}

abbrev swap : Swap
swap = record {
  txid = text "sig";
  status = text "Success";
  sol_value = 20_000_001;
  in_amount = num (pos 20_000_001);
  out_amount = num (pos 5);
  alt_programs = 1;
}

swap_lands :
    execute_ultra_swap broker toy_convert sign base_programs "https://lite-api.jup.ag" pending
    ≡ ok swap
unfolding execute_ultra_swap assert_safe_base amount_of request_of check_order sol_value_of
    land_order inspect_transaction sign_serialized_tx print_transaction base58 base58decode
    index_of_text same walk resolve last_index copy_into read_head drop message_of compact_u16 take
swap_lands = refl

execute_ultra_swap-programs_example :
    (pubkey : List ℕ) × (i : ℕ) × (t' : Transaction) × (answer : Executed) × (base58decode
        (codes address)
      ≡ some pubkey)
    × (index_of_text (base58 pubkey) (map base58 two_signers.keys) ≡ some i)
    × (i < two_signers.num_req_sig)
    × All (IsAllowed base_programs (map base58 two_signers.keys)) two_signers.instructions
    × (signed sign two_signers pubkey ≡ ok t')
    × (broker.execute "https://lite-api.jup.ag" (print_transaction t') order.request_id
        ≡ some answer)
unfolding amount_of
execute_ultra_swap-programs_example =
    execute_ultra_swap-programs broker toy_convert sign base_programs "https://lite-api.jup.ag"
      (λ m. refl) pending swap 20_000_000 order two_signers two_signers-IsTransaction refl refl refl
      swap_lands

-- With 0.48 SOL spent before.
execute_ultra_swap-within_budget_example :
    (a : Agent) × Passed (toy_at address) 40000 "dca" buy (signer_of live_policy) a
    × (0 < 20_000_001)
    × (20_000_001 ≤ a.policy.max_notional_sol + 1)
    × ((a' : Agent) × (lookup a.id (finish pending 20_000_001 live_after).agents ≡ some a')
        × (a'.day_spent_sol ≤ max a.policy.max_daily_sol (spent_today 40000 a) + 1))
execute_ultra_swap-within_budget_example =
    execute_ultra_swap-within_budget (toy_at address) 40000 "dca" buy (signer_of live_policy)
      live_after pending broker toy_convert sign base_programs "https://lite-api.jup.ag" swap
      (live_runs_at address) swap_lands
