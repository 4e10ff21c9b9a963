-- ===== src/Submit/Transaction/Readback.antt =====
-- `inspectTransaction` of signer/submit.js against the transaction as a value.
use circuit_agent_cloud.Prelude.{
  ℕ, ◌+◌, ◌≡◌, ap, ◌∙◌, List, ◌++◌, Option, some, length, map, get_elem?, arith, ℤ, pos,
}
use circuit_agent_cloud.Base58.{base58}
use circuit_agent_cloud.Signer.State.{Result, ok, fail_if, or_fail, ◌>>=◌, ◌>>◌}
use circuit_agent_cloud.Signer.Transfer.Message.{compact_u16}
use circuit_agent_cloud.Submit.Wire.{plus, rounds, read_compact_u16, Head, read_head}
use circuit_agent_cloud.Submit.Wire.Laws.{Stands-behind, read_compact_u16-Stands}
use circuit_agent_cloud.Submit.Inspect.{
  index_of_text, reaches, walk, Inspection, inspect_transaction,
}
use circuit_agent_cloud.Submit.Transaction.{
  Transaction, print_instructions, print_message, print_transaction, IsTransaction, unresolved_of,
  analysis,
}
use circuit_agent_cloud.Submit.Transaction.Parts.{
  message_of-print_transaction, read_head-print_message, after_keys,
}
use circuit_agent_cloud.Submit.Transaction.Loop.{from_option, walk-print_instructions}

-- The tests and the result of the inspection, by what the reads gave.
abbrev report :
    List (List ℕ) → List ℕ → List (List ℕ) → Option ℕ → Result (List (Option ℕ)) → Result Inspection
report allowlist pubkey keys signers found =
    or_fail (index_of_text (base58 pubkey) keys) 403 "tx-rejected" >>= λ mine.
    fail_if (reaches mine signers) 403 "tx-rejected"
    >> (found >>= λ found.
        ok (record { unresolved = found; fee_payer = get_elem? keys 0; signer_index = mine }))

abbrev inspect_message : List (List ℕ) → List ℕ → List ℕ → Head → Result Inspection
inspect_message allowlist pubkey m h =
    let keys : List (List ℕ) = map base58 h.keys in
    let count : ℤ × ℤ = read_compact_u16 m (plus h.end (pos 32)) in
    report allowlist pubkey keys h.num_req_sig (walk allowlist keys m (rounds count.0) count.1)

report-analysis :
    (allowlist : List (List ℕ)) (t : Transaction) (pubkey : List ℕ)
    → report allowlist pubkey
        (map base58 t.keys)
        (some t.num_req_sig)
        (from_option (unresolved_of allowlist (map base58 t.keys) t.instructions))
      ≡ analysis allowlist t pubkey
unfolding analysis
report-analysis allowlist t pubkey = ground arith

-- Of the bytes of a transaction, legacy or versioned, whose parts have the sizes of the format, the
-- inspection gives what the transaction as a value says: it fails if the agent's key is not a static
-- key below the number of required signers, or if the program of some instruction is a static key off
-- the allow list; otherwise it gives the agent's index, the first static key, and in order the program
-- indices beyond the static keys.
pub inspect_transaction-print_transaction :
    (allowlist : List (List ℕ)) (t : Transaction) (pubkey : List ℕ)
    → IsTransaction t
    → inspect_transaction allowlist (print_transaction t) pubkey ≡ analysis allowlist t pubkey
unfolding inspect_transaction analysis rounds plus after_keys
inspect_transaction-print_transaction allowlist t pubkey v =
    let m : List ℕ = print_message t in
    let keys : List (List ℕ) = map base58 t.keys in
    let n : ℕ = length t.instructions in
    let rest : List ℕ = print_instructions t.instructions t.tables in
    let (p, h, st) = read_head-print_message t v in
    let behind = Stands-behind m p 32 t.blockhash (compact_u16 n ++ rest) v.blockhash_size st in
    let (q, e, st') = read_compact_u16-Stands m (p + 32) n rest v.instruction_count behind in
    let loop =
      walk-print_instructions allowlist keys m t.instructions t.tables q v.instruction_sizes st' in
    let inspect : Head → Result Inspection = inspect_message allowlist pubkey m in
    ap (λ (x : List ℕ). inspect_message allowlist pubkey x (read_head x))
      (message_of-print_transaction t v)
    ∙ (ap inspect h
        ∙ (ap
              (λ (c : ℤ × ℤ).
                report allowlist pubkey keys (some t.num_req_sig)
                  (walk allowlist keys m (rounds c.0) c.1))
              e
            ∙ (ap (report allowlist pubkey keys (some t.num_req_sig)) loop
                ∙ report-analysis allowlist t pubkey)))
