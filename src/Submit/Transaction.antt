-- ===== src/Submit/Transaction.antt =====
-- The wire format that signer/submit.js reads, written out: a transaction as a value, its bytes, and
-- what its inspection is meant to find.
pub mod Loop
pub mod Parts
pub mod Readback
pub mod Signing
use circuit_agent_cloud.Prelude.{
  ℕ, suc, ◌<◌, ◌≡◌, Bool, true, false, List, [], ◌∷◌, ◌++◌, Option, none, some, length, map,
  get_elem?, any, All, leb, set, ◌||◌, if◌then◌else◌,
}
use circuit_agent_cloud.Base58.{base58}
use circuit_agent_cloud.Signer.State.{Result, ok, fail, fail_if, or_fail, ◌>>=◌, ◌>>◌}
use circuit_agent_cloud.Signer.Transfer.Message.{compact_u16}
use circuit_agent_cloud.Submit.Inspect.{
  index_of_text, last_index, resolve, Program, refused, allowed, unresolved, Inspection,
}

pub record Instruction : Type 0 where
  pub program : ℕ
  pub accounts : List ℕ
  pub content : List ℕ

-- `tables` is what follows the instructions of a versioned message.
pub record Transaction : Type 0 where
  pub signatures : List (List ℕ)
  pub versioned : Bool
  pub num_req_sig : ℕ
  pub ro_signed : ℕ
  pub ro_unsigned : ℕ
  pub keys : List (List ℕ)
  pub blockhash : List ℕ
  pub instructions : List Instruction
  pub tables : List ℕ

unfoldable pub concat : List (List ℕ) → List ℕ
concat [] = []
concat (x ∷ xs) = x ++ concat xs

unfoldable pub print_instructions : List Instruction → List ℕ → List ℕ
print_instructions [] rest = rest
print_instructions (i ∷ is) rest =
    i.program
    ∷ (compact_u16 (length i.accounts)
        ++ (i.accounts
            ++ (compact_u16 (length i.content) ++ (i.content ++ print_instructions is rest))))

-- From the header on.
unfoldable pub print_body : Transaction → List ℕ
unfolding concat print_instructions
print_body t =
    t.num_req_sig
    ∷ t.ro_signed
    ∷ t.ro_unsigned
    ∷ (compact_u16 (length t.keys)
        ++ (concat t.keys
            ++ (t.blockhash
                ++ (compact_u16 (length t.instructions)
                    ++ print_instructions t.instructions t.tables))))

unfoldable pub print_message : Transaction → List ℕ
unfolding print_body
print_message t = if t.versioned then 128 ∷ print_body t else print_body t

unfoldable pub print_transaction : Transaction → List ℕ
unfolding concat print_message
print_transaction t = compact_u16 (length t.signatures) ++ (concat t.signatures ++ print_message t)

-- The lengths and ranges that the format demands; a compact number has at most 16 bits.
abbrev pub IsShort : ℕ → Type 0
IsShort n = n < 65536

abbrev pub IsInstruction : Instruction → Type 0
IsInstruction i = IsShort (length i.accounts) × IsShort (length i.content)

pub record IsTransaction (t : Transaction) : Type 0 where
  pub signature_count : IsShort (length t.signatures)
  pub signature_sizes : All (λ s. length s ≡ 64) t.signatures
  pub header : t.num_req_sig < 128
  pub key_count : IsShort (length t.keys)
  pub key_sizes : All (λ k. length k ≡ 32) t.keys
  pub blockhash_size : length t.blockhash ≡ 32
  pub instruction_count : IsShort (length t.instructions)
  pub instruction_sizes : All IsInstruction t.instructions

-- A refused program spoils all; one that no static key answers is listed.
abbrev pub collect : Program → ℕ → Option (List (Option ℕ)) → Option (List (Option ℕ))
collect refused i rest = none
collect allowed i rest = rest
collect unresolved i none = none
collect unresolved i (some found) = some (some i ∷ found)

-- The program indices that no static key answers, unless some static program is not on the list.
unfoldable pub unresolved_of :
    List (List ℕ) → List (List ℕ) → List Instruction → Option (List (Option ℕ))
unresolved_of allowlist keys [] = some []
unresolved_of allowlist keys (i ∷ is) =
    collect (resolve allowlist keys (some i.program)) i.program (unresolved_of allowlist keys is)

-- The agent is one of the required signers, and every static program is allowed.
unfoldable pub analysis : List (List ℕ) → Transaction → List ℕ → Result Inspection
unfolding unresolved_of
analysis allowlist t pubkey =
    let keys : List (List ℕ) = map base58 t.keys in
    elim (index_of_text (base58 pubkey) keys) [
      | none ↦ fail 403 "tx-rejected"
      | some mine ↦
          if leb t.num_req_sig mine
          then fail 403 "tx-rejected"
          else elim (unresolved_of allowlist keys t.instructions) [
            | none ↦ fail 403 "tx-rejected"
            | some found ↦
                ok
                  (record { unresolved = found; fee_payer = get_elem? keys 0; signer_index = mine })
          ]
    ]

-- The agent's signature in the slot of its key, if that key is one of the required signers.
unfoldable pub signed : (List ℕ → List ℕ) → Transaction → List ℕ → Result Transaction
signed sign t pubkey = elim (last_index pubkey t.keys) [
  | none ↦ fail 502 "submit-failed"
  | some mine ↦
      if leb t.num_req_sig mine || leb (length t.signatures) mine
      then fail 502 "submit-failed"
      else ok (record t { signatures = set t.signatures mine (sign (print_message t)) })
]
