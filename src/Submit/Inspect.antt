-- ===== src/Submit/Inspect.antt =====
-- signer/submit.js: `inspectTransaction`, `findSignerIndex` and `signSerializedTx`, over the bytes of a
-- transaction (the base64 around them is left out).
use circuit_agent_cloud.Prelude.{
  ℕ, same, zero, suc, ◌+◌, ◌*◌, Bool, true, false, List, [], ◌∷◌, ◌++◌, Option, none, some, length,
  take, drop, map, get_elem?, any, leb, ltb, if◌then◌else◌, ℤ, pos, negsuc,
}
use circuit_agent_cloud.Base58.{base58}
use circuit_agent_cloud.Signer.State.{Result, ok, fail, fail_if, or_fail, ◌>>=◌, ◌>>◌}
use circuit_agent_cloud.Submit.Wire.{
  plus, rounds, byte_at, read_compact_u16, message_of, Head, read_head,
}

-- `xs.indexOf(x)`.
unfoldable pub index_of_text : List ℕ → List (List ℕ) → Option ℕ
unfolding same
index_of_text x [] = none
index_of_text x (y ∷ ys) =
    let rest = index_of_text x ys in
    if same y x then some 0 else elim rest [ none ↦ none | some i ↦ some (suc i) ]

-- `i >= bound`, where the bound may be `undefined`.
abbrev pub reaches : ℕ → Option ℕ → Bool
reaches i none = false
reaches i (some n) = leb n i

-- `p > m.length`.
unfoldable pub overruns : List ℕ → ℤ → Bool
overruns m (pos p) = ltb (length m) p
overruns m (negsuc p) = false

-- What becomes of one program index: refused, allowed, or loaded from a table.
pub data Program : Type 0 where
  refused allowed unresolved : Program

unfoldable pub resolve : List (List ℕ) → List (List ℕ) → Option ℕ → Program
unfolding same
resolve allowlist keys none = unresolved
resolve allowlist keys (some i) = elim (get_elem? keys i) [
  | none ↦ unresolved
  | some program ↦ if any (λ t. same t program) allowlist then allowed else refused
]

-- The branches on one instruction, with what the rest of the loop gives.
abbrev pub judge : Program → Option ℕ → Result (List (Option ℕ)) → Result (List (Option ℕ))
judge refused index rest = fail 403 "tx-rejected"
judge allowed index rest = rest
judge unresolved index rest = rest >>= λ found. ok (index ∷ found)

-- The loop over the instructions: the indices that are not resolved, or the refusal.
unfoldable pub walk : List (List ℕ) → List (List ℕ) → List ℕ → ℕ → ℤ → Result (List (Option ℕ))
unfolding resolve overruns
walk allowlist keys m zero p = ok []
walk allowlist keys m (suc n) p =
    let index : Option ℕ = byte_at m p in
    let accounts : ℤ × ℤ = read_compact_u16 m (plus p (pos 1)) in
    let content : ℤ × ℤ = read_compact_u16 m (plus accounts.1 accounts.0) in
    let next : ℤ = plus content.1 content.0 in
    let rest : Result (List (Option ℕ)) = walk allowlist keys m n next in
    if overruns m next
    then fail 403 "tx-rejected"
    else judge (resolve allowlist keys index) index rest

pub record Inspection : Type 0 where
  pub unresolved : List (Option ℕ)
  pub fee_payer : Option (List ℕ)
  pub signer_index : ℕ

unfoldable pub inspect_transaction : List (List ℕ) → List ℕ → List ℕ → Result Inspection
unfolding walk index_of_text
inspect_transaction allowlist raw pubkey =
    let m : List ℕ = message_of raw in
    let h : Head = read_head m in
    let keys : List (List ℕ) = map base58 h.keys in
    let count : ℤ × ℤ = read_compact_u16 m (plus h.end (pos 32)) in
    or_fail (index_of_text (base58 pubkey) keys) 403 "tx-rejected" >>= λ mine.
    fail_if (reaches mine h.num_req_sig) 403 "tx-rejected"
    >> (walk allowlist keys m (rounds count.0) count.1 >>= λ found.
        ok (record { unresolved = found; fee_payer = get_elem? keys 0; signer_index = mine }))

-- `findSignerIndex`: the last key that is the agent's.
unfoldable pub last_index : List ℕ → List (List ℕ) → Option ℕ
unfolding same
last_index x [] = none
last_index x (y ∷ ys) = elim (last_index x ys) [
  | some i ↦ some (suc i)
  | none ↦ if same y x then some 0 else none
]

-- `signature.copy(raw, at)`: what does not fit is cut off.
unfoldable pub copy_into : List ℕ → ℕ → List ℕ → List ℕ
copy_into raw at signature =
    take (length raw) (take at raw ++ (signature ++ drop (at + length signature) raw))

-- `idx >= sigCount`.
abbrev pub at_or_above : ℕ → ℤ → Bool
at_or_above i (pos n) = leb n i
at_or_above i (negsuc n) = true

abbrev pub below_one : ℤ → Bool
below_one (pos n) = ltb n 1
below_one (negsuc n) = true

abbrev pub position : ℤ → ℕ
position (pos n) = n
position (negsuc n) = 0

-- `signSerializedTx`; the errors have no status of their own. The signature is the runtime's.
unfoldable pub sign_serialized_tx : (List ℕ → List ℕ) → List ℕ → List ℕ → Result (List ℕ)
unfolding last_index copy_into
sign_serialized_tx sign raw pubkey =
    let read : ℤ × ℤ = read_compact_u16 raw (pos 0) in
    let m : List ℕ = message_of raw in
    let h : Head = read_head m in
    fail_if (below_one read.0) 502 "submit-failed"
    >> (or_fail (last_index pubkey h.keys) 502 "submit-failed" >>= λ mine.
        fail_if (reaches mine h.num_req_sig) 502 "submit-failed"
        >> fail_if (at_or_above mine read.0) 502 "submit-failed"
        >> ok (copy_into raw (position read.1 + mine * 64) (sign m)))
