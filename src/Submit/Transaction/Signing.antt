-- ===== src/Submit/Transaction/Signing.antt =====
-- `signSerializedTx` of signer/submit.js against the transaction as a value.
use circuit_agent_cloud.Prelude.{
  ℕ, zero, suc, ◌+◌, ◌*◌, ◌<◌, ◌≡◌, refl, ap, sym, ◌∙◌, inl, inr, List, [], ◌∷◌, ◌++◌, some, length,
  All, set, take_first, drop_first, take_all, drop_add, append_assoc, length-append, arith,
  Option-cases, ℤ, pos,
}
use circuit_agent_cloud.Signer.State.{Result, ok, fail_if, or_fail, ◌>>=◌, ◌>>◌}
use circuit_agent_cloud.Signer.Transfer.Message.{compact_u16}
use circuit_agent_cloud.Submit.Wire.{read_compact_u16, Head, read_head}
use circuit_agent_cloud.Submit.Wire.Laws.{Stands-start, read_compact_u16-compact_u16}
use circuit_agent_cloud.Submit.Inspect.{
  last_index, reaches, at_or_above, below_one, position, copy_into, sign_serialized_tx,
}
use circuit_agent_cloud.Submit.Transaction.{
  Transaction, concat, print_message, print_body, print_transaction, IsTransaction, signed,
}
use circuit_agent_cloud.Submit.Transaction.Parts.{
  message_of-print_transaction, read_head-print_message,
}

-- A copy overwrites bytes of its own number.
copy_into-append :
    (before old after new : List ℕ) (at : ℕ)
    → length before ≡ at
    → length old ≡ length new
    → copy_into (before ++ (old ++ after)) at new ≡ before ++ (new ++ after)
unfolding copy_into
copy_into-append before old after new at e f =
    let first = take_first at before (old ++ after) e in
    let second = drop_add at (length new) (before ++ (old ++ after)) in
    let third = drop_first at before (old ++ after) e in
    let fourth = drop_first (length new) old after f in
    let size : length (before ++ (new ++ after)) ≡ length (before ++ (old ++ after)) = omega (
      arith,
      length-append before (new ++ after),
      length-append before (old ++ after),
      length-append new after,
      length-append old after,
    ) in
    rw (first, second, third, fourth)
      (take_all (length (before ++ (old ++ after))) (before ++ (new ++ after)) size)

-- The slot of one signature among all of them.
signature_slot :
    (k : ℕ) (xs : List (List ℕ)) (i : ℕ) (new rest : List ℕ)
    → All (λ x. length x ≡ k) xs
    → i < length xs
    → (before : List ℕ) × (old : List ℕ) × (after : List ℕ) × (concat xs ++ rest
        ≡ before ++ (old ++ after))
      × (concat (set xs i new) ++ rest ≡ before ++ (new ++ after))
      × (length before ≡ i * k)
      × (length old ≡ k)
unfolding concat
signature_slot k [] i new rest a h = absurd (omega arith)
signature_slot k (x ∷ xs) zero new rest (e, a) h = (
  [],
  x,
  concat xs ++ rest,
  append_assoc x (concat xs) rest,
  append_assoc new (concat xs) rest,
  omega arith,
  e,
)
signature_slot k (x ∷ xs) (suc i) new rest (e, a) h =
    let (before, old, after, f, g, l, o) = signature_slot k xs i new rest a (omega arith) in
    (
      x ++ before,
      old,
      after,
      append_assoc x (concat xs) rest
          ∙ (ap (◌++◌ x) f ∙ sym (append_assoc x before (old ++ after))),
      append_assoc x (concat (set xs i new)) rest
          ∙ (ap (◌++◌ x) g ∙ sym (append_assoc x before (new ++ after))),
      grind (arith, length-append x before),
      o,
    )

length-set : (xs : List (List ℕ)) (i : ℕ) (v : List ℕ) → length (set xs i v) ≡ length xs
length-set [] i v = refl
length-set (x ∷ xs) zero v = refl
length-set (x ∷ xs) (suc i) v = omega (arith, length-set xs i v)

-- The copy of a signature into the printed bytes.
copy_into-print_transaction :
    (t : Transaction) (i at : ℕ) (new : List ℕ)
    → at ≡ length (compact_u16 (length t.signatures)) + i * 64
    → IsTransaction t
    → i < length t.signatures
    → length new ≡ 64
    → copy_into (print_transaction t) at new
      ≡ print_transaction (record t { signatures = set t.signatures i new })
unfolding print_transaction print_message print_body
copy_into-print_transaction t i at new place v h s =
    let m : List ℕ = print_message t in
    let count : List ℕ = compact_u16 (length t.signatures) in
    let (before, old, after, f, g, l, o) =
      signature_slot 64 t.signatures i new m v.signature_sizes h in
    let same_count = length-set t.signatures i new in
    let copied =
      copy_into-append (count ++ before) old after new at
        (omega (arith, length-append count before)) (omega arith) in
    let split = append_assoc count before (old ++ after) in
    let join = append_assoc count before (new ++ after) in
    ap (λ x. copy_into x at new) (ap (◌++◌ count) f ∙ sym split)
    ∙ (copied
        ∙ (join
            ∙ (ap (◌++◌ count) (sym g)
                ∙ ap (λ n. compact_u16 n ++ (concat (set t.signatures i new) ++ m))
                    (sym same_count))))

-- The tests and the copy of the signing, by what the reads gave.
abbrev sign_read : (List ℕ → List ℕ) → List ℕ → List ℕ → ℤ × ℤ → List ℕ → Head → Result (List ℕ)
sign_read sign raw pubkey read m h =
    fail_if (below_one read.0) 502 "submit-failed"
    >> (or_fail (last_index pubkey h.keys) 502 "submit-failed" >>= λ mine.
        fail_if (reaches mine h.num_req_sig) 502 "submit-failed"
        >> fail_if (at_or_above mine read.0) 502 "submit-failed"
        >> ok (copy_into raw (position read.1 + mine * 64) (sign m)))

sign_read-signed :
    (sign : List ℕ → List ℕ) (t : Transaction) (pubkey : List ℕ) (p : ℕ)
    → IsTransaction t
    → length (sign (print_message t)) ≡ 64
    → sign_read sign
        (print_transaction t)
        pubkey
        (pos (length t.signatures), pos (0 + length (compact_u16 (length t.signatures))))
        (print_message t)
        (record { num_req_sig = some t.num_req_sig; keys = t.keys; end = pos p })
      ≡ (signed sign t pubkey >>= λ t'. ok (print_transaction t'))
unfolding signed
sign_read-signed sign t pubkey p v s = elim (Option-cases (last_index pubkey t.keys)) [
  | inl gone ↦ rw gone (ground arith)
  | inr (i, found) ↦
      let at : ℕ = 0 + length (compact_u16 (length t.signatures)) + i * 64 in
      rw found (
        ground (arith, copy_into-print_transaction t i at (sign (print_message t)) (omega arith) v))
]

-- On the bytes of a transaction whose parts have the sizes of the format, and with signatures of 64
-- bytes, the signing gives the bytes of the same transaction with the one signature in the slot of
-- the agent's last key replaced by that of the message; it fails if the agent has no key below the
-- number of required signers, or no slot.
pub sign_serialized_tx-print_transaction :
    (sign : List ℕ → List ℕ) (t : Transaction) (pubkey : List ℕ)
    → IsTransaction t
    → length (sign (print_message t)) ≡ 64
    → sign_serialized_tx sign (print_transaction t) pubkey
      ≡ (signed sign t pubkey >>= λ t'. ok (print_transaction t'))
unfolding sign_serialized_tx print_transaction
sign_serialized_tx-print_transaction sign t pubkey v s =
    let raw : List ℕ = print_transaction t in
    let m : List ℕ = print_message t in
    let rest : List ℕ = concat t.signatures ++ m in
    let e =
      read_compact_u16-compact_u16 raw 0 (length t.signatures) rest v.signature_count
        (Stands-start raw).0 in
    let (p, h, st) = read_head-print_message t v in
    ap (λ (x : List ℕ). sign_read sign raw pubkey (read_compact_u16 raw (pos 0)) x (read_head x))
      (message_of-print_transaction t v)
    ∙ (ap (λ (x : ℤ × ℤ). sign_read sign raw pubkey x m (read_head m)) e
        ∙ (ap
              (sign_read sign raw pubkey
                (pos (length t.signatures), pos (0 + length (compact_u16 (length t.signatures)))) m)
              h
            ∙ sign_read-signed sign t pubkey p v s))
