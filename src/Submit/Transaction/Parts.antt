-- ===== src/Submit/Transaction/Parts.antt =====
-- The signatures and the header of a printed transaction, followed through the reads of
-- signer/submit.js.
use circuit_agent_cloud.Prelude.{
  ℕ, ◌+◌, ◌*◌, ◌<◌, ◌≡◌, refl, ap, ◌∙◌, inl, inr, List, [], ◌∷◌, ◌++◌, some, length, All, drop,
  append_assoc, take_first, drop_first, length-append, if◌then◌else◌, arith, Bool-cases, ℤ, pos,
}
use circuit_agent_cloud.Signer.Transfer.Message.{compact_u16}
use circuit_agent_cloud.Submit.Wire.{
  plus, times, rounds, byte_at, subarray_from, is_versioned, read_compact_u16, read_keys,
  message_of, Head, read_head,
}
use circuit_agent_cloud.Submit.Wire.Laws.{
  Stands, Stands-start, Stands-behind, read_compact_u16-Stands,
}
use circuit_agent_cloud.Submit.Transaction.{
  Transaction, concat, print_instructions, print_body, print_message, print_transaction,
  IsTransaction,
}

pub length-concat :
    (k : ℕ) (xs : List (List ℕ)) → All (λ x. length x ≡ k) xs → length (concat xs) ≡ k * length xs
unfolding concat
length-concat k [] a = omega arith
length-concat k (x ∷ xs) (e, a) = grind (arith, length-append x (concat xs), length-concat k xs a)

read_keys-concat :
    (xs : List (List ℕ)) (s : List ℕ)
    → All (λ x. length x ≡ 32) xs
    → read_keys (length xs) (concat xs ++ s) ≡ xs
unfolding read_keys concat
read_keys-concat [] s a = refl
read_keys-concat (x ∷ xs) s (e, a) =
    let f = take_first 32 x (concat xs ++ s) e in
    let b = drop_first 32 x (concat xs ++ s) e in
    let assoc = append_assoc x (concat xs) s in
    rw (assoc, f, b) (ap (◌∷◌ x) (read_keys-concat xs s a))

pub message_of-print_transaction :
    (t : Transaction) → IsTransaction t → message_of (print_transaction t) ≡ print_message t
unfolding message_of print_transaction
message_of-print_transaction t v =
    let raw : List ℕ = print_transaction t in
    let n : ℕ = length t.signatures in
    let rest : List ℕ = concat t.signatures ++ print_message t in
    let (q, e, s) = read_compact_u16-Stands raw 0 n rest v.signature_count (Stands-start raw) in
    let size = length-concat 64 t.signatures v.signature_sizes in
    let behind = Stands-behind raw q (64 * n) (concat t.signatures) (print_message t) size s in
    ap (λ (read : ℤ × ℤ). subarray_from raw (plus read.1 (times 64 read.0))) e ∙ behind.0

abbrev head_from : List ℕ → ℕ → ℤ × ℤ → Head
head_from m start read = record {
  num_req_sig = byte_at m (pos start);
  keys = read_keys (rounds read.0) (subarray_from m read.1);
  end = plus read.1 (pos (32 * rounds read.0));
}

-- The start of a message, by where its parts stand.
read_head_lem :
    (m : List ℕ) (start q : ℕ) (first : ℕ) (keys : List (List ℕ)) (s rest : List ℕ)
    → (if is_versioned m then 1 else 0) ≡ start
    → Stands m start (first ∷ s)
    → read_compact_u16 m (pos (start + 3)) ≡ (pos (length keys), pos q)
    → Stands m q (concat keys ++ rest)
    → All (λ k. length k ≡ 32) keys
    → read_head m
      ≡ record { num_req_sig = some first; keys = keys; end = pos (q + 32 * length keys) }
unfolding read_head
read_head_lem m start q first keys s rest v a e b sizes =
    let k = ap (read_keys (length keys)) b.0 ∙ read_keys-concat keys rest sizes in
    ap (λ (st : ℕ). head_from m st (read_compact_u16 m (pos (st + 3)))) v
    ∙ (ap (head_from m start) e ∙ rw (a.0, k) refl)

start_of : Transaction → ℕ
start_of t = if t.versioned then 1 else 0

-- The version byte tells where the header stands.
print_message_start :
    (t : Transaction)
    → t.num_req_sig < 128
    → ((if is_versioned (print_message t) then 1 else 0) ≡ start_of t)
      × Stands (print_message t) (start_of t) (print_body t)
unfolding start_of print_message is_versioned drop
print_message_start t h = elim (Bool-cases t.versioned) [
  | inl v ↦ rw v (refl, (refl, omega arith))
  | inr v ↦ rw v (ground arith, (refl, omega arith))
]

unfoldable pub after_keys : Transaction → List ℕ
after_keys t =
    t.blockhash
    ++ (compact_u16 (length t.instructions) ++ print_instructions t.instructions t.tables)

pub read_head-print_message :
    (t : Transaction)
    → IsTransaction t
    → (p : ℕ) × (read_head (print_message t)
        ≡ record { num_req_sig = some t.num_req_sig; keys = t.keys; end = pos p })
      × Stands (print_message t) p (after_keys t)
unfolding print_message after_keys
read_head-print_message t v =
    let m : List ℕ = print_message t in
    let start : ℕ = start_of t in
    let n : ℕ = length t.keys in
    let rest : List ℕ = concat t.keys ++ after_keys t in
    let (flag, first) = print_message_start t v.header in
    let third : Stands m (start + 3) (compact_u16 n ++ rest) =
      Stands-behind m start 3 (t.num_req_sig ∷ t.ro_signed ∷ t.ro_unsigned ∷ [])
        (compact_u16 n ++ rest) refl first in
    let (q, e, s) = read_compact_u16-Stands m (start + 3) n rest v.key_count third in
    let size = length-concat 32 t.keys v.key_sizes in
    (
      q + 32 * n,
      read_head_lem m start q t.num_req_sig t.keys
          (t.ro_signed ∷ t.ro_unsigned ∷ (compact_u16 n ++ rest)) (after_keys t) flag first e s
          v.key_sizes,
      Stands-behind m q (32 * n) (concat t.keys) (after_keys t) size s,
    )
