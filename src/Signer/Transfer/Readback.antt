-- ===== src/Signer/Transfer/Readback.antt =====
-- The hand-built transfer message reads back as the transfer that was asked for.
use circuit_agent_cloud.Prelude.{
  ℕ, zero, suc, ◌^◌, ◌<◌, ◌≡◌, refl, List, [], ◌∷◌, ◌++◌, some, length, arith,
}
use circuit_agent_cloud.Signer.Transfer.Message.{
  little_endian, build_message, build_sol_transfer_message, split_at, of_little_endian, expect,
  read_amount, read_message, then_do,
}

split_at-append : (n : ℕ) (xs ys : List ℕ) → length xs ≡ n → split_at n (xs ++ ys) ≡ some (xs, ys)
unfolding split_at
split_at-append zero [] ys h = refl
split_at-append zero (x ∷ xs) ys h = absurd (omega arith)
split_at-append (suc n) [] ys h = absurd (omega arith)
split_at-append (suc n) (x ∷ xs) ys h = ground (arith, split_at-append n xs ys)

expect-append : (ws xs : List ℕ) → expect ws (ws ++ xs) ≡ some xs
unfolding expect
expect-append [] xs = refl
expect-append (w ∷ ws) xs = ground (arith, expect-append ws xs)

value_of_bytes : (n : ℕ) → n < 2 ^ 64 → of_little_endian (little_endian 8 n) ≡ n
unfolding of_little_endian little_endian
value_of_bytes n h = omega arith

read_amount-bytes :
    (from to blockhash : List ℕ) (lamports : ℕ)
    → lamports < 2 ^ 64
    → read_amount from to blockhash (little_endian 8 lamports)
      ≡ some (record { from = from; to = to; lamports = lamports; blockhash = blockhash })
unfolding read_amount little_endian
read_amount-bytes from to blockhash lamports h = ground (arith, value_of_bytes lamports h)

read_message-build_message :
    (from to blockhash : List ℕ) (lamports : ℕ)
    → length from ≡ 32
    → length to ≡ 32
    → length blockhash ≡ 32
    → lamports < 2 ^ 64
    → read_message (build_message from to lamports blockhash)
      ≡ some (record { from = from; to = to; lamports = lamports; blockhash = blockhash })
unfolding read_message build_message
read_message-build_message from to blockhash lamports hf ht hb hl =
    rw (split_at-append 32 from _ hf) (
      rw (split_at-append 32 to _ ht)
        (rw (split_at-append 32 blockhash _ hb) (read_amount-bytes from to blockhash lamports hl)))

-- For three keys of 32 bytes and an amount of lamports below 2^64, a reader of the legacy message
-- format finds in the hand-built bytes exactly the sender, the recipient, the amount and the
-- blockhash that went in.
pub read_message-build_sol_transfer_message :
    (from to blockhash : List ℕ) (lamports : ℕ)
    → length from ≡ 32
    → length to ≡ 32
    → length blockhash ≡ 32
    → lamports < 2 ^ 64
    → then_do (build_sol_transfer_message from to lamports blockhash) read_message
      ≡ some (record { from = from; to = to; lamports = lamports; blockhash = blockhash })
unfolding build_sol_transfer_message
read_message-build_sol_transfer_message from to blockhash lamports hf ht hb hl =
    ground (arith, read_message-build_message from to blockhash lamports hf ht hb hl)
