-- ===== src/Signer/Transfer/Message.antt =====
-- signer/withdraw.js: `compactU16` and `buildSolTransferMessage`, over bytes; and a reader of the
-- legacy message format, which the code does not contain.
use circuit_agent_cloud.Prelude.{
  ℕ, zero, suc, ◌+◌, ◌*◌, ◌/◌, ◌%◌, List, [], ◌∷◌, ◌++◌, Option, none, some, nat_eq, if◌then◌else◌,
  length, ◌&&◌,
}
use circuit_agent_cloud.Base58.{replicate}

-- The loop of `compactU16`: seven bits a byte, low first, with the top bit on all but the last.
unfoldable pub compact_fuel : ℕ → ℕ → List ℕ
compact_fuel zero v = []
compact_fuel (suc f) v =
    let rest = (v % 128 + 128) ∷ compact_fuel f (v / 128) in
    if nat_eq (v / 128) 0 then (v % 128) ∷ [] else rest

-- A 32-bit number has at most five groups.
unfoldable pub compact_u16 : ℕ → List ℕ
unfolding compact_fuel
compact_u16 n = compact_fuel 5 n

-- `writeUInt32LE`, `writeBigUInt64LE`: the low bytes of a number.
unfoldable pub little_endian : ℕ → ℕ → List ℕ
little_endian zero n = []
little_endian (suc k) n = (n % 256) ∷ little_endian k (n / 256)

unfoldable pub build_message : List ℕ → List ℕ → ℕ → List ℕ → List ℕ
unfolding compact_u16 little_endian
build_message from to lamports blockhash =
    1 ∷ 0 ∷ 1 ∷ compact_u16 3
    ++ (from
        ++ (to
            ++ (replicate 32 0
                ++ (blockhash
                    ++ (compact_u16 1
                        ++ (2 ∷ compact_u16 2
                            ++ (0 ∷ 1 ∷ compact_u16 12
                                ++ (little_endian 4 2 ++ little_endian 8 lamports))))))))

-- The guard on the three lengths.
unfoldable pub build_sol_transfer_message : List ℕ → List ℕ → ℕ → List ℕ → Option (List ℕ)
unfolding build_message
build_sol_transfer_message from to lamports blockhash =
    if nat_eq (length from) 32 && nat_eq (length to) 32 && nat_eq (length blockhash) 32
    then some (build_message from to lamports blockhash)
    else none

-- The reader: what a Solana node takes the bytes for.
unfoldable pub split_at : ℕ → List ℕ → Option (List ℕ × List ℕ)
split_at zero xs = some ([], xs)
split_at (suc n) [] = none
split_at (suc n) (x ∷ xs) = elim (split_at n xs) [ none ↦ none | some (a, b) ↦ some (x ∷ a, b) ]

unfoldable pub of_little_endian : List ℕ → ℕ
of_little_endian [] = 0
of_little_endian (b ∷ bs) = b + 256 * of_little_endian bs

abbrev pub then_do : {A : Type 0} {B : Type 0} → Option A → (A → Option B) → Option B
then_do none f = none
then_do (some a) f = f a

-- The recipient, the lamports and the sender that a transfer with one signer names, with the
-- blockhash: header 1 0 1, three keys of which the last is the System program (32 zero bytes), and
-- one instruction of program 2 on the accounts 0 and 1, with number 2 (Transfer).
pub record Transfer : Type 0 where
  pub from : List ℕ
  pub to : List ℕ
  pub lamports : ℕ
  pub blockhash : List ℕ

unfoldable pub expect : List ℕ → List ℕ → Option (List ℕ)
expect [] xs = some xs
expect (w ∷ ws) [] = none
expect (w ∷ ws) (x ∷ xs) = if nat_eq w x then expect ws xs else none

unfoldable pub read_amount : List ℕ → List ℕ → List ℕ → List ℕ → Option Transfer
unfolding of_little_endian
read_amount from to blockhash bytes =
    if nat_eq (length bytes) 8
    then some
        (record { from = from; to = to; lamports = of_little_endian bytes; blockhash = blockhash })
    else none

unfoldable pub read_message : List ℕ → Option Transfer
unfolding expect split_at read_amount
read_message bytes = then_do (expect (1 ∷ 0 ∷ 1 ∷ 3 ∷ []) bytes) λ r0.
    then_do (split_at 32 r0) λ k0. then_do (split_at 32 k0.1) λ k1.
      then_do (expect (replicate 32 0) k1.1) λ r1. then_do (split_at 32 r1) λ k2.
        then_do (expect (1 ∷ 2 ∷ 2 ∷ 0 ∷ 1 ∷ 12 ∷ 2 ∷ 0 ∷ 0 ∷ 0 ∷ []) k2.1)
          λ r2. read_amount k0.0 k1.0 k2.0 r2
