-- ===== src/Submit/Wire.antt =====
-- signer/submit.js: `readCompactU16` and the reads of a message. A buffer is a list of bytes; a read
-- out of its range gives `undefined`, which the bit operations take for 0. Numbers of the source that
-- pass through a 32-bit operation may be negative, and so may the positions that are made of them.
pub mod Laws
use Prim.Native.Nat.{bit_or}
use circuit_agent_cloud.Prelude.{
  ℕ, zero, suc, ◌+◌, ◌-◌, ◌*◌, ◌%◌, ◌^◌, Bool, true, false, List, [], ◌∷◌, Option, none, some,
  length, take, drop, leb, ltb, if◌then◌else◌, ℤ, pos, negsuc,
}

unfoldable pub difference : ℕ → ℕ → ℤ
difference a b = if leb b a then pos (a - b) else negsuc (b - a - 1)

unfoldable pub plus : ℤ → ℤ → ℤ
unfolding difference
plus (pos a) (pos b) = pos (a + b)
plus (pos a) (negsuc b) = difference a (b + 1)
plus (negsuc a) (pos b) = difference b (a + 1)
plus (negsuc a) (negsuc b) = negsuc (a + b + 1)

unfoldable pub times : ℕ → ℤ → ℤ
times k (pos a) = pos (k * a)
times k (negsuc a) = negsuc (k * (a + 1) - 1)

-- The rounds of a loop `for (let i = 0; i < n; i++)`.
unfoldable pub rounds : ℤ → ℕ
rounds (pos n) = n
rounds (negsuc n) = 0

-- What a 32-bit operation makes of its bits.
unfoldable pub to_int32 : ℕ → ℤ
to_int32 v = if ltb v (2 ^ 31) then pos v else negsuc (2 ^ 32 - v - 1)

abbrev pub head : List ℕ → Option ℕ
head [] = none
head (b ∷ rest) = some b

-- `buf[p]`.
unfoldable pub byte_at : List ℕ → ℤ → Option ℕ
byte_at m (pos p) = head (drop p m)
byte_at m (negsuc p) = none

-- `buf.subarray(p)`: a negative start counts from the end.
unfoldable pub subarray_from : List ℕ → ℤ → List ℕ
subarray_from m (pos p) = drop p m
subarray_from m (negsuc p) = drop (length m - (p + 1)) m

-- The loop of `readCompactU16`, from the position on: the bits of the value, and the bytes passed.
unfoldable pub read_groups : List ℕ → ℕ → ℕ → ℕ × ℕ
read_groups [] shift val = (val, 1)
read_groups (b ∷ rest) shift val =
    let val' : ℕ = bit_or val ((b % 128) * 2 ^ (shift % 32) % 2 ^ 32) in
    let more : ℕ × ℕ = read_groups rest (shift + 7) val' in
    if ltb b 128 then (val', 1) else (more.0, more.1 + 1)

-- The value, and the position behind it.
unfoldable pub read_compact_u16 : List ℕ → ℤ → ℤ × ℤ
unfolding read_groups to_int32 plus
read_compact_u16 m (pos p) =
    let read : ℕ × ℕ = read_groups (drop p m) 0 0 in (to_int32 read.0, pos (p + read.1))
read_compact_u16 m (negsuc p) = (pos 0, plus (negsuc p) (pos 1))

-- The signatures are left behind: `raw.subarray(sigStart + sigCount * 64)`.
unfoldable pub message_of : List ℕ → List ℕ
unfolding read_compact_u16 plus times subarray_from
message_of raw =
    let read : ℤ × ℤ = read_compact_u16 raw (pos 0) in
    subarray_from raw (plus read.1 (times 64 read.0))

-- `(m[0] & 0x80) !== 0`.
unfoldable pub is_versioned : List ℕ → Bool
is_versioned [] = false
is_versioned (b ∷ rest) = leb 128 b

-- `m.subarray(p, p + 32)`, `count` times on.
unfoldable pub read_keys : ℕ → List ℕ → List (List ℕ)
read_keys zero bytes = []
read_keys (suc n) bytes = take 32 bytes ∷ read_keys n (drop 32 bytes)

-- The start of a message: the number of signers, the static keys, and the position behind them.
pub record Head : Type 0 where
  pub num_req_sig : Option ℕ
  pub keys : List (List ℕ)
  pub end : ℤ

unfoldable pub read_head : List ℕ → Head
unfolding is_versioned byte_at read_compact_u16 subarray_from rounds read_keys plus times
read_head m =
    let start = if is_versioned m then 1 else 0 in
    let read : ℤ × ℤ = read_compact_u16 m (pos (start + 3)) in
    record {
      num_req_sig = byte_at m (pos start);
      keys = read_keys (rounds read.0) (subarray_from m read.1);
      end = plus read.1 (pos (32 * rounds read.0));
    }
