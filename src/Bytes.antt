-- ===== src/Bytes.antt =====
-- The big-endian helpers of protocol/codec.cpp, of which raft/rpc_codec.cpp and
-- persistence/wal_record.cpp hold copies. A `uint8_t` is a number below 256, a buffer the list of
-- its bytes. A writer returns the bytes that the source pushes to the back of `out`; a reader is
-- given the bytes from `p` on.
pub mod RoundTrip
pub mod Inverse
use neural_kv.Prelude.{
  ℕ, zero, suc, ◌+◌, ◌*◌, ◌/◌, ◌%◌, ◌^◌, ◌<◌, bit_or, List, [], ◌∷◌, foldl, take,
}

abbrev pub IsByte : ℕ → Type 0
IsByte b = b < 256

abbrev pub IsU16 : ℕ → Type 0
IsU16 v = v < 2 ^ 16

abbrev pub IsU32 : ℕ → Type 0
IsU32 v = v < 2 ^ 32

abbrev pub IsU64 : ℕ → Type 0
IsU64 v = v < 2 ^ 64

-- static_cast<uint8_t>(value >> shift)
abbrev pub byte_at : ℕ → ℕ → ℕ
byte_at v shift = v / 2 ^ shift % 256

unfoldable pub write_u16_be : ℕ → List ℕ
write_u16_be v = byte_at v 8 ∷ byte_at v 0 ∷ []

unfoldable pub write_u32_be : ℕ → List ℕ
write_u32_be v = byte_at v 24 ∷ byte_at v 16 ∷ byte_at v 8 ∷ byte_at v 0 ∷ []

-- The rounds of `for (int shift = 56; shift >= 0; shift -= 8)` that are left.
unfoldable pub write_u64_loop : ℕ → ℕ → List ℕ
write_u64_loop zero v = []
write_u64_loop (suc n) v = byte_at v (8 * n) ∷ write_u64_loop n v

unfoldable pub write_u64_be : ℕ → List ℕ
unfolding write_u64_loop
write_u64_be v = write_u64_loop 8 v

-- The callers have checked that the bytes are there: a shorter list is never read.
unfoldable pub read_u16_be : List ℕ → ℕ
read_u16_be (a ∷ b ∷ rest) = bit_or (a * 2 ^ 8) b
read_u16_be _ = 0

unfoldable pub read_u32_be : List ℕ → ℕ
read_u32_be (a ∷ b ∷ c ∷ d ∷ rest) =
    bit_or (bit_or (bit_or (a * 2 ^ 24) (b * 2 ^ 16)) (c * 2 ^ 8)) d
read_u32_be _ = 0

-- value = (value << 8) | p[i], in a uint64_t
unfoldable pub read_u64_step : ℕ → ℕ → ℕ
read_u64_step v b = bit_or (v % 2 ^ 56 * 2 ^ 8) b

unfoldable pub read_u64_be : List ℕ → ℕ
read_u64_be p = foldl read_u64_step 0 (take 8 p)
