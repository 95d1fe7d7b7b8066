-- ===== src/Reader.antt =====
-- Bounds-checked reads: the class `Reader` of raft/rpc_codec.cpp, and the
-- `if (payload.size() < offset + n) return TruncatedPayload();` lines of protocol/codec.cpp. A reader
-- is at an offset of the buffer; it is modelled by the bytes from the offset on, so that
-- `size < offset + n` is `length rest < n` and "at the end" is `[]`. The status that is returned on
-- a short buffer is an argument.
pub mod Laws
use neural_kv.Prelude.{ℕ, List, [], ◌∷◌, ltb, if◌then◌else◌, length, take, drop, Bool, true, false}
use neural_kv.Bytes.{read_u16_be, read_u32_be, read_u64_be}
use neural_kv.Status.{Status}
use neural_kv.Result.{Result, ok, err}

module _ (truncated : Status) where
  unfoldable pub read_bytes : ℕ → List ℕ → Result (List ℕ × List ℕ)
  read_bytes n rest = if ltb (length rest) n then err truncated else ok (take n rest, drop n rest)

  unfoldable pub read_u8 : List ℕ → Result (ℕ × List ℕ)
  read_u8 [] = err truncated
  read_u8 (b ∷ rest) = ok (b, rest)

  unfoldable pub read_u16 : List ℕ → Result (ℕ × List ℕ)
  read_u16 rest = if ltb (length rest) 2 then err truncated else ok (read_u16_be rest, drop 2 rest)

  unfoldable pub read_u32 : List ℕ → Result (ℕ × List ℕ)
  read_u32 rest = if ltb (length rest) 4 then err truncated else ok (read_u32_be rest, drop 4 rest)

  unfoldable pub read_u64 : List ℕ → Result (ℕ × List ℕ)
  read_u64 rest = if ltb (length rest) 8 then err truncated else ok (read_u64_be rest, drop 8 rest)

-- AtEnd()
abbrev pub at_end : List ℕ → Bool
at_end [] = true
at_end (b ∷ rest) = false
