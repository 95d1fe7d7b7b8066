-- ===== src/Persistence/Replay.antt =====
-- The loop `while (true) { ReadNextWalRecord ...; if (!has_record) break; ... }` of
-- persistence/recovery.cpp, of raft::Log::Load and of WalWriter::OpenOrCreate, with what it does with
-- a record as an argument.
pub mod Scan
use neural_kv.Prelude.{
  ℕ, zero, suc, ◌+◌, ◌<◌, ◌≡◌, refl, List, [], ◌∷◌, ◌++◌, Option, none, some, arith, length, All,
  foldl,
}
use neural_kv.Status.{Status, okay}
use neural_kv.Result.{Result, ok, err}
use neural_kv.Persistence.WalRecord.{
  WalRecord, encode_wal_record, ReadRecord, read_next_wal_record, IsValidRecord,
}

-- `none` is no value of the source: the fuel ran out. A round that goes on takes a byte at least, so
-- that one round more than there are bytes is enough (Replay/Scan).
unfoldable pub scan_wal {ℓ} :
    {S : Type ℓ} → ℕ → (S → WalRecord → S) → List ℕ → S → Option (S × Status)
scan_wal zero step fd s = none
scan_wal (suc fuel) step fd s = elim (read_next_wal_record fd) [
  | err status ↦ some (s, status)
  | ok none ↦ some (s, okay)
  | ok (some (r, rest)) ↦ scan_wal fuel step rest (step s r)
]

-- The whole file.
unfoldable pub scan_file {ℓ} : {S : Type ℓ} → (S → WalRecord → S) → List ℕ → S → Option (S × Status)
scan_file step fd s = scan_wal (suc (length fd)) step fd s

-- The file that appending `rs` one after the other leaves.
unfoldable pub encode_all : List WalRecord → List ℕ
encode_all [] = []
encode_all (r ∷ rs) = encode_wal_record r ++ encode_all rs
