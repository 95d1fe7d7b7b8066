-- ===== src/Persistence/Recovery.antt =====
-- persistence/recovery.cpp: the replay of the log into the map.
pub mod View
use neural_kv.Prelude.{ℕ, String, List, [], Option, some}
use neural_kv.Status.{Status, ErrorCode, okay, error}
use neural_kv.Storage.ShardedKv
use neural_kv.Storage.ShardedKv.{ShardedKv}
use neural_kv.Persistence.WalRecord.{WalRecord, WalOp}
use neural_kv.Persistence.Replay.{scan_file}

-- What `open` on data_dir/wal/wal.log finds.
pub data LogFile : Type 0 where
  absent : LogFile
  unreadable : String → LogFile
  present : List ℕ → LogFile

module _ (hash : List ℕ → ℕ) where
  -- The `switch` on the operation; the status of the map's operation is dropped.
  unfoldable pub apply_op : WalOp → List ℕ → List ℕ → ShardedKv → ShardedKv
  apply_op WalOp.set key value kv = (ShardedKv.set hash key value kv).1
  apply_op WalOp.delete key value kv = (ShardedKv.delete hash key kv).1

  -- The body of the loop: the map, and `*last_applied_index`.
  unfoldable pub apply_record : ShardedKv × ℕ → WalRecord → ShardedKv × ℕ
  unfolding apply_op
  apply_record (kv, last) r = (apply_op r.op r.key r.value kv, r.index)

  unfoldable pub recover_from_wal : LogFile → ShardedKv → Option ((ShardedKv × ℕ) × Status)
  recover_from_wal absent kv = some ((kv, 0), okay)
  recover_from_wal (unreadable why) kv = some ((kv, 0), error ErrorCode.io_error why)
  recover_from_wal (present fd) kv = scan_file apply_record fd (kv, 0)
