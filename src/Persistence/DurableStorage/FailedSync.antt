-- ===== src/Persistence/DurableStorage/FailedSync.antt =====
-- What a failed fsync does to the storage.
use neural_kv.Prelude.{ℕ, true, false, ◌+◌, ◌<◌, ◌≤◌, ◌≡◌, refl, String, List, arith, length}
use neural_kv.Status.{ErrorCode, error, is_ok}
use neural_kv.Persistence.WalRecord.{WalRecord, WalOp}
use neural_kv.Persistence.WalWriter.{WalWriter, written, succeeds, fails, append, sync, lead_flush}
use neural_kv.Persistence.DurableStorage.{DurableStorage, returned, blocked, log_and_apply}
use neural_kv.Persistence.DurableStorage.Acknowledged.{Ready, alone}

abbrev entry : WalOp → List ℕ → List ℕ → WalRecord
entry op key value = record { term = 0; index = 0; op = op; key = key; value = value }

-- What the steps below read of the writer.
record IsIdle (w : WalWriter) : Type 0 where
  opened : is_ok w.open_status ≡ true
  idle : w.flush_in_progress ≡ false
  behind : w.synced_index ≤ w.last_index

module _ (hash : List ℕ → ℕ) (d : DurableStorage) (op : WalOp) (key value : List ℕ)
    (wake : WalWriter) (i : IsIdle d.wal) where
  abbrev appended : WalWriter
  appended = (append (entry op key value) written d.wal).1

  write_fails :
      (why : String)
      → log_and_apply hash op key value (alone (fails why) wake) d
        ≡ returned
            (error ErrorCode.io_error why)
            (record d { wal = record appended { flush_in_progress = false } })
  unfolding log_and_apply append sync lead_flush
  write_fails why = ground (arith, i.opened, i.idle, i.behind)

  write_blocks :
      d.last_applied_index < d.wal.last_index
      → log_and_apply hash op key value (alone succeeds wake) d
        ≡ blocked (record d {
          wal = record appended {
            durable = length appended.file;
            fsync_count = appended.fsync_count + 1;
            synced_index = appended.last_index;
            flush_in_progress = false;
          };
        })
  unfolding log_and_apply append sync lead_flush
  write_blocks stuck = ground (arith, i.opened, i.idle, i.behind)

-- Of a storage that has applied all that its log holds, with no other thread about: when the fsync
-- of a write fails, the write returns the I/O error, and the next write, whose own write and fsync
-- succeed, waits for a turn that does not come: `last_applied_index_` stays one behind the index
-- that the failed write was given.
pub failed_fsync_blocks :
    (hash : List ℕ → ℕ) (d : DurableStorage) (rs : List WalRecord) (op op' : WalOp)
    (key value key' value' : List ℕ) (why : String) (wake wake' : WalWriter)
    → Ready hash d rs
    → (d' d'' : DurableStorage) × (log_and_apply hash op key value (alone (fails why) wake) d
        ≡ returned (error ErrorCode.io_error why) d')
      × (log_and_apply hash op' key' value' (alone succeeds wake') d' ≡ blocked d'')
      × (d'.kv ≡ d.kv)
      × (d''.kv ≡ d.kv)
      × (d''.wal.last_index ≡ length rs + 2)
      × (d''.last_applied_index ≡ length rs)
unfolding append
failed_fsync_blocks hash d rs op op' key value key' value' why wake wake' ready =
    let w = ready.log in
    let i : IsIdle d.wal = record {
      opened = w.is_open;
      idle = ready.idle;
      behind = omega (arith, w.synced_le, w.last_is);
    } in
    let d' : DurableStorage = record d {
      wal = record (append (entry op key value) written d.wal).1 { flush_in_progress = false };
    } in
    let i' : IsIdle d'.wal = record {
      opened = ground (arith, w.is_open);
      idle = refl;
      behind = ground (arith, w.is_open, w.synced_le, w.last_is);
    } in
    (
      d',
      _,
      write_fails hash d op key value wake i why,
      write_blocks hash d' op' key' value' wake' i'
          (ground (arith, w.is_open, w.last_is, ready.applied)),
      refl,
      refl,
      ground (arith, w.is_open, w.last_is),
      ready.applied,
    )
