-- ===== src/Tests/Disk.antt =====
-- The map, the log file and the durable storage, at the sample log.
use neural_kv.Prelude.{
  ℕ, ◌+◌, ◌≤◌, List, [], ◌∷◌, ◌++◌, ◌≡◌, refl, none, some, false, arith, length, take, drop, foldl,
  length-append, if◌then◌else◌, eqb,
}
use neural_kv.Status.{Status, okay, error, ErrorCode}
use neural_kv.Result.{ok}
use neural_kv.Bytes.{write_u32_be, write_u64_be, write_u64_loop}
use neural_kv.Storage.Dict.{find}
use neural_kv.Storage.ShardedKv
use neural_kv.Storage.ShardedKv.{size}
use neural_kv.Storage.ShardedKv.View.{view, empty-IsWellFormed}
use neural_kv.Storage.ShardedKv.Refinement.{Call, kv_run, spec_run, kv_run-spec_run}
use neural_kv.Storage.ShardedKv.Size.{size-set-delete}
use neural_kv.Persistence.WalRecord.{
  WalRecord, WalOp, encode_wal_record, wal_body, read_next_wal_record,
}
use neural_kv.Persistence.WalRecord.RoundTrip.{read_next_wal_record-encode}
use neural_kv.Persistence.WalRecord.Torn.{IsTorn, read_next_wal_record_torn}
use neural_kv.Persistence.Replay.{scan_file, encode_all}
use neural_kv.Persistence.Replay.Scan.{scan_file_total}
use neural_kv.Persistence.WalWriter.{WalWriter, succeeds, fails, sync, written}
use neural_kv.Persistence.WalWriter.Invariant.{Holds}
use neural_kv.Persistence.WalWriter.Durability.{sync-Holds}
use neural_kv.Persistence.WalWriter.Crash.{crash_recovery}
use neural_kv.Persistence.WalWriter.Rewrite.{all_succeed, rewrite_all-Holds}
use neural_kv.Persistence.WalWriter
use neural_kv.Persistence.Recovery.{recover_from_wal, present}
use neural_kv.Persistence.DurableStorage.{DurableStorage, returned, blocked, log_and_apply, set}
use neural_kv.Persistence.DurableStorage.Acknowledged.{alone, set_survives_crash}
use neural_kv.Persistence.DurableStorage.FailedSync.{failed_fsync_blocks}
use neural_kv.Tests.{
  set_record, delete_record, set_record_valid, two_records, two_records_held, two_records_valid,
  writer_of, by_length, new_storage, new_storage-Ready,
}

abbrev calls : List Call
calls =
    Call.set (1 ∷ []) (2 ∷ [])
    ∷ Call.set (3 ∷ []) []
    ∷ Call.get (1 ∷ [])
    ∷ Call.delete (1 ∷ [])
    ∷ Call.get (1 ∷ [])
    ∷ []

kv_run-spec_run_example : kv_run by_length calls ShardedKv.empty ≡ spec_run calls (λ j. none)
unfolding view find
kv_run-spec_run_example =
    kv_run-spec_run by_length calls ShardedKv.empty (λ j. none) empty-IsWellFormed (λ j. refl)

size-set-delete_example :
    (size (ShardedKv.set by_length (1 ∷ []) (2 ∷ []) ShardedKv.empty).1
      ≡ size ShardedKv.empty
        + elim (view by_length ShardedKv.empty (1 ∷ [])) [ none ↦ 1 | some w ↦ 0 ])
    × (size (ShardedKv.delete by_length (1 ∷ []) ShardedKv.empty).1
          + elim (view by_length ShardedKv.empty (1 ∷ [])) [ none ↦ 0 | some w ↦ 1 ]
        ≡ size ShardedKv.empty)
size-set-delete_example = size-set-delete by_length (1 ∷ []) (2 ∷ []) ShardedKv.empty refl

read_next_wal_record-encode_example :
    read_next_wal_record (encode_wal_record set_record ++ (1 ∷ 2 ∷ []))
    ≡ ok (some (set_record, 1 ∷ 2 ∷ []))
read_next_wal_record-encode_example =
    read_next_wal_record-encode set_record set_record_valid (1 ∷ 2 ∷ [])

half_cut :
    take 30 (encode_wal_record set_record) ++ (118 ∷ drop 31 (encode_wal_record set_record))
    ≡ encode_wal_record set_record
unfolding encode_wal_record wal_body write_u32_be write_u64_be write_u64_loop
half_cut = refl

-- All but the last byte of a record.
half_record : IsTorn (take 30 (encode_wal_record set_record))
half_record = record {
  torn = set_record;
  valid = set_record_valid;
  lost = 118;
  more_lost = drop 31 (encode_wal_record set_record);
  cut = half_cut;
}

read_next_wal_record_torn_example :
    read_next_wal_record (take 30 (encode_wal_record set_record)) ≡ ok none
read_next_wal_record_torn_example =
    read_next_wal_record_torn (take 30 (encode_wal_record set_record)) half_record

scan_file_total_example :
    (end : ℕ × Status) × (scan_file (λ _ (r : WalRecord). r.index) (1 ∷ 2 ∷ 3 ∷ []) 0 ≡ some end)
scan_file_total_example = scan_file_total (λ _ (r : WalRecord). r.index) (1 ∷ 2 ∷ 3 ∷ []) 0

-- Two records in the file, of which the first is synced.
abbrev half_synced : WalWriter
half_synced = record (writer_of two_records) {
  durable = length (encode_all (set_record ∷ []));
  synced_index = 1;
}

half_synced_held : Holds half_synced two_records
unfolding encode_all
half_synced_held = record {
  is_open = two_records_held.is_open;
  file_is = two_records_held.file_is;
  valid = two_records_held.valid;
  numbered = two_records_held.numbered;
  last_is = two_records_held.last_is;
  synced_le = omega arith;
  durable_le = omega (
    arith,
    length-append (encode_wal_record set_record) [],
    length-append (encode_wal_record set_record) (encode_all (delete_record ∷ [])),
  );
  durable_covers = omega arith;
}

-- A crash that cuts the second record after one byte.
crash_recovery_example :
    (kept : ℕ) × (1 ≤ kept)
    × (scan_file
          (λ (n : ℕ) (r : WalRecord). r.index)
          (take (length (encode_all (set_record ∷ [])) + 1) (encode_all two_records))
          0
        ≡ some (foldl (λ (n : ℕ) (r : WalRecord). r.index) 0 (take kept two_records), okay))
crash_recovery_example =
    crash_recovery (λ (n : ℕ) (r : WalRecord). r.index) 0 half_synced two_records
      (length (encode_all (set_record ∷ [])) + 1) half_synced_held (omega arith)

sync-Holds_example :
    let out = sync 2 (writer_of two_records) [] succeeds half_synced in
    (out.0 ≡ okay)
    × (extra : List WalRecord) × Holds out.1 (two_records ++ extra)
    × (2 ≤ length two_records → 2 ≤ out.1.synced_index)
sync-Holds_example =
    sync-Holds 2 (writer_of two_records) [] half_synced two_records half_synced_held refl tt

rewrite_all-Holds_example :
    let out = WalWriter.rewrite_all two_records all_succeed (writer_of (set_record ∷ [])) in
    (out.0 ≡ okay)
    × Holds out.1 two_records
    × (out.1.synced_index ≡ 2)
    × (out.1.flush_in_progress ≡ false)
rewrite_all-Holds_example =
    rewrite_all-Holds two_records (writer_of (set_record ∷ [])) refl two_records_valid
      (refl, (refl, tt))

set_survives_crash_example :
    (d' : DurableStorage) × (set by_length
        (107 ∷ [])
        (118 ∷ [])
        (alone succeeds (writer_of []))
        new_storage
      ≡ returned okay d')
    × ((k : ℕ)
        → d'.wal.durable ≤ k
        → (kv : ShardedKv.ShardedKv) × (recover_from_wal by_length
              (present (take k d'.wal.file))
              ShardedKv.empty
            ≡ some ((kv, 1), okay))
          × ((j : List ℕ)
              → view by_length kv j
                ≡ (if eqb (107 ∷ []) j then some (118 ∷ []) else view by_length new_storage.kv j)))
set_survives_crash_example =
    set_survives_crash by_length new_storage [] (107 ∷ []) (118 ∷ []) (writer_of [])
      new_storage-Ready
      (record {
        term_fits = omega arith;
        index_fits = omega arith;
        key_there = refl;
        key_fits = omega arith;
        value_there = λ e. refl;
        value_fits = omega arith;
      })

failed_fsync_blocks_example :
    (d' d'' : DurableStorage) × (log_and_apply by_length WalOp.set
        (107 ∷ [])
        (118 ∷ [])
        (alone (fails "disk full") (writer_of []))
        new_storage
      ≡ returned (error ErrorCode.io_error "disk full") d')
    × (log_and_apply by_length WalOp.delete (107 ∷ []) [] (alone succeeds (writer_of [])) d'
        ≡ blocked d'')
    × (d'.kv ≡ new_storage.kv)
    × (d''.kv ≡ new_storage.kv)
    × (d''.wal.last_index ≡ 2)
    × (d''.last_applied_index ≡ 0)
failed_fsync_blocks_example =
    failed_fsync_blocks by_length new_storage [] WalOp.set WalOp.delete (107 ∷ []) (118 ∷ [])
      (107 ∷ []) [] "disk full" (writer_of []) (writer_of []) new_storage-Ready
