-- ===== src/Tests.antt =====
-- Concrete inputs: the sample log, writer, storage and node that the examples of the modules below use.
mod Wire
mod Disk
mod Consensus
mod Serving
mod Elected
mod Histories
mod Network
mod Workers
mod Configured
use neural_kv.Prelude.{ℕ, List, [], ◌∷◌, ◌≡◌, refl, none, some, true, false, arith, length, All}
use neural_kv.Status.{okay}
use neural_kv.Storage.ShardedKv
use neural_kv.Storage.Dict.{find}
use neural_kv.Storage.ShardedKv.View.{view, empty-IsWellFormed}
use neural_kv.Persistence.WalRecord.{WalRecord, WalOp, IsValidRecord}
use neural_kv.Persistence.Replay.{encode_all}
use neural_kv.Persistence.WalWriter.{WalWriter}
use neural_kv.Persistence.WalWriter.Invariant.{Holds}
use neural_kv.Persistence.Recovery.View.{spec_replay}
use neural_kv.Persistence.DurableStorage.{DurableStorage}
use neural_kv.Persistence.DurableStorage.Acknowledged.{Ready}

abbrev pub set_record : WalRecord
set_record = record { term = 1; index = 1; op = WalOp.set; key = 107 ∷ []; value = 118 ∷ 119 ∷ [] }

abbrev pub delete_record : WalRecord
delete_record = record { term = 2; index = 2; op = WalOp.delete; key = 107 ∷ []; value = [] }

abbrev pub two_records : List WalRecord
two_records = set_record ∷ delete_record ∷ []

pub set_record_valid : IsValidRecord set_record
set_record_valid = record {
  term_fits = omega arith;
  index_fits = omega arith;
  key_there = refl;
  key_fits = omega arith;
  value_there = λ e. refl;
  value_fits = omega arith;
}

pub delete_record_valid : IsValidRecord delete_record
delete_record_valid = record {
  term_fits = omega arith;
  index_fits = omega arith;
  key_there = refl;
  key_fits = omega arith;
  value_there = λ e. cc;
  value_fits = omega arith;
}

-- A writer whose file holds the records, all of them synced.
abbrev pub writer_of : List WalRecord → WalWriter
writer_of rs = record {
  file = encode_all rs;
  durable = length (encode_all rs);
  last_index = length rs;
  synced_index = length rs;
  open_status = okay;
  flush_in_progress = false;
  fsync_count = 0;
}

pub two_records_valid : All IsValidRecord two_records
two_records_valid = (set_record_valid, (delete_record_valid, tt))

pub two_records_held : Holds (writer_of two_records) two_records
two_records_held = record {
  is_open = refl;
  file_is = refl;
  valid = two_records_valid;
  numbered = (refl, (refl, tt));
  last_is = refl;
  synced_le = omega arith;
  durable_le = omega arith;
  durable_covers = omega arith;
}

pub nothing_held : Holds (writer_of []) []
unfolding encode_all
nothing_held = record {
  is_open = refl;
  file_is = refl;
  valid = tt;
  numbered = tt;
  last_is = refl;
  synced_le = omega arith;
  durable_le = omega arith;
  durable_covers = omega arith;
}

-- A hash function.
abbrev pub by_length : List ℕ → ℕ
by_length key = length key

abbrev pub new_storage : DurableStorage
new_storage = record { kv = ShardedKv.empty; wal = writer_of []; last_applied_index = 0 }

pub new_storage-Ready : Ready by_length new_storage []
unfolding view find
new_storage-Ready = record {
  log = nothing_held;
  idle = refl;
  map_formed = empty-IsWellFormed;
  applied = refl;
  shows = λ j. unfold spec_replay in refl;
}
