-- ===== src/Persistence/WalWriter.antt =====
-- persistence/wal_writer.h and .cpp. The mutex makes the code between two waits one step. What the
-- operating system and the other threads do is an argument: the outcome of each write, fsync,
-- ftruncate and lseek, and what arrives while `Sync` waits with the mutex released.
pub mod Invariant
pub mod GroupCommit
pub mod Durability
pub mod Crash
pub mod Rewrite
use neural_kv.Prelude.{
  ℕ, zero, suc, ◌+◌, ◌-◌, String, List, [], ◌∷◌, ◌++◌, Option, none, some, Bool, true, false, not,
  ltb, ◌==◌, if◌then◌else◌, length, take,
}
use neural_kv.Status.{Status, ErrorCode, okay, error, is_ok}
use neural_kv.Result.{Result, ok, err}
use neural_kv.Persistence.WalRecord.{WalRecord, encode_wal_record}
use neural_kv.Persistence.Replay.{scan_file}

-- `file` is what the file holds for a reader, `durable` how many bytes of it the last fsync covered.
-- The descriptor, the path and the condition variable have no counterpart.
pub record WalWriter : Type 0 where
  pub file : List ℕ
  pub durable : ℕ
  pub last_index : ℕ
  pub synced_index : ℕ
  pub open_status : Status
  pub flush_in_progress : Bool
  pub fsync_count : ℕ

-- WriteAll: all bytes, or an error after the first `n` of them.
pub data WriteOutcome : Type 0 where
  written : WriteOutcome
  write_failed : ℕ → String → WriteOutcome

-- A system call that succeeds, or fails with errno's text.
pub data SysOutcome : Type 0 where
  succeeds : SysOutcome
  fails : String → SysOutcome

abbrev pub sys_status : SysOutcome → Status
sys_status succeeds = okay
sys_status (fails why) = error ErrorCode.io_error why

-- The file is opened with O_APPEND: a write goes to its end.
abbrev pub write_all : List ℕ → List ℕ → WriteOutcome → Status × List ℕ
write_all file bytes written = (okay, file ++ bytes)
write_all file bytes (write_failed n why) = (error ErrorCode.io_error why, file ++ take n bytes)

-- OpenOrCreate over a file whose bytes are there: the scan for the highest index. `none` as in
-- `scan_file`; a scan that fails leaves the status of the failure.
unfoldable pub open_or_create : List ℕ → Option WalWriter
open_or_create file = elim (scan_file (λ _ (r : WalRecord). r.index) file 0) [
  | none ↦ none
  | some (last, status) ↦ some (record {
    file = file;
    durable = length file;
    last_index = last;
    synced_index = if is_ok status then last else 0;
    open_status = status;
    flush_in_progress = false;
    fsync_count = 0;
  })
]

unfoldable pub append : WalRecord → WriteOutcome → WalWriter → Result ℕ × WalWriter
append r outcome w =
    let r' : WalRecord = record r { index = w.last_index + 1 } in
    let (status, file) = write_all w.file (encode_wal_record r') outcome in
    if not (is_ok w.open_status)
    then (err w.open_status, w)
    else if not (is_ok status)
    then (err status, record w { file = file })
    else (ok (w.last_index + 1), record w { file = file; last_index = w.last_index + 1 })

unfoldable pub fsync_now : SysOutcome → WalWriter → Status × WalWriter
fsync_now succeeds w = (okay, record w { durable = length w.file; fsync_count = w.fsync_count + 1 })
fsync_now (fails why) w = (error ErrorCode.io_error why, w)

-- One `wait_until` of the batch leader: whether the deadline had passed before it, and what other
-- threads append meanwhile.
pub record Tick : Type 0 where
  pub past_deadline : Bool
  pub arrivals : List (WalRecord × WriteOutcome)

unfoldable pub arrive : List (WalRecord × WriteOutcome) → WalWriter → WalWriter
unfolding append
arrive [] w = w
arrive ((r, outcome) ∷ rest) w = arrive rest (append r outcome w).1

-- kGroupCommitMaxRecords
abbrev pub max_records : ℕ
max_records = 16

-- The leader's loop. The ticks are those that fit before the deadline: when they are used up, it has
-- passed.
unfoldable pub group_wait : List Tick → ℕ → WalWriter → WalWriter
unfolding arrive
group_wait [] observed w = w
group_wait (t ∷ ts) observed w =
    let w' = arrive t.arrivals w in
    let go_on = group_wait ts w'.last_index w' in
    if not (ltb (w.last_index - w.synced_index) max_records)
    then w
    else if t.past_deadline
    then w
    else if w'.last_index == observed
    then w'
    else go_on

-- From `flush_in_progress_ = true` on: this thread is the batch leader.
unfoldable pub lead_flush : ℕ → List Tick → SysOutcome → WalWriter → Status × WalWriter
unfolding group_wait fsync_now
lead_flush at_least ticks outcome w =
    let waited = group_wait ticks w.last_index (record w { flush_in_progress = true }) in
    let (status, flushed) = fsync_now outcome waited in
    if is_ok status
    then (okay, record flushed { synced_index = flushed.last_index; flush_in_progress = false })
    else (status, record flushed { flush_in_progress = false })

-- Sync. `wake` is the writer as it stands when the wait for another leader ends.
unfoldable pub sync : ℕ → WalWriter → List Tick → SysOutcome → WalWriter → Status × WalWriter
unfolding lead_flush
sync at_least wake ticks outcome w =
    if not (is_ok w.open_status)
    then (w.open_status, w)
    else if not (ltb w.synced_index at_least)
    then (okay, w)
    else if not w.flush_in_progress
    then lead_flush at_least ticks outcome w
    else if not (ltb wake.synced_index at_least)
    then (okay, wake)
    else lead_flush at_least ticks outcome wake

-- The writes of RewriteAll, each with its outcome; a missing outcome is a success.
unfoldable pub write_records : List WalRecord → List WriteOutcome → List ℕ → Status × List ℕ
write_records [] outcomes file = (okay, file)
write_records (r ∷ rs) [] file = write_records rs [] (file ++ encode_wal_record r)
write_records (r ∷ rs) (written ∷ os) file = write_records rs os (file ++ encode_wal_record r)
write_records (r ∷ rs) (write_failed n why ∷ os) file =
    (error ErrorCode.io_error why, file ++ take n (encode_wal_record r))

abbrev pub back_index : List WalRecord → ℕ
back_index [] = 0
back_index (r ∷ []) = r.index
back_index (r ∷ r' ∷ rs) = back_index (r' ∷ rs)

-- The system calls of one RewriteAll.
pub record RewriteOutcome : Type 0 where
  pub truncate : SysOutcome
  pub seek : SysOutcome
  pub writes : List WriteOutcome
  pub flush : SysOutcome

unfoldable pub rewrite_all : List WalRecord → RewriteOutcome → WalWriter → Status × WalWriter
unfolding fsync_now
rewrite_all rs o w =
    let emptied : WalWriter = record w { file = []; durable = 0 } in
    let (write_status, file) = write_records rs o.writes [] in
    let (flush_status, flushed) = fsync_now o.flush (record emptied { file = file }) in
    let last = back_index rs in
    if not (is_ok w.open_status)
    then (w.open_status, w)
    else if not (is_ok (sys_status o.truncate))
    then (sys_status o.truncate, w)
    else if not (is_ok (sys_status o.seek))
    then (sys_status o.seek, emptied)
    else if not (is_ok write_status)
    then (write_status, record emptied { file = file })
    else if not (is_ok flush_status)
    then (flush_status, flushed)
    else (okay, record flushed { last_index = last; synced_index = last })
