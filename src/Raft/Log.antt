-- ===== src/Raft/Log.antt =====
-- raft/log.h and raft/log.cpp: the log in memory and the writer that it borrows from the storage. The
-- directory's name has no counterpart. RaftNode serializes the calls.
pub mod Laws
use neural_kv.Prelude.{
  ℕ, zero, ◌-◌, List, [], ◌∷◌, ◌++◌, Option, none, some, not, ◌==◌, ◌||◌, ltb, leb, if◌then◌else◌,
  length, get_elem?, drop,
}
use neural_kv.Status.{Status, ErrorCode, okay, error, is_ok}
use neural_kv.Result.{Result, ok, err}
use neural_kv.Protocol.{invalid}
use neural_kv.Persistence.WalRecord.{WalRecord}
use neural_kv.Persistence.WalWriter.{
  WalWriter, WriteOutcome, SysOutcome, Tick, RewriteOutcome, sync, rewrite_all, back_index,
}
use neural_kv.Persistence.WalWriter
use neural_kv.Persistence.Replay.{scan_file}
use neural_kv.Persistence.Recovery.{LogFile, absent, unreadable, present}
use neural_kv.Raft.{LogEntry}

pub record Log : Type 0 where
  pub entries : List LogEntry
  pub wal : WalWriter

-- What the operating system and the writer's other callers do during one Append.
pub record AppendIo : Type 0 where
  pub write : WriteOutcome
  pub wake : WalWriter
  pub ticks : List Tick
  pub flush : SysOutcome

-- Load: the entries read, and the status; `none` as in `scan_file`.
unfoldable pub load : LogFile → Option (List LogEntry × Status)
load absent = some ([], okay)
load (unreadable why) = some ([], error ErrorCode.io_error why)
load (present file) = scan_file (λ entries (r : WalRecord). entries ++ (r ∷ [])) file []

-- Append: the entry with its index, or the status.
unfoldable pub append : LogEntry → AppendIo → Log → Result LogEntry × Log
append entry io log =
    let (appended, w₁) = WalWriter.append entry io.write log.wal in
    elim appended [
      | err status ↦ (err status, record log { wal = w₁ })
      | ok index ↦
          let (status, w₂) = sync index io.wake io.ticks io.flush w₁ in
          let numbered : LogEntry = record entry { index = index } in
          if not (is_ok status)
          then (err status, record log { wal = w₂ })
          else (ok numbered, record { entries = log.entries ++ (numbered ∷ []); wal = w₂ })
    ]

-- `while (!entries_.empty() && entries_.back().index >= from_index) entries_.pop_back();`
unfoldable pub pop_from : ℕ → List LogEntry → List LogEntry
pop_from from [] = []
pop_from from (e ∷ es) = elim (pop_from from es) [
  | [] ↦ if leb from e.index then [] else e ∷ []
  | e' ∷ kept ↦ e ∷ e' ∷ kept
]

unfoldable pub truncate_from : ℕ → RewriteOutcome → Log → Status × Log
unfolding pop_from
truncate_from from outcome log =
    let kept = pop_from from log.entries in
    let (status, w) = rewrite_all kept outcome log.wal in
    if from == 0
    then (invalid "TruncateFrom(0) would drop the entire log", log)
    else (status, record { entries = kept; wal = w })

unfoldable pub get : ℕ → List LogEntry → Option LogEntry
get index entries =
    if (index == 0) || ltb (length entries) index
    then none
    else elim (get_elem? entries (index - 1)) [
      | none ↦ none
      | some entry ↦ if not (entry.index == index) then none else some entry
    ]

unfoldable pub entries_from : ℕ → List LogEntry → List LogEntry
entries_from index entries =
    if (index == 0) || ltb (length entries) index then [] else drop (index - 1) entries

-- LastIndex
abbrev pub last_index : List LogEntry → ℕ
last_index entries = back_index entries

-- LastTerm
abbrev pub last_term : List LogEntry → ℕ
last_term [] = 0
last_term (e ∷ []) = e.term
last_term (e ∷ e' ∷ es) = last_term (e' ∷ es)
