-- ===== src/Raft/Log/Laws.antt =====
-- The log in memory and the log on disk hold the same entries, numbered from 1.
use neural_kv.Prelude.{
  ℕ, zero, suc, ◌+◌, ◌-◌, ◌⊎◌, inl, inr, ◌≤◌, ◌<◌, ◌≡◌, refl, sym, ap, ◌∙◌, subst, List, [], ◌∷◌,
  ◌++◌, some, Bool, true, false, arith, length, get_elem?, take, All, All-take, leb, if◌then◌else◌,
  ◌==◌, append-nil, append_assoc, foldl,
}
use neural_kv.Status.{okay}
use neural_kv.Result.{ok}
use neural_kv.Persistence.WalRecord.{WalRecord, IsValidRecord}
use neural_kv.Persistence.WalWriter.{
  WalWriter, written, succeeds, sync, lead_flush, group_wait, fsync_now, rewrite_all, write_records,
  back_index,
}
use neural_kv.Persistence.WalWriter
use neural_kv.Persistence.WalWriter.Invariant.{Numbered, Holds, append-Holds, numbered_record}
use neural_kv.Persistence.WalWriter.GroupCommit.{flushed-Holds}
use neural_kv.Persistence.WalWriter.Rewrite.{all_succeed, rewrite_all-Holds}
use neural_kv.Persistence.WalWriter.Crash.{nothing-IsTorn}
use neural_kv.Persistence.Replay.{scan_file}
use neural_kv.Persistence.Replay.{encode_all}
use neural_kv.Persistence.Replay.Scan.{scan_file-encode_all}
use neural_kv.Persistence.Recovery.{present}
use neural_kv.Raft.{LogEntry}
use neural_kv.Raft.Log.{Log, load, append, pop_from, truncate_from, get}

pub record InStep (log : Log) : Type 0 where
  pub on_disk : Holds log.wal log.entries
  pub idle : log.wal.flush_in_progress ≡ false

pub Numbered-take : (n k : ℕ) (es : List LogEntry) → Numbered n es → Numbered n (take k es)
Numbered-take n zero es h = tt
Numbered-take n (suc k) [] h = tt
Numbered-take n (suc k) (e ∷ es) h = (h.0, Numbered-take (suc n) k es h.1)

get_elem?-Numbered :
    (n i : ℕ) (es : List LogEntry)
    → Numbered n es
    → i < length es
    → (e : LogEntry) × (get_elem? es i ≡ some e) × (e.index ≡ n + i)
get_elem?-Numbered n i [] h small = absurd (omega arith)
get_elem?-Numbered n zero (e ∷ es) h small = (e, refl, omega (arith, h.0))
get_elem?-Numbered n (suc i) (e ∷ es) h small =
    let (e', found, at) = get_elem?-Numbered (suc n) i es h.1 (omega arith) in
    (e', found, omega arith)

-- In a log numbered from 1, Get finds every index from 1 to the length, and the entry found has it.
pub get-Numbered :
    (i : ℕ) (es : List LogEntry)
    → Numbered 1 es
    → i < length es
    → (e : LogEntry) × (get (suc i) es ≡ some e) × (get_elem? es i ≡ some e) × (e.index ≡ suc i)
unfolding get
get-Numbered i es h small =
    let (e, found, at) = get_elem?-Numbered 1 i es h small in
    (e, ground (arith, found, at), found, omega arith)

take-nil : (n : ℕ) → take {A = LogEntry} n [] ≡ []
take-nil zero = refl
take-nil (suc n) = refl

<-cases : (a b : ℕ) → (a < b) ⊎ (b ≤ a)
<-cases a b = omega arith

keep_last :
    (kept : List LogEntry) (e : LogEntry) (test : Bool)
    → test ≡ false
    → elim kept [ [] ↦ if test then [] else e ∷ [] | e' ∷ more ↦ e ∷ e' ∷ more ] ≡ e ∷ kept
keep_last [] e test h = ground (arith, h)
keep_last (e' ∷ kept) e test h = refl

-- The entries from `from` on leave the end of a numbered log.
pub pop_from-Numbered :
    (from n : ℕ) (es : List LogEntry) → Numbered n es → pop_from from es ≡ take (from - n) es
unfolding pop_from
pop_from-Numbered from n [] h = sym (take-nil (from - n))
pop_from-Numbered from n (e ∷ es) h = elim (<-cases from (suc n)) [
  | inl low ↦
      let here : from - n ≡ 0 = omega arith in
      let behind : from - suc n ≡ 0 = omega arith in
      let rest = pop_from-Numbered from (suc n) es h.1 ∙ ap (λ k. take k es) behind in
      let test : leb from e.index ≡ true = ground (arith, h.0) in rw (rest, here, test) refl
  | inr high ↦
      let here : from - n ≡ suc (from - suc n) = omega arith in
      let test : leb from e.index ≡ false = ground (arith, h.0) in
      rw (here, pop_from-Numbered from (suc n) es h.1)
        (keep_last (take (from - suc n) es) e (leb from e.index) test)
]

module _ (wake : WalWriter) (w : WalWriter) (es : List LogEntry) (h : Holds w es) where
  -- One thread's write and flush of a record on an idle writer.
  synced_append :
      (entry : LogEntry)
      → w.flush_in_progress ≡ false
      → IsValidRecord (numbered_record (length es) entry)
      → let w₁ = (WalWriter.append entry written w).1 in
        (out : WalWriter) × ((WalWriter.append entry written w).0 ≡ ok (length es + 1))
        × (sync (length es + 1) wake [] succeeds w₁ ≡ (okay, out))
        × Holds out (es ++ (numbered_record (length es) entry ∷ []))
        × (out.flush_in_progress ≡ false)
  unfolding sync lead_flush WalWriter.append
  synced_append entry idle v =
      let w₁ = (WalWriter.append entry written w).1 in
      let entry' = numbered_record (length es) entry in
      let (appended, holds) : ((WalWriter.append entry written w).0 ≡ ok (length es + 1))
          × Holds w₁ (es ++ (entry' ∷ [])) =
        subst
          (λ n.
            IsValidRecord (numbered_record n entry)
            → ((WalWriter.append entry written w).0 ≡ ok (length es + 1))
              × Holds w₁ (es ++ (numbered_record n entry ∷ [])))
          h.last_is (append-Holds w es h entry) v in
      (
        record w₁ {
          durable = length w₁.file;
          fsync_count = w₁.fsync_count + 1;
          synced_index = w₁.last_index;
          flush_in_progress = false;
        },
        appended,
        ground (arith, h.is_open, h.last_is, h.synced_le, idle),
        flushed-Holds w₁ (es ++ (entry' ∷ [])) (w₁.fsync_count + 1) holds,
        refl,
      )

module _ (log : Log) (h : InStep log) where
  -- Of a log that is the same in memory and on disk, numbered from 1: TruncateFrom from 1 or more,
  -- when every system call succeeds, returns Ok, keeps exactly the entries before that index, and
  -- the log is again the same in memory and on disk.
  pub truncate_from-InStep :
      (from : ℕ)
      → 1 ≤ from
      → let out = truncate_from from all_succeed log in
        (out.0 ≡ okay) × (out.1.entries ≡ take (from - 1) log.entries) × InStep out.1
  unfolding truncate_from
  truncate_from-InStep from positive =
      let kept = take (from - 1) log.entries in
      let (status, holds, synced, idle) =
        rewrite_all-Holds kept log.wal h.on_disk.is_open
          (All-take IsValidRecord (from - 1) log.entries h.on_disk.valid)
          (Numbered-take 1 (from - 1) log.entries h.on_disk.numbered) in
      let test : (from == 0) ≡ false = ground arith in
      rw (test, pop_from-Numbered from 1 log.entries h.on_disk.numbered)
        (status, refl, record { on_disk = holds; idle = idle ∙ h.idle })

  -- Of a log that is the same in memory and on disk, numbered from 1: Append of an entry that is a
  -- valid record, when the write and the fsync succeed, gives the entry the index behind the last,
  -- adds it to the log, and the log is again the same in memory and on disk.
  pub append-InStep :
      (entry : LogEntry) (wake : WalWriter)
      → IsValidRecord (numbered_record (length log.entries) entry)
      → let out =
          append entry
            (record { write = written; wake = wake; ticks = []; flush = succeeds })
            log in
        let numbered = numbered_record (length log.entries) entry in
        (out.0 ≡ ok numbered) × (out.1.entries ≡ log.entries ++ (numbered ∷ [])) × InStep out.1
  unfolding append
  append-InStep entry wake v =
      let (out, appended, ran, holds, idle) =
        synced_append wake log.wal log.entries h.on_disk entry h.idle v in
      let at : length log.entries + 1 ≡ suc (length log.entries) = omega arith in
      rw (append, appended, ran) (refl, refl, record { on_disk = holds; idle = idle })

collect :
    (rs done : List LogEntry)
    → foldl (λ entries (r : WalRecord). entries ++ (r ∷ [])) done rs ≡ done ++ rs
collect [] done = sym (append-nil done)
collect (r ∷ rs) done = collect rs (done ++ (r ∷ [])) ∙ append_assoc done (r ∷ []) rs

-- Load reads back, with status Ok, the valid records that the log file holds.
pub load-encode_all :
    (rs : List LogEntry) → All IsValidRecord rs → load (present (encode_all rs)) ≡ some (rs, okay)
unfolding load
load-encode_all rs valid =
    ap (λ file. scan_file (λ entries (r : WalRecord). entries ++ (r ∷ [])) file [])
      (sym (append-nil (encode_all rs)))
    ∙ scan_file-encode_all (λ entries (r : WalRecord). entries ++ (r ∷ [])) rs [] [] valid
        nothing-IsTorn
    ∙ ap (λ es. some (es, okay)) (collect rs [])
