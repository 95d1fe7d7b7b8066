-- ===== src/Persistence/WalWriter/Rewrite.antt =====
-- RewriteAll when the operating system does all that it is asked.
use neural_kv.Prelude.{
  ℕ, suc, ◌+◌, ◌≡◌, refl, sym, ap, ◌∙◌, List, [], ◌∷◌, ◌++◌, true, arith, length, All, append-nil,
  append_assoc,
}
use neural_kv.Status.{okay, is_ok}
use neural_kv.Persistence.WalRecord.{WalRecord, encode_wal_record, IsValidRecord}
use neural_kv.Persistence.Replay.{encode_all}
use neural_kv.Persistence.WalWriter.{
  WalWriter, succeeds, RewriteOutcome, fsync_now, rewrite_all, write_records, back_index,
}
use neural_kv.Persistence.WalWriter.Invariant.{Numbered, Holds}
use neural_kv.Persistence.WalWriter.GroupCommit.{take-length}

abbrev pub all_succeed : RewriteOutcome
all_succeed = record { truncate = succeeds; seek = succeeds; writes = []; flush = succeeds }

write_records-plain :
    (rs : List WalRecord) (file : List ℕ) → write_records rs [] file ≡ (okay, file ++ encode_all rs)
unfolding write_records encode_all
write_records-plain [] file = ap (λ l. (okay, l)) (sym (append-nil file))
write_records-plain (r ∷ rs) file =
    write_records-plain rs (file ++ encode_wal_record r)
    ∙ ap (λ l. (okay, l)) (append_assoc file (encode_wal_record r) (encode_all rs))

back_index-Numbered :
    (n : ℕ) (e : WalRecord) (es : List WalRecord)
    → Numbered n (e ∷ es)
    → back_index (e ∷ es) ≡ n + length es
back_index-Numbered n e [] h = omega (arith, h.0)
back_index-Numbered n e (e' ∷ es) h = omega (arith, back_index-Numbered (suc n) e' es h.1)

pub back_index-length : (es : List WalRecord) → Numbered 1 es → back_index es ≡ length es
back_index-length [] h = refl
back_index-length (e ∷ es) h = omega (arith, back_index-Numbered 1 e es h)

-- Of an open writer and valid records numbered from 1: RewriteAll, when every system call succeeds,
-- returns Ok, the file then holds exactly those records, all of them are synced, and no flush
-- begins or ends.
pub rewrite_all-Holds :
    (rs : List WalRecord) (w : WalWriter)
    → is_ok w.open_status ≡ true
    → All IsValidRecord rs
    → Numbered 1 rs
    → let out = rewrite_all rs all_succeed w in
      (out.0 ≡ okay)
      × Holds out.1 rs
      × (out.1.synced_index ≡ length rs)
      × (out.1.flush_in_progress ≡ w.flush_in_progress)
unfolding rewrite_all fsync_now
rewrite_all-Holds rs w opened valid numbered =
    let last = back_index-length rs numbered in
    rw (opened, write_records-plain rs [], last)
      (
        refl,
        record {
          is_open = opened;
          file_is = refl;
          valid = valid;
          numbered = numbered;
          last_is = refl;
          synced_le = omega arith;
          durable_le = omega arith;
          durable_covers = ground (arith, take-length rs);
        },
        refl,
        refl,
      )
