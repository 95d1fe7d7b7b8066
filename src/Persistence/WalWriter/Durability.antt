-- ===== src/Persistence/WalWriter/Durability.antt =====
-- What the status of `Sync` means.
use neural_kv.Prelude.{
  ℕ, ◌≤◌, ◌≡◌, refl, sym, List, [], ◌++◌, false, arith, length, length-append, append-nil,
  Bool-cases, inl, inr, ltb, ltb→le, subst,
}
use neural_kv.Status.{okay}
use neural_kv.Persistence.WalRecord.{WalRecord}
use neural_kv.Persistence.WalWriter.{WalWriter, succeeds, Tick, sync}
use neural_kv.Persistence.WalWriter.Invariant.{Holds}
use neural_kv.Persistence.WalWriter.GroupCommit.{TicksArrivable, lead_flush-Holds}

-- Of an open writer whose file holds its records and that no thread is flushing, and with valid
-- records arriving meanwhile: if the fsync succeeds, Sync returns Ok, the log then holds the old
-- records and those that arrived, and every index that had been handed out before is synced, that
-- is, covered by the bytes that an fsync made durable.
pub sync-Holds :
    (at_least : ℕ) (wake : WalWriter) (ticks : List Tick) (w : WalWriter) (rs : List WalRecord)
    → Holds w rs
    → w.flush_in_progress ≡ false
    → TicksArrivable w.last_index ticks
    → let out = sync at_least wake ticks succeeds w in
      (out.0 ≡ okay)
      × (extra : List WalRecord) × Holds out.1 (rs ++ extra)
      × (at_least ≤ length rs → at_least ≤ out.1.synced_index)
unfolding sync
sync-Holds at_least wake ticks w rs h idle k = elim (Bool-cases (ltb w.synced_index at_least)) [
  | inl behind ↦
      let (status, extra, holds, synced) = lead_flush-Holds at_least ticks w rs h k in
      rw (h.is_open, behind, idle)
        (status, extra, holds, λ small. omega (arith, synced, length-append rs extra))
  | inr covered ↦
      rw (h.is_open, covered)
        (
          refl,
          [],
          subst (Holds w) (sym (append-nil rs)) h,
          λ small. ltb→le w.synced_index at_least covered,
        )
]
