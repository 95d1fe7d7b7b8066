-- ===== src/Persistence/WalWriter/Crash.antt =====
-- A crash keeps a front of the file that holds at least the bytes that an fsync covered.
use neural_kv.Prelude.{
  ℕ, zero, suc, ◌-◌, ◌≤◌, ◌<◌, ◌≡◌, refl, sym, ap, ◌∙◌, List, [], ◌∷◌, ◌++◌, some, arith, length,
  take, All, All-take, length-append, append_assoc, Bool-cases, inl, inr, ltb, ltb→lt, ltb→le,
  take-append_le, take-append_ge, drop-cons, take-append-drop, foldl,
}
use neural_kv.Bytes.{write_u32_be}
use neural_kv.Status.{okay}
use neural_kv.Persistence.WalRecord.{WalRecord, WalOp, encode_wal_record, IsValidRecord}
use neural_kv.Persistence.WalRecord.Torn.{IsTorn}
use neural_kv.Persistence.Replay.{scan_file, encode_all}
use neural_kv.Persistence.Replay.Scan.{scan_file-encode_all}
use neural_kv.Persistence.WalWriter.{WalWriter}
use neural_kv.Persistence.WalWriter.Invariant.{Holds}

abbrev some_record : WalRecord
some_record = record { term = 0; index = 1; op = WalOp.delete; key = 1 ∷ []; value = [] }

-- A front of a log of whole records: the first `kept` of them, and a torn one.
pub record CutLog (k : ℕ) (rs : List WalRecord) : Type 0 where
  pub kept : ℕ
  pub tail : List ℕ
  pub tail_torn : IsTorn tail
  pub shape : take k (encode_all rs) ≡ encode_all (take kept rs) ++ tail
  pub keeps : (s : ℕ) → s ≤ length rs → length (encode_all (take s rs)) ≤ k → s ≤ kept

front-IsTorn :
    (k : ℕ) (r : WalRecord)
    → IsValidRecord r
    → k < length (encode_wal_record r)
    → IsTorn (take k (encode_wal_record r))
front-IsTorn k r v h =
    let (x, back, e) = drop-cons k (encode_wal_record r) h in
    record {
      torn = r;
      valid = v;
      lost = x;
      more_lost = back;
      cut =
          ap (λ l. take k (encode_wal_record r) ++ l) (sym e)
          ∙ take-append-drop k (encode_wal_record r);
    }

some_record-IsValidRecord : IsValidRecord some_record
some_record-IsValidRecord = record {
  term_fits = omega arith;
  index_fits = omega arith;
  key_there = refl;
  key_fits = omega arith;
  value_there = λ e. cc;
  value_fits = omega arith;
}

-- Nothing is a front of a record.
pub nothing-IsTorn : IsTorn []
unfolding encode_wal_record write_u32_be
nothing-IsTorn = front-IsTorn 0 some_record some_record-IsValidRecord (omega arith)

take-nil {ℓ} : {A : Type ℓ} (k : ℕ) → take {A = A} k [] ≡ []
take-nil zero = refl
take-nil (suc k) = refl

cut_inside :
    (k : ℕ) (r : WalRecord) (rs : List WalRecord)
    → IsValidRecord r
    → k < length (encode_wal_record r)
    → CutLog k (r ∷ rs)
unfolding encode_all
cut_inside k r rs v h = record {
  kept = 0;
  tail = take k (encode_wal_record r);
  tail_torn = front-IsTorn k r v h;
  shape = take-append_le k (encode_wal_record r) (encode_all rs) (omega arith);
  keeps = keeps_none;
}
  where
    keeps_none : (s : ℕ) → s ≤ suc (length rs) → length (encode_all (take s (r ∷ rs))) ≤ k → s ≤ 0
    keeps_none zero small fits = omega arith
    keeps_none (suc s) small fits =
        absurd (omega (arith, length-append (encode_wal_record r) (encode_all (take s rs))))

cut_beyond :
    (k : ℕ) (r : WalRecord) (rs : List WalRecord)
    → length (encode_wal_record r) ≤ k
    → CutLog (k - length (encode_wal_record r)) rs
    → CutLog k (r ∷ rs)
unfolding encode_all
cut_beyond k r rs h c = record {
  kept = suc c.kept;
  tail = c.tail;
  tail_torn = c.tail_torn;
  shape =
      take-append_ge k (encode_wal_record r) (encode_all rs) h
      ∙ ap (λ l. encode_wal_record r ++ l) c.shape
      ∙ sym (append_assoc (encode_wal_record r) (encode_all (take c.kept rs)) c.tail);
  keeps = keeps_more;
}
  where
    keeps_more :
        (s : ℕ) → s ≤ suc (length rs) → length (encode_all (take s (r ∷ rs))) ≤ k → s ≤ suc c.kept
    keeps_more zero small fits = omega arith
    keeps_more (suc s) small fits =
        let shorter =
          c.keeps s (omega arith)
            (omega (arith, length-append (encode_wal_record r) (encode_all (take s rs)))) in
        omega arith

pub cut_log : (k : ℕ) (rs : List WalRecord) → All IsValidRecord rs → CutLog k rs
cut_log k [] v = record {
  kept = 0;
  tail = [];
  tail_torn = nothing-IsTorn;
  shape = unfold encode_all in take-nil k;
  keeps = λ s small fits. small;
}
cut_log k (r ∷ rs) v = elim (Bool-cases (ltb k (length (encode_wal_record r)))) [
  | inl inside ↦ cut_inside k r rs v.0 (ltb→lt k _ inside)
  | inr beyond ↦
      cut_beyond k r rs (ltb→le k _ beyond) (cut_log (k - length (encode_wal_record r)) rs v.1)
]

-- Let the file of an open writer hold the valid records `rs`, numbered from 1, and let a crash keep
-- the first `k` bytes of it, at least those that an fsync made durable. A scan of what is left
-- returns Ok and has seen exactly the first `kept` records, in order, among them every record whose
-- index was synced.
pub crash_recovery {ℓ} :
    {S : Type ℓ} (step : S → WalRecord → S) (s : S) (w : WalWriter) (rs : List WalRecord) (k : ℕ)
    → Holds w rs
    → w.durable ≤ k
    → (kept : ℕ) × (w.synced_index ≤ kept)
      × (scan_file step (take k w.file) s ≡ some (foldl step s (take kept rs), okay))
crash_recovery step s w rs k h enough =
    let c = cut_log k rs h.valid in
    (
      c.kept,
      c.keeps w.synced_index h.synced_le (omega (arith, h.durable_covers)),
      rw (h.file_is, c.shape)
          (scan_file-encode_all step (take c.kept rs) c.tail s
            (All-take IsValidRecord c.kept rs h.valid) c.tail_torn),
    )
