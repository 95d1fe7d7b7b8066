-- ===== src/Persistence/WalWriter/Invariant.antt =====
-- What the log's file and counters say of one another, and that appends keep it so.
use neural_kv.Prelude.{
  ℕ, suc, ◌+◌, ◌≤◌, ◌≡◌, refl, sym, List, [], ◌∷◌, ◌++◌, true, String, arith, length, take, All,
  All-append, length-append, append_assoc, append-nil, take-append_le,
}
use neural_kv.Status.{is_ok, ErrorCode, error}
use neural_kv.Result.{ok, err}
use neural_kv.Persistence.WalRecord.{WalRecord, encode_wal_record, IsValidRecord}
use neural_kv.Persistence.Replay.{encode_all}
use neural_kv.Persistence.WalWriter.{WalWriter, written, write_failed, append}

-- The indexes count up from `n`.
abbrev pub Numbered : ℕ → List WalRecord → Type 0
Numbered n [] = Unit {0}
Numbered n (r ∷ rs) = (r.index ≡ n) × Numbered (suc n) rs

pub Numbered-append :
    (n m : ℕ) (rs : List WalRecord) (r : WalRecord)
    → n + length rs ≡ m
    → r.index ≡ m
    → Numbered n rs
    → Numbered n (rs ++ (r ∷ []))
Numbered-append n m [] r e i h = (omega arith, tt)
Numbered-append n m (x ∷ rs) r e i h = (h.0, Numbered-append (suc n) m rs r (omega arith) i h.1)

pub encode_all-append :
    (rs ss : List WalRecord) → encode_all (rs ++ ss) ≡ encode_all rs ++ encode_all ss
unfolding encode_all
encode_all-append [] ss = refl
encode_all-append (r ∷ rs) ss =
    rw (encode_all-append rs ss)
      (sym (append_assoc (encode_wal_record r) (encode_all rs) (encode_all ss)))

-- The writer is open, and its file holds exactly the records `rs`.
pub record Holds (w : WalWriter) (rs : List WalRecord) : Type 0 where
  pub is_open : is_ok w.open_status ≡ true
  pub file_is : w.file ≡ encode_all rs
  pub valid : All IsValidRecord rs
  pub numbered : Numbered 1 rs
  pub last_is : w.last_index ≡ length rs
  pub synced_le : w.synced_index ≤ length rs
  pub durable_le : w.durable ≤ length w.file
  pub durable_covers : length (encode_all (take w.synced_index rs)) ≤ w.durable

abbrev pub numbered_record : ℕ → WalRecord → WalRecord
numbered_record last r = record r { index = last + 1 }

module _ (w : WalWriter) (rs : List WalRecord) (h : Holds w rs) (r : WalRecord) where
  -- An append that writes all its bytes returns the next index and adds the record to the log.
  pub append-Holds :
      IsValidRecord (numbered_record w.last_index r)
      → ((append r written w).0 ≡ ok (length rs + 1))
        × Holds (append r written w).1 (rs ++ (numbered_record w.last_index r ∷ []))
  unfolding append
  append-Holds v =
      let r' : WalRecord = numbered_record w.last_index r in
      let one : encode_all (r' ∷ []) ≡ encode_wal_record r' = unfold encode_all in append-nil _ in
      (
        ground (arith, h.is_open, h.last_is),
        record {
          is_open = ground (arith, h.is_open);
          file_is = ground (arith, h.is_open, h.file_is, encode_all-append rs (r' ∷ []), one);
          valid = All-append IsValidRecord rs (r' ∷ []) h.valid (v, tt);
          numbered = Numbered-append 1 (w.last_index + 1) rs r' (omega arith) refl h.numbered;
          last_is = ground (arith, h.is_open, h.last_is, length-append rs (r' ∷ []));
          synced_le = ground (arith, h.is_open, h.synced_le, length-append rs (r' ∷ []));
          durable_le =
              ground (arith, h.is_open, h.durable_le, length-append w.file (encode_wal_record r'));
          durable_covers = ground (
            arith,
            h.is_open,
            h.durable_covers,
            take-append_le w.synced_index rs (r' ∷ []) h.synced_le,
          );
        },
      )

  -- An append whose write fails reports it and leaves the counters as they were.
  pub append_failed :
      (n : ℕ) {why : String}
      → ((append r (write_failed n why) w).0 ≡ err (error ErrorCode.io_error why))
        × ((append r (write_failed n why) w).1.last_index ≡ w.last_index)
        × ((append r (write_failed n why) w).1.synced_index ≡ w.synced_index)
        × ((append r (write_failed n why) w).1.file
            ≡ w.file ++ take n (encode_wal_record (numbered_record w.last_index r)))
  unfolding append
  append_failed n = (
    ground (arith, h.is_open),
    ground (arith, h.is_open),
    ground (arith, h.is_open),
    ground (arith, h.is_open),
  )
