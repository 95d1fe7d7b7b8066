-- ===== src/Persistence/WalRecord/Torn.antt =====
-- A record of which a crash left only the front.
use neural_kv.Prelude.{
  ℕ, ◌≤◌, ◌<◌, ◌≡◌, ◌∙◌, sym, ap, refl, List, [], ◌∷◌, ◌++◌, none, arith, length, take, drop,
  take-append, drop-append, take-append_le, drop-append_le, length-append, length-take, Bool-cases,
  inl, inr, ltb, ltb→le,
}
use neural_kv.Bytes.{write_u32_be}
use neural_kv.Bytes.RoundTrip.{read-write_u32}
use neural_kv.Result.{ok}
use neural_kv.Persistence.WalRecord.{
  WalRecord, encode_wal_record, read_value, read_key, read_next_wal_record, IsValidRecord,
}
use neural_kv.Persistence.WalRecord.RoundTrip.{
  wal_header, length-wal_header, encode-split, header_key_len,
}

-- The front of an encoding that lacks its last bytes, of which there is one at least.
pub record IsTorn (bytes : List ℕ) : Type 0 where
  pub torn : WalRecord
  pub valid : IsValidRecord torn
  pub lost : ℕ
  pub more_lost : List ℕ
  pub cut : bytes ++ (lost ∷ more_lost) ≡ encode_wal_record torn

-- A front that holds the first part whole begins with it, and is cut in the second.
cut_part :
    (n : ℕ) (front first second : List ℕ) (x : ℕ) (back : List ℕ)
    → length first ≡ n
    → n ≤ length front
    → front ++ (x ∷ back) ≡ first ++ second
    → (take n front ≡ first) × (drop n front ++ (x ∷ back) ≡ second)
cut_part n front first second x back len long e = (
  sym (take-append_le n front (x ∷ back) long) ∙ ap (take n) e ∙ take-append n first second len,
  sym (drop-append_le n front (x ∷ back) long) ∙ ap (drop n) e ∙ drop-append n first second len,
)

module _ (r : WalRecord) (valid : IsValidRecord r) (x : ℕ) (back : List ℕ) where
  read_value_torn :
      (header key front : List ℕ)
      → front ++ (x ∷ back) ≡ write_u32_be (length r.value) ++ r.value
      → read_value header key front ≡ ok none
  unfolding read_value
  read_value_torn header key front e = elim (Bool-cases (ltb (length front) 4)) [
    | inl short ↦ ground (arith, length-take 4 front)
    | inr long ↦
        let (buf, rest) =
          cut_part 4 front (write_u32_be (length r.value)) r.value x back
            (unfold write_u32_be in refl) (ltb→le _ _ long) e in
        let lengths : length (drop 4 front) < length r.value =
          omega (arith, ap length rest, length-append (drop 4 front) (x ∷ back)) in
        ground (
          arith,
          buf,
          lengths,
          valid.value_fits,
          read-write_u32 (length r.value) [],
          length-take (length r.value) (drop 4 front),
          length-take 4 front,
        )
  ]

  read_key_torn :
      (front : List ℕ)
      → front ++ (x ∷ back) ≡ r.key ++ (write_u32_be (length r.value) ++ r.value)
      → read_key (wal_header r) front ≡ ok none
  unfolding read_key
  read_key_torn front e = elim (Bool-cases (ltb (length front) (length r.key))) [
    | inl short ↦ ground (arith, valid.key_fits, header_key_len r, length-take (length r.key) front)
    | inr long ↦
        let (key, rest) =
          cut_part (length r.key) front r.key (write_u32_be (length r.value) ++ r.value) x back refl
            (ltb→le _ _ long) e in
        ground (
          arith,
          key,
          valid.key_fits,
          header_key_len r,
          read_value_torn (wal_header r) r.key (drop (length r.key) front) rest,
        )
  ]

  read_next_torn :
      (front : List ℕ)
      → front ++ (x ∷ back) ≡ encode_wal_record r
      → read_next_wal_record front ≡ ok none
  unfolding read_next_wal_record
  read_next_torn front e = elim (Bool-cases (ltb (length front) 25)) [
    | inl short ↦ ground (arith, length-take 25 front)
    | inr long ↦
        let (header, rest) =
          cut_part 25 front (wal_header r) (r.key ++ (write_u32_be (length r.value) ++ r.value)) x
            back (length-wal_header r) (ltb→le _ _ long) (e ∙ encode-split r) in
        ground (arith, header, length-wal_header r, read_key_torn (drop 25 front) rest)
  ]

-- A proper prefix of the encoding of a valid record is read as the end of the log, not as an error.
pub read_next_wal_record_torn :
    (bytes : List ℕ) → IsTorn bytes → read_next_wal_record bytes ≡ ok none
read_next_wal_record_torn bytes t = read_next_torn t.torn t.valid t.lost t.more_lost bytes t.cut
