-- ===== src/Persistence/WalRecord/RoundTrip.antt =====
-- Reading back what EncodeWalRecord wrote.
use neural_kv.Prelude.{
  ℕ, ◌≡◌, refl, List, [], ◌∷◌, ◌++◌, some, arith, length, drop, take-append, drop-append,
  append_assoc,
}
use neural_kv.Bytes.{IsU32, IsU64, write_u32_be, write_u64_be, read_u32_be, read_u64_be}
use neural_kv.Bytes.RoundTrip.{read-write_u32, read-write_u64}
use neural_kv.Result.{ok}
use neural_kv.Persistence.Crc32.{crc32}
use neural_kv.Persistence.WalRecord.{
  WalRecord, op_byte, header_op, wal_body, encode_wal_record, check_record, read_value, read_key,
  read_next_wal_record, IsValidRecord,
}

pub crc32-lt : (bytes : List ℕ) → IsU32 (crc32 bytes)
unfolding crc32
crc32-lt bytes = omega arith

-- The header that the encoding begins with.
pub wal_header : WalRecord → List ℕ
wal_header r =
    write_u32_be (crc32 (wal_body r))
    ++ (write_u64_be r.term
        ++ (write_u64_be r.index ++ (op_byte r.op ∷ write_u32_be (length r.key))))

pub length-wal_header : (r : WalRecord) → length (wal_header r) ≡ 25
unfolding wal_header write_u32_be write_u64_be
length-wal_header r = refl

pub encode-split :
    (r : WalRecord)
    → encode_wal_record r ≡ wal_header r ++ (r.key ++ (write_u32_be (length r.value) ++ r.value))
unfolding encode_wal_record wal_body wal_header write_u32_be write_u64_be
encode-split r = refl

-- The fields that the reader takes from such a header.
pub header_crc : (r : WalRecord) → read_u32_be (wal_header r) ≡ crc32 (wal_body r)
unfolding wal_header
header_crc r = read-write_u32 (crc32 (wal_body r)) _ (crc32-lt (wal_body r))

pub header_key_len :
    (r : WalRecord) → IsU32 (length r.key) → read_u32_be (drop 21 (wal_header r)) ≡ length r.key
unfolding wal_header write_u32_be write_u64_be
header_key_len r fits = read-write_u32 (length r.key) [] fits

header_term : (r : WalRecord) → IsU64 r.term → read_u64_be (drop 4 (wal_header r)) ≡ r.term
unfolding wal_header write_u32_be write_u64_be
header_term r fits =
    read-write_u64 r.term (write_u64_be r.index ++ (op_byte r.op ∷ write_u32_be (length r.key)))
      fits

header_index : (r : WalRecord) → IsU64 r.index → read_u64_be (drop 12 (wal_header r)) ≡ r.index
unfolding wal_header write_u32_be write_u64_be
header_index r fits = read-write_u64 r.index (op_byte r.op ∷ write_u32_be (length r.key)) fits

header_op_lem : (r : WalRecord) → header_op (wal_header r) ≡ op_byte r.op
unfolding wal_header write_u32_be write_u64_be
header_op_lem r = refl

body_split :
    (r : WalRecord)
    → drop 4 (wal_header r) ++ (r.key ++ (write_u32_be (length r.value) ++ r.value)) ≡ wal_body r
unfolding wal_body wal_header write_u32_be write_u64_be
body_split r = refl

module _ (r : WalRecord) (valid : IsValidRecord r) where
  check_record_valid :
      (fd : List ℕ)
      → check_record (wal_header r) r.key (write_u32_be (length r.value)) r.value fd
        ≡ ok (some (r, fd))
  unfolding check_record
  check_record_valid fd = ground (
    arith,
    header_crc r,
    header_op_lem r,
    body_split r,
    header_term r,
    header_index r,
    valid.term_fits,
    valid.index_fits,
    valid.key_there,
    valid.value_there,
  )

  read_value_valid :
      (fd : List ℕ)
      → read_value (wal_header r) r.key (write_u32_be (length r.value) ++ (r.value ++ fd))
        ≡ ok (some (r, fd))
  unfolding read_value write_u32_be
  read_value_valid fd = ground (
    arith,
    valid.value_fits,
    read-write_u32 (length r.value) [],
    take-append (length r.value) r.value fd refl,
    drop-append (length r.value) r.value fd refl,
    check_record_valid fd,
  )

  read_key_valid :
      (fd : List ℕ)
      → read_key (wal_header r) (r.key ++ (write_u32_be (length r.value) ++ (r.value ++ fd)))
        ≡ ok (some (r, fd))
  unfolding read_key
  read_key_valid fd =
      let tail = write_u32_be (length r.value) ++ (r.value ++ fd) in
      ground (
        arith,
        valid.key_fits,
        header_key_len r,
        take-append (length r.key) r.key tail refl,
        drop-append (length r.key) r.key tail refl,
        read_value_valid fd,
      )

  -- A valid record that was encoded, in front of any further bytes, is read back, and the offset is
  -- then behind it.
  pub read_next_wal_record-encode :
      (fd : List ℕ) → read_next_wal_record (encode_wal_record r ++ fd) ≡ ok (some (r, fd))
  unfolding read_next_wal_record
  read_next_wal_record-encode fd =
      let value_part = write_u32_be (length r.value) ++ r.value in
      let tail = r.key ++ (write_u32_be (length r.value) ++ (r.value ++ fd)) in
      let shape : encode_wal_record r ++ fd ≡ wal_header r ++ tail =
        rw encode-split (simp append_assoc) in
      rw shape (
        rw
          (
            take-append 25 (wal_header r) tail (length-wal_header r),
            drop-append 25 (wal_header r) tail (length-wal_header r),
          )
          (rw (length-wal_header r) (read_key_valid fd)))
