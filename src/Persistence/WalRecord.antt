-- ===== src/Persistence/WalRecord.antt =====
-- persistence/wal_record.h and .cpp: one durable mutation and its encoding on disk. A file
-- descriptor is modelled by the bytes from its offset to the end of the file; `read` gives what there
-- is (an error of `read` other than EINTR looks like a short read to the code, as it does here).
pub mod RoundTrip
pub mod Torn
use neural_kv.Prelude.{
  ℕ, ◌+◌, ◌*◌, ◌<◌, ◌≤◌, ◌≡◌, String, List, [], ◌∷◌, ◌++◌, Option, none, some, Bool, true, false,
  not, ◌&&◌, ◌||◌, ltb, ◌==◌, if◌then◌else◌, length, take, drop,
}
use neural_kv.Bytes.{IsU64, write_u32_be, write_u64_be, read_u32_be, read_u64_be}
use neural_kv.Status.{Status, ErrorCode, error}
use neural_kv.Result.{Result, ok, err}
use neural_kv.Protocol.{is_empty}
use neural_kv.Persistence.Crc32.{crc32}

pub data WalOp : Type 0 where
  set delete : WalOp

abbrev pub op_byte : WalOp → ℕ
op_byte WalOp.set = 1
op_byte WalOp.delete = 2

pub record WalRecord : Type 0 where
  pub term : ℕ
  pub index : ℕ
  pub op : WalOp
  pub key : List ℕ
  pub value : List ℕ

-- kFixedHeaderSize and kMaxFieldSize
abbrev pub fixed_header_size : ℕ
fixed_header_size = 25

abbrev pub max_field_size : ℕ
max_field_size = 64 * 1024 * 1024

unfoldable pub wal_body : WalRecord → List ℕ
wal_body r =
    write_u64_be r.term
    ++ (write_u64_be r.index
        ++ (op_byte r.op
            ∷ (write_u32_be (length r.key)
                ++ (r.key ++ (write_u32_be (length r.value) ++ r.value)))))

-- What EncodeWalRecord appends to `out`.
unfoldable pub encode_wal_record : WalRecord → List ℕ
encode_wal_record r = write_u32_be (crc32 (wal_body r)) ++ wal_body r

abbrev pub corrupt_record : String → Status
corrupt_record why = error ErrorCode.io_error why

-- `none` is `*has_record == false`: the end of the log, clean or torn. A record comes with the bytes
-- that follow it.
abbrev pub ReadRecord : Type 0
ReadRecord = Result (Option (WalRecord × List ℕ))

-- header[20], after the test that it is one of the two operations
abbrev op_of_byte : ℕ → WalOp
op_of_byte b = if b == 1 then WalOp.set else WalOp.delete

-- byte 20 of the header
abbrev header_op : List ℕ → ℕ
header_op header = elim (drop 20 header) [ [] ↦ 0 | b ∷ rest ↦ b ]

-- From the CRC test on: everything has been read.
unfoldable pub check_record : List ℕ → List ℕ → List ℕ → List ℕ → List ℕ → ReadRecord
check_record header key value_len_buf value fd =
    let body = drop 4 header ++ (key ++ (value_len_buf ++ value)) in
    let op = header_op header in
    if not (crc32 body == read_u32_be header)
    then err (corrupt_record "CRC mismatch")
    else if not (op == 1) && not (op == 2)
    then err (corrupt_record "unknown op")
    else if is_empty key
    then err (corrupt_record "empty key")
    else if (op == 1) && is_empty value
    then err (corrupt_record "SET with empty value")
    else ok (
        some (
          record {
            term = read_u64_be (drop 4 header);
            index = read_u64_be (drop 12 header);
            op = op_of_byte op;
            key = key;
            value = value;
          },
          fd,
        ))

-- From the value's length on.
unfoldable pub read_value : List ℕ → List ℕ → List ℕ → ReadRecord
read_value header key fd =
    let value_len_buf = take 4 fd in
    let value_len = read_u32_be value_len_buf in
    let value = take value_len (drop 4 fd) in
    if ltb (length value_len_buf) 4
    then ok none
    else if ltb max_field_size value_len
    then err (corrupt_record "value length out of range")
    else if not (value_len == 0) && ltb (length value) value_len
    then ok none
    else check_record header key value_len_buf value (drop value_len (drop 4 fd))

-- From the key's length, in the header, on.
unfoldable pub read_key : List ℕ → List ℕ → ReadRecord
read_key header fd =
    let key_len = read_u32_be (drop 21 header) in
    let key = take key_len fd in
    if ltb max_field_size key_len
    then err (corrupt_record "key length out of range")
    else if not (key_len == 0) && ltb (length key) key_len
    then ok none
    else read_value header key (drop key_len fd)

unfoldable pub read_next_wal_record : List ℕ → ReadRecord
read_next_wal_record fd =
    let header = take fixed_header_size fd in
    if ltb (length header) fixed_header_size
    then ok none
    else read_key header (drop fixed_header_size fd)

-- What every writer of the log passes to EncodeWalRecord.
pub record IsValidRecord (r : WalRecord) : Type 0 where
  pub term_fits : IsU64 r.term
  pub index_fits : IsU64 r.index
  pub key_there : is_empty r.key ≡ false
  pub key_fits : length r.key ≤ max_field_size
  pub value_there : r.op ≡ WalOp.set → is_empty r.value ≡ false
  pub value_fits : length r.value ≤ max_field_size
