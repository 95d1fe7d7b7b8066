-- ===== src/Raft/RpcCodec/Entries.antt =====
-- The list of entries in an AppendEntries body.
use neural_kv.Prelude.{ℕ, ◌≡◌, refl, List, [], ◌∷◌, ◌++◌, arith, length, append_assoc, All}
use neural_kv.Bytes.{IsU32, IsU64, write_u32_be, write_u64_be}
use neural_kv.Reader.Laws.{read_u64-append, read_u32-append, read_u8-append, read_bytes-append}
use neural_kv.Result.{ok}
use neural_kv.Persistence.WalRecord.{op_byte}
use neural_kv.Raft.{LogEntry}
use neural_kv.Raft.RpcCodec.{truncated, encode_entry, encode_entries, decode_entry, decode_entries}

-- The integer fields fit their C++ types, and the lengths a `uint32_t`.
pub record EntryFits (e : LogEntry) : Type 0 where
  pub term_fits : IsU64 e.term
  pub index_fits : IsU64 e.index
  pub key_fits : IsU32 (length e.key)
  pub value_fits : IsU32 (length e.value)

pub decode-encode_entry :
    (e : LogEntry) (rest : List ℕ)
    → EntryFits e
    → decode_entry (encode_entry e ++ rest) ≡ ok (e, rest)
unfolding decode_entry encode_entry
decode-encode_entry e rest f =
    let value_part = write_u32_be (length e.value) ++ (e.value ++ rest) in
    let key_part = write_u32_be (length e.key) ++ (e.key ++ value_part) in
    let index_part = write_u64_be e.index ++ (op_byte e.op ∷ key_part) in
    let shape : encode_entry e ++ rest ≡ write_u64_be e.term ++ index_part = simp append_assoc in
    rw shape (
      ground (
        arith,
        read_u64-append truncated e.term index_part f.term_fits,
        read_u64-append truncated e.index (op_byte e.op ∷ key_part) f.index_fits,
        read_u8-append truncated (op_byte e.op) key_part,
        read_u32-append truncated (length e.key) (e.key ++ value_part) f.key_fits,
        read_bytes-append truncated (length e.key) e.key value_part refl,
        read_u32-append truncated (length e.value) (e.value ++ rest) f.value_fits,
        read_bytes-append truncated (length e.value) e.value rest refl,
      ))

pub decode-encode_entries :
    (es : List LogEntry) (rest : List ℕ)
    → All EntryFits es
    → decode_entries (length es) (encode_entries es ++ rest) ≡ ok (es, rest)
unfolding decode_entries encode_entries
decode-encode_entries [] rest f = refl
decode-encode_entries (e ∷ es) rest f = rw append_assoc (
    rw (decode-encode_entry e (encode_entries es ++ rest) f.0)
      (rw (decode-encode_entries es rest f.1)))
