-- ===== src/Raft/RpcCodec.antt =====
-- raft/rpc_codec.h and .cpp: the bodies of the Raft RPCs. A decoder that fails may have written some
-- fields of `out`; every caller then drops it, so a decoder is a result.
pub mod RoundTrip
pub mod Entries
use neural_kv.Prelude.{
  ℕ, zero, suc, ◌%◌, ◌^◌, List, [], ◌∷◌, ◌++◌, Bool, true, false, not, ◌&&◌, ◌==◌, if◌then◌else◌,
  length,
}
use neural_kv.Bytes.{write_u32_be, write_u64_be}
use neural_kv.Reader.{read_u8, read_u32, read_u64, read_bytes, at_end}
use neural_kv.Status.{Status}
use neural_kv.Result.{Result, ok, err, ◌>>=◌, ◌>>◌, refuse_if}
use neural_kv.Protocol.{invalid}
use neural_kv.Persistence.WalRecord.{WalOp, WalRecord, op_byte}
use neural_kv.Raft.{LogEntry}

pub record RequestVoteRequest : Type 0 where
  pub term : ℕ
  pub candidate_id : ℕ
  pub last_log_index : ℕ
  pub last_log_term : ℕ

pub record RequestVoteResponse : Type 0 where
  pub term : ℕ
  pub vote_granted : Bool

pub record AppendEntriesRequest : Type 0 where
  pub term : ℕ
  pub leader_id : ℕ
  pub prev_log_index : ℕ
  pub prev_log_term : ℕ
  pub leader_commit : ℕ
  pub entries : List LogEntry

pub record AppendEntriesResponse : Type 0 where
  pub term : ℕ
  pub success : Bool

-- Truncated()
abbrev pub truncated : Status
truncated = invalid "truncated raft RPC body"

unfoldable pub encode_request_vote_request : RequestVoteRequest → List ℕ
encode_request_vote_request req =
    write_u64_be req.term
    ++ (write_u32_be req.candidate_id
        ++ (write_u64_be req.last_log_index ++ write_u64_be req.last_log_term))

unfoldable pub decode_request_vote_request : List ℕ → Result RequestVoteRequest
decode_request_vote_request body = do
  (term, r₁) ← read_u64 truncated body
  (candidate_id, r₂) ← read_u32 truncated r₁
  (last_log_index, r₃) ← read_u64 truncated r₂
  (last_log_term, r₄) ← read_u64 truncated r₃
  refuse_if (not (at_end r₄)) (invalid "trailing bytes in RequestVote request")
  ok (record {
    term = term;
    candidate_id = candidate_id;
    last_log_index = last_log_index;
    last_log_term = last_log_term;
  })

-- `flag ? 1 : 0`
abbrev pub flag_byte : Bool → ℕ
flag_byte flag = if flag then 1 else 0

unfoldable pub encode_request_vote_response : RequestVoteResponse → List ℕ
encode_request_vote_response resp = write_u64_be resp.term ++ (flag_byte resp.vote_granted ∷ [])

unfoldable pub decode_request_vote_response : List ℕ → Result RequestVoteResponse
decode_request_vote_response body = do
  (term, r₁) ← read_u64 truncated body
  (granted, r₂) ← read_u8 truncated r₁
  refuse_if (not (at_end r₂)) (invalid "trailing bytes in RequestVote response")
  ok (record { term = term; vote_granted = not (granted == 0) })

-- The body of the loop over the entries.
unfoldable pub encode_entry : LogEntry → List ℕ
encode_entry e =
    write_u64_be e.term
    ++ (write_u64_be e.index
        ++ (op_byte e.op
            ∷ (write_u32_be (length e.key)
                ++ (e.key ++ (write_u32_be (length e.value) ++ e.value)))))

unfoldable pub encode_entries : List LogEntry → List ℕ
encode_entries [] = []
encode_entries (e ∷ es) = encode_entry e ++ encode_entries es

unfoldable pub encode_append_entries_request : AppendEntriesRequest → List ℕ
encode_append_entries_request req =
    write_u64_be req.term
    ++ (write_u32_be req.leader_id
        ++ (write_u64_be req.prev_log_index
            ++ (write_u64_be req.prev_log_term
                ++ (write_u64_be req.leader_commit
                    ++ (write_u32_be (length req.entries) ++ encode_entries req.entries)))))

-- One round of the decoding loop.
unfoldable pub decode_entry : List ℕ → Result (LogEntry × List ℕ)
decode_entry body = do
  (term, r₁) ← read_u64 truncated body
  (index, r₂) ← read_u64 truncated r₁
  (op, r₃) ← read_u8 truncated r₂
  refuse_if (not (op == 1) && not (op == 2)) (invalid "unknown log entry op")
  (key_len, r₄) ← read_u32 truncated r₃
  (key, r₅) ← read_bytes truncated key_len r₄
  (value_len, r₆) ← read_u32 truncated r₅
  (value, r₇) ← read_bytes truncated value_len r₆
  ok (
    record {
      term = term;
      index = index;
      op = if op == 1 then WalOp.set else WalOp.delete;
      key = key;
      value = value;
    },
    r₇,
  )

-- for (uint32_t i = 0; i < entry_count; ++i): the rounds that are left
unfoldable pub decode_entries : ℕ → List ℕ → Result (List LogEntry × List ℕ)
decode_entries zero body = ok ([], body)
decode_entries (suc count) body = do
  (e, rest) ← decode_entry body
  (es, left) ← decode_entries count rest
  ok (e ∷ es, left)

-- The room that the code reserves for the entries is not modelled.
unfoldable pub decode_append_entries_request : List ℕ → Result AppendEntriesRequest
decode_append_entries_request body = do
  (term, r₁) ← read_u64 truncated body
  (leader_id, r₂) ← read_u32 truncated r₁
  (prev_log_index, r₃) ← read_u64 truncated r₂
  (prev_log_term, r₄) ← read_u64 truncated r₃
  (leader_commit, r₅) ← read_u64 truncated r₄
  (entry_count, r₆) ← read_u32 truncated r₅
  (entries, r₇) ← decode_entries entry_count r₆
  refuse_if (not (at_end r₇)) (invalid "trailing bytes in AppendEntries request")
  ok (record {
    term = term;
    leader_id = leader_id;
    prev_log_index = prev_log_index;
    prev_log_term = prev_log_term;
    leader_commit = leader_commit;
    entries = entries;
  })

unfoldable pub encode_append_entries_response : AppendEntriesResponse → List ℕ
encode_append_entries_response resp = write_u64_be resp.term ++ (flag_byte resp.success ∷ [])

unfoldable pub decode_append_entries_response : List ℕ → Result AppendEntriesResponse
decode_append_entries_response body = do
  (term, r₁) ← read_u64 truncated body
  (success, r₂) ← read_u8 truncated r₁
  refuse_if (not (at_end r₂)) (invalid "trailing bytes in AppendEntries response")
  ok (record { term = term; success = not (success == 0) })
