-- ===== src/Raft/RpcCodec/RoundTrip.antt =====
-- Each Raft RPC body is decoded to what was encoded.
use neural_kv.Prelude.{◌≡◌, [], ◌∷◌, ◌++◌, arith, length, append-nil, All}
use neural_kv.Bytes.{IsU32, IsU64, write_u32_be, write_u64_be}
use neural_kv.Reader.Laws.{read_u64-append, read_u32-append, read_u8-append}
use neural_kv.Result.{ok}
use neural_kv.Raft.RpcCodec.{
  truncated, flag_byte, RequestVoteRequest, RequestVoteResponse, AppendEntriesRequest,
  AppendEntriesResponse, encode_request_vote_request, decode_request_vote_request,
  encode_request_vote_response, decode_request_vote_response, encode_append_entries_request,
  decode_append_entries_request, encode_append_entries_response, decode_append_entries_response,
  encode_entries,
}
use neural_kv.Raft.RpcCodec.Entries.{EntryFits, decode-encode_entries}

-- A RequestVote request whose fields fit their types is read back as it was.
pub request_vote_request_round :
    (req : RequestVoteRequest)
    → IsU64 req.term
    → IsU32 req.candidate_id
    → IsU64 req.last_log_index
    → IsU64 req.last_log_term
    → decode_request_vote_request (encode_request_vote_request req) ≡ ok req
unfolding decode_request_vote_request encode_request_vote_request
request_vote_request_round req ft fc fi fl =
    let last = write_u64_be req.last_log_term in
    let index = write_u64_be req.last_log_index ++ last in
    ground (
      arith,
      append-nil last,
      read_u64-append truncated req.term (write_u32_be req.candidate_id ++ index) ft,
      read_u32-append truncated req.candidate_id index fc,
      read_u64-append truncated req.last_log_index last fi,
      read_u64-append truncated req.last_log_term [] fl,
    )

pub request_vote_response_round :
    (resp : RequestVoteResponse)
    → IsU64 resp.term
    → decode_request_vote_response (encode_request_vote_response resp) ≡ ok resp
unfolding decode_request_vote_response encode_request_vote_response
request_vote_response_round resp ft = ground (
  arith,
  read_u64-append truncated resp.term (flag_byte resp.vote_granted ∷ []) ft,
  read_u8-append truncated (flag_byte resp.vote_granted) [],
)

pub append_entries_response_round :
    (resp : AppendEntriesResponse)
    → IsU64 resp.term
    → decode_append_entries_response (encode_append_entries_response resp) ≡ ok resp
unfolding decode_append_entries_response encode_append_entries_response
append_entries_response_round resp ft = ground (
  arith,
  read_u64-append truncated resp.term (flag_byte resp.success ∷ []) ft,
  read_u8-append truncated (flag_byte resp.success) [],
)

-- The integer fields of the request fit, and so do those of its entries.
pub record RequestFits (req : AppendEntriesRequest) : Type 0 where
  pub term_fits : IsU64 req.term
  pub leader_fits : IsU32 req.leader_id
  pub prev_index_fits : IsU64 req.prev_log_index
  pub prev_term_fits : IsU64 req.prev_log_term
  pub commit_fits : IsU64 req.leader_commit
  pub count_fits : IsU32 (length req.entries)
  pub entries_fit : All EntryFits req.entries

-- An AppendEntries request whose fields and entries fit their types is read back as it was, with
-- all its entries, in order.
pub append_entries_request_round :
    (req : AppendEntriesRequest)
    → RequestFits req
    → decode_append_entries_request (encode_append_entries_request req) ≡ ok req
unfolding decode_append_entries_request encode_append_entries_request
append_entries_request_round req f =
    let entries = encode_entries req.entries in
    let counted = write_u32_be (length req.entries) ++ entries in
    let commit = write_u64_be req.leader_commit ++ counted in
    let prev_term = write_u64_be req.prev_log_term ++ commit in
    let prev_index = write_u64_be req.prev_log_index ++ prev_term in
    ground (
      arith,
      append-nil entries,
      read_u64-append truncated req.term (write_u32_be req.leader_id ++ prev_index) f.term_fits,
      read_u32-append truncated req.leader_id prev_index f.leader_fits,
      read_u64-append truncated req.prev_log_index prev_term f.prev_index_fits,
      read_u64-append truncated req.prev_log_term commit f.prev_term_fits,
      read_u64-append truncated req.leader_commit counted f.commit_fits,
      read_u32-append truncated (length req.entries) entries f.count_fits,
      decode-encode_entries req.entries [] f.entries_fit,
    )
