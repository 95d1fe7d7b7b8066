-- ===== src/Protocol/Decode.antt =====
-- The decoders of protocol/codec.cpp: `out` is written only on success, so a decoder is a result.
use neural_kv.Prelude.{ℕ, List, ltb, ◌==◌, ◌||◌, not, if◌then◌else◌}
use neural_kv.Reader.{read_bytes, read_u8, read_u16, read_u32, read_u64, at_end}
use neural_kv.Result.{Result, ok, ◌>>=◌, ◌>>◌, refuse_if}
use neural_kv.Protocol.{
  Opcode, ResponseStatus, ClusterOpcode, ClientRequest, ClientResponse, ClusterRequest,
  ClusterResponse, invalid, truncated_payload,
}
use neural_kv.Protocol.Encode.{check_value}

-- static_cast<Opcode>(opcode_byte), and the like for the other enumerations, after the range check.
abbrev pub opcode_of_byte : ℕ → Opcode
opcode_of_byte b =
    if b == 1
    then Opcode.set
    else if b == 2
    then Opcode.get
    else if b == 3
    then Opcode.delete
    else Opcode.unnamed b

abbrev pub status_of_code : ℕ → ResponseStatus
status_of_code c =
    if c == 0
    then ResponseStatus.ok
    else if c == 1
    then ResponseStatus.not_found
    else if c == 2
    then ResponseStatus.bad_request
    else if c == 3
    then ResponseStatus.internal_error
    else ResponseStatus.wrong_leader

abbrev pub cluster_opcode_of_byte : ℕ → ClusterOpcode
cluster_opcode_of_byte b =
    if b == 1
    then ClusterOpcode.ping
    else if b == 2
    then ClusterOpcode.pong
    else if b == 3
    then ClusterOpcode.request_vote
    else ClusterOpcode.append_entries

unfoldable pub decode_client_request : List ℕ → Result ClientRequest
decode_client_request payload = do
  (request_id, at_opcode) ← read_u64 truncated_payload payload
  (op, at_key_len) ← read_u8 truncated_payload at_opcode
  refuse_if (ltb op 1 || ltb 3 op) (invalid "unknown opcode")
  (key_len, at_key) ← read_u32 truncated_payload at_key_len
  refuse_if (key_len == 0) (invalid "key must not be empty")
  (key, at_value_len) ← read_bytes truncated_payload key_len at_key
  (value_len, at_value) ← read_u32 truncated_payload at_value_len
  (value, left) ← read_bytes truncated_payload value_len at_value
  refuse_if (not (at_end left)) (invalid "trailing bytes after payload")
  check_value (opcode_of_byte op) value
  ok (record { request_id = request_id; opcode = opcode_of_byte op; key = key; value = value })

unfoldable pub decode_client_response : List ℕ → Result ClientResponse
decode_client_response payload = do
  (request_id, at_status) ← read_u64 truncated_payload payload
  (code, at_value_len) ← read_u16 truncated_payload at_status
  refuse_if (ltb 4 code) (invalid "unknown response status")
  (value_len, at_value) ← read_u32 truncated_payload at_value_len
  (value, at_hint) ← read_bytes truncated_payload value_len at_value
  (leader_hint, left) ← read_u32 truncated_payload at_hint
  refuse_if (not (at_end left)) (invalid "trailing bytes after payload")
  ok (record {
    request_id = request_id;
    status = status_of_code code;
    value = value;
    leader_hint = leader_hint;
  })

unfoldable pub decode_cluster_request : List ℕ → Result ClusterRequest
decode_cluster_request payload = do
  (request_id, at_opcode) ← read_u64 truncated_payload payload
  (op, at_body_len) ← read_u8 truncated_payload at_opcode
  refuse_if (ltb op 1 || ltb 4 op) (invalid "unknown cluster opcode")
  (body_len, at_body) ← read_u32 truncated_payload at_body_len
  (body, left) ← read_bytes truncated_payload body_len at_body
  refuse_if (not (at_end left)) (invalid "trailing bytes after payload")
  ok (record { request_id = request_id; opcode = cluster_opcode_of_byte op; body = body })

unfoldable pub decode_cluster_response : List ℕ → Result ClusterResponse
decode_cluster_response payload = do
  (request_id, at_status) ← read_u64 truncated_payload payload
  (code, at_body_len) ← read_u16 truncated_payload at_status
  refuse_if (ltb 4 code) (invalid "unknown response status")
  (body_len, at_body) ← read_u32 truncated_payload at_body_len
  (body, left) ← read_bytes truncated_payload body_len at_body
  refuse_if (not (at_end left)) (invalid "trailing bytes after payload")
  ok (record { request_id = request_id; status = status_of_code code; body = body })
