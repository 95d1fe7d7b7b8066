-- ===== src/Protocol/Encode.antt =====
-- The encoders of protocol/codec.cpp. An encoder clears `out` and appends to it only when it
-- returns Ok, so it is a result with the bytes of `out`.
use neural_kv.Prelude.{ℕ, ◌+◌, List, ◌∷◌, ◌++◌, ltb, not, length}
use neural_kv.Bytes.{write_u16_be, write_u32_be, write_u64_be}
use neural_kv.Result.{Result, ok, err, ◌>>◌, refuse_if}
use neural_kv.Protocol.{
  magic, protocol_version, max_payload_size, MessageType, type_byte, Opcode, opcode_byte,
  status_code, cluster_opcode_byte, ClientRequest, ClientResponse, ClusterRequest, ClusterResponse,
  is_empty, invalid,
}

-- The `switch` on the opcode, which the encoder and the decoder share.
abbrev pub check_value : Opcode → List ℕ → Result (Unit {0})
check_value Opcode.set value = refuse_if (is_empty value) (invalid "SET requires a non-empty value")
check_value Opcode.get value =
    refuse_if (not (is_empty value)) (invalid "GET/DELETE must not carry a value")
check_value Opcode.delete value =
    refuse_if (not (is_empty value)) (invalid "GET/DELETE must not carry a value")
check_value (Opcode.unnamed b) value = err (invalid "unknown opcode")

-- The eight bytes before every payload.
unfoldable pub frame_header : MessageType → ℕ → List ℕ
frame_header t payload_size =
    write_u16_be magic ++ (protocol_version ∷ type_byte t ∷ write_u32_be payload_size)

unfoldable pub client_request_payload : ClientRequest → List ℕ
client_request_payload req =
    write_u64_be req.request_id
    ++ (opcode_byte req.opcode
        ∷ (write_u32_be (length req.key)
            ++ (req.key ++ (write_u32_be (length req.value) ++ req.value))))

unfoldable pub client_response_payload : ClientResponse → List ℕ
client_response_payload resp =
    write_u64_be resp.request_id
    ++ (write_u16_be (status_code resp.status)
        ++ (write_u32_be (length resp.value) ++ (resp.value ++ write_u32_be resp.leader_hint)))

unfoldable pub cluster_request_payload : ClusterRequest → List ℕ
cluster_request_payload req =
    write_u64_be req.request_id
    ++ (cluster_opcode_byte req.opcode ∷ (write_u32_be (length req.body) ++ req.body))

unfoldable pub cluster_response_payload : ClusterResponse → List ℕ
cluster_response_payload resp =
    write_u64_be resp.request_id
    ++ (write_u16_be (status_code resp.status) ++ (write_u32_be (length resp.body) ++ resp.body))

unfoldable pub encode_client_request : ClientRequest → Result (List ℕ)
encode_client_request req = do
  refuse_if (is_empty req.key) (invalid "key must not be empty")
  check_value req.opcode req.value
  let payload_size = 8 + 1 + 4 + length req.key + 4 + length req.value
  refuse_if (ltb max_payload_size payload_size) (invalid "payload exceeds max size")
  ok (frame_header MessageType.client_request payload_size ++ client_request_payload req)

unfoldable pub encode_client_response : ClientResponse → Result (List ℕ)
encode_client_response resp = do
  let payload_size = 8 + 2 + 4 + length resp.value + 4
  refuse_if (ltb max_payload_size payload_size) (invalid "payload exceeds max size")
  ok (frame_header MessageType.client_response payload_size ++ client_response_payload resp)

unfoldable pub encode_cluster_request : ClusterRequest → Result (List ℕ)
encode_cluster_request req = do
  let payload_size = 8 + 1 + 4 + length req.body
  refuse_if (ltb max_payload_size payload_size) (invalid "payload exceeds max size")
  ok (frame_header MessageType.cluster_request payload_size ++ cluster_request_payload req)

unfoldable pub encode_cluster_response : ClusterResponse → Result (List ℕ)
encode_cluster_response resp = do
  let payload_size = 8 + 2 + 4 + length resp.body
  refuse_if (ltb max_payload_size payload_size) (invalid "payload exceeds max size")
  ok (frame_header MessageType.cluster_response payload_size ++ cluster_response_payload resp)
