-- ===== src/Protocol/PayloadLaws.antt =====
-- The decoders undo the encoders' payloads.
use neural_kv.Prelude.{
  ℕ, ◌+◌, ◌≤◌, ◌<◌, ◌≡◌, refl, List, [], ◌∷◌, ◌++◌, false, arith, length, append-nil,
}
use neural_kv.Bytes.{IsU64, IsU32, write_u32_be, write_u16_be}
use neural_kv.Reader.Laws.{
  read_u64-append, read_u32-append, read_u16-append, read_u8-append, read_bytes-append,
}
use neural_kv.Result.{ok}
use neural_kv.Protocol.{
  max_payload_size, MessageType, Opcode, opcode_byte, ClientRequest, ClientResponse, ClusterRequest,
  ClusterResponse, status_code, cluster_opcode_byte, is_empty, truncated_payload,
}
use neural_kv.Protocol.Encode.{
  check_value, frame_header, client_request_payload, client_response_payload,
  cluster_request_payload, cluster_response_payload, encode_client_request,
}
use neural_kv.Protocol.Decode.{
  decode_client_request, decode_client_response, decode_cluster_request, decode_cluster_response,
  opcode_of_byte,
}

pub encode_client_request-eq-ok :
    (req : ClientRequest) {frame : List ℕ}
    → encode_client_request req ≡ ok frame
    → (is_empty req.key ≡ false)
      × (check_value req.opcode req.value ≡ ok tt)
      × (8 + 1 + 4 + length req.key + 4 + length req.value ≤ max_payload_size)
      × (frame
          ≡ frame_header MessageType.client_request
              (8 + 1 + 4 + length req.key + 4 + length req.value)
            ++ client_request_payload req)
unfolding encode_client_request
encode_client_request-eq-ok req h = ground arith

key_not_empty : (key : List ℕ) → is_empty key ≡ false → 0 < length key
key_not_empty [] h = absurd (cc)
key_not_empty (b ∷ bs) h = omega arith

opcode_round :
    (op : Opcode) (v : List ℕ)
    → check_value op v ≡ ok tt
    → (opcode_of_byte (opcode_byte op) ≡ op) × (0 < opcode_byte op) × (opcode_byte op < 4)
opcode_round op v h = ground arith

pub decode-client_request :
    (req : ClientRequest)
    → IsU64 req.request_id
    → is_empty req.key ≡ false
    → check_value req.opcode req.value ≡ ok tt
    → 8 + 1 + 4 + length req.key + 4 + length req.value ≤ max_payload_size
    → decode_client_request (client_request_payload req) ≡ ok req
unfolding decode_client_request client_request_payload
decode-client_request req id_fits key_there value_fits size_fits =
    let tail = write_u32_be (length req.value) ++ req.value in
    ground (
      arith,
      key_not_empty req.key,
      opcode_round req.opcode req.value value_fits,
      append-nil req.value,
      read_u64-append truncated_payload req.request_id
          (opcode_byte req.opcode ∷ (write_u32_be (length req.key) ++ (req.key ++ tail))) id_fits,
      read_u8-append truncated_payload (opcode_byte req.opcode)
          (write_u32_be (length req.key) ++ (req.key ++ tail)),
      read_u32-append truncated_payload (length req.key) (req.key ++ tail) (omega arith),
      read_bytes-append truncated_payload (length req.key) req.key tail refl,
      read_u32-append truncated_payload (length req.value) req.value (omega arith),
      read_bytes-append truncated_payload (length req.value) req.value [] refl,
    )

pub decode-client_response :
    (resp : ClientResponse)
    → IsU64 resp.request_id
    → IsU32 resp.leader_hint
    → 8 + 2 + 4 + length resp.value + 4 ≤ max_payload_size
    → decode_client_response (client_response_payload resp) ≡ ok resp
unfolding decode_client_response client_response_payload
decode-client_response resp id_fits hint_fits size_fits =
    let hint = write_u32_be resp.leader_hint in
    let tail = write_u32_be (length resp.value) ++ (resp.value ++ hint) in
    ground (
      arith,
      append-nil hint,
      read_u64-append truncated_payload resp.request_id
          (write_u16_be (status_code resp.status) ++ tail) id_fits,
      read_u16-append truncated_payload (status_code resp.status) tail,
      read_u32-append truncated_payload (length resp.value) (resp.value ++ hint) (omega arith),
      read_bytes-append truncated_payload (length resp.value) resp.value hint refl,
      read_u32-append truncated_payload resp.leader_hint [] hint_fits,
    )

pub decode-cluster_request :
    (req : ClusterRequest)
    → IsU64 req.request_id
    → 8 + 1 + 4 + length req.body ≤ max_payload_size
    → decode_cluster_request (cluster_request_payload req) ≡ ok req
unfolding decode_cluster_request cluster_request_payload
decode-cluster_request req id_fits size_fits =
    let tail = write_u32_be (length req.body) ++ req.body in
    ground (
      arith,
      append-nil req.body,
      read_u64-append truncated_payload req.request_id (cluster_opcode_byte req.opcode ∷ tail)
          id_fits,
      read_u8-append truncated_payload (cluster_opcode_byte req.opcode) tail,
      read_u32-append truncated_payload (length req.body) req.body (omega arith),
      read_bytes-append truncated_payload (length req.body) req.body [] refl,
    )

pub decode-cluster_response :
    (resp : ClusterResponse)
    → IsU64 resp.request_id
    → 8 + 2 + 4 + length resp.body ≤ max_payload_size
    → decode_cluster_response (cluster_response_payload resp) ≡ ok resp
unfolding decode_cluster_response cluster_response_payload
decode-cluster_response resp id_fits size_fits =
    let tail = write_u32_be (length resp.body) ++ resp.body in
    ground (
      arith,
      append-nil resp.body,
      read_u64-append truncated_payload resp.request_id
          (write_u16_be (status_code resp.status) ++ tail) id_fits,
      read_u16-append truncated_payload (status_code resp.status) tail,
      read_u32-append truncated_payload (length resp.body) resp.body (omega arith),
      read_bytes-append truncated_payload (length resp.body) resp.body [] refl,
    )
