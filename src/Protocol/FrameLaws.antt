-- ===== src/Protocol/FrameLaws.antt =====
-- Frames: what an encoder wrote is read back, from the front of a buffer that may hold more.
use neural_kv.Prelude.{
  ℕ, ◌+◌, ◌≤◌, ◌≡◌, refl, List, ◌++◌, arith, length, length-append, drop-add, take-append,
  drop-append,
}
use neural_kv.Bytes.{IsU64, IsU32, write_u16_be, write_u32_be, write_u64_be, read_u16_be}
use neural_kv.Bytes.RoundTrip.{read-write_u32}
use neural_kv.Result.{Result, ok}
use neural_kv.Protocol.{
  max_payload_size, MessageType, ClientRequest, ClientResponse, type_byte, ClusterRequest,
  ClusterResponse, Message,
}
use neural_kv.Protocol.Encode.{
  frame_header, client_request_payload, client_response_payload, cluster_request_payload,
  cluster_response_payload, encode_client_request, encode_client_response, encode_cluster_request,
  encode_cluster_response,
}
use neural_kv.Protocol.Frame.{dispatch, try_parse_frame, message_type}

-- The encoder of each kind of message.
unfoldable pub encode_message : Message → Result (List ℕ)
encode_message (Message.client_request req) = encode_client_request req
encode_message (Message.client_response resp) = encode_client_response resp
encode_message (Message.cluster_request req) = encode_cluster_request req
encode_message (Message.cluster_response resp) = encode_cluster_response resp

-- The integer fields fit their C++ types.
abbrev pub Fits : Message → Type 0
Fits (Message.client_request req) = IsU64 req.request_id
Fits (Message.client_response resp) = IsU64 resp.request_id × IsU32 resp.leader_hint
Fits (Message.cluster_request req) = IsU64 req.request_id
Fits (Message.cluster_response resp) = IsU64 resp.request_id

abbrev pub payload_type : Message → MessageType
payload_type (Message.client_request req) = MessageType.client_request
payload_type (Message.client_response resp) = MessageType.client_response
payload_type (Message.cluster_request req) = MessageType.cluster_request
payload_type (Message.cluster_response resp) = MessageType.cluster_response

abbrev pub message_payload : Message → List ℕ
message_payload (Message.client_request req) = client_request_payload req
message_payload (Message.client_response resp) = client_response_payload resp
message_payload (Message.cluster_request req) = cluster_request_payload req
message_payload (Message.cluster_response resp) = cluster_response_payload resp

length-write_u64 : (v : ℕ) → length (write_u64_be v) ≡ 8
unfolding write_u64_be
length-write_u64 v = refl

pub length-client_request :
    (req : ClientRequest)
    → length (client_request_payload req) ≡ 8 + 1 + 4 + length req.key + 4 + length req.value
unfolding client_request_payload write_u64_be write_u32_be
length-client_request req = omega (arith, length-append {0})

pub length-client_response :
    (resp : ClientResponse)
    → length (client_response_payload resp) ≡ 8 + 2 + 4 + length resp.value + 4
unfolding client_response_payload write_u64_be write_u32_be write_u16_be
length-client_response resp = omega (arith, length-append {0})

pub length-cluster_request :
    (req : ClusterRequest) → length (cluster_request_payload req) ≡ 8 + 1 + 4 + length req.body
unfolding cluster_request_payload write_u64_be write_u32_be
length-cluster_request req = omega (arith, length-append {0})

pub length-cluster_response :
    (resp : ClusterResponse) → length (cluster_response_payload resp) ≡ 8 + 2 + 4 + length resp.body
unfolding cluster_response_payload write_u64_be write_u32_be write_u16_be
length-cluster_response resp = omega (arith, length-append {0})

-- What an encoder returns: a header that announces the payload's length, and the payload.
pub encode_message-eq-ok :
    (m : Message) {frame : List ℕ}
    → encode_message m ≡ ok frame
    → (frame ≡ frame_header (payload_type m) (length (message_payload m)) ++ message_payload m)
      × (length (message_payload m) ≤ max_payload_size)
unfolding encode_message encode_client_request encode_client_response encode_cluster_request
    encode_cluster_response
encode_message-eq-ok (Message.client_request req) h = ground (arith, length-client_request req)
encode_message-eq-ok (Message.client_response resp) h = ground (arith, length-client_response resp)
encode_message-eq-ok (Message.cluster_request req) h = ground (arith, length-cluster_request req)
encode_message-eq-ok (Message.cluster_response resp) h =
    ground (arith, length-cluster_response resp)

-- A whole frame in front of `rest` reaches the decoder of its type.
pub try_parse_frame-framed :
    (t : MessageType) (payload rest : List ℕ)
    → length payload ≤ max_payload_size
    → try_parse_frame (frame_header t (length payload) ++ (payload ++ rest))
      ≡ dispatch (message_type (type_byte t)) payload rest
unfolding try_parse_frame frame_header write_u16_be write_u32_be read_u16_be
try_parse_frame-framed t payload rest h =
    let buffer = frame_header t (length payload) ++ (payload ++ rest) in
    ground (
      arith,
      read-write_u32 (length payload) (payload ++ rest) (omega arith),
      length-append payload rest,
      take-append (length payload) payload rest refl,
      drop-append (length payload) payload rest refl,
      drop-add 8 (length payload) buffer,
    )
