-- ===== src/Protocol/Frame.antt =====
-- TryParseFrame of protocol/codec.cpp: one frame from the front of a streaming buffer. The result
-- comes with the buffer as the call leaves it. A caller that passes a null out-parameter ignores
-- the message; that the out-parameters are written only for `complete` is in the type.
use neural_kv.Prelude.{
  ℕ, ◌+◌, List, [], ◌∷◌, Option, none, some, ltb, ◌==◌, not, if◌then◌else◌, length, take, drop,
}
use neural_kv.Bytes.{read_u16_be, read_u32_be}
use neural_kv.Result.{Result, ok, err}
use neural_kv.Protocol.{
  magic, protocol_version, frame_header_size, max_payload_size, MessageType, Message, ParseResult,
  need_more, complete, malformed,
}
use neural_kv.Protocol.Decode.{
  decode_client_request, decode_client_response, decode_cluster_request, decode_cluster_response,
}

-- static_cast<MessageType>(type_byte), with `none` for the values of the `default` branch
abbrev pub message_type : ℕ → Option MessageType
message_type b =
    if b == 0x01
    then some MessageType.client_request
    else if b == 0x02
    then some MessageType.client_response
    else if b == 0x10
    then some MessageType.cluster_request
    else if b == 0x11
    then some MessageType.cluster_response
    else none

abbrev pub deliver {ℓ} : {A : Type ℓ} → (A → Message) → List ℕ → Result A → ParseResult × List ℕ
deliver wrap left (ok a) = (complete (wrap a), left)
deliver wrap left (err s) = (malformed, [])

-- The `switch`: decode the payload; a failure clears the buffer, a success erases the frame.
unfoldable pub dispatch : Option MessageType → List ℕ → List ℕ → ParseResult × List ℕ
dispatch none payload left = (malformed, [])
dispatch (some MessageType.client_request) payload left =
    deliver Message.client_request left (decode_client_request payload)
dispatch (some MessageType.client_response) payload left =
    deliver Message.client_response left (decode_client_response payload)
dispatch (some MessageType.cluster_request) payload left =
    deliver Message.cluster_request left (decode_cluster_request payload)
dispatch (some MessageType.cluster_response) payload left =
    deliver Message.cluster_response left (decode_cluster_response payload)

-- buffer[i], of a buffer that is long enough
abbrev pub byte : List ℕ → ℕ → ℕ
byte buffer i = elim (drop i buffer) [ [] ↦ 0 | b ∷ rest ↦ b ]

unfoldable pub try_parse_frame : List ℕ → ParseResult × List ℕ
try_parse_frame buffer =
    let length_field = read_u32_be (drop 4 buffer) in
    let frame_size = frame_header_size + length_field in
    let payload = take length_field (drop frame_header_size buffer) in
    if ltb (length buffer) frame_header_size
    then (need_more, buffer)
    else if not (read_u16_be buffer == magic)
    then (malformed, [])
    else if not (byte buffer 2 == protocol_version)
    then (malformed, [])
    else if ltb max_payload_size length_field
    then (malformed, [])
    else if ltb (length buffer) frame_size
    then (need_more, buffer)
    else dispatch (message_type (byte buffer 3)) payload (drop frame_size buffer)
