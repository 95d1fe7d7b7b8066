-- ===== src/Protocol.antt =====
-- protocol/types.h and protocol/constants.h: the messages of the wire protocol.
pub mod Encode
pub mod Decode
pub mod Frame
pub mod PayloadLaws
pub mod Canonical
pub mod FrameLaws
pub mod Streaming
pub mod Incremental
use neural_kv.Prelude.{ℕ, List, [], ◌∷◌, Bool, true, false}
use neural_kv.Status.{Status, ErrorCode, error}
use neural_kv.Prelude.{String, ◌*◌}

-- kMagic, kProtocolVersion, kFrameHeaderSize, kMaxPayloadSize
abbrev pub magic : ℕ
magic = 0x4E4B

abbrev pub protocol_version : ℕ
protocol_version = 1

abbrev pub frame_header_size : ℕ
frame_header_size = 8

abbrev pub max_payload_size : ℕ
max_payload_size = 16 * 1024 * 1024

pub data MessageType : Type 0 where
  client_request client_response cluster_request cluster_response : MessageType

-- static_cast<uint8_t>(MessageType)
abbrev pub type_byte : MessageType → ℕ
type_byte MessageType.client_request = 0x01
type_byte MessageType.client_response = 0x02
type_byte MessageType.cluster_request = 0x10
type_byte MessageType.cluster_response = 0x11

-- `unnamed` is any other value of the underlying byte, which a cast can produce.
pub data Opcode : Type 0 where
  set get delete : Opcode
  unnamed : ℕ → Opcode

abbrev pub opcode_byte : Opcode → ℕ
opcode_byte Opcode.set = 1
opcode_byte Opcode.get = 2
opcode_byte Opcode.delete = 3
opcode_byte (Opcode.unnamed b) = b

pub data ResponseStatus : Type 0 where
  ok not_found bad_request internal_error wrong_leader : ResponseStatus

abbrev pub status_code : ResponseStatus → ℕ
status_code ResponseStatus.ok = 0
status_code ResponseStatus.not_found = 1
status_code ResponseStatus.bad_request = 2
status_code ResponseStatus.internal_error = 3
status_code ResponseStatus.wrong_leader = 4

pub data ClusterOpcode : Type 0 where
  ping pong request_vote append_entries : ClusterOpcode

abbrev pub cluster_opcode_byte : ClusterOpcode → ℕ
cluster_opcode_byte ClusterOpcode.ping = 1
cluster_opcode_byte ClusterOpcode.pong = 2
cluster_opcode_byte ClusterOpcode.request_vote = 3
cluster_opcode_byte ClusterOpcode.append_entries = 4

pub record ClientRequest : Type 0 where
  pub request_id : ℕ
  pub opcode : Opcode
  pub key : List ℕ
  pub value : List ℕ

pub record ClientResponse : Type 0 where
  pub request_id : ℕ
  pub status : ResponseStatus
  pub value : List ℕ
  pub leader_hint : ℕ

pub record ClusterRequest : Type 0 where
  pub request_id : ℕ
  pub opcode : ClusterOpcode
  pub body : List ℕ

pub record ClusterResponse : Type 0 where
  pub request_id : ℕ
  pub status : ResponseStatus
  pub body : List ℕ

-- A decoded frame: `*out_type` with the one out-parameter that belongs to it.
pub data Message : Type 0 where
  client_request : ClientRequest → Message
  client_response : ClientResponse → Message
  cluster_request : ClusterRequest → Message
  cluster_response : ClusterResponse → Message

pub data ParseResult : Type 0 where
  need_more : ParseResult
  complete : Message → ParseResult
  malformed : ParseResult

-- std::string::empty()
abbrev pub is_empty : List ℕ → Bool
is_empty [] = true
is_empty (b ∷ bs) = false

abbrev pub invalid : String → Status
invalid m = error ErrorCode.invalid_argument m

abbrev pub truncated_payload : Status
truncated_payload = invalid "truncated payload"
