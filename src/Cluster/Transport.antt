-- ===== src/Cluster/Transport.antt =====
-- cluster/transport.cpp: ClusterTransport. What the operating system answers is an argument: the outcome of
-- the dial, of the writes and of the reads.
pub mod Rpc
pub mod Descriptors
use neural_kv.Prelude.{ℕ, List, [], ◌∷◌, ◌++◌, Option, none, some, ◌==◌, if◌then◌else◌, map}
use neural_kv.Status.{Status, ErrorCode, error, is_ok}
use neural_kv.Result.{Result, ok, err}
use neural_kv.Protocol.{
  ClusterRequest, ClusterResponse, Message, ParseResult, need_more, complete, malformed,
}
use neural_kv.Protocol.Encode.{encode_cluster_request}
use neural_kv.Protocol.Frame.{try_parse_frame}
use neural_kv.Net.Socket.{Socket, Transfer, write_full}
use neural_kv.Server.Session.{ReadStep, received, interrupted, broken}

-- The descriptors that the process holds open; `close_quietly` gives one back.
unfoldable pub close_quietly : ℕ → List ℕ → List ℕ
close_quietly fd [] = []
close_quietly fd (held ∷ fds) =
    let rest = close_quietly fd fds in if held == fd then fds else held ∷ rest

-- What one parse of the buffer makes of it, where `go_on` is what follows a need for more bytes: the read.
-- A frame of another type, or a malformed one, is an error.
abbrev pub answer_of : Message → Result ClusterResponse
answer_of (Message.cluster_response resp) = ok resp
answer_of _ = err (error ErrorCode.io_error "peer sent a non-cluster-response frame")

unfoldable pub await_parsed :
    (List ℕ → Option (Result ClusterResponse))
    → ParseResult × List ℕ
    → Option (Result ClusterResponse)
await_parsed go_on (complete m, buffer) = some (answer_of m)
await_parsed go_on (malformed, buffer) =
    some (err (error ErrorCode.io_error "malformed cluster response from peer"))
await_parsed go_on (need_more, buffer) = go_on buffer

abbrev pub hung_up : Result ClusterResponse
hung_up = err (error ErrorCode.io_error "connection closed while awaiting cluster response")

-- The loop of SendRpc. `none` is a read that has not returned when the reads are used up. A read that is
-- interrupted is taken for the end of the stream.
unfoldable pub await_response : List ReadStep → List ℕ → Option (Result ClusterResponse)
await_response [] buffer = await_parsed (λ kept. none) (try_parse_frame buffer)
await_response (received (x ∷ xs) ∷ reads) buffer =
    await_parsed (λ kept. await_response reads (kept ++ (x ∷ xs))) (try_parse_frame buffer)
await_response (received [] ∷ reads) buffer =
    await_parsed (λ kept. some hung_up) (try_parse_frame buffer)
await_response (interrupted ∷ reads) buffer =
    await_parsed (λ kept. some hung_up) (try_parse_frame buffer)
await_response (broken why ∷ reads) buffer =
    await_parsed (λ kept. some hung_up) (try_parse_frame buffer)

-- What a call leaves: its result, what the peer was sent, and the descriptors that are open.
pub record Called : Type 0 where
  pub result : Option (Result ClusterResponse)
  pub sent : List ℕ
  pub open_fds : List ℕ

-- SendRpc. `dialled` is what TcpConnect returns; a descriptor that it returns is open from then on.
-- `none` as in `await_response`: the descriptor is then still open.
unfoldable pub send_rpc :
    Result ℕ → List Transfer → List ReadStep → ClusterRequest → List ℕ → Called
send_rpc (err status) writes reads req fds = record {
  result = some (err status);
  sent = [];
  open_fds = fds;
}
send_rpc (ok fd) writes reads req fds = elim (encode_cluster_request req) [
  | err status ↦ record {
    result = some (err status);
    sent = [];
    open_fds = close_quietly fd (fd ∷ fds);
  }
  | ok encoded ↦
      let (status, socket) = write_full encoded (record { sent = []; writes = writes }) in
      if is_ok status
      then elim (await_response reads []) [
        | none ↦ record { result = none; sent = socket.sent; open_fds = fd ∷ fds }
        | some result ↦ record {
          result = some result;
          sent = socket.sent;
          open_fds = close_quietly fd (fd ∷ fds);
        }
      ]
      else record {
        result = some (err status);
        sent = socket.sent;
        open_fds = close_quietly fd (fd ∷ fds);
      }
]

-- The cache of connections: `peer_fds` has a descriptor for some node ids.
pub record ClusterTransport : Type 0 where
  pub peer_fds : List (ℕ × ℕ)
  pub open_fds : List ℕ

unfoldable pub find_fd : ℕ → List (ℕ × ℕ) → Option ℕ
find_fd node_id [] = none
find_fd node_id ((id, fd) ∷ cached) =
    let rest = find_fd node_id cached in if id == node_id then some fd else rest

-- GetOrConnect; `dialled` is what TcpConnect returns if it is called.
unfoldable pub get_or_connect : ℕ → Result ℕ → ClusterTransport → Result ℕ × ClusterTransport
get_or_connect node_id dialled t = elim (find_fd node_id t.peer_fds) [
  | some fd ↦ (ok fd, t)
  | none ↦ elim dialled [
    | err status ↦ (err status, t)
    | ok fd ↦ (ok fd, record { peer_fds = (node_id, fd) ∷ t.peer_fds; open_fds = fd ∷ t.open_fds })
  ]
]

abbrev pub close_each : List (ℕ × ℕ) → List ℕ → List ℕ
close_each [] fds = fds
close_each ((id, fd) ∷ cached) fds = close_each cached (close_quietly fd fds)

-- CloseAll
unfoldable pub close_all : ClusterTransport → ClusterTransport
close_all t = record { peer_fds = []; open_fds = close_each t.peer_fds t.open_fds }
