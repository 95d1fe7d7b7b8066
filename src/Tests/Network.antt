-- ===== src/Tests/Network.antt =====
-- The session, the event loop and the transport, over a sample backend and a ping.
use neural_kv.Prelude.{
  ℕ, ◌<◌, ◌≡◌, ◌≢◌, ◌⊎◌, refl, List, [], ◌∷◌, ◌++◌, true, false, none, some, arith, length,
}
use neural_kv.Status.{ErrorCode, okay}
use neural_kv.Result.{ok}
use neural_kv.Bytes.{write_u16_be, write_u32_be, write_u64_be}
use neural_kv.Protocol.{ClusterRequest, ClusterResponse, ClusterOpcode, ResponseStatus, Message}
use neural_kv.Protocol.Encode.{
  frame_header, encode_cluster_request, encode_cluster_response, cluster_request_payload,
  cluster_response_payload,
}
use neural_kv.Protocol.FrameLaws.{encode_message}
use neural_kv.Server.Handler.{handle_cluster}
use neural_kv.Net.Socket.{moved, interrupted, write_full, write_loop, read_full}
use neural_kv.Net.Socket.Laws.{write_full-read_full}
use neural_kv.Net.Connection.{Connection, fresh}
use neural_kv.Net.Connection.Blocking.{open_socket}
use neural_kv.Server.Session.{ReadStep, received, waiting, serve, serve_client_session, respond}
use neural_kv.Server.Session.Fuel.{serve_client_session_total}
use neural_kv.Server.Session.Cut.{bytes_of, hangs_up, close_if, serve_client_session-serve}
use neural_kv.Server.Session.Answers.{encode_all, respond_all, serve_client_session-respond_all}
use neural_kv.Net.EpollServer.{
  Event, EpollServer, LoopEvent, accepted, reported, no_connections, run_events, handle_event,
  settle, accept_connection, remove_connection, Handled,
}
use neural_kv.Net.EpollServer.Invariant.{AgreesWithEpoll, run_events-AgreesWithEpoll}
use neural_kv.Net.EpollServer.Output.{run_connection, all_read, run_connection-serve}
use neural_kv.Cluster.Transport.{send_rpc}
use neural_kv.Cluster.Transport.Rpc.{pieces, send_rpc-handle_cluster}
use neural_kv.Tests.Serving.{counting}

three_arrive :
    (write_full (1 ∷ 2 ∷ 3 ∷ []) (record { sent = []; writes = moved 1 ∷ interrupted ∷ [] })).0
    ≡ okay
unfolding write_loop
three_arrive = refl

write_full-read_full_example :
    let (written, socket) =
      write_full (1 ∷ 2 ∷ 3 ∷ []) (record { sent = []; writes = moved 1 ∷ interrupted ∷ [] }) in
    let (read, got, left) = read_full (moved 2 ∷ []) 3 socket.sent in
    ((read ≡ okay) × (got ≡ (1 ∷ 2 ∷ 3 ∷ [])) × (left ≡ []))
    ⊎ ((read.code ≡ ErrorCode.io_error) × (length got < 3) × (got ++ left ≡ (1 ∷ 2 ∷ 3 ∷ [])))
write_full-read_full_example =
    write_full-read_full (1 ∷ 2 ∷ 3 ∷ []) (moved 1 ∷ interrupted ∷ []) (moved 2 ∷ []) three_arrive

abbrev ping : ClusterRequest
ping = record { request_id = 7; opcode = ClusterOpcode.ping; body = [] }

abbrev ping_front : List ℕ
ping_front = 75 ∷ 1 ∷ 16 ∷ 0 ∷ 0 ∷ []

abbrev ping_back : List ℕ
ping_back = 13 ∷ 0 ∷ 0 ∷ 0 ∷ 0 ∷ 0 ∷ 0 ∷ 0 ∷ 7 ∷ 1 ∷ 0 ∷ 0 ∷ 0 ∷ 0 ∷ []

abbrev ping_frame : List ℕ
ping_frame = 78 ∷ (ping_front ++ (0 ∷ ping_back))

abbrev pong_front : List ℕ
pong_front = 75 ∷ 1 ∷ 17 ∷ 0 ∷ 0 ∷ 0 ∷ 18 ∷ 0 ∷ 0 ∷ 0 ∷ []

abbrev pong_back : List ℕ
pong_back = 0 ∷ 0 ∷ 0 ∷ 7 ∷ 0 ∷ 0 ∷ 0 ∷ 0 ∷ 0 ∷ 4 ∷ 112 ∷ 111 ∷ 110 ∷ 103 ∷ []

abbrev pong_frame : List ℕ
pong_frame = 78 ∷ (pong_front ++ (0 ∷ pong_back))

ping_encoded : encode_cluster_request ping ≡ ok ping_frame
unfolding encode_cluster_request frame_header cluster_request_payload write_u16_be write_u32_be
    write_u64_be
ping_encoded = refl

pong_encoded : encode_cluster_response (handle_cluster counting ping 0).0 ≡ ok pong_frame
unfolding handle_cluster encode_cluster_response frame_header cluster_response_payload write_u16_be
    write_u32_be write_u64_be
pong_encoded = refl

-- The ping's frame in two reads, with an interruption between them.
abbrev ping_reads : List ReadStep
ping_reads = received (78 ∷ ping_front) ∷ ReadStep.interrupted ∷ received (0 ∷ ping_back) ∷ []

ping_there : bytes_of ping_reads ≡ ping_frame
unfolding bytes_of
ping_there = refl

ping_stays : hangs_up ping_reads ≡ false
unfolding hangs_up
ping_stays = refl

serve_client_session_total_example :
    serve_client_session counting false ping_reads (open_socket []) 0 ≢ none
serve_client_session_total_example =
    serve_client_session_total counting false ping_reads (open_socket []) 0

serve_client_session-serve_example :
    serve_client_session counting false ping_reads (open_socket []) 0
    ≡ close_if counting false
        (serve counting false (bytes_of ping_reads) (open_socket []) 0)
        (hangs_up ping_reads)
serve_client_session-serve_example =
    serve_client_session-serve counting false ping_reads (open_socket []) 0

two_encoded :
    encode_all (Message.cluster_request ping ∷ Message.cluster_request ping ∷ [])
    ≡ ok (ping_frame ++ ping_frame)
unfolding encode_all encode_message encode_cluster_request frame_header cluster_request_payload
    write_u16_be write_u32_be write_u64_be
two_encoded = refl

two_answered :
    respond_all counting false (Message.cluster_request ping ∷ Message.cluster_request ping ∷ []) 0
    ≡ some (pong_frame ++ pong_frame, 0)
unfolding respond_all respond handle_cluster encode_cluster_response frame_header
    cluster_response_payload write_u16_be write_u32_be write_u64_be
two_answered = refl

abbrev two_reads : List ReadStep
two_reads = received ping_frame ∷ ping_reads

two_there : bytes_of two_reads ≡ ping_frame ++ ping_frame
unfolding bytes_of
two_there = refl

two_stay : hangs_up two_reads ≡ false
unfolding hangs_up
two_stay = refl

serve_client_session-respond_all_example :
    serve_client_session counting false two_reads (open_socket []) 0
    ≡ some (waiting [] (open_socket (pong_frame ++ pong_frame)) 0)
serve_client_session-respond_all_example =
    serve_client_session-respond_all counting false
      (Message.cluster_request ping ∷ Message.cluster_request ping ∷ []) (ping_frame ++ ping_frame)
      (pong_frame ++ pong_frame) two_reads 0 0 (omega arith, (omega arith, tt)) two_encoded
      two_answered two_there two_stay

-- The ping in two events, the second of which lets three bytes of the answer go out.
abbrev ping_events : List Event
ping_events =
    record { hung_up = false; epollin = some (received (78 ∷ ping_front) ∷ []); epollout = none }
    ∷ record {
      hung_up = false;
      epollin = some (received (0 ∷ ping_back) ∷ []);
      epollout = some (moved 3 ∷ []);
    }
    ∷ []

abbrev answering : Connection
answering = record {
  read_buffer = [];
  write_buffer = 17 ∷ 0 ∷ 0 ∷ 0 ∷ 18 ∷ 0 ∷ 0 ∷ 0 ∷ 0 ∷ pong_back;
  closed = false;
}

abbrev ping_handled : Handled ℕ
ping_handled = record { taken = 78 ∷ 75 ∷ 1 ∷ []; connection = some answering; behind = 0 }

ping_events_run : run_connection counting false ping_events [] fresh 0 ≡ some ping_handled
unfolding run_connection neural_kv.Net.Connection.on_readable neural_kv.Net.Connection.process_loop
    neural_kv.Net.Connection.process_parsed neural_kv.Net.Connection.process_answer
    neural_kv.Net.Connection.flush neural_kv.Net.Connection.on_writable
    neural_kv.Net.EpollServer.handle_connection neural_kv.Net.EpollServer.handle_readable
    neural_kv.Net.EpollServer.handle_writable handle_cluster encode_cluster_response frame_header
    cluster_response_payload write_u16_be write_u32_be write_u64_be neural_kv.Bytes.write_u64_loop
    respond neural_kv.Protocol.Frame.try_parse_frame neural_kv.Bytes.read_u16_be
    neural_kv.Bytes.read_u32_be neural_kv.Bytes.read_u64_step neural_kv.Bytes.read_u64_be
    neural_kv.Protocol.Frame.dispatch neural_kv.Protocol.Decode.decode_cluster_request
    neural_kv.Reader.read_u64 neural_kv.Reader.read_u8 neural_kv.Reader.read_u32
    neural_kv.Reader.read_bytes
ping_events_run = refl

run_connection-serve_example :
    serve counting false (all_read ping_events) (open_socket []) 0
    ≡ some (waiting [] (open_socket ((78 ∷ 75 ∷ 1 ∷ []) ++ answering.write_buffer)) 0)
run_connection-serve_example =
    run_connection-serve counting false ping_events 0 ping_handled answering ping_events_run refl

abbrev loop_events : List LoopEvent
loop_events =
    accepted 5 true
    ∷ reported 5
        (record { hung_up = false; epollin = some (received ping_frame ∷ []); epollout = none })
    ∷ accepted 6 true
    ∷ reported 6 (record { hung_up = true; epollin = none; epollout = none })
    ∷ []

-- Connection 5 with the answer queued, connection 6 gone.
abbrev loop_server : EpollServer
loop_server = settle 6 none (
    accept_connection 6 true (
      settle 5 (some (record { read_buffer = []; write_buffer = pong_frame; closed = false }))
        (accept_connection 5 true no_connections)))

loop_run : run_events counting false loop_events no_connections 0 ≡ some (loop_server, 0)
unfolding run_events handle_event neural_kv.Net.EpollServer.wanted_events remove_connection settle
    accept_connection neural_kv.Net.Connection.on_readable neural_kv.Net.Connection.process_loop
    neural_kv.Net.Connection.process_parsed neural_kv.Net.Connection.process_answer
    neural_kv.Net.Connection.flush neural_kv.Net.Connection.on_writable
    neural_kv.Net.EpollServer.handle_connection neural_kv.Net.EpollServer.handle_readable
    neural_kv.Net.EpollServer.handle_writable handle_cluster encode_cluster_response frame_header
    cluster_response_payload write_u16_be write_u32_be write_u64_be neural_kv.Bytes.write_u64_loop
    respond neural_kv.Protocol.Frame.try_parse_frame neural_kv.Bytes.read_u16_be
    neural_kv.Bytes.read_u32_be neural_kv.Bytes.read_u64_step neural_kv.Bytes.read_u64_be
    neural_kv.Protocol.Frame.dispatch neural_kv.Protocol.Decode.decode_cluster_request
    neural_kv.Reader.read_u64 neural_kv.Reader.read_u8 neural_kv.Reader.read_u32
    neural_kv.Reader.read_bytes
loop_run = refl

run_events-AgreesWithEpoll_example : AgreesWithEpoll loop_server
run_events-AgreesWithEpoll_example =
    run_events-AgreesWithEpoll counting false loop_events 0 0 loop_server loop_run

ping_written :
    (write_full ping_frame (record { sent = []; writes = moved 4 ∷ interrupted ∷ [] })).0 ≡ okay
unfolding write_loop
ping_written = refl

ping_sent :
    bytes_of ping_reads
    ≡ (send_rpc
        (ok 9)
        (moved 4 ∷ interrupted ∷ [])
        (pieces ((78, pong_front) ∷ (0, pong_back) ∷ []))
        ping
        []).sent
unfolding bytes_of send_rpc encode_cluster_request cluster_request_payload write_loop frame_header
    write_u16_be write_u32_be write_u64_be neural_kv.Bytes.write_u64_loop
    neural_kv.Cluster.Transport.await_response neural_kv.Cluster.Transport.await_parsed
    neural_kv.Protocol.Frame.try_parse_frame neural_kv.Bytes.read_u16_be neural_kv.Bytes.read_u32_be
    neural_kv.Bytes.read_u64_be neural_kv.Protocol.Frame.dispatch
    neural_kv.Protocol.Decode.decode_cluster_response neural_kv.Reader.read_u64
    neural_kv.Reader.read_u16 neural_kv.Reader.read_u32 neural_kv.Reader.read_bytes
ping_sent = refl

send_rpc-handle_cluster_example :
    (serve_client_session counting false ping_reads (open_socket []) 0
      ≡ some (waiting [] (open_socket pong_frame) (handle_cluster counting ping 0).1))
    × ((send_rpc
          (ok 9)
          (moved 4 ∷ interrupted ∷ [])
          (pieces ((78, pong_front) ∷ (0, pong_back) ∷ []))
          ping
          []).result
        ≡ some (ok (handle_cluster counting ping 0).0))
send_rpc-handle_cluster_example =
    send_rpc-handle_cluster counting false ping 0 9 [] ping_frame pong_frame
      (moved 4 ∷ interrupted ∷ []) ping_reads ((78, pong_front) ∷ (0, pong_back) ∷ []) []
      (omega arith) ping_encoded pong_encoded ping_written ping_sent ping_stays refl
