-- ===== src/Cluster/Transport/Rpc.antt =====
-- What SendRpc returns.
use neural_kv.Prelude.{
  ℕ, ◌≡◌, refl, sym, ap, ◌∙◌, subst, inl, inr, List, [], ◌∷◌, ◌++◌, Bool, true, false, Option, some,
  if◌then◌else◌, arith, append_assoc, append-nil,
}
use neural_kv.Bytes.{IsU64}
use neural_kv.Status.{okay, is_ok}
use neural_kv.Result.{Result, ok, Result-cases}
use neural_kv.Protocol.{
  ClusterRequest, ClusterResponse, Message, ClusterOpcode, ParseResult, need_more, complete,
  malformed,
}
use neural_kv.Protocol.Encode.{encode_cluster_request, encode_cluster_response}
use neural_kv.Protocol.FrameLaws.{encode_message}
use neural_kv.Protocol.Frame.{try_parse_frame}
use neural_kv.Protocol.Streaming.{try_parse_frame-encode}
use neural_kv.Protocol.Incremental.{
  try_parse_frame_more, try_parse_frame_refused, try_parse_frame_waits,
}
use neural_kv.Net.Socket.{Transfer, write_full}
use neural_kv.Net.Socket.Laws.{write_full_ok}
use neural_kv.Net.Connection.Blocking.{open_socket}
use neural_kv.Server.Handler.{Backend, handle_cluster, handle_vote, handle_entries}
use neural_kv.Server.Session.{ReadStep, received, waiting, serve_client_session, respond}
use neural_kv.Server.Session.Cut.{bytes_of, hangs_up}
use neural_kv.Server.Session.Answers.{respond_all, encode_all, serve_client_session-respond_all}
use neural_kv.Raft.RpcCodec.{decode_request_vote_request, decode_append_entries_request}
use neural_kv.Cluster.Transport.{answer_of, await_parsed, await_response, send_rpc}

-- Reads that each bring some bytes, and the bytes that they bring.
abbrev pub pieces : List (ℕ × List ℕ) → List ReadStep
pieces [] = []
pieces ((x, xs) ∷ more) = received (x ∷ xs) ∷ pieces more

abbrev pub joined : List (ℕ × List ℕ) → List ℕ
joined [] = []
joined ((x, xs) ∷ more) = (x ∷ xs) ++ joined more

-- One parse of a buffer from which, with what is still to come, a message is parsed.
await_parsed_cut :
    (go : List ℕ → Option (Result ClusterResponse)) (p : ParseResult × List ℕ)
    (buffer more : List ℕ) (m : Message) (rest : List ℕ)
    → try_parse_frame buffer ≡ p
    → try_parse_frame (buffer ++ more) ≡ (complete m, rest)
    → (p.0 ≡ need_more → go buffer ≡ some (answer_of m))
    → await_parsed go p ≡ some (answer_of m)
unfolding await_parsed
await_parsed_cut go (need_more, kept) buffer more m rest h whole wait =
    ap go (sym (ap (λ p. p.1) h) ∙ try_parse_frame_waits buffer (ap (λ p. p.0) h)) ∙ wait refl
await_parsed_cut go (malformed, kept) buffer more m rest h whole wait =
    absurd (ground (arith, try_parse_frame_refused buffer more (ap (λ p. p.0) h), whole))
await_parsed_cut go (complete m', kept) buffer more m rest h whole wait =
    let same : m' ≡ m = ground (arith, (try_parse_frame_more buffer more m' kept h).0, whole) in
    ap (λ a. some (answer_of a)) same

-- The first message of the bytes that come decides what SendRpc returns, however they are cut into
-- reads: the message, if it is a cluster response, and an I/O error otherwise.
pub await_response_cut :
    (cs : List (ℕ × List ℕ)) (buffer : List ℕ) (m : Message) (rest : List ℕ)
    → try_parse_frame (buffer ++ joined cs) ≡ (complete m, rest)
    → await_response (pieces cs) buffer ≡ some (answer_of m)
unfolding await_response
await_response_cut [] buffer m rest whole =
    await_parsed_cut _ (try_parse_frame buffer) buffer [] m rest refl whole
      λ waits. absurd (ground (arith, append-nil buffer, waits, whole))
await_response_cut ((x, xs) ∷ cs) buffer m rest whole =
    await_parsed_cut _ (try_parse_frame buffer) buffer (joined ((x, xs) ∷ cs)) m rest refl whole
      λ waits.
        await_response_cut cs (buffer ++ (x ∷ xs)) m rest
          (rw (append_assoc buffer (x ∷ xs) (joined cs)) whole)

call_lem :
    (req : ClusterRequest) (fd : ℕ) (fds frame : List ℕ) (writes : List Transfer)
    (reads : List ReadStep) (result : Result ClusterResponse)
    → encode_cluster_request req ≡ ok frame
    → (write_full frame (record { sent = []; writes = writes })).0 ≡ okay
    → await_response reads [] ≡ some result
    → ((send_rpc (ok fd) writes reads req fds).sent ≡ frame)
      × ((send_rpc (ok fd) writes reads req fds).result ≡ some result)
unfolding send_rpc
call_lem req fd fds frame writes reads result enc wrote there =
    let sent = write_full_ok frame (record { sent = []; writes = writes }) wrote in
    let good : is_ok (write_full frame (record { sent = []; writes = writes })).0 ≡ true =
      ap is_ok wrote in
    (ground (arith, enc, good, there, sent), ground (arith, enc, good, there))

module _ {S : Type 0} (b : Backend S) where
  vote_id : (id : ℕ) (body : List ℕ) (s : S) → (handle_vote b id body s).0.request_id ≡ id
  unfolding handle_vote
  vote_id id body s = elim (Result-cases (decode_request_vote_request body)) [
    | inl (req, e) ↦ ground (arith, e)
    | inr (status, e) ↦ ground (arith, e)
  ]

  entries_id : (id : ℕ) (body : List ℕ) (s : S) → (handle_entries b id body s).0.request_id ≡ id
  unfolding handle_entries
  entries_id id body s = elim (Result-cases (decode_append_entries_request body)) [
    | inl (req, e) ↦ ground (arith, e)
    | inr (status, e) ↦ ground (arith, e)
  ]

  if_id :
      (test : Bool) (id : ℕ) (yes_case no_case : ClusterResponse × S)
      → yes_case.0.request_id ≡ id
      → no_case.0.request_id ≡ id
      → (if test then yes_case else no_case).0.request_id ≡ id
  if_id true id yes_case no_case h h' = h
  if_id false id yes_case no_case h h' = h'

  opcode_id :
      (opcode : ClusterOpcode) (id : ℕ) (body : List ℕ) (s : S)
      → (handle_cluster b (record { request_id = id; opcode = opcode; body = body }) s).0.request_id
        ≡ id
  unfolding handle_cluster
  opcode_id ClusterOpcode.ping id body s = refl
  opcode_id ClusterOpcode.pong id body s = refl
  opcode_id ClusterOpcode.request_vote id body s =
      if_id _ id _ (handle_vote b id body s) refl (vote_id id body s)
  opcode_id ClusterOpcode.append_entries id body s =
      if_id _ id _ (handle_entries b id body s) refl (entries_id id body s)

  handle_cluster_id :
      (req : ClusterRequest) (s : S) → (handle_cluster b req s).0.request_id ≡ req.request_id
  handle_cluster_id req s = opcode_id req.opcode req.request_id req.body s

  one_frame :
      (req : ClusterRequest) (frame : List ℕ)
      → encode_cluster_request req ≡ ok frame
      → encode_all (Message.cluster_request req ∷ []) ≡ ok frame
  unfolding encode_all encode_message
  one_frame req frame enc = rw (enc) (ap ok (append-nil frame))

  respond_cluster :
      (allow_stale_reads : Bool) (req : ClusterRequest) (s : S) (answer : List ℕ)
      → encode_cluster_response (handle_cluster b req s).0 ≡ ok answer
      → respond b allow_stale_reads (Message.cluster_request req) s
        ≡ (some answer, (handle_cluster b req s).1)
  unfolding respond
  respond_cluster allow_stale_reads req s answer enc = ground (arith, enc)

  one_answer :
      (allow_stale_reads : Bool) (req : ClusterRequest) (s : S) (answer : List ℕ)
      → encode_cluster_response (handle_cluster b req s).0 ≡ ok answer
      → respond_all b allow_stale_reads (Message.cluster_request req ∷ []) s
        ≡ some (answer, (handle_cluster b req s).1)
  unfolding respond_all
  one_answer allow_stale_reads req s answer enc =
      rw
        (
          respond_all,
          ap (λ o. o.0) (respond_cluster allow_stale_reads req s answer enc),
          ap (λ o. o.1) (respond_cluster allow_stale_reads req s answer enc),
        )
        (ap (λ r. some (r, (handle_cluster b req s).1)) (append-nil answer))

  -- A call of SendRpc whose writes succeed, with a peer whose session reads what was sent and whose
  -- answer comes back: the peer's session ends up waiting with an empty buffer, having handled the
  -- request once, and the call returns exactly the response of the peer's handler, however the
  -- bytes are cut in either direction and whatever comes behind the answer.
  pub send_rpc-handle_cluster :
      (allow_stale_reads : Bool) (req : ClusterRequest) (s : S) (fd : ℕ) (fds frame answer : List ℕ)
      (writes : List Transfer) (peer_reads : List ReadStep) (cs : List (ℕ × List ℕ))
      (behind : List ℕ)
      → IsU64 req.request_id
      → encode_cluster_request req ≡ ok frame
      → encode_cluster_response (handle_cluster b req s).0 ≡ ok answer
      → (write_full frame (record { sent = []; writes = writes })).0 ≡ okay
      → bytes_of peer_reads ≡ (send_rpc (ok fd) writes (pieces cs) req fds).sent
      → hangs_up peer_reads ≡ false
      → joined cs ≡ answer ++ behind
      → (serve_client_session b allow_stale_reads peer_reads (open_socket []) s
          ≡ some (waiting [] (open_socket answer) (handle_cluster b req s).1))
        × ((send_rpc (ok fd) writes (pieces cs) req fds).result
            ≡ some (ok (handle_cluster b req s).0))
  unfolding encode_message
  send_rpc-handle_cluster allow_stale_reads req s fd fds frame answer writes peer_reads cs behind
        fits enc enc' wrote arrives stays comes =
      let answered : await_response (pieces cs) [] ≡ some (ok (handle_cluster b req s).0) =
        await_response_cut cs [] (Message.cluster_response (handle_cluster b req s).0) behind (
          ap try_parse_frame comes
          ∙ try_parse_frame-encode (Message.cluster_response (handle_cluster b req s).0) answer
              behind (subst IsU64 (sym (handle_cluster_id req s)) fits) enc') in
      let (sent, result) = call_lem req fd fds frame writes (pieces cs) _ enc wrote answered in
      (
        serve_client_session-respond_all b allow_stale_reads (Message.cluster_request req ∷ [])
            frame answer peer_reads s (handle_cluster b req s).1 (fits, tt)
            (one_frame req frame enc) (one_answer allow_stale_reads req s answer enc')
            (arrives ∙ sent) stays,
        result,
      )
