-- ===== src/Server/Session.antt =====
-- server/connection_session.cpp: ServeClientSession. The outcomes of the reads and writes on the client's
-- socket are arguments. The two nested loops are `serve_frames`, on fuel, and `serve_client_session`, on
-- the reads.
pub mod Fuel
pub mod Cut
pub mod Answers
use neural_kv.Prelude.{
  ℕ, zero, suc, String, List, [], ◌∷◌, ◌++◌, Bool, if◌then◌else◌, Option, none, some, length,
}
use neural_kv.Status.{okay, is_ok}
use neural_kv.Result.{Result, ok, err}
use neural_kv.Protocol.{Message, ParseResult, need_more, complete, malformed}
use neural_kv.Protocol.Encode.{encode_client_response, encode_cluster_response}
use neural_kv.Protocol.Frame.{try_parse_frame}
use neural_kv.Net.Socket.{Socket, write_full}
use neural_kv.Server.Handler.{Backend, handle, handle_cluster}

-- What a `read` of at most 4096 bytes returns; no bytes are the end of the stream.
pub data ReadStep : Type 0 where
  received : List ℕ → ReadStep
  interrupted : ReadStep
  broken : String → ReadStep

-- Where a session stands: waiting in `read` with what its buffer holds, or returned.
pub data Served (S : Type 0) : Type 0 where
  waiting : List ℕ → Socket → S → Served S
  ended : Socket → S → Served S

module _ {S : Type 0} (b : Backend S) (allow_stale_reads : Bool) where
  -- The answer to a message, encoded: `none` where the session returns without one, since the answer
  -- does not fit a frame or the message is itself an answer.
  unfoldable pub respond : Message → S → Option (List ℕ) × S
  respond (Message.client_request req) s =
      let (resp, s') = handle b allow_stale_reads req s in
      elim (encode_client_response resp) [ ok encoded ↦ (some encoded, s') | err e ↦ (none, s') ]
  respond (Message.cluster_request req) s =
      let (resp, s') = handle_cluster b req s in
      elim (encode_cluster_response resp) [ ok encoded ↦ (some encoded, s') | err e ↦ (none, s') ]
  respond (Message.client_response resp) s = (none, s)
  respond (Message.cluster_response resp) s = (none, s)

  -- What follows the answer to a frame, and one parse of the buffer, in the inner loop; `go_on` is its
  -- next round.
  unfoldable pub serve_answer :
      (List ℕ → Socket → S → Option (Served S))
      → List ℕ
      → Option (List ℕ)
      → Socket
      → S
      → Option (Served S)
  serve_answer go_on buffer none socket s = some (ended socket s)
  serve_answer go_on buffer (some encoded) socket s =
      let (status, socket') = write_full encoded socket in
      if is_ok status then go_on buffer socket' s else some (ended socket' s)

  unfoldable pub serve_parsed :
      (List ℕ → Socket → S → Option (Served S))
      → ParseResult × List ℕ
      → Socket
      → S
      → Option (Served S)
  unfolding serve_answer
  serve_parsed go_on (need_more, buffer) socket s = some (waiting buffer socket s)
  serve_parsed go_on (malformed, buffer) socket s = some (ended socket s)
  serve_parsed go_on (complete m, buffer) socket s =
      let (answer, s') = respond m s in serve_answer go_on buffer answer socket s'

  -- The inner loop. `none` is the fuel used up.
  unfoldable pub serve_frames : ℕ → List ℕ → Socket → S → Option (Served S)
  serve_frames zero buffer socket s = none
  serve_frames (suc fuel) buffer socket s =
      serve_parsed (serve_frames fuel) (try_parse_frame buffer) socket s

  -- Every frame that is taken shortens the buffer.
  abbrev pub serve : List ℕ → Socket → S → Option (Served S)
  serve buffer socket s = serve_frames (suc (length buffer)) buffer socket s

  -- The outer loop, from a `read` on. A session that is interrupted in it parses its buffer again.
  unfoldable pub serve_reads : List ReadStep → Served S → Option (Served S)
  serve_reads reads (ended socket s) = some (ended socket s)
  serve_reads [] (waiting buffer socket s) = some (waiting buffer socket s)
  serve_reads (interrupted ∷ reads) (waiting buffer socket s) = elim (serve buffer socket s) [
    | none ↦ none
    | some next ↦ serve_reads reads next
  ]
  serve_reads (broken why ∷ reads) (waiting buffer socket s) = some (ended socket s)
  serve_reads (received [] ∷ reads) (waiting buffer socket s) = some (ended socket s)
  serve_reads (received (x ∷ xs) ∷ reads) (waiting buffer socket s) =
      elim (serve (buffer ++ (x ∷ xs)) socket s) [
        | none ↦ none
        | some next ↦ serve_reads reads next
      ]

  unfoldable pub serve_client_session : List ReadStep → Socket → S → Option (Served S)
  serve_client_session reads socket s = elim (serve [] socket s) [
    | none ↦ none
    | some first ↦ serve_reads reads first
  ]
