-- ===== src/Net/Connection/Blocking.antt =====
-- The event loop and the blocking session answer the same bytes with the same bytes.
use neural_kv.Prelude.{
  ℕ, zero, suc, ◌≡◌, refl, sym, ap, ◌∙◌, append-nil, append_assoc, List, [], ◌∷◌, ◌++◌, Bool, true,
  false, Option, none, some,
}
use neural_kv.Protocol.{ParseResult, need_more, complete, malformed}
use neural_kv.Protocol.Frame.{try_parse_frame}
use neural_kv.Net.Socket.{Socket, write_loop}
use neural_kv.Net.Connection.{Connection, process_answer, process_parsed, process_loop}
use neural_kv.Server.Handler.{Backend}
use neural_kv.Server.Session.{Served, waiting, ended, serve_answer, serve_parsed, serve_frames}

-- A socket whose writes take everything.
abbrev pub open_socket : List ℕ → Socket
open_socket sent = record { sent = sent; writes = [] }

abbrev pub live : List ℕ → List ℕ → Connection
live read queued = record { read_buffer = read; write_buffer = queued; closed = false }

module _ {S : Type 0} (b : Backend S) (allow_stale_reads : Bool) (taken : List ℕ) where
  -- The session of a connection from which `taken` has gone out, if what is queued were sent too.
  abbrev pub as_session : Option (Connection × S) → Option (Served S)
  as_session none = none
  as_session (some (c, s)) = elim c.closed [
    | true ↦ some (ended (open_socket (taken ++ c.write_buffer)) s)
    | false ↦ some (waiting c.read_buffer (open_socket (taken ++ c.write_buffer)) s)
  ]

  answer_same :
      (go : Connection → S → Option (Connection × S))
      (go' : List ℕ → Socket → S → Option (Served S)) (read queued : List ℕ)
      (answer : Option (List ℕ)) (s : S)
      → ((queued' : List ℕ)
          → as_session (go (live read queued') s) ≡ go' read (open_socket (taken ++ queued')) s)
      → as_session (process_answer b allow_stale_reads go answer (live read queued) s)
        ≡ serve_answer b allow_stale_reads go' read answer (open_socket (taken ++ queued)) s
  unfolding process_answer serve_answer write_loop
  answer_same go go' read queued none s same = refl
  answer_same go go' read queued (some []) s same = rw (append-nil queued) (same queued)
  answer_same go go' read queued (some (x ∷ xs)) s same =
      same (queued ++ (x ∷ xs))
      ∙ ap (λ sent. go' read (open_socket sent) s) (sym (append_assoc taken queued (x ∷ xs)))

  parsed_same :
      (go : Connection → S → Option (Connection × S))
      (go' : List ℕ → Socket → S → Option (Served S)) (p : ParseResult × List ℕ)
      (read queued : List ℕ) (s : S)
      → ((read' queued' : List ℕ) (s' : S)
          → as_session (go (live read' queued') s') ≡ go' read' (open_socket (taken ++ queued')) s')
      → as_session (process_parsed b allow_stale_reads go p (live read queued) s)
        ≡ serve_parsed b allow_stale_reads go' p (open_socket (taken ++ queued)) s
  unfolding process_parsed serve_parsed
  parsed_same go go' (need_more, rest) read queued s same = refl
  parsed_same go go' (malformed, rest) read queued s same = refl
  parsed_same go go' (complete m, rest) read queued s same =
      answer_same go go' rest queued _ _ λ queued'. same rest queued' _

  -- ProcessFrames queues what a session would send, and closes where it would return.
  pub process_loop-serve_frames :
      (f : ℕ) (read queued : List ℕ) (s : S)
      → as_session (process_loop b allow_stale_reads f (live read queued) s)
        ≡ serve_frames b allow_stale_reads f read (open_socket (taken ++ queued)) s
  unfolding process_loop serve_frames
  process_loop-serve_frames zero read queued s = refl
  process_loop-serve_frames (suc f) read queued s =
      parsed_same _ _ (try_parse_frame read) read queued s (process_loop-serve_frames f)
