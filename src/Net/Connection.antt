-- ===== src/Net/Connection.antt =====
-- net/connection.cpp: the state of one connection of the event loop. The outcomes of the reads and writes
-- on its socket are arguments; when the list is used up, the next call would block (EAGAIN).
pub mod Blocking
pub mod Events
use neural_kv.Prelude.{
  ℕ, zero, suc, ◌<◌, String, List, [], ◌∷◌, ◌++◌, Bool, true, false, Option, none, some, length,
  take, drop,
}
use neural_kv.Status.{Status, ErrorCode, okay, error}
use neural_kv.Protocol.{Message, ParseResult, need_more, complete, malformed}
use neural_kv.Protocol.Frame.{try_parse_frame}
use neural_kv.Net.Socket.{Transfer, moved, interrupted, failed}
use neural_kv.Server.Handler.{Backend}
use neural_kv.Server.Session.{ReadStep, received, interrupted, broken, respond}

pub record Connection : Type 0 where
  pub read_buffer : List ℕ
  pub write_buffer : List ℕ
  pub closed : Bool

abbrev pub fresh : Connection
fresh = record { read_buffer = []; write_buffer = []; closed = false }

abbrev pub mark_closed : Connection → Connection
mark_closed c = record c { closed = true }

module _ {S : Type 0} (b : Backend S) (allow_stale_reads : Bool) where
  -- What follows one parse in ProcessFrames, of which `go_on` is the next round.
  unfoldable pub process_answer :
      (Connection → S → Option (Connection × S))
      → Option (List ℕ)
      → Connection
      → S
      → Option (Connection × S)
  process_answer go_on none c s = some (mark_closed c, s)
  process_answer go_on (some encoded) c s =
      go_on (record c { write_buffer = c.write_buffer ++ encoded }) s

  unfoldable pub process_parsed :
      (Connection → S → Option (Connection × S))
      → ParseResult × List ℕ
      → Connection
      → S
      → Option (Connection × S)
  unfolding process_answer
  process_parsed go_on (need_more, buffer) c s = some (record c { read_buffer = buffer }, s)
  process_parsed go_on (malformed, buffer) c s =
      some (mark_closed (record c { read_buffer = buffer }), s)
  process_parsed go_on (complete m, buffer) c s =
      let (answer, s') = respond b allow_stale_reads m s in
      process_answer go_on answer (record c { read_buffer = buffer }) s'

  -- The loop of ProcessFrames. `none` is the fuel used up.
  unfoldable pub process_loop : ℕ → Connection → S → Option (Connection × S)
  process_loop zero c s = none
  process_loop (suc fuel) c s =
      process_parsed (process_loop fuel) (try_parse_frame c.read_buffer) c s

  -- Every frame that is taken shortens the buffer.
  abbrev pub process_frames : Connection → S → Option (Connection × S)
  process_frames c s = process_loop (suc (length c.read_buffer)) c s

  -- OnReadable
  unfoldable pub on_readable : List ReadStep → Connection → S → Option (Status × Connection × S)
  on_readable [] c s = elim (process_frames c s) [
    | none ↦ none
    | some (c', s') ↦ some (okay, c', s')
  ]
  on_readable (received [] ∷ reads) c s = elim (process_frames (mark_closed c) s) [
    | none ↦ none
    | some (c', s') ↦ some (okay, c', s')
  ]
  on_readable (received (x ∷ xs) ∷ reads) c s =
      on_readable reads (record c { read_buffer = c.read_buffer ++ (x ∷ xs) }) s
  on_readable (interrupted ∷ reads) c s = on_readable reads c s
  on_readable (broken why ∷ reads) c s = some (error ErrorCode.io_error why, mark_closed c, s)

-- OnWritable, with what the socket takes.
unfoldable pub flush : List Transfer → List ℕ → Status × List ℕ × List ℕ × Bool
flush writes [] = (okay, [], [], false)
flush [] (x ∷ xs) = (okay, [], x ∷ xs, false)
flush (moved n ∷ writes) (x ∷ xs) =
    let (status, taken, left, fails) = flush writes (drop n (x ∷ xs)) in
    (status, take n (x ∷ xs) ++ taken, left, fails)
flush (interrupted ∷ writes) (x ∷ xs) = flush writes (x ∷ xs)
flush (failed why ∷ writes) (x ∷ xs) = (error ErrorCode.io_error why, [], x ∷ xs, true)

unfoldable pub on_writable : List Transfer → Connection → Status × List ℕ × Connection
unfolding flush
on_writable writes c =
    let (status, taken, left, fails) = flush writes c.write_buffer in
    elim fails [
      | true ↦ (status, taken, mark_closed (record c { write_buffer = left }))
      | false ↦ (status, taken, record c { write_buffer = left })
    ]
