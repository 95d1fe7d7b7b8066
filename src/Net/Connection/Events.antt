-- ===== src/Net/Connection/Events.antt =====
-- What one call of OnReadable or OnWritable does.
use neural_kv.Prelude.{
  ℕ, zero, suc, ◌≡◌, refl, ap, ◌∙◌, inl, inr, List, [], ◌∷◌, ◌++◌, Bool, true, false, Option, none,
  some, arith, Bool-cases, Option-cases, length, take, drop, take-append-drop, append-nil,
  append_assoc,
}
use neural_kv.Status.{Status}
use neural_kv.Protocol.{ParseResult, need_more, complete, malformed}
use neural_kv.Protocol.Frame.{try_parse_frame}
use neural_kv.Net.Socket.{Transfer, moved, failed}
use neural_kv.Net.Connection.{
  Connection, mark_closed, process_answer, process_parsed, process_loop, process_frames,
  on_readable, flush, on_writable,
}
use neural_kv.Net.Connection.Blocking.{live}
use neural_kv.Server.Handler.{Backend}
use neural_kv.Server.Session.{ReadStep, received, broken}
use neural_kv.Server.Session.Cut.{bytes_of}

flush_lem :
    (writes : List Transfer) (queued : List ℕ)
    → let (status, taken, left, fails) = flush writes queued in taken ++ left ≡ queued
unfolding flush
flush_lem writes [] = refl
flush_lem [] (x ∷ xs) = refl
flush_lem (moved n ∷ writes) (x ∷ xs) =
    append_assoc (take n (x ∷ xs)) _ _
    ∙ ap (λ r. take n (x ∷ xs) ++ r) (flush_lem writes (drop n (x ∷ xs)))
    ∙ take-append-drop n (x ∷ xs)
flush_lem (Transfer.interrupted ∷ writes) (x ∷ xs) = flush_lem writes (x ∷ xs)
flush_lem (failed why ∷ writes) (x ∷ xs) = refl

-- OnWritable takes what goes out from the front of the queue, and reads nothing.
pub on_writable_lem :
    (writes : List Transfer) (c : Connection)
    → let (status, taken, c') = on_writable writes c in
      (taken ++ c'.write_buffer ≡ c.write_buffer) × (c'.read_buffer ≡ c.read_buffer)
unfolding on_writable
on_writable_lem writes c = elim (Bool-cases (flush writes c.write_buffer).3) [
  | inl fails ↦ rw (on_writable, fails) (flush_lem writes c.write_buffer, refl)
  | inr not_fails ↦ rw (on_writable, not_fails) (flush_lem writes c.write_buffer, refl)
]

module _ {S : Type 0} (b : Backend S) (allow_stale_reads : Bool) where
  -- A connection that is closed stays so.
  process_answer_closed :
      (go : Connection → S → Option (Connection × S)) (answer : Option (List ℕ)) (c c' : Connection)
      (s s' : S)
      → ((d : Connection) (t : S) → d.closed ≡ true → go d t ≡ some (c', s') → c'.closed ≡ true)
      → c.closed ≡ true
      → process_answer b allow_stale_reads go answer c s ≡ some (c', s')
      → c'.closed ≡ true
  unfolding process_answer
  process_answer_closed go none c c' s s' rest shut e = ground (arith, e, shut)
  process_answer_closed go (some encoded) c c' s s' rest shut e = rest _ s shut e

  process_parsed_closed :
      (go : Connection → S → Option (Connection × S)) (p : ParseResult × List ℕ) (c c' : Connection)
      (s s' : S)
      → ((d : Connection) (t : S) → d.closed ≡ true → go d t ≡ some (c', s') → c'.closed ≡ true)
      → c.closed ≡ true
      → process_parsed b allow_stale_reads go p c s ≡ some (c', s')
      → c'.closed ≡ true
  unfolding process_parsed
  process_parsed_closed go (need_more, buffer) c c' s s' rest shut e = ground (arith, e, shut)
  process_parsed_closed go (malformed, buffer) c c' s s' rest shut e = ground (arith, e, shut)
  process_parsed_closed go (complete m, buffer) c c' s s' rest shut e =
      process_answer_closed go _ (record c { read_buffer = buffer }) c' _ s' rest shut e

  process_loop_closed :
      (f : ℕ) (c c' : Connection) (s s' : S)
      → c.closed ≡ true
      → process_loop b allow_stale_reads f c s ≡ some (c', s')
      → c'.closed ≡ true
  unfolding process_loop
  process_loop_closed zero c c' s s' shut e = absurd (ground (arith, e))
  process_loop_closed (suc f) c c' s s' shut e =
      process_parsed_closed _ (try_parse_frame c.read_buffer) c c' s s'
        (λ d t shut' e'. process_loop_closed f d c' t s' shut' e') shut e

  -- If the connection is still open after OnReadable, that was ProcessFrames on the bytes of the reads
  -- behind those that were there.
  pub on_readable-process :
      (reads : List ReadStep) (read queued : List ℕ) (s s' : S) (status : Status) (c' : Connection)
      → on_readable b allow_stale_reads reads (live read queued) s ≡ some (status, c', s')
      → c'.closed ≡ false
      → process_frames b allow_stale_reads (live (read ++ bytes_of reads) queued) s ≡ some (c', s')
  unfolding on_readable bytes_of
  on_readable-process [] read queued s s' status c' e open_still =
      rw (append-nil read)
        (elim (Option-cases (process_frames b allow_stale_reads (live read queued) s)) [
          | inl gone ↦ absurd (ground (arith, gone, e))
          | inr ((c, t), h) ↦ ground (arith, h, e)
        ])
  on_readable-process (received [] ∷ reads) read queued s s' status c' e open_still =
      elim (Option-cases (process_frames b allow_stale_reads (mark_closed (live read queued)) s)) [
        | inl gone ↦ absurd (ground (arith, gone, e))
        | inr ((c, t), h) ↦ absurd (
            ground (
              arith,
              e,
              h,
              open_still,
              process_loop_closed (suc (length read)) (mark_closed (live read queued)) c s t refl h,
            ))
      ]
  on_readable-process (received (x ∷ xs) ∷ reads) read queued s s' status c' e open_still =
      rw⁻¹ (append_assoc read (x ∷ xs) (bytes_of reads))
        (on_readable-process reads (read ++ (x ∷ xs)) queued s s' status c' e open_still)
  on_readable-process (ReadStep.interrupted ∷ reads) read queued s s' status c' e open_still =
      on_readable-process reads read queued s s' status c' e open_still
  on_readable-process (broken why ∷ reads) read queued s s' status c' e open_still =
      absurd (ground (arith, e, open_still))
