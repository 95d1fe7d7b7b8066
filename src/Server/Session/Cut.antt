-- ===== src/Server/Session/Cut.antt =====
-- That a session does not depend on how the bytes of its client are cut into reads.
use neural_kv.Prelude.{
  ℕ, zero, suc, ◌+◌, ◌<◌, ◌≡◌, refl, sym, ap, ◌∙◌, inl, inr, List, [], ◌∷◌, ◌++◌, Bool, true, false,
  Option, none, some, length, arith, Bool-cases, Option-cases, append_assoc, append-nil,
  length-append,
}
use neural_kv.Status.{is_ok}
use neural_kv.Protocol.{ParseResult, need_more, complete, malformed}
use neural_kv.Protocol.Frame.{try_parse_frame}
use neural_kv.Protocol.Incremental.{
  try_parse_frame_more, try_parse_frame_refused, try_parse_frame_waits,
}
use neural_kv.Net.Socket.{Socket, write_full}
use neural_kv.Server.Handler.{Backend}
use neural_kv.Server.Session.{
  Served, waiting, ended, respond, serve_answer, serve_parsed, serve_frames, serve, serve_reads,
  serve_client_session, ReadStep, received, interrupted, broken,
}
use neural_kv.Server.Session.Fuel.{serve_frames_fuel, serve_frames_total, parse_shortens, lt_suc}

-- What the reads bring until one ends the session, and whether one does.
unfoldable pub bytes_of : List ReadStep → List ℕ
bytes_of [] = []
bytes_of (interrupted ∷ reads) = bytes_of reads
bytes_of (broken why ∷ reads) = []
bytes_of (received [] ∷ reads) = []
bytes_of (received (x ∷ xs) ∷ reads) = (x ∷ xs) ++ bytes_of reads

unfoldable pub hangs_up : List ReadStep → Bool
hangs_up [] = false
hangs_up (interrupted ∷ reads) = hangs_up reads
hangs_up (broken why ∷ reads) = true
hangs_up (received [] ∷ reads) = true
hangs_up (received (x ∷ xs) ∷ reads) = hangs_up reads

module _ {S : Type 0} (b : Backend S) (allow_stale_reads : Bool) where
  -- Where a session stands when `more` has come in after it waited.
  abbrev pub go_on_with : List ℕ → Option (Served S) → Option (Served S)
  go_on_with more none = none
  go_on_with more (some (waiting buffer socket s)) =
      serve b allow_stale_reads (buffer ++ more) socket s
  go_on_with more (some (ended socket s)) = some (ended socket s)

  abbrev pub close_if : Option (Served S) → Bool → Option (Served S)
  close_if none closes = none
  close_if (some (ended socket s)) closes = some (ended socket s)
  close_if (some (waiting buffer socket s)) true = some (ended socket s)
  close_if (some (waiting buffer socket s)) false = some (waiting buffer socket s)

  serve_answer_more :
      (go go' : List ℕ → Socket → S → Option (Served S)) (rest more : List ℕ)
      (answer : Option (List ℕ)) (socket : Socket) (s : S)
      → ((socket' : Socket) → go' (rest ++ more) socket' s ≡ go_on_with more (go rest socket' s))
      → serve_answer b allow_stale_reads go' (rest ++ more) answer socket s
        ≡ go_on_with more (serve_answer b allow_stale_reads go rest answer socket s)
  unfolding serve_answer
  serve_answer_more go go' rest more none socket s same = refl
  serve_answer_more go go' rest more (some encoded) socket s same =
      elim (Bool-cases (is_ok (write_full encoded socket).0)) [
        | inl good ↦ rw (good) (same _)
        | inr bad ↦ rw (bad) refl
      ]

  serve_parsed_refused :
      (go : List ℕ → Socket → S → Option (Served S)) (p : ParseResult × List ℕ) (socket : Socket)
      (s : S)
      → p.0 ≡ malformed
      → serve_parsed b allow_stale_reads go p socket s ≡ some (ended socket s)
  unfolding serve_parsed
  serve_parsed_refused go (need_more, rest) socket s h = absurd (ground arith)
  serve_parsed_refused go (malformed, rest) socket s h = refl
  serve_parsed_refused go (complete m, rest) socket s h = absurd (ground arith)

  serve_parsed_more :
      (f : ℕ) (buffer more : List ℕ) (p : ParseResult × List ℕ) (socket : Socket) (s : S)
      → try_parse_frame buffer ≡ p
      → length buffer < suc f
      → ((rest : List ℕ) (socket' : Socket) (s' : S)
          → length rest < length buffer
          → serve_frames b allow_stale_reads (f + length more) (rest ++ more) socket' s'
            ≡ go_on_with more (serve_frames b allow_stale_reads f rest socket' s'))
      → serve_frames b allow_stale_reads (suc (f + length more)) (buffer ++ more) socket s
        ≡ go_on_with more
            (serve_parsed b allow_stale_reads (serve_frames b allow_stale_reads f) p socket s)
  unfolding serve_frames serve_parsed
  serve_parsed_more f buffer more (need_more, rest) socket s h lf same =
      let kept = sym (ap (λ p. p.1) h) ∙ try_parse_frame_waits buffer (ap (λ p. p.0) h) in
      serve_frames_fuel b allow_stale_reads (suc (f + length more)) (suc (length (buffer ++ more)))
        (buffer ++ more) socket s (ground (arith, length-append buffer more)) (omega arith)
      ∙ ap (λ r. serve b allow_stale_reads (r ++ more) socket s) (sym kept)
  serve_parsed_more f buffer more (malformed, rest) socket s h lf same =
      serve_parsed_refused (serve_frames b allow_stale_reads (f + length more))
        (try_parse_frame (buffer ++ more)) socket s
        (try_parse_frame_refused buffer more (ap (λ p. p.0) h))
  serve_parsed_more f buffer more (complete m, rest) socket s h lf same =
      rw ((try_parse_frame_more buffer more m rest h).0) (
        serve_answer_more (serve_frames b allow_stale_reads f)
          (λ x y z. serve_frames b allow_stale_reads (f + length more) x y z) rest more
          (respond b allow_stale_reads m s).0 socket (respond b allow_stale_reads m s).1
          λ socket'. same rest socket' _ (parse_shortens buffer h))

  -- More bytes behind the buffer change nothing until the loop waits for them.
  serve_frames_more :
      (f : ℕ) (buffer more : List ℕ) (socket : Socket) (s : S)
      → length buffer < f
      → serve_frames b allow_stale_reads (f + length more) (buffer ++ more) socket s
        ≡ go_on_with more (serve_frames b allow_stale_reads f buffer socket s)
  serve_frames_more zero buffer more socket s lf = absurd (omega arith)
  serve_frames_more (suc f) buffer more socket s lf =
      ap (λ n. serve_frames b allow_stale_reads n (buffer ++ more) socket s) (omega arith)
      ∙ serve_parsed_more f buffer more (try_parse_frame buffer) socket s refl lf
          (λ rest socket' s' short. serve_frames_more f rest more socket' s' (omega arith))
      ∙ ap (λ o. go_on_with more o) (unfold serve_frames in refl)

  pub serve_more :
      (buffer more : List ℕ) (socket : Socket) (s : S)
      → serve b allow_stale_reads (buffer ++ more) socket s
        ≡ go_on_with more (serve b allow_stale_reads buffer socket s)
  serve_more buffer more socket s =
      serve_frames_fuel b allow_stale_reads (suc (length (buffer ++ more)))
        (suc (length buffer) + length more) (buffer ++ more) socket s (omega arith)
        (ground (arith, length-append buffer more))
      ∙ serve_frames_more (suc (length buffer)) buffer more socket s (omega arith)

  -- A buffer that is waited with is not parsed further without more bytes.
  serve_waiting :
      (buffer kept : List ℕ) (socket socket' : Socket) (s s' : S)
      → serve b allow_stale_reads buffer socket s ≡ some (waiting kept socket' s')
      → serve b allow_stale_reads kept socket' s' ≡ some (waiting kept socket' s')
  serve_waiting buffer kept socket socket' s s' h =
      ap (λ r. serve b allow_stale_reads r socket' s') (sym (append-nil kept))
      ∙ ap (λ o. go_on_with [] o) (sym h)
      ∙ sym (serve_more buffer [] socket s)
      ∙ ap (λ r. serve b allow_stale_reads r socket s) (append-nil buffer)
      ∙ h

  -- From where the session stands, the reads do what all their bytes at once would do.
  serve_reads_cut :
      (reads : List ReadStep) (buffer : List ℕ) (socket : Socket) (s : S) (next : Served S)
      → serve b allow_stale_reads buffer socket s ≡ some next
      → serve_reads b allow_stale_reads reads next
        ≡ close_if (serve b allow_stale_reads (buffer ++ bytes_of reads) socket s) (hangs_up reads)
  unfolding serve_reads bytes_of hangs_up
  serve_reads_cut reads buffer socket s (ended socket' s') h =
      rw (serve_more buffer (bytes_of reads) socket s, h) refl
  serve_reads_cut [] buffer socket s (waiting kept socket' s') h = rw (append-nil buffer, h) refl
  serve_reads_cut (interrupted ∷ reads) buffer socket s (waiting kept socket' s') h =
      rw (serve_reads, serve_waiting buffer kept socket socket' s s' h)
        (serve_reads_cut reads buffer socket s (waiting kept socket' s') h)
  serve_reads_cut (broken why ∷ reads) buffer socket s (waiting kept socket' s') h =
      rw (append-nil buffer, h) refl
  serve_reads_cut (received [] ∷ reads) buffer socket s (waiting kept socket' s') h =
      rw (append-nil buffer, h) refl
  serve_reads_cut (received (x ∷ xs) ∷ reads) buffer socket s (waiting kept socket' s') h =
      let joined = serve_more buffer (x ∷ xs) socket s ∙ ap (λ o. go_on_with (x ∷ xs) o) h in
      elim (Option-cases (serve b allow_stale_reads (kept ++ (x ∷ xs)) socket' s')) [
        | inl gone ↦
            absurd (
              serve_frames_total b allow_stale_reads _ (kept ++ (x ∷ xs)) socket' s' (lt_suc _)
                gone)
        | inr (next, e) ↦
            rw (serve_reads, e)
              (serve_reads_cut reads (buffer ++ (x ∷ xs)) socket s next (joined ∙ e)
                ∙ ap (λ r. close_if (serve b allow_stale_reads r socket s) (hangs_up reads))
                    (append_assoc buffer (x ∷ xs) (bytes_of reads)))
      ]

  -- A session depends on its reads only through the bytes that they bring up to the first end of
  -- the stream or error, and whether there is one: however the bytes are cut and wherever reads are
  -- interrupted, it answers the frames of these bytes put together, and returns if the stream ends.
  pub serve_client_session-serve :
      (reads : List ReadStep) (socket : Socket) (s : S)
      → serve_client_session b allow_stale_reads reads socket s
        ≡ close_if (serve b allow_stale_reads (bytes_of reads) socket s) (hangs_up reads)
  unfolding serve_client_session
  serve_client_session-serve reads socket s =
      elim (Option-cases (serve b allow_stale_reads [] socket s)) [
        | inl gone ↦ absurd (serve_frames_total b allow_stale_reads _ [] socket s (lt_suc _) gone)
        | inr (next, e) ↦ rw (serve_client_session, e) (serve_reads_cut reads [] socket s next e)
      ]
