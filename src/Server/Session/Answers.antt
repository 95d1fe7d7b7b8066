-- ===== src/Server/Session/Answers.antt =====
-- What a session sends.
use neural_kv.Prelude.{
  ℕ, ◌≡◌, refl, sym, ap, ◌∙◌, inl, inr, List, [], ◌∷◌, ◌++◌, Bool, false, Option, none, some,
  length, arith, All, Option-cases, append_assoc, append-nil,
}
use neural_kv.Result.{Result, ok, ◌>>=◌, ok_then}
use neural_kv.Protocol.{Message, complete}
use neural_kv.Protocol.Frame.{try_parse_frame}
use neural_kv.Protocol.FrameLaws.{encode_message, Fits}
use neural_kv.Protocol.Streaming.{try_parse_frame-encode}
use neural_kv.Net.Socket.{Socket, write_loop}
use neural_kv.Net.Connection.Blocking.{open_socket}
use neural_kv.Server.Handler.{Backend}
use neural_kv.Server.Session.{
  Served, waiting, respond, serve_answer, serve_parsed, serve_frames, serve, serve_client_session,
  ReadStep,
}
use neural_kv.Server.Session.Fuel.{serve_frames_fuel, parse_shortens}
use neural_kv.Server.Session.Cut.{
  bytes_of, hangs_up, serve_more, go_on_with, serve_client_session-serve,
}

-- The frames of a list of messages, one after the other.
unfoldable pub encode_all : List Message → Result (List ℕ)
encode_all [] = ok []
encode_all (m ∷ ms) = do frame ← encode_message m; frames ← encode_all ms; ok (frame ++ frames)

module _ {S : Type 0} (b : Backend S) (allow_stale_reads : Bool) where
  -- The answers to a list of messages in order, with the state after them; `none` if one has none.
  unfoldable pub respond_all : List Message → S → Option (List ℕ × S)
  respond_all [] s = some ([], s)
  respond_all (m ∷ ms) s =
      let (answer, s') = respond b allow_stale_reads m s in
      elim answer [
        | none ↦ none
        | some encoded ↦ elim (respond_all ms s') [
          | none ↦ none
          | some (answers, s'') ↦ some (encoded ++ answers, s'')
        ]
      ]

  empty_waits :
      (socket : Socket) (s : S)
      → serve_frames b allow_stale_reads 1 [] socket s ≡ some (waiting [] socket s)
  unfolding serve_frames serve_parsed try_parse_frame
  empty_waits socket s = refl

  answer_sent :
      (go : List ℕ → Socket → S → Option (Served S)) (sent encoded : List ℕ) (s : S)
      → serve_answer b allow_stale_reads go [] (some encoded) (open_socket sent) s
        ≡ go [] (open_socket (sent ++ encoded)) s
  unfolding serve_answer write_loop
  answer_sent go sent [] s = ap (λ r. go [] (open_socket r) s) (sym (append-nil sent))
  answer_sent go sent (x ∷ xs) s = refl

  one_round :
      (m : Message) (frame sent encoded : List ℕ) (s s' : S)
      → try_parse_frame frame ≡ (complete m, [])
      → respond b allow_stale_reads m s ≡ (some encoded, s')
      → serve b allow_stale_reads frame (open_socket sent) s
        ≡ serve_answer b allow_stale_reads
            (serve_frames b allow_stale_reads (length frame))
            []
            (some encoded)
            (open_socket sent)
            s'
  unfolding serve_frames serve_parsed
  one_round m frame sent encoded s s' parsed answer =
      ap
        (λ p.
          serve_parsed b allow_stale_reads (serve_frames b allow_stale_reads (length frame)) p
            (open_socket sent) s)
        parsed
      ∙ ap {A = Option (List ℕ) × S}
          (λ a.
            serve_answer b allow_stale_reads (serve_frames b allow_stale_reads (length frame)) []
              a.0 (open_socket sent) a.1)
          answer

  serve_one :
      (m : Message) (frame sent encoded : List ℕ) (s s' : S)
      → Fits m
      → encode_message m ≡ ok frame
      → respond b allow_stale_reads m s ≡ (some encoded, s')
      → serve b allow_stale_reads frame (open_socket sent) s
        ≡ some (waiting [] (open_socket (sent ++ encoded)) s')
  serve_one m frame sent encoded s s' fits enc answer =
      let parsed : try_parse_frame frame ≡ (complete m, []) =
        ap try_parse_frame (sym (append-nil frame)) ∙ try_parse_frame-encode m frame [] fits enc in
      let go : List ℕ → Socket → S → Option (Served S) =
        serve_frames b allow_stale_reads (length frame) in
      one_round m frame sent encoded s s' parsed answer
      ∙ answer_sent go sent encoded s'
      ∙ serve_frames_fuel b allow_stale_reads (length frame) 1 [] (open_socket (sent ++ encoded)) s'
          (parse_shortens frame parsed) (omega arith)
      ∙ empty_waits (open_socket (sent ++ encoded)) s'

  serve-respond_all :
      (ms : List Message) (frames answers sent : List ℕ) (s s' : S)
      → All Fits ms
      → encode_all ms ≡ ok frames
      → respond_all ms s ≡ some (answers, s')
      → serve b allow_stale_reads frames (open_socket sent) s
        ≡ some (waiting [] (open_socket (sent ++ answers)) s')
  unfolding encode_all respond_all
  serve-respond_all [] frames answers sent s s' fits enc done =
      let no_frames : [] ≡ frames = ground (arith, enc) in
      let no_answers : [] ≡ answers = ground (arith, done) in
      let unmoved : s ≡ s' = ground (arith, done) in
      rw⁻¹ (no_frames, no_answers, unmoved)
        (rw (append-nil sent) (empty_waits (open_socket sent) s))
  serve-respond_all (m ∷ ms) frames answers sent s s' fits enc done =
      ok_then (encode_message m) _ enc λ frame first enc'.
        ok_then (encode_all ms) _ enc' λ more second enc''.
          let whole : frame ++ more ≡ frames = ground (arith, enc'') in
          elim (Option-cases (respond b allow_stale_reads m s).0) [
            | inl silent ↦ absurd (ground (arith, silent, done))
            | inr (encoded, answer) ↦
                elim (Option-cases (respond_all ms (respond b allow_stale_reads m s).1)) [
                  | inl stuck ↦ absurd (ground (arith, answer, stuck, done))
                  | inr ((rest, last), others) ↦
                      let joined : encoded ++ rest ≡ answers =
                        ground (arith, answer, others, done) in
                      let final : last ≡ s' = ground (arith, answer, others, done) in
                      rw⁻¹ (whole, joined, final)
                        (serve_more b allow_stale_reads frame more (open_socket sent) s
                          ∙ ap (λ o. go_on_with b allow_stale_reads more o)
                              (serve_one m frame sent encoded s (respond b allow_stale_reads m s).1
                                fits.0 first
                                (ap (λ o. (o, (respond b allow_stale_reads m s).1)) answer))
                          ∙ serve-respond_all ms more rest (sent ++ encoded)
                              (respond b allow_stale_reads m s).1 last fits.1 second others
                          ∙ ap (λ r. some (waiting [] (open_socket r) last))
                              (append_assoc sent encoded rest))
                ]
          ]

  -- A client that sends the frames of messages whose numbers fit their types, keeps its end open
  -- and takes in full what is written to it: if each message has an answer, then the session,
  -- whatever the cuts and interruptions of its reads, has sent exactly the answers, one after the
  -- other in the order of the messages, each from the state that the one before it left, and waits
  -- with an empty buffer.
  pub serve_client_session-respond_all :
      (ms : List Message) (frames answers : List ℕ) (reads : List ReadStep) (s s' : S)
      → All Fits ms
      → encode_all ms ≡ ok frames
      → respond_all ms s ≡ some (answers, s')
      → bytes_of reads ≡ frames
      → hangs_up reads ≡ false
      → serve_client_session b allow_stale_reads reads (open_socket []) s
        ≡ some (waiting [] (open_socket answers) s')
  serve_client_session-respond_all ms frames answers reads s s' fits enc done all_there stays =
      serve_client_session-serve b allow_stale_reads reads (open_socket []) s
      ∙ rw (all_there, stays, serve-respond_all ms frames answers [] s s' fits enc done) refl
