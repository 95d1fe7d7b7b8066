-- ===== src/Server/Session/Fuel.antt =====
-- The inner loop of a session: the fuel that it needs.
use neural_kv.Prelude.{
  ℕ, zero, suc, ◌<◌, ◌≡◌, ◌≢◌, refl, inl, inr, List, [], ◌∷◌, ◌++◌, Bool, Option, none, some,
  length, arith, Bool-cases, Option-cases,
}
use neural_kv.Status.{is_ok}
use neural_kv.Protocol.{Message, ParseResult, need_more, complete, malformed}
use neural_kv.Protocol.Frame.{try_parse_frame}
use neural_kv.Protocol.Incremental.{try_parse_frame_more}
use neural_kv.Net.Socket.{Socket, write_full}
use neural_kv.Server.Handler.{Backend}
use neural_kv.Server.Session.{
  Served, waiting, ended, serve_answer, serve_parsed, serve_frames, serve, serve_reads,
  serve_client_session, ReadStep, received, interrupted, broken,
}

pub parse_shortens :
    (buffer : List ℕ) {m : Message} {rest : List ℕ}
    → try_parse_frame buffer ≡ (complete m, rest)
    → length rest < length buffer
parse_shortens buffer h = (try_parse_frame_more buffer [] _ _ h).1

pub lt_suc : (n : ℕ) → n < suc n
lt_suc n = omega arith

module _ {S : Type 0} (b : Backend S) (allow_stale_reads : Bool) where
  serve_answer_ext :
      (go go' : List ℕ → Socket → S → Option (Served S)) (rest : List ℕ) (answer : Option (List ℕ))
      (socket : Socket) (s : S)
      → ((socket' : Socket) (s' : S) → go rest socket' s' ≡ go' rest socket' s')
      → serve_answer b allow_stale_reads go rest answer socket s
        ≡ serve_answer b allow_stale_reads go' rest answer socket s
  unfolding serve_answer
  serve_answer_ext go go' rest none socket s same = refl
  serve_answer_ext go go' rest (some encoded) socket s same =
      elim (Bool-cases (is_ok (write_full encoded socket).0)) [
        | inl good ↦ rw (good) (same _ s)
        | inr bad ↦ rw (bad) refl
      ]

  -- Two next rounds that agree on shorter buffers.
  serve_parsed_ext :
      (go go' : List ℕ → Socket → S → Option (Served S)) (buffer : List ℕ)
      (p : ParseResult × List ℕ) (socket : Socket) (s : S)
      → try_parse_frame buffer ≡ p
      → ((rest : List ℕ) (socket' : Socket) (s' : S)
          → length rest < length buffer
          → go rest socket' s' ≡ go' rest socket' s')
      → serve_parsed b allow_stale_reads go p socket s
        ≡ serve_parsed b allow_stale_reads go' p socket s
  unfolding serve_parsed
  serve_parsed_ext go go' buffer (need_more, rest) socket s h same = refl
  serve_parsed_ext go go' buffer (malformed, rest) socket s h same = refl
  serve_parsed_ext go go' buffer (complete m, rest) socket s h same =
      serve_answer_ext go go' rest _ socket _
        λ socket' s'. same rest socket' s' (parse_shortens buffer h)

  -- Any two amounts of fuel above the length of the buffer give the same.
  pub serve_frames_fuel :
      (f g : ℕ) (buffer : List ℕ) (socket : Socket) (s : S)
      → length buffer < f
      → length buffer < g
      → serve_frames b allow_stale_reads f buffer socket s
        ≡ serve_frames b allow_stale_reads g buffer socket s
  unfolding serve_frames
  serve_frames_fuel zero g buffer socket s lf lg = absurd (omega arith)
  serve_frames_fuel (suc f) zero buffer socket s lf lg = absurd (omega arith)
  serve_frames_fuel (suc f) (suc g) buffer socket s lf lg =
      serve_parsed_ext _ _ buffer _ socket s refl
        λ rest socket' s' short. serve_frames_fuel f g rest socket' s' (omega arith) (omega arith)

  -- What holds of both ways for a round to end, and of the next round, holds of the round.
  pub serve_answer_cases {ℓ} :
      (P : Option (Served S) → Type ℓ) (go : List ℕ → Socket → S → Option (Served S))
      (rest : List ℕ) (answer : Option (List ℕ)) (socket : Socket) (s : S)
      → ((socket' : Socket) → P (some (ended socket' s)))
      → ((socket' : Socket) → P (go rest socket' s))
      → P (serve_answer b allow_stale_reads go rest answer socket s)
  unfolding serve_answer
  serve_answer_cases P go rest none socket s stop next = stop socket
  serve_answer_cases P go rest (some encoded) socket s stop next =
      elim (Bool-cases (is_ok (write_full encoded socket).0)) [
        | inl good ↦ rw (good) (next _)
        | inr bad ↦ rw (bad) (stop _)
      ]

  serve_parsed_total :
      (go : List ℕ → Socket → S → Option (Served S)) (buffer : List ℕ) (p : ParseResult × List ℕ)
      (socket : Socket) (s : S)
      → try_parse_frame buffer ≡ p
      → ((rest : List ℕ) (socket' : Socket) (s' : S)
          → length rest < length buffer
          → go rest socket' s' ≢ none)
      → serve_parsed b allow_stale_reads go p socket s ≢ none
  unfolding serve_parsed
  serve_parsed_total go buffer (need_more, rest) socket s h there e = ground arith
  serve_parsed_total go buffer (malformed, rest) socket s h there e = ground arith
  serve_parsed_total go buffer (complete m, rest) socket s h there e =
      serve_answer_cases (λ o. o ≢ none) go rest _ socket _ (λ socket' e'. ground arith)
        (λ socket'. there rest socket' _ (parse_shortens buffer h)) e

  pub serve_frames_total :
      (f : ℕ) (buffer : List ℕ) (socket : Socket) (s : S)
      → length buffer < f
      → serve_frames b allow_stale_reads f buffer socket s ≢ none
  unfolding serve_frames
  serve_frames_total zero buffer socket s lf = absurd (omega arith)
  serve_frames_total (suc f) buffer socket s lf =
      serve_parsed_total _ buffer _ socket s refl
        λ rest socket' s' short. serve_frames_total f rest socket' s' (omega arith)

  serve_reads_total :
      (reads : List ReadStep) (served : Served S)
      → serve_reads b allow_stale_reads reads served ≢ none
  unfolding serve_reads
  serve_reads_total reads (ended socket s) e = ground arith
  serve_reads_total [] (waiting buffer socket s) e = ground arith
  serve_reads_total (broken why ∷ reads) (waiting buffer socket s) e = ground arith
  serve_reads_total (received [] ∷ reads) (waiting buffer socket s) e = ground arith
  serve_reads_total (interrupted ∷ reads) (waiting buffer socket s) e =
      elim (Option-cases (serve b allow_stale_reads buffer socket s)) [
        | inl gone ↦ absurd (serve_frames_total _ buffer socket s (lt_suc _) gone)
        | inr (next, h) ↦ serve_reads_total reads next (ground (arith, h, e))
      ]
  serve_reads_total (received (x ∷ xs) ∷ reads) (waiting buffer socket s) e =
      elim (Option-cases (serve b allow_stale_reads (buffer ++ (x ∷ xs)) socket s)) [
        | inl gone ↦ absurd (serve_frames_total _ (buffer ++ (x ∷ xs)) socket s (lt_suc _) gone)
        | inr (next, h) ↦ serve_reads_total reads next (ground (arith, h, e))
      ]

  -- A session that is given finitely many reads stands at a read or has returned when they are used
  -- up: the fuel of its inner loop, one more than the length of the buffer, is enough whatever
  -- bytes come in and whatever the writes answer.
  pub serve_client_session_total :
      (reads : List ReadStep) (socket : Socket) (s : S)
      → serve_client_session b allow_stale_reads reads socket s ≢ none
  unfolding serve_client_session
  serve_client_session_total reads socket s e =
      elim (Option-cases (serve b allow_stale_reads [] socket s)) [
        | inl gone ↦ absurd (serve_frames_total _ [] socket s (lt_suc _) gone)
        | inr (next, h) ↦ serve_reads_total reads next (ground (arith, h, e))
      ]
