-- ===== src/Net/EpollServer/Output.antt =====
-- What goes out on a connection of the event loop.
use neural_kv.Prelude.{
  ℕ, suc, ◌≡◌, refl, sym, ap, ◌∙◌, subst, inl, inr, List, [], ◌∷◌, ◌++◌, Bool, false, Option, none,
  some, arith, Bool-cases, Option-cases, length, append-nil, append_assoc, if◌then◌else◌,
}
use neural_kv.Status.{Status}
use neural_kv.Protocol.Frame.{try_parse_frame}
use neural_kv.Net.Socket.{Transfer}
use neural_kv.Net.Connection.{Connection, fresh, on_readable, on_writable}
use neural_kv.Net.Connection.Blocking.{open_socket, live, as_session, process_loop-serve_frames}
use neural_kv.Net.EpollServer.{
  Event, Handled, handle_writable, handle_readable, handle_connection, kept,
}
use neural_kv.Server.Handler.{Backend}
use neural_kv.Server.Session.{ReadStep, waiting, serve, serve_frames, serve_parsed}
use neural_kv.Server.Session.Cut.{bytes_of, go_on_with, serve_more}
use neural_kv.Net.Connection.Events.{on_writable_lem, on_readable-process}

-- The bytes that the reads of an event bring, and those of a list of events.
abbrev pub read_by : Option (List ReadStep) → List ℕ
read_by none = []
read_by (some reads) = bytes_of reads

unfoldable pub all_read : List Event → List ℕ
all_read [] = []
all_read (ev ∷ evs) = read_by ev.epollin ++ all_read evs

module _ {S : Type 0} (b : Backend S) (allow_stale_reads : Bool) where
  -- What the connection has read is what the session for the same bytes would have read, what went out
  -- of it and what is queued is what that session would have sent, and the state behind is the same.
  abbrev pub Follows : List ℕ → List ℕ → Connection → S → S → Type 0
  Follows bytes taken c s₀ s =
      (c.closed ≡ false)
      × (serve b allow_stale_reads bytes (open_socket []) s₀
          ≡ some (waiting c.read_buffer (open_socket (taken ++ c.write_buffer)) s))

  on_readable-Follows :
      (reads : List ReadStep) (bytes taken : List ℕ) (c c' : Connection) (status : Status)
      (s₀ s s' : S)
      → on_readable b allow_stale_reads reads c s ≡ some (status, c', s')
      → c'.closed ≡ false
      → Follows bytes taken c s₀ s
      → Follows (bytes ++ bytes_of reads) taken c' s₀ s'
  on_readable-Follows reads bytes taken c c' status s₀ s s' e open_still (was_open, so_far) =
      let whole : c ≡ live c.read_buffer c.write_buffer =
        ap (λ o. record { read_buffer = c.read_buffer; write_buffer = c.write_buffer; closed = o })
          was_open in
      let e' : on_readable b allow_stale_reads reads (live c.read_buffer c.write_buffer) s
          ≡ some (status, c', s') =
        ap (λ d. on_readable b allow_stale_reads reads d s) (sym whole) ∙ e in
      let done =
        on_readable-process b allow_stale_reads reads c.read_buffer c.write_buffer s s' status c' e'
          open_still in
      (
        open_still,
        serve_more b allow_stale_reads bytes (bytes_of reads) (open_socket []) s₀
            ∙ ap (λ o. go_on_with b allow_stale_reads (bytes_of reads) o) so_far
            ∙ sym (
                process_loop-serve_frames b allow_stale_reads taken
                  (suc (length (c.read_buffer ++ bytes_of reads))) (c.read_buffer ++ bytes_of reads)
                  c.write_buffer s)
            ∙ ap (λ o. as_session b allow_stale_reads taken o) done
            ∙ rw (open_still) refl,
      )

  kept-Follows :
      (bytes all taken : List ℕ) (c c' : Connection) (s₀ s : S)
      → (kept taken c s).connection ≡ some c'
      → (c.closed ≡ false → Follows bytes all c s₀ s)
      → Follows bytes all c' s₀ s
  kept-Follows bytes all taken c c' s₀ s e so_far = elim (Bool-cases c.closed) [
    | inl shut ↦ absurd (ground (arith, shut, e))
    | inr live ↦
        let same : c ≡ c' = ground (arith, live, e) in
        subst (λ d. Follows bytes all d s₀ s) same (so_far live)
  ]

  handle_writable-Follows :
      (writes : Option (List Transfer)) (bytes taken : List ℕ) (c c' : Connection) (s₀ s : S)
      → (handle_writable writes c s).connection ≡ some c'
      → (c.closed ≡ false → Follows bytes taken c s₀ s)
      → Follows bytes
          (taken ++ (handle_writable writes c s).taken)
          c'
          s₀
          (handle_writable writes c s).behind
  unfolding handle_writable
  handle_writable-Follows none bytes taken c c' s₀ s e so_far =
      rw (append-nil taken) (kept-Follows bytes taken [] c c' s₀ s e so_far)
  handle_writable-Follows (some writes) bytes taken c c' s₀ s e so_far =
      elim (Bool-cases c.closed) [
        | inl shut ↦ absurd (ground (arith, shut, e))
        | inr live ↦
            let (status, out, after) = on_writable writes c in
            let (cut, same_read) = on_writable_lem writes c in
            let flushed : handle_writable (some writes) c s ≡ kept out after s =
              ap (λ o. if o then kept [] c s else kept out after s) live in
            subst {A = Handled S}
              (λ h. h.connection ≡ some c' → Follows bytes (taken ++ h.taken) c' s₀ h.behind)
              (sym flushed)
              (λ e'. kept-Follows bytes (taken ++ out) out after c' s₀ s e' λ still. (
                still,
                (so_far live).1
                    ∙ ap (λ r. some (waiting r (open_socket (taken ++ c.write_buffer)) s))
                        (sym same_read)
                    ∙ ap (λ r. some (waiting after.read_buffer (open_socket r) s))
                        (ap (λ q. taken ++ q) (sym cut)
                          ∙ sym (append_assoc taken out after.write_buffer)),
              ))
              e
      ]

  handle_readable-Follows :
      (reads : Option (List ReadStep)) (writes : Option (List Transfer)) (bytes taken : List ℕ)
      (c c' : Connection) (s₀ s : S) (h : Handled S)
      → handle_readable b allow_stale_reads reads writes c s ≡ some h
      → h.connection ≡ some c'
      → Follows bytes taken c s₀ s
      → Follows (bytes ++ read_by reads) (taken ++ h.taken) c' s₀ h.behind
  unfolding handle_readable
  handle_readable-Follows none writes bytes taken c c' s₀ s h e there so_far =
      let same : handle_writable writes c s ≡ h = ground (arith, e) in
      subst {A = Handled S}
        (λ o. o.connection ≡ some c' → Follows (bytes ++ []) (taken ++ o.taken) c' s₀ o.behind) same
        (λ there'.
          rw (append-nil bytes)
            (handle_writable-Follows writes bytes taken c c' s₀ s there' λ live. so_far))
        there
  handle_readable-Follows (some reads) writes bytes taken c c' s₀ s h e there so_far =
      elim (Option-cases (on_readable b allow_stale_reads reads c s)) [
        | inl gone ↦ absurd (ground (arith, gone, e))
        | inr ((status, mid, t), r) ↦
            let same : handle_writable writes mid t ≡ h = ground (arith, r, e) in
            subst {A = Handled S}
              (λ o.
                o.connection ≡ some c'
                → Follows (bytes ++ bytes_of reads) (taken ++ o.taken) c' s₀ o.behind)
              same
              (λ there'.
                handle_writable-Follows writes (bytes ++ bytes_of reads) taken mid c' s₀ t there'
                  λ live. on_readable-Follows reads bytes taken c mid status s₀ s t r live so_far)
              there
      ]

  handle_connection-Follows :
      (ev : Event) (bytes taken : List ℕ) (c c' : Connection) (s₀ s : S) (h : Handled S)
      → handle_connection b allow_stale_reads ev c s ≡ some h
      → h.connection ≡ some c'
      → Follows bytes taken c s₀ s
      → Follows (bytes ++ read_by ev.epollin) (taken ++ h.taken) c' s₀ h.behind
  unfolding handle_connection
  handle_connection-Follows ev bytes taken c c' s₀ s h e there so_far =
      elim (Bool-cases ev.hung_up) [
        | inl up ↦ absurd (ground (arith, up, e, there))
        | inr on ↦
            handle_readable-Follows ev.epollin ev.epollout bytes taken c c' s₀ s h
              (ground (arith, on, e)) there so_far
      ]

  -- One connection through the events that are reported for it, until it is removed; `taken` is what
  -- has gone out before.
  unfoldable pub run_connection : List Event → List ℕ → Connection → S → Option (Handled S)
  run_connection [] taken c s = some (record { taken = taken; connection = some c; behind = s })
  run_connection (ev ∷ evs) taken c s = elim (handle_connection b allow_stale_reads ev c s) [
    | none ↦ none
    | some h ↦ elim h.connection [
      | none ↦ some (record { taken = taken ++ h.taken; connection = none; behind = h.behind })
      | some c' ↦ run_connection evs (taken ++ h.taken) c' h.behind
    ]
  ]

  run-Follows :
      (evs : List Event) (bytes taken : List ℕ) (c c' : Connection) (s₀ s : S) (h : Handled S)
      → run_connection evs taken c s ≡ some h
      → h.connection ≡ some c'
      → Follows bytes taken c s₀ s
      → Follows (bytes ++ all_read evs) h.taken c' s₀ h.behind
  unfolding run_connection all_read
  run-Follows [] bytes taken c c' s₀ s h e there so_far =
      let same : record { taken = taken; connection = some c; behind = s } ≡ h =
        ground (arith, e) in
      subst {A = Handled S}
        (λ o. o.connection ≡ some c' → Follows (bytes ++ []) o.taken c' s₀ o.behind) same
        (λ there'. rw (append-nil bytes) (
          let same' : c ≡ c' = ground (arith, there') in
          subst (λ d. Follows bytes taken d s₀ s) same' so_far))
        there
  run-Follows (ev ∷ evs) bytes taken c c' s₀ s h e there so_far =
      elim (Option-cases (handle_connection b allow_stale_reads ev c s)) [
        | inl gone ↦ absurd (ground (arith, gone, e))
        | inr (mid, how) ↦ elim (Option-cases mid.connection) [
          | inl removed ↦ absurd (ground (arith, how, removed, e, there))
          | inr (d, live) ↦ rw⁻¹ (append_assoc bytes (read_by ev.epollin) (all_read evs)) (
              run-Follows evs (bytes ++ read_by ev.epollin) (taken ++ mid.taken) d c' s₀ mid.behind
                h (ground (arith, how, live, e)) there
                (handle_connection-Follows ev bytes taken c d s₀ s mid how live so_far))
        ]
      ]

  -- While a connection stays in the table, what has gone out of it with what is still queued is
  -- what a blocking session would have sent for the same bytes, what it has read and not answered
  -- is the same, and so is the state behind the handler: however the bytes are cut into events and
  -- reads, however little the socket takes at a time, and wherever calls are interrupted.
  pub run_connection-serve :
      (evs : List Event) (s₀ : S) (h : Handled S) (c : Connection)
      → run_connection evs [] fresh s₀ ≡ some h
      → h.connection ≡ some c
      → serve b allow_stale_reads (all_read evs) (open_socket []) s₀
        ≡ some (waiting c.read_buffer (open_socket (h.taken ++ c.write_buffer)) h.behind)
  run_connection-serve evs s₀ h c e there =
      (run-Follows evs [] [] fresh c s₀ s₀ h e there
        (refl, unfold serve_frames serve_parsed try_parse_frame in refl)).1
