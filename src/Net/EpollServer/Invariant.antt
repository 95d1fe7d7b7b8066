-- ===== src/Net/EpollServer/Invariant.antt =====
-- The connection table and the epoll instance agree.
use neural_kv.Prelude.{
  ℕ, ◌*◌, ◌<◌, ◌≡◌, ◌≢◌, ◌↔◌, refl, subst, inl, inr, List, [], ◌∷◌, Bool, true, false, Option, none,
  some, arith, Bool-cases, Option-cases, ◌==◌, not, length, if◌then◌else◌,
}
use neural_kv.Protocol.{is_empty}
use neural_kv.Net.Connection.{Connection, fresh, on_readable, on_writable}
use neural_kv.Net.Socket.{Transfer}
use neural_kv.Server.Session.{ReadStep}
use neural_kv.Net.EpollServer.{
  EpollServer, Interest, wanted_events, Event, Handled, kept, handle_writable, handle_readable,
  handle_connection, accept_connection, remove_connection, settle, handle_event, run_events,
  LoopEvent, accepted, reported, no_connections,
}
use neural_kv.Server.Handler.{Backend}

-- What the epoll instance should report for a connection of the table: none is kept that is closed, it
-- is registered for writing when it has output queued, and for reading when less than a MiB is queued.
abbrev pub InterestOf : Option Connection → Option Interest → Type 0
InterestOf none interest = interest ≡ none
InterestOf (some c) interest =
    (c.closed ≡ false)
    × ((i : Interest) × (interest ≡ some i)
        × (i.epollout ≡ true ↔ c.write_buffer ≢ [])
        × (i.epollin ≡ true ↔ length c.write_buffer < 1024 * 1024))

wanted_events-InterestOf :
    (c : Connection) → c.closed ≡ false → InterestOf (some c) (some (wanted_events c))
unfolding wanted_events
wanted_events-InterestOf c live = (
  live,
  (wanted_events c, refl, writing c.write_buffer, (λ e. ground (arith, e), λ h. ground (arith, h))),
)
  where
    writing : (queued : List ℕ) → (not (is_empty queued) ≡ true) ↔ (queued ≢ [])
    writing [] = (λ e. absurd (ground (arith, e)), λ e. absurd (e refl))
    writing (x ∷ xs) = (λ e same. absurd (ground (arith, same)), λ e. refl)

-- Every descriptor has the events that its connection wants, if it has one that is not closed, and
-- else none.
abbrev pub AgreesWithEpoll : EpollServer → Type 0
AgreesWithEpoll server = (fd : ℕ) → InterestOf (server.connections fd) (server.interest fd)

-- A connection that is kept is not closed.
abbrev pub KeepsOpen : {S : Type 0} → Handled S → Type 0
KeepsOpen h = (c : Connection) → h.connection ≡ some c → c.closed ≡ false

kept-KeepsOpen : {S : Type 0} (taken : List ℕ) (c : Connection) (s : S) → KeepsOpen (kept taken c s)
kept-KeepsOpen taken c s c' h = elim (Bool-cases c.closed) [
  | inl shut ↦ absurd (ground (arith, shut, h))
  | inr live ↦ ground (arith, live, h)
]

if-KeepsOpen :
    {S : Type 0} (test : Bool) (h h' : Handled S)
    → KeepsOpen h
    → KeepsOpen h'
    → KeepsOpen (if test then h else h')
if-KeepsOpen true h h' first second = first
if-KeepsOpen false h h' first second = second

handle_writable-KeepsOpen :
    {S : Type 0} (writes : Option (List Transfer)) (c : Connection) (s : S)
    → KeepsOpen (handle_writable writes c s)
unfolding handle_writable
handle_writable-KeepsOpen none c s = kept-KeepsOpen [] c s
handle_writable-KeepsOpen (some writes) c s =
    let (status, taken, c') = on_writable writes c in
    if-KeepsOpen c.closed (kept [] c s) (kept taken c' s) (kept-KeepsOpen [] c s)
      (kept-KeepsOpen taken c' s)

module _ {S : Type 0} (b : Backend S) (allow_stale_reads : Bool) where
  handle_readable-KeepsOpen :
      (reads : Option (List ReadStep)) (writes : Option (List Transfer)) (c : Connection) (s : S)
      (h : Handled S)
      → handle_readable b allow_stale_reads reads writes c s ≡ some h
      → KeepsOpen h
  unfolding handle_readable
  handle_readable-KeepsOpen none writes c s h e =
      let same : handle_writable writes c s ≡ h = ground (arith, e) in
      subst KeepsOpen same (handle_writable-KeepsOpen writes c s)
  handle_readable-KeepsOpen (some reads) writes c s h e =
      elim (Option-cases (on_readable b allow_stale_reads reads c s)) [
        | inl gone ↦ absurd (ground (arith, gone, e))
        | inr ((status, c', s'), r) ↦
            let same : handle_writable writes c' s' ≡ h = ground (arith, r, e) in
            subst KeepsOpen same (handle_writable-KeepsOpen writes c' s')
      ]

  handle_connection-KeepsOpen :
      (ev : Event) (c : Connection) (s : S) (h : Handled S)
      → handle_connection b allow_stale_reads ev c s ≡ some h
      → KeepsOpen h
  unfolding handle_connection
  handle_connection-KeepsOpen ev c s h e = elim (Bool-cases ev.hung_up) [
    | inl up ↦ λ c' there. absurd (ground (arith, e, up, there))
    | inr on ↦ handle_readable-KeepsOpen ev.epollin ev.epollout c s h (ground (arith, e, on))
  ]

settle-AgreesWithEpoll :
    (fd : ℕ) (o : Option Connection) (server : EpollServer)
    → ((c : Connection) → o ≡ some c → c.closed ≡ false)
    → AgreesWithEpoll server
    → AgreesWithEpoll (settle fd o server)
unfolding settle remove_connection
settle-AgreesWithEpoll fd none server live agrees fd' = elim (Bool-cases (fd' == fd)) [
  | inl same ↦ rw (same) refl
  | inr other ↦ rw (other) (agrees fd')
]
settle-AgreesWithEpoll fd (some c) server live agrees fd' = elim (Bool-cases (fd' == fd)) [
  | inl same ↦ rw (same) (wanted_events-InterestOf c (live c refl))
  | inr other ↦ rw (other) (agrees fd')
]

accept-AgreesWithEpoll :
    (fd : ℕ) (added : Bool) (server : EpollServer)
    → AgreesWithEpoll server
    → AgreesWithEpoll (accept_connection fd added server)
unfolding accept_connection settle
accept-AgreesWithEpoll fd added server agrees = elim (Option-cases (server.interest fd)) [
  | inr (there, i) ↦ rw (accept_connection, i) agrees
  | inl none_there ↦ elim (Bool-cases added) [
    | inr refused ↦ rw (accept_connection, none_there, refused) agrees
    | inl fine ↦ elim (Option-cases (server.connections fd)) [
      | inl absent ↦
          rw (accept_connection, none_there, fine, absent)
            (settle-AgreesWithEpoll fd (some fresh) server (λ c e. ground (arith, e)) agrees)
      | inr (c, there) ↦
          let a : InterestOf (some c) (server.interest fd) =
            subst (λ o. InterestOf o (server.interest fd)) there (agrees fd) in
          let (live, (i, registered, writing, reading)) = a in
          absurd (ground (arith, registered, none_there))
    ]
  ]
]

module _ {S : Type 0} (b : Backend S) (allow_stale_reads : Bool) where
  handle_event-AgreesWithEpoll :
      (fd : ℕ) (ev : Event) (server server' : EpollServer) (s s' : S)
      → AgreesWithEpoll server
      → handle_event b allow_stale_reads fd ev server s ≡ some (server', s')
      → AgreesWithEpoll server'
  unfolding handle_event
  handle_event-AgreesWithEpoll fd ev server server' s s' agrees e =
      elim (Option-cases (server.connections fd)) [
        | inl absent ↦ subst AgreesWithEpoll (ground (arith, absent, e)) agrees
        | inr (c, there) ↦ elim (Option-cases (handle_connection b allow_stale_reads ev c s)) [
          | inl gone ↦ absurd (ground (arith, there, gone, e))
          | inr (h, how) ↦ subst AgreesWithEpoll (ground (arith, there, how, e)) (
              settle-AgreesWithEpoll fd h.connection server
                (handle_connection-KeepsOpen b allow_stale_reads ev c s h how) agrees)
        ]
      ]

  run-AgreesWithEpoll :
      (evs : List LoopEvent) (server server' : EpollServer) (s s' : S)
      → AgreesWithEpoll server
      → run_events b allow_stale_reads evs server s ≡ some (server', s')
      → AgreesWithEpoll server'
  unfolding run_events
  run-AgreesWithEpoll [] server server' s s' agrees e =
      subst AgreesWithEpoll (ground (arith, e)) agrees
  run-AgreesWithEpoll (accepted fd added ∷ evs) server server' s s' agrees e =
      run-AgreesWithEpoll evs _ server' s s' (accept-AgreesWithEpoll fd added server agrees) e
  run-AgreesWithEpoll (reported fd ev ∷ evs) server server' s s' agrees e =
      elim (Option-cases (handle_event b allow_stale_reads fd ev server s)) [
        | inl gone ↦ absurd (ground (arith, gone, e))
        | inr ((next, mid), how) ↦
            run-AgreesWithEpoll evs next server' mid s'
              (handle_event-AgreesWithEpoll fd ev server next s mid agrees how)
              (ground (arith, how, e))
      ]

  -- Whatever is accepted and reported, in any order, as long as the epoll_ctl calls that change or
  -- remove a registration succeed: after it every connection of the table is open and registered,
  -- for writing exactly when it has output queued and for reading exactly when less than 1024 *
  -- 1024 bytes of it are queued; a descriptor without a connection is not registered.
  pub run_events-AgreesWithEpoll :
      (evs : List LoopEvent) (s s' : S) (server : EpollServer)
      → run_events b allow_stale_reads evs no_connections s ≡ some (server, s')
      → AgreesWithEpoll server
  run_events-AgreesWithEpoll evs s s' server e =
      run-AgreesWithEpoll evs no_connections server s s' (λ fd. refl) e
