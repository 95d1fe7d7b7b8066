-- ===== src/Net/EpollServer.antt =====
-- net/epoll_server.cpp: what the event loop does with the connections in its table. What epoll_wait reports
-- and what the calls on a connection's socket return is an argument.
pub mod Invariant
pub mod Output
use neural_kv.Prelude.{
  ℕ, ◌*◌, List, [], ◌∷◌, ◌++◌, Bool, true, false, not, Option, none, some, length, ltb, ◌==◌,
  if◌then◌else◌,
}
use neural_kv.Protocol.{is_empty}
use neural_kv.Net.Socket.{Transfer}
use neural_kv.Net.Connection.{Connection, fresh, on_readable, on_writable}
use neural_kv.Server.Handler.{Backend}
use neural_kv.Server.Session.{ReadStep}

-- kBackpressureThreshold
abbrev pub backpressure_threshold : ℕ
backpressure_threshold = 1024 * 1024

-- The events that depend on the connection; EPOLLET and EPOLLRDHUP are always wanted.
pub record Interest : Type 0 where
  pub epollin : Bool
  pub epollout : Bool

-- WantedEvents
unfoldable pub wanted_events : Connection → Interest
wanted_events c = record {
  epollin = ltb (length c.write_buffer) backpressure_threshold;
  epollout = not (is_empty c.write_buffer);
}

-- An event of a connection: `hung_up` is EPOLLHUP or EPOLLERR, and EPOLLIN and EPOLLOUT come with what the
-- reads and the writes return that are made for them.
pub record Event : Type 0 where
  pub hung_up : Bool
  pub epollin : Option (List ReadStep)
  pub epollout : Option (List Transfer)

-- What HandleEvent leaves of a connection: the bytes that went out, the connection unless it is removed,
-- and the state behind the handler.
pub record Handled (S : Type 0) : Type 0 where
  pub taken : List ℕ
  pub connection : Option Connection
  pub behind : S

abbrev pub kept : {S : Type 0} → List ℕ → Connection → S → Handled S
kept taken c s = record {
  taken = taken;
  connection = if c.closed then none else some c;
  behind = s;
}

-- HandleEvent from `!conn.closed() && (ev.events & EPOLLOUT)` on.
unfoldable pub handle_writable : {S : Type 0} → Option (List Transfer) → Connection → S → Handled S
handle_writable none c s = kept [] c s
handle_writable (some writes) c s =
    let (status, taken, c') = on_writable writes c in
    if c.closed then kept [] c s else kept taken c' s

module _ {S : Type 0} (b : Backend S) (allow_stale_reads : Bool) where
  unfoldable pub handle_readable :
      Option (List ReadStep) → Option (List Transfer) → Connection → S → Option (Handled S)
  handle_readable none writes c s = some (handle_writable writes c s)
  handle_readable (some reads) writes c s = elim (on_readable b allow_stale_reads reads c s) [
    | none ↦ none
    | some (status, c', s') ↦ some (handle_writable writes c' s')
  ]

  -- HandleEvent on the connection that the table has for the descriptor. `none` is the fuel of
  -- ProcessFrames used up.
  unfoldable pub handle_connection : Event → Connection → S → Option (Handled S)
  handle_connection ev c s =
      if ev.hung_up
      then some (record { taken = []; connection = none; behind = s })
      else handle_readable ev.epollin ev.epollout c s

-- The connection table, and the events that the epoll instance reports, by descriptor.
pub record EpollServer : Type 0 where
  pub connections : ℕ → Option Connection
  pub interest : ℕ → Option Interest

abbrev pub update {ℓ} : {A : Type ℓ} → (ℕ → A) → ℕ → A → ℕ → A
update f fd a fd' = if fd' == fd then a else f fd'

-- std::unordered_map::emplace: an entry that is there stays.
abbrev pub emplace {ℓ} : {A : Type ℓ} → (ℕ → Option A) → ℕ → A → ℕ → Option A
emplace f fd a = update f fd (elim (f fd) [ none ↦ some a | some there ↦ some there ])

-- One connection of AcceptNewConnections. epoll_ctl refuses to add a descriptor that is registered;
-- `added` is whether it succeeds otherwise.
unfoldable pub accept_connection : ℕ → Bool → EpollServer → EpollServer
accept_connection fd added server = elim (server.interest fd) [
  | some there ↦ server
  | none ↦ if not added then server else record {
    connections = emplace server.connections fd fresh;
    interest = update server.interest fd (some (wanted_events fresh));
  }
]

-- RemoveConnection. The code does not look at the result of epoll_ctl, here and in `settle`; it succeeds.
unfoldable pub remove_connection : ℕ → EpollServer → EpollServer
remove_connection fd server = record {
  connections = update server.connections fd none;
  interest = update server.interest fd none;
}

-- The end of HandleEvent: the connection is removed, or its events are set anew.
unfoldable pub settle : ℕ → Option Connection → EpollServer → EpollServer
unfolding remove_connection
settle fd none server = remove_connection fd server
settle fd (some c) server = record {
  connections = update server.connections fd (some c);
  interest = update server.interest fd (some (wanted_events c));
}

-- What Run dispatches on: a connection at the listening descriptor, or an event of another one.
pub data LoopEvent : Type 0 where
  accepted : ℕ → Bool → LoopEvent
  reported : ℕ → Event → LoopEvent

-- The loop before its first round.
abbrev pub no_connections : EpollServer
no_connections = record { connections = λ fd. none; interest = λ fd. none }

module _ {S : Type 0} (b : Backend S) (allow_stale_reads : Bool) where
  unfoldable pub handle_event : ℕ → Event → EpollServer → S → Option (EpollServer × S)
  handle_event fd ev server s = elim (server.connections fd) [
    | none ↦ some (server, s)
    | some c ↦ elim (handle_connection b allow_stale_reads ev c s) [
      | none ↦ none
      | some h ↦ some (settle fd h.connection server, h.behind)
    ]
  ]

  -- What the rounds of Run's loop do, one event after the other.
  unfoldable pub run_events : List LoopEvent → EpollServer → S → Option (EpollServer × S)
  unfolding handle_event
  run_events [] server s = some (server, s)
  run_events (accepted fd added ∷ evs) server s =
      run_events evs (accept_connection fd added server) s
  run_events (reported fd ev ∷ evs) server s = elim (handle_event fd ev server s) [
    | none ↦ none
    | some (server', s') ↦ run_events evs server' s'
  ]
