-- ===== src/Transport/Server/Closing.antt =====
-- The end of a connection in src/transport/tcp_server.cpp.
use my_mprpc.Prelude.{
  ℕ, ◌≡◌, ◌≢◌, refl, ap, ◌∙◌, Bool, true, false, none, some, List, [], ◌∷◌, ◌++◌, arith, Bytes, map,
  length, ◌≤◌, ◌⊎◌, inl, inr, Bool-cases, ◌==◌, if◌then◌else◌, nat_eq,
}
use my_mprpc.Prelude.Result.{Result, ok, err, ◌>>=◌}
use my_mprpc.Prelude.Map.{find, erase, find-erase}
use my_mprpc.Buffer.{Buffer, BufferError, ReadOutcome, failed, got, read_from_fd, extra_size}
use my_mprpc.Buffer.Append.{Filled, read_from_fd-Filled}
use my_mprpc.Transport.Socket.{connected, disconnected}
use my_mprpc.Transport.Connection.{TcpConnection}
use my_mprpc.Transport.Connection as Connection
use my_mprpc.Transport.Server.{TcpServer}
use my_mprpc.Transport.Server.Events.{
  EventError, use_after_free, ClientEvent, message, unwatched, connection_event, Handled,
  handle_client_close, handle_client_read, handle_client_event, EpollEvent, then_close, handle_read,
  lift_buffer, again,
}
use my_mprpc.Transport.Server.Reading.{
  called_with, IsKeeping, IsSteady, handle_client_read-Read, got-length,
}

-- The descriptors that were closed.
abbrev pub closed_fds : List ClientEvent → List ℕ
closed_fds [] = []
closed_fds (connection_event (Connection.closed fd) ∷ events) = fd ∷ closed_fds events
closed_fds (e ∷ events) = closed_fds events

-- The connection has given its descriptor back, once, and the server has forgotten it.
pub record IsClosed (address fd : ℕ) (h : Handled) : Type 0 where
  pub state : h.connection.state ≡ disconnected
  pub no_socket : h.connection.sockfd ≡ none
  pub forgotten : find address h.server.connections ≡ none
  pub once : closed_fds h.events ≡ fd ∷ []

forgets : (address : ℕ) (s : TcpServer) → find address (erase address s.connections) ≡ none
forgets address s =
    let same : (address == address) ≡ true = ground arith in
    find-erase address address s.connections ∙ rw same refl

close_connected :
    (c : TcpConnection) (fd : ℕ)
    → c.state ≡ connected
    → c.sockfd ≡ some fd
    → Connection.close c
      ≡ (record c { sockfd = none; state = disconnected }, Connection.closed fd ∷ [])
unfolding Connection.close
close_connected c fd h f = simp (h, f)

close_disconnected : (c : TcpConnection) → c.state ≡ disconnected → Connection.close c ≡ (c, [])
unfolding Connection.close
close_disconnected c h = simp h

handle_client_close-IsClosed :
    (address fd : ℕ) (c : TcpConnection) (s : TcpServer)
    → c.state ≡ connected
    → c.sockfd ≡ some fd
    → (h : Handled) × (handle_client_close address true c s ≡ ok h) × IsClosed address fd h
unfolding handle_client_close
handle_client_close-IsClosed address fd c s h f = rw (close_connected c fd h f) (
  record {
    connection = record c { sockfd = none; state = disconnected };
    server = record s { connections = erase address s.connections };
    events = unwatched c.sockfd ∷ connection_event (Connection.closed fd) ∷ [];
  },
  refl,
  record { state = refl; no_socket = refl; forgotten = forgets address s; once = refl },
)

closed_fds-append :
    (xs ys : List ClientEvent) → closed_fds (xs ++ ys) ≡ closed_fds xs ++ closed_fds ys
closed_fds-append [] ys = refl
closed_fds-append (message m ∷ xs) ys = closed_fds-append xs ys
closed_fds-append (unwatched fd ∷ xs) ys = closed_fds-append xs ys
closed_fds-append (connection_event (Connection.wrote b) ∷ xs) ys = closed_fds-append xs ys
closed_fds-append (connection_event (Connection.closed fd) ∷ xs) ys =
    ap (◌∷◌ fd) (closed_fds-append xs ys)
closed_fds-append (connection_event Connection.write_completed ∷ xs) ys = closed_fds-append xs ys
closed_fds-append (connection_event (Connection.error_reported e) ∷ xs) ys = closed_fds-append xs ys

-- The connection stands as before, or was closed.
record IsOpen (fd : ℕ) (h : Handled) : Type 0 where
  state : h.connection.state ≡ connected
  socket : h.connection.sockfd ≡ some fd
  none_closed : closed_fds h.events ≡ []

then_close_standing :
    (address fd : ℕ) (first : Handled)
    → IsOpen fd first
    → (h : Handled) × (then_close address true first ≡ ok h) × IsClosed address fd h
then_close_standing address fd first o =
    let (second, run, closed) =
      handle_client_close-IsClosed address fd first.connection first.server o.state o.socket in
    rw run (
      record second { events = first.events ++ second.events },
      refl,
      record {
        state = closed.state;
        no_socket = closed.no_socket;
        forgotten = closed.forgotten;
        once =
            closed_fds-append first.events second.events
            ∙ ap (λ fds. fds ++ closed_fds second.events) o.none_closed
            ∙ closed.once;
      },
    )

then_close-IsClosed :
    (address fd : ℕ) (first : Handled)
    → IsClosed address fd first
    → (h : Handled) × (then_close address true first ≡ ok h) × IsClosed address fd h
unfolding handle_client_close
then_close-IsClosed address fd first closed =
    rw (close_disconnected first.connection closed.state) (
      record {
        connection = first.connection;
        server = record (first.server) { connections = erase address first.server.connections };
        events = first.events ++ unwatched first.connection.sockfd ∷ [];
      },
      refl,
      record {
        state = closed.state;
        no_socket = closed.no_socket;
        forgotten = forgets address first.server;
        once =
            closed_fds-append first.events (unwatched first.connection.sockfd ∷ [])
            ∙ ap (λ fds. fds ++ []) closed.once;
      },
    )

-- What a read can give: an error, the end of the stream, or up to 64 KB.
abbrev pub IsPossible : ReadOutcome → Type 0
IsPossible (failed errno) = Unit
IsPossible (got bytes) = length bytes ≤ extra_size

abbrev Ended : ℕ → ℕ → Result EventError Handled → Type 0
Ended address fd r = (h : Handled) × (r ≡ ok h) × (IsOpen fd h ⊎ IsClosed address fd h)

no_closes : (c : TcpConnection) (messages : List Bytes) → closed_fds (called_with c messages) ≡ []
no_closes c messages = elim (Bool-cases c.callbacks.message) [
  | inl set ↦ rw set (only_messages messages)
  | inr unset ↦ rw unset refl
]
  where
    only_messages : (messages : List Bytes) → closed_fds (map message messages) ≡ []
    only_messages [] = refl
    only_messages (m ∷ messages) = only_messages messages

-- The connection stands, on this descriptor.
abbrev pub IsStanding : ℕ → TcpConnection → Type 0
IsStanding fd c = (c.state ≡ connected) × (c.sockfd ≡ some fd)

module _ {on_message : Bytes → TcpConnection → TcpConnection} (address fd : ℕ)
    (keeping : IsKeeping on_message (IsStanding fd)) (c : TcpConnection) (s : TcpServer)
    (state : c.state ≡ connected) (socket : c.sockfd ≡ some fd)
    (steady : IsSteady c.input_buffer) where
  closed-Ended :
      (b : Buffer)
      → Ended address fd (handle_client_close address true (record c { input_buffer = b }) s)
  closed-Ended b =
      let (h, run, closed) =
        handle_client_close-IsClosed address fd (record c { input_buffer = b }) s state socket in
      (h, run, inr closed)

  failed-Ended :
      (errno : ℕ) (r : Result BufferError Buffer)
      → r ≡ ok c.input_buffer
      → Ended address fd (do
        filled ← lift_buffer r
        handle_read on_message (failed errno) address true (record c { input_buffer = filled }) s)
  unfolding handle_read
  failed-Ended errno r e = rw e (elim (Bool-cases (errno == again)) [
    | inl later ↦ rw later (
      record { connection = c; server = s; events = [] },
      refl,
      inl (record { state = state; socket = socket; none_closed = refl }),
    )
    | inr broken ↦ rw broken (closed-Ended c.input_buffer)
  ])

  empty-Ended :
      (r : Result BufferError Buffer)
      → Filled (got []) c.input_buffer r
      → Ended address fd (do
        filled ← lift_buffer r
        handle_read on_message (got []) address true (record c { input_buffer = filled }) s)
  unfolding handle_read
  empty-Ended (ok b) f = closed-Ended b
  empty-Ended (err e) (_, over) = absurd (omega (arith, over, steady.small, steady.valid.within))

  handle_client_read-Ended :
      (r : ReadOutcome)
      → IsPossible r
      → Ended address fd (handle_client_read on_message r address true c s)
  unfolding handle_client_read
  handle_client_read-Ended (failed errno) p =
      failed-Ended errno (read_from_fd (failed errno) c.input_buffer)
        (read_from_fd-Filled (failed errno) steady.valid (λ ys e. absurd (cc e)))
  handle_client_read-Ended (got []) p = empty-Ended (read_from_fd (got []) c.input_buffer) (
      read_from_fd-Filled (got []) steady.valid
        (λ ys e. got-length c.input_buffer [] ys (omega arith) e))
  handle_client_read-Ended (got (x ∷ bytes)) p =
      let (messages, d, run, calls, (state', socket'), _, _) =
        handle_client_read-Read keeping c s address true (x ∷ bytes) (omega arith, p) steady
          (state, socket) in
      (
        record { connection = d; server = s; events = called_with c messages },
        unfold handle_client_read in run,
        inl (record { state = state'; socket = socket'; none_closed = no_closes c messages }),
      )

  first-Ended :
      (readable : Bool) (r : ReadOutcome)
      → IsPossible r
      → Ended address fd (
          if readable
          then handle_client_read on_message r address true c s
          else ok (record { connection = c; server = s; events = [] }))
  first-Ended true r p = handle_client_read-Ended r p
  first-Ended false r p = (
    record { connection = c; server = s; events = [] },
    refl,
    inl (record { state = state; socket = socket; none_closed = refl }),
  )

  hung_up-Ended :
      (first : Result EventError Handled)
      → Ended address fd first
      → (h : Handled) × ((do f ← first; then_close address true f) ≡ ok h) × IsClosed address fd h
  hung_up-Ended first (h, run, inl o) = rw run (then_close_standing address fd h o)
  hung_up-Ended first (h, run, inr closed) = rw run (then_close-IsClosed address fd h closed)

  -- An event with EPOLLERR or EPOLLHUP for a connected client, of whose connection somebody besides
  -- the server's list is an owner, and whose message callback leaves the connection connected on its
  -- descriptor, without reading its input or setting callbacks: whatever the read before gives, up to
  -- 64 KB, the connection is closed, its descriptor once also when the read has closed it already,
  -- and the server forgets it.
  pub handle_client_event-IsClosed :
      (event : EpollEvent) (r : ReadOutcome)
      → IsPossible r
      → address ≢ 0
      → event.hung_up ≡ true
      → (h : Handled) × (handle_client_event on_message event r address true c s ≡ ok h)
        × IsClosed address fd h
  unfolding handle_client_event
  handle_client_event-IsClosed event r p some_object up =
      let real : (address == 0) ≡ false = ground arith in
      rw (real, up)
        (hung_up-Ended
          (if event.readable
            then handle_client_read on_message r address true c s
            else ok (record { connection = c; server = s; events = [] }))
          (first-Ended event.readable r p))

-- Without another owner, the same event ends in a call on a connection that is gone.
pub handle_client_event-freed :
    (on_message : Bytes → TcpConnection → TcpConnection) (event : EpollEvent) (r : ReadOutcome)
    (address : ℕ) (c : TcpConnection) (s : TcpServer)
    → address ≢ 0
    → event.readable ≡ false
    → event.hung_up ≡ true
    → handle_client_event on_message event r address false c s ≡ err use_after_free
unfolding handle_client_event handle_client_close
handle_client_event-freed on_message event r address c s some_object idle up =
    let real : (address == 0) ≡ false = ground arith in rw (real, idle, up) refl
