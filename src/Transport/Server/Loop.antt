-- ===== src/Transport/Server/Loop.antt =====
-- serverThreadMain of src/transport/tcp_server.cpp: the loop over what epoll_wait returns, which
-- goes on while the list of these answers does.
use my_mprpc.Prelude.{
  Bytes, ℕ, ◌^◌, ◌%◌, Bool, Option, none, some, List, [], ◌∷◌, ◌++◌, ◌==◌, nat_eq, length, ltb,
  if◌then◌else◌, map,
}
use my_mprpc.Prelude.Result.{Result, ok, err, ◌>>=◌}
use my_mprpc.Prelude.Map.{find, put, has}
use my_mprpc.Buffer.{ReadOutcome}
use my_mprpc.Transport.Connection.{TcpConnection}
use my_mprpc.Transport.Server.{TcpServer, FdEvent, Accepted, handle_new_connection}
use my_mprpc.Transport.Server.Events.{
  EventError, use_after_free, ClientEvent, EpollEvent, handle_client_event,
}

-- An epoll_event: the 64 bits of its data and its flags; then what accept or the read would give,
-- and whether the connection has an owner besides the list of the server.
pub record Ready : Type 0 where
  pub event_data : ℕ
  pub flags : EpollEvent
  pub accepted : Option Accepted
  pub read : ReadOutcome
  pub held : Bool

-- epoll_wait: EINTR, another error, or events
pub data Waited : Type 0 where
  interrupted wait_failed : Waited
  ready : List Ready → Waited

pub data LoopEvent : Type 0 where
  descriptor : FdEvent → LoopEvent
  client_event : ℕ → ClientEvent → LoopEvent

pub record Served : Type 0 where
  pub server : TcpServer
  pub events : List LoopEvent

abbrev pub nothing_done : TcpServer → Served
nothing_done s = record { server = s; events = [] }

abbrev pub join_served : Served → Served → Served
join_served first later = record { server = later.server; events = first.events ++ later.events }

-- data.fd is the low half of the data; a listen_sockfd_ of -1 has all bits set.
abbrev pub fd_bits : Option ℕ → ℕ
fd_bits none = 4294967295
fd_bits (some fd) = fd % 2 ^ 32

abbrev pub is_listening : ℕ → TcpServer → Bool
is_listening event_data s = event_data % 2 ^ 32 == fd_bits s.listen_sockfd

-- The object of a connection that is still in the list.
abbrev pub put_back : ℕ → TcpConnection → TcpServer → TcpServer
put_back address c s =
    if has address s.connections then record s { connections = put address c s.connections } else s

-- `on_message` is what the message callback makes of a connection.
module _ (on_message : Bytes → TcpConnection → TcpConnection) where
  -- An event whose pointer is no connection of the list is one of an object that is gone.
  unfoldable pub serve_client : Ready → Option TcpConnection → TcpServer → Result EventError Served
  unfolding handle_client_event
  serve_client e none s = if e.event_data == 0 then ok (nothing_done s) else err use_after_free
  serve_client e (some c) s = do
    h ← handle_client_event on_message e.flags e.read e.event_data e.held c s
    ok (record {
      server = put_back e.event_data h.connection h.server;
      events = map (client_event e.event_data) h.events;
    })

-- `callback` is connection_callback_, which sets the callbacks of a connection.
module _ (callback : TcpConnection → TcpConnection) where
  abbrev pub introduce : ℕ → Option TcpConnection → TcpServer → TcpServer
  introduce address none s = s
  introduce address (some c) s = put_back address (callback c) s

  -- The callback is called when the connection has come into the list.
  unfoldable pub serve_new : Option Accepted → TcpServer → Served
  unfolding handle_new_connection
  serve_new none s = nothing_done s
  serve_new (some a) s =
      let (s', events) = handle_new_connection (some a) s in
      record {
        server =
            if s.connection_callback
            then (if ltb (length s.connections) (length s'.connections)
                then introduce a.object (find a.object s'.connections) s'
                else s')
            else s';
        events = map descriptor events;
      }

module _ (on_message : Bytes → TcpConnection → TcpConnection)
    (callback : TcpConnection → TcpConnection) where
  unfoldable pub serve_event : Ready → TcpServer → Result EventError Served
  unfolding serve_client serve_new
  serve_event e s =
      if is_listening e.event_data s
      then ok (serve_new callback e.accepted s)
      else serve_client on_message e (find e.event_data s.connections) s

  -- for (int i = 0; i < nfds; ++i)
  unfoldable pub serve_events : List Ready → TcpServer → Result EventError Served
  unfolding serve_event
  serve_events [] s = ok (nothing_done s)
  serve_events (e ∷ es) s = do
    first ← serve_event e s
    later ← serve_events es first.server
    ok (join_served first later)

  -- One round of the loop; `go` is the rest of it.
  unfoldable pub after_wait :
      Waited → TcpServer → (TcpServer → Result EventError Served) → Result EventError Served
  unfolding serve_events
  after_wait interrupted s go = go s
  after_wait wait_failed s go = ok (nothing_done s)
  after_wait (ready es) s go = do
    first ← serve_events es s
    later ← go first.server
    ok (join_served first later)

  unfoldable pub server_thread_main : List Waited → TcpServer → Result EventError Served
  unfolding after_wait
  server_thread_main [] s = ok (nothing_done s)
  server_thread_main (w ∷ answers) s =
      let go : TcpServer → Result EventError Served = λ s'. server_thread_main answers s' in
      if s.running then after_wait w s go else ok (nothing_done s)
