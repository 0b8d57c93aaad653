-- ===== src/Transport/Server/Events.antt =====
-- What the TCP server of src/transport/tcp_server.cpp does with the events of its clients:
-- handleClientEvent, handleClientRead and handleClientClose on one connection. `held` says whether
-- the connection has an owner besides the list of the server, and `on_message` what the message
-- callback makes of the connection, over which it may send; what it does there itself is not listed.
use my_mprpc.Prelude.{
  ℕ, zero, suc, Bool, true, false, Option, List, [], ◌∷◌, ◌++◌, Bytes, ◌==◌, if◌then◌else◌, map,
}
use my_mprpc.Prelude.Result.{Result, ok, err, ◌>>=◌}
use my_mprpc.Prelude.{nat_eq}
use my_mprpc.Prelude.Map.{erase}
use my_mprpc.Buffer.{BufferError, ReadOutcome, failed, got, read_from_fd, readable_bytes}
use my_mprpc.Transport.Connection.{TcpConnection, decode_frame}
use my_mprpc.Transport.Connection as Connection
use my_mprpc.Transport.Server.{TcpServer}

pub data EventError : Type 0 where
  -- what a method of the buffer throws
  buffer_failed : BufferError → EventError
  -- the fuel ran out
  unfinished : EventError
  -- a call on a connection that its last owner has given up
  use_after_free : EventError

pub data ClientEvent : Type 0 where
  -- a call of the message callback
  message : Bytes → ClientEvent
  -- EPOLL_CTL_DEL
  unwatched : Option ℕ → ClientEvent
  -- what the connection does
  connection_event : Connection.Event → ClientEvent

-- What a handler leaves: the connection, the server, and what it did.
pub record Handled : Type 0 where
  pub connection : TcpConnection
  pub server : TcpServer
  pub events : List ClientEvent

module _ (on_message : Bytes → TcpConnection → TcpConnection) where
  -- A call of the message callback, when it is set, on the connection that stands.
  abbrev pub after_message : Bytes → TcpConnection → TcpConnection
  after_message m c = if c.callbacks.message then on_message m c else c

  abbrev pub note_message : Bytes → TcpConnection → List ClientEvent → List ClientEvent
  note_message m c events = if c.callbacks.message then message m ∷ events else events

  -- One round of the loop of handleClientRead; `go` is the rest of the loop.
  unfoldable pub next_round :
      Result BufferError (Bool × Bytes × TcpConnection)
      → (Bytes → TcpConnection → Result EventError (List ClientEvent × TcpConnection))
      → Result EventError (List ClientEvent × TcpConnection)
  next_round (err e) go = err (buffer_failed e)
  next_round (ok (false, frame_data, c)) go = ok ([], c)
  next_round (ok (true, frame_data, c)) go = do
    later ← go frame_data (after_message frame_data c)
    ok (note_message frame_data c later.0, later.1)

  -- while (connection->decodeFrame(frame_data))
  unfoldable pub decode_frames :
      ℕ → Bytes → TcpConnection → Result EventError (List ClientEvent × TcpConnection)
  unfolding next_round
  decode_frames zero frame_data c = err unfinished
  decode_frames (suc fuel) frame_data c =
      next_round (decode_frame frame_data c) (λ f d. decode_frames fuel f d)

-- handleClientClose: the list gives its owner up before close is called.
unfoldable pub handle_client_close :
    ℕ → Bool → TcpConnection → TcpServer → Result EventError Handled
handle_client_close address held c s =
    if held
    then (let (c', events) = Connection.close c in
        ok (record {
          connection = c';
          server = record s { connections = erase address s.connections };
          events = unwatched c.sockfd ∷ map connection_event events;
        }))
    else err use_after_free

-- EAGAIN, which is also EWOULDBLOCK
abbrev pub again : ℕ
again = 11

abbrev pub lift_buffer : {A : Type 0} → Result BufferError A → Result EventError A
lift_buffer (ok a) = ok a
lift_buffer (err e) = err (buffer_failed e)

-- Whether EPOLLIN, and EPOLLERR or EPOLLHUP are set.
pub record EpollEvent : Type 0 where
  pub readable : Bool
  pub hung_up : Bool

abbrev pub then_close : ℕ → Bool → Handled → Result EventError Handled
then_close address held first = do
  second ← handle_client_close address held first.connection first.server
  ok (record second { events = first.events ++ second.events })

module _ (on_message : Bytes → TcpConnection → TcpConnection) where
  -- handleClientRead behind readFromFd. A frame takes five bytes or more, so that one round more than
  -- there are bytes is enough fuel.
  unfoldable pub handle_read :
      ReadOutcome → ℕ → Bool → TcpConnection → TcpServer → Result EventError Handled
  unfolding decode_frames handle_client_close readable_bytes
  handle_read (failed errno) address held c s =
      if errno == again
      then ok (record { connection = c; server = s; events = [] })
      else handle_client_close address held c s
  handle_read (got []) address held c s = handle_client_close address held c s
  handle_read (got (b ∷ bytes)) address held c s = do
    decoded ← decode_frames on_message (suc (readable_bytes c.input_buffer)) [] c
    ok (record { connection = decoded.1; server = s; events = decoded.0 })

  unfoldable pub handle_client_read :
      ReadOutcome → ℕ → Bool → TcpConnection → TcpServer → Result EventError Handled
  unfolding handle_read
  handle_client_read r address held c s = do
    filled ← lift_buffer (read_from_fd r c.input_buffer)
    handle_read r address held (record c { input_buffer = filled }) s

  -- `address` is event.data.ptr, and `r` what a read would give.
  unfoldable pub handle_client_event :
      EpollEvent → ReadOutcome → ℕ → Bool → TcpConnection → TcpServer → Result EventError Handled
  unfolding handle_client_read handle_client_close
  handle_client_event event r address held c s =
      let unchanged : Handled = record { connection = c; server = s; events = [] } in
      if address == 0 then ok unchanged else do
        first ← (if event.readable then handle_client_read r address held c s else ok unchanged)
        if event.hung_up then then_close address held first else ok first
