-- ===== src/Transport/Connection.antt =====
-- include/tcp_connection.h and src/transport/tcp_connection.cpp. What a callback is called with is
-- an event, and a file descriptor of -1 is `none`.
pub mod Frames
pub mod Sending
use my_mprpc.Prelude.{
  ℕ, ◌+◌, ◌%◌, ◌^◌, ◌≡◌, refl, Bool, true, false, ◌||◌, Option, none, some, List, [], ◌∷◌, ◌++◌,
  Bytes, codes, length, ltb, ◌==◌, if◌then◌else◌,
}
use my_mprpc.Prelude.Result.{Result, ok, err, ◌>>=◌}
use my_mprpc.Buffer.{
  Buffer, BufferError, make_buffer, initial_size, readable_bytes, peek_int, retrieve, retrieve_all,
  retrieve_as_vector,
}
use my_mprpc.Transport.Socket.{
  ConnectionState, disconnected, disconnecting, connected, is_connected, is_disconnected,
  SendAnswer, SendError, closed_by_peer, errno, Sent, complete, stopped, waiting, send_loop,
}

-- The callbacks that are set.
pub record Callbacks : Type 0 where
  pub message : Bool
  pub connection : Bool
  pub write_complete : Bool
  pub error : Bool

pub record TcpConnection : Type 0 where
  pub sockfd : Option ℕ
  pub peer_addr : Bytes
  pub state : ConnectionState
  pub input_buffer : Buffer
  pub output_buffer : Buffer
  pub callbacks : Callbacks

pub data Event : Type 0 where
  -- bytes handed to the kernel, a descriptor closed
  wrote : Bytes → Event
  closed : ℕ → Event
  -- calls of the callbacks
  write_completed : Event
  error_reported : SendError → Event

unfoldable pub make_connection : ℕ → Bytes → TcpConnection
make_connection sockfd peer_addr = record {
  sockfd = some sockfd;
  peer_addr = peer_addr;
  state = connected;
  input_buffer = make_buffer initial_size;
  output_buffer = make_buffer initial_size;
  callbacks = record { message = false; connection = false; write_complete = false; error = false };
}

pub handle_error : SendError → TcpConnection → TcpConnection × List Event
handle_error e c =
    (record c { state = disconnected }, if c.callbacks.error then error_reported e ∷ [] else [])

-- The result, or `none` while the loop of send waits for the kernel.
finish_send : TcpConnection → Sent → Option Bool × TcpConnection × List Event
unfolding handle_error
finish_send c (complete out) =
    (some true, c, wrote out ∷ (if c.callbacks.write_complete then write_completed ∷ [] else []))
finish_send c (stopped e out) =
    let (c', events) = handle_error e c in (some false, c', wrote out ∷ events)
finish_send c (waiting out) = (none, c, wrote out ∷ [])

pub send : Bytes → List SendAnswer → TcpConnection → Option Bool × TcpConnection × List Event
unfolding finish_send
send bytes answers c =
    if is_connected c.state then finish_send c (send_loop bytes answers) else (some false, c, [])

abbrev pub close_socket : Option ℕ → List Event
close_socket none = []
close_socket (some fd) = closed fd ∷ []

unfoldable pub close : TcpConnection → TcpConnection × List Event
close c =
    if is_disconnected c.state
    then (c, [])
    else (record c { sockfd = none; state = disconnected }, close_socket c.sockfd)

-- 10 * 1024 * 1024
abbrev pub max_frame_size : ℕ
max_frame_size = 10485760

-- decodeFrame behind the read of the length; the length is a uint32_t, and so is its sum with 4.
-- The result is (result, frame_data, input buffer).
pub decode_length : ℕ → Bytes → Buffer → Bool × Bytes × Buffer
decode_length length_host frame_data b =
    if length_host == 0 || ltb max_frame_size length_host
    then (false, frame_data, retrieve_all b)
    else if ltb (readable_bytes b) ((length_host + 4) % 2 ^ 32)
    then (false, frame_data, b)
    else (let (frame, rest) = retrieve_as_vector length_host (retrieve 4 b) in (true, frame, rest))

-- decodeFrame on the input buffer. What the buffer throws is passed on.
pub decode_buffer : Bytes → Buffer → Result BufferError (Bool × Bytes × Buffer)
decode_buffer frame_data b =
    if ltb (readable_bytes b) 4
    then ok (false, frame_data, b)
    else do length_host ← peek_int 4 b; ok (decode_length length_host frame_data b)

unfoldable pub decode_frame :
    Bytes → TcpConnection → Result BufferError (Bool × Bytes × TcpConnection)
decode_frame frame_data c = do
  decoded ← decode_buffer frame_data c.input_buffer
  ok (decoded.0, decoded.1, record c { input_buffer = decoded.2 })

pub set_message_callback : Bool → TcpConnection → TcpConnection
set_message_callback callback c = record c {
  callbacks = record (c.callbacks) { message = callback };
}

pub set_connection_callback : Bool → TcpConnection → TcpConnection
set_connection_callback callback c = record c {
  callbacks = record (c.callbacks) { connection = callback };
}

pub set_write_complete_callback : Bool → TcpConnection → TcpConnection
set_write_complete_callback callback c = record c {
  callbacks = record (c.callbacks) { write_complete = callback };
}

pub set_error_callback : Bool → TcpConnection → TcpConnection
set_error_callback callback c = record c { callbacks = record (c.callbacks) { error = callback } }
