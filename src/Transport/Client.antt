-- ===== src/Transport/Client.antt =====
-- include/tcp_client.h and src/transport/tcp_client.cpp. What the kernel answers is an argument; a
-- file descriptor of -1 is `none`.
pub mod Receiving
pub mod Connecting
use my_mprpc.Prelude.{
  ℕ, zero, suc, ◌+◌, ◌-◌, ◌≡◌, refl, Bool, true, false, ◌||◌, Option, none, some, List, [], ◌∷◌,
  ◌++◌, Bytes, length, take, drop, leb, ltb, ◌==◌, if◌then◌else◌,
}
use my_mprpc.Prelude.Decimal.{to_string}
use my_mprpc.ByteOrder.{load}
use my_mprpc.Codec.FrameCodec.{network_to_host32}
use my_mprpc.Transport.Socket.{
  ConnectionState, disconnected, connecting, connected, is_connected, is_disconnected, SendAnswer,
  Sent, complete, stopped, waiting, send_loop,
}

pub record TcpClient : Type 0 where
  pub sockfd : Option ℕ
  pub epoll_fd : Option ℕ
  pub running : Bool
  pub server_addr : Bytes
  pub state : ConnectionState
  -- the callbacks that are set
  pub message_callback : Bool
  pub connection_callback : Bool
  pub error_callback : Bool

unfoldable pub make_client : TcpClient
make_client = record {
  sockfd = none;
  epoll_fd = none;
  running = false;
  server_addr = [];
  state = disconnected;
  message_callback = false;
  connection_callback = false;
  error_callback = false;
}

pub data FdEvent : Type 0 where
  opened closed : ℕ → FdEvent

-- What select tells of a connection in progress, and then getsockopt: -1 or the error.
pub data SelectAnswer : Type 0 where
  select_failed select_timeout error_set neither_set : SelectAnswer
  write_set : Option ℕ → SelectAnswer

pub data ConnectAnswer : Type 0 where
  connect_done connect_failed : ConnectAnswer
  in_progress : SelectAnswer → ConnectAnswer

-- What the calls of connect return: the descriptor, whether fcntl and inet_pton succeed, and the
-- rest.
pub record ConnectAnswers : Type 0 where
  pub new_socket : Option ℕ
  pub non_blocking : Bool
  pub valid_address : Bool
  pub answer : ConnectAnswer

unfoldable pub selected : SelectAnswer → Bool
selected select_failed = false
selected select_timeout = false
selected error_set = false
selected neither_set = true
selected (write_set none) = false
selected (write_set (some error)) = error == 0

unfoldable pub established : ConnectAnswer → Bool
unfolding selected
established connect_done = true
established connect_failed = false
established (in_progress s) = selected s

-- close(sockfd_), -1, DISCONNECTED.
unfoldable pub abandon : ℕ → TcpClient → Bool × TcpClient × List FdEvent
abandon fd c = (false, record c { sockfd = none; state = disconnected }, opened fd ∷ closed fd ∷ [])

unfoldable pub connect_socket :
    Bytes → ℕ → ConnectAnswers → Option ℕ → TcpClient → Bool × TcpClient × List FdEvent
unfolding established abandon to_string
connect_socket host port k none c = (false, record c { sockfd = none; state = disconnected }, [])
connect_socket host port k (some fd) c =
    if k.non_blocking
    then (if k.valid_address
        then (if established k.answer
            then (
              true,
              record c {
                sockfd = some fd;
                state = connected;
                server_addr = host ++ b':' ∷ to_string port;
              },
              opened fd ∷ [],
            )
            else abandon fd c)
        else abandon fd c)
    else abandon fd c

unfoldable pub connect : Bytes → ℕ → ConnectAnswers → TcpClient → Bool × TcpClient × List FdEvent
unfolding connect_socket
connect host port k c =
    if is_connected c.state then (true, c, []) else connect_socket host port k k.new_socket c

close_events : Option ℕ → List FdEvent
close_events none = []
close_events (some fd) = closed fd ∷ []

unfoldable pub disconnect : TcpClient → TcpClient × List FdEvent
unfolding close_events
disconnect c = if is_disconnected c.state then (c, []) else (
  record c {
    sockfd = none;
    epoll_fd = none;
    running = false;
    server_addr = [];
    state = disconnected;
  },
  close_events c.sockfd ++ close_events c.epoll_fd,
)

unfoldable pub handle_error : TcpClient → TcpClient
handle_error c = record c { state = disconnected }

-- The result, or `none` while the loop waits for the kernel, and the bytes handed to the kernel.
unfoldable pub finish_write : TcpClient → Sent → Option Bool × TcpClient × Bytes
unfolding handle_error
finish_write c (complete out) = (some true, c, out)
finish_write c (stopped e out) = (some false, handle_error c, out)
finish_write c (waiting out) = (none, c, out)

unfoldable pub handle_write : Bytes → List SendAnswer → TcpClient → Option Bool × TcpClient × Bytes
unfolding finish_write send_loop
handle_write message answers c =
    if is_connected c.state then finish_write c (send_loop message answers) else (some false, c, [])

unfoldable pub send : Bytes → List SendAnswer → TcpClient → Option Bool × TcpClient × Bytes
unfolding handle_write
send message answers c = handle_write message answers c

-- What comes in at the socket: bytes, at least one; the end of the stream; EINTR; nothing yet, for
-- one call of recv; another error.
pub data Arrival : Type 0 where
  arrived : ℕ → Bytes → Arrival
  ended interrupted nothing_yet : Arrival
  recv_failed : ℕ → Arrival

pub data ReadOutcome : Type 0 where
  read_all : Bytes → ReadOutcome
  read_closed read_timed_out read_failed read_waiting : ReadOutcome

-- 5000 * 1ms
abbrev pub max_retries : ℕ
max_retries = 5000

abbrev pub after_bytes : Bytes → ReadOutcome × List Arrival → ReadOutcome × List Arrival
after_bytes piece (read_all bytes, arrivals) = (read_all (piece ++ bytes), arrivals)
after_bytes piece (read_closed, arrivals) = (read_closed, arrivals)
after_bytes piece (read_timed_out, arrivals) = (read_timed_out, arrivals)
after_bytes piece (read_failed, arrivals) = (read_failed, arrivals)
after_bytes piece (read_waiting, arrivals) = (read_waiting, arrivals)

-- recv has given `piece`, and `left` stays in the kernel.
abbrev pub after_recv :
    Bytes → Bytes → List Arrival → ReadOutcome × List Arrival → ReadOutcome × List Arrival
after_recv piece [] arrivals next = after_bytes piece next
after_recv piece (b ∷ left) arrivals next = (read_all piece, arrived b left ∷ arrivals)

-- `while (total_read < length)`; the first argument is what is left to read, the second
-- retry_count. recv gives at most what is left to read.
unfoldable pub read_loop : ℕ → ℕ → List Arrival → ReadOutcome × List Arrival
read_loop zero retry_count arrivals = (read_all [], arrivals)
read_loop (suc n) retry_count [] = (read_waiting, [])
read_loop (suc n) retry_count (ended ∷ arrivals) = (read_closed, ended ∷ arrivals)
read_loop (suc n) retry_count (interrupted ∷ arrivals) = read_loop (suc n) retry_count arrivals
read_loop (suc n) retry_count (nothing_yet ∷ arrivals) =
    let next = read_loop (suc n) (retry_count + 1) arrivals in
    if ltb max_retries (retry_count + 1) then (read_timed_out, arrivals) else next
read_loop (suc n) retry_count (recv_failed e ∷ arrivals) = (read_failed, arrivals)
read_loop (suc n) retry_count (arrived b bs ∷ arrivals) =
    let piece = take (suc n) (b ∷ bs) in
    after_recv piece (drop (suc n) (b ∷ bs)) arrivals (read_loop (suc n - length piece) 0 arrivals)

unfoldable pub finish_read : TcpClient → ReadOutcome → Option Bool × Bytes × TcpClient
finish_read c (read_all bytes) = (some true, bytes, c)
finish_read c read_closed = (some false, [], record c { state = disconnected })
finish_read c read_timed_out = (some false, [], c)
finish_read c read_failed = (some false, [], record c { state = disconnected })
finish_read c read_waiting = (none, [], c)

-- (result, data, client, what is left in the kernel)
unfoldable pub read_exactly :
    ℕ → List Arrival → TcpClient → (Option Bool × Bytes × TcpClient) × List Arrival
unfolding read_loop finish_read
read_exactly n arrivals c =
    let (outcome, left) = read_loop n 0 arrivals in (finish_read c outcome, left)

-- 10 * 1024 * 1024
abbrev pub max_message_size : ℕ
max_message_size = 10485760

-- receive behind the length prefix.
unfoldable pub receive_body :
    Bytes → ℕ → List Arrival → TcpClient → (Option Bool × Bytes × TcpClient) × List Arrival
unfolding read_exactly
receive_body message n arrivals c =
    if n == 0 || ltb max_message_size n
    then ((some false, message, c), arrivals)
    else read_exactly n arrivals c

-- ... behind the read of the length prefix.
unfoldable pub receive_prefix :
    Bytes
    → (Option Bool × Bytes × TcpClient) × List Arrival
    → (Option Bool × Bytes × TcpClient) × List Arrival
unfolding receive_body load network_to_host32
receive_prefix message ((some true, length_bytes, c), arrivals) =
    receive_body message (network_to_host32 (load length_bytes)) arrivals c
receive_prefix message ((some false, length_bytes, c), arrivals) =
    ((some false, message, c), arrivals)
receive_prefix message ((none, length_bytes, c), arrivals) = ((none, message, c), arrivals)

unfoldable pub receive :
    Bytes → List Arrival → TcpClient → (Option Bool × Bytes × TcpClient) × List Arrival
unfolding receive_prefix
receive message arrivals c =
    if is_connected c.state
    then receive_prefix message (read_exactly 4 arrivals c)
    else ((some false, message, c), arrivals)

pub set_message_callback : Bool → TcpClient → TcpClient
set_message_callback callback c = record c { message_callback = callback }

pub set_connection_callback : Bool → TcpClient → TcpClient
set_connection_callback callback c = record c { connection_callback = callback }

pub set_error_callback : Bool → TcpClient → TcpClient
set_error_callback callback c = record c { error_callback = callback }
