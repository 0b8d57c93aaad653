-- ===== src/Transport/Server.antt =====
-- How the TCP server of include/tcp_server.h and src/transport/tcp_server.cpp starts, takes
-- connections in and stops. What the kernel answers is an argument; a file descriptor of -1 is
-- `none`, and a connection is known by the address of its object.
pub mod Accepting
pub mod Events
pub mod Stream
pub mod Reading
pub mod Delivery
pub mod Closing
pub mod Loop
pub mod Serving
use my_mprpc.Prelude.{
  ℕ, ◌≡◌, refl, Bool, true, false, Option, none, some, List, [], ◌∷◌, ◌++◌, Bytes, length, leb,
  if◌then◌else◌,
}
use my_mprpc.Prelude.Map.{Map}
use my_mprpc.Prelude.Decimal.{to_string}
use my_mprpc.Transport.Connection.{TcpConnection, make_connection}
use my_mprpc.Transport.Socket.{is_disconnected}

pub record TcpServer : Type 0 where
  pub listen_sockfd : Option ℕ
  pub epoll_fd : Option ℕ
  pub running : Bool
  pub connections : Map ℕ TcpConnection
  -- whether the callback is set
  pub connection_callback : Bool
  pub max_connections : ℕ

unfoldable pub make_server : TcpServer
make_server = record {
  listen_sockfd = none;
  epoll_fd = none;
  running = false;
  connections = [];
  connection_callback = false;
  max_connections = 1000;
}

pub data FdEvent : Type 0 where
  opened closed : ℕ → FdEvent

-- What the calls of start return: socket, whether setsockopt, bind and listen succeed,
-- epoll_create1, whether epoll_ctl succeeds.
pub record StartAnswers : Type 0 where
  pub new_socket : Option ℕ
  pub option_set : Bool
  pub bound : Bool
  pub listening : Bool
  pub new_epoll : Option ℕ
  pub added : Bool

-- close(listen_sockfd_), -1
unfoldable pub give_up : ℕ → List FdEvent → TcpServer → Bool × TcpServer × List FdEvent
give_up fd events s =
    (false, record s { listen_sockfd = none }, opened fd ∷ events ++ closed fd ∷ [])

unfoldable pub start_epoll :
    ℕ → StartAnswers → Option ℕ → TcpServer → Bool × TcpServer × List FdEvent
unfolding give_up
start_epoll fd k none s = give_up fd [] (record s { epoll_fd = none })
start_epoll fd k (some epoll) s =
    if k.added
    then (
      true,
      record s { listen_sockfd = some fd; epoll_fd = some epoll; running = true },
      opened fd ∷ opened epoll ∷ [],
    )
    else give_up fd (opened epoll ∷ closed epoll ∷ []) (record s { epoll_fd = none })

unfoldable pub start_listening :
    StartAnswers → Option ℕ → TcpServer → Bool × TcpServer × List FdEvent
unfolding start_epoll give_up
start_listening k none s = (false, record s { listen_sockfd = none }, [])
start_listening k (some fd) s =
    if k.option_set
    then (if k.bound
        then (if k.listening then start_epoll fd k k.new_epoll s else give_up fd [] s)
        else give_up fd [] s)
    else give_up fd [] s

unfoldable pub start : StartAnswers → TcpServer → Bool × TcpServer × List FdEvent
unfolding start_listening
start k s = if s.running then (true, s, []) else start_listening k k.new_socket s

abbrev pub close_events : Option ℕ → List FdEvent
close_events none = []
close_events (some fd) = closed fd ∷ []

-- A connection closes its descriptor unless it is disconnected.
abbrev pub close_all : Map ℕ TcpConnection → List FdEvent
close_all [] = []
close_all ((address, c) ∷ connections) =
    (if is_disconnected c.state then [] else close_events c.sockfd) ++ close_all connections

unfoldable pub stop : TcpServer → TcpServer × List FdEvent
stop s =
    if s.running
    then (
      record s { running = false; listen_sockfd = none; epoll_fd = none; connections = [] },
      close_events s.listen_sockfd ++ close_all s.connections ++ close_events s.epoll_fd,
    )
    else (s, [])

-- What accept gave: the descriptor, inet_ntoa of the address of the peer, its port; then the
-- address of the new object and whether epoll_ctl succeeds.
pub record Accepted : Type 0 where
  pub client_sockfd : ℕ
  pub peer_host : Bytes
  pub peer_port : ℕ
  pub object : ℕ
  pub added : Bool

unfoldable pub handle_new_connection : Option Accepted → TcpServer → TcpServer × List FdEvent
unfolding make_connection to_string
handle_new_connection none s = (s, [])
handle_new_connection (some a) s =
    if leb s.max_connections (length s.connections)
    then (s, opened a.client_sockfd ∷ closed a.client_sockfd ∷ [])
    else let connection =
        make_connection a.client_sockfd (a.peer_host ++ b':' ∷ to_string a.peer_port) in
      if a.added
      then (
        record s { connections = s.connections ++ (a.object, connection) ∷ [] },
        opened a.client_sockfd ∷ [],
      )
      else (s, opened a.client_sockfd ∷ closed a.client_sockfd ∷ [])

unfoldable pub set_connection_callback : Bool → TcpServer → TcpServer
set_connection_callback callback s = record s { connection_callback = callback }
