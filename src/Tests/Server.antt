-- ===== src/Tests/Server.antt =====
-- src/transport/tcp_server.cpp at concrete inputs.
use my_mprpc.Prelude.{ℕ, refl, true, false, some, none, [], ◌∷◌, arith}
use my_mprpc.Transport.Server.{TcpServer, make_server, start, StartAnswers, Accepted}
use my_mprpc.Transport.Server.Accepting.{
  StartOutcome, start-StartOutcome, Accounted, accept_all, accept_all-Accounted,
}

abbrev refused : StartAnswers
refused = record {
  new_socket = some 3;
  option_set = true;
  bound = true;
  listening = true;
  new_epoll = some 4;
  added = false;
}

start-StartOutcome_example : StartOutcome (start refused make_server)
unfolding make_server
start-StartOutcome_example = start-StartOutcome refused make_server refl

abbrev small : TcpServer
small = record {
  listen_sockfd = some 3;
  epoll_fd = some 4;
  running = true;
  connections = [];
  connection_callback = false;
  max_connections = 1;
}

abbrev peer : ℕ → Accepted
peer fd = record { client_sockfd = fd; peer_host = []; peer_port = 80; object = fd; added = true }

accept_all-Accounted_example :
    Accounted small (accept_all (some (peer 5) ∷ none ∷ some (peer 6) ∷ []) small)
accept_all-Accounted_example =
    accept_all-Accounted (some (peer 5) ∷ none ∷ some (peer 6) ∷ []) small (omega arith)
