-- ===== src/Tests/Clients.antt =====
-- The events of a client of src/transport/tcp_server.cpp at concrete inputs.
use my_mprpc.Prelude.{◌≡◌, refl, true, false, some, [], ◌∷◌, Bytes, arith}
use my_mprpc.Prelude.Result.{ok}
use my_mprpc.Buffer.{make_buffer, initial_size, got}
use my_mprpc.Buffer.Invariant.{make_buffer-IsValid}
use my_mprpc.Transport.Connection.{TcpConnection}
use my_mprpc.Transport.Connection.Frames.{next_frame}
use my_mprpc.Transport.Socket.{connected}
use my_mprpc.Transport.Server.{make_server}
use my_mprpc.Transport.Server.Events.{EpollEvent, Handled, handle_client_read, handle_client_event}
use my_mprpc.Transport.Server.Reading.{IsKeeping, IsSteady, Read, handle_client_read-Read}
use my_mprpc.Transport.Server.Closing.{IsStanding, IsClosed, handle_client_event-IsClosed}

abbrev pub client : TcpConnection
client = record {
  sockfd = some 5;
  peer_addr = [];
  state = connected;
  input_buffer = make_buffer initial_size;
  output_buffer = make_buffer initial_size;
  callbacks = record { message = true; connection = false; write_complete = false; error = true };
}

pub steady : IsSteady (make_buffer initial_size)
unfolding make_buffer next_frame
steady = record {
  valid = make_buffer-IsValid initial_size (omega arith);
  small = omega arith;
  stuck = refl;
}

abbrev half : Bytes
half = 0 ∷ 0 ∷ 0 ∷ 2 ∷ 104 ∷ []

-- A message callback that leaves something in the output buffer.
abbrev pub replying : Bytes → TcpConnection → TcpConnection
replying m c = record c { output_buffer = make_buffer initial_size }

keeping : IsKeeping replying (IsStanding 5)
keeping = record {
  input = λ m c. refl;
  callbacks = λ m c. refl;
  call = λ m c p. p;
  read = λ b c p. p;
}

handle_client_read-Read_example :
    Read
      (IsStanding 5)
      client
      make_server
      half
      (handle_client_read replying (got half) 96 true client make_server)
handle_client_read-Read_example =
    handle_client_read-Read keeping client make_server 96 true half (omega arith, omega arith)
      steady (refl, refl)

abbrev hang_up : EpollEvent
hang_up = record { readable = true; hung_up = true }

handle_client_event-IsClosed_example :
    (h : Handled) × (handle_client_event replying hang_up (got []) 96 true client make_server
      ≡ ok h)
    × IsClosed 96 5 h
handle_client_event-IsClosed_example =
    handle_client_event-IsClosed 96 5 keeping client make_server refl refl steady hang_up (got [])
      (omega arith) (omega arith) refl
