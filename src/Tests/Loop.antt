-- ===== src/Tests/Loop.antt =====
-- The loop of src/transport/tcp_server.cpp on two clients and a new connection.
use my_mprpc.Prelude.{
  nat_eq, ℕ, ◌≡◌, refl, true, false, none, some, List, [], ◌∷◌, Bytes, arith, ◌⊎◌, inl, inr,
}
use my_mprpc.Prelude.Result.{ok}
use my_mprpc.Prelude.Map.{find}
use my_mprpc.Buffer.{make_buffer, got, failed}
use my_mprpc.Buffer.Invariant.{contents}
use my_mprpc.Codec.FrameCodec.{encode}
use my_mprpc.ByteOrder.{store, load, swap_bytes}
use my_mprpc.Transport.Connection.{TcpConnection}
use my_mprpc.Transport.Connection.Frames.{next_frame}
use my_mprpc.Transport.Server.{TcpServer}
use my_mprpc.Transport.Server.Loop.{Ready, Waited, ready, interrupted, Served, server_thread_main}
use my_mprpc.Transport.Server.Serving.{IsServing, messages_of}
use my_mprpc.Transport.Server.Serving.Clients.{connects, sends, server_thread_main-Expects}
use my_mprpc.Transport.Server.Reading.{IsKeeping}
use my_mprpc.Tests.Clients.{client, steady, replying}

abbrev server : TcpServer
server = record {
  listen_sockfd = some 3;
  epoll_fd = some 4;
  running = true;
  connections = (96, client) ∷ (97, client) ∷ [];
  connection_callback = true;
  max_connections = 1000;
}

abbrev IsClient : ℕ → Type 0
IsClient address = (address ≡ 96) ⊎ (address ≡ 97)

abbrev with_callback : TcpConnection → TcpConnection
with_callback c = record c {
  callbacks = record { message = true; connection = false; write_complete = false; error = true };
}

abbrev a_read : ℕ → Bytes → Ready
a_read address bytes = record {
  event_data = address;
  flags = record { readable = true; hung_up = false };
  accepted = none;
  read = got bytes;
  held = true;
}

abbrev a_call : Ready
a_call = record {
  event_data = 3;
  flags = record { readable = true; hung_up = false };
  accepted =
      some
        (record { client_sockfd = 7; peer_host = []; peer_port = 80; object = 98; added = true });
  read = failed 11;
  held = true;
}

abbrev half : Bytes
half = 0 ∷ 0 ∷ 0 ∷ 2 ∷ 104 ∷ []

-- The first client sends a frame in two parts, with the start of a next one behind it.
abbrev answers : List Waited
answers =
    ready (a_read 96 half ∷ a_call ∷ [])
    ∷ interrupted
    ∷ ready (a_read 97 (9 ∷ []) ∷ a_read 96 (105 ∷ 0 ∷ 0 ∷ []) ∷ [])
    ∷ []

keeping : IsKeeping replying (λ c. Unit)
keeping = record {
  input = λ m c. refl;
  callbacks = λ m c. refl;
  call = λ m c p. tt;
  read = λ b c p. tt;
}

serving : IsServing IsClient (some 3) server
serving = record {
  running = refl;
  listening = refl;
  steady = λ address k. elim k [
    | inl first ↦ (client, rw first refl, steady)
    | inr second ↦ (client, rw second refl, steady)
  ];
}

server_thread_main-Expects_example :
    (served : Served) × (server_thread_main replying with_callback answers server ≡ ok served)
    × (served.server.running ≡ true)
    × (messages_of 96 served.events ≡ (104 ∷ 105 ∷ []) ∷ [])
    × (c' : TcpConnection) × (find 96 served.server.connections ≡ some c')
    × (contents c'.input_buffer ≡ 0 ∷ 0 ∷ [])
server_thread_main-Expects_example =
    server_thread_main-Expects keeping with_callback IsClient (some 3) answers server 96 client
      ((104 ∷ 105 ∷ []) ∷ []) (0 ∷ 0 ∷ [])
      (
        (
          sends half (inl refl) (λ e. omega (arith, e)) (λ e. omega (arith, e)) refl refl refl
              (omega arith, omega arith),
          (
            connects refl (λ address k. elim k [
              | inl first ↦ (λ e. omega (arith, first, e), λ e. omega (arith, first, e))
              | inr second ↦ (λ e. omega (arith, second, e), λ e. omega (arith, second, e))
            ]),
            tt,
          ),
        ),
        (
          tt,
          (
            (
              sends (9 ∷ []) (inr refl) (λ e. omega (arith, e)) (λ e. omega (arith, e)) refl refl
                  refl (omega arith, omega arith),
              (
                sends (105 ∷ 0 ∷ 0 ∷ []) (inl refl) (λ e. omega (arith, e)) (λ e. omega (arith, e))
                    refl refl refl (omega arith, omega arith),
                tt,
              ),
            ),
            tt,
          ),
        ),
      )
      serving (inl refl) refl
      (
        refl,
        ((omega arith, omega arith), tt),
        unfold next_frame in refl,
        unfold encode store load swap_bytes make_buffer in refl,
      )
