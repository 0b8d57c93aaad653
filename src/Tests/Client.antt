-- ===== src/Tests/Client.antt =====
-- src/transport/tcp_client.cpp at concrete inputs.
use my_mprpc.Prelude.{◌≡◌, refl, true, false, some, none, List, [], ◌∷◌, arith}
use my_mprpc.ByteOrder.{store, load, swap_bytes}
use my_mprpc.Codec.FrameCodec.{encode}
use my_mprpc.Transport.Socket.{connected, SendAnswer, sent, send_failed, send_loop}
use my_mprpc.Transport.Client.{
  TcpClient, make_client, connect, send, handle_write, finish_write, receive, ConnectAnswers,
  in_progress, write_set, Arrival, arrived, interrupted, nothing_yet,
}
use my_mprpc.Transport.Client.Connecting.{
  ConnectOutcome, connect-ConnectOutcome, Forgotten, send-Forgotten,
}
use my_mprpc.Transport.Client.Receiving.{receive-encode, stream}

abbrev kernel : ConnectAnswers
kernel = record {
  new_socket = some 4;
  non_blocking = true;
  valid_address = true;
  answer = in_progress (write_set (some 0));
}

connect-ConnectOutcome_example : ConnectOutcome (1 ∷ []) 80 (connect (1 ∷ []) 80 kernel make_client)
unfolding make_client
connect-ConnectOutcome_example = connect-ConnectOutcome (1 ∷ []) 80 kernel make_client refl

abbrev client : TcpClient
client = record {
  sockfd = some 4;
  epoll_fd = none;
  running = false;
  server_addr = [];
  state = connected;
  message_callback = false;
  connection_callback = false;
  error_callback = false;
}

abbrev broken : List SendAnswer
broken = sent 1 ∷ send_failed 32 ∷ []

send-Forgotten_example : Forgotten 4 (send (1 ∷ 2 ∷ []) broken client).1
unfolding send handle_write finish_write send_loop
send-Forgotten_example = send-Forgotten (1 ∷ 2 ∷ []) broken 4 client refl refl refl

-- The frame of 104 105, cut in the header, and a byte behind it.
abbrev arrivals : List Arrival
arrivals =
    arrived 0 (0 ∷ 0 ∷ [])
    ∷ nothing_yet
    ∷ arrived 2 (104 ∷ [])
    ∷ interrupted
    ∷ arrived 105 (9 ∷ [])
    ∷ []

receive-encode_example :
    (after : List Arrival) × (receive [] arrivals client
      ≡ ((some true, 104 ∷ 105 ∷ [], client), after))
    × (stream after ≡ 9 ∷ [])
unfolding encode store load swap_bytes
receive-encode_example =
    receive-encode (104 ∷ 105 ∷ []) [] (9 ∷ []) arrivals client refl (omega arith) (omega arith) tt
      (omega arith) refl
