-- ===== src/Tests/Transport.antt =====
-- src/transport at concrete inputs.
use my_mprpc.Prelude.{◌≡◌, refl, true, false, some, [], ◌∷◌, List, arith}
use my_mprpc.Buffer.{Buffer}
use my_mprpc.Buffer.Invariant.{IsValid, contents}
use my_mprpc.Transport.Socket.{
  connected, SendAnswer, sent, send_again, send_failed, errno, send_loop,
}
use my_mprpc.Transport.Connection.{TcpConnection, send, close, decode_buffer}
use my_mprpc.Transport.Connection.Frames.{Follows, next_frame, decode_buffer-Follows}
use my_mprpc.Transport.Connection.Sending.{
  SendOutcome, send-SendOutcome, send-total, close-send_stopped,
}

abbrev input : Buffer
input = record {
  buffer = 0 ∷ 0 ∷ 0 ∷ 0 ∷ 0 ∷ 0 ∷ 0 ∷ 0 ∷ 0 ∷ 0 ∷ 0 ∷ 1 ∷ 42 ∷ 7 ∷ [];
  reader_index = 8;
  writer_index = 14;
}

abbrev peer : TcpConnection
peer = record {
  sockfd = some 5;
  peer_addr = [];
  state = connected;
  input_buffer = input;
  output_buffer = input;
  callbacks = record { message = true; connection = false; write_complete = true; error = true };
}

input-IsValid : IsValid input
input-IsValid = omega arith

decode_buffer-Follows_example :
    Follows [] input (next_frame (contents input)) (decode_buffer [] input)
decode_buffer-Follows_example = decode_buffer-Follows [] input-IsValid

abbrev slow : List SendAnswer
slow = sent 2 ∷ send_again ∷ sent 1 ∷ sent 1 ∷ []

send-SendOutcome_example : SendOutcome (1 ∷ 2 ∷ 3 ∷ []) peer (send (1 ∷ 2 ∷ 3 ∷ []) slow peer)
send-SendOutcome_example = send-SendOutcome (1 ∷ 2 ∷ 3 ∷ []) slow peer

send-total_example : (send (1 ∷ 2 ∷ 3 ∷ []) slow peer).0 ≡ some true
send-total_example = send-total (1 ∷ 2 ∷ 3 ∷ []) slow peer refl tt (omega arith)

close-send_stopped_example :
    let c' = (send (1 ∷ 2 ∷ []) (sent 1 ∷ send_failed 32 ∷ []) peer).1 in
    (close c' ≡ (c', [])) × (c'.sockfd ≡ some 5)
unfolding send_loop
close-send_stopped_example =
    close-send_stopped (1 ∷ 2 ∷ []) (1 ∷ []) (sent 1 ∷ send_failed 32 ∷ []) peer (errno 32) refl
      refl
