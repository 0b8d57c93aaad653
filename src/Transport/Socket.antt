-- ===== src/Transport/Socket.antt =====
-- include/transport.h, and the calls of sys/socket.h. What the kernel answers to each call is given
-- as a list, in the order of the calls; a loop that has used up the answers is still waiting.
pub mod Sending
use my_mprpc.Prelude.{
  ℕ, zero, suc, ◌+◌, ◌-◌, ◌≡◌, refl, Bool, true, false, Option, none, some, List, [], ◌∷◌, ◌++◌,
  Bytes, codes, length, take, drop, leb, ltb, ◌==◌, if◌then◌else◌,
}

pub data ConnectionState : Type 0 where
  disconnected connecting connected disconnecting : ConnectionState

abbrev pub is_connected : ConnectionState → Bool
is_connected connected = true
is_connected _ = false

abbrev pub is_disconnected : ConnectionState → Bool
is_disconnected disconnected = true
is_disconnected _ = false

-- RpcRequest and RpcResponse.
pub record RpcRequest : Type 0 where
  pub request_id : ℕ
  pub service_name : Bytes
  pub method_name : Bytes
  pub request_data : Bytes

pub record RpcResponse : Type 0 where
  pub request_id : ℕ
  pub success : Bool
  pub error_message : Bytes
  pub response_data : Bytes

pub make_request : RpcRequest
make_request = record { request_id = 0; service_name = []; method_name = []; request_data = [] }

pub make_response : RpcResponse
make_response = record { request_id = 0; success = false; error_message = []; response_data = [] }

-- What ::send returned: a number of bytes, 0, or -1 with errno EAGAIN or EWOULDBLOCK or another.
pub data SendAnswer : Type 0 where
  sent : ℕ → SendAnswer
  send_again : SendAnswer
  send_failed : ℕ → SendAnswer

-- Why a loop of ::send stopped before the end.
pub data SendError : Type 0 where
  closed_by_peer : SendError
  errno : ℕ → SendError

-- How a loop of ::send stands, with the bytes that it has handed to the kernel.
pub data Sent : Type 0 where
  complete : Bytes → Sent
  stopped : SendError → Bytes → Sent
  waiting : Bytes → Sent

abbrev pub written : Sent → Bytes
written (complete bytes) = bytes
written (stopped e bytes) = bytes
written (waiting bytes) = bytes

-- One more piece in front.
abbrev pub after_piece : Bytes → Sent → Sent
after_piece piece (complete bytes) = complete (piece ++ bytes)
after_piece piece (stopped e bytes) = stopped e (piece ++ bytes)
after_piece piece (waiting bytes) = waiting (piece ++ bytes)

-- `while (total_sent < total_size)`; the argument is what is left to send, and a `sent 0` is the
-- return value 0.
unfoldable pub send_loop : Bytes → List SendAnswer → Sent
send_loop [] answers = complete []
send_loop (b ∷ bytes) [] = waiting []
send_loop (b ∷ bytes) (send_again ∷ answers) = send_loop (b ∷ bytes) answers
send_loop (b ∷ bytes) (send_failed e ∷ answers) = stopped (errno e) []
send_loop (b ∷ bytes) (sent zero ∷ answers) = stopped closed_by_peer []
send_loop (b ∷ bytes) (sent (suc n) ∷ answers) =
    after_piece (take (suc n) (b ∷ bytes)) (send_loop (drop (suc n) (b ∷ bytes)) answers)

send_loop_example :
    send_loop (1 ∷ 2 ∷ 3 ∷ []) (sent 2 ∷ send_again ∷ sent 1 ∷ []) ≡ complete (1 ∷ 2 ∷ 3 ∷ [])
unfolding send_loop
send_loop_example = refl
