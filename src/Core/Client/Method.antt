-- ===== src/Core/Client/Method.antt =====
-- callMethod and sendRpcRequest of src/core/rpc_client.cpp: the call over a connection, and its
-- result.
use my_mprpc.Prelude.{ℕ, Bool, true, false, Option, none, some, List, [], Bytes, codes, ◌++◌}
use my_mprpc.Prelude.Result.{Result, ok, err}
use my_mprpc.Codec.FrameCodec.{encode}
use my_mprpc.Registry.Instance.{ServiceInstance}
use my_mprpc.Transport.Socket.{RpcRequest, RpcResponse}
use my_mprpc.Transport.Client as Tcp
use my_mprpc.Core.Protocol.{
  RpcRequestProto, RpcResponseProto, MessageClass, serialize_request, parse_response,
}
use my_mprpc.Core.Client.{RpcClient, Kernel, Call, returned, threw, blocked, prepare, finish_call}

-- What SerializeToString wrote: on a failure, the empty string.
unfoldable pub request_bytes : Option Bytes → Bytes
request_bytes none = []
request_bytes (some bytes) = bytes

unfoldable pub parsed_message : Result Bytes RpcResponse → Call RpcResponse
parsed_message (ok response) = returned response
parsed_message (err what) = threw (codes "Rpc_Client.cpp::Failed to parse response: " ++ what)

module _ (requests : MessageClass RpcRequestProto) (responses : MessageClass RpcResponseProto) where
  unfoldable pub received_message :
      (Option Bool × Bytes × Tcp.TcpClient) × List Tcp.Arrival → Call RpcResponse × Tcp.TcpClient
  unfolding parse_response parsed_message
  received_message ((none, bytes, tcp), left) = (blocked, tcp)
  received_message ((some false, bytes, tcp), left) =
      (threw (codes "Failed to receive response from server"), tcp)
  received_message ((some true, bytes, tcp), left) =
      (parsed_message (parse_response requests responses bytes), tcp)

  unfoldable pub sent_message :
      List Tcp.Arrival → Option Bool × Tcp.TcpClient × Bytes → Call RpcResponse × Tcp.TcpClient
  unfolding received_message
  sent_message arrivals (none, tcp, out) = (blocked, tcp)
  sent_message arrivals (some false, tcp, out) =
      (threw (codes "Rpc_Client.cpp::Failed to send request"), tcp)
  sent_message arrivals (some true, tcp, out) = received_message (Tcp.receive [] arrivals tcp)

  unfoldable pub exchange :
      Kernel → Result Bytes Bytes → Tcp.TcpClient → Call RpcResponse × Tcp.TcpClient
  unfolding sent_message encode
  exchange k (err what) tcp =
      (threw (codes "Rpc_Client.cpp::Failed to serialize request: " ++ what), tcp)
  exchange k (ok request_data) tcp =
      sent_message k.arrivals (Tcp.send (encode request_data) k.sends tcp)

  unfoldable pub send_over :
      Kernel → RpcRequest → Option Tcp.TcpClient → RpcClient → Call RpcResponse × RpcClient
  unfolding exchange serialize_request
  send_over k request none c = (threw (codes "Rpc_Client.cpp::Client not initialized"), c)
  send_over k request (some tcp) c =
      let (response, tcp') = exchange k (serialize_request requests responses request) tcp in
      (response, record c { tcp_client = some tcp' })

  unfoldable pub send_rpc_request : Kernel → RpcRequest → RpcClient → Call RpcResponse × RpcClient
  unfolding send_over
  send_rpc_request k request c = send_over k request c.tcp_client c

  -- callMethod behind sendRpcRequest: a failure of the server or of ParseFromArray is logged, and
  -- the result is then set to true. The second component is what ParseFromArray made of the data.
  unfoldable pub call_result :
      {M : Type 0}
      → (Bytes → Option M)
      → Call RpcResponse × RpcClient
      → Call (Bool × Option M) × RpcClient
  unfolding finish_call
  call_result parse_message (returned response, c) =
      (returned (true, parse_message response.response_data), finish_call c)
  call_result parse_message (threw what, c) = (returned (false, none), c)
  call_result parse_message (blocked, c) = (blocked, c)

  unfoldable pub call_prepared :
      {M : Type 0}
      → ℕ
      → Kernel
      → Bytes
      → Option Bytes
      → (Bytes → Option M)
      → Result Bytes Bool × RpcClient
      → Call (Bool × Option M) × RpcClient
  unfolding call_result send_rpc_request request_bytes
  call_prepared clock k method_name request parse_message (err what, c) = (threw what, c)
  call_prepared clock k method_name request parse_message (ok false, c) =
      (returned (false, none), c)
  call_prepared clock k method_name request parse_message (ok true, c) = call_result parse_message (
      send_rpc_request k
        (record {
          request_id = clock;
          service_name = c.service_name;
          method_name = method_name;
          request_data = request_bytes request;
        })
        c)

  unfoldable pub call_method :
      {M : Type 0}
      → Option (Bytes → List ServiceInstance)
      → ℕ
      → Kernel
      → Bytes
      → Option Bytes
      → (Bytes → Option M)
      → RpcClient
      → Call (Bool × Option M) × RpcClient
  unfolding call_prepared prepare
  call_method discover clock k method_name request parse_message c =
      call_prepared clock k method_name request parse_message (prepare discover k c)
