-- ===== src/Tests/Calls.antt =====
-- A call of src/core/rpc_client.cpp at a concrete input, with the services of Tests.Core.
use my_mprpc.Prelude.{
  ◌≡◌, refl, true, false, none, some, [], ◌∷◌, ◌++◌, Bytes, codes, arith, drop, List,
}
use my_mprpc.ByteOrder.{store, load, swap_bytes}
use my_mprpc.Codec.FrameCodec.{encode, host_to_network32}
use my_mprpc.Transport.Socket.{connected, sent, send_loop, RpcResponse}
use my_mprpc.Transport.Client as Tcp
use my_mprpc.Core.Protocol.{
  create_request_proto, create_response_proto, serialize_request, serialize_response, parse_request,
}
use my_mprpc.Core.Server.{
  handle_rpc_request, try_request, call_service_method, run_method, send_response,
  serialize_rpc_response, parse_rpc_request, error_response,
}
use my_mprpc.Core.Client.{
  RpcClient, Kernel, returned, make_direct, select_service_instance, select_among, select_with,
  reach,
}
use my_mprpc.Registry.Instance.{ServiceInstance, make_instance, get_id}
use my_mprpc.Core.Client.Method.{call_method}
use my_mprpc.Core.Client.Counting.{IsCounting, counted_after, call_method-IsCounting}
use my_mprpc.LoadBalancer.LeastConnection as LC
use my_mprpc.LoadBalancer.Interface as Balancer
use my_mprpc.Prelude.Decimal.{to_string}
use my_mprpc.LoadBalancer.Healthy.{checked, healthy}
use my_mprpc.LoadBalancer.Interface.{least_connection}
use my_mprpc.Prelude.Int.{pos}
use my_mprpc.Core.Client.Results.{call_method-handle_rpc_request, call_method-error_response}
use my_mprpc.Tests.Core.{requests, responses, request_laws, response_laws, services, split_field}

abbrev tcp : Tcp.TcpClient
tcp = record {
  sockfd = some 4;
  epoll_fd = none;
  running = false;
  server_addr = [];
  state = connected;
  message_callback = false;
  connection_callback = false;
  error_callback = false;
}

abbrev stub : RpcClient
stub = record (make_direct (codes "Echo") (codes "10.0.0.1") 8080) {
  tcp_client = some tcp;
  connected = true;
}

abbrev sent_bytes : Bytes
sent_bytes = 7 ∷ 4 ∷ codes "Echo" ++ 3 ∷ codes "Say" ++ 1 ∷ 2 ∷ []

abbrev frame : Bytes
frame = 0 ∷ 0 ∷ 0 ∷ 6 ∷ 1 ∷ 7 ∷ 0 ∷ 0 ∷ 1 ∷ 2 ∷ []

abbrev kernel : Kernel
kernel = record {
  connects = record {
    new_socket = none;
    non_blocking = true;
    valid_address = true;
    answer = Tcp.connect_done;
  };
  sends = sent 10 ∷ sent 6 ∷ [];
  arrivals =
      Tcp.arrived 0 (0 ∷ 0 ∷ 6 ∷ 1 ∷ [])
      ∷ Tcp.nothing_yet
      ∷ Tcp.arrived 7 (0 ∷ 0 ∷ 1 ∷ 2 ∷ 9 ∷ [])
      ∷ [];
}

call_method-handle_rpc_request_example :
    (call_method requests responses none 7 kernel
      (codes "Say")
      (some (1 ∷ 2 ∷ []))
      (λ bytes. some bytes)
      stub).0
    ≡ returned (true, some (1 ∷ 2 ∷ []))
unfolding request_laws response_laws create_request_proto create_response_proto make_direct
    call_service_method run_method serialize_request serialize_response Tcp.send Tcp.handle_write
    Tcp.finish_write send_loop encode host_to_network32 store load swap_bytes handle_rpc_request
    try_request send_response serialize_rpc_response parse_rpc_request parse_request split_field
call_method-handle_rpc_request_example =
    call_method-handle_rpc_request requests responses request_laws response_laws services none 7
      kernel (codes "Say") (1 ∷ 2 ∷ []) (λ bytes. some bytes) stub tcp sent_bytes frame (9 ∷ [])
      (1 ∷ 2 ∷ []) refl refl refl refl (λ e. cc) (refl, refl, refl) refl refl refl refl refl
      (omega arith) tt (omega arith) refl

-- The server does not know the service: success is false, the error code 8, the message "!".
abbrev failing : Kernel
failing = record kernel { arrivals = Tcp.arrived 0 (0 ∷ 0 ∷ 5 ∷ 0 ∷ 7 ∷ 8 ∷ 1 ∷ 33 ∷ []) ∷ [] }

abbrev failure : RpcResponse
failure = record { request_id = 7; success = false; error_message = 33 ∷ []; response_data = [] }

-- The service has no method X.
abbrev error_frame : Bytes
error_frame = 0 ∷ 0 ∷ 0 ∷ 23 ∷ 0 ∷ 0 ∷ 8 ∷ 19 ∷ codes "Method not found: X"

abbrev refusing : Kernel
refusing = record kernel {
  sends = sent 10 ∷ sent 4 ∷ [];
  arrivals = Tcp.nothing_yet ∷ Tcp.arrived 0 (drop 1 error_frame) ∷ [];
}

call_method-error_response_example :
    (call_method requests responses none 7 refusing
      (codes "X")
      (some (1 ∷ 2 ∷ []))
      (λ bytes. some bytes)
      stub).0
    ≡ returned (true, some [])
unfolding request_laws response_laws create_request_proto create_response_proto make_direct
    call_service_method run_method serialize_request serialize_response Tcp.send Tcp.handle_write
    Tcp.finish_write send_loop encode host_to_network32 store load swap_bytes handle_rpc_request
    try_request send_response serialize_rpc_response parse_rpc_request parse_request split_field
    error_response
call_method-error_response_example =
    call_method-error_response requests responses request_laws response_laws services none 7
      refusing (codes "X") (1 ∷ 2 ∷ []) (λ bytes. some bytes) stub tcp
      (7 ∷ 4 ∷ codes "Echo" ++ 1 ∷ codes "X" ++ 1 ∷ 2 ∷ []) error_frame []
      (codes "Method not found: X") refl refl refl refl (λ e. cc) (refl, refl, refl) refl refl refl
      refl refl (omega arith) tt (omega arith) refl

counting : LC.LeastConnection
counting = record { connection_counts = (codes "a:1", pos 2) ∷ [] }

abbrev discovering : RpcClient
discovering = record stub {
  use_service_discovery = true;
  load_balancer = some (least_connection counting);
  current_instance_id = codes "a:1";
}

abbrev found_instance : ServiceInstance
found_instance = make_instance (codes "Echo") (codes "a") 1 (pos 1)

abbrev the_registry : Bytes → List ServiceInstance
the_registry name = found_instance ∷ []

call_method-IsCounting_example :
    let (r, c') =
      call_method requests responses
        (some the_registry)
        7
        failing
        (codes "Say")
        none
        (λ bytes. some bytes)
        discovering in
    IsCounting (get_id found_instance) (counted_after requests responses 2 r) c'
unfolding counting LC.count select_service_instance select_among select_with Balancer.select
    LC.select LC.choose LC.least LC.init_counts LC.init_count checked healthy reach get_id
    make_instance make_direct to_string
call_method-IsCounting_example =
    call_method-IsCounting requests responses (some the_registry) 2 7 failing (codes "Say") none
      (λ bytes. some bytes) found_instance discovering discovering discovering refl refl refl
      (record {
        balancer = counting;
        discovers = refl;
        balances = refl;
        current = refl;
        counts = refl;
      })
      (omega arith)
