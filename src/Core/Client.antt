-- ===== src/Core/Client.antt =====
-- RpcClientStubImpl of include/rpc_client.h and src/core/rpc_client.cpp. The registry, the clock,
-- the answers of the kernel and the code that protobuf generates are parameters; what an exception
-- says is a list of bytes. Each use of the mutex is one step.
pub mod Method
pub mod Results
pub mod Counting
use my_mprpc.Prelude.{
  ℕ, ◌≡◌, refl, Bool, true, false, ◌&&◌, ◌||◌, not, Option, none, some, List, [], ◌∷◌, ◌++◌, Bytes,
  codes, if◌then◌else◌, bytes_eq,
}
use my_mprpc.Prelude.Result.{Result, ok, err, ◌>>=◌}
use my_mprpc.Codec.FrameCodec.{encode}
use my_mprpc.Registry.Instance.{ServiceInstance, get_id}
use my_mprpc.LoadBalancer.Interface.{LoadBalancer, select, update_stats, get_name}
use my_mprpc.LoadBalancer.Healthy.{SelectError, healthy, no_available, no_healthy, out_of_range}
use my_mprpc.LoadBalancer.Factory.{create, make_factory, Creation, built, null_pointer, foreign}
use my_mprpc.Transport.Socket.{RpcRequest, RpcResponse, SendAnswer}
use my_mprpc.Transport.Client as Tcp
use my_mprpc.Core.Protocol.{
  RpcRequestProto, RpcResponseProto, MessageClass, serialize_request, parse_response,
}

-- A call that returns, throws, or still waits for the kernel.
pub data Call (A : Type 0) : Type 0 where
  returned : A → Call A
  threw : Bytes → Call A
  blocked : Call A

pub record RpcClient : Type 0 where
  pub service_name : Bytes
  pub host : Bytes
  pub port : ℕ
  pub tcp_client : Option Tcp.TcpClient
  pub connected : Bool
  pub use_service_discovery : Bool
  pub load_balancer : Option LoadBalancer
  pub current_instance_id : Bytes

unfoldable pub make_direct : Bytes → Bytes → ℕ → RpcClient
make_direct service_name host port = record {
  service_name = service_name;
  host = host;
  port = port;
  tcp_client = none;
  connected = false;
  use_service_discovery = false;
  load_balancer = none;
  current_instance_id = [];
}

-- The factory has its built-in creators here, so that the object is of a class of the library.
abbrev pub object_of : Creation → Option LoadBalancer
object_of (built b) = some b
object_of (Creation.threw what) = none
object_of null_pointer = none
object_of (foreign object) = none

-- Without a load balancer the factory is asked for one.
unfoldable pub make_discovering : Bytes → Option LoadBalancer → RpcClient
make_discovering service_name load_balancer = record {
  service_name = service_name;
  host = [];
  port = 0;
  tcp_client = none;
  connected = false;
  use_service_discovery = true;
  load_balancer = elim load_balancer [
    | some b ↦ some b
    | none ↦ object_of (create (codes "RoundRobin") [] make_factory)
  ];
  current_instance_id = [];
}

-- What the kernel answers during a call.
pub record Kernel : Type 0 where
  pub connects : Tcp.ConnectAnswers
  pub sends : List SendAnswer
  pub arrivals : List Tcp.Arrival

-- The new socket is used in either case.
unfoldable pub finish_connect :
    Bool × Tcp.TcpClient × List Tcp.FdEvent → RpcClient → Bool × RpcClient
finish_connect (true, tcp, events) c = (true, record c { tcp_client = some tcp; connected = true })
finish_connect (false, tcp, events) c = (false, record c { tcp_client = some tcp })

unfoldable pub connect : Kernel → RpcClient → Bool × RpcClient
unfolding finish_connect
connect k c =
    if c.connected
    then (true, c)
    else finish_connect (Tcp.connect c.host c.port k.connects Tcp.make_client) c

unfoldable pub disconnect : RpcClient → RpcClient
disconnect c = record c { tcp_client = none; connected = false }

unfoldable pub connect_to_instance : Kernel → ServiceInstance → RpcClient → Bool × RpcClient
unfolding finish_connect
connect_to_instance k instance' c =
    finish_connect (Tcp.connect instance'.host instance'.port k.connects Tcp.make_client)
      (record c { host = instance'.host; port = instance'.port })

-- What select throws.
unfoldable pub select_message : SelectError → Bytes
select_message no_available = codes "No available service instances"
select_message no_healthy = codes "No healthy service instances"
select_message out_of_range = []

unfoldable pub select_with :
    LoadBalancer → List ServiceInstance → RpcClient → Result Bytes ServiceInstance × RpcClient
unfolding select_message
select_with b instances c =
    let (r, b') = select instances b in
    (elim r [ ok s ↦ ok s | err e ↦ err (select_message e) ], record c { load_balancer = some b' })

unfoldable pub first_healthy : List ServiceInstance → RpcClient → Result Bytes ServiceInstance
first_healthy [] c =
    err (codes "Rpc_Client.cpp::No healthy service instances for: " ++ c.service_name)
first_healthy (h ∷ hs) c = ok h

unfoldable pub select_among :
    List ServiceInstance
    → Option LoadBalancer
    → RpcClient
    → Result Bytes ServiceInstance × RpcClient
unfolding select_with first_healthy
select_among [] b c =
    (err (codes "Rpc_Client.cpp::No available service instances for: " ++ c.service_name), c)
select_among (s ∷ instances) (some b) c = select_with b (s ∷ instances) c
select_among (s ∷ instances) none c = (first_healthy (healthy (s ∷ instances)) c, c)

-- The first argument is discoverService of the registry, if there is one.
unfoldable pub select_service_instance :
    Option (Bytes → List ServiceInstance) → RpcClient → Result Bytes ServiceInstance × RpcClient
unfolding select_among
select_service_instance none c = (err (codes "Rpc_Client.cpp::Service registry not initialized"), c)
select_service_instance (some discover) c = select_among (discover c.service_name) c.load_balancer c

unfoldable pub counts_connections : Option LoadBalancer → Bool
unfolding get_name
counts_connections none = false
counts_connections (some b) = bytes_eq.beq (get_name b) (codes "LeastConnection")

-- updateStats of the current instance, if the load balancer counts connections. A call whose load
-- balancer was set to null follows the null pointer in the source; here it counts nothing.
unfoldable pub noted : Bool → Bytes → Option LoadBalancer → Option LoadBalancer
unfolding counts_connections update_stats
noted start id none = none
noted start id (some b) = some (if counts_connections (some b) then update_stats id start b else b)

unfoldable pub note_connection : Bool → RpcClient → RpcClient
unfolding noted
note_connection start c = record c {
  load_balancer = noted start c.current_instance_id c.load_balancer;
}

-- The part of callMethod in front of the call: the instance and the connection. `ok false` is the
-- return with false, and what selectServiceInstance throws leaves callMethod.
unfoldable pub reach : Kernel → ServiceInstance → RpcClient → Bool × RpcClient
unfolding connect_to_instance disconnect get_id
reach k instance' c =
    let id = get_id instance' in
    if not c.connected || not (bytes_eq.beq c.current_instance_id id)
    then (let (connected', c') = connect_to_instance k instance' (disconnect c) in
        (connected', if connected' then record c' { current_instance_id = id } else c'))
    else (true, c)

unfoldable pub start_call : Bool → RpcClient → Bool × RpcClient
unfolding note_connection
start_call false c = (false, c)
start_call true c = (true, note_connection true c)

unfoldable pub prepare_with :
    Kernel → Result Bytes ServiceInstance × RpcClient → Result Bytes Bool × RpcClient
unfolding reach start_call
prepare_with k (err what, c) = (err what, c)
prepare_with k (ok instance', c) =
    let (reached, c') = reach k instance' c in
    let (started, c'') = start_call reached c' in (ok started, c'')

unfoldable pub prepare :
    Option (Bytes → List ServiceInstance) → Kernel → RpcClient → Result Bytes Bool × RpcClient
unfolding prepare_with select_service_instance connect
prepare discover k c =
    if c.use_service_discovery
    then prepare_with k (select_service_instance discover c)
    else (let (connected', c') = connect k c in (ok connected', c'))

unfoldable pub finish_call : RpcClient → RpcClient
unfolding note_connection
finish_call c =
    if c.use_service_discovery && not (bytes_eq.beq c.current_instance_id [])
    then note_connection false c
    else c
