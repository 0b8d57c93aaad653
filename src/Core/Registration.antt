-- ===== src/Core/Registration.antt =====
-- What RpcServer of src/core/rpc_server.cpp tells the registry. The registry is a parameter: what
-- its methods return, or that they throw (`none`).
pub mod Address
use my_mprpc.Prelude.{
  ℕ, ◌≡◌, refl, Bool, true, false, Option, none, some, List, [], ◌∷◌, ◌++◌, Bytes, codes,
  if◌then◌else◌, bytes_eq,
}
use my_mprpc.Prelude.Int.{ℤ, pos}
use my_mprpc.Prelude.Decimal.{to_string}
use my_mprpc.Registry.Instance.{ServiceInstance, make_instance}

-- RpcServerConfig
pub record RpcServerConfig : Type 0 where
  pub host : Bytes
  pub port : ℕ
  pub thread_pool_size : ℕ
  pub max_connections : ℕ
  pub connection_timeout_ms : ℤ
  pub request_timeout_ms : ℤ
  pub serializer_type : Bytes
  pub enable_registry : Bool
  pub registry_type : Bytes
  pub registry_address : Bytes
  pub service_weight : ℤ
  pub heartbeat_interval_ms : ℤ

-- The default, on a machine with this many threads.
pub default_config : ℕ → RpcServerConfig
default_config hardware_concurrency = record {
  host = codes "0.0.0.0";
  port = 8080;
  thread_pool_size = hardware_concurrency;
  max_connections = 1000;
  connection_timeout_ms = pos 30000;
  request_timeout_ms = pos 5000;
  serializer_type = codes "protobuf";
  enable_registry = false;
  registry_type = codes "zookeeper";
  registry_address = codes "localhost:2181";
  service_weight = pos 1;
  heartbeat_interval_ms = pos 10000;
}

-- The calls of registerService, unregisterService and sendHeartbeat of the registry, whatever they
-- return or throw.
pub data Message : Type 0 where
  register_asked : ServiceInstance → Message
  unregister_asked heartbeat_sent : Bytes → Bytes → Message

-- What a method of the registry answers: a result, or it throws.
abbrev pub result_of : Option Bool → Bool
result_of none = false
result_of (some b) = b

-- `config_.host = "0.0.0.0" ? "127.0.0.1" : config_.host` assigns the value of the conditional,
-- whose test is a literal and so holds.
unfoldable pub assign_host : RpcServerConfig → RpcServerConfig
assign_host config = record config { host = codes "127.0.0.1" }

-- Without a registry the first argument is `none`. The result, the configuration and what was
-- asked of the registry.
unfoldable pub register_to_registry :
    Option (ServiceInstance → Option Bool)
    → Bytes
    → RpcServerConfig
    → Bool × RpcServerConfig × List Message
unfolding assign_host make_instance
register_to_registry none service_name config = (false, config, [])
register_to_registry (some register) service_name config =
    let config' = assign_host config in
    let instance' = make_instance service_name config'.host config'.port config'.service_weight in
    (result_of (register instance'), config', register_asked instance' ∷ [])

unfoldable pub instance_id_of : RpcServerConfig → Bytes
unfolding to_string
instance_id_of config =
    (if bytes_eq.beq config.host (codes "0.0.0.0") then codes "127.0.0.1" else config.host)
    ++ b':' ∷ to_string config.port

unfoldable pub unregister_from_registry :
    Option (Bytes → Bytes → Option Bool) → Bytes → RpcServerConfig → Bool × List Message
unfolding instance_id_of
unregister_from_registry none service_name config = (false, [])
unregister_from_registry (some unregister) service_name config =
    let id = instance_id_of config in
    (result_of (unregister service_name id), unregister_asked service_name id ∷ [])

-- One round of heartbeatLoop; the results of sendHeartbeat are only logged, and what it throws ends
-- the round.
unfoldable pub heartbeat_round :
    (Bytes → Bytes → Option Bool) → List Bytes → RpcServerConfig → List Message
unfolding instance_id_of
heartbeat_round send_heartbeat [] config = []
heartbeat_round send_heartbeat (service_name ∷ names) config =
    let id = instance_id_of config in
    let rest = heartbeat_round send_heartbeat names config in
    heartbeat_sent service_name id
    ∷ elim (send_heartbeat service_name id) [ none ↦ [] | some b ↦ rest ]
