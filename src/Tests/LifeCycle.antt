-- ===== src/Tests/LifeCycle.antt =====
-- start and stop of src/core/rpc_server.cpp at a concrete server.
use my_mprpc.Prelude.{◌≡◌, refl, true, false, some, none, [], ◌∷◌, codes}
use my_mprpc.Prelude.Int.{pos}
use my_mprpc.Serializer.{create_serializer}
use my_mprpc.Transport.Server.{
  StartAnswers, make_server, set_connection_callback, start, start_listening, start_epoll,
}
use my_mprpc.Core.Server.{Service}
use my_mprpc.Core.Registration.{RpcServerConfig}
use my_mprpc.Core.Server.LifeCycle.{
  Environment, RpcServer, start_server, initialize_components, started_tcp,
}
use my_mprpc.Core.Server.Stopping.{Undone, stop_server-start_server}

abbrev answers : StartAnswers
answers = record {
  new_socket = some 3;
  option_set = true;
  bound = true;
  listening = true;
  new_epoll = some 4;
  added = true;
}

abbrev config : RpcServerConfig
config = record {
  host = codes "0.0.0.0";
  port = 8080;
  thread_pool_size = 2;
  max_connections = 1000;
  connection_timeout_ms = pos 30000;
  request_timeout_ms = pos 5000;
  serializer_type = codes "protobuf";
  enable_registry = true;
  registry_type = codes "zookeeper";
  registry_address = codes "localhost:2181";
  service_weight = pos 1;
  heartbeat_interval_ms = pos 10000;
}

abbrev echo : Service
echo = record { name = codes "Echo"; find_method = λ name. none }

abbrev idle : RpcServer
idle = record {
  config = config;
  tcp_server = none;
  thread_pool = none;
  registry = none;
  services = (codes "Echo", echo) ∷ [];
  connections = [];
  running = false;
  heartbeat_running = false;
}

abbrev machine : Environment
machine = record {
  hardware = 4;
  tcp_answers = answers;
  created_registry = record { register = λ i. some true; unregister = λ name id. some true };
}

starts : (start_server machine idle).0 ≡ true
unfolding start_server initialize_components create_serializer started_tcp start start_listening
    start_epoll make_server set_connection_callback
starts = refl

stop_server-start_server_example : Undone idle (start_server machine idle)
stop_server-start_server_example = stop_server-start_server machine idle refl refl starts
