-- ===== src/Core/Server/LifeCycle.antt =====
-- How RpcServer of src/core/rpc_server.cpp starts, stops, and follows its connections. Its TCP
-- server is that of Transport.Server, of its thread pool only the size is kept, and a registry is
-- what its methods return.
use my_mprpc.Prelude.{
  ℕ, Bool, true, false, ◌&&◌, Option, none, some, List, [], ◌∷◌, ◌++◌, Bytes, length, if◌then◌else◌,
  bytes_eq, nat_eq,
}
use my_mprpc.Prelude.Map.{Map, put, erase, keys}
use my_mprpc.Registry.Instance.{ServiceInstance}
use my_mprpc.Serializer.{Serializer, create_serializer}
use my_mprpc.ThreadPool.{thread_count_of}
use my_mprpc.Transport.Connection.{TcpConnection}
use my_mprpc.Transport.Connection as Connection
use my_mprpc.Transport.Server.{
  TcpServer, StartAnswers, FdEvent, make_server, set_connection_callback,
}
use my_mprpc.Transport.Server as Tcp
use my_mprpc.Core.Server.{Services, Service, register_service, unregister_service}
use my_mprpc.Core.Registration.{
  RpcServerConfig, Message, register_to_registry, unregister_from_registry,
}

-- A registry: what registerService and unregisterService return, or that they throw.
pub record RegistryMethods : Type 0 where
  pub register : ServiceInstance → Option Bool
  pub unregister : Bytes → Bytes → Option Bool

pub record RpcServer : Type 0 where
  pub config : RpcServerConfig
  pub tcp_server : Option TcpServer
  -- the number of threads of the pool
  pub thread_pool : Option ℕ
  pub registry : Option RegistryMethods
  pub services : Services
  -- the address of the connection object, and the remote address
  pub connections : Map ℕ Bytes
  pub running : Bool
  pub heartbeat_running : Bool

pub make_rpc_server : RpcServerConfig → RpcServer
make_rpc_server config = record {
  config = config;
  tcp_server = none;
  thread_pool = none;
  registry = none;
  services = [];
  connections = [];
  running = false;
  heartbeat_running = false;
}

-- What a call does to descriptors and tells the registry.
pub record Effects : Type 0 where
  pub descriptors : List FdEvent
  pub messages : List Message

abbrev pub no_effects : Effects
no_effects = record { descriptors = []; messages = [] }

-- std::thread::hardware_concurrency, the system calls of the TCP server, and the registry that the
-- factory creates.
pub record Environment : Type 0 where
  pub hardware : ℕ
  pub tcp_answers : StartAnswers
  pub created_registry : RegistryMethods

abbrev pub pool_of : ℕ → RpcServerConfig → Option ℕ
pool_of hardware config = some (thread_count_of config.thread_pool_size hardware)

abbrev pub components_of : Option Serializer → ℕ → RpcServer → Bool × RpcServer
components_of none hardware s = (false, s)
components_of (some serializer) hardware s =
    (true, record s { thread_pool = pool_of hardware s.config })

unfoldable pub initialize_components : ℕ → RpcServer → Bool × RpcServer
initialize_components hardware s =
    components_of (create_serializer s.config.serializer_type) hardware s

-- registerToRegistry for one service after the other.
unfoldable pub register_all :
    RegistryMethods → List Bytes → RpcServerConfig → RpcServerConfig × List Message
unfolding register_to_registry
register_all registry [] config = (config, [])
register_all registry (name ∷ names) config =
    let (_, config', asked) = register_to_registry (some registry.register) name config in
    let (config'', later) = register_all registry names config' in (config'', asked ++ later)

unfoldable pub unregister_all : RegistryMethods → List Bytes → RpcServerConfig → List Message
unfolding unregister_from_registry
unregister_all registry [] config = []
unregister_all registry (name ∷ names) config =
    (unregister_from_registry (some registry.unregister) name config).1
    ++ unregister_all registry names config

-- initializeRegistry, the registrations, and the start of the heartbeat thread.
unfoldable pub start_registry : RegistryMethods → RpcServer → RpcServer × List Message
unfolding register_all
start_registry created s =
    if s.config.enable_registry
    then (let (config', asked) = register_all created (keys s.services) s.config in
        (record s { config = config'; registry = some created; heartbeat_running = true }, asked))
    else (s, [])

-- What start does with the answer of the TCP server.
unfoldable pub started_tcp :
    RegistryMethods → Bool × TcpServer × List FdEvent → RpcServer → Bool × RpcServer × Effects
unfolding start_registry
started_tcp created (false, tcp, events) s =
    (false, record s { tcp_server = some tcp }, record { descriptors = events; messages = [] })
started_tcp created (true, tcp, events) s =
    let (s', asked) = start_registry created (record s { tcp_server = some tcp; running = true }) in
    (true, s', record { descriptors = events; messages = asked })

abbrev pub start_tcp : Environment → Bool × RpcServer → Bool × RpcServer × Effects
start_tcp e (false, s) = (false, s, no_effects)
start_tcp e (true, s) =
    started_tcp e.created_registry
      (Tcp.start e.tcp_answers (set_connection_callback true make_server)) s

-- The new TCP server takes the place of the one before, which a server that does not run has
-- stopped or has not started.
unfoldable pub start_server : Environment → RpcServer → Bool × RpcServer × Effects
unfolding initialize_components started_tcp
start_server e s =
    if s.running then (true, s, no_effects) else start_tcp e (initialize_components e.hardware s)

abbrev pub unregister_services : Option RegistryMethods → RpcServer → List Message
unregister_services none s = []
unregister_services (some registry) s = unregister_all registry (keys s.services) s.config

abbrev pub stop_tcp : Option TcpServer → Option TcpServer × List FdEvent
stop_tcp none = (none, [])
stop_tcp (some tcp) = let (tcp', events) = Tcp.stop tcp in (some tcp', events)

unfoldable pub stop_server : RpcServer → RpcServer × Effects
unfolding unregister_all
stop_server s =
    if s.running
    then (let (tcp, events) = stop_tcp s.tcp_server in
        (
          record s {
            running = false;
            heartbeat_running = false;
            tcp_server = tcp;
            connections = [];
          },
          record { descriptors = events; messages = unregister_services s.registry s },
        ))
    else (s, no_effects)

-- The connection, at this address, gets the callbacks for messages and errors.
unfoldable pub handle_new_connection : ℕ → TcpConnection → RpcServer → TcpConnection × RpcServer
handle_new_connection address connection s = (
  Connection.set_error_callback true (Connection.set_message_callback true connection),
  record s { connections = put address connection.peer_addr s.connections },
)

unfoldable pub handle_connection_closed : ℕ → RpcServer → RpcServer
handle_connection_closed address s = record s { connections = erase address s.connections }

pub handle_error : ℕ → RpcServer → RpcServer
unfolding handle_connection_closed
handle_error address s = handle_connection_closed address s

pub get_connection_count : RpcServer → ℕ
get_connection_count s = length s.connections

abbrev pub or_zero : Option ℕ → ℕ
or_zero none = 0
or_zero (some n) = n

pub get_thread_pool_size : RpcServer → ℕ
get_thread_pool_size s = or_zero s.thread_pool

pub set_registry : Option RegistryMethods → RpcServer → RpcServer
set_registry registry s = record s { registry = registry }

-- registerService: a null service is `none`.
abbrev pub tell_registry :
    Bool → Option RegistryMethods → Bytes → RpcServer → RpcServer × List Message
tell_registry true (some registry) name s =
    let (_, config', asked) = register_to_registry (some registry.register) name s.config in
    (record s { config = config' }, asked)
tell_registry true none name s = (s, [])
tell_registry false registry name s = (s, [])

unfoldable pub add_service : Option Service → RpcServer → Bool × RpcServer × List Message
unfolding register_service
add_service none s = (false, s, [])
add_service (some service) s =
    let s' : RpcServer = record s { services = register_service service s.services } in
    let (s'', asked) =
      tell_registry (s.running && s.config.enable_registry) s.registry service.name s' in
    (true, s'', asked)

abbrev pub untell_registry : Bool → Option RegistryMethods → Bytes → RpcServer → List Message
untell_registry true (some registry) name s =
    (unregister_from_registry (some registry.unregister) name s.config).1
untell_registry true none name s = []
untell_registry false registry name s = []

unfoldable pub remove_service : Bytes → RpcServer → Bool × RpcServer × List Message
unfolding unregister_service
remove_service name s =
    let asked = untell_registry s.config.enable_registry s.registry name s in
    let (found, services') = unregister_service name s.services in
    (found, record s { services = services' }, asked)

-- Where a message is handled: by a task of the pool, or in the thread of the TCP server.
pub data Handling : Type 0 where
  submitted handled_here : ℕ → Bytes → Handling

pub handle_message : ℕ → Bytes → RpcServer → Handling
handle_message address request s = elim s.thread_pool [
  | some threads ↦ submitted address request
  | none ↦ handled_here address request
]
