-- ===== src/Core/Server/Stopping.antt =====
-- What stop of src/core/rpc_server.cpp undoes of what start has done.
use my_mprpc.Prelude.{
  ℕ, ◌≡◌, refl, sym, ap, ◌∙◌, subst, Bool, true, false, Option, none, some, List, [], ◌∷◌, ◌++◌,
  Bytes, codes, if◌then◌else◌, arith, bytes_eq,
}
use my_mprpc.Prelude.Map.{Map, keys}
use my_mprpc.Transport.Connection.{TcpConnection}
use my_mprpc.Registry.Instance.{make_instance, get_id}
use my_mprpc.Serializer.{Serializer, create_serializer}
use my_mprpc.Transport.Server.{
  TcpServer, StartAnswers, FdEvent, opened, closed, make_server, set_connection_callback, start,
  stop, start_listening, start_epoll, give_up,
}
use my_mprpc.Transport.Server.Accepting.{open_after, without, StartOutcome, start-StartOutcome}
use my_mprpc.Core.Registration.{
  RpcServerConfig, Message, register_asked, unregister_asked, heartbeat_sent, register_to_registry,
  unregister_from_registry, assign_host, instance_id_of,
}
use my_mprpc.Core.Server.LifeCycle.{
  RegistryMethods, RpcServer, Effects, Environment, components_of, pool_of, initialize_components,
  register_all, unregister_all, start_registry, started_tcp, start_server, start_tcp, stop_server,
  unregister_services,
}

-- The calls that take back what the registry was asked to register.
abbrev pub taken_back : List Message → List Message
taken_back [] = []
taken_back (register_asked i ∷ messages) =
    unregister_asked i.service_name (get_id i) ∷ taken_back messages
taken_back (unregister_asked name id ∷ messages) = taken_back messages
taken_back (heartbeat_sent name id ∷ messages) = taken_back messages

register_all-assign_host :
    (r : RegistryMethods) (names : List Bytes) (c : RpcServerConfig)
    → (register_all r names (assign_host c)).0 ≡ assign_host c
unfolding register_all register_to_registry assign_host
register_all-assign_host r [] c = refl
register_all-assign_host r (name ∷ names) c = register_all-assign_host r names c

unregister_all-assign_host :
    (r : RegistryMethods) (names : List Bytes) (c : RpcServerConfig)
    → unregister_all r names (assign_host c) ≡ taken_back (register_all r names (assign_host c)).1
unfolding register_all unregister_all register_to_registry unregister_from_registry assign_host
    instance_id_of make_instance get_id
unregister_all-assign_host r [] c = refl
unregister_all-assign_host r (name ∷ names) c =
    ap
      (◌∷◌ (
        unregister_asked name
          (get_id (make_instance name (codes "127.0.0.1") c.port c.service_weight))))
      (unregister_all-assign_host r names c)

same_config :
    (r : RegistryMethods) (name : Bytes) (names : List Bytes) (c : RpcServerConfig)
    → (register_all r (name ∷ names) c).0 ≡ assign_host c
unfolding register_all register_to_registry
same_config r name names c = register_all-assign_host r names c

unregister_all-register_all :
    (r : RegistryMethods) (names : List Bytes) (c : RpcServerConfig)
    → unregister_all r names (register_all r names c).0 ≡ taken_back (register_all r names c).1
unfolding register_all unregister_all assign_host register_to_registry
unregister_all-register_all r [] c = refl
unregister_all-register_all r (name ∷ names) c =
    ap (unregister_all r (name ∷ names)) (same_config r name names c)
    ∙ unregister_all-assign_host r (name ∷ names) c

-- Either way the connections are these.
abbrev Holds : Map ℕ TcpConnection → Bool × TcpServer × List FdEvent → Type 0
Holds cs r = r.1.connections ≡ cs

either :
    (cs : Map ℕ TcpConnection) (b : Bool) (x y : Bool × TcpServer × List FdEvent)
    → Holds cs x
    → Holds cs y
    → Holds cs (if b then x else y)
either cs true x y h g = h
either cs false x y h g = g

start_epoll-connections :
    (fd : ℕ) (k : StartAnswers) (epoll : Option ℕ) (s : TcpServer)
    → Holds s.connections (start_epoll fd k epoll s)
unfolding start_epoll give_up
start_epoll-connections fd k none s = refl
start_epoll-connections fd k (some epoll) s = either s.connections k.added _ _ refl refl

start_listening-connections :
    (k : StartAnswers) (socket : Option ℕ) (s : TcpServer)
    → Holds s.connections (start_listening k socket s)
unfolding start_listening give_up
start_listening-connections k none s = refl
start_listening-connections k (some fd) s =
    either s.connections k.option_set _ _
      (either s.connections k.bound _ _
        (either s.connections k.listening _ _ (start_epoll-connections fd k k.new_epoll s) refl)
        refl)
      refl

start-connections : (k : StartAnswers) (s : TcpServer) → Holds s.connections (start k s)
unfolding start
start-connections k s =
    either s.connections s.running _ _ refl (start_listening-connections k k.new_socket s)

open_after-append :
    (fds : List ℕ) (xs ys : List FdEvent)
    → open_after fds (xs ++ ys) ≡ open_after (open_after fds xs) ys
open_after-append fds [] ys = refl
open_after-append fds (opened fd ∷ xs) ys = open_after-append (fds ++ fd ∷ []) xs ys
open_after-append fds (closed fd ∷ xs) ys = open_after-append (without fd fds) xs ys

both_closed : (fd epoll : ℕ) → without epoll (without fd (fd ∷ epoll ∷ [])) ≡ []
both_closed fd epoll = ground arith

-- A TCP server that was started and has no connections gives its descriptors back.
stop-StartOutcome :
    (tcp : TcpServer) (events : List FdEvent)
    → StartOutcome (true, tcp, events)
    → tcp.connections ≡ []
    → open_after [] (events ++ (stop tcp).1) ≡ []
unfolding stop
stop-StartOutcome tcp events (up, (fd, epoll, listen, poll, left)) none_left =
    let gone : (stop tcp).1 ≡ closed fd ∷ closed epoll ∷ [] = simp (up, listen, poll, none_left) in
    ap (λ k. open_after [] (events ++ k)) gone
    ∙ open_after-append [] events (closed fd ∷ closed epoll ∷ [])
    ∙ ap (λ fds. open_after fds (closed fd ∷ closed epoll ∷ [])) left
    ∙ both_closed fd epoll

-- A TCP server that is stopped: its loop ends, and it has no descriptor and no connection.
abbrev pub IsStopped : TcpServer → Type 0
IsStopped tcp =
    (tcp.running ≡ false)
    × (tcp.listen_sockfd ≡ none)
    × (tcp.epoll_fd ≡ none)
    × (tcp.connections ≡ [])

stop-IsStopped : (tcp : TcpServer) → tcp.running ≡ true → IsStopped (stop tcp).0
unfolding stop
stop-IsStopped tcp up = simp up (refl, refl, refl, refl)

-- The services that the registry was asked to register, in this order.
abbrev pub registered_names : List Message → List Bytes
registered_names [] = []
registered_names (register_asked i ∷ messages) = i.service_name ∷ registered_names messages
registered_names (unregister_asked name id ∷ messages) = registered_names messages
registered_names (heartbeat_sent name id ∷ messages) = registered_names messages

registered_names-register_all :
    (r : RegistryMethods) (names : List Bytes) (c : RpcServerConfig)
    → registered_names (register_all r names c).1 ≡ names
unfolding register_all register_to_registry make_instance
registered_names-register_all r [] c = refl
registered_names-register_all r (name ∷ names) c =
    ap (◌∷◌ name) (registered_names-register_all r names (assign_host c))

-- What a start that returned true has done, and the stop after it.
abbrev pub Undone : RpcServer → Bool × RpcServer × Effects → Type 0
Undone s (b, started, done) =
    let (stopped, undone) = stop_server started in
    (started.running ≡ true)
    × (registered_names done.messages ≡ (if s.config.enable_registry then keys s.services else []))
    × (stopped.running ≡ false)
    × (stopped.heartbeat_running ≡ false)
    × ((tcp : TcpServer) × (stopped.tcp_server ≡ some tcp) × IsStopped tcp)
    × (stopped.connections ≡ [])
    × (open_after [] (done.descriptors ++ undone.descriptors) ≡ [])
    × (undone.messages ≡ taken_back done.messages)

enabled_registry :
    (r : RegistryMethods) (s : RpcServer)
    → s.config.enable_registry ≡ true
    → let (config', asked) = register_all r (keys s.services) s.config in
      start_registry r s
      ≡ (record s { config = config'; registry = some r; heartbeat_running = true }, asked)
unfolding start_registry
enabled_registry r s h = simp h

disabled_registry :
    (r : RegistryMethods) (s : RpcServer)
    → s.config.enable_registry ≡ false
    → start_registry r s ≡ (s, [])
unfolding start_registry
disabled_registry r s h = simp h

names_if :
    (enabled b : Bool) (xs ys : List Bytes)
    → b ≡ enabled
    → xs ≡ (if enabled then ys else [])
    → xs ≡ (if b then ys else [])
names_if enabled b xs ys h e = rw h e

started-Undone :
    (r : RegistryMethods) (s : RpcServer) (tcp : TcpServer) (events : List FdEvent) (enabled : Bool)
    → s.config.enable_registry ≡ enabled
    → s.registry ≡ none
    → tcp.running ≡ true
    → open_after [] (events ++ (stop tcp).1) ≡ []
    → Undone s (started_tcp r (true, tcp, events) s)
unfolding started_tcp stop_server
started-Undone r s tcp events true h n up left =
    let names = keys s.services in
    let run = enabled_registry r (record s { tcp_server = some tcp; running = true }) h in
    subst (λ p. Undone s (true, p.0, record { descriptors = events; messages = p.1 })) (sym run)
      (
        refl,
        names_if true s.config.enable_registry (registered_names (register_all r names s.config).1)
            names h (registered_names-register_all r names s.config),
        refl,
        refl,
        ((stop tcp).0, refl, stop-IsStopped tcp up),
        refl,
        left,
        unregister_all-register_all r names s.config,
      )
started-Undone r s tcp events false h n up left =
    let run = disabled_registry r (record s { tcp_server = some tcp; running = true }) h in
    subst (λ p. Undone s (true, p.0, record { descriptors = events; messages = p.1 })) (sym run)
      (
        refl,
        names_if false s.config.enable_registry [] (keys s.services) h refl,
        refl,
        refl,
        ((stop tcp).0, refl, stop-IsStopped tcp up),
        refl,
        left,
        ap (λ k. unregister_services k (record s { tcp_server = some tcp; running = true })) n,
      )

by_answer :
    (r : RegistryMethods) (s : RpcServer) (answer : Bool × TcpServer × List FdEvent)
    → StartOutcome answer
    → answer.1.connections ≡ []
    → s.registry ≡ none
    → (started_tcp r answer s).0 ≡ true
    → Undone s (started_tcp r answer s)
by_answer r s (true, tcp, events) o c n done =
    started-Undone r s tcp events s.config.enable_registry refl n o.0
      (stop-StartOutcome tcp events o c)
by_answer r s (false, tcp, events) o c n done = unfold started_tcp in absurd (ground (arith, done))

by_serializer :
    (e : Environment) (s : RpcServer) (serializer : Option Serializer)
    → s.registry ≡ none
    → (start_tcp e (components_of serializer e.hardware s)).0 ≡ true
    → Undone s (start_tcp e (components_of serializer e.hardware s))
by_serializer e s none n done = absurd (ground (arith, done))
by_serializer e s (some serializer) n done =
    let tcp = set_connection_callback true make_server in
    let fresh : tcp.running ≡ false = unfold set_connection_callback make_server in refl in
    let empty : tcp.connections ≡ [] = unfold set_connection_callback make_server in refl in
    by_answer e.created_registry (record s { thread_pool = pool_of e.hardware s.config })
      (start e.tcp_answers tcp) (start-StartOutcome e.tcp_answers tcp fresh)
      (start-connections e.tcp_answers tcp ∙ empty) n done

-- A server that does not run and has no registry yet: when start returns true, the server runs and,
-- if the registry is enabled, has asked it once for each of its services to register it, whatever
-- the registry answers. Then stop leaves the server, its heartbeat and its TCP server not running,
-- the latter without descriptors, and no connection; it gives back every descriptor that start has
-- opened, and asks the registry to take back exactly the instances that it was asked to register.
-- The threads of the pool are not stopped.
pub stop_server-start_server :
    (e : Environment) (s : RpcServer)
    → s.running ≡ false
    → s.registry ≡ none
    → (start_server e s).0 ≡ true
    → Undone s (start_server e s)
stop_server-start_server e s idle n done =
    let run : start_server e s
        ≡ start_tcp e (components_of (create_serializer s.config.serializer_type) e.hardware s) =
      unfold start_server initialize_components in simp idle in
    subst (Undone s) (sym run) (
      by_serializer e s (create_serializer s.config.serializer_type) n
        (sym (ap (λ r. r.0) run) ∙ done))
