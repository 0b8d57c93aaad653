-- ===== src/Lib.antt =====
-- My-MPRPC, a C++ framework for remote procedure calls: a model of the code that carries a call,
-- and of the load balancers that choose its server.
--
-- The parts of the program and how a call goes through them. The client stub asks the registry for
-- the instances of a service and a load balancer for one of them, connects to it, writes the
-- request as a protobuf message, puts a length prefix of four bytes in front and sends the frame.
-- The server reads into the input buffer of the connection, splits frames off, parses the request,
-- calls the method of the service and sends the response as a frame. The client reads the length
-- prefix and the message, and parses the response.
--
-- Which module models which file:
--   ByteOrder           integers as bytes in memory, htonl and ntohl (a little-endian machine)
--   Codec.FrameCodec    include/frame_codec.h, src/codec/frame_codec.cpp: encode, decode
--   Codec.MessageHandler
--                       include/message_handler.h, src/codec/message_handler.cpp: handleData
--   Buffer              include/buffer.h, src/utils/buffer.cpp: the storage, its two indices and
--                       every method; readFromFd with the result of readv as an argument
--   Transport.Socket    include/transport.h, and the loop of ::send that both ends contain
--   Transport.Connection
--                       include/tcp_connection.h, src/transport/tcp_connection.cpp: send, close,
--                       decodeFrame
--   Transport.Client    include/tcp_client.h, src/transport/tcp_client.cpp: connect, disconnect,
--                       send, receive
--   Transport.Server    include/tcp_server.h, src/transport/tcp_server.cpp: start, stop,
--                       handleNewConnection; Events: handleClientEvent, handleClientRead and
--                       handleClientClose (Stream, Reading, Delivery and Closing: their theorems);
--                       Loop: serverThreadMain (Serving: its theorems)
--   Registry.Instance   ServiceInstance of include/registry.h
--   Registry.Storage    src/registry/zookeeper_registry.cpp: serializeInstance, deserializeInstance
--   Registry.Factory    src/registry/registry_factory.cpp
--   Registry.ZooKeeper  src/registry/zookeeper_registry.cpp: the registry over the ZooKeeper client
--                       (Discovery: its theorems; Watching: the watchers and subscriptions)
--   Serializer          include/serializer.h, src/serializer: Protobuf, Json, the factory and the
--                       manager (Json, RoundTrip and Table)
--   ThreadPool          include/thread_pool.h, src/utils/thread_pool.cpp, as steps of its threads
--   LoadBalancer        include/load_balancer.h, src/load_balancer: RoundRobin, Weighted,
--                       LeastConnection, ConsistentHash, Interface (the virtual functions) and
--                       Factory; Healthy holds the checks that each select begins with
--   Core.Protocol       include/rpc_protocol_helper.h, src/utils/rpc_protocol_helper.cpp, over the
--                       messages of proto/rpc_protocol.proto
--   Core.Server         src/core/rpc_server.cpp: handleRpcRequest and what it calls
--   Core.Registration   src/core/rpc_server.cpp: registerToRegistry, unregisterFromRegistry and a
--                       round of heartbeatLoop
--   Core.Server.LifeCycle
--                       src/core/rpc_server.cpp: start, stop, the connections, the table of
--                       services; Core.Server.Stopping: what stop undoes of start
--   Core.Client         include/rpc_client.h, src/core/rpc_client.cpp: the client and its connection;
--                       Core.Client.Method: callMethod
--   Calculator          service/calculator_service.cpp
--   Prelude             shared types and lemmas; Tests holds the theorems at concrete inputs
-- A method keeps its name in snake_case. Its state is a record with the fields of the class; a
-- method that changes it returns the new record. An output parameter is a component of the result,
-- an exception a value (Result, or Call in the client). A std::string is a list of bytes, like a
-- std::vector<uint8_t>; a map is an association list; a file descriptor of -1 is `none`. Log
-- output is left out. A mutex makes each method that holds it one step.
--
-- Integers: size_t, uint32_t and int wrap around where the source computes with them (size_add,
-- `% 2 ^ 32`, int32). The reads of a big-endian machine are not modelled.
--
-- Fuel: the loop of handleData runs on one round more than the buffer has bytes, and the loop of
-- handleClientRead on one more than the connection has readable bytes, which is enough since each
-- round takes at least the four bytes of a prefix. The loops of ::send and recv run on what the
-- kernel answers, which is a list; a loop that has used it up is waiting;
-- likewise the loop of serverThreadMain and the list of what epoll_wait returns.
--
-- What is a parameter: the answers of the kernel, the clock, the services of a server, the callbacks
-- of a connection and what they make of it, doubles, and the classes that protobuf generates. Of these classes Core.Protocol.MessageLaws states what
-- protobuf documents; Tests.Core has concrete classes with these laws. The serializers use the
-- operations of a message, with the OperationLaws of Serializer. The registry is, in the client and
-- the server, what its methods return; Registry.ZooKeeper is a registry, over a ZooKeeper client
-- with the laws of ZooKeeperLaws, which Tests.ZooKeeperServer shows of a concrete one.
--
-- What is not modelled: the thread of the ZooKeeper registry that sets a watch every 100 ms; the
-- event thread of the client, which no code starts; the sleeping of the heartbeat thread; the
-- demos, the tests and the generated code.
mod Prelude
pub mod ByteOrder
pub mod Codec
pub mod Buffer
pub mod Transport
pub mod Registry
pub mod LoadBalancer
pub mod ThreadPool
pub mod Serializer
pub mod Core
pub mod Calculator
mod Tests
