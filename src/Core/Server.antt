-- ===== src/Core/Server.antt =====
-- How RpcServer of include/rpc_serser.h and src/core/rpc_server.cpp answers a request. The services
-- are code that protobuf generates around the user's methods, and a parameter; what an exception
-- says is a list of bytes.
pub mod Answers
pub mod LifeCycle
pub mod Stopping
use my_mprpc.Prelude.{
  ℕ, ◌+◌, ◌≡◌, refl, Bool, true, false, Option, none, some, List, [], ◌∷◌, ◌++◌, Bytes, codes,
  if◌then◌else◌, bytes_eq,
}
use my_mprpc.Prelude.Result.{Result, ok, err, ◌>>=◌}
use my_mprpc.Prelude.Map.{Map, find, put, erase, has, keys}
use my_mprpc.Codec.FrameCodec.{encode}
use my_mprpc.Transport.Socket.{RpcRequest, RpcResponse}
use my_mprpc.Core.Protocol.{
  RpcRequestProto, RpcResponseProto, MessageClass, parse_request, serialize_response, or_throw,
}

-- How a method goes: the request is no message, the method throws, or it fills in the response,
-- which SerializeToString then writes or fails to.
pub data MethodResult : Type 0 where
  unparsed : MethodResult
  threw : Bytes → MethodResult
  returned : Option Bytes → MethodResult

-- google::protobuf::Service: FindMethodByName, and the method on the bytes of its request.
pub record Service : Type 0 where
  pub name : Bytes
  pub find_method : Bytes → Option (Bytes → MethodResult)

abbrev pub Services : Type 0
Services = Map Bytes Service

-- The table of registerService and unregisterService; Core.Registration has what they tell the
-- registry. services_[service_name] = service
unfoldable pub register_service : Service → Services → Services
register_service service services = put service.name service services

pub unregister_service : Bytes → Services → Bool × Services
unregister_service service_name services =
    if has service_name services then (true, erase service_name services) else (false, services)

pub get_registered_service : Services → List Bytes
get_registered_service services = keys services

unfoldable pub run_method : MethodResult → Result Bytes Bytes
run_method unparsed = err (codes "Failed to parse request")
run_method (threw what) = err what
run_method (returned response) = or_throw (codes "Failed to serialize response") response

unfoldable pub call_service_method : Services → Bytes → Bytes → Bytes → Result Bytes Bytes
unfolding run_method
call_service_method services service_name method_name request_data = do
  service ← or_throw (codes "Service not found: " ++ service_name) (find service_name services)
  method ← or_throw (codes "Method not found: " ++ method_name) (service.find_method method_name)
  run_method (method request_data)

abbrev pub catch : {A : Type 0} → Result Bytes A → (Bytes → Result Bytes A) → Result Bytes A
catch (ok a) handler = ok a
catch (err what) handler = handler what

unfoldable pub error_response : ℕ → Bytes → RpcResponse
error_response request_id what = record {
  request_id = request_id;
  success = false;
  error_message = what;
  response_data = [];
}

module _ (requests : MessageClass RpcRequestProto) (responses : MessageClass RpcResponseProto) where
  unfoldable pub parse_rpc_request : Bytes → Result Bytes RpcRequest
  unfolding parse_request
  parse_rpc_request bytes =
      catch (parse_request requests responses bytes)
        (λ what. err (codes "Invalid RPC request format: " ++ what))

  unfoldable pub serialize_rpc_response : RpcResponse → Result Bytes Bytes
  unfolding serialize_response error_response
  serialize_rpc_response response = catch (serialize_response requests responses response) (λ what.
      serialize_response requests responses
        (error_response response.request_id (codes "Serialization error: " ++ what)))

  -- What sendResponse passes to send of the connection, whose result it only logs.
  unfoldable pub send_response : RpcResponse → Result Bytes Bytes
  unfolding serialize_rpc_response encode
  send_response response = do
    response_proto_data ← serialize_rpc_response response
    ok (encode response_proto_data)

  unfoldable pub try_request : Services → Bytes → Result Bytes Bytes
  unfolding parse_rpc_request call_service_method send_response
  try_request services request_data = do
    request ← parse_rpc_request request_data
    response_data ←
        call_service_method services request.service_name request.method_name request.request_data
    send_response (record {
      request_id = request.request_id;
      success = true;
      error_message = [];
      response_data = response_data;
    })

  -- The frame that is sent, or the exception that leaves the function.
  unfoldable pub handle_rpc_request : Services → Bytes → Result Bytes Bytes
  unfolding try_request send_response error_response
  handle_rpc_request services request_data =
      catch (try_request services request_data) (λ what. send_response (error_response 0 what))
