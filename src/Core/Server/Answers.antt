-- ===== src/Core/Server/Answers.antt =====
-- What the server answers.
use my_mprpc.Prelude.{ℕ, ◌≡◌, ◌≢◌, refl, true, [], Bytes}
use my_mprpc.Prelude.Result.{Result, ok, err, ◌>>=◌}
use my_mprpc.Codec.FrameCodec.{encode}
use my_mprpc.Transport.Socket.{RpcRequest, RpcResponse}
use my_mprpc.Core.Protocol.{
  RpcRequestProto, RpcResponseProto, MessageClass, MessageLaws, empty_request_proto,
  empty_response_proto, create_request_proto, create_response_proto, serialize_request,
  parse_response,
}
use my_mprpc.Core.Protocol.Messages.{
  received, parse_request-serialize_request, parse_response-serialize_response,
}
use my_mprpc.Core.Server.{
  Services, call_service_method, catch, error_response, parse_rpc_request, serialize_rpc_response,
  send_response, try_request, handle_rpc_request,
}

abbrev pub success_response : ℕ → Bytes → RpcResponse
success_response request_id response_data = record {
  request_id = request_id;
  success = true;
  error_message = [];
  response_data = response_data;
}

-- The response to a request: that of the method under the id of the request, or the error under
-- the id 0.
abbrev pub response_of : ℕ → Result Bytes Bytes → RpcResponse
response_of request_id (ok response_data) = success_response request_id response_data
response_of request_id (err what) = error_response 0 what

abbrev pub answer_of : Services → Result Bytes RpcRequest → RpcResponse
answer_of services (ok r) =
    response_of r.request_id
      (call_service_method services r.service_name r.method_name r.request_data)
answer_of services (err what) = error_response 0 what

module _ (requests : MessageClass RpcRequestProto) (responses : MessageClass RpcResponseProto)
    (laws : MessageLaws responses empty_response_proto) where
  -- One frame, and the other side reads the response from it.
  abbrev pub Answered : RpcResponse → Result Bytes Bytes → Type 0
  Answered response sent =
      (body : Bytes) × (sent ≡ ok (encode body))
      × (body ≢ [])
      × (parse_response requests responses body ≡ ok (received requests responses response))

  send_response-Answered :
      (response : RpcResponse)
      → laws.IsValid (create_response_proto response)
      → Answered response (send_response requests responses response)
  unfolding send_response serialize_rpc_response
  send_response-Answered response v =
      let (body, e, nonempty, p) =
        parse_response-serialize_response requests responses laws response v in
      (body, rw e refl, nonempty, p)

  catch-Answered :
      (services : Services) (request_id : ℕ) (called : Result Bytes Bytes)
      → laws.IsValid (create_response_proto (response_of request_id called))
      → Answered (response_of request_id called) (
          catch
            (called >>= (λ response_data.
              send_response requests responses (success_response request_id response_data)))
            (λ what. send_response requests responses (error_response 0 what)))
  catch-Answered services request_id (ok response_data) v =
      let (body, e, nonempty, read) =
        send_response-Answered (success_response request_id response_data) v in
      (body, rw e refl, nonempty, read)
  catch-Answered services request_id (err what) v = send_response-Answered (error_response 0 what) v

  handle-Answered :
      (services : Services) (request_data : Bytes) (parsed : Result Bytes RpcRequest)
      → parse_rpc_request requests responses request_data ≡ parsed
      → laws.IsValid (create_response_proto (answer_of services parsed))
      → Answered
          (answer_of services parsed)
          (handle_rpc_request requests responses services request_data)
  unfolding handle_rpc_request try_request
  handle-Answered services request_data (ok r) e v = rw e (
      catch-Answered services r.request_id
        (call_service_method services r.service_name r.method_name r.request_data) v)
  handle-Answered services request_data (err what) e v =
      rw e (send_response-Answered (error_response 0 what) v)

  -- Whatever bytes come in, the server sends one frame and throws nothing; the client reads from it
  -- the result of the method, or the error of the step that failed. The response is one that
  -- protobuf takes.
  pub handle_rpc_request-Answered :
      (services : Services) (request_data : Bytes)
      → let answer = answer_of services (parse_rpc_request requests responses request_data) in
        laws.IsValid (create_response_proto answer)
        → Answered answer (handle_rpc_request requests responses services request_data)
  handle_rpc_request-Answered services request_data v =
      handle-Answered services request_data (parse_rpc_request requests responses request_data) refl
        v

  -- A call from end to end: the bytes that the client makes of a request are answered with one
  -- frame, from which the client reads the response to that very request.
  pub handle_rpc_request-serialize_request :
      (request_laws : MessageLaws requests empty_request_proto) (services : Services)
      (r : RpcRequest)
      → request_laws.IsValid (create_request_proto r)
      → r.service_name ≢ []
      → laws.IsValid (create_response_proto (answer_of services (ok r)))
      → (bytes : Bytes) × (serialize_request requests responses r ≡ ok bytes)
        × Answered
            (answer_of services (ok r))
            (handle_rpc_request requests responses services bytes)
  unfolding parse_rpc_request
  handle_rpc_request-serialize_request request_laws services r v h w =
      let (bytes, written, _, read) =
        parse_request-serialize_request requests responses request_laws r v h in
      (bytes, written, handle-Answered services bytes (ok r) (rw read refl) w)
