-- ===== src/Tests/Core.antt =====
-- src/core at concrete inputs, over a format of messages for the tests: each string behind its
-- length.
use my_mprpc.Prelude.{
  ◌≡◌, refl, Bool, true, false, Option, none, some, [], ◌∷◌, ◌++◌, Bytes, codes, length, take, drop,
  take-length-append, drop-length-append, if◌then◌else◌, ◌==◌, bytes_eq,
}
use my_mprpc.Prelude.Result.{ok}
use my_mprpc.Prelude.Int.{pos}
use my_mprpc.Transport.Socket.{RpcRequest}
use my_mprpc.Core.Protocol.{
  RpcRequestProto, RpcResponseProto, MessageClass, MessageLaws, empty_request_proto,
  empty_response_proto, create_request_proto, create_response_proto, serialize_request,
}
use my_mprpc.Core.Server.{
  Service, Services, returned, handle_rpc_request, call_service_method, parse_rpc_request,
}
use my_mprpc.Registry.Instance.{ServiceInstance, get_id}
use my_mprpc.Core.Registration.{
  RpcServerConfig, default_config, register_asked, unregister_asked, register_to_registry,
  unregister_from_registry,
}
use my_mprpc.Core.Registration.Address.{unregister-register_to_registry}
use my_mprpc.Core.Server.Answers.{
  Answered, answer_of, success_response, handle_rpc_request-Answered,
  handle_rpc_request-serialize_request,
}

abbrev field : Bytes → Bytes → Bytes
field s rest = length s ∷ s ++ rest

abbrev write_request : RpcRequestProto → Option Bytes
write_request p = some (p.request_id ∷ field p.service_name (field p.method_name p.request_data))

unfoldable pub split_field : Bytes → Bytes × Bytes
split_field [] = ([], [])
split_field (n ∷ bytes) = (take n bytes, drop n bytes)

abbrev read_request : Bytes → Option RpcRequestProto
read_request [] = none
read_request (n ∷ bytes) =
    let (service, rest) = split_field bytes in
    let (method, request_data) = split_field rest in
    some (record empty_request_proto {
      request_id = n;
      service_name = service;
      method_name = method;
      request_data = request_data;
    })

abbrev write_response : RpcResponseProto → Option Bytes
write_response p = some (
    (if p.success then 1 else 0)
    ∷ p.request_id
    ∷ p.error_code
    ∷ field p.error_message p.response_data)

abbrev read_response : Bytes → Option RpcResponseProto
read_response (s ∷ n ∷ code ∷ bytes) =
    let (message, response_data) = split_field bytes in
    some (record empty_response_proto {
      success = s == 1;
      request_id = n;
      error_code = code;
      error_message = message;
      response_data = response_data;
    })
read_response _ = none

abbrev pub requests : MessageClass RpcRequestProto
requests = record { serialize_to_string = write_request; parse_from_array = read_request }

abbrev pub responses : MessageClass RpcResponseProto
responses = record { serialize_to_string = write_response; parse_from_array = read_response }

split_field-field : (s rest : Bytes) → split_field (field s rest) ≡ (s, rest)
unfolding split_field
split_field-field s rest =
    rw (take-length-append s rest (length s) refl, drop-length-append s rest (length s) refl) refl

-- Only the fields that the program sets.
abbrev IsPlain : RpcRequestProto → Type 0
IsPlain p = (p.client_id ≡ []) × (p.timeout_ms ≡ pos 0) × (p.metadata ≡ [])

pub read-write_request :
    (p : RpcRequestProto)
    → IsPlain p
    → (bytes : Bytes) × (write_request p ≡ some bytes) × (read_request bytes ≡ some p)
read-write_request p (c, t, m) = (
  p.request_id ∷ field p.service_name (field p.method_name p.request_data),
  refl,
  rw
      (
        split_field-field p.service_name (field p.method_name p.request_data),
        split_field-field p.method_name p.request_data,
        c,
        t,
        m,
      )
      refl,
)

abbrev IsPlainResponse : RpcResponseProto → Type 0
IsPlainResponse p = p.metadata ≡ []

pub read-write_success :
    (p : RpcResponseProto) (b : Bool)
    → p.success ≡ b
    → IsPlainResponse p
    → (bytes : Bytes) × (write_response p ≡ some bytes) × (read_response bytes ≡ some p)
read-write_success p true e m = (
  1 ∷ p.request_id ∷ p.error_code ∷ field p.error_message p.response_data,
  rw e refl,
  rw (split_field-field p.error_message p.response_data, m, ← e) refl,
)
read-write_success p false e m = (
  0 ∷ p.request_id ∷ p.error_code ∷ field p.error_message p.response_data,
  rw e refl,
  rw (split_field-field p.error_message p.response_data, m, ← e) refl,
)

unfoldable pub request_laws : MessageLaws requests empty_request_proto
request_laws = record { IsValid = IsPlain; written = read-write_request; written_empty = λ p e. cc }

unfoldable pub response_laws : MessageLaws responses empty_response_proto
response_laws = record {
  IsValid = IsPlainResponse;
  written = λ p v. read-write_success p p.success refl v;
  written_empty = λ p e. cc;
}

-- One service with one method, which gives back its request.
abbrev echo : Service
echo = record {
  name = codes "Echo";
  find_method = λ name.
      if bytes_eq.beq name (codes "Say") then some (λ request. returned (some request)) else none;
}

abbrev pub services : Services
services = (codes "Echo", echo) ∷ []

abbrev call : RpcRequest
call = record {
  request_id = 7;
  service_name = codes "Echo";
  method_name = codes "Say";
  request_data = 1 ∷ 2 ∷ [];
}

handle_rpc_request-Answered_example :
    Answered requests responses response_laws
      (answer_of services (parse_rpc_request requests responses (9 ∷ [])))
      (handle_rpc_request requests responses services (9 ∷ []))
unfolding response_laws create_response_proto
handle_rpc_request-Answered_example =
    handle_rpc_request-Answered requests responses response_laws services (9 ∷ []) refl

handle_rpc_request-serialize_request_example :
    (bytes : Bytes) × (serialize_request requests responses call ≡ ok bytes)
    × Answered requests responses response_laws
        (success_response 7 (1 ∷ 2 ∷ []))
        (handle_rpc_request requests responses services bytes)
unfolding request_laws response_laws create_request_proto create_response_proto call_service_method
handle_rpc_request-serialize_request_example =
    handle_rpc_request-serialize_request requests responses response_laws request_laws services call
      (refl, refl, refl) (λ e. cc) refl

abbrev config : RpcServerConfig
config = record (default_config 4) { host = codes "10.0.0.1" }

unregister-register_to_registry_example :
    let (_, config', asked) = register_to_registry (some (λ s. some true)) (codes "Echo") config in
    (config'.host ≡ codes "127.0.0.1")
    × ((s : ServiceInstance) × (asked ≡ register_asked s ∷ [])
        × (s.host ≡ codes "127.0.0.1")
        × (s.service_name ≡ codes "Echo")
        × ((unregister_from_registry (some (λ name id. some true)) (codes "Echo") config').1
            ≡ unregister_asked (codes "Echo") (get_id s) ∷ []))
unregister-register_to_registry_example =
    unregister-register_to_registry (λ s. some true) (λ name id. some true) (codes "Echo") config
