-- ===== src/Core/Protocol.antt =====
-- include/rpc_protocol_helper.h and src/utils/rpc_protocol_helper.cpp, over the messages of
-- proto/rpc_protocol.proto. The code that protobuf generates from that file is a parameter. What an
-- exception says is a list of bytes.
pub mod Messages
use my_mprpc.Prelude.{
  ℕ, ◌+◌, ◌≡◌, refl, Bool, true, false, Option, none, some, List, [], ◌∷◌, Bytes, codes,
  if◌then◌else◌, not, ◌||◌, bytes_eq,
}
use my_mprpc.Prelude.Result.{Result, ok, err, ◌>>=◌}
use my_mprpc.Prelude.Int.{ℤ, pos}
use my_mprpc.Prelude.Map.{Map}
use my_mprpc.Transport.Socket.{RpcRequest, RpcResponse}

pub record RpcRequestProto : Type 0 where
  pub request_id : ℕ
  pub service_name : Bytes
  pub method_name : Bytes
  pub client_id : Bytes
  pub request_data : Bytes
  pub timeout_ms : ℤ
  pub metadata : Map Bytes Bytes

pub record RpcResponseProto : Type 0 where
  pub request_id : ℕ
  pub success : Bool
  pub error_code : ℕ
  pub error_message : Bytes
  pub response_data : Bytes
  pub metadata : Map Bytes Bytes

-- A generated message class: SerializeToString, ParseFromArray.
pub record MessageClass (P : Type 0) : Type 0 where
  pub serialize_to_string : P → Option Bytes
  pub parse_from_array : Bytes → Option P

-- A message without a field that is set.
abbrev pub empty_request_proto : RpcRequestProto
empty_request_proto = record {
  request_id = 0;
  service_name = [];
  method_name = [];
  client_id = [];
  request_data = [];
  timeout_ms = pos 0;
  metadata = [];
}

abbrev pub empty_response_proto : RpcResponseProto
empty_response_proto = record {
  request_id = 0;
  success = false;
  error_code = 0;
  error_message = [];
  response_data = [];
  metadata = [];
}

-- What protobuf documents: a message whose strings are UTF-8 and that is not too long is written,
-- what is written is read back, and only a message without a field that is set is written as
-- nothing.
pub record MessageLaws {P : Type 0} (c : MessageClass P) (empty : P) : Type 1 where
  pub IsValid : P → Type 0
  pub written :
      (p : P)
      → IsValid p
      → (bytes : Bytes) × (c.serialize_to_string p ≡ some bytes)
        × (c.parse_from_array bytes ≡ some p)
  pub written_empty : (p : P) → c.serialize_to_string p ≡ some [] → p ≡ empty

-- RpcErrorCode
abbrev pub success_code : ℕ
success_code = 0

abbrev pub server_error : ℕ
server_error = 8

-- The bytes, or the exception where there are none.
abbrev pub or_throw : {A : Type 0} → Bytes → Option A → Result Bytes A
or_throw what none = err what
or_throw what (some a) = ok a

unfoldable pub create_request_proto : RpcRequest → RpcRequestProto
create_request_proto r = record {
  request_id = r.request_id;
  service_name = r.service_name;
  method_name = r.method_name;
  client_id = [];
  request_data = r.request_data;
  timeout_ms = pos 0;
  metadata = [];
}

unfoldable pub from_request_proto : RpcRequestProto → RpcRequest
from_request_proto p = record {
  request_id = p.request_id;
  service_name = p.service_name;
  method_name = p.method_name;
  request_data = p.request_data;
}

unfoldable pub create_response_proto : RpcResponse → RpcResponseProto
create_response_proto r = record {
  request_id = r.request_id;
  success = r.success;
  error_code = if r.success then success_code else server_error;
  error_message = if r.success then [] else r.error_message;
  response_data = r.response_data;
  metadata = [];
}

unfoldable pub from_response_proto : RpcResponseProto → RpcResponse
from_response_proto p = record {
  request_id = p.request_id;
  success = p.success;
  error_message = p.error_message;
  response_data = p.response_data;
}

module _ (requests : MessageClass RpcRequestProto) (responses : MessageClass RpcResponseProto) where
  unfoldable pub serialize_request : RpcRequest → Result Bytes Bytes
  unfolding create_request_proto
  serialize_request r =
      or_throw (codes "Failed to serialize RpcRequestProto")
        (requests.serialize_to_string (create_request_proto r))

  unfoldable pub parse_request : Bytes → Result Bytes RpcRequest
  unfolding from_request_proto
  parse_request [] = err (codes "Empty data for request parsing")
  parse_request (b ∷ bytes) = do
    proto ←
        or_throw (codes "Failed to parse RpcRequestProto") (requests.parse_from_array (b ∷ bytes))
    ok (from_request_proto proto)

  unfoldable pub serialize_response : RpcResponse → Result Bytes Bytes
  unfolding create_response_proto
  serialize_response r =
      or_throw (codes "Failed to serialize RpcResponseProto")
        (responses.serialize_to_string (create_response_proto r))

  unfoldable pub parse_response : Bytes → Result Bytes RpcResponse
  unfolding from_response_proto
  parse_response [] = err (codes "Empty data for response parsing")
  parse_response (b ∷ bytes) = do
    proto ←
        or_throw (codes "Failed to parse RpcResponseProto") (responses.parse_from_array (b ∷ bytes))
    ok (from_response_proto proto)

  unfoldable pub validate_request_data : Bytes → Bool
  validate_request_data [] = false
  validate_request_data (b ∷ bytes) = elim (requests.parse_from_array (b ∷ bytes)) [
    | none ↦ false
    | some proto ↦ not (bytes_eq.beq proto.service_name [] || bytes_eq.beq proto.method_name [])
  ]

  unfoldable pub validate_response_data : Bytes → Bool
  validate_response_data [] = false
  validate_response_data (b ∷ bytes) = elim (responses.parse_from_array (b ∷ bytes)) [
    | none ↦ false
    | some proto ↦ true
  ]
