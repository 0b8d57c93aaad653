-- ===== src/Core/Protocol/Messages.antt =====
-- What is written is read back.
use my_mprpc.Prelude.{
  ℕ, ◌≡◌, ◌≢◌, refl, ap, ◌∙◌, Bool, true, false, some, [], ◌∷◌, Bytes, if◌then◌else◌, arith,
}
use my_mprpc.Prelude.Result.{ok}
use my_mprpc.Transport.Socket.{RpcRequest, RpcResponse}
use my_mprpc.Core.Protocol.{
  RpcRequestProto, RpcResponseProto, MessageClass, MessageLaws, empty_request_proto,
  empty_response_proto, create_request_proto, from_request_proto, create_response_proto,
  from_response_proto, serialize_request, parse_request, serialize_response, parse_response,
}

module _ (requests : MessageClass RpcRequestProto) (responses : MessageClass RpcResponseProto) where
  parse_request_lem :
      (bytes : Bytes) (p : RpcRequestProto)
      → bytes ≢ []
      → requests.parse_from_array bytes ≡ some p
      → parse_request requests responses bytes ≡ ok (from_request_proto p)
  unfolding parse_request
  parse_request_lem [] p h e = absurd (h refl)
  parse_request_lem (b ∷ bytes) p h e = rw e refl

  parse_response_lem :
      (bytes : Bytes) (p : RpcResponseProto)
      → bytes ≢ []
      → responses.parse_from_array bytes ≡ some p
      → parse_response requests responses bytes ≡ ok (from_response_proto p)
  unfolding parse_response
  parse_response_lem [] p h e = absurd (h refl)
  parse_response_lem (b ∷ bytes) p h e = rw e refl

  -- A request that names a service and that protobuf takes is written as at least one byte, and
  -- parseRequest reads it back.
  pub parse_request-serialize_request :
      (laws : MessageLaws requests empty_request_proto) (r : RpcRequest)
      → laws.IsValid (create_request_proto r)
      → r.service_name ≢ []
      → (bytes : Bytes) × (serialize_request requests responses r ≡ ok bytes)
        × (bytes ≢ [])
        × (parse_request requests responses bytes ≡ ok r)
  unfolding serialize_request create_request_proto from_request_proto
  parse_request-serialize_request laws r v h =
      let (bytes, e, p) = laws.written (create_request_proto r) v in
      let nonempty : bytes ≢ [] = λ n.
        h (
          ap (λ q. q.service_name) (laws.written_empty (create_request_proto r) (e ∙ ap some n))) in
      (bytes, rw e refl, nonempty, parse_request_lem bytes (create_request_proto r) nonempty p)

  -- The response that the other side reads: a message of an error only with an error.
  abbrev pub received : RpcResponse → RpcResponse
  received r = record r { error_message = if r.success then [] else r.error_message }

  create_response_proto-set : (r : RpcResponse) → create_response_proto r ≢ empty_response_proto
  unfolding create_response_proto
  create_response_proto-set r e =
      set_of_success r.success (ap (λ p. p.success) e) (ap (λ p. p.error_code) e)
    where
      code_of : Bool → ℕ
      code_of b = if b then 0 else 8

      set_of_success : (b : Bool) → b ≡ false → code_of b ≡ 0 → ⊥
      set_of_success true e k = cc
      set_of_success false e k = omega (arith, k)

  pub parse_response-serialize_response :
      (laws : MessageLaws responses empty_response_proto) (r : RpcResponse)
      → laws.IsValid (create_response_proto r)
      → (bytes : Bytes) × (serialize_response requests responses r ≡ ok bytes)
        × (bytes ≢ [])
        × (parse_response requests responses bytes ≡ ok (received r))
  unfolding serialize_response create_response_proto from_response_proto
  parse_response-serialize_response laws r v =
      let (bytes, e, p) = laws.written (create_response_proto r) v in
      let nonempty : bytes ≢ [] = λ n.
        create_response_proto-set r
          (laws.written_empty (create_response_proto r) (e ∙ ap some n)) in
      (bytes, rw e refl, nonempty, parse_response_lem bytes (create_response_proto r) nonempty p)
