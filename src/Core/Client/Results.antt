-- ===== src/Core/Client/Results.antt =====
-- What callMethod returns.
use my_mprpc.Prelude.{
  ℕ, ◌≤◌, ◌≡◌, ◌≢◌, refl, sym, ap, ◌∙◌, subst, true, false, Option, some, List, [], ◌∷◌, ◌++◌,
  Bytes, length, arith,
}
use my_mprpc.Prelude.Result.{Result, ok, err}
use my_mprpc.Codec.FrameCodec.{encode}
use my_mprpc.Codec.FrameCodec.RoundTrip.{length-encode_ge}
use my_mprpc.Registry.Instance.{ServiceInstance}
use my_mprpc.Transport.Socket.{RpcRequest, RpcResponse, is_connected}
use my_mprpc.Transport.Client as Tcp
use my_mprpc.Transport.Client.Receiving.{receive-encode, IsFlowing, waits, stream}
use my_mprpc.Core.Protocol.{
  RpcRequestProto, RpcResponseProto, MessageClass, MessageLaws, empty_request_proto,
  empty_response_proto, create_request_proto, create_response_proto, serialize_request,
  parse_response,
}
use my_mprpc.Core.Server.{Services, handle_rpc_request, call_service_method, error_response}
use my_mprpc.Core.Server.Answers.{
  success_response, answer_of, response_of, handle_rpc_request-serialize_request,
}
use my_mprpc.Core.Protocol.Messages.{received}
use my_mprpc.Core.Client.{RpcClient, Kernel, returned, connect, prepare}
use my_mprpc.Core.Client.Method.{
  call_method, call_prepared, call_result, send_rpc_request, send_over, exchange, sent_message,
  received_message, parsed_message, request_bytes,
}

ok_injective : {a b : Bytes} → (let r : Result Bytes Bytes = ok a in r) ≡ ok b → a ≡ b
ok_injective {a} {b} e = cc

-- The request that callMethod makes.
abbrev pub request_of : RpcClient → ℕ → Bytes → Bytes → RpcRequest
request_of c clock method_name request_data = record {
  request_id = clock;
  service_name = c.service_name;
  method_name = method_name;
  request_data = request_data;
}

module _ (requests : MessageClass RpcRequestProto) (responses : MessageClass RpcResponseProto) where
  prepare_lem :
      (discover : Option (Bytes → List ServiceInstance)) (k : Kernel) (c : RpcClient)
      → c.use_service_discovery ≡ false
      → c.connected ≡ true
      → prepare discover k c ≡ (ok true, c)
  unfolding prepare connect
  prepare_lem discover k c direct on = simp (direct, on) refl

  call_method-returned :
      {M : Type 0} (discover : Option (Bytes → List ServiceInstance)) (clock : ℕ) (k : Kernel)
      (method_name message : Bytes) (parse_message : Bytes → Option M) (c c' : RpcClient)
      (response : RpcResponse)
      → c.use_service_discovery ≡ false
      → c.connected ≡ true
      → send_rpc_request requests responses k (request_of c clock method_name message) c
        ≡ (returned response, c')
      → (call_method requests responses discover clock k method_name
          (some message)
          parse_message
          c).0
        ≡ returned (true, parse_message response.response_data)
  unfolding call_method call_prepared call_result request_bytes
  call_method-returned discover clock k method_name message parse_message c c' response direct on
        sent =
      ap
        (λ p.
          (call_prepared requests responses clock k method_name (some message) parse_message p).0)
        (prepare_lem discover k c direct on)
      ∙ ap (λ r. (call_result requests responses parse_message r).0) sent

  received_message_lem :
      (arrivals left : List Tcp.Arrival) (tcp : Tcp.TcpClient) (body : Bytes)
      (response : RpcResponse)
      → Tcp.receive [] arrivals tcp ≡ ((some true, body, tcp), left)
      → parse_response requests responses body ≡ ok response
      → (received_message requests responses (Tcp.receive [] arrivals tcp)).0 ≡ returned response
  unfolding received_message parsed_message
  received_message_lem arrivals left tcp body response e p = rw e (ap parsed_message p)

  exchange_lem :
      (k : Kernel) (tcp : Tcp.TcpClient) (bytes out body rest : Bytes) (response : RpcResponse)
      → is_connected tcp.state ≡ true
      → Tcp.send (encode bytes) k.sends tcp ≡ (some true, tcp, out)
      → body ≢ []
      → length body ≤ Tcp.max_message_size
      → IsFlowing k.arrivals
      → waits k.arrivals ≤ Tcp.max_retries
      → stream k.arrivals ≡ encode body ++ rest
      → parse_response requests responses body ≡ ok response
      → (exchange requests responses k (ok bytes) tcp).0 ≡ returned response
  unfolding exchange sent_message
  exchange_lem k tcp bytes out [] rest response on sent h _ f w e p = absurd (h refl)
  exchange_lem k tcp bytes out (b ∷ body) rest response on sent h small f w e p =
      let (left, run, _) =
        receive-encode (b ∷ body) [] rest k.arrivals tcp on (omega arith) small f w e in
      rw sent (received_message_lem k.arrivals left tcp (b ∷ body) response run p)

  send_rpc_request_lem :
      (k : Kernel) (request : RpcRequest) (c : RpcClient) (tcp : Tcp.TcpClient) (bytes : Bytes)
      (response : RpcResponse)
      → c.tcp_client ≡ some tcp
      → serialize_request requests responses request ≡ ok bytes
      → (exchange requests responses k (ok bytes) tcp).0 ≡ returned response
      → (c' : RpcClient) × (send_rpc_request requests responses k request c
          ≡ (returned response, c'))
  unfolding send_rpc_request send_over
  send_rpc_request_lem k request c tcp bytes response has written done =
      let c' = record c { tcp_client = some (exchange requests responses k (ok bytes) tcp).1 } in
      (
        c',
        ap (λ t. send_over requests responses k request t c) has
            ∙ ap
                (λ b. (
                  (exchange requests responses k b tcp).0,
                  record c { tcp_client = some (exchange requests responses k b tcp).1 },
                ))
                written
            ∙ ap (λ r. (r, c')) done,
      )

  -- A call to the server and back, whether the method succeeds or the server reports an error.
  call_method-response_of :
      {M : Type 0} (request_laws : MessageLaws requests empty_request_proto)
      (laws : MessageLaws responses empty_response_proto) (services : Services)
      (discover : Option (Bytes → List ServiceInstance)) (clock : ℕ) (k : Kernel)
      (method_name message : Bytes) (parse_message : Bytes → Option M) (c : RpcClient)
      (tcp : Tcp.TcpClient) (bytes frame rest : Bytes) (called : Result Bytes Bytes)
      → c.use_service_discovery ≡ false
      → c.connected ≡ true
      → c.tcp_client ≡ some tcp
      → is_connected tcp.state ≡ true
      → c.service_name ≢ []
      → request_laws.IsValid (create_request_proto (request_of c clock method_name message))
      → call_service_method services c.service_name method_name message ≡ called
      → laws.IsValid (create_response_proto (response_of clock called))
      → serialize_request requests responses (request_of c clock method_name message) ≡ ok bytes
      → Tcp.send (encode bytes) k.sends tcp ≡ (some true, tcp, encode bytes)
      → handle_rpc_request requests responses services bytes ≡ ok frame
      → length frame ≤ Tcp.max_message_size
      → IsFlowing k.arrivals
      → waits k.arrivals ≤ Tcp.max_retries
      → stream k.arrivals ≡ frame ++ rest
      → (call_method requests responses discover clock k method_name
          (some message)
          parse_message
          c).0
        ≡ returned (true, parse_message (response_of clock called).response_data)
  call_method-response_of request_laws laws services discover clock k method_name message
        parse_message c tcp bytes frame rest called direct on has on_tcp named v was w written sent
        handled small flowing patient back =
      let r = request_of c clock method_name message in
      let answer : response_of clock called ≡ answer_of services (ok r) =
        ap (response_of clock) (sym was) in
      let (bytes', written', (body, handled', nonempty, read)) =
        handle_rpc_request-serialize_request requests responses laws request_laws services r v named
          (subst (λ a. laws.IsValid (create_response_proto a)) answer w) in
      let same : bytes' ≡ bytes = ok_injective (sym written' ∙ written) in
      let framed : frame ≡ encode body = ok_injective (
        sym handled
        ∙ subst (λ b. handle_rpc_request requests responses services b ≡ ok (encode body)) same
            handled') in
      let response = received requests responses (response_of clock called) in
      let read' : parse_response requests responses body ≡ ok response =
        subst (λ a. parse_response requests responses body ≡ ok (received requests responses a))
          (sym answer) read in
      let (c', done) = send_rpc_request_lem k r c tcp bytes response has written (
        exchange_lem k tcp bytes (encode bytes) body rest response on_tcp sent nonempty
          (omega (arith, small, ap length framed, length-encode_ge body)) flowing patient
          (back ∙ ap (λ f. f ++ rest) framed) read') in
      call_method-returned discover clock k method_name message parse_message c c' response direct
        on done

  -- A call from the client's callMethod to the method on the server and back, of a client without
  -- service discovery whose service has a name. Over a connection that stands, when the kernel takes the request and the frame that the server makes of it comes
  -- back, in whatever pieces, callMethod returns true and what ParseFromArray makes of the result
  -- of the method. The frame has at most 10 MB, at most 5000 calls of recv find nothing, and
  -- request and response are messages that protobuf takes.
  pub call_method-handle_rpc_request :
      {M : Type 0} (request_laws : MessageLaws requests empty_request_proto)
      (laws : MessageLaws responses empty_response_proto) (services : Services)
      (discover : Option (Bytes → List ServiceInstance)) (clock : ℕ) (k : Kernel)
      (method_name message : Bytes) (parse_message : Bytes → Option M) (c : RpcClient)
      (tcp : Tcp.TcpClient) (bytes frame rest result : Bytes)
      → c.use_service_discovery ≡ false
      → c.connected ≡ true
      → c.tcp_client ≡ some tcp
      → is_connected tcp.state ≡ true
      → c.service_name ≢ []
      → request_laws.IsValid (create_request_proto (request_of c clock method_name message))
      → call_service_method services c.service_name method_name message ≡ ok result
      → laws.IsValid (create_response_proto (success_response clock result))
      → serialize_request requests responses (request_of c clock method_name message) ≡ ok bytes
      → Tcp.send (encode bytes) k.sends tcp ≡ (some true, tcp, encode bytes)
      → handle_rpc_request requests responses services bytes ≡ ok frame
      → length frame ≤ Tcp.max_message_size
      → IsFlowing k.arrivals
      → waits k.arrivals ≤ Tcp.max_retries
      → stream k.arrivals ≡ frame ++ rest
      → (call_method requests responses discover clock k method_name
          (some message)
          parse_message
          c).0
        ≡ returned (true, parse_message result)
  call_method-handle_rpc_request request_laws laws services discover clock k method_name message
        parse_message c tcp bytes frame rest result =
      call_method-response_of request_laws laws services discover clock k method_name message
        parse_message c tcp bytes frame rest (ok result)

  -- The same for a call that fails on the server: the service or the method is not known, the
  -- request is not parsed, or the method throws. callMethod returns true all the same, and gives
  -- ParseFromArray no bytes: its caller cannot tell the error from an empty answer.
  pub call_method-error_response :
      {M : Type 0} (request_laws : MessageLaws requests empty_request_proto)
      (laws : MessageLaws responses empty_response_proto) (services : Services)
      (discover : Option (Bytes → List ServiceInstance)) (clock : ℕ) (k : Kernel)
      (method_name message : Bytes) (parse_message : Bytes → Option M) (c : RpcClient)
      (tcp : Tcp.TcpClient) (bytes frame rest what : Bytes)
      → c.use_service_discovery ≡ false
      → c.connected ≡ true
      → c.tcp_client ≡ some tcp
      → is_connected tcp.state ≡ true
      → c.service_name ≢ []
      → request_laws.IsValid (create_request_proto (request_of c clock method_name message))
      → call_service_method services c.service_name method_name message ≡ err what
      → laws.IsValid (create_response_proto (error_response 0 what))
      → serialize_request requests responses (request_of c clock method_name message) ≡ ok bytes
      → Tcp.send (encode bytes) k.sends tcp ≡ (some true, tcp, encode bytes)
      → handle_rpc_request requests responses services bytes ≡ ok frame
      → length frame ≤ Tcp.max_message_size
      → IsFlowing k.arrivals
      → waits k.arrivals ≤ Tcp.max_retries
      → stream k.arrivals ≡ frame ++ rest
      → (call_method requests responses discover clock k method_name
          (some message)
          parse_message
          c).0
        ≡ returned (true, parse_message [])
  unfolding error_response
  call_method-error_response request_laws laws services discover clock k method_name message
        parse_message c tcp bytes frame rest what =
      call_method-response_of request_laws laws services discover clock k method_name message
        parse_message c tcp bytes frame rest (err what)
