-- ===== src/Core/Client/Counting.antt =====
-- How callMethod counts its calls for the least connection load balancer.
use my_mprpc.Prelude.{
  ℕ, suc, ◌+◌, ◌<◌, ◌≡◌, ◌≢◌, refl, sym, ap, ◌∙◌, subst, Bool, true, false, Option, none, some,
  List, [], ◌++◌, ◌∷◌, Bytes, bytes_eq, arith, if◌then◌else◌, not, ◌&&◌,
}
use my_mprpc.Prelude.Result.{ok}
use my_mprpc.Prelude.Int.{pos}
use my_mprpc.LoadBalancer.Interface.{least_connection, update_stats, get_name}
use my_mprpc.LoadBalancer.LeastConnection as LC
use my_mprpc.LoadBalancer.LeastConnection.Counts.{update_same, counted}
use my_mprpc.Registry.Instance.{ServiceInstance, get_id}
use my_mprpc.Prelude.Decimal.{to_string}
use my_mprpc.Transport.Socket.{RpcRequest, RpcResponse}
use my_mprpc.Transport.Client as Tcp
use my_mprpc.Core.Protocol.{RpcRequestProto, RpcResponseProto, MessageClass}
use my_mprpc.Core.Client.{
  RpcClient, Kernel, Call, returned, threw, blocked, note_connection, noted, counts_connections,
  finish_call, prepare, prepare_with, start_call, reach, select_service_instance,
}
use my_mprpc.Core.Client.Method.{
  call_method, call_prepared, call_result, send_rpc_request, send_over, request_bytes,
}

-- A client that counts `n` calls on its current instance.
pub record IsCounting (id : Bytes) (n : ℕ) (c : RpcClient) : Type 0 where
  pub balancer : LC.LeastConnection
  pub discovers : c.use_service_discovery ≡ true
  pub balances : c.load_balancer ≡ some (least_connection balancer)
  pub current : c.current_instance_id ≡ id
  pub counts : LC.count id balancer.connection_counts ≡ pos n

noted_lem :
    (start : Bool) (id : Bytes) (b : LC.LeastConnection)
    → noted start id (some (least_connection b))
      ≡ some (least_connection (LC.update_stats id start b))
unfolding noted counts_connections get_name update_stats
noted_lem start id b = refl

note_connection-IsCounting :
    (id : Bytes) (start : Bool) (n : ℕ) (c : RpcClient)
    → n + 1 < 2147483648
    → IsCounting id n c
    → IsCounting id (counted start n) (note_connection start c)
unfolding note_connection
note_connection-IsCounting id start n c small h = record {
  balancer = LC.update_stats id start h.balancer;
  discovers = h.discovers;
  balances =
      ap (λ i. noted start i c.load_balancer) h.current
      ∙ ap (noted start id) h.balances
      ∙ noted_lem start id h.balancer;
  current = h.current;
  counts = update_same id start n h.balancer small h.counts;
}

not_empty : (id : Bytes) → id ≢ [] → bytes_eq.beq id [] ≡ false
not_empty [] h = absurd (h refl)
not_empty (b ∷ id) h = refl

get_id-nonempty : (i : ServiceInstance) → get_id i ≢ []
unfolding get_id
get_id-nonempty i = front i.host (to_string i.port)
  where
    front : (xs ys : Bytes) → (xs ++ b':' ∷ ys) ≢ []
    front [] ys e = cc
    front (x ∷ xs) ys e = cc

finish_call-IsCounting :
    (id : Bytes) (n : ℕ) (c : RpcClient)
    → id ≢ []
    → suc n + 1 < 2147483648
    → IsCounting id (suc n) c
    → IsCounting id n (finish_call c)
unfolding finish_call
finish_call-IsCounting id n c nonempty small h =
    let some_id : bytes_eq.beq c.current_instance_id [] ≡ false =
      ap (λ i. bytes_eq.beq i []) h.current ∙ not_empty id nonempty in
    subst (IsCounting id n)
      (ap (λ p. if p then note_connection false c else c)
        (sym (
          both c.use_service_discovery (bytes_eq.beq c.current_instance_id []) h.discovers
            some_id)))
      (note_connection-IsCounting id false (suc n) c small h)
  where
    both : (a b : Bool) → a ≡ true → b ≡ false → (a && not b) ≡ true
    both a b e f = rw (e, f) refl

module _ (requests : MessageClass RpcRequestProto) (responses : MessageClass RpcResponseProto) where
  send_over-IsCounting :
      (id : Bytes) (n : ℕ) (k : Kernel) (request : RpcRequest) (tcp : Option Tcp.TcpClient)
      (c : RpcClient)
      → IsCounting id n c
      → IsCounting id n (send_over requests responses k request tcp c).1
  unfolding send_over
  send_over-IsCounting id n k request none c h = h
  send_over-IsCounting id n k request (some tcp) c h = record {
    balancer = h.balancer;
    discovers = h.discovers;
    balances = h.balances;
    current = h.current;
    counts = h.counts;
  }

  -- The calls that are counted after a call: one more, unless it has returned true.
  abbrev pub counted_after : {M : Type 0} → ℕ → Call (Bool × Option M) → ℕ
  counted_after n (returned (true, m)) = n
  counted_after n (returned (false, m)) = suc n
  counted_after n (threw what) = suc n
  counted_after n blocked = suc n

  call_result-IsCounting :
      {M : Type 0} (id : Bytes) (n : ℕ) (parse_message : Bytes → Option M) (call : Call RpcResponse)
      (c : RpcClient)
      → id ≢ []
      → suc n + 1 < 2147483648
      → IsCounting id (suc n) c
      → let (r, c') = call_result requests responses parse_message (call, c) in
        IsCounting id (counted_after n r) c'
  unfolding call_result
  call_result-IsCounting id n parse_message (returned response) c nonempty small h =
      finish_call-IsCounting id n c nonempty small h
  call_result-IsCounting id n parse_message (threw what) c nonempty small h = h
  call_result-IsCounting id n parse_message blocked c nonempty small h = h

  call_prepared-IsCounting :
      {M : Type 0} (id : Bytes) (n : ℕ) (clock : ℕ) (k : Kernel) (method_name : Bytes)
      (request : Option Bytes) (parse_message : Bytes → Option M) (c : RpcClient)
      → id ≢ []
      → n + 2 < 2147483648
      → IsCounting id n c
      → let (r, c') =
          call_prepared requests responses clock k method_name request parse_message
            (ok true, note_connection true c) in
        IsCounting id (counted_after n r) c'
  unfolding call_prepared send_rpc_request
  call_prepared-IsCounting id n clock k method_name request parse_message c nonempty small h =
      let c1 = note_connection true c in
      let r : RpcRequest = record {
        request_id = clock;
        service_name = c1.service_name;
        method_name = method_name;
        request_data = request_bytes request;
      } in
      let sent = send_over requests responses k r c1.tcp_client c1 in
      call_result-IsCounting id n parse_message sent.0 sent.1 nonempty (omega arith) (
        send_over-IsCounting id (suc n) k r c1.tcp_client c1
          (note_connection-IsCounting id true n c (omega arith) h))

  prepare_lem :
      (discover : Option (Bytes → List ServiceInstance)) (k : Kernel) (instance' : ServiceInstance)
      (c selected reached : RpcClient)
      → c.use_service_discovery ≡ true
      → select_service_instance discover c ≡ (ok instance', selected)
      → reach k instance' selected ≡ (true, reached)
      → prepare discover k c ≡ (ok true, note_connection true reached)
  unfolding prepare prepare_with start_call
  prepare_lem discover k instance' c selected reached discovers chosen there = simp discovers (
      ap (prepare_with k) chosen
      ∙ ap (λ r. (let (started, c') = start_call r.0 r.1 in (ok started, c'))) there)

  -- The least connection load balancer counts a call of callMethod, with service discovery, on the
  -- instance that was selected and reached, when it starts; when the call returns true the count is
  -- as before the start, and when the request or its response was lost it stays one higher, also
  -- when callMethod has returned false. No count reaches INT_MAX - 1.
  pub call_method-IsCounting :
      {M : Type 0} (discover : Option (Bytes → List ServiceInstance)) (n clock : ℕ) (k : Kernel)
      (method_name : Bytes) (request : Option Bytes) (parse_message : Bytes → Option M)
      (instance' : ServiceInstance) (c selected reached : RpcClient)
      → c.use_service_discovery ≡ true
      → select_service_instance discover c ≡ (ok instance', selected)
      → reach k instance' selected ≡ (true, reached)
      → IsCounting (get_id instance') n reached
      → n + 2 < 2147483648
      → let (r, c') =
          call_method requests responses discover clock k method_name request parse_message c in
        IsCounting (get_id instance') (counted_after n r) c'
  unfolding call_method
  call_method-IsCounting discover n clock k method_name request parse_message instance' c selected
        reached discovers chosen there h small =
      subst
        (λ p.
          let (r, c') =
            call_prepared requests responses clock k method_name request parse_message p in
          IsCounting (get_id instance') (counted_after n r) c')
        (sym (prepare_lem discover k instance' c selected reached discovers chosen there))
        (call_prepared-IsCounting (get_id instance') n clock k method_name request parse_message
          reached (get_id-nonempty instance') small h)
