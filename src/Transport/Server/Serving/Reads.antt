-- ===== src/Transport/Server/Serving/Reads.antt =====
-- A read in the loop of src/transport/tcp_server.cpp, seen from its client and from the others.
use my_mprpc.Prelude.{
  ℕ, ◌≡◌, ◌≢◌, refl, ap, ◌∙◌, subst, true, false, some, List, [], ◌++◌, arith, Bytes, map, ◌==◌,
  nat_eq, if◌then◌else◌, Bool-cases, inl, inr,
}
use my_mprpc.Prelude.Result.{ok}
use my_mprpc.Prelude.Map.{find, has, find-put}
use my_mprpc.Buffer.Invariant.{contents}
use my_mprpc.Transport.Connection.{TcpConnection}
use my_mprpc.Transport.Server.{TcpServer}
use my_mprpc.Transport.Server.Events.{handle_client_read, handle_client_event, Handled}
use my_mprpc.Transport.Server.Stream.{Split}
use my_mprpc.Transport.Server.Reading.{IsSteady}
use my_mprpc.Transport.Server.Loop.{Ready, client_event, put_back, serve_client}
use my_mprpc.Transport.Server.Serving.{called_other, Advances, none_came, read-Advances}
use my_mprpc.Transport.Server.Reading.{called_with}

pub equal_test : (x y : ℕ) → x ≡ y → (x == y) ≡ true
equal_test x y h = ground arith

pub unequal_test : (x y : ℕ) → x ≢ y → (x == y) ≡ false
unequal_test x y h = ground arith

-- An event with EPOLLIN only is a read.
pub serve_client_read :
    (on_message : Bytes → TcpConnection → TcpConnection) (e : Ready) (c : TcpConnection)
    (s : TcpServer) (h : Handled)
    → e.event_data ≢ 0
    → e.flags.readable ≡ true
    → e.flags.hung_up ≡ false
    → handle_client_read on_message e.read e.event_data e.held c s ≡ ok h
    → serve_client on_message e (some c) s
      ≡ ok (record {
        server = put_back e.event_data h.connection h.server;
        events = map (client_event e.event_data) h.events;
      })
unfolding serve_client handle_client_event
serve_client_read on_message e c s h real up quiet run =
    rw (unequal_test e.event_data 0 real, up, quiet, run) refl

find-put_back :
    (object address : ℕ) (c c' : TcpConnection) (s : TcpServer)
    → find object s.connections ≡ some c
    → find address (put_back object c' s).connections
      ≡ (if object == address then some c' else find address s.connections)
find-put_back object address c c' s f =
    let there : has object s.connections ≡ true = rw (has, f) refl in
    rw there (find-put object address c' s.connections)

pub put_back-listen_sockfd :
    (object : ℕ) (c : TcpConnection) (s : TcpServer)
    → ((put_back object c s).running ≡ s.running)
      × ((put_back object c s).listen_sockfd ≡ s.listen_sockfd)
put_back-listen_sockfd object c s = elim (Bool-cases (has object s.connections)) [
  | inl there ↦ rw there (refl, refl)
  | inr absent ↦ rw absent (refl, refl)
]

-- A client after a read from it or from another.
pub put_back-Advances :
    (object address : ℕ) (c c' d : TcpConnection) (bytes : Bytes) (ms : List Bytes) (s : TcpServer)
    → find object s.connections ≡ some c
    → find address s.connections ≡ some c'
    → d.callbacks ≡ c.callbacks
    → Split (contents c.input_buffer ++ bytes) ms (contents d.input_buffer)
    → (x : TcpConnection) × (find address (put_back object d s).connections ≡ some x)
      × Advances address c' x
          (if object == address then bytes else [])
          (map (client_event object) (called_with c ms))
put_back-Advances object address c c' d bytes ms s f f' calls split =
    let found = find-put_back object address c d s f in
    elim (Bool-cases (object == address)) [
      | inl own ↦
          let same : object ≡ address = ground arith in
          let equal : c ≡ c' = cc (f, f', ap (λ a. find a s.connections) same) in
          (
            d,
            found ∙ rw own refl,
            rw own (
                subst (λ a. Advances a c' d bytes (map (client_event object) (called_with c ms)))
                  same
                  (subst
                    (λ x. Advances object x d bytes (map (client_event object) (called_with c ms)))
                    equal (read-Advances object c d bytes ms calls split))),
          )
      | inr other ↦ (
        c',
        found ∙ rw other f',
        rw other (
            none_came address c' (map (client_event object) (called_with c ms))
              (called_other address object c ms other)),
      )
    ]

pub put_back-IsSteady :
    (object address : ℕ) (c c' d : TcpConnection) (s : TcpServer)
    → find object s.connections ≡ some c
    → find address s.connections ≡ some c'
    → IsSteady c'.input_buffer
    → IsSteady d.input_buffer
    → (x : TcpConnection) × (find address (put_back object d s).connections ≡ some x)
      × IsSteady x.input_buffer
put_back-IsSteady object address c c' d s f f' steady steady' =
    let found = find-put_back object address c d s f in
    elim (Bool-cases (object == address)) [
      | inl own ↦ (d, found ∙ rw own refl, steady')
      | inr other ↦ (c', found ∙ rw other f', steady)
    ]
