-- ===== src/Transport/Server/Serving/Clients.antt =====
-- The loop of src/transport/tcp_server.cpp serves each of its clients.
use my_mprpc.Prelude.{
  ℕ, ◌%◌, ◌^◌, ◌≡◌, ◌≢◌, refl, sym, ap, ◌∙◌, subst, true, false, Option, some, List, [], ◌∷◌, ◌++◌,
  append-nil, Bytes, All, map, ◌==◌, nat_eq, if◌then◌else◌,
}
use my_mprpc.Prelude.Result.{ok}
use my_mprpc.Prelude.Map.{find}
use my_mprpc.Buffer.{ReadOutcome, failed, got}
use my_mprpc.Buffer.Invariant.{contents}
use my_mprpc.Transport.Connection.{TcpConnection}
use my_mprpc.Transport.Server.{TcpServer}
use my_mprpc.Transport.Server.Events.{Handled}
use my_mprpc.Transport.Server.Delivery.{wire_stuck}
use my_mprpc.Transport.Server.Reading.{
  called_with, IsKeeping, IsSteady, IsRead, handle_client_read-Read,
}
use my_mprpc.Transport.Server.Loop.{
  Ready, Waited, interrupted, wait_failed, ready, client_event, Served, is_listening, put_back,
  serve_client, serve_new, serve_event, serve_events, after_wait, server_thread_main, fd_bits,
}
use my_mprpc.Transport.Server.Serving.{
  messages_of, Expects, none_came, IsServing, Goes, nothing-Goes, join-Goes,
}
use my_mprpc.Transport.Server.Serving.NewConnections.{IsFresh, serve_new-Same, serve_new_lem}
use my_mprpc.Transport.Server.Serving.Reads.{
  equal_test, unequal_test, serve_client_read, put_back-listen_sockfd, put_back-Advances,
  put_back-IsSteady,
}

abbrev pub read_bytes : ReadOutcome → Bytes
read_bytes (failed errno) = []
read_bytes (got bytes) = bytes

-- The bytes that these events read from a client.
abbrev pub came_from : ℕ → Ready → Bytes
came_from address e = if e.event_data == address then read_bytes e.read else []

abbrev pub all_came : ℕ → List Ready → Bytes
all_came address [] = []
all_came address (e ∷ es) = came_from address e ++ all_came address es

abbrev pub stream_of : ℕ → List Waited → Bytes
stream_of address [] = []
stream_of address (ready es ∷ answers) = all_came address es ++ stream_of address answers
stream_of address (w ∷ answers) = stream_of address answers

module _ (IsClient : ℕ → Type 0) (listen_fd : Option ℕ) where
  -- A call on the listening socket, which concerns no client; or a read from a client, the low half
  -- of whose address is not the listening descriptor.
  pub data IsServed (e : Ready) : Type 0 where
    connects :
        e.event_data % 2 ^ 32 ≡ fd_bits listen_fd
        → ((address : ℕ) → IsClient address → (e.event_data ≢ address) × IsFresh address e.accepted)
        → IsServed e
    sends :
        (bytes : Bytes)
        → IsClient e.event_data
        → e.event_data ≢ 0
        → e.event_data % 2 ^ 32 ≢ fd_bits listen_fd
        → e.flags.readable ≡ true
        → e.flags.hung_up ≡ false
        → e.read ≡ got bytes
        → IsRead bytes
        → IsServed e

  abbrev pub IsAnswer : Waited → Type 0
  IsAnswer interrupted = Unit
  IsAnswer wait_failed = ⊥
  IsAnswer (ready es) = All IsServed es

module _ {on_message : Bytes → TcpConnection → TcpConnection}
    (keeping : IsKeeping on_message (λ c. Unit)) (callback : TcpConnection → TcpConnection)
    (IsClient : ℕ → Type 0) (listen_fd : Option ℕ) where
  connects-Goes :
      (e : Ready) (s : TcpServer)
      → IsServing IsClient listen_fd s
      → ((address : ℕ) → IsClient address → (e.event_data ≢ address) × IsFresh address e.accepted)
      → Goes IsClient listen_fd s
          (λ address. came_from address e)
          (ok (serve_new callback e.accepted s))
  connects-Goes e s h apart =
      let (r, l) = serve_new_lem callback e.accepted s in
      (
        serve_new callback e.accepted s,
        refl,
        record {
          running = r ∙ h.running;
          listening = l ∙ h.listening;
          steady = λ address k.
              let (c, f, steady) = h.steady address k in
              let (same, told) = serve_new-Same callback e.accepted s address (apart address k).1 in
              (c, same.2 ∙ f, steady);
        },
        λ address c k f.
            let (same, told) = serve_new-Same callback e.accepted s address (apart address k).1 in
            (
              c,
              same.2 ∙ f,
              rw (unequal_test e.event_data address (apart address k).0)
                  (none_came address c (serve_new callback e.accepted s).events told),
            ),
      )

  sends-Goes :
      (e : Ready) (s : TcpServer) (bytes : Bytes)
      → IsServing IsClient listen_fd s
      → IsClient e.event_data
      → e.event_data ≢ 0
      → e.flags.readable ≡ true
      → e.flags.hung_up ≡ false
      → e.read ≡ got bytes
      → IsRead bytes
      → Goes IsClient listen_fd s
          (λ address. came_from address e)
          (serve_client on_message e (find e.event_data s.connections) s)
  sends-Goes e s bytes h k real up quiet read is_read =
      let (c, f, steady) = h.steady e.event_data k in
      let (ms, d, run, calls, _, steady', split) =
        handle_client_read-Read keeping c s e.event_data e.held bytes is_read steady tt in
      let done : Handled = record { connection = d; server = s; events = called_with c ms } in
      let served : Served = record {
        server = put_back e.event_data d s;
        events = map (client_event e.event_data) (called_with c ms);
      } in
      let ran : serve_client on_message e (some c) s ≡ ok served =
        serve_client_read on_message e c s done real up quiet (rw read run) in
      let (r, l) = put_back-listen_sockfd e.event_data d s in
      (
        served,
        ap (λ o. serve_client on_message e o s) f ∙ ran,
        record {
          running = r ∙ h.running;
          listening = l ∙ h.listening;
          steady = λ address k'.
              let (c', f', still) = h.steady address k' in
              put_back-IsSteady e.event_data address c c' d s f f' still steady';
        },
        λ address c' k' f'.
            rw read (put_back-Advances e.event_data address c c' d bytes ms s f f' calls split),
      )

  serve_event-Goes :
      (e : Ready) (s : TcpServer)
      → IsServed IsClient listen_fd e
      → IsServing IsClient listen_fd s
      → Goes IsClient listen_fd s
          (λ address. came_from address e)
          (serve_event on_message callback e s)
  unfolding serve_event
  serve_event-Goes e s (connects call apart) h =
      let yes : is_listening e.event_data s ≡ true =
        equal_test (e.event_data % 2 ^ 32) (fd_bits s.listen_sockfd)
          (call ∙ ap fd_bits (sym h.listening)) in
      rw yes (connects-Goes e s h apart)
  serve_event-Goes e s (sends bytes k real apart up quiet read is_read) h =
      let no : is_listening e.event_data s ≡ false =
        unequal_test (e.event_data % 2 ^ 32) (fd_bits s.listen_sockfd)
          (λ same. apart (same ∙ ap fd_bits h.listening)) in
      rw no (sends-Goes e s bytes h k real up quiet read is_read)

  serve_events-Goes :
      (es : List Ready) (s : TcpServer)
      → All (IsServed IsClient listen_fd) es
      → IsServing IsClient listen_fd s
      → Goes IsClient listen_fd s
          (λ address. all_came address es)
          (serve_events on_message callback es s)
  unfolding serve_events
  serve_events-Goes [] s served h = nothing-Goes IsClient listen_fd s h
  serve_events-Goes (e ∷ es) s (first, served) h =
      join-Goes IsClient listen_fd s (λ address. came_from address e)
        (λ address. all_came address es) (serve_event on_message callback e s)
        (λ s'. serve_events on_message callback es s') (serve_event-Goes e s first h)
        (λ s' h'. serve_events-Goes es s' served h')

  server_thread_main-Goes :
      (answers : List Waited) (s : TcpServer)
      → All (IsAnswer IsClient listen_fd) answers
      → IsServing IsClient listen_fd s
      → Goes IsClient listen_fd s
          (λ address. stream_of address answers)
          (server_thread_main on_message callback answers s)
  unfolding server_thread_main after_wait
  server_thread_main-Goes [] s fine h = nothing-Goes IsClient listen_fd s h
  server_thread_main-Goes (interrupted ∷ answers) s (first, fine) h =
      simp h.running (server_thread_main-Goes answers s fine h)
  server_thread_main-Goes (wait_failed ∷ answers) s (first, fine) h = absurd first
  server_thread_main-Goes (ready es ∷ answers) s (first, fine) h = simp h.running (
      join-Goes IsClient listen_fd s (λ address. all_came address es)
        (λ address. stream_of address answers) (serve_events on_message callback es s)
        (λ s'. server_thread_main on_message callback answers s') (serve_events-Goes es s first h)
        (λ s' h'. server_thread_main-Goes answers s' fine h'))

  -- However the reads from the clients of a running server and the new connections follow each other
  -- in the answers of epoll_wait, the loop throws nothing and goes on; and a client from which the
  -- frames of some messages and the start of a next one come in has exactly these messages handed to
  -- its callback, in their order, and the start of the next one kept. A client is a connection of the
  -- list whose input buffer is between two frames; the low half of its address is not the listening
  -- descriptor, its events are reads of 1 byte to 64 KB, its messages have 1 byte to 10 MB. A new
  -- connection has a new object, and epoll_wait fails only with EINTR. The message callback may send
  -- over the connection and close it, but changes neither its input buffer nor its callbacks.
  pub server_thread_main-Expects :
      (answers : List Waited) (s : TcpServer) (address : ℕ) (c : TcpConnection)
      (messages : List Bytes) (rest : Bytes)
      → All (IsAnswer IsClient listen_fd) answers
      → IsServing IsClient listen_fd s
      → IsClient address
      → find address s.connections ≡ some c
      → Expects c (stream_of address answers) messages rest
      → (served : Served) × (server_thread_main on_message callback answers s ≡ ok served)
        × (served.server.running ≡ true)
        × (messages_of address served.events ≡ messages)
        × (c' : TcpConnection) × (find address served.server.connections ≡ some c')
        × (contents c'.input_buffer ≡ rest)
  server_thread_main-Expects answers s address c messages rest fine h k f x =
      let (served, run, h', moved) = server_thread_main-Goes answers s fine h in
      let (c', f', advances) = moved address c k f in
      let (set, frames, waits, e) = x in
      let (ys, parts, (set', frames', waits', e')) = advances [] messages rest (
        set,
        frames,
        waits,
        ap (λ k'. contents c.input_buffer ++ k') (append-nil (stream_of address answers)) ∙ e,
      ) in
      let (c'', f'', steady) = h'.steady address k in
      let same : c'' ≡ c' = cc (f', f'') in
      let steady' = subst (λ d. IsSteady d.input_buffer) same steady in
      let (none_left, ends) =
        wire_stuck ys (contents c'.input_buffer) rest frames' steady'.stuck
          (sym (append-nil (contents c'.input_buffer)) ∙ e') in
      (
        served,
        run,
        h'.running,
        sym (append-nil (messages_of address served.events))
            ∙ ap (λ k'. messages_of address served.events ++ k') (sym none_left)
            ∙ sym parts,
        c',
        f',
        ends,
      )
