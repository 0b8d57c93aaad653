-- ===== src/Transport/Server/Serving.antt =====
-- The loop of src/transport/tcp_server.cpp over the reads of many clients and over new connections.
pub mod NewConnections
pub mod Reads
pub mod Clients
use my_mprpc.Prelude.{
  ℕ, ◌≡◌, ◌≢◌, refl, sym, ap, ◌∙◌, subst, Bool, true, false, Option, some, List, [], ◌∷◌, ◌++◌,
  append_assoc, arith, Bytes, All, map, ◌==◌, nat_eq, if◌then◌else◌, Bool-cases, inl, inr,
}
use my_mprpc.Prelude.Result.{Result, ok, err, ◌>>=◌}
use my_mprpc.Prelude.Map.{find}
use my_mprpc.Buffer.{Buffer}
use my_mprpc.Buffer.Invariant.{contents}
use my_mprpc.Codec.MessageHandler.Streaming.{wire}
use my_mprpc.Transport.Connection.{TcpConnection}
use my_mprpc.Transport.Connection.Frames.{wait, next_frame}
use my_mprpc.Transport.Server.{TcpServer, FdEvent}
use my_mprpc.Transport.Server.Events.{EventError, ClientEvent, message}
use my_mprpc.Transport.Server.Stream.{Split, IsFrame, wire-Cut, Split-unique}
use my_mprpc.Transport.Server.Delivery.{called-message, All-split}
use my_mprpc.Transport.Server.Reading.{IsSteady, called_with}
use my_mprpc.Transport.Server.Loop.{
  LoopEvent, descriptor, client_event, Served, nothing_done, join_served,
}

-- What the callback of one client was called with.
abbrev pub messages_of : ℕ → List LoopEvent → List Bytes
messages_of address [] = []
messages_of address (client_event object (message m) ∷ events) =
    let rest = messages_of address events in if object == address then m ∷ rest else rest
messages_of address (e ∷ events) = messages_of address events

messages_of-append :
    (address : ℕ) (xs ys : List LoopEvent)
    → messages_of address (xs ++ ys) ≡ messages_of address xs ++ messages_of address ys
messages_of-append address [] ys = refl
messages_of-append address (client_event object (message m) ∷ xs) ys =
    ground (arith, messages_of-append address xs ys)
messages_of-append address (client_event object (ClientEvent.unwatched fd) ∷ xs) ys =
    messages_of-append address xs ys
messages_of-append address (client_event object (ClientEvent.connection_event e) ∷ xs) ys =
    messages_of-append address xs ys
messages_of-append address (descriptor e ∷ xs) ys = messages_of-append address xs ys

pub messages_of-descriptor :
    (address : ℕ) (events : List FdEvent) → messages_of address (map descriptor events) ≡ []
messages_of-descriptor address [] = refl
messages_of-descriptor address (e ∷ events) = messages_of-descriptor address events

messages_of_own :
    (address : ℕ) (ms : List Bytes)
    → messages_of address (map (client_event address) (map message ms)) ≡ ms
messages_of_own address [] = refl
messages_of_own address (m ∷ ms) =
    let same : (address == address) ≡ true = ground arith in
    rw same (ap (◌∷◌ m) (messages_of_own address ms))

messages_of_other :
    (address object : ℕ) (ms : List Bytes)
    → (object == address) ≡ false
    → messages_of address (map (client_event object) (map message ms)) ≡ []
messages_of_other address object [] h = refl
messages_of_other address object (m ∷ ms) h = rw h (messages_of_other address object ms h)

pub called_other :
    (address object : ℕ) (c : TcpConnection) (ms : List Bytes)
    → (object == address) ≡ false
    → messages_of address (map (client_event object) (called_with c ms)) ≡ []
called_other address object c ms h = elim (Bool-cases c.callbacks.message) [
  | inl set ↦ rw set (messages_of_other address object ms h)
  | inr unset ↦ rw unset refl
]

-- What is still to come from a client is the frames of these messages and the start of a next one.
abbrev pub Expects : TcpConnection → Bytes → List Bytes → Bytes → Type 0
Expects c stream messages rest =
    (c.callbacks.message ≡ true)
    × All IsFrame messages
    × (next_frame rest ≡ wait)
    × (contents c.input_buffer ++ stream ≡ wire messages ++ rest)

-- Of a client whose stream is one of frames, the events are the messages of what has come.
abbrev pub Advances : ℕ → TcpConnection → TcpConnection → Bytes → List LoopEvent → Type 0
Advances address c c' came events =
    (more : Bytes) (messages : List Bytes) (rest : Bytes)
    → Expects c (came ++ more) messages rest
    → (ys : List Bytes) × (messages ≡ messages_of address events ++ ys) × Expects c' more ys rest

pub none_came :
    (address : ℕ) (c : TcpConnection) (events : List LoopEvent)
    → messages_of address events ≡ []
    → Advances address c c [] events
none_came address c events h more messages rest x = (messages, sym (ap (λ ms. ms ++ messages) h), x)

join-Advances :
    (address : ℕ) (c c' c'' : TcpConnection) (came later : Bytes) (xs ys : List LoopEvent)
    → Advances address c c' came xs
    → Advances address c' c'' later ys
    → Advances address c c'' (came ++ later) (xs ++ ys)
join-Advances address c c' c'' came later xs ys f g more messages rest (set, frames, stuck, e) =
    let (ms, parts, x) = f (later ++ more) messages rest (
      set,
      frames,
      stuck,
      ap (λ k. contents c.input_buffer ++ k) (sym (append_assoc came later more)) ∙ e,
    ) in
    let (ms', parts', x') = g more ms rest x in
    (
      ms',
      parts
          ∙ ap (λ k. messages_of address xs ++ k) parts'
          ∙ sym (append_assoc (messages_of address xs) (messages_of address ys) ms')
          ∙ ap (λ k. k ++ ms') (sym (messages_of-append address xs ys)),
      x',
    )

-- What handleClientRead does with a read of the client.
pub read-Advances :
    (address : ℕ) (c d : TcpConnection) (bytes : Bytes) (ms : List Bytes)
    → d.callbacks ≡ c.callbacks
    → Split (contents c.input_buffer ++ bytes) ms (contents d.input_buffer)
    → Advances address c d bytes (map (client_event address) (called_with c ms))
read-Advances address c d bytes ms calls split more messages rest (set, frames, stuck, e) =
    let all : (contents c.input_buffer ++ bytes) ++ more ≡ wire messages ++ rest =
      append_assoc (contents c.input_buffer) bytes more ∙ e in
    let (xs, ys, mid, parts, cut, waiting, left) =
      wire-Cut messages (contents c.input_buffer ++ bytes) more rest frames stuck all in
    let (same, ends) = Split-unique split cut in
    let (hx, hy) = All-split xs ys (subst (All IsFrame) parts frames) in
    let told : messages_of address (map (client_event address) (called_with c ms)) ≡ xs =
      ap (λ es. messages_of address (map (client_event address) es)) (called-message c ms set)
      ∙ messages_of_own address ms
      ∙ same in
    (
      ys,
      parts ∙ ap (λ k. k ++ ys) (sym told),
      (ap (λ k. k.message) calls ∙ set, hy, stuck, ap (λ k. k ++ more) ends ∙ left),
    )

-- `IsClient` holds of the addresses of the connections that stay.
module _ (IsClient : ℕ → Type 0) (listen_fd : Option ℕ) where
  pub record IsServing (s : TcpServer) : Type 0 where
    pub running : s.running ≡ true
    pub listening : s.listen_sockfd ≡ listen_fd
    pub steady :
        (address : ℕ)
        → IsClient address
        → (c : TcpConnection) × (find address s.connections ≡ some c) × IsSteady c.input_buffer

  -- Nothing is thrown, the server goes on, and each client has advanced by what has come from it.
  abbrev pub Goes : TcpServer → (ℕ → Bytes) → Result EventError Served → Type 0
  Goes s came r =
      (served : Served) × (r ≡ ok served)
      × IsServing served.server
      × ((address : ℕ) (c : TcpConnection)
          → IsClient address
          → find address s.connections ≡ some c
          → (c' : TcpConnection) × (find address served.server.connections ≡ some c')
            × Advances address c c' (came address) served.events)

  pub nothing-Goes : (s : TcpServer) → IsServing s → Goes s (λ address. []) (ok (nothing_done s))
  nothing-Goes s h = (nothing_done s, refl, h, λ address c k f. (c, f, none_came address c [] refl))

  pub join-Goes :
      (s : TcpServer) (came later : ℕ → Bytes) (r : Result EventError Served)
      (go : TcpServer → Result EventError Served)
      → Goes s came r
      → ((s' : TcpServer) → IsServing s' → Goes s' later (go s'))
      → Goes s
          (λ address. came address ++ later address)
          (do first ← r; second ← go first.server; ok (join_served first second))
  join-Goes s came later r go (first, run, h, moved) goes =
      let (second, run', h', moved') = goes first.server h in
      rw (run, run')
        (
          join_served first second,
          refl,
          h',
          λ address c k f.
              let (c', f', a) = moved address c k f in
              let (c'', f'', a') = moved' address c' k f' in
              (
                c'',
                f'',
                join-Advances address c c' c'' (came address) (later address) first.events
                    second.events a a',
              ),
        )
