-- ===== src/Transport/Client/Connecting.antt =====
-- The descriptors of the client.
use my_mprpc.Prelude.{
  ℕ, ◌≡◌, refl, sym, ap, ◌∙◌, subst, Bool, true, false, Option, none, some, List, [], ◌∷◌, ◌++◌,
  Bytes, ◌⊎◌, inl, inr,
}
use my_mprpc.Prelude.Decimal.{to_string}
use my_mprpc.Transport.Socket.{
  disconnected, is_connected, connected, SendAnswer, Sent, complete, stopped, waiting, send_loop,
}
use my_mprpc.Transport.Client.{
  TcpClient, ConnectAnswers, FdEvent, opened, closed, connect, connect_socket, disconnect,
  established, abandon, send, handle_write, finish_write, handle_error,
}

-- What connect has done, by its result: a connected client that holds the one descriptor it has
-- opened, or a client that is not connected, with the descriptor closed again that it has opened.
abbrev pub ConnectOutcome : Bytes → ℕ → Bool × TcpClient × List FdEvent → Type 0
ConnectOutcome host port (true, c, events) =
    (c.state ≡ connected)
    × (c.server_addr ≡ host ++ b':' ∷ to_string port)
    × ((fd : ℕ) × (c.sockfd ≡ some fd) × (events ≡ opened fd ∷ []))
ConnectOutcome host port (false, c, events) =
    (c.state ≡ disconnected)
    × (c.sockfd ≡ none)
    × ((events ≡ []) ⊎ ((fd : ℕ) × (events ≡ opened fd ∷ closed fd ∷ [])))

abandon-ConnectOutcome :
    (host : Bytes) (port fd : ℕ) (c : TcpClient) → ConnectOutcome host port (abandon fd c)
unfolding abandon
abandon-ConnectOutcome host port fd c = (refl, refl, inr (fd, refl))

connect_socket-ConnectOutcome :
    (host : Bytes) (port : ℕ) (k : ConnectAnswers) (new_socket : Option ℕ) (c : TcpClient)
    (non_blocking valid_address is_established : Bool)
    → k.non_blocking ≡ non_blocking
    → k.valid_address ≡ valid_address
    → established k.answer ≡ is_established
    → ConnectOutcome host port (connect_socket host port k new_socket c)
unfolding connect_socket
connect_socket-ConnectOutcome host port k none c nb va es e f g = (refl, refl, inl refl)
connect_socket-ConnectOutcome host port k (some fd) c true true true e f g =
    rw (e, f, g) (refl, refl, (fd, refl, refl))
connect_socket-ConnectOutcome host port k (some fd) c true true false e f g =
    rw (e, f, g) (abandon-ConnectOutcome host port fd c)
connect_socket-ConnectOutcome host port k (some fd) c true false es e f g =
    rw (e, f) (abandon-ConnectOutcome host port fd c)
connect_socket-ConnectOutcome host port k (some fd) c false va es e f g =
    rw e (abandon-ConnectOutcome host port fd c)

-- connect of a client that is not connected returns true with the client connected, its address that
-- of the server, and one new descriptor that it holds; or false with the client disconnected and
-- without a descriptor, and if connect has opened one it has closed it. A descriptor that the client
-- held before is forgotten in both cases, and closed in none.
pub connect-ConnectOutcome :
    (host : Bytes) (port : ℕ) (k : ConnectAnswers) (c : TcpClient)
    → is_connected c.state ≡ false
    → ConnectOutcome host port (connect host port k c)
unfolding connect
connect-ConnectOutcome host port k c h = rw h (
    connect_socket-ConnectOutcome host port k k.new_socket c k.non_blocking k.valid_address
      (established k.answer) refl refl refl)

connect_socket_forgets :
    (host : Bytes) (port : ℕ) (k : ConnectAnswers) (new_socket : Option ℕ) (c : TcpClient)
    (non_blocking valid_address is_established : Bool)
    → k.non_blocking ≡ non_blocking
    → k.valid_address ≡ valid_address
    → established k.answer ≡ is_established
    → connect_socket host port k new_socket c
      ≡ connect_socket host port k new_socket (record c { sockfd = none })
unfolding connect_socket abandon
connect_socket_forgets host port k none c nb va es e f g = refl
connect_socket_forgets host port k (some fd) c true true true e f g = rw (e, f, g) refl
connect_socket_forgets host port k (some fd) c true true false e f g = rw (e, f, g) refl
connect_socket_forgets host port k (some fd) c true false es e f g = rw (e, f) refl
connect_socket_forgets host port k (some fd) c false va es e f g = rw e refl

-- A client that is disconnected, and still holds a descriptor.
abbrev pub Forgotten : ℕ → TcpClient → Type 0
Forgotten fd c =
    (c.sockfd ≡ some fd)
    × (disconnect c ≡ (c, []))
    × ((host : Bytes) (port : ℕ) (k : ConnectAnswers)
        → connect host port k c ≡ connect host port k (record c { sockfd = none }))

handle_error-Forgotten :
    (fd : ℕ) (c : TcpClient) → c.sockfd ≡ some fd → Forgotten fd (handle_error c)
unfolding handle_error disconnect connect
handle_error-Forgotten fd c h = (
  h,
  refl,
  λ host port k.
      connect_socket_forgets host port k k.new_socket (record c { state = disconnected })
        k.non_blocking k.valid_address (established k.answer) refl refl refl,
)

finish_write-Forgotten :
    (fd : ℕ) (c : TcpClient) (s : Sent)
    → c.sockfd ≡ some fd
    → (finish_write c s).0 ≡ some false
    → Forgotten fd (finish_write c s).1
unfolding finish_write
finish_write-Forgotten fd c (complete out) h e = cc
finish_write-Forgotten fd c (stopped error out) h e = handle_error-Forgotten fd c h
finish_write-Forgotten fd c (waiting out) h e = cc

-- After a send that an error stopped, the client keeps its descriptor, disconnect does nothing, and
-- connect does what it does for a client without a descriptor, so that nothing closes the old one.
pub send-Forgotten :
    (message : Bytes) (answers : List SendAnswer) (fd : ℕ) (c : TcpClient)
    → is_connected c.state ≡ true
    → c.sockfd ≡ some fd
    → (send message answers c).0 ≡ some false
    → Forgotten fd (send message answers c).1
unfolding send handle_write
send-Forgotten message answers fd c on h e =
    let run : send message answers c ≡ finish_write c (send_loop message answers) = rw on refl in
    subst (λ r. Forgotten fd r.1) (sym run)
      (finish_write-Forgotten fd c (send_loop message answers) h (ap (λ r. r.0) (sym run) ∙ e))
