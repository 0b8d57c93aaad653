-- ===== src/Transport/Connection/Sending.antt =====
-- Sending over a connection, its states, and its descriptor.
use my_mprpc.Prelude.{
  ℕ, ◌≡◌, refl, ap, ◌∙◌, inl, inr, Bool-cases, append-nil, Bool, true, false, Option, none, some,
  List, [], ◌∷◌, ◌++◌, arith, Bytes, length, ◌≤◌, if◌then◌else◌,
}
use my_mprpc.Transport.Socket.{
  is_connected, is_disconnected, SendAnswer, SendError, Sent, complete, stopped, waiting, send_loop,
}
use my_mprpc.Transport.Socket.Sending.{
  IsPrefixOf, IsHealthy, progress, SendsPrefix, send_loop-SendsPrefix, send_loop-complete,
}
use my_mprpc.Transport.Connection.{
  TcpConnection, Event, wrote, closed, write_completed, error_reported, send, finish_send,
  handle_error, close, close_socket,
}

-- The bytes that the events hand to the kernel.
abbrev pub bytes_written : List Event → Bytes
bytes_written [] = []
bytes_written (wrote bytes ∷ events) = bytes ++ bytes_written events
bytes_written (_ ∷ events) = bytes_written events

-- What each outcome of send means.
abbrev pub SendOutcome : Bytes → TcpConnection → Option Bool × TcpConnection × List Event → Type 0
SendOutcome bytes c (some true, c', events) = (c' ≡ c) × (bytes_written events ≡ bytes)
SendOutcome bytes c (some false, c', events) =
    (is_connected c'.state ≡ false)
    × (c'.sockfd ≡ c.sockfd)
    × IsPrefixOf (bytes_written events) bytes
SendOutcome bytes c (none, c', events) = (c' ≡ c) × IsPrefixOf (bytes_written events) bytes

completion_writes_nothing : (b : Bool) → bytes_written (if b then write_completed ∷ [] else []) ≡ []
completion_writes_nothing true = refl
completion_writes_nothing false = refl

report_writes_nothing :
    (b : Bool) (e : SendError) → bytes_written (if b then error_reported e ∷ [] else []) ≡ []
report_writes_nothing true e = refl
report_writes_nothing false e = refl

prefix_alone :
    (out bytes more : Bytes) → more ≡ [] → IsPrefixOf out bytes → IsPrefixOf (out ++ more) bytes
prefix_alone out bytes more e h = rw (e, append-nil out) h

finish_send-SendOutcome :
    (bytes : Bytes) (c : TcpConnection) (s : Sent)
    → SendsPrefix bytes s
    → SendOutcome bytes c (finish_send c s)
unfolding finish_send handle_error
finish_send-SendOutcome bytes c (complete out) h = (
  refl,
  ap (◌++◌ out) (completion_writes_nothing c.callbacks.write_complete) ∙ append-nil out ∙ h,
)
finish_send-SendOutcome bytes c (stopped e out) h =
    (refl, refl, prefix_alone out bytes _ (report_writes_nothing c.callbacks.error e) h)
finish_send-SendOutcome bytes c (waiting out) h = (refl, prefix_alone out bytes [] refl h)

-- send returns true only after all bytes are handed to the kernel in order, and then the connection
-- is as before; it returns false with at most a prefix handed over and the connection not
-- connected, its descriptor kept; and while it waits, a prefix is handed over.
pub send-SendOutcome :
    (bytes : Bytes) (answers : List SendAnswer) (c : TcpConnection)
    → SendOutcome bytes c (send bytes answers c)
unfolding send
send-SendOutcome bytes answers c = elim (Bool-cases (is_connected c.state)) [
  | inl yes_connected ↦ rw yes_connected (
      finish_send-SendOutcome bytes c (send_loop bytes answers)
        (send_loop-SendsPrefix bytes answers))
  | inr not_connected ↦ rw not_connected (not_connected, refl, (bytes, refl))
]

-- A send over a connected connection ends, and returns true: when the kernel answers without an
-- error and takes bytes as often as there are bytes.
pub send-total :
    (bytes : Bytes) (answers : List SendAnswer) (c : TcpConnection)
    → is_connected c.state ≡ true
    → IsHealthy answers
    → length bytes ≤ progress answers
    → (send bytes answers c).0 ≡ some true
unfolding send finish_send
send-total bytes answers c h healthy enough =
    rw (h, send_loop-complete bytes answers healthy enough) refl

-- Closing a connection that is not disconnected closes its descriptor once: a second close does
-- nothing, and a send over the closed connection hands nothing over and returns false.
pub close-once :
    (c : TcpConnection) (fd : ℕ) (bytes : Bytes) (answers : List SendAnswer)
    → is_disconnected c.state ≡ false
    → c.sockfd ≡ some fd
    → let c' = (close c).0 in
      ((close c).1 ≡ closed fd ∷ [])
      × (close c' ≡ (c', []))
      × (send bytes answers c' ≡ (some false, c', []))
unfolding close close_socket send
close-once c fd bytes answers h e = ground arith

-- After a send that was stopped by an error, close does nothing: the descriptor stays open.
pub close-send_stopped :
    (bytes out : Bytes) (answers : List SendAnswer) (c : TcpConnection) (e : SendError)
    → is_connected c.state ≡ true
    → send_loop bytes answers ≡ stopped e out
    → let c' = (send bytes answers c).1 in (close c' ≡ (c', [])) × (c'.sockfd ≡ c.sockfd)
unfolding send finish_send handle_error close
close-send_stopped bytes out answers c e h stop = rw (h, stop) (refl, refl)
