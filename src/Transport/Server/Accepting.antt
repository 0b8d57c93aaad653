-- ===== src/Transport/Server/Accepting.antt =====
-- The descriptors of the server, and its limit on connections.
use my_mprpc.Prelude.{
  ℕ, suc, ◌+◌, ◌≤◌, ◌<◌, ◌≡◌, refl, ◌∙◌, Bool, true, false, Option, none, some, List, [], ◌∷◌, ◌++◌,
  length, length-append, leb, arith, if◌then◌else◌, ◌==◌,
}
use my_mprpc.Prelude.Decimal.{to_string}
use my_mprpc.Transport.Connection.{TcpConnection, make_connection}
use my_mprpc.Transport.Server.{
  TcpServer, FdEvent, opened, closed, StartAnswers, give_up, start_epoll, start_listening, start,
  Accepted, handle_new_connection,
}

-- What is open after these events, of what was open before.
abbrev pub without : ℕ → List ℕ → List ℕ
without fd [] = []
without fd (x ∷ fds) = let rest = without fd fds in if x == fd then rest else x ∷ rest

abbrev pub open_after : List ℕ → List FdEvent → List ℕ
open_after fds [] = fds
open_after fds (opened fd ∷ events) = open_after (fds ++ fd ∷ []) events
open_after fds (closed fd ∷ events) = open_after (without fd fds) events

-- How start ends from a server that does not run.
abbrev pub StartOutcome : Bool × TcpServer × List FdEvent → Type 0
StartOutcome (true, s, events) =
    (s.running ≡ true)
    × ((fd : ℕ) × (epoll : ℕ) × (s.listen_sockfd ≡ some fd)
        × (s.epoll_fd ≡ some epoll)
        × (open_after [] events ≡ fd ∷ epoll ∷ []))
StartOutcome (false, s, events) =
    (s.running ≡ false) × (s.listen_sockfd ≡ none) × (open_after [] events ≡ [])

without_self : (fd : ℕ) → without fd (fd ∷ []) ≡ []
without_self fd = ground arith

without_second : (fd epoll : ℕ) → without fd (without epoll (fd ∷ epoll ∷ [])) ≡ []
without_second fd epoll = ground arith

start_epoll-StartOutcome :
    (fd : ℕ) (k : StartAnswers) (epoll : Option ℕ) (s : TcpServer) (added : Bool)
    → s.running ≡ false
    → k.added ≡ added
    → StartOutcome (start_epoll fd k epoll s)
unfolding start_epoll give_up
start_epoll-StartOutcome fd k none s added r e = (r, refl, without_self fd)
start_epoll-StartOutcome fd k (some epoll) s true r e = rw e (refl, (fd, epoll, refl, refl, refl))
start_epoll-StartOutcome fd k (some epoll) s false r e = rw e (r, refl, without_second fd epoll)

start_listening-StartOutcome :
    (k : StartAnswers) (socket : Option ℕ) (s : TcpServer) (option_set bound listening : Bool)
    → s.running ≡ false
    → k.option_set ≡ option_set
    → k.bound ≡ bound
    → k.listening ≡ listening
    → StartOutcome (start_listening k socket s)
unfolding start_listening give_up
start_listening-StartOutcome k none s o b l r e f g = (r, refl, refl)
start_listening-StartOutcome k (some fd) s true true true r e f g =
    rw (e, f, g) (start_epoll-StartOutcome fd k k.new_epoll s k.added r refl)
start_listening-StartOutcome k (some fd) s true true false r e f g =
    rw (e, f, g) (r, refl, without_self fd)
start_listening-StartOutcome k (some fd) s true false l r e f g =
    rw (e, f) (r, refl, without_self fd)
start_listening-StartOutcome k (some fd) s false b l r e f g = rw e (r, refl, without_self fd)

-- start of a server that does not run returns true with the server running and exactly its two new
-- descriptors open, or false with every descriptor closed that it has opened.
pub start-StartOutcome :
    (k : StartAnswers) (s : TcpServer) → s.running ≡ false → StartOutcome (start k s)
unfolding start
start-StartOutcome k s r = simp r (
    start_listening-StartOutcome k k.new_socket s k.option_set k.bound k.listening r refl refl refl)

-- Several calls of handleNewConnection.
abbrev pub accept_all : List (Option Accepted) → TcpServer → TcpServer × List FdEvent
accept_all [] s = (s, [])
accept_all (a ∷ more) s =
    let (s', events) = handle_new_connection a s in
    let (s'', later) = accept_all more s' in (s'', events ++ later)

abbrev pub opened_count : List FdEvent → ℕ
opened_count [] = 0
opened_count (opened fd ∷ events) = suc (opened_count events)
opened_count (closed fd ∷ events) = opened_count events

abbrev pub closed_count : List FdEvent → ℕ
closed_count [] = 0
closed_count (opened fd ∷ events) = closed_count events
closed_count (closed fd ∷ events) = suc (closed_count events)

opened_count-append :
    (xs ys : List FdEvent) → opened_count (xs ++ ys) ≡ opened_count xs + opened_count ys
opened_count-append [] ys = omega arith
opened_count-append (opened fd ∷ xs) ys = omega (arith, opened_count-append xs ys)
opened_count-append (closed fd ∷ xs) ys = opened_count-append xs ys

closed_count-append :
    (xs ys : List FdEvent) → closed_count (xs ++ ys) ≡ closed_count xs + closed_count ys
closed_count-append [] ys = omega arith
closed_count-append (opened fd ∷ xs) ys = closed_count-append xs ys
closed_count-append (closed fd ∷ xs) ys = omega (arith, closed_count-append xs ys)

-- Within the limit, and each descriptor belongs to one new connection or is closed.
abbrev pub Accounted : TcpServer → TcpServer × List FdEvent → Type 0
Accounted s (s', events) =
    (length s'.connections ≤ s'.max_connections)
    × (s'.max_connections ≡ s.max_connections)
    × (opened_count events + length s.connections ≡ closed_count events + length s'.connections)

refused-Accounted :
    (fd : ℕ) (s : TcpServer)
    → length s.connections ≤ s.max_connections
    → Accounted s (s, opened fd ∷ closed fd ∷ [])
refused-Accounted fd s h = (h, refl, refl)

added-Accounted :
    (fd : ℕ) (entry : ℕ × TcpConnection) (s : TcpServer)
    → length s.connections < s.max_connections
    → Accounted s (record s { connections = s.connections ++ entry ∷ [] }, opened fd ∷ [])
added-Accounted fd entry s h =
    let n : length (s.connections ++ entry ∷ []) ≡ length s.connections + 1 =
      length-append s.connections (entry ∷ []) in
    (omega (arith, n), refl, omega (arith, n))

handle_new_connection-Accounted :
    (a : Accepted) (s : TcpServer) (full added : Bool)
    → leb s.max_connections (length s.connections) ≡ full
    → a.added ≡ added
    → length s.connections ≤ s.max_connections
    → Accounted s (handle_new_connection (some a) s)
unfolding handle_new_connection
handle_new_connection-Accounted a s true added e f h = rw e (refused-Accounted a.client_sockfd s h)
handle_new_connection-Accounted a s false true e f h =
    rw (e, f)
      (added-Accounted a.client_sockfd
        (a.object, make_connection a.client_sockfd (a.peer_host ++ b':' ∷ to_string a.peer_port)) s
        (ground arith))
handle_new_connection-Accounted a s false false e f h =
    rw (e, f) (refused-Accounted a.client_sockfd s h)

one-Accounted :
    (a : Option Accepted) (s : TcpServer)
    → length s.connections ≤ s.max_connections
    → Accounted s (handle_new_connection a s)
one-Accounted none s h = unfold handle_new_connection in (h, refl, refl)
one-Accounted (some a) s h =
    handle_new_connection-Accounted a s (leb s.max_connections (length s.connections)) a.added refl
      refl h

-- However many connections come in, the server holds at most max_connections, and of the
-- descriptors that accept gave exactly as many stay open as there are new connections.
pub accept_all-Accounted :
    (more : List (Option Accepted)) (s : TcpServer)
    → length s.connections ≤ s.max_connections
    → Accounted s (accept_all more s)
accept_all-Accounted [] s h = (h, refl, refl)
accept_all-Accounted (a ∷ more) s h =
    let (bound, limit, count) = one-Accounted a s h in
    let (s', events) = handle_new_connection a s in
    let (bound', limit', count') = accept_all-Accounted more s' bound in
    let later = (accept_all more s').1 in
    (
      bound',
      limit' ∙ limit,
      omega (
        arith,
        count,
        count',
        opened_count-append events later,
        closed_count-append events later,
      ),
    )
