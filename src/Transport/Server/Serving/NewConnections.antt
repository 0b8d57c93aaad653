-- ===== src/Transport/Server/Serving/NewConnections.antt =====
-- A new connection in the loop of src/transport/tcp_server.cpp leaves the others as they are.
use my_mprpc.Prelude.{
  ℕ, suc, ◌≡◌, ◌≢◌, refl, ◌∙◌, Bool, true, false, Option, none, some, [], ◌∷◌, ◌++◌, arith, ◌==◌,
  nat_eq, if◌then◌else◌, Bool-cases, inl, inr, leb, ltb, length,
}
use my_mprpc.Prelude.Map.{Map, find, put, has, find-put, find-append, first_some}
use my_mprpc.Prelude.Decimal.{to_string}
use my_mprpc.Transport.Connection.{TcpConnection, make_connection}
use my_mprpc.Transport.Server.{TcpServer, Accepted, handle_new_connection}
use my_mprpc.Transport.Server.Loop.{introduce, serve_new}
use my_mprpc.Transport.Server.Serving.{messages_of, messages_of-descriptor}

find_added :
    (object address : ℕ) (c : TcpConnection) (m : Map ℕ TcpConnection)
    → object ≢ address
    → find address (m ++ (object, c) ∷ []) ≡ find address m
find_added object address c m h =
    let other : (object == address) ≡ false = ground arith in
    find-append address m ((object, c) ∷ []) ∙ rw other (end (find address m))
  where
    end : (o : Option TcpConnection) → first_some o none ≡ o
    end none = refl
    end (some c) = refl

-- A new connection changes nothing else.
abbrev Same : ℕ → TcpServer → TcpServer → Type 0
Same address s s' =
    (s'.running ≡ s.running)
    × (s'.listen_sockfd ≡ s.listen_sockfd)
    × (find address s'.connections ≡ find address s.connections)

either-Same :
    (address : ℕ) (s x y : TcpServer) (b : Bool)
    → Same address s x
    → Same address s y
    → Same address s (if b then x else y)
either-Same address s x y true h k = h
either-Same address s x y false h k = k

introduced-Same :
    (callback : TcpConnection → TcpConnection) (object address : ℕ) (found : Option TcpConnection)
    (s s' : TcpServer)
    → object ≢ address
    → Same address s s'
    → Same address s (introduce callback object found s')
introduced-Same callback object address none s s' h same = same
introduced-Same callback object address (some c) s s' h (r, l, f) =
    let other : (object == address) ≡ false = ground arith in
    either-Same address s (record s' { connections = put object (callback c) s'.connections }) s'
      (has object s'.connections)
      (r, l, find-put object address (callback c) s'.connections ∙ rw other f) (r, l, f)

handle_new_connection-Same :
    (a : Accepted) (s : TcpServer) (address : ℕ)
    → a.object ≢ address
    → Same address s (handle_new_connection (some a) s).0
unfolding handle_new_connection
handle_new_connection-Same a s address h =
    elim (Bool-cases (leb s.max_connections (length s.connections))) [
      | inl full ↦ rw full (refl, refl, refl)
      | inr room ↦ elim (Bool-cases a.added) [
        | inl added ↦
            rw (room, added)
              (
                refl,
                refl,
                find_added a.object address
                    (make_connection a.client_sockfd (a.peer_host ++ b':' ∷ to_string a.peer_port))
                    s.connections h,
              )
        | inr refused ↦ rw (room, refused) (refl, refl, refl)
      ]
    ]

-- The new object is not the one of the client.
abbrev pub IsFresh : ℕ → Option Accepted → Type 0
IsFresh address none = Unit
IsFresh address (some a) = a.object ≢ address

pub serve_new-Same :
    (callback : TcpConnection → TcpConnection) (o : Option Accepted) (s : TcpServer) (address : ℕ)
    → IsFresh address o
    → Same address s (serve_new callback o s).server
      × (messages_of address (serve_new callback o s).events ≡ [])
unfolding serve_new
serve_new-Same callback none s address h = ((refl, refl, refl), refl)
serve_new-Same callback (some a) s address h =
    let same = handle_new_connection-Same a s address h in
    let s' = (handle_new_connection (some a) s).0 in
    (
      either-Same address s
          (if ltb (length s.connections) (length s'.connections)
            then introduce callback a.object (find a.object s'.connections) s'
            else s')
          s' s.connection_callback
          (either-Same address s (introduce callback a.object (find a.object s'.connections) s') s'
            (ltb (length s.connections) (length s'.connections))
            (introduced-Same callback a.object address (find a.object s'.connections) s s' h same)
            same)
          same,
      messages_of-descriptor address (handle_new_connection (some a) s).1,
    )

pub serve_new_lem :
    (callback : TcpConnection → TcpConnection) (o : Option Accepted) (s : TcpServer)
    → ((serve_new callback o s).server.running ≡ s.running)
      × ((serve_new callback o s).server.listen_sockfd ≡ s.listen_sockfd)
serve_new_lem callback none s =
    let (same, told) = serve_new-Same callback none s 0 tt in (same.0, same.1)
serve_new_lem callback (some a) s =
    let (same, told) = serve_new-Same callback (some a) s (suc a.object) (λ e. omega (arith, e)) in
    (same.0, same.1)
