-- ===== src/Transport/Server/Reading.antt =====
-- What handleClientRead of src/transport/tcp_server.cpp delivers of the bytes that come in.
use my_mprpc.Prelude.{
  ℕ, zero, suc, ◌+◌, ◌≤◌, ◌<◌, ◌≡◌, refl, sym, ap, ◌∙◌, subst, inl, inr, Bool, true, false,
  Bool-cases, if◌then◌else◌, map, List, [], ◌∷◌, ◌++◌, arith, Bytes, length,
}
use my_mprpc.Prelude.Result.{Result, ok, err, ◌>>=◌}
use my_mprpc.Buffer.{Buffer, BufferError, got, offered, read_from_fd, readable_bytes, extra_size}
use my_mprpc.Buffer.Invariant.{IsValid, contents}
use my_mprpc.Buffer.Growth.{readable-contents}
use my_mprpc.Buffer.Append.{Filled, read_from_fd-Filled}
use my_mprpc.Buffer.Bounded.{Within, read_from_fd-Within}
use my_mprpc.Transport.Connection.{TcpConnection, decode_frame, decode_buffer, max_frame_size}
use my_mprpc.Transport.Connection.Frames.{
  Step, wait, discard, frame, next_frame, Follows, decode_buffer-Follows, Kept, decode_buffer-Kept,
}
use my_mprpc.Transport.Server.{TcpServer}
use my_mprpc.Transport.Server.Events.{
  EventError, Handled, next_round, decode_frames, ClientEvent, message, after_message, note_message,
  handle_client_read, handle_read, lift_buffer,
}
use my_mprpc.Transport.Server.Stream.{
  Split, waits, discards, takes, next_frame-Cases, next_frame-shorter,
}

-- The calls of the message callback with these frames.
abbrev pub called_with : TcpConnection → List Bytes → List ClientEvent
called_with c messages = if c.callbacks.message then map message messages else []

called_with-append :
    (m : Bytes) (c d : TcpConnection) (messages : List Bytes)
    → d.callbacks ≡ c.callbacks
    → (if c.callbacks.message then message m ∷ called_with d messages else called_with d messages)
      ≡ called_with c (m ∷ messages)
called_with-append m c d messages h =
    rw (ap (λ k. k.message) h)
      (elim (Bool-cases c.callbacks.message) [ inl set ↦ rw set refl | inr unset ↦ rw unset refl ])

-- A message callback that reads nothing from the input buffer and sets no callbacks, and what it
-- keeps of a connection, whatever its input buffer is.
pub record IsKeeping (on_message : Bytes → TcpConnection → TcpConnection)
    (P : TcpConnection → Type 0) : Type 0 where
  pub input : (m : Bytes) (c : TcpConnection) → (on_message m c).input_buffer ≡ c.input_buffer
  pub callbacks : (m : Bytes) (c : TcpConnection) → (on_message m c).callbacks ≡ c.callbacks
  pub call : (m : Bytes) (c : TcpConnection) → P c → P (on_message m c)
  pub read : (b : Buffer) (c : TcpConnection) → P c → P (record c { input_buffer = b })

abbrev decoded :
    TcpConnection
    → Result BufferError (Bool × Bytes × Buffer)
    → Result BufferError (Bool × Bytes × TcpConnection)
decoded c r = do d ← r; ok (d.0, d.1, record c { input_buffer = d.2 })

module _ {on_message : Bytes → TcpConnection → TcpConnection} {P : TcpConnection → Type 0}
    (keeping : IsKeeping on_message P) where
  -- The loop has ended, with the messages and the rest of the bytes of the buffer.
  abbrev Looped : TcpConnection → Result EventError (List ClientEvent × TcpConnection) → Type 0
  Looped c r =
      (messages : List Bytes) × (c' : TcpConnection) × (r ≡ ok (called_with c messages, c'))
      × IsValid c'.input_buffer
      × (length c'.input_buffer.buffer ≡ length c.input_buffer.buffer)
      × (c'.callbacks ≡ c.callbacks)
      × P c'
      × Split (contents c.input_buffer) messages (contents c'.input_buffer)

  no_messages : (c : TcpConnection) → [] ≡ called_with c []
  no_messages c = elim (Bool-cases c.callbacks.message) [
    | inl set ↦ rw set refl
    | inr unset ↦ rw unset refl
  ]

  after_message-input_buffer :
      (m : Bytes) (c : TcpConnection)
      → ((after_message on_message m c).input_buffer ≡ c.input_buffer)
        × ((after_message on_message m c).callbacks ≡ c.callbacks)
        × (P c → P (after_message on_message m c))
  after_message-input_buffer m c = by_callback c.callbacks.message
    where
      by_callback :
          (b : Bool)
          → let d = if b then on_message m c else c in
            (d.input_buffer ≡ c.input_buffer) × (d.callbacks ≡ c.callbacks) × (P c → P d)
      by_callback true = (keeping.input m c, keeping.callbacks m c, keeping.call m c)
      by_callback false = (refl, refl, λ p. p)

  one_round :
      (c : TcpConnection) (v : IsValid c.input_buffer) (kept : P c) (old : Bytes) (s : Step)
      (r : Result BufferError (Bool × Bytes × Buffer))
      (go : Bytes → TcpConnection → Result EventError (List ClientEvent × TcpConnection))
      → next_frame (contents c.input_buffer) ≡ s
      → Follows old c.input_buffer s r
      → Kept c.input_buffer r
      → ((f : Bytes) (d : TcpConnection)
          → IsValid d.input_buffer
          → P d
          → length (contents d.input_buffer) < length (contents c.input_buffer)
          → Looped d (go f d))
      → Looped c (next_round on_message (decoded c r) go)
  unfolding next_round
  one_round c v kept old wait r go e f k ih =
      rw f ([], c, ap (λ es. ok (es, c)) (no_messages c), v, refl, refl, kept, waits e)
  one_round c v kept old discard (ok (false, d, b)) go e (_, _, valid, none_left) k ih =
      let c' : TcpConnection = record c { input_buffer = b } in
      (
        [],
        c',
        ap (λ es. ok (es, c')) (no_messages c),
        valid,
        ap length k,
        refl,
        keeping.read b c kept,
        subst (Split (contents c.input_buffer) []) (sym none_left) (discards e),
      )
  one_round c v kept old discard (ok (true, d, b)) go e (f, _, _, _) k ih = ground arith
  one_round c v kept old discard (err x) go e f k ih = absurd f
  one_round c v kept old (frame m rest) (ok (false, d, b)) go e (f, _, _, _) k ih = ground arith
  one_round c v kept old (frame m rest) (err x) go e f k ih = absurd f
  one_round c v kept old (frame m rest) (ok (true, d, b)) go e (_, same, valid, left) k ih =
      let less = next_frame-shorter (contents c.input_buffer) m rest e in
      let c1 : TcpConnection = record c { input_buffer = b } in
      let (input, calls, keeps) = after_message-input_buffer d c1 in
      let c2 = after_message on_message d c1 in
      let size1 : contents c2.input_buffer ≡ rest = ap contents input ∙ left in
      let (messages, c', run, valid', size, calls', kept', split) =
        ih d c2 (subst IsValid (sym input) valid) (keeps (keeping.read b c kept))
          (omega (arith, less, ap length size1)) in
      (
        d ∷ messages,
        c',
        ap (λ q. do later ← q; ok (note_message on_message d c1 later.0, later.1)) run
            ∙ ap (λ es. ok (es, c')) (called_with-append d c1 c2 messages calls),
        valid',
        size ∙ ap (λ i. length i.buffer) input ∙ ap length k,
        calls' ∙ calls,
        kept',
        takes (e ∙ ap (λ x. frame x rest) (sym same))
            (subst (λ x. Split x messages (contents c'.input_buffer)) size1 split),
      )

  -- With more fuel than bytes the loop ends, and throws nothing.
  decode_frames-Looped :
      (fuel : ℕ) (old : Bytes) (c : TcpConnection)
      → IsValid c.input_buffer
      → P c
      → length (contents c.input_buffer) < fuel
      → Looped c (decode_frames on_message fuel old c)
  unfolding decode_frames decode_frame
  decode_frames-Looped zero old c v kept h = absurd (omega arith)
  decode_frames-Looped (suc fuel) old c v kept h =
      one_round c v kept old (next_frame (contents c.input_buffer))
        (decode_buffer old c.input_buffer) (λ f d. decode_frames on_message fuel f d) refl
        (decode_buffer-Follows old v) (decode_buffer-Kept old c.input_buffer)
        (λ f d v' kept' less. decode_frames-Looped fuel f d v' kept' (omega arith))

-- The most that the storage of the input buffer of a connection grows to, and the most that one
-- read takes: with less than sizeof(extra_buf) writable, readFromFd offers at least as much.
abbrev pub storage_limit : ℕ
storage_limit = 10616844

-- The input buffer between two events.
pub record IsSteady (b : Buffer) : Type 0 where
  pub valid : IsValid b
  pub small : length b.buffer ≤ storage_limit
  pub stuck : next_frame (contents b) ≡ wait

-- What one read delivers.
abbrev pub Read :
    (TcpConnection → Type 0)
    → TcpConnection
    → TcpServer
    → Bytes
    → Result EventError Handled
    → Type 0
Read P c s bytes r =
    (messages : List Bytes) × (c' : TcpConnection) × (r
      ≡ ok (record { connection = c'; server = s; events = called_with c messages }))
    × (c'.callbacks ≡ c.callbacks)
    × P c'
    × IsSteady c'.input_buffer
    × Split (contents c.input_buffer ++ bytes) messages (contents c'.input_buffer)

-- sizeof(extra_buf)
abbrev pub IsRead : Bytes → Type 0
IsRead bytes = (0 < length bytes) × (length bytes ≤ extra_size)

offered_least : (b : Buffer) → extra_size ≤ offered b
unfolding offered
offered_least b = ground arith

next_frame-nil : next_frame [] ≡ wait
unfolding next_frame
next_frame-nil = refl

Split-wait :
    {bytes final : Bytes} {messages : List Bytes}
    → Split bytes messages final
    → next_frame final ≡ wait
Split-wait (waits e) = e
Split-wait (discards e) = next_frame-nil
Split-wait (takes e split) = Split-wait split

waiting_short : (bytes : Bytes) → next_frame bytes ≡ wait → length bytes < 4 + max_frame_size
waiting_short bytes e = elim (next_frame-Cases bytes) [
  | inl (_, short) ↦ short
  | inr (inl (bad, _)) ↦ absurd (cc (bad, e))
  | inr (inr (here, _, _)) ↦ absurd (cc (here, e))
]

pub got-length :
    (b : Buffer) (xs ys : Bytes) → length xs ≤ extra_size → got xs ≡ got ys → length ys ≤ offered b
got-length b xs ys h e = let same : xs ≡ ys = cc e in omega (arith, ap length same, offered_least b)

module _ {on_message : Bytes → TcpConnection → TcpConnection} {P : TcpConnection → Type 0}
    (keeping : IsKeeping on_message P) where
  -- The loop over what was read.
  decoded-Read :
      (c : TcpConnection) (s : TcpServer) (address : ℕ) (held : Bool) (x : ℕ) (bytes : Bytes)
      (b : Buffer)
      → IsValid b
      → P c
      → length b.buffer ≤ storage_limit
      → contents b ≡ contents c.input_buffer ++ x ∷ bytes
      → Read P c s
          (x ∷ bytes)
          (handle_read on_message (got (x ∷ bytes)) address held (record c { input_buffer = b }) s)
  unfolding handle_read
  decoded-Read c s address held x bytes b v kept small grown =
      let (messages, c', run, v', size, calls, kept', split) =
        decode_frames-Looped keeping (suc (readable_bytes b)) [] (record c { input_buffer = b }) v
          (keeping.read b c kept) (omega (arith, readable-contents v)) in
      rw run (
        messages,
        c',
        refl,
        calls,
        kept',
        record { valid = v'; small = omega (arith, size); stuck = Split-wait split },
        subst (λ k. Split k messages (contents c'.input_buffer)) grown split,
      )

  filled-Read :
      (c : TcpConnection) (s : TcpServer) (address : ℕ) (held : Bool) (x : ℕ) (bytes : Bytes)
      (r : Result BufferError Buffer)
      → IsSteady c.input_buffer
      → P c
      → length (x ∷ bytes) ≤ extra_size
      → Filled (got (x ∷ bytes)) c.input_buffer r
      → Within storage_limit r
      → Read P c s (x ∷ bytes) (do
        filled ← lift_buffer r
        handle_read on_message
            (got (x ∷ bytes))
            address
            held
            (record c { input_buffer = filled })
            s)
  filled-Read c s address held x bytes (ok b) steady kept few (v, grown) small =
      decoded-Read c s address held x bytes b v kept small grown
  filled-Read c s address held x bytes (err e) steady kept few (_, over) small =
      absurd (omega (arith, over, steady.small, steady.valid.within))

  -- A read of 1 byte to 64 KB, whatever the bytes are: handleClientRead throws nothing, calls the
  -- callback with the frames that the bytes received so far contain by the specification of
  -- decodeFrame, and keeps the others; the storage of the input buffer stays below 10.2 MB. The
  -- callback may change the connection, but not its input buffer and its callbacks; what it keeps of
  -- the rest is kept.
  pub handle_client_read-Read :
      (c : TcpConnection) (s : TcpServer) (address : ℕ) (held : Bool) (bytes : Bytes)
      → IsRead bytes
      → IsSteady c.input_buffer
      → P c
      → Read P c s bytes (handle_client_read on_message (got bytes) address held c s)
  unfolding handle_client_read
  handle_client_read-Read c s address held [] (some_bytes, few) steady kept = absurd (omega arith)
  handle_client_read-Read c s address held (x ∷ bytes) (some_bytes, few) steady kept =
      let short = waiting_short (contents c.input_buffer) steady.stuck in
      filled-Read c s address held x bytes (read_from_fd (got (x ∷ bytes)) c.input_buffer) steady
        kept few
        (read_from_fd-Filled (got (x ∷ bytes)) steady.valid
          (λ ys e. got-length c.input_buffer (x ∷ bytes) ys few e))
        (read_from_fd-Within storage_limit (x ∷ bytes) steady.valid steady.small (omega arith)
          (omega (arith, short)))
