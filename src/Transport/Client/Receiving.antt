-- ===== src/Transport/Client/Receiving.antt =====
-- receive of the client on a frame that encode wrote, however it arrives.
use my_mprpc.Prelude.{
  ℕ, suc, ◌+◌, ◌-◌, ◌≤◌, ◌<◌, ◌≡◌, refl, sym, ap, ◌∙◌, true, false, some, List, [], ◌∷◌, ◌++◌,
  Bytes, arith, length, take, drop, take-length-append, drop-length-append, drop_all, take_all,
  append_assoc, inl, inr, ◌⊎◌, ltb, leb, Bool-cases, subst, length-append,
}
use my_mprpc.Codec.FrameCodec.{encode, network_to_host32}
use my_mprpc.Codec.FrameCodec.RoundTrip.{header, length-header, encode_lem}
use my_mprpc.ByteOrder.{swap_bytes-load}
use my_mprpc.Transport.Socket.{is_connected}
use my_mprpc.Transport.Client.{
  TcpClient, Arrival, arrived, ended, interrupted, nothing_yet, recv_failed, ReadOutcome, read_all,
  read_loop, read_exactly, receive, receive_prefix, receive_body, after_recv, after_bytes,
  max_retries, max_message_size, finish_read,
}

-- The bytes that arrive, one read after the other.
abbrev pub stream : List Arrival → Bytes
stream [] = []
stream (arrived b bs ∷ arrivals) = (b ∷ bs) ++ stream arrivals
stream (ended ∷ arrivals) = stream arrivals
stream (interrupted ∷ arrivals) = stream arrivals
stream (nothing_yet ∷ arrivals) = stream arrivals
stream (recv_failed e ∷ arrivals) = stream arrivals

-- Neither an end nor an error.
abbrev pub IsFlowing : List Arrival → Type 0
IsFlowing [] = Unit {0}
IsFlowing (arrived b bs ∷ arrivals) = IsFlowing arrivals
IsFlowing (ended ∷ arrivals) = ⊥
IsFlowing (interrupted ∷ arrivals) = IsFlowing arrivals
IsFlowing (nothing_yet ∷ arrivals) = IsFlowing arrivals
IsFlowing (recv_failed e ∷ arrivals) = ⊥

-- The calls of recv that find nothing.
abbrev pub waits : List Arrival → ℕ
waits [] = 0
waits (arrived b bs ∷ arrivals) = waits arrivals
waits (ended ∷ arrivals) = waits arrivals
waits (interrupted ∷ arrivals) = waits arrivals
waits (nothing_yet ∷ arrivals) = suc (waits arrivals)
waits (recv_failed e ∷ arrivals) = waits arrivals

-- What was read, and what is left to arrive.
record Splits (before : List Arrival) (bytes rest : Bytes) (result : ReadOutcome × List Arrival)
    : Type 0 where
  after : List Arrival
  run : result ≡ (read_all bytes, after)
  left : stream after ≡ rest
  flowing : IsFlowing after
  fewer : waits after ≤ waits before

split_piece :
    (piece more bytes rest : Bytes)
    → piece ++ more ≡ bytes ++ rest
    → length piece ≤ length bytes
    → (bytes' : Bytes) × (bytes ≡ piece ++ bytes') × (more ≡ bytes' ++ rest)
split_piece [] more bytes rest e h = (bytes, refl, e)
split_piece (x ∷ piece) more [] rest e h = absurd (omega arith)
split_piece (x ∷ piece) more (y ∷ bytes) rest e h =
    let tails : piece ++ more ≡ bytes ++ rest = cc in
    let (bytes', e1, e2) = split_piece piece more bytes rest tails (omega arith) in
    let heads : x ≡ y = cc in (bytes', cc, e2)

cut_piece :
    (piece more bytes rest : Bytes)
    → piece ++ more ≡ bytes ++ rest
    → length bytes < length piece
    → (l : ℕ) × (ls : Bytes) × (piece ≡ bytes ++ l ∷ ls) × (rest ≡ (l ∷ ls) ++ more)
cut_piece piece more bytes rest e h =
    cut_piece_of_split (split_piece bytes rest piece more (sym e) (omega arith)) h
  where
    cut_piece_of_split :
        (s : (left : Bytes) × (piece ≡ bytes ++ left) × (rest ≡ left ++ more))
        → length bytes < length piece
        → (l : ℕ) × (ls : Bytes) × (piece ≡ bytes ++ l ∷ ls) × (rest ≡ (l ∷ ls) ++ more)
    cut_piece_of_split ([], e1, e2) h =
        absurd (omega (arith, h, ap length e1, length-append bytes []))
    cut_piece_of_split (l ∷ ls, e1, e2) h = (l, ls, e1, e2)

le_or_lt : (a b : ℕ) → (a ≤ b) ⊎ (b < a)
le_or_lt a b = elim (Bool-cases (leb a b)) [
  | inl h ↦ inl (ground arith)
  | inr h ↦ inr (ground arith)
]

-- A piece that is not longer than what is left to read.
short_piece :
    (n b : ℕ) (bs taken left : Bytes) (arrivals : List Arrival) (bytes rest : Bytes)
    → taken ≡ b ∷ bs
    → left ≡ []
    → Splits arrivals bytes rest (read_loop (n - length (b ∷ bs)) 0 arrivals)
    → Splits
        (arrived b bs ∷ arrivals)
        ((b ∷ bs) ++ bytes)
        rest
        (after_recv taken left arrivals (read_loop (n - length taken) 0 arrivals))
short_piece n b bs taken left arrivals bytes rest t l s = record {
  after = s.after;
  run = rw (t, l) (ap (after_bytes (b ∷ bs)) s.run);
  left = s.left;
  flowing = s.flowing;
  fewer = s.fewer;
}

-- A longer one, which stays in part.
long_piece :
    (bytes taken left : Bytes) (l : ℕ) (ls : Bytes) (b : ℕ) (bs : Bytes) (arrivals : List Arrival)
    (rest : Bytes) (next : ReadOutcome × List Arrival)
    → taken ≡ bytes
    → left ≡ l ∷ ls
    → rest ≡ (l ∷ ls) ++ stream arrivals
    → IsFlowing arrivals
    → Splits (arrived b bs ∷ arrivals) bytes rest (after_recv taken left arrivals next)
long_piece bytes taken left l ls b bs arrivals rest next t e f h = record {
  after = arrived l ls ∷ arrivals;
  run = rw (t, e) refl;
  left = sym f;
  flowing = h;
  fewer = omega arith;
}

-- One call of recv that gives bytes.
arrived-Splits :
    (b : ℕ) (bs bytes rest : Bytes) (arrivals : List Arrival)
    → IsFlowing arrivals
    → (b ∷ bs) ++ stream arrivals ≡ bytes ++ rest
    → ((bytes' : Bytes)
        → stream arrivals ≡ bytes' ++ rest
        → Splits arrivals bytes' rest (read_loop (length bytes') 0 arrivals))
    → Splits (arrived b bs ∷ arrivals) bytes rest (
        after_recv
          (take (length bytes) (b ∷ bs))
          (drop (length bytes) (b ∷ bs))
          arrivals
          (read_loop (length bytes - length (take (length bytes) (b ∷ bs))) 0 arrivals))
arrived-Splits b bs bytes rest arrivals f e again =
    elim (le_or_lt (length (b ∷ bs)) (length bytes)) [
      | inl short ↦
          let (bytes', e1, e2) = split_piece (b ∷ bs) (stream arrivals) bytes rest e short in
          let n : length bytes' ≡ length bytes - length (b ∷ bs) =
            omega (arith, ap length e1, length-append (b ∷ bs) bytes') in
          subst
            (λ m. Splits (arrived b bs ∷ arrivals) m rest (
              after_recv (take (length bytes) (b ∷ bs)) (drop (length bytes) (b ∷ bs)) arrivals
                (read_loop (length bytes - length (take (length bytes) (b ∷ bs))) 0 arrivals)))
            (sym e1)
            (short_piece (length bytes) b bs (take (length bytes) (b ∷ bs))
              (drop (length bytes) (b ∷ bs)) arrivals bytes' rest
              (take_all (length bytes) (b ∷ bs) short) (drop_all (length bytes) (b ∷ bs) short)
              (subst (λ k. Splits arrivals bytes' rest (read_loop k 0 arrivals)) n
                (again bytes' e2)))
      | inr long ↦
          let (l, ls, e1, e2) = cut_piece (b ∷ bs) (stream arrivals) bytes rest e long in
          long_piece bytes (take (length bytes) (b ∷ bs)) (drop (length bytes) (b ∷ bs)) l ls b bs
            arrivals rest
            (read_loop (length bytes - length (take (length bytes) (b ∷ bs))) 0 arrivals)
            (ap (take (length bytes)) e1 ∙ take-length-append bytes (l ∷ ls) (length bytes) refl)
            (ap (drop (length bytes)) e1 ∙ drop-length-append bytes (l ∷ ls) (length bytes) refl) e2
            f
    ]

read_loop-Splits :
    (retry_count : ℕ) (arrivals : List Arrival) (bytes rest : Bytes)
    → IsFlowing arrivals
    → retry_count + waits arrivals ≤ max_retries
    → stream arrivals ≡ bytes ++ rest
    → Splits arrivals bytes rest (read_loop (length bytes) retry_count arrivals)
unfolding read_loop
read_loop-Splits r arrivals [] rest f h e = record {
  after = arrivals;
  run = refl;
  left = e;
  flowing = f;
  fewer = omega arith;
}
read_loop-Splits r [] (x ∷ bytes) rest f h e = cc
read_loop-Splits r (ended ∷ arrivals) (x ∷ bytes) rest f h e = absurd f
read_loop-Splits r (recv_failed n ∷ arrivals) (x ∷ bytes) rest f h e = absurd f
read_loop-Splits r (interrupted ∷ arrivals) (x ∷ bytes) rest f h e =
    let s = read_loop-Splits r arrivals (x ∷ bytes) rest f h e in
    record { after = s.after; run = s.run; left = s.left; flowing = s.flowing; fewer = s.fewer }
read_loop-Splits r (nothing_yet ∷ arrivals) (x ∷ bytes) rest f h e =
    let s = read_loop-Splits (r + 1) arrivals (x ∷ bytes) rest f (omega arith) e in
    let early : ltb max_retries (r + 1) ≡ false = ground arith in
    record {
      after = s.after;
      run = rw early s.run;
      left = s.left;
      flowing = s.flowing;
      fewer = omega (arith, s.fewer);
    }
read_loop-Splits r (arrived b bs ∷ arrivals) (x ∷ bytes) rest f h e =
    arrived-Splits b bs (x ∷ bytes) rest arrivals f e
      (λ bytes' e'. read_loop-Splits 0 arrivals bytes' rest f (omega arith) e')

read_exactly_lem :
    (n : ℕ) (arrivals : List Arrival) (bytes rest : Bytes) (c : TcpClient)
    → length bytes ≡ n
    → IsFlowing arrivals
    → waits arrivals ≤ max_retries
    → stream arrivals ≡ bytes ++ rest
    → (after : List Arrival) × (read_exactly n arrivals c ≡ ((some true, bytes, c), after))
      × (stream after ≡ rest)
      × IsFlowing after
      × (waits after ≤ waits arrivals)
unfolding read_exactly finish_read
read_exactly_lem n arrivals bytes rest c e f w h =
    let s = read_loop-Splits 0 arrivals bytes rest f (omega arith) h in
    (
      s.after,
      ap (λ k. (finish_read c (read_loop k 0 arrivals).0, (read_loop k 0 arrivals).1)) (sym e)
          ∙ ap (λ r. (finish_read c r.0, r.1)) s.run,
      s.left,
      s.flowing,
      s.fewer,
    )

receive_body_lem :
    (message old : Bytes) (arrivals : List Arrival) (c : TcpClient)
    → 0 < length message
    → length message ≤ max_message_size
    → receive_body old (length message) arrivals c ≡ read_exactly (length message) arrivals c
unfolding receive_body
receive_body_lem message old arrivals c h k = ground arith

-- When a frame that encode wrote for a message of 1 byte to 10 MB comes in, in whatever pieces and
-- with at most 5000 calls of recv that find nothing, receive ends and returns true with the
-- message, and leaves exactly what follows the frame.
pub receive-encode :
    (message old rest : Bytes) (arrivals : List Arrival) (c : TcpClient)
    → is_connected c.state ≡ true
    → 0 < length message
    → length message ≤ max_message_size
    → IsFlowing arrivals
    → waits arrivals ≤ max_retries
    → stream arrivals ≡ encode message ++ rest
    → (after : List Arrival) × (receive old arrivals c ≡ ((some true, message, c), after))
      × (stream after ≡ rest)
unfolding receive receive_prefix network_to_host32
receive-encode message old rest arrivals c on h k f w e =
    let n = length message in
    let (middle, run, at, flowing, fewer) =
      read_exactly_lem 4 arrivals (header n) (message ++ rest) c (length-header n) f w (
        e
        ∙ ap (λ bs. bs ++ rest) (encode_lem message h (omega arith))
        ∙ append_assoc (header n) message rest) in
    let (after, run', at', _, _) =
      read_exactly_lem n middle message rest c refl flowing (omega arith) at in
    (
      after,
      rw (on, run, swap_bytes-load 4 n (omega arith))
          (receive_body_lem message old middle c h k ∙ run'),
      at',
    )
