-- ===== src/Transport/Server/Stream.antt =====
-- The frames of a stream of bytes, as decodeFrame of src/transport/tcp_connection.cpp takes them off.
use my_mprpc.Prelude.{
  ℕ, ◌+◌, ◌≤◌, ◌<◌, ◌≡◌, refl, sym, ap, ◌∙◌, subst, ◌⊎◌, inl, inr, true, false, ◌||◌, List, [], ◌∷◌,
  ◌++◌, append_assoc, arith, Bytes, length, take, drop, ltb, ◌==◌, All, length-append, length-drop,
  take-length-append, drop-length-append, drop-append_of_le, take-append_of_le, Bool-cases, ltb→lt,
  not_ltb→le,
}
use my_mprpc.Codec.FrameCodec.{encode}
use my_mprpc.Codec.FrameCodec.RoundTrip.{
  announced, announced-header, header, length-header, encode_lem, drop-frame,
}
use my_mprpc.Codec.MessageHandler.Streaming.{wire}
use my_mprpc.Transport.Connection.{max_frame_size}
use my_mprpc.Transport.Connection.Frames.{wait, discard, frame, next_frame}

-- The loop over decodeFrame on these bytes delivers the messages and leaves the last bytes.
pub data Split : Bytes → List Bytes → Bytes → Type 0 where
  waits : {bytes : Bytes} → next_frame bytes ≡ wait → Split bytes [] bytes
  discards : {bytes : Bytes} → next_frame bytes ≡ discard → Split bytes [] []
  takes :
      {bytes m rest final : Bytes} {messages : List Bytes}
      → next_frame bytes ≡ frame m rest
      → Split rest messages final
      → Split bytes (m ∷ messages) final

-- The message at the front of a frame, and what is behind it.
abbrev pub front : Bytes → Bytes
front bytes = take (announced bytes) (drop 4 bytes)

abbrev pub behind : Bytes → Bytes
behind bytes = drop (4 + announced bytes) bytes

-- The three cases of the specification, and what is decided whatever arrives later.
abbrev pub Cases : Bytes → Type 0
Cases bytes =
    ((next_frame bytes ≡ wait) × (length bytes < 4 + max_frame_size))
    ⊎ (((next_frame bytes ≡ discard) × ((more : Bytes) → next_frame (bytes ++ more) ≡ discard))
        ⊎ ((next_frame bytes ≡ frame (front bytes) (behind bytes))
            × (4 + announced bytes ≤ length bytes)
            × ((more : Bytes)
                → next_frame (bytes ++ more) ≡ frame (front bytes) (behind bytes ++ more))))

longer : (bytes more : Bytes) (n : ℕ) → n ≤ length bytes → ltb (length (bytes ++ more)) n ≡ false
longer bytes more n h = ground (arith, length-append bytes more)

discard-append :
    (bytes more : Bytes)
    → 4 ≤ length bytes
    → (announced bytes == 0 || ltb max_frame_size (announced bytes)) ≡ true
    → next_frame (bytes ++ more) ≡ discard
unfolding next_frame
discard-append bytes more h bad =
    rw (longer bytes more 4 h, take-append_of_le 4 bytes more h, bad) refl

frame-append :
    (bytes more : Bytes)
    → 4 ≤ length bytes
    → (announced bytes == 0 || ltb max_frame_size (announced bytes)) ≡ false
    → 4 + announced bytes ≤ length bytes
    → next_frame (bytes ++ more) ≡ frame (front bytes) (behind bytes ++ more)
unfolding next_frame
frame-append bytes more h good enough =
    rw
      (
        longer bytes more 4 h,
        take-append_of_le 4 bytes more h,
        good,
        longer bytes more (4 + announced bytes) enough,
        drop-append_of_le 4 bytes more h,
        take-append_of_le (announced bytes) (drop 4 bytes) more
            (omega (arith, length-drop 4 bytes)),
        drop-append_of_le (4 + announced bytes) bytes more enough,
      )
      refl

pub next_frame-Cases : (bytes : Bytes) → Cases bytes
unfolding next_frame
next_frame-Cases bytes = elim (Bool-cases (ltb (length bytes) 4)) [
  | inl short ↦ rw short (inl (refl, omega (arith, ltb→lt _ _ short)))
  | inr long ↦
      let four = not_ltb→le (length bytes) 4 long in
      elim (Bool-cases (announced bytes == 0 || ltb max_frame_size (announced bytes))) [
        | inl bad ↦ inr (inl (rw (long, bad) refl, λ more. discard-append bytes more four bad))
        | inr good ↦ elim (Bool-cases (ltb (length bytes) (4 + announced bytes))) [
          | inl few ↦ rw (long, good, few) (inl (refl, ground (arith, good, few)))
          | inr enough ↦
              let whole = not_ltb→le (length bytes) (4 + announced bytes) enough in
              inr (
                inr (
                  rw (long, good, enough) refl,
                  whole,
                  λ more. frame-append bytes more four good whole,
                ))
        ]
      ]
]

-- A message that the server takes.
abbrev pub IsFrame : Bytes → Type 0
IsFrame m = (0 < length m) × (length m ≤ max_frame_size)

pub next_frame-encode : (m rest : Bytes) → IsFrame m → next_frame (encode m ++ rest) ≡ frame m rest
unfolding next_frame
next_frame-encode m rest (low, high) =
    let n = length m in
    let four = length-header n in
    let e = announced-header n (m ++ rest) (omega arith) in
    let size : length (header n ++ (m ++ rest)) ≡ 4 + n + length rest =
      omega (arith, length-append (header n) (m ++ rest), length-append m rest, four) in
    let long : ltb (length (header n ++ (m ++ rest))) 4 ≡ false = ground (arith, size) in
    let good : (n == 0 || ltb max_frame_size n) ≡ false = ground arith in
    let whole : ltb (length (header n ++ (m ++ rest))) (4 + n) ≡ false = ground (arith, size) in
    rw
      (
        encode_lem m low (omega arith),
        append_assoc (header n) m rest,
        long,
        e,
        good,
        whole,
        drop-length-append (header n) (m ++ rest) 4 (sym four),
        take-length-append m rest n refl,
        drop-frame (header n) m rest (4 + n) (omega (arith, length-append (header n) m, four)),
      )
      refl

-- What has come in of a stream of frames: whole frames, and bytes that wait for the others.
abbrev pub Cut : Bytes → Bytes → Bytes → List Bytes → Type 0
Cut bytes more rest messages =
    (xs : List Bytes) × (ys : List Bytes) × (mid : Bytes) × (messages ≡ xs ++ ys)
    × Split bytes xs mid
    × (next_frame mid ≡ wait)
    × (mid ++ more ≡ wire ys ++ rest)

cons-Cut :
    (bytes m r more rest : Bytes) (messages : List Bytes)
    → next_frame bytes ≡ frame m r
    → Cut r more rest messages
    → Cut bytes more rest (m ∷ messages)
cons-Cut bytes m r more rest messages e (xs, ys, mid, parts, split, stuck, left) =
    (m ∷ xs, ys, mid, ap (◌∷◌ m) parts, takes e split, stuck, left)

pub wire-Cut :
    (messages : List Bytes) (bytes more rest : Bytes)
    → All IsFrame messages
    → next_frame rest ≡ wait
    → bytes ++ more ≡ wire messages ++ rest
    → Cut bytes more rest messages
wire-Cut [] bytes more rest h w e = elim (next_frame-Cases bytes) [
  | inl (stuck, _) ↦ ([], [], bytes, refl, waits stuck, stuck, e)
  | inr (inl (_, later)) ↦ absurd (cc (later more, ap next_frame e))
  | inr (inr (_, _, later)) ↦ absurd (cc (later more, ap next_frame e))
]
wire-Cut (m ∷ messages) bytes more rest (f, h) w e =
    let first : next_frame (bytes ++ more) ≡ frame m (wire messages ++ rest) =
      ap next_frame (e ∙ append_assoc (encode m) (wire messages) rest)
      ∙ next_frame-encode m (wire messages ++ rest) f in
    elim (next_frame-Cases bytes) [
      | inl (stuck, _) ↦ ([], m ∷ messages, bytes, refl, waits stuck, stuck, e)
      | inr (inl (_, later)) ↦ absurd (cc (later more, first))
      | inr (inr (here, _, later)) ↦
          let same : front bytes ≡ m = cc (later more, first) in
          let left : behind bytes ++ more ≡ wire messages ++ rest = cc (later more, first) in
          cons-Cut bytes m (behind bytes) more rest messages
            (here ∙ ap (λ k. frame k (behind bytes)) same)
            (wire-Cut messages (behind bytes) more rest h w left)
    ]

pub next_frame-shorter :
    (bytes m rest : Bytes) → next_frame bytes ≡ frame m rest → length rest < length bytes
next_frame-shorter bytes m rest e = elim (next_frame-Cases bytes) [
  | inl (stuck, _) ↦ absurd (cc (stuck, e))
  | inr (inl (bad, _)) ↦ absurd (cc (bad, e))
  | inr (inr (here, whole, _)) ↦
      let same : behind bytes ≡ rest = cc (here, e) in
      omega (arith, ap length same, length-drop (4 + announced bytes) bytes)
]

pub Split-unique :
    {bytes final final' : Bytes} {messages messages' : List Bytes}
    → Split bytes messages final
    → Split bytes messages' final'
    → (messages ≡ messages') × (final ≡ final')
Split-unique (waits e) (waits e') = (refl, refl)
Split-unique (waits e) (discards e') = absurd (cc (e, e'))
Split-unique (waits e) (takes e' g) = absurd (cc (e, e'))
Split-unique (discards e) (waits e') = absurd (cc (e, e'))
Split-unique (discards e) (discards e') = (refl, refl)
Split-unique (discards e) (takes e' g) = absurd (cc (e, e'))
Split-unique (takes e f) (waits e') = absurd (cc (e, e'))
Split-unique (takes e f) (discards e') = absurd (cc (e, e'))
Split-unique (takes {rest = r} e f) (takes {rest = r'} {final = w'} {messages = ms'} e' g) =
    let same : r' ≡ r = cc (e, e') in
    let (p, q) = Split-unique f (subst (λ k. Split k ms' w') same g) in (cc (p, e, e'), q)
