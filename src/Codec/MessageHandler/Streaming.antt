-- ===== src/Codec/MessageHandler/Streaming.antt =====
-- The messages that come out do not depend on how the bytes are cut into reads.
use mathlib.Core.List.{flatten}
use mathlib.Core.Option
use my_mprpc.Prelude.{
  ℕ, zero, suc, ◌+◌, ◌≤◌, ◌<◌, ◌≡◌, refl, sym, ap, ◌∙◌, subst, ◌⊎◌, inl, inr, Bool, true, false,
  Option, some, List, [], ◌∷◌, ◌++◌, append-nil, append_assoc, arith, Bytes, length, take, drop,
  All, length-append, length-drop, drop-append_of_le, take-append_of_le,
}
use my_mprpc.Codec.FrameCodec.{decode, encode, max_message_length}
use my_mprpc.Codec.FrameCodec.RoundTrip.{
  announced, decode_found, decode_none, Decoded-cases, decode-encode,
}
use my_mprpc.Codec.MessageHandler.{
  MessageHandler, Handled, decode_loop, call_back, receive, handle_data, feed,
}

-- A buffer holds these messages as frames, and then a rest that decode takes nothing from.
pub data Frames : Bytes → List Bytes → Bytes → Type 0 where
  stuck : {buffer : Bytes} → decode buffer [] ≡ (false, [], buffer) → Frames buffer [] buffer
  frame :
      {buffer message rest final : Bytes} {messages : List Bytes}
      → decode buffer [] ≡ (true, message, rest)
      → Frames rest messages final
      → Frames buffer (message ∷ messages) final

-- The two results of decode, and what a success takes.
abbrev Outcome : Bytes → Type 0
Outcome buffer =
    (decode buffer [] ≡ (false, [], buffer))
    ⊎ ((message : Bytes) × (rest : Bytes) × (decode buffer [] ≡ (true, message, rest))
        × (length rest < length buffer)
        × ((more : Bytes) → decode (buffer ++ more) [] ≡ (true, message, rest ++ more)))

announced-append :
    (buffer more : Bytes) → 4 ≤ length buffer → announced (buffer ++ more) ≡ announced buffer
announced-append buffer more h = rw (take-append_of_le 4 buffer more h)

decode-append :
    (buffer more : Bytes)
    → announced buffer ≤ max_message_length
    → 4 + announced buffer ≤ length buffer
    → decode (buffer ++ more) [] ≡ (
      true,
      drop 4 (take (4 + announced buffer) buffer),
      drop (4 + announced buffer) buffer ++ more,
    )
decode-append buffer more small enough =
    decode_found (buffer ++ more) [] (omega (arith, e))
      (omega (arith, e, length-append buffer more))
    ∙ rw (
      e,
      take-append_of_le (4 + announced buffer) buffer more enough,
      drop-append_of_le (4 + announced buffer) buffer more enough,
    )
  where
    e : announced (buffer ++ more) ≡ announced buffer
    e = announced-append buffer more (omega arith)

decode-Outcome : (buffer : Bytes) → Outcome buffer
decode-Outcome buffer = elim (Decoded-cases buffer) [
  | inl (small, enough) ↦ inr (
    drop 4 (take (4 + announced buffer) buffer),
    drop (4 + announced buffer) buffer,
    decode_found buffer [] small enough,
    omega (arith, length-drop (4 + announced buffer) buffer),
    λ more. decode-append buffer more small enough,
  )
  | inr bad ↦ inl (decode_none buffer [] bad)
]

-- With more fuel than bytes the loop ends, at the frames of its buffer.
decode_loop-Frames :
    (fuel : ℕ) (buffer : Bytes)
    → length buffer < fuel
    → (messages : List Bytes) × (final : Bytes) × (decode_loop fuel buffer ≡ some (messages, final))
      × Frames buffer messages final
unfolding decode_loop
decode_loop-Frames zero buffer h = absurd (omega arith)
decode_loop-Frames (suc fuel) buffer h = elim (decode-Outcome buffer) [
  | inl e ↦ ([], buffer, ground (arith, e), stuck e)
  | inr (message, rest, e, less, _) ↦
      let (messages, final, run, frames) = decode_loop-Frames fuel rest (omega arith) in
      (message ∷ messages, final, ground (arith, e, run), frame e frames)
]

Frames-stuck :
    {buffer final : Bytes} {messages : List Bytes}
    → Frames buffer messages final
    → decode final [] ≡ (false, [], final)
Frames-stuck (stuck e) = e
Frames-stuck (frame e frames) = Frames-stuck frames

-- Bytes that arrive later are decoded after what was decodable before.
Frames-append :
    {buffer rest final : Bytes} {messages later : List Bytes} (more : Bytes)
    → Frames buffer messages rest
    → Frames (rest ++ more) later final
    → Frames (buffer ++ more) (messages ++ later) final
Frames-append more (stuck e) g = g
Frames-append more (frame {buffer = b} {message = m} {rest = r} e f) g = elim (decode-Outcome b) [
  | inl e' ↦ cc
  | inr (m', r', e', _, append) ↦
      let taken : decode (b ++ more) [] ≡ (true, m, r ++ more) = cc (append more) in
      frame taken (Frames-append more f g)
]

Frames-unique :
    {buffer final final' : Bytes} {messages messages' : List Bytes}
    → Frames buffer messages final
    → Frames buffer messages' final'
    → (messages ≡ messages') × (final ≡ final')
Frames-unique (stuck e) (stuck e') = (refl, refl)
Frames-unique (stuck e) (frame e' g) = cc
Frames-unique (frame e f) (stuck e') = cc
Frames-unique (frame {rest = r} e f) (frame {rest = r'} {final = w'} {messages = ms'} e' g) =
    let same : r' ≡ r = cc in
    let (p, q) = Frames-unique f (subst (λ k. Frames k ms' w') same g) in (cc, q)

stuck-Frames :
    (buffer : Bytes) → decode buffer [] ≡ (false, [], buffer) → Frames (buffer ++ []) [] buffer
stuck-Frames buffer e = rw (append-nil buffer) (stuck e)

receive-Frames :
    (h : MessageHandler) (buffer : Bytes)
    → (messages : List Bytes) × (final : Bytes) × (receive h buffer
        ≡ some (record {
          handler = record h { receive_buffer = final };
          delivered = call_back h.message_callback messages;
        }))
      × Frames buffer messages final
unfolding receive
receive-Frames h buffer =
    let (messages, final, run, frames) =
      decode_loop-Frames (suc (length buffer)) buffer (omega arith) in
    (messages, final, rw run, frames)

call_back-append :
    (set : Bool) (xs ys : List Bytes)
    → call_back set xs ++ call_back set ys ≡ call_back set (xs ++ ys)
unfolding call_back
call_back-append true xs ys = refl
call_back-append false xs ys = refl

-- The result of a handler that ends with the buffer `final` and has seen `messages`.
abbrev after : MessageHandler → List Bytes → Bytes → Option Handled
after h messages final = some (record {
  handler = record h { receive_buffer = final };
  delivered = call_back h.message_callback messages;
})

feed_step :
    (h : MessageHandler) (bytes : Bytes) (reads : List Bytes) (xs ys : List Bytes)
    (mid final : Bytes)
    → handle_data h bytes ≡ after h xs mid
    → feed (record h { receive_buffer = mid }) reads ≡ after h ys final
    → feed h (bytes ∷ reads) ≡ after h (xs ++ ys) final
unfolding feed Option.bind
feed_step h bytes reads xs ys mid final e g =
    rw (e, feed)
      (rw g (
        ap (λ ms. some (record { handler = record h { receive_buffer = final }; delivered = ms }))
          (call_back-append h.message_callback xs ys)))

-- Any sequence of reads is handled, and leaves the messages and the rest of all bytes together.
feed-Frames :
    (h : MessageHandler) (reads : List Bytes)
    → decode h.receive_buffer [] ≡ (false, [], h.receive_buffer)
    → (messages : List Bytes) × (final : Bytes) × (feed h reads ≡ after h messages final)
      × Frames (h.receive_buffer ++ flatten reads) messages final
unfolding feed flatten handle_data call_back
feed-Frames h [] e = ([], h.receive_buffer, ground arith, stuck-Frames h.receive_buffer e)
feed-Frames h ([] ∷ reads) e =
    let (messages, final, run, frames) = feed-Frames h reads e in
    (
      messages,
      final,
      feed_step h [] reads [] messages h.receive_buffer final (ground arith) run,
      frames,
    )
feed-Frames h ((b ∷ bytes) ∷ reads) e =
    let (xs, mid, got, front) = receive-Frames h (h.receive_buffer ++ (b ∷ bytes)) in
    let (ys, final, run, back) =
      feed-Frames (record h { receive_buffer = mid }) reads (Frames-stuck front) in
    (
      xs ++ ys,
      final,
      feed_step h (b ∷ bytes) reads xs ys mid final got run,
      subst (λ k. Frames k (xs ++ ys) final)
          (append_assoc h.receive_buffer (b ∷ bytes) (flatten reads))
          (Frames-append (flatten reads) front back),
    )

-- The bytes that a sender writes for these messages.
abbrev pub wire : List Bytes → Bytes
wire [] = []
wire (m ∷ messages) = encode m ++ wire messages

abbrev pub IsMessage : Bytes → Type 0
IsMessage m = (0 < length m) × (length m ≤ max_message_length)

wire-Frames :
    (messages : List Bytes) (rest : Bytes)
    → All IsMessage messages
    → decode rest [] ≡ (false, [], rest)
    → Frames (wire messages ++ rest) messages rest
wire-Frames [] rest h e = stuck e
wire-Frames (m ∷ messages) rest ((low, high), h) e =
    frame
      (ap (λ k. decode k []) (append_assoc (encode m) (wire messages) rest)
        ∙ decode-encode m (wire messages ++ rest) [] low high)
      (wire-Frames messages rest h e)

decode-nil : decode [] [] ≡ (false, [], [])
decode-nil = decode_none [] [] (inl (omega arith))

-- However the written frames of some messages, and the start of a next frame, are cut into reads,
-- a new handler calls its callback with exactly these messages in their order, and its buffer then
-- holds the start of the next frame. Each message has 1 byte to 100 MB, and decode takes nothing
-- from the start of the next frame.
pub feed-wire :
    (reads messages : List Bytes) (rest : Bytes)
    → All IsMessage messages
    → decode rest [] ≡ (false, [], rest)
    → flatten reads ≡ wire messages ++ rest
    → feed (record { receive_buffer = []; message_callback = true }) reads
      ≡ some (record {
        handler = record { receive_buffer = rest; message_callback = true };
        delivered = messages;
      })
unfolding call_back
feed-wire reads messages rest h e cut =
    let (ms, final, run, frames) =
      feed-Frames (record { receive_buffer = []; message_callback = true }) reads decode-nil in
    let (p, q) =
      Frames-unique (subst (λ k. Frames k ms final) cut frames) (wire-Frames messages rest h e) in
    rw (run, p, q)

-- Splitting the reads differently changes nothing: the outcome depends on all bytes together.
pub feed-flatten :
    (reads reads' : List Bytes) (callback : Bool)
    → flatten reads ≡ flatten reads'
    → feed (record { receive_buffer = []; message_callback = callback }) reads
      ≡ feed (record { receive_buffer = []; message_callback = callback }) reads'
feed-flatten reads reads' callback cut =
    let (ms, final, run, frames) =
      feed-Frames (record { receive_buffer = []; message_callback = callback }) reads decode-nil in
    let (ms', final', run', frames') =
      feed-Frames (record { receive_buffer = []; message_callback = callback }) reads' decode-nil in
    let (p, q) = Frames-unique (subst (λ k. Frames k ms final) cut frames) frames' in
    run ∙ (rw (p, q) (sym run'))
