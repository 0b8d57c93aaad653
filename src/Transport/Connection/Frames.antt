-- ===== src/Transport/Connection/Frames.antt =====
-- decodeFrame on the bytes that a buffer holds.
use my_mprpc.Prelude.{
  ℕ, ◌+◌, ◌%◌, ◌^◌, ◌≡◌, refl, ap, ◌∙◌, inl, inr, Bool, true, false, ◌||◌, [], arith, Bytes, length,
  take, drop, ltb, ◌==◌, if◌then◌else◌, Bool-cases, not_ltb→le, drop-drop,
}
use my_mprpc.Prelude.Result.{Result, ok, err, ◌>>=◌}
use my_mprpc.Buffer.{
  Buffer, BufferError, retrieve, retrieve_as_vector, network_to_host, peek_int, readable_bytes,
}
use my_mprpc.Buffer.Bounded.{retrieve-buffer, retrieve_all-buffer, retrieve_as_vector-buffer}
use my_mprpc.Buffer.Invariant.{IsValid, contents, retrieve-IsValid, retrieve_all-IsValid}
use my_mprpc.Buffer.Contents.{contents-retrieve, retrieve_as_vector_lem}
use my_mprpc.Buffer.Integers.{peek_int_lem}
use my_mprpc.Buffer.Growth.{readable-contents}
use my_mprpc.Codec.FrameCodec.{network_to_host32}
use my_mprpc.Codec.FrameCodec.RoundTrip.{announced}
use my_mprpc.Transport.Connection.{decode_buffer, decode_length, max_frame_size}

-- The specification on bytes: (found, frame, what is left).
pub data Step : Type 0 where
  -- too few bytes yet
  wait : Step
  -- a length of 0 or above 10 MB: everything received is thrown away
  discard : Step
  -- a frame, and the bytes behind it
  frame : Bytes → Bytes → Step

unfoldable pub next_frame : Bytes → Step
next_frame bytes =
    if ltb (length bytes) 4
    then wait
    else if announced bytes == 0 || ltb max_frame_size (announced bytes)
    then discard
    else if ltb (length bytes) (4 + announced bytes)
    then wait
    else frame (take (announced bytes) (drop 4 bytes)) (drop (4 + announced bytes) bytes)

-- That a result of decodeFrame is what the step says.
abbrev pub Follows : Bytes → Buffer → Step → Result BufferError (Bool × Bytes × Buffer) → Type 0
Follows old b wait r = r ≡ ok (false, old, b)
Follows old b discard (ok (found, data', b')) =
    (found ≡ false) × (data' ≡ old) × IsValid b' × (contents b' ≡ [])
Follows old b (frame message rest) (ok (found, data', b')) =
    (found ≡ true) × (data' ≡ message) × IsValid b' × (contents b' ≡ rest)
Follows old b _ (err e) = ⊥

taken :
    (old : Bytes) (n : ℕ) {b : Buffer}
    → IsValid b
    → let (found, rest) = retrieve_as_vector n (retrieve 4 b) in
      Follows old b
        (frame (take n (drop 4 (contents b))) (drop (4 + n) (contents b)))
        (ok (true, found, rest))
taken old n {b} v =
    let (got, left, valid, _) = retrieve_as_vector_lem n (retrieve-IsValid 4 v) in
    let front = contents-retrieve 4 v in
    (refl, got ∙ ap (take n) front, valid, left ∙ ap (drop n) front ∙ drop-drop n 4 (contents b))

decode_length-Follows :
    (old : Bytes) (n : ℕ) {b : Buffer}
    → IsValid b
    → Follows old b
        (if n == 0 || ltb max_frame_size n
          then discard
          else if ltb (length (contents b)) (4 + n)
          then wait
          else frame (take n (drop 4 (contents b))) (drop (4 + n) (contents b)))
        (ok (decode_length n old b))
unfolding decode_length
decode_length-Follows old n {b} v = elim (Bool-cases (n == 0 || ltb max_frame_size n)) [
  | inl bad ↦ rw bad (let (valid, empty) = retrieve_all-IsValid v in (refl, refl, valid, empty))
  | inr good ↦
      let sum : (n + 4) % 2 ^ 32 ≡ 4 + n = ground (arith, good) in
      rw (good, sum, readable-contents v)
        (elim (Bool-cases (ltb (length (contents b)) (4 + n))) [
          | inl short ↦ rw short refl
          | inr enough ↦ rw enough (taken old n v)
        ])
]

-- On a valid input buffer decodeFrame never throws, and does what the step on the bytes of the
-- buffer says: it waits and changes nothing while a frame is incomplete, throws everything away on a
-- length of 0 or above 10 MB, or else splits off one frame; the buffer stays valid.
pub decode_buffer-Follows :
    (old : Bytes) {b : Buffer}
    → IsValid b
    → Follows old b (next_frame (contents b)) (decode_buffer old b)
unfolding decode_buffer next_frame network_to_host network_to_host32
decode_buffer-Follows old {b} v =
    rw (readable-contents v) (elim (Bool-cases (ltb (length (contents b)) 4)) [
      | inl short ↦ rw short refl
      | inr enough ↦
          rw (enough, peek_int_lem 4 v (not_ltb→le _ _ enough))
            (decode_length-Follows old (announced (contents b)) v)
    ])

-- decodeFrame moves the indices only.
abbrev pub Kept : Buffer → Result BufferError (Bool × Bytes × Buffer) → Type 0
Kept b (ok (found, data', b')) = b'.buffer ≡ b.buffer
Kept b (err e) = Unit

decode_length-Kept : (n : ℕ) (old : Bytes) (b : Buffer) → Kept b (ok (decode_length n old b))
unfolding decode_length
decode_length-Kept n old b = elim (Bool-cases (n == 0 || ltb max_frame_size n)) [
  | inl bad ↦ rw bad (retrieve_all-buffer b)
  | inr good ↦ elim (Bool-cases (ltb (readable_bytes b) ((n + 4) % 2 ^ 32))) [
    | inl short ↦ rw (good, short) refl
    | inr enough ↦
        rw (good, enough) (retrieve_as_vector-buffer n (retrieve 4 b) ∙ retrieve-buffer 4 b)
  ]
]

pub decode_buffer-Kept : (old : Bytes) (b : Buffer) → Kept b (decode_buffer old b)
unfolding decode_buffer
decode_buffer-Kept old b = elim (Bool-cases (ltb (readable_bytes b) 4)) [
  | inl short ↦ rw short refl
  | inr enough ↦ rw enough (peeked (peek_int 4 b))
]
  where
    peeked :
        (r : Result BufferError ℕ)
        → Kept b (do length_host ← r; ok (decode_length length_host old b))
    peeked (ok n) = decode_length-Kept n old b
    peeked (err e) = tt
