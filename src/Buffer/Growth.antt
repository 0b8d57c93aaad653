-- ===== src/Buffer/Growth.antt =====
-- Writing to a Buffer: making room, appending, prepending, and shrinking.
use my_mprpc.Prelude.{
  ℕ, ◌+◌, ◌-◌, ◌≤◌, ◌<◌, ◌≡◌, refl, ap, ◌∙◌, ◌⊎◌, inl, inr, ◌++◌, Bytes, arith, length, take, drop,
  replicate, slice_empty, length-write, slice-write_after, take-append_of_le, take-take_of_le,
  length-append, length-replicate, length-take, take_all, ltb, Bool-cases, ltb→lt, not_ltb→le,
  max_vector_size, size_add,
}
use my_mprpc.Prelude.Result.{Result, ok, err}
use my_mprpc.Buffer.{
  Buffer, BufferError, exceeds_maximum_limit, out_of_bounds, prepend_size, max_buffer_size,
  readable_bytes, writable_bytes, prependable_bytes, peek_bytes, write, resize, move_to_front, grow,
  make_space, ensure_writable_bytes,
}
use my_mprpc.Buffer.Invariant.{
  IsValid, contents, length-contents, readable_bytes_lem, writable_bytes_lem,
}
use my_mprpc.Buffer.Contents.{peek_bytes_lem}

pub write_ok :
    (i : ℕ) (d : Bytes) (b : Buffer)
    → i + length d ≤ length b.buffer
    → write i d b
      ≡ ok (record b { buffer = take i b.buffer ++ (d ++ drop (i + length d) b.buffer) })
unfolding write
write_ok i d b h = ground arith

pub write_fault :
    (i : ℕ) (d : Bytes) (b : Buffer)
    → length b.buffer < i + length d
    → write i d b ≡ err out_of_bounds
unfolding write
write_fault i d b h = ground arith

-- What moving the contents to the front gives; it writes past the end when the contents and the
-- reserved space together are longer than the storage.
abbrev pub Moved : Buffer → Result BufferError Buffer → Type 0
Moved b (ok moved) =
    IsValid moved
    × (contents moved ≡ contents b)
    × (moved.writer_index ≡ prepend_size + (b.writer_index - b.reader_index))
    × (length moved.buffer ≡ length b.buffer)
Moved b (err e) =
    (e ≡ out_of_bounds) × (length b.buffer < prepend_size + (b.writer_index - b.reader_index))

moved_to_front : Buffer → Bytes → Buffer
moved_to_front b d = record {
  buffer = take prepend_size b.buffer ++ (d ++ drop (prepend_size + length d) b.buffer);
  reader_index = prepend_size;
  writer_index = size_add prepend_size (length d);
}

moved_to_front-Moved :
    (b : Buffer) (d : Bytes)
    → IsValid b
    → d ≡ contents b
    → prepend_size + length d ≤ length b.buffer
    → Moved b (ok (moved_to_front b d))
unfolding moved_to_front
moved_to_front-Moved b d v e h =
    let size : length d ≡ b.writer_index - b.reader_index = ap length e ∙ length-contents v in
    let len = length-write prepend_size d b.buffer h in
    let w : size_add prepend_size (length d) ≡ prepend_size + length d = omega (arith, v.fits) in
    (
      record {
        ordered = omega (arith, w);
        within = omega (arith, w, len);
        reserved = omega (arith, len, v.reserved);
        fits = omega (arith, len, v.fits);
      },
      rw w (
          slice-write_after prepend_size prepend_size d b.buffer (omega arith) h
          ∙ ap (λ k. k ++ d) (slice_empty prepend_size prepend_size b.buffer (omega arith))
          ∙ e),
      omega (arith, w, size),
      len,
    )

move_to_front_lem :
    (b : Buffer) (d : Bytes)
    → readable_bytes b ≡ length d
    → peek_bytes (length d) b ≡ d
    → ((prepend_size + length d ≤ length b.buffer) × (move_to_front b ≡ ok (moved_to_front b d)))
      ⊎ ((length b.buffer < prepend_size + length d) × (move_to_front b ≡ err out_of_bounds))
unfolding move_to_front moved_to_front
move_to_front_lem b d e p = elim (Bool-cases (ltb (length b.buffer) (prepend_size + length d))) [
  | inl short ↦ let h = ltb→lt _ _ short in inr (h, rw (e, p, write_fault prepend_size d b h))
  | inr fits ↦ let h = not_ltb→le _ _ fits in inl (h, rw (e, p, write_ok prepend_size d b h))
]

peek-contents : {b : Buffer} → IsValid b → peek_bytes (length (contents b)) b ≡ contents b
peek-contents {b} v =
    let size = length-contents v in
    peek_bytes_lem (length (contents b)) v (omega (arith, size))
    ∙ take_all (length (contents b)) (contents b) (omega arith)

pub readable-contents : {b : Buffer} → IsValid b → readable_bytes b ≡ length (contents b)
readable-contents v = omega (arith, readable_bytes_lem v, length-contents v)

pub move_to_front-Moved : {b : Buffer} → IsValid b → Moved b (move_to_front b)
move_to_front-Moved {b} v =
    let size = length-contents v in
    elim (move_to_front_lem b (contents b) (readable-contents v) (peek-contents v)) [
      | inl (h, e) ↦ rw e (moved_to_front-Moved b (contents b) v refl h)
      | inr (h, e) ↦ rw e (refl, omega (arith, size))
    ]

pub resize-contents :
    (n : ℕ) (b : Buffer)
    → b.writer_index ≤ n
    → IsValid b
    → prepend_size ≤ n
    → n ≤ max_vector_size
    → IsValid (resize n b)
      × (contents (resize n b) ≡ contents b)
      × ((resize n b).writer_index ≡ b.writer_index)
      × (length (resize n b).buffer ≡ n)
unfolding resize
resize-contents n b h v l m =
    let len : length (take n b.buffer ++ replicate (n - length b.buffer) 0) ≡ n = omega (
      arith,
      length-append (take n b.buffer) (replicate (n - length b.buffer) 0),
      length-take n b.buffer,
      length-replicate {A = ℕ} (n - length b.buffer) 0,
    ) in
    (
      record {
        ordered = v.ordered;
        within = omega (arith, len);
        reserved = omega (arith, len);
        fits = omega (arith, len);
      },
      ap (drop b.reader_index) (
          take-append_of_le b.writer_index (take n b.buffer) (replicate (n - length b.buffer) 0)
            (omega (arith, length-take n b.buffer, v.within))
          ∙ take-take_of_le b.writer_index n b.buffer h),
      refl,
      len,
    )

-- Room for `len` more bytes with the same contents, or the one error and its reason.
abbrev pub Room : ℕ → Buffer → Result BufferError Buffer → Type 0
Room len b (ok roomy) =
    IsValid roomy × (contents roomy ≡ contents b) × (roomy.writer_index + len ≤ length roomy.buffer)
Room len b (err e) = (e ≡ exceeds_maximum_limit) × (max_buffer_size < b.writer_index + len)

grow-Room :
    (len : ℕ) {b : Buffer}
    → IsValid b
    → len + prepend_size ≤ max_vector_size
    → length b.buffer < b.writer_index + len
    → Room len b (grow len b)
unfolding grow
grow-Room len {b} v h short =
    let sum : size_add b.writer_index len ≡ b.writer_index + len =
      omega (arith, v.within, v.fits) in
    rw sum (elim (Bool-cases (ltb max_buffer_size (b.writer_index + len))) [
      | inl over ↦ rw over (refl, ltb→lt _ _ over)
      | inr under ↦
          let small = not_ltb→le max_buffer_size (b.writer_index + len) under in
          let (valid, same, at, size) =
            resize-contents (b.writer_index + len) b (omega arith) v (omega (arith, v.reserved))
              (omega arith) in
          rw under (valid, same, omega (arith, size, at))
    ])

make_space-Room :
    (len : ℕ) {b : Buffer}
    → IsValid b
    → len + prepend_size ≤ max_vector_size
    → length b.buffer < b.writer_index + len
    → Room len b (make_space len b)
unfolding make_space prependable_bytes
make_space-Room len {b} v h short =
    let room : size_add (writable_bytes b) b.reader_index
        ≡ length b.buffer - b.writer_index + b.reader_index =
      omega (arith, writable_bytes_lem v, v.ordered, v.within, v.fits) in
    let need : size_add len prepend_size ≡ len + prepend_size = omega arith in
    rw (room, need)
      (elim (Bool-cases
        (ltb (length b.buffer - b.writer_index + b.reader_index) (len + prepend_size))) [
          | inl grows ↦ rw grows (grow-Room len v h short)
          | inr moves ↦
              rw moves (moves-Room (move_to_front b) (not_ltb→le _ _ moves) (move_to_front-Moved v))
        ])
  where
    moves-Room :
        (r : Result BufferError Buffer)
        → len + prepend_size ≤ length b.buffer - b.writer_index + b.reader_index
        → Moved b r
        → Room len b r
    moves-Room (ok moved) enough (valid, same, at, size) =
        (valid, same, omega (arith, at, size, v.ordered, v.within))
    moves-Room (err e) enough (_, over) = absurd (omega (arith, over, v.ordered, v.within))

pub ensure_writable_bytes-Room :
    (len : ℕ) {b : Buffer}
    → IsValid b
    → len + prepend_size ≤ max_vector_size
    → Room len b (ensure_writable_bytes len b)
unfolding ensure_writable_bytes
ensure_writable_bytes-Room len {b} v h = elim (Bool-cases (ltb (writable_bytes b) len)) [
  | inl few ↦
      rw few
        (make_space-Room len v h (omega (arith, ltb→lt _ _ few, writable_bytes_lem v, v.within)))
  | inr enough ↦
      rw enough (v, refl, omega (arith, not_ltb→le _ _ enough, writable_bytes_lem v, v.within))
]
