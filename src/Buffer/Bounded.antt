-- ===== src/Buffer/Bounded.antt =====
-- How long the storage of a Buffer becomes when bytes are read from a descriptor.
use my_mprpc.Prelude.{
  ℕ, ◌+◌, ◌-◌, ◌≤◌, ◌<◌, ◌≡◌, refl, ap, inl, inr, Bytes, arith, length, take, drop, length-write,
  length-take, length-drop, length-append, leb, ltb, Bool-cases, ltb→lt, size_add, max_vector_size,
}
use my_mprpc.Prelude.Result.{Result, ok, err, ◌>>=◌}
use my_mprpc.Buffer.{
  Buffer, BufferError, prepend_size, max_buffer_size, writable_bytes, prependable_bytes, write,
  move_to_front, grow, make_space, ensure_writable_bytes, got, read_from_fd, has_written, append,
  retrieve, retrieve_all, retrieve_as_vector, clamp, readable_bytes,
}
use my_mprpc.Buffer.Invariant.{IsValid, contents, writable_bytes_lem, length-contents}
use my_mprpc.Buffer.Growth.{
  Room, Moved, write_ok, move_to_front-Moved, resize-contents, ensure_writable_bytes-Room,
}
use my_mprpc.Buffer.Append.{filled_up, filled_up-IsValid}

-- The storage of the result has at most `k` bytes.
abbrev pub Within : ℕ → Result BufferError Buffer → Type 0
Within k (ok b) = length b.buffer ≤ k
Within k (err e) = Unit

module _ (k : ℕ) where
  Moved-Within :
      (b : Buffer) (r : Result BufferError Buffer) → length b.buffer ≤ k → Moved b r → Within k r
  Moved-Within b (ok b') h (valid, same, at, size) = omega (arith, size)
  Moved-Within b (err e) h m = tt

  grow-Within :
      (len : ℕ) {b : Buffer}
      → IsValid b
      → b.writer_index + len ≤ max_vector_size
      → prepend_size ≤ b.writer_index + len
      → b.writer_index + len ≤ k
      → Within k (grow len b)
  unfolding grow
  grow-Within len {b} v small low h =
      let sum : size_add b.writer_index len ≡ b.writer_index + len = omega arith in
      let (_, _, _, size) = resize-contents (b.writer_index + len) b (omega arith) v low small in
      rw sum (elim (Bool-cases (ltb max_buffer_size (b.writer_index + len))) [
        | inl over ↦ rw over tt
        | inr under ↦ rw under (omega (arith, size))
      ])

  -- The storage grows only if it has no room for the contents, the new bytes and the reserve.
  make_space-Within :
      (len : ℕ) {b : Buffer}
      → IsValid b
      → len + len + prepend_size ≤ max_buffer_size
      → length b.buffer ≤ k
      → k ≤ max_buffer_size
      → length b.buffer < b.writer_index + len
      → length (contents b) + len + len + prepend_size ≤ k
      → Within k (make_space len b)
  unfolding make_space prependable_bytes
  make_space-Within len {b} v small h top few room =
      let free : size_add (writable_bytes b) b.reader_index
          ≡ length b.buffer - b.writer_index + b.reader_index =
        omega (arith, writable_bytes_lem v, v.ordered, v.within, v.fits) in
      let need : size_add len prepend_size ≡ len + prepend_size = omega arith in
      let held = length-contents v in
      rw (free, need)
        (elim (Bool-cases
          (ltb (length b.buffer - b.writer_index + b.reader_index) (len + prepend_size))) [
            | inl grows ↦
                let less = ltb→lt _ _ grows in
                let fits : b.writer_index + len ≤ k =
                  omega (arith, less, held, v.within, v.ordered) in
                rw grows (grow-Within len v (omega arith) (omega (arith, v.reserved)) fits)
            | inr moves ↦ rw moves (Moved-Within b (move_to_front b) h (move_to_front-Moved v))
          ])

  ensure_writable_bytes-Within :
      (len : ℕ) {b : Buffer}
      → IsValid b
      → len + len + prepend_size ≤ max_buffer_size
      → length b.buffer ≤ k
      → k ≤ max_buffer_size
      → length (contents b) + len + len + prepend_size ≤ k
      → Within k (ensure_writable_bytes len b)
  unfolding ensure_writable_bytes
  ensure_writable_bytes-Within len {b} v small h top room =
      elim (Bool-cases (ltb (writable_bytes b) len)) [
        | inl few ↦ rw few (
            make_space-Within len v small h top
              (omega (arith, ltb→lt _ _ few, writable_bytes_lem v, v.within)) room)
        | inr enough ↦ rw enough h
      ]

  append_roomy-Within :
      (bytes : Bytes) (b : Buffer) (r : Result BufferError Buffer)
      → Room (length bytes) b r
      → Within k r
      → Within k (do
        roomy ← r
        written ← write roomy.writer_index bytes roomy
        ok (has_written (length bytes) written))
  unfolding has_written
  append_roomy-Within bytes b (ok roomy) (valid, same, room) h =
      let size = length-write roomy.writer_index bytes roomy.buffer room in
      rw (write_ok roomy.writer_index bytes roomy room) (omega (arith, size))
  append_roomy-Within bytes b (err e) _ h = tt

  append-Within :
      (bytes : Bytes) {b : Buffer}
      → IsValid b
      → length bytes + length bytes + prepend_size ≤ max_buffer_size
      → length b.buffer ≤ k
      → k ≤ max_buffer_size
      → length (contents b) + length bytes + length bytes + prepend_size ≤ k
      → Within k (append bytes b)
  unfolding append
  append-Within bytes {b} v small h top room =
      append_roomy-Within bytes b (ensure_writable_bytes (length bytes) b)
        (ensure_writable_bytes-Room (length bytes) v (omega arith))
        (ensure_writable_bytes-Within (length bytes) v small h top room)

  fill_full-Within :
      (bytes : Bytes) (n : ℕ) {b : Buffer}
      → IsValid b
      → n ≡ length b.buffer - b.writer_index
      → n < length bytes
      → length b.buffer ≤ k
      → k ≤ max_buffer_size
      → length (contents b) + length bytes + length bytes + prepend_size ≤ k
      → Within k (do
        filled ← write b.writer_index (take n bytes) b
        append (drop n bytes) (record filled { writer_index = length b.buffer }))
  fill_full-Within bytes n {b} v e over h top room =
      let (fits, valid, grown, size) = filled_up-IsValid bytes n v e over in
      let more = length-drop n bytes in
      let held : length (contents (filled_up n bytes b (length b.buffer)))
          ≡ length (contents b) + n =
        omega (
          arith,
          ap length grown,
          length-append (contents b) (take n bytes),
          length-take n bytes,
          over,
        ) in
      rw (write_ok b.writer_index (take n bytes) b fits) (
        append-Within (drop n bytes) valid (omega (arith, more)) (omega (arith, size)) top
          (omega (arith, held, more)))

  -- A read makes the storage no longer than `k` bytes, unless the contents, twice what is read and
  -- the reserved space are more.
  pub read_from_fd-Within :
      (bytes : Bytes) {b : Buffer}
      → IsValid b
      → length b.buffer ≤ k
      → k ≤ max_buffer_size
      → length (contents b) + length bytes + length bytes + prepend_size ≤ k
      → Within k (read_from_fd (got bytes) b)
  unfolding read_from_fd
  read_from_fd-Within bytes {b} v h top room =
      let free = writable_bytes_lem v in
      elim (Bool-cases (leb (length bytes) (writable_bytes b))) [
        | inl fits ↦
            let le : b.writer_index + length bytes ≤ length b.buffer =
              ground (arith, fits, free, v.within) in
            let size = length-write b.writer_index bytes b.buffer le in
            rw (fits, write_ok b.writer_index bytes b le) (omega (arith, size))
        | inr over ↦
            rw over
              (fill_full-Within bytes (writable_bytes b) v free (ground (arith, over)) h top room)
      ]

pub retrieve-buffer : (n : ℕ) (b : Buffer) → (retrieve n b).buffer ≡ b.buffer
unfolding retrieve retrieve_all
retrieve-buffer n b = elim (Bool-cases (ltb n (readable_bytes b))) [
  | inl h ↦ rw h refl
  | inr h ↦ rw h refl
]

pub retrieve_all-buffer : (b : Buffer) → (retrieve_all b).buffer ≡ b.buffer
unfolding retrieve_all
retrieve_all-buffer b = refl

pub retrieve_as_vector-buffer : (n : ℕ) (b : Buffer) → (retrieve_as_vector n b).1.buffer ≡ b.buffer
unfolding retrieve_as_vector
retrieve_as_vector-buffer n b = retrieve-buffer (clamp n b) b
