-- ===== src/Buffer/Append.antt =====
-- Writing at the end of a Buffer: append, appendInt and readFromFd.
use my_mprpc.Prelude.{
  ℕ, ◌+◌, ◌-◌, ◌≤◌, ◌<◌, ◌≡◌, refl, ap, ◌∙◌, subst, inl, inr, ◌++◌, Bytes, arith, length, take,
  drop, length-write, slice-write_after, length-take, length-drop, leb, Bool-cases, max_vector_size,
  size_add, append_assoc, take-append-drop,
}
use my_mprpc.Prelude.Result.{Result, ok, err, ◌>>=◌}
use my_mprpc.Buffer.{
  Buffer, BufferError, exceeds_maximum_limit, prepend_size, max_buffer_size, writable_bytes, write,
  ensure_writable_bytes, ReadOutcome, failed, got, offered, read_from_fd, has_written, append,
}
use my_mprpc.Buffer.Invariant.{IsValid, contents, writable_bytes_lem}
use my_mprpc.Buffer.Growth.{Room, write_ok, ensure_writable_bytes-Room}

-- What a call that adds `bytes` at the end gives.
abbrev pub Appended : Bytes → Buffer → Result BufferError Buffer → Type 0
Appended bytes b (ok b') = IsValid b' × (contents b' ≡ contents b ++ bytes)
Appended bytes b (err e) =
    (e ≡ exceeds_maximum_limit) × (max_buffer_size < b.writer_index + length bytes)

pub written-Appended :
    (bytes : Bytes) {b : Buffer}
    → IsValid b
    → b.writer_index + length bytes ≤ length b.buffer
    → let written = record b {
      buffer =
          take b.writer_index b.buffer ++ (bytes ++ drop (b.writer_index + length bytes) b.buffer);
      writer_index = size_add b.writer_index (length bytes);
    } in
      IsValid written
      × (contents written ≡ contents b ++ bytes)
      × (length written.buffer ≡ length b.buffer)
written-Appended bytes {b} v h =
    let len = length-write b.writer_index bytes b.buffer h in
    let w : size_add b.writer_index (length bytes) ≡ b.writer_index + length bytes =
      omega (arith, v.fits) in
    (
      record {
        ordered = omega (arith, w, v.ordered);
        within = omega (arith, w, len);
        reserved = omega (arith, len, v.reserved);
        fits = omega (arith, len, v.fits);
      },
      rw w (slice-write_after b.reader_index b.writer_index bytes b.buffer v.ordered h),
      len,
    )

append_roomy :
    (bytes : Bytes) (b : Buffer) (r : Result BufferError Buffer)
    → Room (length bytes) b r
    → Appended bytes b (do
      roomy ← r
      written ← write roomy.writer_index bytes roomy
      ok (has_written (length bytes) written))
unfolding has_written
append_roomy bytes b (ok roomy) (valid, same, room) =
    let (valid', grown, _) = written-Appended bytes valid room in
    rw (write_ok roomy.writer_index bytes roomy room) (valid', grown ∙ ap (λ k. k ++ bytes) same)
append_roomy bytes b (err e) h = h

-- On a valid buffer append puts the bytes at the end of the contents and keeps the buffer valid, or
-- throws for the size limit, which happens only if the bytes would end past 64 MB; it never writes
-- out of bounds. The bytes and the reserved space are no longer than a vector can be.
pub append-Appended :
    (bytes : Bytes) {b : Buffer}
    → IsValid b
    → length bytes + prepend_size ≤ max_vector_size
    → Appended bytes b (append bytes b)
unfolding append
append-Appended bytes {b} v h =
    append_roomy bytes b (ensure_writable_bytes (length bytes) b)
      (ensure_writable_bytes-Room (length bytes) v h)

-- What readFromFd leaves: the bytes read stand behind the contents.
abbrev pub Filled : ReadOutcome → Buffer → Result BufferError Buffer → Type 0
Filled (failed errno) b r = r ≡ ok b
Filled (got bytes) b (ok b') = IsValid b' × (contents b' ≡ contents b ++ bytes)
Filled (got bytes) b (err e) =
    (e ≡ exceeds_maximum_limit) × (max_buffer_size < b.writer_index + length bytes)

fill_split :
    (bytes : Bytes) (b : Buffer) (r : Result BufferError Buffer) (filled : Buffer) (room : ℕ)
    → filled.writer_index ≡ b.writer_index + room
    → room ≤ length bytes
    → contents filled ≡ contents b ++ take room bytes
    → Appended (drop room bytes) filled r
    → Filled (got bytes) b r
fill_split bytes b (ok b') filled room at le e (valid, grown) = (
  valid,
  grown
      ∙ ap (λ k. k ++ drop room bytes) e
      ∙ append_assoc (contents b) (take room bytes) (drop room bytes)
      ∙ ap (◌++◌ (contents b)) (take-append-drop room bytes),
)
fill_split bytes b (err e) filled room at le _ (what, over) =
    (what, omega (arith, at, over, length-drop room bytes))

over_offered :
    (b : Buffer) (n : ℕ) → n ≤ offered b → n - writable_bytes b + prepend_size ≤ max_vector_size
unfolding offered
over_offered b n h = ground arith

-- The buffer whose storage was filled to its end with the first bytes that were read.
abbrev pub filled_up : ℕ → Bytes → Buffer → ℕ → Buffer
filled_up n bytes b k = record b {
  buffer =
      take b.writer_index b.buffer
      ++ (take n bytes ++ drop (b.writer_index + length (take n bytes)) b.buffer);
  writer_index = k;
}

pub filled_up-IsValid :
    (bytes : Bytes) (n : ℕ) {b : Buffer}
    → IsValid b
    → n ≡ length b.buffer - b.writer_index
    → n < length bytes
    → (b.writer_index + length (take n bytes) ≤ length b.buffer)
      × IsValid (filled_up n bytes b (length b.buffer))
      × (contents (filled_up n bytes b (length b.buffer)) ≡ contents b ++ take n bytes)
      × (length (filled_up n bytes b (length b.buffer)).buffer ≡ length b.buffer)
filled_up-IsValid bytes n {b} v e over =
    let (valid, grown, size) = written-Appended (take n bytes) v h in
    (
      h,
      subst (λ k. IsValid (filled_up n bytes b k)) at valid,
      subst (λ k. contents (filled_up n bytes b k) ≡ contents b ++ take n bytes) at grown,
      size,
    )
  where
    some_bytes : length (take n bytes) ≡ n
    some_bytes = omega (arith, length-take n bytes, over)

    h : b.writer_index + length (take n bytes) ≤ length b.buffer
    h = omega (arith, some_bytes, e, v.within)

    at : size_add b.writer_index (length (take n bytes)) ≡ length b.buffer
    at = omega (arith, some_bytes, e, v.within, v.fits)

fill_full :
    (bytes : Bytes) (n : ℕ) {b : Buffer}
    → IsValid b
    → n ≡ length b.buffer - b.writer_index
    → n < length bytes
    → length bytes - n + prepend_size ≤ max_vector_size
    → Filled (got bytes) b (do
      filled ← write b.writer_index (take n bytes) b
      append (drop n bytes) (record filled { writer_index = length b.buffer }))
fill_full bytes n {b} v e over small =
    let full = filled_up n bytes b (length b.buffer) in
    let (h, valid, grown, _) = filled_up-IsValid bytes n v e over in
    rw (write_ok b.writer_index (take n bytes) b h) (
      fill_split bytes b (append (drop n bytes) full) full n (omega (arith, e, v.within))
        (omega (arith, over)) grown
        (append-Appended (drop n bytes) valid (omega (arith, length-drop n bytes))))

-- On a valid buffer readFromFd puts all bytes that readv took at the end of the contents, those in
-- the buffer's own space and those that went to the extra buffer in this order, or throws for the
-- size limit if they would end past 64 MB; a failed readv changes nothing. readv takes at most what
-- it is offered.
pub read_from_fd-Filled :
    (r : ReadOutcome) {b : Buffer}
    → IsValid b
    → ((bytes : Bytes) → r ≡ got bytes → length bytes ≤ offered b)
    → Filled r b (read_from_fd r b)
unfolding read_from_fd
read_from_fd-Filled (failed errno) v few = refl
read_from_fd-Filled (got bytes) {b} v few =
    let room = writable_bytes_lem v in
    elim (Bool-cases (leb (length bytes) (writable_bytes b))) [
      | inl fits ↦
          let h : b.writer_index + length bytes ≤ length b.buffer =
            ground (arith, fits, room, v.within) in
          let (valid, grown, _) = written-Appended bytes v h in
          rw (fits, write_ok b.writer_index bytes b h) (valid, grown)
      | inr over ↦ rw over (
          fill_full bytes (writable_bytes b) v room (ground (arith, over))
            (over_offered b (length bytes) (few bytes refl)))
    ]
