-- ===== src/Buffer/Contents.antt =====
-- Reading from a Buffer, seen on its contents: a queue of bytes.
use my_mprpc.Prelude.{
  ℕ, ◌+◌, ◌-◌, ◌≤◌, ◌<◌, ◌≡◌, refl, sym, ap, ◌∙◌, inl, inr, Bytes, arith, length, take, drop, min,
  slice_empty, take-drop, take-take_of_le, take_all, drop_all, drop-drop, ltb, Bool-cases, ltb→lt,
  not_ltb→le,
}
use my_mprpc.Buffer.{
  Buffer, peek_bytes, retrieve, retrieve_all, clamp, retrieve_as_vector, peek_as_vector,
  prepend_size,
}
use my_mprpc.Buffer.Invariant.{
  IsValid, contents, length-contents, readable_bytes_lem, retrieve-IsValid,
}

module _ (len : ℕ) {b : Buffer} (v : IsValid b) where
  pub retrieve_some :
      len < b.writer_index - b.reader_index
      → retrieve len b ≡ record b { reader_index = b.reader_index + len }
  unfolding retrieve
  retrieve_some h = ground (arith, readable_bytes_lem v)

  retrieve_rest :
      b.writer_index - b.reader_index ≤ len
      → retrieve len b ≡ record b { reader_index = prepend_size; writer_index = prepend_size }
  unfolding retrieve retrieve_all
  retrieve_rest h = ground (arith, readable_bytes_lem v)

  -- retrieve drops bytes from the front.
  pub contents-retrieve : contents (retrieve len b) ≡ drop len (contents b)
  contents-retrieve = elim (Bool-cases (ltb len (b.writer_index - b.reader_index))) [
    | inl h ↦
        ap contents (retrieve_some (ltb→lt _ _ h))
        ∙ sym (drop-drop len b.reader_index (take b.writer_index b.buffer))
    | inr h ↦
        ap contents (retrieve_rest (not_ltb→le _ _ h))
        ∙ slice_empty prepend_size prepend_size b.buffer (omega arith)
        ∙ sym (drop_all len (contents b) (omega (arith, length-contents v, not_ltb→le _ _ h)))
  ]

  clamp_lem : clamp len b ≡ min len (b.writer_index - b.reader_index)
  unfolding clamp
  clamp_lem = ground (arith, readable_bytes_lem v)

  pub peek_bytes_lem :
      len ≤ b.writer_index - b.reader_index → peek_bytes len b ≡ take len (contents b)
  unfolding peek_bytes
  peek_bytes_lem h = sym (
      take-drop len b.reader_index (take b.writer_index b.buffer)
      ∙ ap (drop b.reader_index) (
          take-take_of_le (b.reader_index + len) b.writer_index b.buffer
            (omega (arith, v.ordered))))

take-min : (len n : ℕ) (bytes : Bytes) → length bytes ≡ n → take (min len n) bytes ≡ take len bytes
take-min len n bytes h = elim (Bool-cases (ltb len n)) [
  | inl low ↦ ap (λ k. take k bytes) (omega (arith, ltb→lt len n low))
  | inr high ↦
      take_all (min len n) bytes (omega (arith, not_ltb→le len n high))
      ∙ sym (take_all len bytes (omega (arith, not_ltb→le len n high)))
]

drop-min : (len n : ℕ) (bytes : Bytes) → length bytes ≡ n → drop (min len n) bytes ≡ drop len bytes
drop-min len n bytes h = elim (Bool-cases (ltb len n)) [
  | inl low ↦ ap (λ k. drop k bytes) (omega (arith, ltb→lt len n low))
  | inr high ↦
      drop_all (min len n) bytes (omega (arith, not_ltb→le len n high))
      ∙ sym (drop_all len bytes (omega (arith, not_ltb→le len n high)))
]

-- On a valid buffer retrieveAsVector returns the first `len` bytes of the contents, or all of them
-- if they are fewer, takes exactly these off the contents, and keeps the buffer valid;
-- peekAsVector returns the same bytes.
pub retrieve_as_vector_lem :
    (len : ℕ) {b : Buffer}
    → IsValid b
    → let (bytes, rest) = retrieve_as_vector len b in
      (bytes ≡ take len (contents b))
      × (contents rest ≡ drop len (contents b))
      × IsValid rest
      × (peek_as_vector len b ≡ bytes)
unfolding retrieve_as_vector peek_as_vector
retrieve_as_vector_lem len {b} v =
    let n = b.writer_index - b.reader_index in
    let size : length (contents b) ≡ n = length-contents v in
    (
      rw (clamp_lem len v)
          (peek_bytes_lem (min len n) v (omega arith) ∙ take-min len n (contents b) size),
      rw (clamp_lem len v) (contents-retrieve (min len n) v ∙ drop-min len n (contents b) size),
      retrieve-IsValid (clamp len b) v,
      refl,
    )
