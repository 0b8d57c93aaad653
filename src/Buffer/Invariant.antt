-- ===== src/Buffer/Invariant.antt =====
-- The indices of a Buffer stay in order and inside the storage.
use my_mprpc.Prelude.{
  ℕ, ◌+◌, ◌-◌, ◌≤◌, ◌≡◌, Bytes, arith, length, slice, slice_empty, [], length-slice,
  max_vector_size, length-replicate, size_add,
}
use my_mprpc.Buffer.{
  Buffer, make_buffer, prepend_size, readable_bytes, writable_bytes, retrieve, retrieve_all,
}

pub record IsValid (b : Buffer) : Type 0 where
  pub ordered : b.reader_index ≤ b.writer_index
  pub within : b.writer_index ≤ length b.buffer
  -- The reserved space is part of the storage.
  pub reserved : prepend_size ≤ length b.buffer
  pub fits : length b.buffer ≤ max_vector_size

-- The bytes that are written and not yet read.
abbrev pub contents : Buffer → Bytes
contents b = slice b.reader_index b.writer_index b.buffer

module _ {b : Buffer} (v : IsValid b) where
  pub readable_bytes_lem : readable_bytes b ≡ b.writer_index - b.reader_index
  unfolding readable_bytes
  readable_bytes_lem = omega arith

  pub length-contents : length (contents b) ≡ b.writer_index - b.reader_index
  length-contents = length-slice b.reader_index b.writer_index b.buffer v.within

  pub writable_bytes_lem : writable_bytes b ≡ length b.buffer - b.writer_index
  unfolding writable_bytes
  writable_bytes_lem = omega arith

pub make_buffer-IsValid :
    (size : ℕ) → size + prepend_size ≤ max_vector_size → IsValid (make_buffer size)
unfolding make_buffer
make_buffer-IsValid size h =
    let e : length (make_buffer size).buffer ≡ size_add prepend_size size =
      length-replicate (size_add prepend_size size) 0 in
    record {
      ordered = omega arith;
      within = omega (arith, e);
      reserved = omega (arith, e);
      fits = omega (arith, e);
    }

pub retrieve-IsValid : (len : ℕ) {b : Buffer} → IsValid b → IsValid (retrieve len b)
unfolding retrieve retrieve_all
retrieve-IsValid len {b} v = ground (arith, readable_bytes_lem v)

pub retrieve_all-IsValid :
    {b : Buffer} → IsValid b → IsValid (retrieve_all b) × (contents (retrieve_all b) ≡ [])
unfolding retrieve_all
retrieve_all-IsValid {b} v = (
  record { ordered = omega arith; within = v.reserved; reserved = v.reserved; fits = v.fits },
  slice_empty prepend_size prepend_size b.buffer (omega arith),
)
