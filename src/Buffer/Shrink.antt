-- ===== src/Buffer/Shrink.antt =====
-- Writing in front of the contents, and giving memory back.
use my_mprpc.Prelude.{
  ℕ, ◌+◌, ◌-◌, ◌≤◌, ◌<◌, ◌≡◌, refl, ap, ◌∙◌, ◌⊎◌, inl, inr, ◌++◌, Bytes, arith, length, slice,
  length-write, slice-write_before, ltb, Bool-cases, if◌then◌else◌, ltb→lt, not_ltb→le,
  max_vector_size, size_add, size_sub, ◌^◌,
}
use my_mprpc.Prelude.Result.{Result, ok, err, ◌>>=◌}
use my_mprpc.Buffer.{
  Buffer, BufferError, not_enough_prepend_space, out_of_bounds, length_error, prepend_size,
  readable_bytes, prependable_bytes, write, resize, move_to_front, prepend, shrink,
}
use my_mprpc.Buffer.Invariant.{IsValid, contents, length-contents}
use my_mprpc.Buffer.Growth.{
  Moved, write_ok, resize-contents, readable-contents, move_to_front-Moved,
}

abbrev pub Prepended : Bytes → Buffer → Result BufferError Buffer → Type 0
Prepended bytes b (ok b') = IsValid b' × (contents b' ≡ bytes ++ contents b)
Prepended bytes b (err e) = (e ≡ not_enough_prepend_space) × (b.reader_index < length bytes)

prepended :
    (bytes : Bytes) (start : ℕ) {b : Buffer}
    → IsValid b
    → start + length bytes ≡ b.reader_index
    → Prepended bytes b (write start bytes (record b { reader_index = start }))
prepended bytes start {b} v e =
    let h : start + length bytes ≤ length b.buffer = omega (arith, e, v.ordered, v.within) in
    let len = length-write start bytes b.buffer h in
    rw (write_ok start bytes (record b { reader_index = start }) h) (
      record {
        ordered = omega (arith, e, v.ordered);
        within = omega (arith, len, v.within);
        reserved = omega (arith, len, v.reserved);
        fits = omega (arith, len, v.fits);
      },
      slice-write_before start b.writer_index bytes b.buffer (omega (arith, e, v.ordered)) v.within
          ∙ ap (λ k. bytes ++ slice k b.writer_index b.buffer) e,
    )

-- On a valid buffer prepend puts the bytes in front of the contents and keeps the buffer valid, or
-- throws, exactly if they are more than the bytes in front of the reader index.
pub prepend-Prepended :
    (bytes : Bytes) {b : Buffer} → IsValid b → Prepended bytes b (prepend bytes b)
unfolding prepend prependable_bytes
prepend-Prepended bytes {b} v = elim (Bool-cases (ltb b.reader_index (length bytes))) [
  | inl short ↦ rw short (refl, ltb→lt _ _ short)
  | inr enough ↦
      let room = not_ltb→le b.reader_index (length bytes) enough in
      let start : size_sub b.reader_index (length bytes) ≡ b.reader_index - length bytes =
        omega (arith, v.ordered, v.within, v.fits) in
      rw (enough, start) (prepended bytes (b.reader_index - length bytes) v (omega arith))
]

-- What shrink gives: the contents in a storage of the size asked for; or a move past the end of the
-- storage, where the contents and the reserved space are longer than it; or the vector's error.
abbrev pub Shrunk : ℕ → Buffer → Result BufferError Buffer → Type 0
Shrunk reserve b (ok b') =
    IsValid b'
    × (contents b' ≡ contents b)
    × (length b'.buffer ≡ prepend_size + length (contents b) + reserve)
Shrunk reserve b (err e) =
    ((e ≡ out_of_bounds) × (length b.buffer < prepend_size + length (contents b)))
    ⊎ ((e ≡ length_error) × (max_vector_size < prepend_size + length (contents b) + reserve))

shrink_rest :
    (reserve : ℕ) {b : Buffer} (r : Result BufferError Buffer) (new_size : ℕ)
    → IsValid b
    → Moved b r
    → new_size ≡ prepend_size + length (contents b) + reserve
    → Shrunk reserve b (do
      moved ← r
      if ltb max_vector_size new_size then err length_error else ok (resize new_size moved))
shrink_rest reserve {b} (ok moved) new_size v (valid, same, at, size) e =
    let n = length-contents v in
    elim (Bool-cases (ltb max_vector_size new_size)) [
      | inl over ↦ rw over (inr (refl, omega (arith, ltb→lt _ _ over, e)))
      | inr under ↦
          let (valid', same', _, size') =
            resize-contents new_size moved (omega (arith, at, e, n)) valid (omega (arith, e))
              (not_ltb→le _ _ under) in
          rw under (valid', same' ∙ same, size' ∙ e)
    ]
shrink_rest reserve {b} (err e) new_size v (what, over) f =
    inl (what, omega (arith, over, length-contents v))

-- On a valid buffer shrink keeps the contents and makes the storage as long as the reserved space,
-- the contents and `reserve` together, if it returns; it moves past the end of the storage only if
-- the contents and the reserved space are longer than the storage, and else throws length_error
-- only if the new size is beyond what a vector can hold. The new size fits a size_t.
pub shrink-Shrunk :
    (reserve : ℕ) {b : Buffer}
    → IsValid b
    → prepend_size + length (contents b) + reserve < 2 ^ 64
    → Shrunk reserve b (shrink reserve b)
unfolding shrink
shrink-Shrunk reserve {b} v small =
    shrink_rest reserve (move_to_front b)
      (size_add (size_add prepend_size (readable_bytes b)) reserve) v (move_to_front-Moved v)
      (rw (readable-contents v) (omega arith))

shrink_fault :
    (reserve : ℕ) (b : Buffer) (r : Result BufferError Buffer)
    → length b.buffer < prepend_size + (b.writer_index - b.reader_index)
    → Moved b r
    → (do
      moved ← r
      let new_size = size_add (size_add prepend_size (readable_bytes b)) reserve
      if ltb max_vector_size new_size then err length_error else ok (resize new_size moved))
      ≡ err out_of_bounds
shrink_fault reserve b (ok moved) short (valid, same, at, size) =
    absurd (omega (arith, valid.within, at, size, short))
shrink_fault reserve b (err e) short (what, _) = ap err what

-- A valid buffer that is written to its end and has data in the reserved space makes shrink move
-- bytes past the end of the storage.
pub shrink_overruns :
    (reserve : ℕ) {b : Buffer}
    → IsValid b
    → b.reader_index < prepend_size
    → b.writer_index ≡ length b.buffer
    → shrink reserve b ≡ err out_of_bounds
unfolding shrink
shrink_overruns reserve {b} v low full =
    shrink_fault reserve b (move_to_front b) (omega (arith, v.reserved)) (move_to_front-Moved v)
