-- ===== src/Tests/Buffer.antt =====
-- include/buffer.h at concrete inputs.
use my_mprpc.Prelude.{◌≡◌, refl, [], ◌∷◌, ◌≤◌, ap, arith, Bytes, length}
use my_mprpc.Prelude.Result.{ok, err}
use my_mprpc.ByteOrder.{store, load, swap_bytes}
use my_mprpc.Buffer.{
  Buffer, out_of_bounds, got, append, append_int, prepend, prepend_int, shrink, host_to_network,
  offered, writable_bytes, prependable_bytes, write, has_written, ensure_writable_bytes, make_space,
  grow, resize,
}
use my_mprpc.Buffer.Invariant.{IsValid}
use my_mprpc.Buffer.Append.{Appended, append-Appended}
use my_mprpc.Buffer.Shrink.{shrink_overruns}

-- Ten bytes of storage, of which three are readable.
abbrev small : Buffer
small = record {
  buffer = 0 ∷ 0 ∷ 0 ∷ 0 ∷ 0 ∷ 0 ∷ 0 ∷ 1 ∷ 2 ∷ 3 ∷ [];
  reader_index = 7;
  writer_index = 10;
}

small-IsValid : IsValid small
small-IsValid = omega arith

abbrev empty : Buffer
empty = record {
  buffer = 0 ∷ 0 ∷ 0 ∷ 0 ∷ 0 ∷ 0 ∷ 0 ∷ 0 ∷ 0 ∷ 0 ∷ [];
  reader_index = 8;
  writer_index = 8;
}

empty-IsValid : IsValid empty
empty-IsValid = omega arith

append-Appended_example : Appended (4 ∷ 5 ∷ []) small (append (4 ∷ 5 ∷ []) small)
append-Appended_example = append-Appended (4 ∷ 5 ∷ []) small-IsValid (omega arith)

one_byte-offered : (bytes : Bytes) → got (4 ∷ []) ≡ got bytes → length bytes ≤ offered small
unfolding offered writable_bytes
one_byte-offered bytes e = let same : 4 ∷ [] ≡ bytes = cc in omega (arith, ap length same)

shrink_overruns_example : shrink 16 small ≡ err out_of_bounds
shrink_overruns_example = shrink_overruns 16 small-IsValid (omega arith) refl

-- `small` with the four bytes of 258 in front.
abbrev fronted : Buffer
fronted = record {
  buffer = 0 ∷ 0 ∷ 0 ∷ 0 ∷ 0 ∷ 1 ∷ 2 ∷ 1 ∷ 2 ∷ 3 ∷ [];
  reader_index = 3;
  writer_index = 10;
}

fronted-prepend_int : prepend_int 4 258 small ≡ ok fronted
unfolding prepend_int prepend write prependable_bytes host_to_network store load swap_bytes
fronted-prepend_int = refl

abbrev filled : Buffer
filled = record {
  buffer = 0 ∷ 0 ∷ 0 ∷ 0 ∷ 0 ∷ 0 ∷ 0 ∷ 0 ∷ 1 ∷ 2 ∷ [];
  reader_index = 8;
  writer_index = 10;
}

abbrev grown : Buffer
grown = record {
  buffer = 0 ∷ 0 ∷ 0 ∷ 0 ∷ 0 ∷ 0 ∷ 0 ∷ 0 ∷ 1 ∷ 2 ∷ 5 ∷ [];
  reader_index = 8;
  writer_index = 11;
}

filled-append_int : append_int 2 258 empty ≡ ok filled
unfolding append_int append ensure_writable_bytes write has_written writable_bytes host_to_network
    store load swap_bytes
filled-append_int = refl

grown-append : append (5 ∷ []) filled ≡ ok grown
unfolding append ensure_writable_bytes make_space grow resize write has_written writable_bytes
    prependable_bytes
grown-append = refl
