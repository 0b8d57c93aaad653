-- ===== src/Buffer.antt =====
-- include/buffer.h and src/utils/buffer.cpp: the growing byte buffer of a connection. A write past
-- the end of the storage, which C++ leaves undefined, is the error `out_of_bounds`.
pub mod Integers
pub mod Invariant
pub mod Contents
pub mod Growth
pub mod Append
pub mod Bounded
pub mod Shrink
use my_mprpc.Prelude.{
  ℕ, zero, suc, ◌+◌, ◌-◌, ◌≡◌, refl, Bool, true, false, ◌&&◌, Option, none, some, List, [], ◌∷◌,
  ◌++◌, Bytes, length, take, drop, replicate, ltb, leb, ◌==◌, if◌then◌else◌, slice, write_at,
  size_add, size_sub, max_vector_size,
}
use mathlib.Core.Option
use my_mprpc.Prelude.Result.{Result, ok, err, ◌>>=◌}
use my_mprpc.ByteOrder.{load, store, swap_bytes}

-- kInitialSize, kPrependSize, kMaxBufferSize
abbrev pub initial_size : ℕ
initial_size = 1024

abbrev pub prepend_size : ℕ
prepend_size = 8

abbrev pub max_buffer_size : ℕ
max_buffer_size = 67108864

pub record Buffer : Type 0 where
  pub buffer : Bytes
  pub reader_index : ℕ
  pub writer_index : ℕ

pub data BufferError : Type 0 where
  -- what the methods throw
  insufficient_data not_enough_prepend_space exceeds_maximum_limit : BufferError
  -- what std::vector throws
  length_error : BufferError
  -- a memcpy or memmove past the end of the storage
  out_of_bounds : BufferError

-- The constructor; the vector's elements are zero.
unfoldable pub make_buffer : ℕ → Buffer
make_buffer size = record {
  buffer = replicate (size_add prepend_size size) 0;
  reader_index = prepend_size;
  writer_index = prepend_size;
}

unfoldable pub readable_bytes : Buffer → ℕ
readable_bytes b = size_sub b.writer_index b.reader_index

unfoldable pub writable_bytes : Buffer → ℕ
writable_bytes b = size_sub (length b.buffer) b.writer_index

unfoldable pub prependable_bytes : Buffer → ℕ
prependable_bytes b = b.reader_index

pub capacity : Buffer → ℕ
capacity b = length b.buffer

-- `len` bytes from peek() on.
pub peek_bytes : ℕ → Buffer → Bytes
peek_bytes len b = slice b.reader_index (b.reader_index + len) b.buffer

-- std::search for "\r\n".
pub search_crlf : Bytes → Option ℕ
search_crlf [] = none
search_crlf (c ∷ []) = none
search_crlf (c ∷ d ∷ bytes) =
    let later = Option.map suc (search_crlf (d ∷ bytes)) in
    if c == 13 && d == 10 then some 0 else later

-- The pointer found is given by its distance from peek().
pub find_crlf : Buffer → Option ℕ
unfolding search_crlf peek_bytes readable_bytes
find_crlf b = search_crlf (peek_bytes (readable_bytes b) b)

pub retrieve_all : Buffer → Buffer
retrieve_all b = record b { reader_index = prepend_size; writer_index = prepend_size }

pub retrieve : ℕ → Buffer → Buffer
unfolding readable_bytes retrieve_all
retrieve len b =
    if ltb len (readable_bytes b)
    then record b { reader_index = size_add b.reader_index len }
    else retrieve_all b

pub clamp : ℕ → Buffer → ℕ
unfolding readable_bytes
clamp len b = if ltb (readable_bytes b) len then readable_bytes b else len

-- retrieveAsVector and retrieveAsString: the bytes, and the buffer without them.
pub retrieve_as_vector : ℕ → Buffer → Bytes × Buffer
unfolding clamp peek_bytes retrieve
retrieve_as_vector len b = (peek_bytes (clamp len b) b, retrieve (clamp len b) b)

pub retrieve_all_as_vector : Buffer → Bytes × Buffer
unfolding retrieve_as_vector
retrieve_all_as_vector b = retrieve_as_vector (readable_bytes b) b

pub peek_as_vector : ℕ → Buffer → Bytes
unfolding clamp peek_bytes
peek_as_vector len b = peek_bytes (clamp len b) b

-- networkToHost and hostToNetwork for a T of n bytes: swapped for n = 2, 4 and 8, else unchanged.
unfoldable pub network_to_host : ℕ → ℕ → ℕ
network_to_host n value =
    if n == 1
    then value
    else if n == 2
    then swap_bytes 2 value
    else if n == 4
    then swap_bytes 4 value
    else if n == 8
    then swap_bytes 8 value
    else value

unfoldable pub host_to_network : ℕ → ℕ → ℕ
host_to_network n value =
    if n == 1
    then value
    else if n == 2
    then swap_bytes 2 value
    else if n == 4
    then swap_bytes 4 value
    else if n == 8
    then swap_bytes 8 value
    else value

-- peekInt<T> for a T of n bytes; a signed T is given by its bit pattern.
pub peek_int : ℕ → Buffer → Result BufferError ℕ
peek_int n b =
    if ltb (readable_bytes b) n
    then err insufficient_data
    else ok (network_to_host n (load (peek_bytes n b)))

pub read_int : ℕ → Buffer → Result BufferError (ℕ × Buffer)
read_int n b = do value ← peek_int n b; ok (value, retrieve n b)

unfoldable pub write : ℕ → Bytes → Buffer → Result BufferError Buffer
write i d b = elim (write_at i d b.buffer) [
  | some bytes ↦ ok (record b { buffer = bytes })
  | none ↦ err out_of_bounds
]

-- std::vector::resize
unfoldable pub resize : ℕ → Buffer → Buffer
resize n b = record b { buffer = take n b.buffer ++ replicate (n - length b.buffer) 0 }

-- The readable bytes are moved to the front, behind the reserved space.
unfoldable pub move_to_front : Buffer → Result BufferError Buffer
move_to_front b = do
  let readable = readable_bytes b
  moved ← write prepend_size (peek_bytes readable b) b
  ok (record moved { reader_index = prepend_size; writer_index = size_add prepend_size readable })

unfoldable pub grow : ℕ → Buffer → Result BufferError Buffer
grow len b =
    let new_size = size_add b.writer_index len in
    if ltb max_buffer_size new_size then err exceeds_maximum_limit else ok (resize new_size b)

unfoldable pub make_space : ℕ → Buffer → Result BufferError Buffer
make_space len b =
    if ltb (size_add (writable_bytes b) (prependable_bytes b)) (size_add len prepend_size)
    then grow len b
    else move_to_front b

unfoldable pub ensure_writable_bytes : ℕ → Buffer → Result BufferError Buffer
ensure_writable_bytes len b = if ltb (writable_bytes b) len then make_space len b else ok b

unfoldable pub has_written : ℕ → Buffer → Buffer
has_written len b = record b { writer_index = size_add b.writer_index len }

unfoldable pub append : Bytes → Buffer → Result BufferError Buffer
append bytes b = do
  roomy ← ensure_writable_bytes (length bytes) b
  written ← write roomy.writer_index bytes roomy
  ok (has_written (length bytes) written)

unfoldable pub append_int : ℕ → ℕ → Buffer → Result BufferError Buffer
append_int n value b = append (store n (host_to_network n value)) b

unfoldable pub prepend : Bytes → Buffer → Result BufferError Buffer
prepend bytes b =
    if ltb (prependable_bytes b) (length bytes)
    then err not_enough_prepend_space
    else let start = size_sub b.reader_index (length bytes) in
      write start bytes (record b { reader_index = start })

unfoldable pub prepend_int : ℕ → ℕ → Buffer → Result BufferError Buffer
prepend_int n value b = prepend (store n (host_to_network n value)) b

pub shrink : ℕ → Buffer → Result BufferError Buffer
shrink reserve b = do
  moved ← move_to_front b
  let new_size = size_add (size_add prepend_size (readable_bytes b)) reserve
  if ltb max_vector_size new_size then err length_error else ok (resize new_size moved)

pub swap : Buffer → Buffer → Buffer × Buffer
swap b rhs = (rhs, b)

-- What readv did: the error, or the bytes that it took from the socket.
pub data ReadOutcome : Type 0 where
  failed : ℕ → ReadOutcome
  got : Bytes → ReadOutcome

-- sizeof(extra_buf)
abbrev pub extra_size : ℕ
extra_size = 65536

-- The bytes that readv may fill: the writable ones, and extra_buf if these are few.
unfoldable pub offered : Buffer → ℕ
offered b =
    if ltb (writable_bytes b) extra_size then writable_bytes b + extra_size else writable_bytes b

-- readFromFd: the bytes go to the writable space, and what is over is appended.
pub read_from_fd : ReadOutcome → Buffer → Result BufferError Buffer
read_from_fd (failed errno) b = ok b
read_from_fd (got bytes) b =
    let writable = writable_bytes b in
    if leb (length bytes) writable
    then (do
      filled ← write b.writer_index bytes b
      ok (record filled { writer_index = size_add b.writer_index (length bytes) }))
    else do
      filled ← write b.writer_index (take writable bytes) b
      append (drop writable bytes) (record filled { writer_index = length b.buffer })
