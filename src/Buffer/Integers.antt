-- ===== src/Buffer/Integers.antt =====
-- Integers of 1, 2, 4 and 8 bytes in a Buffer, in network order.
use mathlib.Core.List.{reverse}
use my_mprpc.Prelude.{
  ℕ, ◌+◌, ◌-◌, ◌^◌, ◌≤◌, ◌<◌, ◌≡◌, refl, sym, ap, ◌∙◌, subst, ◌⊎◌, inl, inr, [], ◌++◌, arith, Bytes,
  length, take, drop, length-append, take-length-append, drop-length-append, le→not_ltb,
}
use my_mprpc.Prelude.Result.{ok}
use my_mprpc.ByteOrder.{
  store, load, size_limit, length-store, swap_bytes-load, store-swap_bytes, load-store,
}
use my_mprpc.Buffer.{
  Buffer, peek_int, read_int, append_int, append, prepend_int, retrieve, network_to_host,
  host_to_network,
}
use my_mprpc.Buffer.Invariant.{
  IsValid, contents, length-contents, readable_bytes_lem, retrieve-IsValid,
}
use my_mprpc.Buffer.Contents.{peek_bytes_lem, contents-retrieve}
use my_mprpc.Buffer.Append.{Appended, append-Appended}
use my_mprpc.Buffer.Shrink.{Prepended, prepend-Prepended}

-- sizeof(T) of the integral types that the byte order functions know.
abbrev pub IsWidth : ℕ → Type 0
IsWidth n = (n ≡ 1) ⊎ (n ≡ 2) ⊎ (n ≡ 4) ⊎ (n ≡ 8)

-- The bytes of an integer in network order.
abbrev pub wire_int : ℕ → ℕ → Bytes
wire_int n value = store n (host_to_network n value)

network_to_host-load :
    (n value : ℕ)
    → IsWidth n
    → value < size_limit n
    → network_to_host n (load (wire_int n value)) ≡ value
unfolding network_to_host host_to_network
network_to_host-load n value (inl e) h =
    rw e (load-store 1 value (subst (λ k. value < size_limit k) e h))
network_to_host-load n value (inr (inl e)) h =
    rw e (swap_bytes-load 2 value (subst (λ k. value < size_limit k) e h))
network_to_host-load n value (inr (inr (inl e))) h =
    rw e (swap_bytes-load 4 value (subst (λ k. value < size_limit k) e h))
network_to_host-load n value (inr (inr (inr e))) h =
    rw e (swap_bytes-load 8 value (subst (λ k. value < size_limit k) e h))

-- On the wire the most significant byte comes first.
pub wire_int-reverse : (n value : ℕ) → IsWidth n → wire_int n value ≡ reverse (store n value)
unfolding host_to_network
wire_int-reverse n value (inl e) = rw e (unfold store in refl)
wire_int-reverse n value (inr (inl e)) = rw e (store-swap_bytes 2 value)
wire_int-reverse n value (inr (inr (inl e))) = rw e (store-swap_bytes 4 value)
wire_int-reverse n value (inr (inr (inr e))) = rw e (store-swap_bytes 8 value)

pub peek_int_lem :
    (n : ℕ) {b : Buffer}
    → IsValid b
    → n ≤ length (contents b)
    → peek_int n b ≡ ok (network_to_host n (load (take n (contents b))))
unfolding peek_int
peek_int_lem n {b} v h =
    rw
      (
        readable_bytes_lem v,
        le→not_ltb (b.writer_index - b.reader_index) n (omega (arith, length-contents v, h)),
      )
      (ap (λ bytes. ok (network_to_host n (load bytes)))
        (peek_bytes_lem n v (omega (arith, length-contents v, h))))

-- readInt takes an integer in network order off the front of the contents.
pub read_int-wire_int :
    (n value : ℕ) (rest : Bytes) {b : Buffer}
    → IsValid b
    → IsWidth n
    → value < size_limit n
    → contents b ≡ wire_int n value ++ rest
    → (read_int n b ≡ ok (value, retrieve n b))
      × IsValid (retrieve n b)
      × (contents (retrieve n b) ≡ rest)
unfolding read_int
read_int-wire_int n value rest {b} v w h e =
    let len = length-store n (host_to_network n value) in
    let size : length (contents b) ≡ n + length rest =
      ap length e ∙ omega (arith, length-append (wire_int n value) rest, len) in
    (
      rw (peek_int_lem n v (omega (arith, size))) (
          ap (λ k. ok (k, retrieve n b))
            (ap (λ bytes. network_to_host n (load (take n bytes))) e
              ∙ ap (λ bytes. network_to_host n (load bytes))
                  (take-length-append (wire_int n value) rest n (sym len))
              ∙ network_to_host-load n value w h)),
      retrieve-IsValid n v,
      contents-retrieve n v
          ∙ ap (drop n) e
          ∙ drop-length-append (wire_int n value) rest n (sym len),
    )

-- An integer of 1, 2, 4 or 8 bytes that was put in front of a valid buffer is read back, and the
-- buffer then holds what it held before.
pub read_int-prepend_int :
    (n value : ℕ) {b b' : Buffer}
    → IsValid b
    → IsWidth n
    → value < size_limit n
    → prepend_int n value b ≡ ok b'
    → (read_int n b' ≡ ok (value, retrieve n b')) × (contents (retrieve n b') ≡ contents b)
unfolding prepend_int
read_int-prepend_int n value {b} {b'} v w h e =
    let (valid, same) =
      subst (Prepended (wire_int n value) b) e (prepend-Prepended (wire_int n value) v) in
    let (read, _, rest) = read_int-wire_int n value (contents b) valid w h same in (read, rest)

-- Integers of 1, 2, 4 or 8 bytes that are appended to an empty valid buffer are read back first in
-- first out: an integer, and whatever bytes were appended behind it.
pub read_int-append_int :
    (n value : ℕ) (rest : Bytes) {b b' b'' : Buffer}
    → IsValid b
    → contents b ≡ []
    → IsWidth n
    → value < size_limit n
    → length rest + 8 < 2 ^ 63
    → append_int n value b ≡ ok b'
    → append rest b' ≡ ok b''
    → (read_int n b'' ≡ ok (value, retrieve n b'')) × (contents (retrieve n b'') ≡ rest)
unfolding append_int
read_int-append_int n value rest {b} {b'} {b''} v empty w h small e f =
    let len = length-store n (host_to_network n value) in
    let (valid, first) =
      subst (Appended (wire_int n value) b) e
        (append-Appended (wire_int n value) v (omega (arith, len, w))) in
    let (valid', both) =
      subst (Appended rest b') f (append-Appended rest valid (omega (arith, small))) in
    let whole : contents b'' ≡ wire_int n value ++ rest =
      both ∙ ap (λ k. k ++ rest) (first ∙ ap (λ k. k ++ wire_int n value) empty) in
    let (read, _, later) = read_int-wire_int n value rest valid' w h whole in (read, later)
