-- ===== src/ByteOrder.antt =====
-- Integers of n bytes in the memory of a little-endian host, and the swaps of arpa/inet.h and
-- endian.h (htons, htonl, htobe64 and their inverses) that include/buffer.h and
-- src/codec/frame_codec.cpp call.
use mathlib.Core.List.{reverse, reverse-reverse, reverse-cons}
use my_mprpc.Prelude.{
  ℕ, zero, suc, ◌+◌, ◌*◌, ◌/◌, ◌%◌, ◌<◌, ◌≡◌, refl, ap, ◌∙◌, subst, List, [], ◌∷◌, arith, Bytes,
  length, length-append, All, All-append,
}

abbrev pub IsByte : ℕ → Type 0
IsByte b = b < 256

-- 256 ^ n: the values of an unsigned integer of n bytes lie below it.
abbrev pub size_limit : ℕ → ℕ
size_limit zero = 1
size_limit (suc n) = 256 * size_limit n

-- The object representation of an unsigned integer of n bytes, least significant byte first.
unfoldable pub store : ℕ → ℕ → Bytes
store zero v = []
store (suc n) v = (v % 256) ∷ store n (v / 256)

-- memcpy of bytes into an unsigned integer.
unfoldable pub load : Bytes → ℕ
load [] = 0
load (b ∷ bs) = b + 256 * load bs

-- Network order is the reverse of the host's.
unfoldable pub swap_bytes : ℕ → ℕ → ℕ
swap_bytes n v = load (reverse (store n v))

pub length-store : (n v : ℕ) → length (store n v) ≡ n
unfolding store
length-store zero v = refl
length-store (suc n) v = ap suc (length-store n (v / 256))

pub store-IsByte : (n v : ℕ) → All IsByte (store n v)
unfolding store
store-IsByte zero v = tt
store-IsByte (suc n) v = (omega arith, store-IsByte n (v / 256))

pub load-store : (n v : ℕ) → v < size_limit n → load (store n v) ≡ v
unfolding load store
load-store zero v h = omega arith
load-store (suc n) v h = omega (arith, load-store n (v / 256) (omega arith))

pub store-load : (bs : Bytes) → All IsByte bs → store (length bs) (load bs) ≡ bs
unfolding load store
store-load [] h = refl
store-load (b ∷ bs) (hb, h) =
    let low : (b + 256 * load bs) % 256 ≡ b = omega arith in
    let high : (b + 256 * load bs) / 256 ≡ load bs = omega arith in
    rw (low, high) (ap (◌∷◌ b) (store-load bs h))

pub load-lt : (bs : Bytes) → All IsByte bs → load bs < size_limit (length bs)
unfolding load
load-lt [] h = omega arith
load-lt (b ∷ bs) (hb, h) = omega (arith, load-lt bs h)

pub length-reverse {ℓ} : {A : Type ℓ} (xs : List A) → length (reverse xs) ≡ length xs
length-reverse [] = refl
length-reverse (x ∷ xs) =
    ap length (reverse-cons x xs)
    ∙ omega (arith, length-append (reverse xs) (x ∷ []), length-reverse xs)

pub reverse-IsByte : (bs : Bytes) → All IsByte bs → All IsByte (reverse bs)
reverse-IsByte [] h = tt
reverse-IsByte (b ∷ bs) (hb, h) =
    rw (reverse-cons b bs) (All-append IsByte (reverse bs) (b ∷ []) (reverse-IsByte bs h) (hb, tt))

store-load_of_length : (n : ℕ) (bs : Bytes) → length bs ≡ n → All IsByte bs → store n (load bs) ≡ bs
store-load_of_length n bs e h = rw (← e) (store-load bs h)

-- The bytes in memory of a swapped integer are those of the integer, reversed.
pub store-swap_bytes : (n v : ℕ) → store n (swap_bytes n v) ≡ reverse (store n v)
unfolding swap_bytes
store-swap_bytes n v =
    store-load_of_length n (reverse (store n v)) (length-reverse (store n v) ∙ length-store n v)
      (reverse-IsByte (store n v) (store-IsByte n v))

-- Swapping twice gives the integer back.
pub swap_bytes-swap_bytes : (n v : ℕ) → v < size_limit n → swap_bytes n (swap_bytes n v) ≡ v
swap_bytes-swap_bytes n v h =
    unfold swap_bytes in
    (ap (λ bs. load (reverse bs)) (unfold swap_bytes in store-swap_bytes n v)
      ∙ ap load (reverse-reverse (store n v))
      ∙ load-store n v h)

-- Reading back bytes in network order.
pub swap_bytes-load :
    (n v : ℕ) → v < size_limit n → swap_bytes n (load (store n (swap_bytes n v))) ≡ v
swap_bytes-load n v h = rw (store-swap_bytes n v) (
    unfold swap_bytes in
    (ap (λ bs. load (reverse bs))
        (store-load_of_length n (reverse (store n v))
          (length-reverse (store n v) ∙ length-store n v)
          (reverse-IsByte (store n v) (store-IsByte n v)))
      ∙ ap load (reverse-reverse (store n v))
      ∙ load-store n v h))

-- Four or n bytes read and written again are the same bytes.
pub store-swap_bytes-load :
    (n : ℕ) (bs : Bytes)
    → length bs ≡ n
    → All IsByte bs
    → store n (swap_bytes n (swap_bytes n (load bs))) ≡ bs
store-swap_bytes-load n bs e h =
    let small : load bs < size_limit n = subst (λ k. load bs < size_limit k) e (load-lt bs h) in
    rw (swap_bytes-swap_bytes n (load bs) small) (store-load_of_length n bs e h)

pub swap_bytes-lt : (n v : ℕ) → swap_bytes n v < size_limit n
unfolding swap_bytes
swap_bytes-lt n v =
    subst (λ k. load (reverse (store n v)) < size_limit k)
      (length-reverse (store n v) ∙ length-store n v)
      (load-lt (reverse (store n v)) (reverse-IsByte (store n v) (store-IsByte n v)))
