-- ===== src/Codec/FrameCodec/RoundTrip.antt =====
-- What decode returns on what encode wrote, and on any buffer.
use my_mprpc.Prelude.{
  ℕ, ◌+◌, ◌%◌, ◌^◌, ◌≤◌, ◌<◌, ◌≡◌, refl, sym, ap, ◌∙◌, subst, ◌⊎◌, inl, inr, Bool, true, false, [],
  ◌∷◌, ◌++◌, append_assoc, arith, Bytes, length, take, drop, All, All-take, take_split,
  length-append, take-length-append, drop-length-append, length-take, length-drop,
}
use my_mprpc.ByteOrder.{
  IsByte, store, load, swap_bytes, length-store, swap_bytes-load, store-swap_bytes-load,
}
use my_mprpc.Codec.FrameCodec.{
  encode, decode, network_to_host32, host_to_network32, encode_nonempty, max_message_length,
}

-- The four bytes in front of a message of `n` bytes.
abbrev pub header : ℕ → Bytes
header n = store 4 (swap_bytes 4 n)

pub length-header : (n : ℕ) → length (header n) ≡ 4
length-header n = length-store 4 (swap_bytes 4 n)

pub encode_lem :
    (message : Bytes)
    → 0 < length message
    → length message ≤ max_message_length
    → encode message ≡ header (length message) ++ message
unfolding encode
encode_lem [] h _ = absurd (omega arith)
encode_lem (b ∷ message) _ h =
    let small : length (b ∷ message) % 2 ^ 32 ≡ length (b ∷ message) = omega arith in rw small

pub length-encode_ge : (message : Bytes) → length message ≤ length (encode message)
unfolding encode encode_nonempty
length-encode_ge [] = omega arith
length-encode_ge (b ∷ message) =
    let h = store 4 (host_to_network32 (length (b ∷ message) % 2 ^ 32)) in
    omega (arith, length-append h (b ∷ message))

-- The length that a buffer announces.
abbrev pub announced : Bytes → ℕ
announced buffer = network_to_host32 (load (take 4 buffer))

pub decode_found :
    (buffer old : Bytes)
    → announced buffer ≤ max_message_length
    → 4 + announced buffer ≤ length buffer
    → decode buffer old
      ≡ (true, drop 4 (take (4 + announced buffer) buffer), drop (4 + announced buffer) buffer)
unfolding decode
decode_found buffer old h k = ground arith

pub announced-header :
    (n : ℕ) (rest : Bytes) → n ≤ max_message_length → announced (header n ++ rest) ≡ n
unfolding network_to_host32
announced-header n rest h =
    ap (λ bs. swap_bytes 4 (load bs)) (take-length-append (header n) rest 4 (sym (length-header n)))
    ∙ swap_bytes-load 4 n (omega arith)

take-frame : (a m rest : Bytes) (n : ℕ) → n ≡ length (a ++ m) → take n (a ++ (m ++ rest)) ≡ a ++ m
take-frame a m rest n h = rw (← append_assoc a m rest) (take-length-append (a ++ m) rest n h)

pub drop-frame : (a m rest : Bytes) (n : ℕ) → n ≡ length (a ++ m) → drop n (a ++ (m ++ rest)) ≡ rest
drop-frame a m rest n h = rw (← append_assoc a m rest) (drop-length-append (a ++ m) rest n h)

-- A frame at the front of the buffer is split off.
pub decode-header :
    (message rest old : Bytes)
    → length message ≤ max_message_length
    → decode (header (length message) ++ (message ++ rest)) old ≡ (true, message, rest)
decode-header message rest old h =
    decode_found buffer old (omega (arith, e)) (omega (arith, e, size))
    ∙ rw (
      e,
      take-frame (header n) message rest (4 + n) whole,
      drop-length-append (header n) message 4 (sym (length-header n)),
      drop-frame (header n) message rest (4 + n) whole,
    )
  where
    n : ℕ
    n = length message

    buffer : Bytes
    buffer = header n ++ (message ++ rest)

    e : announced buffer ≡ n
    e = announced-header n (message ++ rest) h

    whole : 4 + n ≡ length (header n ++ message)
    whole = omega (arith, length-append (header n) message, length-header n)

    size : length buffer ≡ 4 + n + length rest
    size = omega (
      arith,
      length-append (header n) (message ++ rest),
      length-append message rest,
      length-header n,
    )

-- Whatever follows it in the buffer, an encoded message of 1 byte to 100 MB is decoded to itself,
-- and the bytes that follow stay in the buffer.
pub decode-encode :
    (message rest old : Bytes)
    → 0 < length message
    → length message ≤ max_message_length
    → decode (encode message ++ rest) old ≡ (true, message, rest)
decode-encode message rest old h k =
    rw (encode_lem message h k, append_assoc (header (length message)) message rest)
      (decode-header message rest old k)

-- What a result of decode says of the buffer.
abbrev pub Decoded : Bytes → Bytes → Bool × Bytes × Bytes → Type 0
Decoded buffer old (true, message, rest) =
    (length message ≤ max_message_length) × (buffer ≡ header (length message) ++ (message ++ rest))
Decoded buffer old (false, message, rest) =
    (message ≡ old)
    × (rest ≡ buffer)
    × ((length buffer < 4 + announced buffer) ⊎ (max_message_length < announced buffer))

pub decode_none :
    (buffer old : Bytes)
    → (length buffer < 4 + announced buffer) ⊎ (max_message_length < announced buffer)
    → decode buffer old ≡ (false, old, buffer)
unfolding decode
decode_none buffer old h = ground arith

header-announced :
    (buffer : Bytes)
    → All IsByte buffer
    → 4 ≤ length buffer
    → header (announced buffer) ≡ take 4 buffer
unfolding network_to_host32
header-announced buffer h k =
    store-swap_bytes-load 4 (take 4 buffer) (omega (arith, length-take 4 buffer))
      (All-take IsByte 4 buffer h)

found-Decoded :
    (buffer old : Bytes) (n : ℕ)
    → All IsByte buffer
    → announced buffer ≡ n
    → n ≤ max_message_length
    → 4 + n ≤ length buffer
    → Decoded buffer old (true, drop 4 (take (4 + n) buffer), drop (4 + n) buffer)
found-Decoded buffer old n h e small enough =
    let size : length (drop 4 (take (4 + n) buffer)) ≡ n =
      omega (arith, length-drop 4 (take (4 + n) buffer), length-take (4 + n) buffer) in
    let front : header n ≡ take 4 buffer =
      subst (λ k. header k ≡ take 4 buffer) e (header-announced buffer h (omega arith)) in
    (omega (arith, size), sym (rw (size, front) (take_split 4 n buffer)))

pub Decoded-cases :
    (buffer : Bytes)
    → ((announced buffer ≤ max_message_length) × (4 + announced buffer ≤ length buffer))
      ⊎ ((length buffer < 4 + announced buffer) ⊎ (max_message_length < announced buffer))
Decoded-cases buffer = grind arith

-- decode takes exactly one frame of at most 100 MB off the front of the buffer, or changes
-- nothing: then the buffer does not hold the header and as many bytes as it announces, or the
-- announced length is above 100 MB.
pub decode-Decoded :
    (buffer old : Bytes) → All IsByte buffer → Decoded buffer old (decode buffer old)
decode-Decoded buffer old h = elim (Decoded-cases buffer) [
  | inl (small, enough) ↦
      rw (decode_found buffer old small enough)
        (found-Decoded buffer old (announced buffer) h refl small enough)
  | inr bad ↦ rw (decode_none buffer old bad) (refl, refl, bad)
]
