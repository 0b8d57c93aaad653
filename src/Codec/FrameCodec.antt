-- ===== src/Codec/FrameCodec.antt =====
-- include/frame_codec.h and src/codec/frame_codec.cpp. A `bool` with output parameters is a tuple
-- of the result and the new values of the parameters.
pub mod RoundTrip
use my_mprpc.Prelude.{
  ℕ, ◌+◌, ◌*◌, ◌%◌, ◌^◌, ◌≡◌, refl, Bool, true, false, [], ◌∷◌, ◌++◌, Bytes, length, take, drop,
  ltb, if◌then◌else◌,
}
use my_mprpc.ByteOrder.{store, load, swap_bytes}

-- sizeof(uint32_t)
abbrev pub get_header_size : ℕ
get_header_size = 4

-- htonl
unfoldable pub host_to_network32 : ℕ → ℕ
host_to_network32 value = swap_bytes 4 value

-- ntohl
unfoldable pub network_to_host32 : ℕ → ℕ
network_to_host32 value = swap_bytes 4 value

-- `static_cast<uint32_t>` keeps the low 32 bits of the size.
encode_nonempty : Bytes → Bytes
unfolding host_to_network32
encode_nonempty message =
    let message_length = length message % 2 ^ 32 in
    let network_length = host_to_network32 message_length in
    store get_header_size network_length ++ message

unfoldable pub encode : Bytes → Bytes
unfolding encode_nonempty
encode [] = []
encode (b ∷ message) = encode_nonempty (b ∷ message)

-- 1024 * 1024 * 100
abbrev pub max_message_length : ℕ
max_message_length = 104857600

-- (result, message, buffer)
pub decode : Bytes → Bytes → Bool × Bytes × Bytes
unfolding network_to_host32
decode buffer message =
    if ltb (length buffer) get_header_size
    then (false, message, buffer)
    else let network_length = load (take get_header_size buffer) in
      let message_length = network_to_host32 network_length in
      let total_frame_size = get_header_size + message_length in
      if ltb max_message_length message_length
      then (false, message, buffer)
      else if ltb (length buffer) total_frame_size
      then (false, message, buffer)
      else (true, drop get_header_size (take total_frame_size buffer), drop total_frame_size buffer)

encode_hi : encode (104 ∷ 105 ∷ []) ≡ 0 ∷ 0 ∷ 0 ∷ 2 ∷ 104 ∷ 105 ∷ []
unfolding encode store load swap_bytes
encode_hi = refl

decode_hi : decode (0 ∷ 0 ∷ 0 ∷ 2 ∷ 104 ∷ 105 ∷ 9 ∷ []) [] ≡ (true, 104 ∷ 105 ∷ [], 9 ∷ [])
unfolding decode store load swap_bytes
decode_hi = refl

decode_short :
    decode (0 ∷ 0 ∷ 0 ∷ 2 ∷ 104 ∷ []) (7 ∷ []) ≡ (false, 7 ∷ [], 0 ∷ 0 ∷ 0 ∷ 2 ∷ 104 ∷ [])
unfolding decode store load swap_bytes
decode_short = refl
