-- ===== src/Tests/Codec.antt =====
-- src/codec at concrete inputs.
use mathlib.Core.List.{flatten}
use my_mprpc.Prelude.{◌≡◌, refl, inl, true, some, List, [], ◌∷◌, ◌++◌, arith, Bytes}
use my_mprpc.ByteOrder.{store, load, swap_bytes}
use my_mprpc.Codec.FrameCodec.{encode, decode}
use my_mprpc.Codec.FrameCodec.RoundTrip.{decode-encode, decode_none}
use my_mprpc.Codec.MessageHandler.{feed}
use my_mprpc.Codec.MessageHandler.Streaming.{feed-wire}

abbrev hi : Bytes
hi = 104 ∷ 105 ∷ []

abbrev pieces : List Bytes
pieces = (0 ∷ 0 ∷ 0 ∷ []) ∷ (2 ∷ 104 ∷ []) ∷ [] ∷ (105 ∷ 0 ∷ 0 ∷ []) ∷ []

decode-encode_example : decode (encode hi ++ 9 ∷ []) (7 ∷ []) ≡ (true, hi, 9 ∷ [])
decode-encode_example = decode-encode hi (9 ∷ []) (7 ∷ []) (omega arith) (omega arith)

feed-wire_example :
    feed (record { receive_buffer = []; message_callback = true }) pieces
    ≡ some (record {
      handler = record { receive_buffer = 0 ∷ 0 ∷ []; message_callback = true };
      delivered = hi ∷ [];
    })
unfolding encode flatten store load swap_bytes
feed-wire_example =
    feed-wire pieces (hi ∷ []) (0 ∷ 0 ∷ []) (omega arith)
      (decode_none (0 ∷ 0 ∷ []) [] (inl (omega arith))) refl
