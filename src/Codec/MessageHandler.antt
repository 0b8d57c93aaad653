-- ===== src/Codec/MessageHandler.antt =====
-- include/message_handler.h and src/codec/message_handler.cpp. What the callback is called with is
-- returned in order.
pub mod Streaming
use my_mprpc.Prelude.{
  ℕ, zero, suc, Bool, true, false, Option, none, some, List, [], ◌∷◌, ◌++◌, Bytes, length,
  if◌then◌else◌, ◌≡◌, refl,
}
use mathlib.Core.Option
use my_mprpc.Codec.FrameCodec.{decode}

pub record MessageHandler : Type 0 where
  pub receive_buffer : Bytes
  -- whether a callback is set
  pub message_callback : Bool

-- The new handler, and the messages that the callback was called with.
pub record Handled : Type 0 where
  pub handler : MessageHandler
  pub delivered : List Bytes

-- `while (true)` of handleData: `none` means that the fuel ran out.
pub decode_loop : ℕ → Bytes → Option (List Bytes × Bytes)
decode_loop zero buffer = none
decode_loop (suc fuel) buffer =
    let (found, message, rest) = decode buffer [] in
    elim found [
      | true ↦ Option.map (λ r. (message ∷ r.0, r.1)) (decode_loop fuel rest)
      | false ↦ some ([], rest)
    ]

call_back : Bool → List Bytes → List Bytes
call_back set messages = if set then messages else []

receive : MessageHandler → Bytes → Option Handled
unfolding call_back
receive h buffer =
    Option.map
      (λ r. record {
        handler = record h { receive_buffer = r.1 };
        delivered = call_back h.message_callback r.0;
      })
      (decode_loop (suc (length buffer)) buffer)

-- A decoded frame takes four bytes or more, so one round more than the buffer has bytes is enough
-- fuel.
pub handle_data : MessageHandler → Bytes → Option Handled
unfolding receive
handle_data h [] = some (record { handler = h; delivered = [] })
handle_data h (b ∷ bytes) = receive h (h.receive_buffer ++ (b ∷ bytes))

pub set_message_callback : Bool → MessageHandler → MessageHandler
set_message_callback callback h = record h { message_callback = callback }

-- handleData on one read after another, as a connection delivers them.
pub feed : MessageHandler → List Bytes → Option Handled
feed h [] = some (record { handler = h; delivered = [] })
feed h (bytes ∷ reads) = Option.bind (handle_data h bytes) λ first.
    Option.map
      (λ (later : Handled). record {
        handler = later.handler;
        delivered = first.delivered ++ later.delivered;
      })
      (feed first.handler reads)
