-- ===== src/Transport/Server/Delivery.antt =====
-- Lemmas on a stream of frames that the server of src/transport/tcp_server.cpp reads.
use my_mprpc.Prelude.{◌≡◌, refl, ap, ◌∙◌, true, List, [], ◌∷◌, ◌++◌, append_assoc, Bytes, All, map}
use my_mprpc.Codec.FrameCodec.{encode}
use my_mprpc.Codec.MessageHandler.Streaming.{wire}
use my_mprpc.Transport.Connection.{TcpConnection}
use my_mprpc.Transport.Connection.Frames.{wait, next_frame}
use my_mprpc.Transport.Server.Events.{message}
use my_mprpc.Transport.Server.Stream.{IsFrame, next_frame-encode}
use my_mprpc.Transport.Server.Reading.{called_with}

pub wire_stuck :
    (messages : List Bytes) (bytes rest : Bytes)
    → All IsFrame messages
    → next_frame bytes ≡ wait
    → bytes ≡ wire messages ++ rest
    → (messages ≡ []) × (bytes ≡ rest)
wire_stuck [] bytes rest h w e = (refl, e)
wire_stuck (m ∷ messages) bytes rest (f, h) w e = absurd (
    cc (
      w,
      ap next_frame (e ∙ append_assoc (encode m) (wire messages) rest),
      next_frame-encode m (wire messages ++ rest) f,
    ))

pub called-message :
    (c : TcpConnection) (ms : List Bytes)
    → c.callbacks.message ≡ true
    → called_with c ms ≡ map message ms
called-message c ms set = rw set refl

pub All-split : (xs ys : List Bytes) → All IsFrame (xs ++ ys) → All IsFrame xs × All IsFrame ys
All-split [] ys h = (tt, h)
All-split (x ∷ xs) ys (f, h) = let (hx, hy) = All-split xs ys h in ((f, hx), hy)
