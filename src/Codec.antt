-- ===== src/Codec.antt =====
-- src/codec: the frame codec and the message handler that feeds it.
pub mod FrameCodec
pub mod MessageHandler
