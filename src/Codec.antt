-- ===== src/Codec.antt =====
-- The narrowband codec: its tables, the size of its frames, its filters, the quantizer of its line
-- spectral pairs, the innovation of its sub-frames, the control requests of its encoder and decoder,
-- and how the decoder finds a frame.
pub mod Tables
pub mod Modes
pub mod Frame
pub mod Rms
pub mod Filters
pub mod Lsp
pub mod Vq
pub mod Innovation
pub mod Requests
pub mod Encoder
pub mod Decoder
mod Tests
