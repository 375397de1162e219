-- ===== src/Script.antt =====
-- src/bytecode/script_codec.h: the codec of Bitcoin Script pushes.
pub mod Hex
pub mod HexText
pub mod Codec
pub mod Bytes
pub mod Consumed
pub mod RoundTrip
pub mod Minimal
pub mod Sizes
pub mod Strict
pub mod Decoder
mod Tests
