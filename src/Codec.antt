-- ===== src/Codec.antt =====
-- The byte encodings that the cursors are made of.
pub mod Bytes
pub mod Base64
pub mod Mac
