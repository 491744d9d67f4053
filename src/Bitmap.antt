-- ===== src/Bitmap.antt =====
-- common/bitmap: a set of numbers as the bits of a byte slice.
pub mod Bits
mod Bytes
mod Laws
mod Samples
