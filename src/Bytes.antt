-- ===== src/Bytes.antt =====
-- Byte sequences (`Bytes`, `Vec<u8>`, `&[u8]`), their slices, and fixed-width integers in them.
mod Defs
mod Slice
mod Endian
pub mod Order
pub mod Numeric
unfoldable pub use Defs.{
  Bytes, slice, slice_from, le_bytes, from_le, be_bytes, from_be, u32_mod, u64_mod, as_u32, resize,
}
pub use Slice.*
pub use Endian.*
