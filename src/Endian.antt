-- ===== src/Endian.antt =====
-- src/util/tss2_endian.h on a little-endian host, and the wire format of integers.
mod Defs
mod Swap
pub use Defs.{Width, w1, w2, w4, w8, size_of}
unfoldable pub use Defs.{
  endian_conv_16, endian_conv_32, endian_conv_64, host_to_be, be_to_host, to_memory, of_memory,
  to_be, of_be,
}
pub use Swap.*
