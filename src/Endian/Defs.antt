-- ===== src/Endian/Defs.antt =====
-- Integers in memory, and src/util/tss2_endian.h on a little-endian host: an integer lies in memory
-- with its lowest byte first, and HOST_TO_BE_n and BE_TO_HOST_n swap its bytes by `endian_conv_n`.
-- (On Linux the macros call glibc's `htobe16` and the like, which swap in the same way.) The masked
-- and shifted parts of a swap share no bit, so that `|` is written as a sum, and `value & mask` as
-- the byte at the mask's place.
use mathlib.Core.List.{reverse}
use tpm2_tss_verified.Common.{ℕ, zero, suc, ◌+◌, ◌*◌, ◌/◌, ◌%◌, ◌^◌, [], ◌∷◌}
use tpm2_tss_verified.Memory.{Bytes}

-- sizeof of the integer types.
pub data Width : Type 0 where
  w1 w2 w4 w8 : Width

abbrev pub size_of : Width → ℕ
size_of w1 = 1
size_of w2 = 2
size_of w4 = 4
size_of w8 = 8

-- (value & (0xff << 8 * i)) >> 8 * i
abbrev byte_at : ℕ → ℕ → ℕ
byte_at value i = value / 2 ^ (8 * i) % 256

unfoldable pub endian_conv_16 : ℕ → ℕ
endian_conv_16 value = byte_at value 0 * 2 ^ 8 + byte_at value 1

unfoldable pub endian_conv_32 : ℕ → ℕ
endian_conv_32 value =
    byte_at value 0 * 2 ^ 24 + byte_at value 1 * 2 ^ 16 + byte_at value 2 * 2 ^ 8 + byte_at value 3

unfoldable pub endian_conv_64 : ℕ → ℕ
endian_conv_64 value =
    byte_at value 0 * 2 ^ 56
    + byte_at value 1 * 2 ^ 48
    + byte_at value 2 * 2 ^ 40
    + byte_at value 3 * 2 ^ 32
    + byte_at value 4 * 2 ^ 24
    + byte_at value 5 * 2 ^ 16
    + byte_at value 6 * 2 ^ 8
    + byte_at value 7

-- The `switch (sizeof (type))` of the marshalling macros, with the casts of the macros' arguments.
unfoldable pub host_to_be : Width → ℕ → ℕ
host_to_be w1 value = value
host_to_be w2 value = endian_conv_16 (value % 2 ^ 16)
host_to_be w4 value = endian_conv_32 (value % 2 ^ 32)
host_to_be w8 value = endian_conv_64 (value % 2 ^ 64)

unfoldable pub be_to_host : Width → ℕ → ℕ
be_to_host w1 value = value
be_to_host w2 value = endian_conv_16 (value % 2 ^ 16)
be_to_host w4 value = endian_conv_32 (value % 2 ^ 32)
be_to_host w8 value = endian_conv_64 (value % 2 ^ 64)

-- The `n` bytes of an integer in memory, and the integer that bytes in memory stand for.
unfoldable pub to_memory : ℕ → ℕ → Bytes
to_memory zero value = []
to_memory (suc n) value = (value % 256) ∷ to_memory n (value / 256)

unfoldable pub of_memory : Bytes → ℕ
of_memory [] = 0
of_memory (b ∷ bytes) = b + 256 * of_memory bytes

-- The wire format: the highest byte first.
unfoldable pub to_be : ℕ → ℕ → Bytes
unfolding to_memory
to_be n value = reverse (to_memory n value)

unfoldable pub of_be : Bytes → ℕ
unfolding of_memory
of_be bytes = of_memory (reverse bytes)
