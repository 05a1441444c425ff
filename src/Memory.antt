-- ===== src/Memory.antt =====
-- Byte arrays, and `memcpy` in and out of them. An access outside the array is a fault, `none`.
mod Splice
pub use Splice.*
use tpm2_tss_verified.Common.{
  ℕ, ◌+◌, ◌≤◌, ◌^◌, ◌≡◌, Option, none, some, List, leb, length, arith, if◌then◌else◌,
}

abbrev pub Bytes : Type 0
Bytes = List ℕ

-- The values of `size_t` are below this.
abbrev pub size_mod : ℕ
size_mod = 2 ^ 64

-- memcpy(&buf[offset], bytes, length bytes)
unfoldable pub write : Bytes → ℕ → Bytes → Option Bytes
write bytes offset buf =
    if leb (offset + length bytes) (length buf) then some (splice offset bytes buf) else none

-- memcpy(tmp, &buf[offset], n)
unfoldable pub read : ℕ → ℕ → Bytes → Option Bytes
read n offset buf = if leb (offset + n) (length buf) then some (slice offset n buf) else none

module _ (bytes : Bytes) (offset : ℕ) (buf : Bytes) where
  pub write_within :
      offset + length bytes ≤ length buf → write bytes offset buf ≡ some (splice offset bytes buf)
  unfolding write
  write_within h = ground arith

pub read_within :
    (n offset : ℕ) (buf : Bytes)
    → offset + n ≤ length buf
    → read n offset buf ≡ some (slice offset n buf)
unfolding read
read_within n offset buf h = ground arith
