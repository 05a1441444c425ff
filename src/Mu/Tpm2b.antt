-- ===== src/Mu/Tpm2b.antt =====
-- src/tss2-mu/tpm2b-types.c: sized byte buffers.
pub mod Wire
pub mod Write
pub mod Read
pub mod Laws
use tpm2_tss_verified.Common.{ℕ, ◌+◌, ◌-◌, ◌%◌, Option, none, some, ltb, ◌==◌, if◌then◌else◌, ◌>>=◌}
use tpm2_tss_verified.Rc.{rc_success, mu_bad_reference, mu_insufficient_buffer}
use tpm2_tss_verified.Memory.{Bytes, size_mod, write, read}
use tpm2_tss_verified.Endian.{w2}
use tpm2_tss_verified.Mu.Codec.{
  Marshalled, Unmarshalled, local_of, store_offset, try_marshal, try_unmarshal,
}
use tpm2_tss_verified.Mu.Base.{too_small, base_marshal, base_unmarshal}

-- The `size` field and the array behind it, whose length is the capacity of the type.
pub record Tpm2b : Type 0 where
  pub size : ℕ
  pub buffer : Bytes

-- if (src->size) memcpy(&buffer[local_offset], src->buffer, src->size); and the end of the function.
unfoldable pub copy_payload : Tpm2b → Option ℕ → Option Bytes → ℕ → Option Marshalled
copy_payload src offset none local = none
copy_payload src offset (some buf) local =
    if src.size == 0
    then some (record { rc = rc_success; buffer = some buf; offset = store_offset offset local })
    else do
      bytes ← read src.size 0 src.buffer
      buf' ← write bytes local buf
      some (record {
        rc = rc_success;
        buffer = some buf';
        offset = store_offset offset ((local + src.size) % size_mod);
      })

-- TPM2B_MARSHAL(type)
unfoldable pub tpm2b_marshal : Option Tpm2b → Option Bytes → ℕ → Option ℕ → Option Marshalled
tpm2b_marshal none buffer buffer_size offset =
    some (record { rc = mu_bad_reference; buffer = buffer; offset = offset })
tpm2b_marshal (some src) none buffer_size none =
    some (record { rc = mu_bad_reference; buffer = none; offset = none })
tpm2b_marshal (some src) none buffer_size (some offset) = some (record {
  rc = rc_success;
  buffer = none;
  offset = some ((offset + (2 + src.size)) % size_mod);
})
tpm2b_marshal (some src) (some buf) buffer_size offset =
    if too_small buffer_size (local_of offset) (2 + src.size)
    then some (record { rc = mu_insufficient_buffer; buffer = some buf; offset = offset })
    else try_marshal (base_marshal w2 src.size (some buf) buffer_size (some (local_of offset)))
        offset (copy_payload src offset)

-- if (dest != NULL) { dest->size = size; memcpy(dest->buffer, &buffer[local_offset], size); }
-- local_offset += size; and the end of the function.
unfoldable pub take_payload : Bytes → ℕ → ℕ → Option ℕ → Option Tpm2b → Option (Unmarshalled Tpm2b)
take_payload buf local size offset none = some (record {
  rc = rc_success;
  offset = store_offset offset ((local + size) % size_mod);
  dest = none;
})
take_payload buf local size offset (some dest) = do
  bytes ← read size local buf
  buffer' ← write bytes 0 dest.buffer
  some (record {
    rc = rc_success;
    offset = store_offset offset ((local + size) % size_mod);
    dest = some (record { size = size; buffer = buffer' });
  })

-- The checks of the size that was read. `local_offset` is at most `buffer_size` here.
unfoldable pub check_payload :
    ℕ → Bytes → ℕ → Option ℕ → Option Tpm2b → Option ℕ → ℕ → Option (Unmarshalled Tpm2b)
check_payload capacity buf buffer_size offset dest none local = none
check_payload capacity buf buffer_size offset dest (some size) local =
    if ltb (buffer_size - local) size
    then some (record { rc = mu_insufficient_buffer; offset = offset; dest = dest })
    else if ltb capacity size
    then some (record { rc = mu_insufficient_buffer; offset = offset; dest = dest })
    else take_payload buf local size offset dest

-- TPM2B_UNMARSHAL(type, buf_name), behind the checks of its pointers.
unfoldable pub tpm2b_read : ℕ → Bytes → ℕ → Option ℕ → Option Tpm2b → Option (Unmarshalled Tpm2b)
tpm2b_read capacity buf buffer_size offset dest =
    if too_small buffer_size (local_of offset) 2
    then some (record { rc = mu_insufficient_buffer; offset = offset; dest = dest })
    else try_unmarshal (base_unmarshal w2 (some buf) buffer_size (some (local_of offset)) (some 0))
        offset (λ _. dest) (check_payload capacity buf buffer_size offset dest)

unfoldable pub tpm2b_unmarshal :
    ℕ → Option Bytes → ℕ → Option ℕ → Option Tpm2b → Option (Unmarshalled Tpm2b)
unfolding tpm2b_read
tpm2b_unmarshal capacity none buffer_size offset dest =
    some (record { rc = mu_bad_reference; offset = offset; dest = dest })
tpm2b_unmarshal capacity (some buf) buffer_size none none =
    some (record { rc = mu_bad_reference; offset = none; dest = none })
tpm2b_unmarshal capacity (some buf) buffer_size (some offset) none =
    tpm2b_read capacity buf buffer_size (some offset) none
tpm2b_unmarshal capacity (some buf) buffer_size offset (some dest) =
    tpm2b_read capacity buf buffer_size offset (some dest)
