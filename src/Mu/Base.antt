-- ===== src/Mu/Base.antt =====
-- src/tss2-mu/base-types.c and tpma-types.c: the integer types and the attribute words.
pub mod Laws
use tpm2_tss_verified.Common.{
  ℕ, ◌+◌, ◌-◌, ◌%◌, Bool, Option, none, some, ltb, ◌||◌, if◌then◌else◌, ◌>>=◌,
}
use tpm2_tss_verified.Rc.{rc_success, mu_bad_reference, mu_insufficient_buffer}
use tpm2_tss_verified.Memory.{Bytes, size_mod, write, read}
use tpm2_tss_verified.Endian.{Width, size_of, host_to_be, be_to_host, to_memory, of_memory}
use tpm2_tss_verified.Mu.Codec.{Marshalled, Unmarshalled, local_of, store_offset}

-- buffer_size < local_offset || buffer_size - local_offset < need
unfoldable pub too_small : ℕ → ℕ → ℕ → Bool
too_small buffer_size local_offset need =
    ltb buffer_size local_offset || ltb (buffer_size - local_offset) need

-- BASE_MARSHAL(type), for an integer type of width `w`.
unfoldable pub base_marshal : Width → ℕ → Option Bytes → ℕ → Option ℕ → Option Marshalled
unfolding too_small
base_marshal w src none buffer_size none =
    some (record { rc = mu_bad_reference; buffer = none; offset = none })
base_marshal w src none buffer_size (some offset) =
    some
      (record { rc = rc_success; buffer = none; offset = some ((offset + size_of w) % size_mod) })
base_marshal w src (some buf) buffer_size offset =
    let local = local_of offset in
    if too_small buffer_size local (size_of w)
    then some (record { rc = mu_insufficient_buffer; buffer = some buf; offset = offset })
    else do
      buf' ← write (to_memory (size_of w) (host_to_be w src)) local buf
      some (record {
        rc = rc_success;
        buffer = some buf';
        offset = store_offset offset ((local + size_of w) % size_mod);
      })

-- The end of BASE_UNMARSHAL and TPMA_UNMARSHAL: the bytes are copied and swapped into `*dest`.
fetch : Width → Bytes → Option ℕ → Option (Unmarshalled ℕ)
fetch w buf offset = do
  bytes ← read (size_of w) (local_of offset) buf
  some (record {
    rc = rc_success;
    offset = store_offset offset ((local_of offset + size_of w) % size_mod);
    dest = some (be_to_host w (of_memory bytes));
  })

-- *offset += sizeof (type);
skip : Width → Option ℕ → Option (Unmarshalled ℕ)
skip w offset = some (record {
  rc = rc_success;
  offset = store_offset offset ((local_of offset + size_of w) % size_mod);
  dest = none;
})

-- BASE_UNMARSHAL(type). With no `dest` the object is skipped, once it is known to be in the buffer.
unfoldable pub base_unmarshal :
    Width → Option Bytes → ℕ → Option ℕ → Option ℕ → Option (Unmarshalled ℕ)
unfolding too_small fetch skip
base_unmarshal w none buffer_size offset dest =
    some (record { rc = mu_bad_reference; offset = offset; dest = dest })
base_unmarshal w (some buf) buffer_size none none =
    some (record { rc = mu_bad_reference; offset = none; dest = none })
base_unmarshal w (some buf) buffer_size (some offset) none =
    if too_small buffer_size offset (size_of w)
    then some (record { rc = mu_insufficient_buffer; offset = some offset; dest = none })
    else skip w (some offset)
base_unmarshal w (some buf) buffer_size offset (some dest) =
    if too_small buffer_size (local_of offset) (size_of w)
    then some (record { rc = mu_insufficient_buffer; offset = offset; dest = some dest })
    else fetch w buf offset

-- TPMA_MARSHAL(type): the same steps as BASE_MARSHAL, over the word that holds the attributes.
unfoldable pub tpma_marshal : Width → ℕ → Option Bytes → ℕ → Option ℕ → Option Marshalled
unfolding base_marshal
tpma_marshal = base_marshal

-- TPMA_UNMARSHAL(type): with no `dest` the offset moves on before the bounds are looked at.
unfoldable pub tpma_unmarshal :
    Width → Option Bytes → ℕ → Option ℕ → Option ℕ → Option (Unmarshalled ℕ)
unfolding too_small fetch skip
tpma_unmarshal w none buffer_size offset dest =
    some (record { rc = mu_bad_reference; offset = offset; dest = dest })
tpma_unmarshal w (some buf) buffer_size none none =
    some (record { rc = mu_bad_reference; offset = none; dest = none })
tpma_unmarshal w (some buf) buffer_size (some offset) none = skip w (some offset)
tpma_unmarshal w (some buf) buffer_size offset (some dest) =
    if too_small buffer_size (local_of offset) (size_of w)
    then some (record { rc = mu_insufficient_buffer; offset = offset; dest = some dest })
    else fetch w buf offset
