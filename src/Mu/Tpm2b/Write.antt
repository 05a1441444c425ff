-- ===== src/Mu/Tpm2b/Write.antt =====
-- Lemmas on TPM2B_MARSHAL of src/tss2-mu/tpm2b-types.c.
use native.Mathlib.Nat.{mod-eq_of_lt, add-zero}
use tpm2_tss_verified.Common.{
  ℕ, zero, suc, ◌+◌, ◌≤◌, ◌<◌, ◌≡◌, ap, some, length, ==-suc-zero, arith,
}
use tpm2_tss_verified.Rc.{rc_success, mu_insufficient_buffer}
use tpm2_tss_verified.Memory.{
  Bytes, size_mod, splice, slice, splice_nil, length-slice, length-splice, write_within,
  read_within,
}
use tpm2_tss_verified.Endian.{w2, to_be, length-to_be}
use tpm2_tss_verified.Mu.Codec.{marshalled, marshalled-append}
use tpm2_tss_verified.Mu.Base.Laws.{too_small_not, too_small_of, base_marshal_fits}
use tpm2_tss_verified.Mu.Tpm2b.{Tpm2b, copy_payload, tpm2b_marshal}
use tpm2_tss_verified.Mu.Tpm2b.Wire.{
  payload, sized, IsSized, length-payload, length-sized, sized_of,
}

copy_payload_lem :
    (n : ℕ) (bytes : Bytes) (offset local : ℕ) (buf : Bytes)
    → n ≤ length bytes
    → local + n ≤ length buf
    → local + n < size_mod
    → copy_payload (record { size = n; buffer = bytes }) (some offset) (some buf) local
      ≡ some (record {
        rc = rc_success;
        buffer = some (splice local (slice 0 n bytes) buf);
        offset = some (local + n);
      })
unfolding copy_payload
copy_payload_lem zero bytes offset local buf h hb hm = rw (splice_nil, add-zero)
copy_payload_lem (suc n) bytes offset local buf h hb hm = rw (
  ==-suc-zero n,
  read_within (suc n) 0 bytes (omega arith),
  write_within (slice 0 (suc n) bytes) local buf
      (rw (length-slice 0 (suc n) bytes (omega arith)) hb),
  mod-eq_of_lt {n = local + suc n} {m = size_mod} hm,
)

module _ (capacity : ℕ) where
  pub tpm2b_fits :
      (t : Tpm2b) (buf : Bytes) (size offset : ℕ)
      → IsSized capacity t
      → offset + length (sized (payload t)) ≤ size
      → size ≤ length buf
      → size < size_mod
      → tpm2b_marshal (some t) (some buf) size (some offset)
        ≡ some (marshalled (sized (payload t)) buf offset)
  unfolding tpm2b_marshal
  tpm2b_fits t buf size offset v h hs hm =
      let n = length-payload capacity t v in
      let room : offset + (2 + t.size) ≤ size = omega (arith, length-sized (payload t)) in
      rw
        (
          too_small_not size offset (2 + t.size) room,
          base_marshal_fits w2 buf size offset t.size (omega arith) hs hm,
          copy_payload_lem t.size t.buffer offset (offset + 2) (splice offset (to_be 2 t.size) buf)
              (omega arith) (rw length-splice (omega arith)) (omega arith),
        )
        (rw (sized_of t n) (
          ap some (
            rw (length-to_be 2 t.size, n) at
              (marshalled-append (to_be 2 t.size) (payload t) buf offset))))

  pub tpm2b_short :
      (t : Tpm2b) (buf : Bytes) (size offset : ℕ)
      → IsSized capacity t
      → size < offset + length (sized (payload t))
      → tpm2b_marshal (some t) (some buf) size (some offset)
        ≡ some (record { rc = mu_insufficient_buffer; buffer = some buf; offset = some offset })
  unfolding tpm2b_marshal
  tpm2b_short t buf size offset v h =
      let n = length-payload capacity t v in
      rw (too_small_of size offset (2 + t.size) (omega (arith, length-sized (payload t))))
