-- ===== src/Tcti/Wire.antt =====
-- The ten bytes of a command's header.
use tpm2_tss_verified.Common.{
  ◌≤◌, ◌≡◌, ap, ◌∙◌, some, length, ◌++◌, length-append, All, All-append, arith,
}
use tpm2_tss_verified.Rc.{rc_success}
use tpm2_tss_verified.Memory.{
  Bytes, splice, slice, splice-append, slice-splice, length-splice, slice_append, splice-All,
}
use tpm2_tss_verified.Endian.{
  w2, w4, to_be, of_be, IsByte, Fits, length-to_be, of_be-to_be, to_be-IsByte, slice-IsByte,
}
use tpm2_tss_verified.Mu.Base.Laws.{base_marshal_fits, base_unmarshal_fits}
use tpm2_tss_verified.Tcti.{Header, tpm_header_size, header_unmarshal, header_marshal}

-- The tag, the size and the code on the wire.
abbrev pub wire : Header → Bytes
wire h = to_be 2 h.tag ++ (to_be 4 h.size ++ to_be 4 h.code)

abbrev pub IsValid : Header → Type 0
IsValid h = Fits w2 h.tag × Fits w4 h.size × Fits w4 h.code

-- The fields that the first ten bytes stand for.
abbrev pub parsed : Bytes → Header
parsed buf = record {
  tag = of_be (slice 0 2 buf);
  size = of_be (slice 2 4 buf);
  code = of_be (slice 6 4 buf);
}

pub length-wire : (h : Header) → length (wire h) ≡ tpm_header_size
length-wire h = omega (
  arith,
  length-append (to_be 2 h.tag) (to_be 4 h.size ++ to_be 4 h.code),
  length-append (to_be 4 h.size) (to_be 4 h.code),
  length-to_be 2 h.tag,
  length-to_be 4 h.size,
  length-to_be 4 h.code,
)

module _ (buf : Bytes) (room : tpm_header_size ≤ length buf) where
  -- On a buffer of at least ten bytes the header is read from the first ten of them.
  pub header_unmarshal-parsed :
      (h : Header)
      → All IsByte buf
      → header_unmarshal (some buf) (some h) ≡ some (rc_success, some (parsed buf))
  unfolding header_unmarshal
  header_unmarshal-parsed h hb = rw (
    base_unmarshal_fits w2 buf 10 0 h.tag (slice-IsByte 0 2 buf hb) (omega arith) room
        (omega arith),
    base_unmarshal_fits w4 buf 10 2 h.size (slice-IsByte 2 4 buf hb) (omega arith) room
        (omega arith),
    base_unmarshal_fits w4 buf 10 6 h.code (slice-IsByte 6 4 buf hb) (omega arith) room
        (omega arith),
  )

  -- A header is written over the first ten bytes.
  pub header_marshal-wire :
      (h : Header)
      → header_marshal (some h) (some buf) ≡ some (rc_success, some (splice 0 (wire h) buf))
  unfolding header_marshal
  header_marshal-wire h =
      let one = splice 0 (to_be 2 h.tag) buf in
      let two = splice 2 (to_be 4 h.size) one in
      let l1 : length one ≡ length buf = length-splice 0 (to_be 2 h.tag) buf in
      let l2 : length two ≡ length one = length-splice 2 (to_be 4 h.size) one in
      let e1 : splice 2 (to_be 4 h.size ++ to_be 4 h.code) one ≡ splice 0 (wire h) buf =
        rw (length-to_be 2 h.tag) at
          (splice-append 0 (to_be 2 h.tag) (to_be 4 h.size ++ to_be 4 h.code) buf) in
      let e2 : splice 6 (to_be 4 h.code) two ≡ splice 2 (to_be 4 h.size ++ to_be 4 h.code) one =
        rw (length-to_be 4 h.size) at (splice-append 2 (to_be 4 h.size) (to_be 4 h.code) one) in
      rw
        (
          base_marshal_fits w2 buf 10 0 h.tag (omega arith) room (omega arith),
          base_marshal_fits w4 one 10 2 h.size (omega arith) (omega arith) (omega arith),
          base_marshal_fits w4 two 10 6 h.code (omega arith) (omega arith) (omega arith),
        )
        (ap (λ (b : Bytes). some (rc_success, some b)) (e2 ∙ e1))

-- Ten bytes that are a header's stand for that header.
pub parsed-wire :
    (h : Header) (buf : Bytes)
    → IsValid h
    → tpm_header_size ≤ length buf
    → slice 0 tpm_header_size buf ≡ wire h
    → parsed buf ≡ h
parsed-wire h buf (vt, vs, vc) room e =
    let rest = to_be 4 h.size ++ to_be 4 h.code in
    let n = length-wire h in
    let m : length rest ≡ 8 =
      omega (arith, length-append (to_be 2 h.tag) rest, length-to_be 2 h.tag) in
    let (e0, e') = slice_append 0 (to_be 2 h.tag) rest buf (omega arith) (rw n e) in
    let e8 : slice 2 (length rest) buf ≡ rest = rw length-to_be at e' in
    let (e2, e6) = slice_append 2 (to_be 4 h.size) (to_be 4 h.code) buf (omega arith) e8 in
    let f0 : slice 0 2 buf ≡ to_be 2 h.tag = rw length-to_be at e0 in
    let f2 : slice 2 4 buf ≡ to_be 4 h.size = rw length-to_be at e2 in
    let f6 : slice 6 4 buf ≡ to_be 4 h.code =
      rw (length-to_be 4 h.size, length-to_be 4 h.code) at e6 in
    rw (f0, f2, f6, of_be-to_be 2 h.tag vt, of_be-to_be 4 h.size vs, of_be-to_be 4 h.code vc)

pub wire-IsByte : (h : Header) → All IsByte (wire h)
wire-IsByte h =
    All-append IsByte _ _ (to_be-IsByte 2 h.tag)
      (All-append IsByte _ _ (to_be-IsByte 4 h.size) (to_be-IsByte 4 h.code))

-- A header whose fields fit is written to any buffer of at least ten bytes, and read back from it
-- as it was, whatever the destination holds.
pub header_unmarshal-header_marshal :
    (h d : Header) (buf : Bytes)
    → IsValid h
    → All IsByte buf
    → tpm_header_size ≤ length buf
    → (out : Bytes) × (header_marshal (some h) (some buf) ≡ some (rc_success, some out))
      × (header_unmarshal (some out) (some d) ≡ some (rc_success, some h))
      × (length out ≡ length buf)
header_unmarshal-header_marshal h d buf v hb room =
    let out = splice 0 (wire h) buf in
    let l = length-splice 0 (wire h) buf in
    let n = length-wire h in
    let e : slice 0 tpm_header_size out ≡ wire h =
      rw n at (slice-splice 0 (wire h) buf (omega arith)) in
    (
      out,
      header_marshal-wire buf room h,
      rw (parsed-wire h out v (omega arith) e) at (
          header_unmarshal-parsed out (omega arith) d
            (splice-All IsByte 0 (wire h) buf (wire-IsByte h) hb)),
      l,
    )
