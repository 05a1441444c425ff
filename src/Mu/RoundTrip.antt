-- ===== src/Mu/RoundTrip.antt =====
-- What the marshalling functions of every type promise to their callers, from the contract of a
-- codec: round trips, and what an operation leaves alone.
use tpm2_tss_verified.Common.{
  ℕ, ◌+◌, ◌-◌, ◌≤◌, ◌<◌, ◌≡◌, ◌≢◌, refl, ◌⊎◌, inl, inr, some, length, get_elem?, All, le_or_lt,
  arith, leb, le→leb, lt→leb, if◌then◌else◌,
}
use tpm2_tss_verified.Rc.{rc_success, mu_insufficient_buffer}
use tpm2_tss_verified.Memory.{
  Bytes, size_mod, splice, slice, slice-splice, length-splice, get_elem?-splice,
}
use tpm2_tss_verified.Endian.{IsByte}
use tpm2_tss_verified.Mu.Codec.{Marshalled, marshalled}
use tpm2_tss_verified.Mu.Format.{Format}

outside_of :
    (offset size i n : ℕ)
    → n ≤ size - offset
    → (i < offset) ⊎ (size ≤ i)
    → (i < offset) ⊎ (offset + n ≤ i)
outside_of offset size i n h out = elim (le_or_lt offset i) [
  | inl behind ↦ inr (omega arith)
  | inr before ↦ inl before
]

module _ {A V : Type 0} (f : Format A V) where
  open f.codec use {IsValid, HasShape, view, encode, marshal, unmarshal}

  -- An object that was marshalled into a buffer with room for it is read back, with the same
  -- value on the wire and the same offset behind it, into any destination of the type.
  pub reads_back :
      (a d : A) (buf : Bytes) (size offset : ℕ)
      → IsValid a
      → HasShape d
      → offset + length (encode (view a)) ≤ size
      → size ≤ length buf
      → size < size_mod
      → (out : Bytes) × (end : ℕ) × (d' : A) × (marshal a (some buf) size (some offset)
          ≡ some (record { rc = rc_success; buffer = some out; offset = some end }))
        × (unmarshal (some out) size (some offset) (some d)
            ≡ some (record { rc = rc_success; offset = some end; dest = some d' }))
        × (view d' ≡ view a)
  reads_back a d buf size offset v s h hs hm =
      let out = splice offset (encode (view a)) buf in
      let (d', _, same, eq) =
        f.law.reads a d out size offset v s h (rw length-splice hs) hm
          (slice-splice offset (encode (view a)) buf (omega arith)) in
      (out, offset + length (encode (view a)), d', f.law.fits a buf size offset v h hs hm, eq, same)

  -- On any bytes at all, with `buffer_size` no more than the buffer holds, reading touches nothing
  -- outside the buffer and the destination: it succeeds, and then the offset has not passed
  -- `buffer_size` and the object marshals to the very bytes that were read, or it fails and the
  -- offset stays where it was.
  pub writes_back :
      (d : A) (buf : Bytes) (size offset : ℕ)
      → HasShape d
      → All IsByte buf
      → size ≤ length buf
      → size < size_mod
      → ((a : A) × (end : ℕ) × (unmarshal (some buf) size (some offset) (some d)
            ≡ some (record { rc = rc_success; offset = some end; dest = some a }))
          × (end ≤ size)
          × (marshal a (some buf) size (some offset)
              ≡ some (record {
                rc = rc_success;
                buffer = some (splice offset (slice offset (end - offset) buf) buf);
                offset = some end;
              })))
        ⊎ ((left : A) × (rc : ℕ) × (rc ≢ rc_success)
            × (unmarshal (some buf) size (some offset) (some d)
                ≡ some (record { rc = rc; offset = some offset; dest = some left })))
  writes_back d buf size offset s hb hs hm = elim (f.law.decodes d buf size offset s hb hs hm) [
    | inl a ↦
        let bytes = encode (view a.object) in
        let e : offset + length bytes - offset ≡ length bytes = omega arith in
        inl (
          a.object,
          offset + length bytes,
          a.result,
          a.inside,
          rw (e, a.encoded) (f.law.fits a.object buf size offset a.valid a.inside hs hm),
        )
    | inr r ↦ inr (r.left, r.code, r.failed, r.result)
  ]

  -- Whether an object fits or not, marshalling it returns (success exactly when it fits), keeps
  -- the length of the buffer, and leaves a byte before the offset or from `buffer_size` on as it was.
  pub frame :
      (a : A) (buf : Bytes) (size offset i : ℕ)
      → IsValid a
      → size ≤ length buf
      → size < size_mod
      → (i < offset) ⊎ (size ≤ i)
      → (out : Marshalled) × (written : Bytes) × (marshal a (some buf) size (some offset)
          ≡ some out)
        × (out.rc ≡ (
            if leb (offset + length (encode (view a))) size
            then rc_success
            else mu_insufficient_buffer))
        × (out.buffer ≡ some written)
        × (length written ≡ length buf)
        × (get_elem? written i ≡ get_elem? buf i)
  frame a buf size offset i v hs hm out =
      let bytes = encode (view a) in
      elim (le_or_lt (offset + length bytes) size) [
        | inl h ↦ (
          marshalled bytes buf offset,
          splice offset bytes buf,
          f.law.fits a buf size offset v h hs hm,
          rw (le→leb _ _ h),
          refl,
          length-splice offset bytes buf,
          get_elem?-splice offset bytes buf i (omega arith),
        )
        | inr h ↦
            let (written, bound, eq) = f.law.short a buf size offset v h hs hm in
            (
              record {
                rc = mu_insufficient_buffer;
                buffer = some (splice offset written buf);
                offset = some offset;
              },
              splice offset written buf,
              eq,
              rw (lt→leb _ _ h),
              refl,
              length-splice offset written buf,
              get_elem?-splice offset written buf i
                  (outside_of offset size i (length written) bound out),
            )
      ]
