-- ===== src/Mu/Base/Laws.antt =====
-- BASE_MARSHAL and BASE_UNMARSHAL, and TPMA's, meet the contract of a codec.
use native.Mathlib.Nat.{mod-eq_of_lt}
use tpm2_tss_verified.Common.{
  ℕ, ◌+◌, ◌≤◌, ◌<◌, ◌≡◌, refl, sym, ◌⊎◌, inl, inr, true, false, some, [], length, All, le_or_lt,
  arith, ◌∙◌,
}
use tpm2_tss_verified.Rc.{rc_success, mu_insufficient_buffer}
use tpm2_tss_verified.Memory.{
  Bytes, size_mod, splice, slice, splice_nil, write_within, read_within, length-slice,
}
use tpm2_tss_verified.Endian.{
  Width, size_of, to_be, of_be, IsByte, Fits, to_memory-host_to_be, length-to_be, of_be-to_be,
  be_to_host-of_memory, of_be-lt, to_be-of_be, slice-IsByte, to_be-IsByte,
}
use tpm2_tss_verified.Mu.Codec.{Codec, IsCodec, Accepts, Rejects}
use tpm2_tss_verified.Mu.Base.{
  too_small, base_marshal, base_unmarshal, tpma_marshal, tpma_unmarshal,
}

pub too_small_not :
    (size offset need : ℕ) → offset + need ≤ size → too_small size offset need ≡ false
unfolding too_small
too_small_not size offset need h = ground arith

pub too_small_of : (size offset need : ℕ) → size < offset + need → too_small size offset need ≡ true
unfolding too_small
too_small_of size offset need h = ground arith

module _ (w : Width) (buf : Bytes) (size offset : ℕ) where
  pub base_marshal_fits :
      (value : ℕ)
      → offset + size_of w ≤ size
      → size ≤ length buf
      → size < size_mod
      → base_marshal w value (some buf) size (some offset)
        ≡ some (record {
          rc = rc_success;
          buffer = some (splice offset (to_be (size_of w) value) buf);
          offset = some (offset + size_of w);
        })
  unfolding base_marshal
  base_marshal_fits value h hs hm = rw (
    too_small_not size offset (size_of w) h,
    to_memory-host_to_be w value,
    write_within (to_be (size_of w) value) offset buf (rw length-to_be (omega arith)),
    mod-eq_of_lt {n = offset + size_of w} {m = size_mod} (omega arith),
  )

  pub base_marshal_short :
      (value : ℕ)
      → size < offset + size_of w
      → base_marshal w value (some buf) size (some offset)
        ≡ some (record { rc = mu_insufficient_buffer; buffer = some buf; offset = some offset })
  unfolding base_marshal
  base_marshal_short value h = rw (too_small_of size offset (size_of w) h)

  module _ (dest : ℕ) where
    pub base_unmarshal_fits :
        All IsByte (slice offset (size_of w) buf)
        → offset + size_of w ≤ size
        → size ≤ length buf
        → size < size_mod
        → base_unmarshal w (some buf) size (some offset) (some dest)
          ≡ some (record {
            rc = rc_success;
            offset = some (offset + size_of w);
            dest = some (of_be (slice offset (size_of w) buf));
          })
    unfolding base_unmarshal
    base_unmarshal_fits hb h hs hm = rw (
      too_small_not size offset (size_of w) h,
      read_within (size_of w) offset buf (omega arith),
      be_to_host-of_memory w (slice offset (size_of w) buf)
          (length-slice offset (size_of w) buf (omega arith)) hb,
      mod-eq_of_lt {n = offset + size_of w} {m = size_mod} (omega arith),
    )

    pub base_unmarshal_short :
        size < offset + size_of w
        → base_unmarshal w (some buf) size (some offset) (some dest)
          ≡ some (record { rc = mu_insufficient_buffer; offset = some offset; dest = some dest })
    unfolding base_unmarshal
    base_unmarshal_short h = rw (too_small_of size offset (size_of w) h)

-- The codec of an integer type of width `w`.
abbrev pub uint : Width → Codec ℕ ℕ
uint w = record {
  IsValid = Fits w;
  HasShape = λ _. Unit {0};
  view = λ value. value;
  encode = to_be (size_of w);
  marshal = base_marshal w;
  unmarshal = base_unmarshal w;
}

module _ (w : Width) (buf : Bytes) (size offset : ℕ) where
  uint_reads :
      (a d : ℕ)
      → Fits w a
      → offset + length (to_be (size_of w) a) ≤ size
      → size ≤ length buf
      → size < size_mod
      → slice offset (length (to_be (size_of w) a)) buf ≡ to_be (size_of w) a
      → base_unmarshal w (some buf) size (some offset) (some d)
        ≡ some (record {
          rc = rc_success;
          offset = some (offset + length (to_be (size_of w) a));
          dest = some a;
        })
  uint_reads a d v h hs hm e =
      let e' : slice offset (size_of w) buf ≡ to_be (size_of w) a = rw length-to_be at e in
      base_unmarshal_fits w buf size offset d (rw e' (to_be-IsByte (size_of w) a))
        (rw length-to_be at h) hs hm
      ∙ rw (e', of_be-to_be (size_of w) a v, length-to_be)

  uint_decodes :
      (d : ℕ)
      → All IsByte buf
      → size ≤ length buf
      → size < size_mod
      → Accepts (uint w) buf size offset (base_unmarshal w (some buf) size (some offset) (some d))
        ⊎ Rejects (uint w) buf size offset (base_unmarshal w (some buf) size (some offset) (some d))
  uint_decodes d hb hs hm = elim (le_or_lt (offset + size_of w) size) [
    | inl h ↦
        let n : length (slice offset (size_of w) buf) ≡ size_of w =
          length-slice offset (size_of w) buf (omega arith) in
        let b = slice-IsByte offset (size_of w) buf hb in
        inl (record {
          object = of_be (slice offset (size_of w) buf);
          valid = rw n at (of_be-lt (slice offset (size_of w) buf) b);
          inside = rw length-to_be h;
          encoded =
              rw length-to_be (sym (to_be-of_be (size_of w) (slice offset (size_of w) buf) n b));
          result = rw length-to_be (base_unmarshal_fits w buf size offset d b h hs hm);
        })
    | inr h ↦ inr (record {
      left = d;
      shape = tt;
      code = mu_insufficient_buffer;
      failed = omega arith;
      result = base_unmarshal_short w buf size offset d h;
    })
  ]

pub uint-IsCodec : (w : Width) → IsCodec (uint w)
uint-IsCodec w = record {
  valid_shape = λ a h. tt;
  fits = λ a buf size offset v h hs hm.
      rw length-to_be (base_marshal_fits w buf size offset a (rw length-to_be at h) hs hm);
  short = λ a buf size offset v h hs hm. (
    [],
    omega arith,
    rw splice_nil (base_marshal_short w buf size offset a (rw length-to_be at h)),
  );
  reads = λ a d buf size offset v s h hs hm e.
      (a, tt, refl, uint_reads w buf size offset a d v h hs hm e);
  decodes = λ d buf size offset s hb hs hm. uint_decodes w buf size offset d hb hs hm;
}

-- With a destination the functions of an attribute word are those of the integer.
tpma_unmarshal_dest :
    (w : Width) (buf : Bytes) (size offset d : ℕ)
    → tpma_unmarshal w (some buf) size (some offset) (some d)
      ≡ base_unmarshal w (some buf) size (some offset) (some d)
unfolding tpma_unmarshal base_unmarshal
tpma_unmarshal_dest w buf size offset d = refl

abbrev pub attributes : Width → Codec ℕ ℕ
attributes w = record (uint w) { marshal = tpma_marshal w; unmarshal = tpma_unmarshal w }

attributes_decodes :
    (w : Width) (buf : Bytes) (size offset : ℕ) (d : ℕ)
    → All IsByte buf
    → size ≤ length buf
    → size < size_mod
    → Accepts
        (attributes w)
        buf
        size
        offset
        (tpma_unmarshal w (some buf) size (some offset) (some d))
      ⊎ Rejects
          (attributes w)
          buf
          size
          offset
          (tpma_unmarshal w (some buf) size (some offset) (some d))
attributes_decodes w buf size offset d hb hs hm =
    let e = tpma_unmarshal_dest w buf size offset d in
    elim (uint_decodes w buf size offset d hb hs hm) [
      | inl a ↦ inl (record {
        object = a.object;
        valid = a.valid;
        inside = a.inside;
        encoded = a.encoded;
        result = e ∙ a.result;
      })
      | inr r ↦ inr (record {
        left = r.left;
        shape = tt;
        code = r.code;
        failed = r.failed;
        result = e ∙ r.result;
      })
    ]

pub attributes-IsCodec : (w : Width) → IsCodec (attributes w)
attributes-IsCodec w = record {
  valid_shape = λ a h. tt;
  fits = unfold tpma_marshal in (uint-IsCodec w).fits;
  short = unfold tpma_marshal in (uint-IsCodec w).short;
  reads = λ a d buf size offset v s h hs hm e. (
    a,
    tt,
    refl,
    tpma_unmarshal_dest w buf size offset d ∙ uint_reads w buf size offset a d v h hs hm e,
  );
  decodes = λ d buf size offset s hb hs hm. attributes_decodes w buf size offset d hb hs hm;
}
