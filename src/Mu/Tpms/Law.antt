-- ===== src/Mu/Tpms/Law.antt =====
-- A structure whose members are codecs is a codec.
use native.Mathlib.Nat.{add_assoc}
use mathlib.Core.Path.{ap₂}
use tpm2_tss_verified.Common.{
  ℕ, ◌+◌, ◌-◌, ◌≤◌, ◌<◌, ◌≡◌, ap, ◌⊎◌, inl, inr, some, ◌++◌, length, length-append, All, le_or_lt,
  ne→==, arith,
}
use tpm2_tss_verified.Rc.{rc_success, mu_insufficient_buffer}
use tpm2_tss_verified.Memory.{
  Bytes, size_mod, splice, slice, slice_append, slice-split, splice-append, length-splice,
}
use tpm2_tss_verified.Endian.{IsByte}
use tpm2_tss_verified.Mu.Codec.{Codec, IsCodec, Accepts, Rejects, marshalled, marshalled-append}
use tpm2_tss_verified.Mu.Tpms.{chain_marshal, chain_unmarshal, tpms_marshal, tpms_unmarshal}

-- Two members, one behind the other.
infixr 60 ◌then◌
abbrev pub ◌then◌ : {A B V W : Type 0} → Codec A V → Codec B W → Codec (A × B) (V × W)
c then d = record {
  IsValid = λ s. c.IsValid s.0 × d.IsValid s.1;
  HasShape = λ s. c.HasShape s.0 × d.HasShape s.1;
  view = λ s. (c.view s.0, d.view s.1);
  encode = λ v. c.encode v.0 ++ d.encode v.1;
  marshal = chain_marshal c.marshal d.marshal;
  unmarshal = chain_unmarshal c.unmarshal d.unmarshal;
}

module _ {A B V W : Type 0} (c : Codec A V) (d : Codec B W) (c_law : IsCodec c)
    (d_law : IsCodec d) where
  chain_fits :
      (s : A × B) (buf : Bytes) (size offset : ℕ)
      → (c then d).IsValid s
      → offset + length ((c then d).encode ((c then d).view s)) ≤ size
      → size ≤ length buf
      → size < size_mod
      → (c then d).marshal s (some buf) size (some offset)
        ≡ some (marshalled ((c then d).encode ((c then d).view s)) buf offset)
  unfolding chain_marshal
  chain_fits (a, b) buf size offset (va, vb) h hs hm =
      let first = c.encode (c.view a) in
      let second = d.encode (d.view b) in
      let l = length-append first second in
      rw
        (
          c_law.fits a buf size offset va (omega arith) hs hm,
          d_law.fits b (splice offset first buf) size (offset + length first) vb (omega arith)
              (rw length-splice hs) hm,
        )
        (ap some (marshalled-append first second buf offset))

  chain_short :
      (s : A × B) (buf : Bytes) (size offset : ℕ)
      → (c then d).IsValid s
      → size < offset + length ((c then d).encode ((c then d).view s))
      → size ≤ length buf
      → size < size_mod
      → (written : Bytes) × (length written ≤ size - offset)
        × ((c then d).marshal s (some buf) size (some offset)
            ≡ some (record {
              rc = mu_insufficient_buffer;
              buffer = some (splice offset written buf);
              offset = some offset;
            }))
  unfolding chain_marshal
  chain_short (a, b) buf size offset (va, vb) h hs hm =
      let first = c.encode (c.view a) in
      let l = length-append first (d.encode (d.view b)) in
      elim (le_or_lt (offset + length first) size) [
        | inr here ↦
            let (written, bound, eq) = c_law.short a buf size offset va here hs hm in
            (written, bound, rw eq)
        | inl inside ↦
            let (written, bound, eq) =
              d_law.short b (splice offset first buf) size (offset + length first) vb (omega arith)
                (rw length-splice hs) hm in
            (
              first ++ written,
              omega (arith, length-append first written),
              rw (c_law.fits a buf size offset va inside hs hm, eq, splice-append),
            )
      ]

  chain_reads :
      (s t : A × B) (buf : Bytes) (size offset : ℕ)
      → (c then d).IsValid s
      → (c then d).HasShape t
      → offset + length ((c then d).encode ((c then d).view s)) ≤ size
      → size ≤ length buf
      → size < size_mod
      → slice offset (length ((c then d).encode ((c then d).view s))) buf
        ≡ (c then d).encode ((c then d).view s)
      → (t' : A × B) × (c then d).HasShape t'
        × ((c then d).view t' ≡ (c then d).view s)
        × ((c then d).unmarshal (some buf) size (some offset) (some t)
            ≡ some (record {
              rc = rc_success;
              offset = some (offset + length ((c then d).encode ((c then d).view s)));
              dest = some t';
            }))
  unfolding chain_unmarshal
  chain_reads (a, b) (x, y) buf size offset (va, vb) (sx, sy) h hs hm e =
      let first = c.encode (c.view a) in
      let second = d.encode (d.view b) in
      let l = length-append first second in
      let (e1, e2) = slice_append offset first second buf (omega arith) e in
      let (x', sx', wx, rx) = c_law.reads a x buf size offset va sx (omega arith) hs hm e1 in
      let (y', sy', wy, ry) =
        d_law.reads b y buf size (offset + length first) vb sy (omega arith) hs hm e2 in
      ((x', y'), (sx', sy'), cc, rw (rx, ry, l, add_assoc))

  chain_decodes :
      (t : A × B) (buf : Bytes) (size offset : ℕ)
      → (c then d).HasShape t
      → All IsByte buf
      → size ≤ length buf
      → size < size_mod
      → Accepts
          (c then d)
          buf
          size
          offset
          ((c then d).unmarshal (some buf) size (some offset) (some t))
        ⊎ Rejects
            (c then d)
            buf
            size
            offset
            ((c then d).unmarshal (some buf) size (some offset) (some t))
  unfolding chain_unmarshal
  chain_decodes (x, y) buf size offset (sx, sy) hb hs hm =
      elim (c_law.decodes x buf size offset sx hb hs hm) [
        | inr r ↦ inr (record {
          left = (r.left, y);
          shape = (r.shape, sy);
          code = r.code;
          failed = r.failed;
          result = rw (r.result, ne→== r.code rc_success r.failed);
        })
        | inl p ↦
            let first = c.encode (c.view p.object) in
            elim (d_law.decodes y buf size (offset + length first) sy hb hs hm) [
              | inr r ↦ inr (record {
                left = (p.object, r.left);
                shape = (c_law.valid_shape p.object p.valid, r.shape);
                code = r.code;
                failed = r.failed;
                result = rw (p.result, r.result, ne→== r.code rc_success r.failed);
              })
              | inl q ↦
                  let second = d.encode (d.view q.object) in
                  let l = length-append first second in
                  inl (record {
                    object = (p.object, q.object);
                    valid = (p.valid, q.valid);
                    inside = omega (arith, q.inside);
                    encoded = rw l (
                        rw (slice-split offset (length first) (length second) buf)
                          (ap₂ ◌++◌ p.encoded q.encoded));
                    result = rw (p.result, q.result, l, add_assoc);
                  })
            ]
      ]

  pub chain-IsCodec : IsCodec (c then d)
  chain-IsCodec = record {
    valid_shape = λ s v. (c_law.valid_shape s.0 v.0, d_law.valid_shape s.1 v.1);
    fits = chain_fits;
    short = chain_short;
    reads = chain_reads;
    decodes = chain_decodes;
  }

-- The structure over its members.
abbrev pub tpms : {A V : Type 0} → Codec A V → A → Codec A V
tpms members blank = record members {
  marshal = λ s. tpms_marshal members.marshal (some s);
  unmarshal = tpms_unmarshal members.unmarshal blank;
}

module _ {A V : Type 0} (members : Codec A V) (blank : A) (law : IsCodec members)
    (blank_shape : members.HasShape blank) where
  tpms_decodes :
      (t : A) (buf : Bytes) (size offset : ℕ)
      → members.HasShape t
      → All IsByte buf
      → size ≤ length buf
      → size < size_mod
      → Accepts
          (tpms members blank)
          buf
          size
          offset
          ((tpms members blank).unmarshal (some buf) size (some offset) (some t))
        ⊎ Rejects
            (tpms members blank)
            buf
            size
            offset
            ((tpms members blank).unmarshal (some buf) size (some offset) (some t))
  unfolding tpms_unmarshal
  tpms_decodes t buf size offset s hb hs hm =
      elim (law.decodes blank buf size offset blank_shape hb hs hm) [
        | inl a ↦ inl (record {
          object = a.object;
          valid = a.valid;
          inside = a.inside;
          encoded = a.encoded;
          result = a.result;
        })
        | inr r ↦ inr (record {
          left = r.left;
          shape = r.shape;
          code = r.code;
          failed = r.failed;
          result = r.result;
        })
      ]

  pub tpms-IsCodec : IsCodec (tpms members blank)
  unfolding tpms_marshal tpms_unmarshal
  tpms-IsCodec = record {
    valid_shape = law.valid_shape;
    fits = law.fits;
    short = law.short;
    reads = λ a d buf size offset v s h hs hm e.
        law.reads a blank buf size offset v blank_shape h hs hm e;
    decodes = tpms_decodes;
  }
