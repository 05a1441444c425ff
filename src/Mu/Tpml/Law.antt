-- ===== src/Mu/Tpml/Law.antt =====
-- Counted lists of a codec are a codec.
use native.Mathlib.Nat.{add_assoc}
use mathlib.Core.Path.{ap₂}
use tpm2_tss_verified.Common.{
  ℕ, ◌+◌, ◌≤◌, ◌<◌, ◌^◌, ◌≡◌, ◌≢◌, refl, sym, ◌∙◌, ◌⊎◌, inl, inr, some, List, [], ◌++◌, length,
  length-append, length-drop, length-replicate, length-map, take-append, drop, replicate, All,
  All-replicate, le→ltb, lt→ltb, le_or_lt, arith,
}
use tpm2_tss_verified.Rc.{rc_success, mu_insufficient_buffer, sys_malformed_response}
use tpm2_tss_verified.Memory.{Bytes, size_mod, slice, slice_append, slice-split, length-slice}
use tpm2_tss_verified.Endian.{
  w4, to_be, of_be, IsByte, length-to_be, of_be-to_be, to_be-of_be, to_be-IsByte, slice-IsByte,
}
use tpm2_tss_verified.Mu.Codec.{Codec, IsCodec, Accepts, Rejects}
use tpm2_tss_verified.Mu.Base.Laws.{too_small_not, too_small_of, base_unmarshal_fits}
use tpm2_tss_verified.Mu.Tpml.{Tpml, list_unmarshal, tpml_unmarshal}
use tpm2_tss_verified.Mu.Tpml.Wire.{encode_items, counted, length-counted, IsCounted, tpml}
use tpm2_tss_verified.Mu.Tpml.Write.{length-view, counted_of, tpml_fits, tpml_short}
use tpm2_tss_verified.Mu.Tpml.Read.{items_wire, loop, items_reads, items_decodes, ItemsAccepted}

module _ {A V : Type 0} (c : Codec A V) (law : IsCodec c) (blank : A)
    (blank_shape : c.HasShape blank) (capacity : ℕ) where
  open (tpml c blank capacity) use {view}

  -- The array of zeros into which the loop reads.
  abbrev array : List A
  array = replicate capacity blank

  array-HasShape : All c.HasShape array
  array-HasShape = All-replicate c.HasShape capacity blank blank_shape

  -- Behind the count the function is the loop.
  tpml_unmarshal-items_unmarshal :
      (d : Tpml A) (buf : Bytes) (size offset n : ℕ)
      → All IsByte (slice offset 4 buf)
      → of_be (slice offset 4 buf) ≡ n
      → n ≤ capacity
      → offset + 4 ≤ size
      → size ≤ length buf
      → size < size_mod
      → tpml_unmarshal c.unmarshal blank capacity (some buf) size (some offset) (some d)
        ≡ loop c blank capacity n offset buf size n [] array (offset + 4)
  unfolding tpml_unmarshal list_unmarshal
  tpml_unmarshal-items_unmarshal d buf size offset n hb e fit h hs hm = rw (
    too_small_not size offset 4 h,
    base_unmarshal_fits w4 buf size offset 0 hb h hs hm,
    e,
    le→ltb capacity n fit,
  )

  tpml_reads :
      (t d : Tpml A) (buf : Bytes) (size offset : ℕ)
      → capacity < 2 ^ 32
      → IsCounted c blank capacity t
      → length d.items ≡ capacity
      → offset + length (counted c.encode (view t)) ≤ size
      → size ≤ length buf
      → size < size_mod
      → slice offset (length (counted c.encode (view t))) buf ≡ counted c.encode (view t)
      → (d' : Tpml A) × (length d'.items ≡ capacity)
        × (view d' ≡ view t)
        × (tpml_unmarshal c.unmarshal blank capacity (some buf) size (some offset) (some d)
            ≡ some (record {
              rc = rc_success;
              offset = some (offset + length (counted c.encode (view t)));
              dest = some d';
            }))
  tpml_reads t d buf size offset small v room h hs hm e =
      let n = length-view c law blank capacity t v in
      let four = to_be 4 t.count in
      let more = encode_items c.encode (view t) in
      let l = length-counted c.encode (view t) in
      let f = length-to_be 4 t.count in
      let (e1, e2) =
        slice_append offset four more buf (omega (arith, length-append four more))
          (rw (counted_of c law blank capacity t n) at e) in
      let head : slice offset 4 buf ≡ four = rw f at e1 in
      let (objects, number, views, r) =
        items_reads c law blank capacity t.count offset buf size t.count t.items [] array
          (offset + 4) (omega (arith, v.room, v.fits))
          (omega (arith, length-replicate capacity blank, v.fits)) v.valid array-HasShape
          (omega arith) hs hm (rw f at e2) in
      (
        record { count = t.count; items = objects ++ drop t.count array },
        omega (
          arith,
          length-append objects (drop t.count array),
          length-drop t.count array,
          length-replicate capacity blank,
          v.fits,
        ),
        rw (take-append t.count objects (drop t.count array) number) views,
        tpml_unmarshal-items_unmarshal d buf size offset t.count (rw head (to_be-IsByte 4 t.count))
              (rw head (of_be-to_be 4 t.count (omega (arith, v.fits)))) v.fits (omega arith) hs hm
            ∙ r
            ∙ rw (l, add_assoc),
      )

  tpml_reject :
      (code : ℕ) (left d : Tpml A) (buf : Bytes) (size offset : ℕ)
      → length left.items ≡ capacity
      → code ≢ rc_success
      → tpml_unmarshal c.unmarshal blank capacity (some buf) size (some offset) (some d)
        ≡ some (record { rc = code; offset = some offset; dest = some left })
      → Rejects
          (tpml c blank capacity)
          buf
          size
          offset
          (tpml_unmarshal c.unmarshal blank capacity (some buf) size (some offset) (some d))
  tpml_reject code left d buf size offset room failed e = record {
    left = left;
    shape = room;
    code = code;
    failed = failed;
    result = e;
  }

  tpml_unmarshal_short :
      (d : Tpml A) (buf : Bytes) (size offset : ℕ)
      → size < offset + 4
      → tpml_unmarshal c.unmarshal blank capacity (some buf) size (some offset) (some d)
        ≡ some (record { rc = mu_insufficient_buffer; offset = some offset; dest = some d })
  unfolding tpml_unmarshal
  tpml_unmarshal_short d buf size offset h = rw (too_small_of size offset 4 h)

  tpml_unmarshal_big :
      (d : Tpml A) (buf : Bytes) (size offset n : ℕ)
      → All IsByte (slice offset 4 buf)
      → of_be (slice offset 4 buf) ≡ n
      → capacity < n
      → offset + 4 ≤ size
      → size ≤ length buf
      → size < size_mod
      → tpml_unmarshal c.unmarshal blank capacity (some buf) size (some offset) (some d)
        ≡ some (record { rc = sys_malformed_response; offset = some offset; dest = some d })
  unfolding tpml_unmarshal list_unmarshal
  tpml_unmarshal_big d buf size offset n hb e big h hs hm = rw (
    too_small_not size offset 4 h,
    base_unmarshal_fits w4 buf size offset 0 hb h hs hm,
    e,
    lt→ltb capacity n big,
  )

  tpml_accept :
      (d : Tpml A) (buf : Bytes) (size offset n : ℕ)
      → All IsByte (slice offset 4 buf)
      → of_be (slice offset 4 buf) ≡ n
      → n ≤ capacity
      → offset + 4 ≤ size
      → size ≤ length buf
      → tpml_unmarshal c.unmarshal blank capacity (some buf) size (some offset) (some d)
        ≡ loop c blank capacity n offset buf size n [] array (offset + 4)
      → ItemsAccepted c blank capacity n offset buf size n [] array (offset + 4)
      → Accepts
          (tpml c blank capacity)
          buf
          size
          offset
          (tpml_unmarshal c.unmarshal blank capacity (some buf) size (some offset) (some d))
  tpml_accept d buf size offset n hb e fit inside hs start a =
      let items = a.objects ++ drop n array in
      let object : Tpml A = record { count = n; items = items } in
      let more = items_wire c a.objects in
      let taken = take-append n a.objects (drop n array) a.number in
      let format : counted c.encode (view object) ≡ to_be 4 n ++ more =
        rw (taken, length-map, a.number) in
      let len : length (to_be 4 n ++ more) ≡ 4 + length more =
        omega (arith, length-append (to_be 4 n) more, length-to_be 4 n) in
      let head : slice offset 4 buf ≡ to_be 4 n = sym (
        rw e at
          (to_be-of_be 4 (slice offset 4 buf) (length-slice offset 4 buf (omega arith)) hb)) in
      record {
        object = object;
        valid = record {
          room = omega (
            arith,
            length-append a.objects (drop n array),
            a.number,
            length-drop n array,
            length-replicate capacity blank,
          );
          fits = fit;
          valid = rw taken a.valid;
        };
        inside = rw (format, len) (omega (arith, a.inside));
        encoded =
            rw (format, len)
              (rw (slice-split offset 4 (length more) buf) (ap₂ ◌++◌ head a.encoded));
        result = rw (format, len) (start ∙ a.result ∙ rw add_assoc);
      }

  tpml_decodes :
      (d : Tpml A) (buf : Bytes) (size offset : ℕ)
      → length d.items ≡ capacity
      → All IsByte buf
      → size ≤ length buf
      → size < size_mod
      → Accepts
          (tpml c blank capacity)
          buf
          size
          offset
          (tpml_unmarshal c.unmarshal blank capacity (some buf) size (some offset) (some d))
        ⊎ Rejects
            (tpml c blank capacity)
            buf
            size
            offset
            (tpml_unmarshal c.unmarshal blank capacity (some buf) size (some offset) (some d))
  tpml_decodes d buf size offset room hb hs hm =
      let head = slice offset 4 buf in
      let n = of_be head in
      let bytes = slice-IsByte offset 4 buf hb in
      elim (le_or_lt (offset + 4) size) [
        | inr short ↦ inr (
            tpml_reject mu_insufficient_buffer d d buf size offset room (omega arith)
              (tpml_unmarshal_short d buf size offset short))
        | inl inside ↦ elim (le_or_lt n capacity) [
          | inr big ↦ inr (
              tpml_reject sys_malformed_response d d buf size offset room (omega arith)
                (tpml_unmarshal_big d buf size offset n bytes refl big inside hs hm))
          | inl fit ↦
              let start =
                tpml_unmarshal-items_unmarshal d buf size offset n bytes refl fit inside hs hm in
              elim (items_decodes c law blank capacity n offset buf size n [] array (offset + 4)
                (omega (arith, length-replicate capacity blank)) array-HasShape hb inside hs hm) [
                  | inr r ↦ inr (
                      tpml_reject r.code (record { count = n; items = r.left }) d buf size offset
                        (omega (arith, r.room, length-replicate capacity blank)) r.failed
                        (start ∙ r.result))
                  | inl a ↦ inl (tpml_accept d buf size offset n bytes refl fit inside hs start a)
                ]
        ]
      ]

  pub tpml-IsCodec : capacity < 2 ^ 32 → IsCodec (tpml c blank capacity)
  tpml-IsCodec small = record {
    valid_shape = λ t v. v.room;
    fits = tpml_fits c law blank capacity;
    short = tpml_short c law blank capacity;
    reads = λ t d buf size offset v room h hs hm e.
        tpml_reads t d buf size offset small v room h hs hm e;
    decodes = tpml_decodes;
  }
