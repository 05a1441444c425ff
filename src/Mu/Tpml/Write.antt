-- ===== src/Mu/Tpml/Write.antt =====
-- TPML_MARSHAL writes the wire format, or fails with nothing written beyond the bounds.
use native.Mathlib.Nat.{add-zero}
use tpm2_tss_verified.Common.{
  ℕ, zero, suc, ◌+◌, ◌-◌, ◌≤◌, ◌<◌, ◌≡◌, ap, ◌∙◌, inl, inr, some, List, [], ◌∷◌, ◌++◌, length,
  length-append, length-map, length-take, map, take, All, le→ltb, le_or_lt, arith,
}
use tpm2_tss_verified.Rc.{mu_insufficient_buffer}
use tpm2_tss_verified.Memory.{Bytes, size_mod, splice, splice_nil, splice-append, length-splice}
use tpm2_tss_verified.Endian.{w4, to_be, length-to_be}
use tpm2_tss_verified.Mu.Codec.{Codec, IsCodec, marshalled, marshalled-append}
use tpm2_tss_verified.Mu.Base.Laws.{too_small_not, too_small_of, base_marshal_fits}
use tpm2_tss_verified.Mu.Tpml.{Tpml, items_marshal, tpml_marshal}
use tpm2_tss_verified.Mu.Tpml.Wire.{encode_items, counted, length-counted, IsCounted, tpml}

module _ {A V : Type 0} (c : Codec A V) (law : IsCodec c) where
  -- The wire format of the first `n` elements.
  abbrev wire : ℕ → List A → Bytes
  wire n items = encode_items c.encode (map c.view (take n items))

  items_marshal_fits :
      (n : ℕ) (items : List A) (offset size : ℕ) (buf : Bytes) (local : ℕ)
      → n ≤ length items
      → All c.IsValid (take n items)
      → local + length (wire n items) ≤ size
      → size ≤ length buf
      → size < size_mod
      → items_marshal c.marshal n items (some offset) size (some buf) local
        ≡ some (marshalled (wire n items) buf local)
  unfolding items_marshal
  items_marshal_fits zero items offset size buf local hn v h hs hm = rw (splice_nil, add-zero)
  items_marshal_fits (suc n) [] offset size buf local hn v h hs hm = absurd (omega arith)
  items_marshal_fits (suc n) (x ∷ items) offset size buf local hn (vx, v) h hs hm =
      let e = c.encode (c.view x) in
      let l = length-append e (wire n items) in
      rw
        (
          law.fits x buf size local vx (omega arith) hs hm,
          items_marshal_fits n items offset size (splice local e buf) (local + length e)
              (omega arith) v (omega arith) (rw length-splice hs) hm,
        )
        (ap some (marshalled-append e (wire n items) buf local))

  items_marshal_short :
      (n : ℕ) (items : List A) (offset size : ℕ) (buf : Bytes) (local : ℕ)
      → n ≤ length items
      → All c.IsValid (take n items)
      → local ≤ size
      → size < local + length (wire n items)
      → size ≤ length buf
      → size < size_mod
      → (written : Bytes) × (length written ≤ size - local)
        × (items_marshal c.marshal n items (some offset) size (some buf) local
            ≡ some (record {
              rc = mu_insufficient_buffer;
              buffer = some (splice local written buf);
              offset = some offset;
            }))
  unfolding items_marshal
  items_marshal_short zero items offset size buf local hn v hl h hs hm = absurd (omega arith)
  items_marshal_short (suc n) [] offset size buf local hn v hl h hs hm = absurd (omega arith)
  items_marshal_short (suc n) (x ∷ items) offset size buf local hn (vx, v) hl h hs hm =
      let e = c.encode (c.view x) in
      let l = length-append e (wire n items) in
      elim (le_or_lt (local + length e) size) [
        | inr here ↦
            let (written, bound, eq) = law.short x buf size local vx here hs hm in
            (written, bound, rw eq)
        | inl inside ↦
            let (written, bound, eq) =
              items_marshal_short n items offset size (splice local e buf) (local + length e)
                (omega arith) v inside (omega arith) (rw length-splice hs) hm in
            (
              e ++ written,
              omega (arith, length-append e written),
              rw (law.fits x buf size local vx inside hs hm, eq, splice-append),
            )
      ]

module _ {A V : Type 0} (c : Codec A V) (law : IsCodec c) (blank : A) (capacity : ℕ) where
  open (tpml c blank capacity) use {view}

  -- The list that goes on the wire has `count` elements.
  pub length-view : (t : Tpml A) → IsCounted c blank capacity t → length (view t) ≡ t.count
  length-view t v =
      length-map (take t.count t.items) c.view
      ∙ omega (arith, length-take t.count t.items, v.room, v.fits)

  pub counted_of :
      (t : Tpml A)
      → length (view t) ≡ t.count
      → counted c.encode (view t) ≡ to_be 4 t.count ++ encode_items c.encode (view t)
  counted_of t n = rw n

  pub tpml_fits :
      (t : Tpml A) (buf : Bytes) (size offset : ℕ)
      → IsCounted c blank capacity t
      → offset + length (counted c.encode (view t)) ≤ size
      → size ≤ length buf
      → size < size_mod
      → tpml_marshal c.marshal (some t) (some buf) size (some offset)
        ≡ some (marshalled (counted c.encode (view t)) buf offset)
  unfolding tpml_marshal
  tpml_fits t buf size offset v h hs hm =
      let l = length-counted c.encode (view t) in
      rw
        (
          too_small_not size offset 4 (omega arith),
          le→ltb (length t.items) t.count (omega (arith, v.room, v.fits)),
          base_marshal_fits w4 buf size offset t.count (omega arith) hs hm,
          items_marshal_fits c law t.count t.items offset size (splice offset (to_be 4 t.count) buf)
              (offset + 4) (omega (arith, v.room, v.fits)) v.valid (omega arith)
              (rw length-splice hs) hm,
          counted_of t (length-view t v),
        )
        (ap some (
          rw (length-to_be 4 t.count) at
            (marshalled-append (to_be 4 t.count) (encode_items c.encode (view t)) buf offset)))

  pub tpml_short :
      (t : Tpml A) (buf : Bytes) (size offset : ℕ)
      → IsCounted c blank capacity t
      → size < offset + length (counted c.encode (view t))
      → size ≤ length buf
      → size < size_mod
      → (written : Bytes) × (length written ≤ size - offset)
        × (tpml_marshal c.marshal (some t) (some buf) size (some offset)
            ≡ some (record {
              rc = mu_insufficient_buffer;
              buffer = some (splice offset written buf);
              offset = some offset;
            }))
  unfolding tpml_marshal
  tpml_short t buf size offset v h hs hm =
      let l = length-counted c.encode (view t) in
      elim (le_or_lt (offset + 4) size) [
        | inr here ↦ ([], omega arith, rw (too_small_of size offset 4 here, splice_nil))
        | inl inside ↦
            let four = to_be 4 t.count in
            let (written, bound, eq) =
              items_marshal_short c law t.count t.items offset size (splice offset four buf)
                (offset + 4) (omega (arith, v.room, v.fits)) v.valid inside (omega arith)
                (rw length-splice hs) hm in
            (
              four ++ written,
              omega (arith, length-append four written, length-to_be 4 t.count),
              rw (
                too_small_not size offset 4 inside,
                le→ltb (length t.items) t.count (omega (arith, v.room, v.fits)),
                base_marshal_fits w4 buf size offset t.count inside hs hm,
                eq,
                ← splice-append,
                length-to_be,
              ),
            )
      ]
