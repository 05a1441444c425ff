-- ===== src/Mu/Tpml/Read.antt =====
-- The loop of TPML_UNMARSHAL reads the wire format back, and accepts nothing else.
use native.Mathlib.Nat.{add_assoc, add-zero}
use mathlib.Core.List.{append_assoc}
use mathlib.Core.Path.{ap₂}
use tpm2_tss_verified.Common.{
  ℕ, zero, suc, ◌+◌, ◌≤◌, ◌<◌, ◌≡◌, ◌≢◌, refl, ap, ◌∙◌, ◌⊎◌, inl, inr, Option, some, List, [], ◌∷◌,
  ◌++◌, length, length-append, map, take, drop, All, ne→==, arith,
}
use tpm2_tss_verified.Rc.{rc_success}
use tpm2_tss_verified.Memory.{Bytes, size_mod, slice, slice_append, slice-split}
use tpm2_tss_verified.Endian.{IsByte}
use tpm2_tss_verified.Mu.Codec.{Unmarshalled, Codec, IsCodec}
use tpm2_tss_verified.Mu.Tpml.{Tpml, items_unmarshal, put_item}
use tpm2_tss_verified.Mu.Tpml.Wire.{encode_items}

abbrev pub items_wire : {A V : Type 0} → Codec A V → List A → Bytes
items_wire c items = encode_items c.encode (map c.view items)

module _ {A V : Type 0} (c : Codec A V) (blank : A) (capacity count offset : ℕ) (buf : Bytes)
    (size : ℕ) where
  -- The loop, from the elements before `i`, the rest of the array and the offset that it starts at.
  abbrev pub loop : ℕ → List A → List A → ℕ → Option (Unmarshalled (Tpml A))
  loop n front rest local =
      items_unmarshal c.unmarshal blank capacity n count front rest (some offset) buf size local

  -- It read `n` objects, whose encodings lie at `local`.
  pub record ItemsAccepted (n : ℕ) (front rest : List A) (local : ℕ) : Type 0 where
    pub objects : List A
    pub number : length objects ≡ n
    pub valid : All c.IsValid objects
    pub inside : local + length (items_wire c objects) ≤ size
    pub encoded : slice local (length (items_wire c objects)) buf ≡ items_wire c objects
    pub result :
        loop n front rest local
        ≡ some (record {
          rc = rc_success;
          offset = some (local + length (items_wire c objects));
          dest = some (record { count = count; items = front ++ (objects ++ drop n rest) });
        })

  pub record ItemsRejected (n : ℕ) (front rest : List A) (local : ℕ) : Type 0 where
    pub left : List A
    pub room : length left ≡ length front + length rest
    pub code : ℕ
    pub failed : code ≢ rc_success
    pub result :
        loop n front rest local
        ≡ some (record {
          rc = code;
          offset = some offset;
          dest = some (record { count = count; items = left });
        })

module _ {A V : Type 0} (c : Codec A V) (law : IsCodec c) (blank : A) (capacity count offset : ℕ)
    (buf : Bytes) (size : ℕ) where
  pub items_reads :
      (n : ℕ) (items front rest : List A) (local : ℕ)
      → n ≤ length items
      → n ≤ length rest
      → All c.IsValid (take n items)
      → All c.HasShape rest
      → local + length (items_wire c (take n items)) ≤ size
      → size ≤ length buf
      → size < size_mod
      → slice local (length (items_wire c (take n items))) buf ≡ items_wire c (take n items)
      → (objects : List A) × (length objects ≡ n)
        × (map c.view objects ≡ map c.view (take n items))
        × (loop c blank capacity count offset buf size n front rest local
            ≡ some (record {
              rc = rc_success;
              offset = some (local + length (items_wire c (take n items)));
              dest = some (record { count = count; items = front ++ (objects ++ drop n rest) });
            }))
  unfolding items_unmarshal
  items_reads zero items front rest local hn hr v sh h hs hm e = ([], refl, refl, rw add-zero)
  items_reads (suc n) [] front rest local hn hr v sh h hs hm e = absurd (omega arith)
  items_reads (suc n) (x ∷ items) front [] local hn hr v sh h hs hm e = absurd (omega arith)
  items_reads (suc n) (x ∷ items) front (y ∷ rest) local hn hr (vx, v) (hy, sh) h hs hm e =
      let first = c.encode (c.view x) in
      let more = items_wire c (take n items) in
      let l = length-append first more in
      let (e1, e2) = slice_append local first more buf (omega arith) e in
      let (y', s', w', r') = law.reads x y buf size local vx hy (omega arith) hs hm e1 in
      let (objects, number, views, r) =
        items_reads n items (front ++ (y' ∷ [])) rest (local + length first) (omega arith)
          (omega arith) v sh (omega arith) hs hm e2 in
      (y' ∷ objects, ap suc number, cc, rw (r', r, append_assoc, l, add_assoc))

  pub items_decodes :
      (n : ℕ) (front rest : List A) (local : ℕ)
      → n ≤ length rest
      → All c.HasShape rest
      → All IsByte buf
      → local ≤ size
      → size ≤ length buf
      → size < size_mod
      → ItemsAccepted c blank capacity count offset buf size n front rest local
        ⊎ ItemsRejected c blank capacity count offset buf size n front rest local
  unfolding items_unmarshal put_item
  items_decodes zero front rest local hr sh hb hl hs hm = inl (record {
    objects = [];
    number = refl;
    valid = tt;
    inside = omega arith;
    encoded = refl;
    result = rw add-zero;
  })
  items_decodes (suc n) front [] local hr sh hb hl hs hm = absurd (omega arith)
  items_decodes (suc n) front (y ∷ rest) local hr (hy, sh) hb hl hs hm =
      elim (law.decodes y buf size local hy hb hs hm) [
        | inr r ↦ inr (record {
          left = front ++ (r.left ∷ rest);
          room = omega (arith, length-append front (r.left ∷ rest));
          code = r.code;
          failed = r.failed;
          result = rw (r.result, ne→== r.code rc_success r.failed);
        })
        | inl a ↦
            let first = c.encode (c.view a.object) in
            elim (items_decodes n (front ++ (a.object ∷ [])) rest (local + length first)
              (omega arith) sh hb a.inside hs hm) [
                | inr r ↦ inr (record {
                  left = r.left;
                  room = omega (arith, r.room, length-append front (a.object ∷ []));
                  code = r.code;
                  failed = r.failed;
                  result = rw a.result r.result;
                })
                | inl b ↦
                    let more = items_wire c b.objects in
                    let l = length-append first more in
                    inl (record {
                      objects = a.object ∷ b.objects;
                      number = ap suc b.number;
                      valid = (a.valid, b.valid);
                      inside = omega (arith, b.inside);
                      encoded = rw l (
                          rw (slice-split local (length first) (length more) buf)
                            (ap₂ ◌++◌ a.encoded b.encoded));
                      result = rw a.result (b.result ∙ rw (append_assoc, l, add_assoc));
                    })
              ]
      ]
