-- ===== src/Mu/Tpm2b/Read.antt =====
-- Lemmas on TPM2B_UNMARSHAL of src/tss2-mu/tpm2b-types.c.
use native.Mathlib.Nat.{mod-eq_of_lt, add_assoc}
use tpm2_tss_verified.Common.{
  ℕ, ◌+◌, ◌-◌, ◌^◌, ◌≤◌, ◌<◌, ◌≡◌, refl, ◌∙◌, ◌⊎◌, inl, inr, some, length, All, le→ltb, le_or_lt,
  length-append, arith,
}
use tpm2_tss_verified.Rc.{rc_success, mu_insufficient_buffer}
use tpm2_tss_verified.Memory.{
  Bytes, size_mod, splice, slice, slice-split, slice-splice, length-slice, length-splice,
  write_within, read_within, slice_append,
}
use tpm2_tss_verified.Endian.{
  w2, to_be, of_be, IsByte, length-to_be, of_be-to_be, to_be-of_be, slice-IsByte, to_be-IsByte,
}
use tpm2_tss_verified.Mu.Codec.{Accepts, Rejects}
use tpm2_tss_verified.Mu.Base.Laws.{too_small_not, too_small_of, base_unmarshal_fits}
use tpm2_tss_verified.Mu.Tpm2b.{Tpm2b, take_payload, check_payload, tpm2b_unmarshal}
use tpm2_tss_verified.Mu.Tpm2b.Wire.{
  payload, sized, IsSized, tpm2b, length-payload, length-sized, sized_of,
}

module _ (capacity : ℕ) where
  -- The read behind the size field, once its checks have passed.
  check_payload_lem :
      (buf bytes : Bytes) (size offset local n : ℕ)
      → local + n ≤ size
      → size ≤ length buf
      → size < size_mod
      → length bytes ≡ capacity
      → n ≤ capacity
      → (old : ℕ)
      → check_payload capacity buf size
          (some offset)
          (some (record { size = old; buffer = bytes }))
          (some n)
          local
        ≡ some (record {
          rc = rc_success;
          offset = some (local + n);
          dest = some (record { size = n; buffer = splice 0 (slice local n buf) bytes });
        })
  unfolding check_payload take_payload
  check_payload_lem buf bytes size offset local n h hs hm room fit old = rw (
    le→ltb (size - local) n (omega arith),
    le→ltb capacity n fit,
    read_within n local buf (omega arith),
    write_within (slice local n buf) 0 bytes
        (rw (length-slice local n buf (omega arith)) (omega arith)),
    mod-eq_of_lt {n = local + n} {m = size_mod} (omega arith),
  )

  check_payload_refuses :
      (buf : Bytes) (d : Tpm2b) (size offset local n : ℕ)
      → local ≤ size
      → (size < local + n) ⊎ (capacity < n)
      → check_payload capacity buf size (some offset) (some d) (some n) local
        ≡ some (record { rc = mu_insufficient_buffer; offset = some offset; dest = some d })
  unfolding check_payload
  check_payload_refuses buf d size offset local n hl h = ground arith

  -- The whole read, of a size field that holds `n`.
  tpm2b_accepts :
      (d : Tpm2b) (buf : Bytes) (size offset n : ℕ)
      → length d.buffer ≡ capacity
      → All IsByte (slice offset 2 buf)
      → of_be (slice offset 2 buf) ≡ n
      → n ≤ capacity
      → offset + (2 + n) ≤ size
      → size ≤ length buf
      → size < size_mod
      → tpm2b_unmarshal capacity (some buf) size (some offset) (some d)
        ≡ some (record {
          rc = rc_success;
          offset = some (offset + (2 + n));
          dest = some (record { size = n; buffer = splice 0 (slice (offset + 2) n buf) d.buffer });
        })
  unfolding tpm2b_unmarshal
  tpm2b_accepts d buf size offset n room hb e fit h hs hm = rw (
    too_small_not size offset 2 (omega arith),
    base_unmarshal_fits w2 buf size offset 0 hb (omega arith) hs hm,
    e,
    check_payload_lem buf d.buffer size offset (offset + 2) n (omega arith) hs hm room fit d.size,
    add_assoc,
  )

  -- What is read: the size, and the bytes over the front of the destination's array.
  abbrev received : Tpm2b → Bytes → ℕ → ℕ → Tpm2b
  received d buf offset n = record {
    size = n;
    buffer = splice 0 (slice (offset + 2) n buf) d.buffer;
  }

  payload-received :
      (d : Tpm2b) (buf : Bytes) (offset n : ℕ)
      → length d.buffer ≡ capacity
      → n ≤ capacity
      → offset + 2 + n ≤ length buf
      → payload (received d buf offset n) ≡ slice (offset + 2) n buf
  payload-received d buf offset n room fit h =
      let l = length-slice (offset + 2) n buf h in
      rw l at (slice-splice 0 (slice (offset + 2) n buf) d.buffer (rw l (omega arith)))

  pub tpm2b_reads :
      (t d : Tpm2b) (buf : Bytes) (size offset : ℕ)
      → capacity < 2 ^ 16
      → IsSized capacity t
      → length d.buffer ≡ capacity
      → offset + length (sized (payload t)) ≤ size
      → size ≤ length buf
      → size < size_mod
      → slice offset (length (sized (payload t))) buf ≡ sized (payload t)
      → (d' : Tpm2b) × (length d'.buffer ≡ capacity)
        × (payload d' ≡ payload t)
        × (tpm2b_unmarshal capacity (some buf) size (some offset) (some d)
            ≡ some (record {
              rc = rc_success;
              offset = some (offset + length (sized (payload t)));
              dest = some d';
            }))
  tpm2b_reads t d buf size offset small v room h hs hm e =
      let n = length-payload capacity t v in
      let l = length-sized (payload t) in
      let parts =
        slice_append offset (to_be 2 t.size) (payload t) buf
          (omega (arith, length-append (to_be 2 t.size) (payload t), length-to_be 2 t.size))
          (rw (sized_of t n) at e) in
      let head : slice offset 2 buf ≡ to_be 2 t.size = rw length-to_be at parts.0 in
      let tail : slice (offset + 2) t.size buf ≡ payload t = rw (length-to_be, n) at parts.1 in
      (
        received d buf offset t.size,
        rw length-splice room,
        payload-received d buf offset t.size room v.fits (omega arith) ∙ tail,
        rw (l, n)
            (tpm2b_accepts d buf size offset t.size room (rw head (to_be-IsByte 2 t.size))
              (rw head (of_be-to_be 2 t.size (omega arith))) v.fits (omega arith) hs hm),
      )

  tpm2b_reject :
      (d : Tpm2b) (buf : Bytes) (size offset : ℕ)
      → length d.buffer ≡ capacity
      → tpm2b_unmarshal capacity (some buf) size (some offset) (some d)
        ≡ some (record { rc = mu_insufficient_buffer; offset = some offset; dest = some d })
      → Rejects
          (tpm2b capacity)
          buf
          size
          offset
          (tpm2b_unmarshal capacity (some buf) size (some offset) (some d))
  tpm2b_reject d buf size offset room e = record {
    left = d;
    shape = room;
    code = mu_insufficient_buffer;
    failed = omega arith;
    result = e;
  }

  -- The three ways in which the input is refused.
  tpm2b_refuses :
      (d : Tpm2b) (buf : Bytes) (size offset n : ℕ)
      → All IsByte (slice offset 2 buf)
      → of_be (slice offset 2 buf) ≡ n
      → (size < offset + (2 + n)) ⊎ (capacity < n)
      → size ≤ length buf
      → size < size_mod
      → tpm2b_unmarshal capacity (some buf) size (some offset) (some d)
        ≡ some (record { rc = mu_insufficient_buffer; offset = some offset; dest = some d })
  unfolding tpm2b_unmarshal
  tpm2b_refuses d buf size offset n hb e h hs hm = elim (le_or_lt (offset + 2) size) [
    | inr short ↦ rw (too_small_of size offset 2 short)
    | inl first ↦
        rw
          (
            too_small_not size offset 2 first,
            base_unmarshal_fits w2 buf size offset 0 hb first hs hm,
            e,
          )
          (check_payload_refuses buf d size offset (offset + 2) n first (omega arith))
  ]

  pub tpm2b_decodes :
      (d : Tpm2b) (buf : Bytes) (size offset : ℕ)
      → length d.buffer ≡ capacity
      → All IsByte buf
      → size ≤ length buf
      → size < size_mod
      → Accepts
          (tpm2b capacity)
          buf
          size
          offset
          (tpm2b_unmarshal capacity (some buf) size (some offset) (some d))
        ⊎ Rejects
            (tpm2b capacity)
            buf
            size
            offset
            (tpm2b_unmarshal capacity (some buf) size (some offset) (some d))
  tpm2b_decodes d buf size offset room hb hs hm =
      let n = of_be (slice offset 2 buf) in
      let bytes = slice-IsByte offset 2 buf hb in
      elim (le_or_lt (offset + (2 + n)) size) [
        | inr short ↦ inr (
            tpm2b_reject d buf size offset room
              (tpm2b_refuses d buf size offset n bytes refl (inl short) hs hm))
        | inl inside ↦ elim (le_or_lt n capacity) [
          | inr big ↦ inr (
              tpm2b_reject d buf size offset room
                (tpm2b_refuses d buf size offset n bytes refl (inr big) hs hm))
          | inl fit ↦
              let p = payload-received d buf offset n room fit (omega arith) in
              let two = length-slice offset 2 buf (omega arith) in
              let len : length (sized (slice (offset + 2) n buf)) ≡ 2 + n = omega (
                arith,
                length-sized (slice (offset + 2) n buf),
                length-slice (offset + 2) n buf (omega arith),
              ) in
              inl (record {
                object = received d buf offset n;
                valid = record { room = rw length-splice room; fits = fit };
                inside = rw (p, len) inside;
                encoded =
                    rw (p, len)
                      (rw (length-slice (offset + 2) n buf (omega arith)) (
                        rw (to_be-of_be 2 (slice offset 2 buf) two bytes)
                          (slice-split offset 2 n buf)));
                result =
                    rw (p, len)
                      (tpm2b_accepts d buf size offset n room bytes refl fit inside hs hm);
              })
        ]
      ]
