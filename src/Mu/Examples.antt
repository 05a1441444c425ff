-- ===== src/Mu/Examples.antt =====
-- Runs of the marshalling functions, and the theorems at concrete inputs.
use tpm2_tss_verified.Common.{
  ℕ, ◌-◌, ◌≤◌, ◌≡◌, ◌≢◌, ◌⊎◌, refl, inr, none, some, [], ◌∷◌, length, replicate, get_elem?, arith,
}
use tpm2_tss_verified.Rc.{rc_success, mu_insufficient_buffer}
use tpm2_tss_verified.Memory.{Bytes, splice, slice, write, read}
use tpm2_tss_verified.Endian.{
  w2, w4, endian_conv_16, host_to_be, be_to_host, to_memory, of_memory, to_be, of_be,
  to_memory-host_to_be, be_to_host-of_memory,
}
use tpm2_tss_verified.Mu.Codec.{Marshalled}
use tpm2_tss_verified.Mu.Base.{base_marshal}
use tpm2_tss_verified.Mu.Tpm2b.{Tpm2b, copy_payload, tpm2b_marshal}
use tpm2_tss_verified.Mu.Tpml.{Tpml, tpml_marshal}
use tpm2_tss_verified.Mu.Tpml.Wire.{counted}
use tpm2_tss_verified.Mu.Types.{tpml_digest, tpm2b_digest}
use tpm2_tss_verified.Mu.Table.{
  format, tpml_digest_t, tpms_tagged_property_t, unmarshal-marshal, marshal-unmarshal,
  marshal_frame,
}
use tpm2_tss_verified.Mu.Null.{probe-marshal, all_or_none, tpml_marshal_null}

-- A digest of three bytes, and a list of it.
abbrev digest : Tpm2b
digest = record { size = 3; buffer = 0xaa ∷ 0xbb ∷ 0xcc ∷ replicate 61 0 }

abbrev digests : Tpml Tpm2b
digests = record { count = 1; items = digest ∷ replicate 7 tpm2b_digest.blank }

marshal_digest :
    tpm2b_marshal (some digest) (some (replicate 7 0)) 7 (some 1)
    ≡ some (record {
      rc = rc_success;
      buffer = some (0 ∷ 0 ∷ 3 ∷ 0xaa ∷ 0xbb ∷ 0xcc ∷ 0 ∷ []);
      offset = some 6;
    })
unfolding tpm2b_marshal base_marshal copy_payload write read host_to_be to_memory endian_conv_16
marshal_digest = refl

unmarshal-marshal_example :
    (out : Bytes) × (end : ℕ) × (d' : Tpml Tpm2b) × (tpml_digest.codec.marshal digests
        (some (replicate 16 0))
        16
        (some 2)
      ≡ some (record { rc = rc_success; buffer = some out; offset = some end }))
    × (tpml_digest.codec.unmarshal (some out) 16 (some 2) (some tpml_digest.blank)
        ≡ some (record { rc = rc_success; offset = some end; dest = some d' }))
    × (tpml_digest.codec.view d' ≡ tpml_digest.codec.view digests)
unfolding to_be to_memory
unmarshal-marshal_example =
    unmarshal-marshal tpml_digest_t digests tpml_digest.blank (replicate 16 0) 16 2 (omega arith)
      refl (omega arith) (omega arith) (omega arith)

-- Any bytes: here a count of 1 and a digest of two bytes.
abbrev list_bytes : Bytes
list_bytes = 0 ∷ 0 ∷ 0 ∷ 1 ∷ 0 ∷ 2 ∷ 7 ∷ 8 ∷ 9 ∷ []

marshal-unmarshal_example :
    ((a : Tpml Tpm2b) × (end : ℕ) × (tpml_digest.codec.unmarshal
          (some list_bytes)
          9
          (some 0)
          (some tpml_digest.blank)
        ≡ some (record { rc = rc_success; offset = some end; dest = some a }))
      × (end ≤ 9)
      × (tpml_digest.codec.marshal a (some list_bytes) 9 (some 0)
          ≡ some (record {
            rc = rc_success;
            buffer = some (splice 0 (slice 0 (end - 0) list_bytes) list_bytes);
            offset = some end;
          })))
    ⊎ ((left : Tpml Tpm2b) × (rc : ℕ) × (rc ≢ rc_success)
        × (tpml_digest.codec.unmarshal (some list_bytes) 9 (some 0) (some tpml_digest.blank)
            ≡ some (record { rc = rc; offset = some 0; dest = some left })))
marshal-unmarshal_example =
    marshal-unmarshal tpml_digest_t tpml_digest.blank list_bytes 9 0 refl (omega arith)
      (omega arith) (omega arith)

marshal_frame_example :
    (out : Marshalled) × (written : Bytes) × (tpml_digest.codec.marshal digests
        (some (replicate 16 0))
        6
        (some 2)
      ≡ some out)
    × (out.rc ≡ mu_insufficient_buffer)
    × (out.buffer ≡ some written)
    × (length written ≡ 16)
    × (get_elem? written 9 ≡ get_elem? (replicate 16 0) 9)
unfolding to_be to_memory
marshal_frame_example =
    marshal_frame tpml_digest_t digests (replicate 16 0) 6 2 9 (omega arith) (omega arith)
      (omega arith) (inr (omega arith))

probe-marshal_example :
    (end : ℕ) × (out : Bytes) × ((format tpms_tagged_property_t).codec.marshal
        (7, 9)
        none
        0
        (some 1)
      ≡ some (record { rc = rc_success; buffer = none; offset = some end }))
    × ((format tpms_tagged_property_t).codec.marshal (7, 9) (some (replicate 12 0)) 12 (some 1)
        ≡ some (record { rc = rc_success; buffer = some out; offset = some end }))
unfolding to_be to_memory
probe-marshal_example =
    probe-marshal tpms_tagged_property_t (7, 9) (replicate 12 0) 12 0 1 refl (omega arith)
      (omega arith) (omega arith) (omega arith)

tpml_marshal_null_example :
    (rc end : ℕ) × (out : Bytes) × (tpml_marshal tpm2b_digest.codec.marshal
        (some digests)
        none
        0
        (some 0)
      ≡ some (record { rc = rc; buffer = none; offset = some end }))
    × (tpml_marshal tpm2b_digest.codec.marshal (some digests) (some []) 0 (some 0)
        ≡ some (record { rc = rc; buffer = some out; offset = some end }))
    × ((rc, end)
        ≡ all_or_none 0 0
            (length (counted tpm2b_digest.codec.encode (tpml_digest.codec.view digests))))
tpml_marshal_null_example =
    tpml_marshal_null tpm2b_digest 8 (omega arith) digests [] 0 0 (omega arith) (omega arith)
      (omega arith)

to_memory-host_to_be_example : to_memory 4 (host_to_be w4 0x01020304) ≡ 1 ∷ 2 ∷ 3 ∷ 4 ∷ []
unfolding to_be to_memory
to_memory-host_to_be_example = to_memory-host_to_be w4 0x01020304

be_to_host-of_memory_example : be_to_host w2 (of_memory (0x12 ∷ 0x34 ∷ [])) ≡ 0x1234
unfolding of_be of_memory
be_to_host-of_memory_example = be_to_host-of_memory w2 (0x12 ∷ 0x34 ∷ []) refl (omega arith)
