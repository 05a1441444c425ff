-- ===== src/Mu/Null.antt =====
-- Calls with a NULL pointer: the size of an object without a buffer, and the lists,
-- which treat such a call in another way than the rest.
use native.Mathlib.Nat.{mod-eq_of_lt, add_assoc}
use tpm2_tss_verified.Common.{
  ℕ, ◌+◌, ◌≤◌, ◌<◌, ◌≡◌, ap, ◌∙◌, Bool, true, false, Option, none, some, length, length-append,
  replicate, length-replicate, arith, inl, inr, ltb, leb, le→leb, lt→leb, le_or_lt, Bool-cases,
  ◌>>=◌, if◌then◌else◌, ◌^◌,
}
use tpm2_tss_verified.Rc.{rc_success, mu_insufficient_buffer}
use tpm2_tss_verified.Memory.{Bytes, size_mod, splice}
use tpm2_tss_verified.Endian.{Width, size_of, length-to_be}
use tpm2_tss_verified.Mu.Codec.{Marshal, Marshalled, Codec}
use tpm2_tss_verified.Mu.Base.{too_small, base_marshal, tpma_marshal}
use tpm2_tss_verified.Mu.Base.Laws.{uint, attributes}
use tpm2_tss_verified.Mu.Tpm2b.{tpm2b_marshal}
use tpm2_tss_verified.Mu.Tpm2b.Wire.{tpm2b, payload, sized, length-payload, length-sized}
use tpm2_tss_verified.Mu.Format.{Format, list_of}
use tpm2_tss_verified.Mu.Tpml.{Tpml, tpml_marshal}
use tpm2_tss_verified.Mu.Tpml.Wire.{counted}
use tpm2_tss_verified.Mu.Tpms.{chain_marshal, tpms_marshal}
use tpm2_tss_verified.Mu.Tpms.Law.{◌then◌, tpms}
use tpm2_tss_verified.Mu.Table.{
  TpmType, integer, attribute, Object, format, tpm2b_digest_t, tpm2b_name_t, tpm2b_sensitive_data_t,
  tpm2b_ecc_parameter_t, tpm2b_max_nv_buffer_t, tpms_alg_property_t, tpms_algorithm_description_t,
  tpms_tagged_property_t, tpms_clock_info_t, tpms_time_info_t, tpms_time_attest_info_t,
  tpms_certify_info_t, tpms_command_audit_info_t, tpms_session_audit_info_t, tpms_creation_info_t,
  tpms_nv_certify_info_t, tpms_auth_command_t, tpms_auth_response_t, tpms_sensitive_create_t,
  tpms_ecc_point_t, tpms_nv_pin_counter_parameters_t, tpms_nv_public_t, tpms_ac_output_t, tpml_cc_t,
  tpml_cca_t, tpml_alg_t, tpml_handle_t, tpml_digest_t, tpml_alg_property_t, tpml_ecc_curve_t,
  tpml_tagged_tpm_property_t, tpml_intel_ptt_property_t, tpml_ac_capabilities_t,
}

-- Without a buffer the offset moves by the size of the wire format, whatever `buffer_size` is.
pub record Probes {A V : Type 0} (c : Codec A V) : Type 0 where
  pub probe :
      (a : A) (size offset : ℕ)
      → c.IsValid a
      → offset + length (c.encode (c.view a)) < size_mod
      → c.marshal a none size (some offset)
        ≡ some (record {
          rc = rc_success;
          buffer = none;
          offset = some (offset + length (c.encode (c.view a)));
        })

uint-Probes : (w : Width) → Probes (uint w)
unfolding base_marshal
uint-Probes w = record {
  probe = λ a size offset v h.
      rw
        (mod-eq_of_lt {n = offset + size_of w} {m = size_mod} (rw length-to_be at h), length-to_be);
}

attributes-Probes : (w : Width) → Probes (attributes w)
unfolding tpma_marshal
attributes-Probes w = record { probe = (uint-Probes w).probe }

tpm2b-Probes : (capacity : ℕ) → Probes (tpm2b capacity)
unfolding tpm2b_marshal
tpm2b-Probes capacity = record {
  probe = λ t size offset v h.
      let l : length (sized (payload t)) ≡ 2 + t.size =
        length-sized (payload t) ∙ ap (λ (n : ℕ). 2 + n) (length-payload capacity t v) in
      rw (mod-eq_of_lt {n = offset + (2 + t.size)} {m = size_mod} (rw l at h), l);
}

chain-Probes :
    {A B V W : Type 0} (c : Codec A V) (d : Codec B W) → Probes c → Probes d → Probes (c then d)
unfolding chain_marshal
chain-Probes c d p q = record {
  probe = λ (a, b) size offset (va, vb) h.
      let l = length-append (c.encode (c.view a)) (d.encode (d.view b)) in
      rw (
        p.probe a size offset va (omega arith),
        q.probe b size (offset + length (c.encode (c.view a))) vb (omega arith),
        l,
        add_assoc,
      );
}

struct-Probes :
    {A V : Type 0} (members : Codec A V) (blank : A) → Probes members → Probes (tpms members blank)
unfolding tpms_marshal
struct-Probes members blank p = record { probe = p.probe }

abbrev pub is_list : TpmType → Bool
is_list tpml_cc_t = true
is_list tpml_cca_t = true
is_list tpml_alg_t = true
is_list tpml_handle_t = true
is_list tpml_digest_t = true
is_list tpml_alg_property_t = true
is_list tpml_ecc_curve_t = true
is_list tpml_tagged_tpm_property_t = true
is_list tpml_intel_ptt_property_t = true
is_list tpml_ac_capabilities_t = true
is_list _ = false

ruleset probe_rules = (struct-Probes, chain-Probes, uint-Probes, attributes-Probes, tpm2b-Probes)

table-Probes : (t : TpmType) → is_list t ≡ false → Probes (format t).codec
table-Probes (integer w) h = uint-Probes w
table-Probes (attribute w) h = attributes-Probes w
table-Probes tpm2b_digest_t h = search probe_rules depth 9
table-Probes tpm2b_name_t h = search probe_rules depth 9
table-Probes tpm2b_sensitive_data_t h = search probe_rules depth 9
table-Probes tpm2b_ecc_parameter_t h = search probe_rules depth 9
table-Probes tpm2b_max_nv_buffer_t h = search probe_rules depth 9
table-Probes tpms_alg_property_t h = search probe_rules depth 9
table-Probes tpms_algorithm_description_t h = search probe_rules depth 9
table-Probes tpms_tagged_property_t h = search probe_rules depth 9
table-Probes tpms_clock_info_t h = search probe_rules depth 9
table-Probes tpms_time_info_t h = search probe_rules depth 9
table-Probes tpms_time_attest_info_t h = search probe_rules depth 9
table-Probes tpms_certify_info_t h = search probe_rules depth 9
table-Probes tpms_command_audit_info_t h = search probe_rules depth 9
table-Probes tpms_session_audit_info_t h = search probe_rules depth 9
table-Probes tpms_creation_info_t h = search probe_rules depth 9
table-Probes tpms_nv_certify_info_t h = search probe_rules depth 9
table-Probes tpms_auth_command_t h = search probe_rules depth 9
table-Probes tpms_auth_response_t h = search probe_rules depth 9
table-Probes tpms_sensitive_create_t h = search probe_rules depth 9
table-Probes tpms_ecc_point_t h = search probe_rules depth 9
table-Probes tpms_nv_pin_counter_parameters_t h = search probe_rules depth 9
table-Probes tpms_nv_public_t h = search probe_rules depth 9
table-Probes tpms_ac_output_t h = search probe_rules depth 9
table-Probes tpml_cc_t h = cc
table-Probes tpml_cca_t h = cc
table-Probes tpml_alg_t h = cc
table-Probes tpml_handle_t h = cc
table-Probes tpml_digest_t h = cc
table-Probes tpml_alg_property_t h = cc
table-Probes tpml_ecc_curve_t h = cc
table-Probes tpml_tagged_tpm_property_t h = cc
table-Probes tpml_intel_ptt_property_t h = cc
table-Probes tpml_ac_capabilities_t h = cc

-- Without a buffer, the marshalling function of a type that is no list returns success whatever
-- `buffer_size` is, and moves the offset by exactly as much as marshalling the object does.
pub probe-marshal :
    (t : TpmType) (a : Object t) (buf : Bytes) (size any offset : ℕ)
    → is_list t ≡ false
    → (format t).codec.IsValid a
    → offset + length ((format t).codec.encode ((format t).codec.view a)) ≤ size
    → size ≤ length buf
    → size < size_mod
    → (end : ℕ) × (out : Bytes) × ((format t).codec.marshal a none any (some offset)
        ≡ some (record { rc = rc_success; buffer = none; offset = some end }))
      × ((format t).codec.marshal a (some buf) size (some offset)
          ≡ some (record { rc = rc_success; buffer = some out; offset = some end }))
probe-marshal t a buf size any offset flat v h hs hm =
    let bytes = (format t).codec.encode ((format t).codec.view a) in
    (
      offset + length bytes,
      splice offset bytes buf,
      (table-Probes t flat).probe a any offset v (omega arith),
      (format t).law.fits a buf size offset v h hs hm,
    )

abbrev without_buffer : Option Marshalled → Option Marshalled
without_buffer answer = do r ← answer; some (record r { buffer = none })

-- The code and the offset for an object of `n` bytes: all of it, or none.
abbrev pub all_or_none : ℕ → ℕ → ℕ → ℕ × ℕ
all_or_none size offset n =
    if leb (offset + n) size then (rc_success, offset + n) else (mu_insufficient_buffer, offset)

null-local_buffer :
    {A : Type 0} (marshal_func : Marshal A) (src : Tpml A) (size offset : ℕ)
    → tpml_marshal marshal_func (some src) none size (some offset)
      ≡ without_buffer
          (tpml_marshal marshal_func (some src) (some (replicate size 0)) size (some offset))
unfolding tpml_marshal
null-local_buffer marshal_func src size offset = elim (Bool-cases (too_small size offset 4)) [
  | inl short ↦ rw short
  | inr fits ↦ elim (Bool-cases (ltb (length src.items) src.count)) [
    | inl long ↦ rw (fits, long)
    | inr counted ↦ rw (fits, counted)
  ]
]

module _ {A V : Type 0} (f : Format A V) (capacity : ℕ) (small : capacity < 2 ^ 32) where
  -- A list is different: marshalling it without a buffer returns the code and the offset that
  -- marshalling it into any buffer with `buffer_size` bytes returns. It succeeds, and moves the offset
  -- by the wire format, exactly when the list fits; otherwise, for a `buffer_size` of 0 for one, it is
  -- an error, and the offset stays.
  pub tpml_marshal_null :
      (src : Tpml A) (buf : Bytes) (size offset : ℕ)
      → (list_of capacity small f).codec.IsValid src
      → size ≤ length buf
      → size < size_mod
      → (rc end : ℕ) × (out : Bytes) × (tpml_marshal f.codec.marshal
            (some src)
            none
            size
            (some offset)
          ≡ some (record { rc = rc; buffer = none; offset = some end }))
        × (tpml_marshal f.codec.marshal (some src) (some buf) size (some offset)
            ≡ some (record { rc = rc; buffer = some out; offset = some end }))
        × ((rc, end)
            ≡ all_or_none size offset
                (length (counted f.codec.encode ((list_of capacity small f).codec.view src))))
  tpml_marshal_null src buf size offset v hs hm =
      let law = (list_of capacity small f).law in
      let bytes = counted f.codec.encode ((list_of capacity small f).codec.view src) in
      let zeros : Bytes = replicate size 0 in
      let l : length zeros ≡ size = length-replicate size 0 in
      let as_local = null-local_buffer f.codec.marshal src size offset in
      elim (le_or_lt (offset + length bytes) size) [
        | inl fits ↦ (
          rc_success,
          offset + length bytes,
          splice offset bytes buf,
          as_local ∙ ap without_buffer (law.fits src zeros size offset v fits (omega arith) hm),
          law.fits src buf size offset v fits hs hm,
          rw (le→leb (offset + length bytes) size fits),
        )
        | inr over ↦
            let (there, _, e) = law.short src buf size offset v over hs hm in
            let (_, _, e') = law.short src zeros size offset v over (omega arith) hm in
            (
              mu_insufficient_buffer,
              offset,
              splice offset there buf,
              as_local ∙ ap without_buffer e',
              e,
              rw (lt→leb (offset + length bytes) size over),
            )
      ]
