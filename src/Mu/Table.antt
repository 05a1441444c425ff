-- ===== src/Mu/Table.antt =====
-- The table of the types in `Types`, and what src/tss2-mu promises for each of them: an application
-- of `RoundTrip` to the type's contract.
use tpm2_tss_verified.Common.{
  ℕ, ◌+◌, ◌-◌, ◌≤◌, ◌<◌, ◌≡◌, ◌≢◌, ◌⊎◌, some, List, length, get_elem?, All, leb, if◌then◌else◌,
}
use tpm2_tss_verified.Rc.{rc_success, mu_insufficient_buffer}
use tpm2_tss_verified.Memory.{Bytes, size_mod, splice, slice}
use tpm2_tss_verified.Endian.{Width, IsByte}
use tpm2_tss_verified.Mu.Tpm2b.{Tpm2b}
use tpm2_tss_verified.Mu.Tpml.{Tpml}
use tpm2_tss_verified.Mu.Codec.{Marshalled}
use tpm2_tss_verified.Mu.Format.{Format, word, flags}
use tpm2_tss_verified.Mu.RoundTrip.{reads_back, writes_back, frame}
use tpm2_tss_verified.Mu.Types.{
  tpm2b_digest, tpm2b_name, tpm2b_sensitive_data, tpm2b_ecc_parameter, tpm2b_max_nv_buffer,
  tpms_alg_property, tpms_algorithm_description, tpms_tagged_property, tpms_clock_info,
  tpms_time_info, tpms_time_attest_info, tpms_certify_info, tpms_command_audit_info,
  tpms_session_audit_info, tpms_creation_info, tpms_nv_certify_info, tpms_auth_command,
  tpms_auth_response, tpms_sensitive_create, tpms_ecc_point, tpms_nv_pin_counter_parameters,
  tpms_nv_public, tpms_ac_output, tpml_cc, tpml_cca, tpml_alg, tpml_handle, tpml_digest,
  tpml_alg_property, tpml_ecc_curve, tpml_tagged_tpm_property, tpml_intel_ptt_property,
  tpml_ac_capabilities,
}

-- The names of the types. An integer type and an attribute word are named by their width.
pub data TpmType : Type 0 where
  integer attribute : Width → TpmType
  tpm2b_digest_t : TpmType
  tpm2b_name_t : TpmType
  tpm2b_sensitive_data_t : TpmType
  tpm2b_ecc_parameter_t : TpmType
  tpm2b_max_nv_buffer_t : TpmType
  tpms_alg_property_t : TpmType
  tpms_algorithm_description_t : TpmType
  tpms_tagged_property_t : TpmType
  tpms_clock_info_t : TpmType
  tpms_time_info_t : TpmType
  tpms_time_attest_info_t : TpmType
  tpms_certify_info_t : TpmType
  tpms_command_audit_info_t : TpmType
  tpms_session_audit_info_t : TpmType
  tpms_creation_info_t : TpmType
  tpms_nv_certify_info_t : TpmType
  tpms_auth_command_t : TpmType
  tpms_auth_response_t : TpmType
  tpms_sensitive_create_t : TpmType
  tpms_ecc_point_t : TpmType
  tpms_nv_pin_counter_parameters_t : TpmType
  tpms_nv_public_t : TpmType
  tpms_ac_output_t : TpmType
  tpml_cc_t : TpmType
  tpml_cca_t : TpmType
  tpml_alg_t : TpmType
  tpml_handle_t : TpmType
  tpml_digest_t : TpmType
  tpml_alg_property_t : TpmType
  tpml_ecc_curve_t : TpmType
  tpml_tagged_tpm_property_t : TpmType
  tpml_intel_ptt_property_t : TpmType
  tpml_ac_capabilities_t : TpmType

-- The C structure.
abbrev pub Object : TpmType → Type 0
Object (integer w) = ℕ
Object (attribute w) = ℕ
Object tpm2b_digest_t = Tpm2b
Object tpm2b_name_t = Tpm2b
Object tpm2b_sensitive_data_t = Tpm2b
Object tpm2b_ecc_parameter_t = Tpm2b
Object tpm2b_max_nv_buffer_t = Tpm2b
Object tpms_alg_property_t = ℕ × ℕ
Object tpms_algorithm_description_t = ℕ × ℕ
Object tpms_tagged_property_t = ℕ × ℕ
Object tpms_clock_info_t = ℕ × (ℕ × (ℕ × ℕ))
Object tpms_time_info_t = ℕ × (ℕ × (ℕ × (ℕ × ℕ)))
Object tpms_time_attest_info_t = (ℕ × (ℕ × (ℕ × (ℕ × ℕ)))) × ℕ
Object tpms_certify_info_t = Tpm2b × Tpm2b
Object tpms_command_audit_info_t = ℕ × (ℕ × (Tpm2b × Tpm2b))
Object tpms_session_audit_info_t = ℕ × Tpm2b
Object tpms_creation_info_t = Tpm2b × Tpm2b
Object tpms_nv_certify_info_t = Tpm2b × (ℕ × Tpm2b)
Object tpms_auth_command_t = ℕ × (Tpm2b × (ℕ × Tpm2b))
Object tpms_auth_response_t = Tpm2b × (ℕ × Tpm2b)
Object tpms_sensitive_create_t = Tpm2b × Tpm2b
Object tpms_ecc_point_t = Tpm2b × Tpm2b
Object tpms_nv_pin_counter_parameters_t = ℕ × ℕ
Object tpms_nv_public_t = ℕ × (ℕ × (ℕ × (Tpm2b × ℕ)))
Object tpms_ac_output_t = ℕ × ℕ
Object tpml_cc_t = Tpml ℕ
Object tpml_cca_t = Tpml ℕ
Object tpml_alg_t = Tpml ℕ
Object tpml_handle_t = Tpml ℕ
Object tpml_digest_t = Tpml Tpm2b
Object tpml_alg_property_t = Tpml (ℕ × ℕ)
Object tpml_ecc_curve_t = Tpml ℕ
Object tpml_tagged_tpm_property_t = Tpml (ℕ × ℕ)
Object tpml_intel_ptt_property_t = Tpml ℕ
Object tpml_ac_capabilities_t = Tpml (ℕ × ℕ)

-- What of it goes on the wire.
abbrev pub Value : TpmType → Type 0
Value (integer w) = ℕ
Value (attribute w) = ℕ
Value tpm2b_digest_t = Bytes
Value tpm2b_name_t = Bytes
Value tpm2b_sensitive_data_t = Bytes
Value tpm2b_ecc_parameter_t = Bytes
Value tpm2b_max_nv_buffer_t = Bytes
Value tpms_alg_property_t = ℕ × ℕ
Value tpms_algorithm_description_t = ℕ × ℕ
Value tpms_tagged_property_t = ℕ × ℕ
Value tpms_clock_info_t = ℕ × (ℕ × (ℕ × ℕ))
Value tpms_time_info_t = ℕ × (ℕ × (ℕ × (ℕ × ℕ)))
Value tpms_time_attest_info_t = (ℕ × (ℕ × (ℕ × (ℕ × ℕ)))) × ℕ
Value tpms_certify_info_t = Bytes × Bytes
Value tpms_command_audit_info_t = ℕ × (ℕ × (Bytes × Bytes))
Value tpms_session_audit_info_t = ℕ × Bytes
Value tpms_creation_info_t = Bytes × Bytes
Value tpms_nv_certify_info_t = Bytes × (ℕ × Bytes)
Value tpms_auth_command_t = ℕ × (Bytes × (ℕ × Bytes))
Value tpms_auth_response_t = Bytes × (ℕ × Bytes)
Value tpms_sensitive_create_t = Bytes × Bytes
Value tpms_ecc_point_t = Bytes × Bytes
Value tpms_nv_pin_counter_parameters_t = ℕ × ℕ
Value tpms_nv_public_t = ℕ × (ℕ × (ℕ × (Bytes × ℕ)))
Value tpms_ac_output_t = ℕ × ℕ
Value tpml_cc_t = List ℕ
Value tpml_cca_t = List ℕ
Value tpml_alg_t = List ℕ
Value tpml_handle_t = List ℕ
Value tpml_digest_t = List Bytes
Value tpml_alg_property_t = List (ℕ × ℕ)
Value tpml_ecc_curve_t = List ℕ
Value tpml_tagged_tpm_property_t = List (ℕ × ℕ)
Value tpml_intel_ptt_property_t = List ℕ
Value tpml_ac_capabilities_t = List (ℕ × ℕ)

abbrev pub format : (t : TpmType) → Format (Object t) (Value t)
format (integer w) = word w
format (attribute w) = flags w
format tpm2b_digest_t = tpm2b_digest
format tpm2b_name_t = tpm2b_name
format tpm2b_sensitive_data_t = tpm2b_sensitive_data
format tpm2b_ecc_parameter_t = tpm2b_ecc_parameter
format tpm2b_max_nv_buffer_t = tpm2b_max_nv_buffer
format tpms_alg_property_t = tpms_alg_property
format tpms_algorithm_description_t = tpms_algorithm_description
format tpms_tagged_property_t = tpms_tagged_property
format tpms_clock_info_t = tpms_clock_info
format tpms_time_info_t = tpms_time_info
format tpms_time_attest_info_t = tpms_time_attest_info
format tpms_certify_info_t = tpms_certify_info
format tpms_command_audit_info_t = tpms_command_audit_info
format tpms_session_audit_info_t = tpms_session_audit_info
format tpms_creation_info_t = tpms_creation_info
format tpms_nv_certify_info_t = tpms_nv_certify_info
format tpms_auth_command_t = tpms_auth_command
format tpms_auth_response_t = tpms_auth_response
format tpms_sensitive_create_t = tpms_sensitive_create
format tpms_ecc_point_t = tpms_ecc_point
format tpms_nv_pin_counter_parameters_t = tpms_nv_pin_counter_parameters
format tpms_nv_public_t = tpms_nv_public
format tpms_ac_output_t = tpms_ac_output
format tpml_cc_t = tpml_cc
format tpml_cca_t = tpml_cca
format tpml_alg_t = tpml_alg
format tpml_handle_t = tpml_handle
format tpml_digest_t = tpml_digest
format tpml_alg_property_t = tpml_alg_property
format tpml_ecc_curve_t = tpml_ecc_curve
format tpml_tagged_tpm_property_t = tpml_tagged_tpm_property
format tpml_intel_ptt_property_t = tpml_intel_ptt_property
format tpml_ac_capabilities_t = tpml_ac_capabilities

module _ (t : TpmType) where
  open (format t).codec use {IsValid, HasShape, view, encode, marshal, unmarshal}

  -- An object that was marshalled into a buffer with room for it is read back, with the same
  -- value on the wire and the same offset behind it, into any destination of the type.
  pub unmarshal-marshal :
      (a d : Object t) (buf : Bytes) (size offset : ℕ)
      → IsValid a
      → HasShape d
      → offset + length (encode (view a)) ≤ size
      → size ≤ length buf
      → size < size_mod
      → (out : Bytes) × (end : ℕ) × (d' : Object t) × (marshal a (some buf) size (some offset)
          ≡ some (record { rc = rc_success; buffer = some out; offset = some end }))
        × (unmarshal (some out) size (some offset) (some d)
            ≡ some (record { rc = rc_success; offset = some end; dest = some d' }))
        × (view d' ≡ view a)
  unmarshal-marshal = reads_back (format t)

  -- On any bytes at all, with `buffer_size` no more than the buffer holds, reading touches nothing
  -- outside the buffer and the destination: it succeeds, and then the offset has not passed
  -- `buffer_size` and the object marshals to the very bytes that were read, or it fails and the
  -- offset stays where it was.
  pub marshal-unmarshal :
      (d : Object t) (buf : Bytes) (size offset : ℕ)
      → HasShape d
      → All IsByte buf
      → size ≤ length buf
      → size < size_mod
      → ((a : Object t) × (end : ℕ) × (unmarshal (some buf) size (some offset) (some d)
            ≡ some (record { rc = rc_success; offset = some end; dest = some a }))
          × (end ≤ size)
          × (marshal a (some buf) size (some offset)
              ≡ some (record {
                rc = rc_success;
                buffer = some (splice offset (slice offset (end - offset) buf) buf);
                offset = some end;
              })))
        ⊎ ((left : Object t) × (rc : ℕ) × (rc ≢ rc_success)
            × (unmarshal (some buf) size (some offset) (some d)
                ≡ some (record { rc = rc; offset = some offset; dest = some left })))
  marshal-unmarshal = writes_back (format t)

  -- Whether an object fits or not, marshalling it returns (success exactly when it fits), keeps
  -- the length of the buffer, and leaves a byte before the offset or from `buffer_size` on as it was.
  pub marshal_frame :
      (a : Object t) (buf : Bytes) (size offset i : ℕ)
      → IsValid a
      → size ≤ length buf
      → size < size_mod
      → (i < offset) ⊎ (size ≤ i)
      → (out : Marshalled) × (written : Bytes) × (marshal a (some buf) size (some offset)
          ≡ some out)
        × (out.rc ≡ (
            if leb (offset + length (encode (view a))) size
            then rc_success
            else mu_insufficient_buffer))
        × (out.buffer ≡ some written)
        × (length written ≡ length buf)
        × (get_elem? written i ≡ get_elem? buf i)
  marshal_frame = frame (format t)
