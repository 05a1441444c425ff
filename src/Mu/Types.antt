-- ===== src/Mu/Types.antt =====
-- The types of src/tss2-mu whose functions the macros make: members and capacities as the lists at
-- the ends of tpm2b-types.c, tpml-types.c and tpms-types.c and as
-- include/tss2/tss2_tpm2_types.h have them.
use tpm2_tss_verified.Common.{ℕ, ◌<◌, ◌^◌, List, arith}
use tpm2_tss_verified.Memory.{Bytes}
use tpm2_tss_verified.Endian.{w1, w2, w4, w8}
use tpm2_tss_verified.Mu.Tpm2b.{Tpm2b}
use tpm2_tss_verified.Mu.Tpml.{Tpml}
use tpm2_tss_verified.Mu.Format.{Format, word, flags, bytes, ◌and◌, struct, list_of}

-- The capacities fit the size fields.
pub fits_16 : (n : ℕ) → n < 2 ^ 12 → n < 2 ^ 16
fits_16 n h = omega arith

pub fits_32 : (n : ℕ) → n < 2 ^ 9 → n < 2 ^ 32
fits_32 n h = omega arith

pub small_64 : 64 < 2 ^ 12
small_64 = omega arith

pub small_68 : 68 < 2 ^ 12
small_68 = omega arith

pub small_128 : 128 < 2 ^ 12
small_128 = omega arith

pub small_256 : 256 < 2 ^ 12
small_256 = omega arith

pub small_2048 : 2048 < 2 ^ 12
small_2048 = omega arith

pub list_8 : 8 < 2 ^ 9
list_8 = omega arith

pub list_127 : 127 < 2 ^ 9
list_127 = omega arith

pub list_128 : 128 < 2 ^ 9
list_128 = omega arith

pub list_254 : 254 < 2 ^ 9
list_254 = omega arith

pub list_256 : 256 < 2 ^ 9
list_256 = omega arith

pub list_508 : 508 < 2 ^ 9
list_508 = omega arith

-- TPM2B_DIGEST, TPM2B_NONCE and TPM2B_AUTH: sizeof(TPMU_HA) bytes.
abbrev pub tpm2b_digest : Format Tpm2b Bytes
tpm2b_digest = bytes 64 (fits_16 64 small_64)

-- TPM2B_NAME: sizeof(TPMU_NAME) bytes.
abbrev pub tpm2b_name : Format Tpm2b Bytes
tpm2b_name = bytes 68 (fits_16 68 small_68)

-- TPM2B_SENSITIVE_DATA
abbrev pub tpm2b_sensitive_data : Format Tpm2b Bytes
tpm2b_sensitive_data = bytes 256 (fits_16 256 small_256)

-- TPM2B_ECC_PARAMETER
abbrev pub tpm2b_ecc_parameter : Format Tpm2b Bytes
tpm2b_ecc_parameter = bytes 128 (fits_16 128 small_128)

-- TPM2B_MAX_NV_BUFFER
abbrev pub tpm2b_max_nv_buffer : Format Tpm2b Bytes
tpm2b_max_nv_buffer = bytes 2048 (fits_16 2048 small_2048)

-- TPMS_ALG_PROPERTY
abbrev pub tpms_alg_property : Format (ℕ × ℕ) (ℕ × ℕ)
tpms_alg_property = struct (word w2 and flags w4)

-- TPMS_ALGORITHM_DESCRIPTION
abbrev pub tpms_algorithm_description : Format (ℕ × ℕ) (ℕ × ℕ)
tpms_algorithm_description = struct (word w2 and flags w4)

-- TPMS_TAGGED_PROPERTY
abbrev pub tpms_tagged_property : Format (ℕ × ℕ) (ℕ × ℕ)
tpms_tagged_property = struct (word w4 and word w4)

-- TPMS_CLOCK_INFO
abbrev pub tpms_clock_info : Format (ℕ × (ℕ × (ℕ × ℕ))) (ℕ × (ℕ × (ℕ × ℕ)))
tpms_clock_info = struct (word w8 and word w4 and word w4 and word w1)

-- TPMS_TIME_INFO
abbrev pub tpms_time_info : Format (ℕ × (ℕ × (ℕ × (ℕ × ℕ)))) (ℕ × (ℕ × (ℕ × (ℕ × ℕ))))
tpms_time_info = struct (word w8 and tpms_clock_info)

-- TPMS_TIME_ATTEST_INFO
abbrev pub tpms_time_attest_info :
    Format ((ℕ × (ℕ × (ℕ × (ℕ × ℕ)))) × ℕ) ((ℕ × (ℕ × (ℕ × (ℕ × ℕ)))) × ℕ)
tpms_time_attest_info = struct (tpms_time_info and word w8)

-- TPMS_CERTIFY_INFO
abbrev pub tpms_certify_info : Format (Tpm2b × Tpm2b) (Bytes × Bytes)
tpms_certify_info = struct (tpm2b_name and tpm2b_name)

-- TPMS_COMMAND_AUDIT_INFO
abbrev pub tpms_command_audit_info : Format (ℕ × (ℕ × (Tpm2b × Tpm2b))) (ℕ × (ℕ × (Bytes × Bytes)))
tpms_command_audit_info = struct (word w8 and word w2 and tpm2b_digest and tpm2b_digest)

-- TPMS_SESSION_AUDIT_INFO
abbrev pub tpms_session_audit_info : Format (ℕ × Tpm2b) (ℕ × Bytes)
tpms_session_audit_info = struct (word w1 and tpm2b_digest)

-- TPMS_CREATION_INFO
abbrev pub tpms_creation_info : Format (Tpm2b × Tpm2b) (Bytes × Bytes)
tpms_creation_info = struct (tpm2b_name and tpm2b_digest)

-- TPMS_NV_CERTIFY_INFO
abbrev pub tpms_nv_certify_info : Format (Tpm2b × (ℕ × Tpm2b)) (Bytes × (ℕ × Bytes))
tpms_nv_certify_info = struct (tpm2b_name and word w2 and tpm2b_max_nv_buffer)

-- TPMS_AUTH_COMMAND
abbrev pub tpms_auth_command : Format (ℕ × (Tpm2b × (ℕ × Tpm2b))) (ℕ × (Bytes × (ℕ × Bytes)))
tpms_auth_command = struct (word w4 and tpm2b_digest and flags w1 and tpm2b_digest)

-- TPMS_AUTH_RESPONSE
abbrev pub tpms_auth_response : Format (Tpm2b × (ℕ × Tpm2b)) (Bytes × (ℕ × Bytes))
tpms_auth_response = struct (tpm2b_digest and flags w1 and tpm2b_digest)

-- TPMS_SENSITIVE_CREATE
abbrev pub tpms_sensitive_create : Format (Tpm2b × Tpm2b) (Bytes × Bytes)
tpms_sensitive_create = struct (tpm2b_digest and tpm2b_sensitive_data)

-- TPMS_ECC_POINT
abbrev pub tpms_ecc_point : Format (Tpm2b × Tpm2b) (Bytes × Bytes)
tpms_ecc_point = struct (tpm2b_ecc_parameter and tpm2b_ecc_parameter)

-- TPMS_NV_PIN_COUNTER_PARAMETERS
abbrev pub tpms_nv_pin_counter_parameters : Format (ℕ × ℕ) (ℕ × ℕ)
tpms_nv_pin_counter_parameters = struct (word w4 and word w4)

-- TPMS_NV_PUBLIC
abbrev pub tpms_nv_public : Format (ℕ × (ℕ × (ℕ × (Tpm2b × ℕ)))) (ℕ × (ℕ × (ℕ × (Bytes × ℕ))))
tpms_nv_public = struct (word w4 and word w2 and flags w4 and tpm2b_digest and word w2)

-- TPMS_AC_OUTPUT
abbrev pub tpms_ac_output : Format (ℕ × ℕ) (ℕ × ℕ)
tpms_ac_output = struct (word w4 and word w4)

-- TPML_CC
abbrev pub tpml_cc : Format (Tpml ℕ) (List ℕ)
tpml_cc = list_of 256 (fits_32 256 list_256) (word w4)

-- TPML_CCA
abbrev pub tpml_cca : Format (Tpml ℕ) (List ℕ)
tpml_cca = list_of 256 (fits_32 256 list_256) (flags w4)

-- TPML_ALG
abbrev pub tpml_alg : Format (Tpml ℕ) (List ℕ)
tpml_alg = list_of 128 (fits_32 128 list_128) (word w2)

-- TPML_HANDLE
abbrev pub tpml_handle : Format (Tpml ℕ) (List ℕ)
tpml_handle = list_of 254 (fits_32 254 list_254) (word w4)

-- TPML_DIGEST
abbrev pub tpml_digest : Format (Tpml Tpm2b) (List Bytes)
tpml_digest = list_of 8 (fits_32 8 list_8) tpm2b_digest

-- TPML_ALG_PROPERTY
abbrev pub tpml_alg_property : Format (Tpml (ℕ × ℕ)) (List (ℕ × ℕ))
tpml_alg_property = list_of 127 (fits_32 127 list_127) tpms_alg_property

-- TPML_ECC_CURVE
abbrev pub tpml_ecc_curve : Format (Tpml ℕ) (List ℕ)
tpml_ecc_curve = list_of 508 (fits_32 508 list_508) (word w2)

-- TPML_TAGGED_TPM_PROPERTY
abbrev pub tpml_tagged_tpm_property : Format (Tpml (ℕ × ℕ)) (List (ℕ × ℕ))
tpml_tagged_tpm_property = list_of 127 (fits_32 127 list_127) tpms_tagged_property

-- TPML_INTEL_PTT_PROPERTY
abbrev pub tpml_intel_ptt_property : Format (Tpml ℕ) (List ℕ)
tpml_intel_ptt_property = list_of 256 (fits_32 256 list_256) (word w4)

-- TPML_AC_CAPABILITIES
abbrev pub tpml_ac_capabilities : Format (Tpml (ℕ × ℕ)) (List (ℕ × ℕ))
tpml_ac_capabilities = list_of 128 (fits_32 128 list_128) tpms_ac_output
