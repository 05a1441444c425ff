-- ===== src/Mu/Buffers.antt =====
-- The sized buffers of src/tss2-mu/tpm2b-types.c that the commands marshal besides those of `Types`,
-- with the capacities of include/tss2/tss2_tpm2_types.h.
use tpm2_tss_verified.Common.{◌<◌, ◌^◌, arith}
use tpm2_tss_verified.Memory.{Bytes}
use tpm2_tss_verified.Mu.Tpm2b.{Tpm2b}
use tpm2_tss_verified.Mu.Format.{Format, bytes}
use tpm2_tss_verified.Mu.Types.{fits_16}

pub small_16 : 16 < 2 ^ 12
small_16 = omega arith

pub small_66 : 66 < 2 ^ 12
small_66 = omega arith

pub small_512 : 512 < 2 ^ 12
small_512 = omega arith

pub small_1024 : 1024 < 2 ^ 12
small_1024 = omega arith

-- TPM2B_DATA: sizeof(TPMT_HA) bytes.
abbrev pub tpm2b_data : Format Tpm2b Bytes
tpm2b_data = bytes 66 (fits_16 66 small_66)

-- TPM2B_EVENT
abbrev pub tpm2b_event : Format Tpm2b Bytes
tpm2b_event = bytes 1024 (fits_16 1024 small_1024)

-- TPM2B_MAX_BUFFER
abbrev pub tpm2b_max_buffer : Format Tpm2b Bytes
tpm2b_max_buffer = bytes 1024 (fits_16 1024 small_1024)

-- TPM2B_IV
abbrev pub tpm2b_iv : Format Tpm2b Bytes
tpm2b_iv = bytes 16 (fits_16 16 small_16)

-- TPM2B_PUBLIC_KEY_RSA
abbrev pub tpm2b_public_key_rsa : Format Tpm2b Bytes
tpm2b_public_key_rsa = bytes 512 (fits_16 512 small_512)
