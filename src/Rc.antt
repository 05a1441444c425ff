-- ===== src/Rc.antt =====
-- The return codes of include/tss2/tss2_common.h: a layer in the third byte and a base code below.
use tpm2_tss_verified.Common.{ℕ, ◌+◌, ◌*◌, ◌^◌}

-- TSS2_RC_LAYER(level)
abbrev pub layer : ℕ → ℕ
layer level = level * 2 ^ 16

abbrev pub rc_success : ℕ
rc_success = 0

-- The base codes under the layers SYS (8), MU (9) and TCTI (10).
abbrev pub mu_bad_reference : ℕ
mu_bad_reference = layer 9 + 5

abbrev pub mu_insufficient_buffer : ℕ
mu_insufficient_buffer = layer 9 + 6

abbrev pub sys_general_failure : ℕ
sys_general_failure = layer 8 + 1

abbrev pub sys_abi_mismatch : ℕ
sys_abi_mismatch = layer 8 + 4

abbrev pub sys_bad_tcti_structure : ℕ
sys_bad_tcti_structure = layer 8 + 22

abbrev pub sys_bad_reference : ℕ
sys_bad_reference = layer 8 + 5

abbrev pub sys_bad_sequence : ℕ
sys_bad_sequence = layer 8 + 7

abbrev pub sys_bad_value : ℕ
sys_bad_value = layer 8 + 11

abbrev pub sys_invalid_sessions : ℕ
sys_invalid_sessions = layer 8 + 13

abbrev pub sys_no_decrypt_param : ℕ
sys_no_decrypt_param = layer 8 + 14

abbrev pub sys_no_encrypt_param : ℕ
sys_no_encrypt_param = layer 8 + 15

abbrev pub sys_bad_size : ℕ
sys_bad_size = layer 8 + 16

abbrev pub sys_malformed_response : ℕ
sys_malformed_response = layer 8 + 17

abbrev pub sys_insufficient_context : ℕ
sys_insufficient_context = layer 8 + 18

abbrev pub sys_insufficient_response : ℕ
sys_insufficient_response = layer 8 + 19

abbrev pub tcti_general_failure : ℕ
tcti_general_failure = layer 10 + 1

abbrev pub tcti_not_implemented : ℕ
tcti_not_implemented = layer 10 + 2

abbrev pub tcti_bad_context : ℕ
tcti_bad_context = layer 10 + 3

abbrev pub tcti_bad_reference : ℕ
tcti_bad_reference = layer 10 + 5

abbrev pub tcti_insufficient_buffer : ℕ
tcti_insufficient_buffer = layer 10 + 6

abbrev pub tcti_bad_sequence : ℕ
tcti_bad_sequence = layer 10 + 7

abbrev pub tcti_io_error : ℕ
tcti_io_error = layer 10 + 10

abbrev pub tcti_bad_value : ℕ
tcti_bad_value = layer 10 + 11

abbrev pub tcti_try_again : ℕ
tcti_try_again = layer 10 + 9

-- The tags of include/tss2/tss2_tpm2_types.h, and the code of a command that was cancelled.
abbrev pub tpm2_st_no_sessions : ℕ
tpm2_st_no_sessions = 0x8001

abbrev pub tpm2_st_sessions : ℕ
tpm2_st_sessions = 0x8002

abbrev pub tpm2_st_rsp_command : ℕ
tpm2_st_rsp_command = 0x00c4

abbrev pub tpm2_rc_canceled : ℕ
tpm2_rc_canceled = 0x909
