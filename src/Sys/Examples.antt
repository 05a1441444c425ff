-- ===== src/Sys/Examples.antt =====
-- The system API over a concrete transport, and the theorems at concrete inputs.
use tpm2_tss_verified.Common.{ℕ, ◌≡◌, refl, false, some, [], ◌∷◌, ◌++◌, replicate, All, arith}
use tpm2_tss_verified.Rc.{rc_success, tcti_io_error, tpm2_st_no_sessions}
use tpm2_tss_verified.Memory.{Bytes, splice, length-splice, splice-All}
use tpm2_tss_verified.Endian.{IsByte}
use tpm2_tss_verified.Io.Pipe.{pipe, pipe-IsKernel}
use tpm2_tss_verified.Tcti.{TctiState, tcti_state_transmit}
use tpm2_tss_verified.Tcti.Mssim.{Mssim, with_state, tcti_mssim_magic}
use tpm2_tss_verified.Tcti.Mssim.Handlers.{tcti_mssim_transmit}
use tpm2_tss_verified.Tcti.Mssim.Transmit.{Transmission}
use tpm2_tss_verified.Sys.Simulator.{common_prepare_epilogue-tcti_mssim_transmit}
use tpm2_tss_verified.Tcti.Wire.{wire, parsed}
use tpm2_tss_verified.Sys.{
  Stage, cmd_stage_initialize, cmd_stage_prepare, cmd_stage_send_command, SysContext,
  get_command_size, common_prepare_prologue, common_prepare_epilogue,
}
use tpm2_tss_verified.Sys.Handles.{
  get_num_handles, get_num_command_handles, get_num_response_handles,
}
use tpm2_tss_verified.Sys.Execute.{Transport, IsTransport, execute_finish}
use tpm2_tss_verified.Sys.Finish.{Sends, verdict, execute_async-stages, execute_finish-verdict}
use tpm2_tss_verified.Sys.Prepare.{common_prepare_prologue-common_prepare_epilogue}

-- A response of ten bytes that says success.
abbrev success : Bytes
success = 0x80 ∷ 0x01 ∷ 0 ∷ 0 ∷ 0 ∷ 10 ∷ 0 ∷ 0 ∷ 0 ∷ 0 ∷ []

success-IsByte : All IsByte success
success-IsByte = ground arith

-- A transport that takes every command and answers with that.
abbrev agreeable : Transport
agreeable = record {
  State = Unit {0};
  transmit = λ size buf s. (rc_success, s);
  receive = λ size buf s. (rc_success, 10, splice 0 success buf, s);
}

agreeable-IsTransport : IsTransport agreeable
agreeable-IsTransport = record {
  received_length = λ size buf s. length-splice 0 success buf;
  received_bytes = λ size buf s h. splice-All IsByte 0 success buf success-IsByte h;
}

abbrev fresh : Stage → SysContext
fresh stage = record {
  cmd_buffer = replicate 16 0;
  max_cmd_size = 16;
  rsp_header = record { tag = 0; response_size = 0; response_code = 0 };
  command_code = 0;
  cp_buffer_used_size = 0;
  cp_buffer = 0;
  rsp_params_size = 0;
  previous_stage = stage;
  auths_count = 0;
  num_response_handles = 0;
  decrypt_allowed = false;
  encrypt_allowed = false;
  decrypt_null = false;
  auth_allowed = false;
  next_data = 0;
}

-- TPM2_CC_StartAuthSession has two handles, and its response one.
start_auth_session_handles :
    (get_num_command_handles 0x176 ≡ 2) × (get_num_response_handles 0x176 ≡ 1)
unfolding get_num_command_handles get_num_response_handles get_num_handles
start_auth_session_handles = (refl, refl)

-- TPM2_Startup(TPM2_SU_CLEAR)
common_prepare_prologue-common_prepare_epilogue_example :
    (p ctx' : SysContext) × (common_prepare_prologue (fresh cmd_stage_initialize) 0x144
      ≡ some (rc_success, p))
    × (common_prepare_epilogue
          (record p { cmd_buffer = splice 10 (0 ∷ 0 ∷ []) p.cmd_buffer; next_data = 12 })
        ≡ some (rc_success, ctx'))
    × (ctx'.cmd_buffer
        ≡ splice 0
            (wire (record { tag = tpm2_st_no_sessions; size = 12; code = 0x144 }) ++ (0 ∷ 0 ∷ []))
            (replicate 16 0))
    × (ctx'.previous_stage ≡ cmd_stage_prepare)
common_prepare_prologue-common_prepare_epilogue_example =
    common_prepare_prologue-common_prepare_epilogue (fresh cmd_stage_initialize) 0x144 (0 ∷ 0 ∷ [])
      (λ e. cc) (omega arith) (omega arith) (omega arith)

-- A transport that refuses every command.
abbrev refusing : Transport
refusing = record {
  State = Unit {0};
  transmit = λ size buf s. (tcti_io_error, s);
  receive = λ size buf s. (tcti_io_error, 0, buf, s);
}

execute_async-stages_example : Sends refusing (fresh cmd_stage_prepare) tt cmd_stage_prepare
execute_async-stages_example =
    execute_async-stages refusing (fresh cmd_stage_prepare) tt (omega arith) (ground arith)

execute_finish-verdict_example :
    (rc : ℕ) × (ctx' : SysContext) × (s' : Unit {0}) × (execute_finish agreeable
        (some (fresh cmd_stage_send_command))
        tt
      ≡ some (rc, some ctx', s'))
    × ((rc, ctx'.previous_stage) ≡ verdict 16 (parsed (splice 0 success (replicate 16 0))))
    × (ctx'.cmd_buffer ≡ splice 0 success (replicate 16 0))
execute_finish-verdict_example =
    execute_finish-verdict agreeable (fresh cmd_stage_send_command) tt agreeable-IsTransport refl
      (omega arith) (omega arith) (omega arith) (ground arith) refl

abbrev simulator : Mssim
simulator = record {
  common = record {
    magic = tcti_mssim_magic;
    state = tcti_state_transmit;
    header = record { tag = 0; size = 0; code = 0 };
    locality = 3;
  };
  platform_sock = some 4;
  tpm_sock = some 3;
  cancel = false;
}

common_prepare_epilogue-tcti_mssim_transmit_example :
    (p ctx' : SysContext) × (size rc : ℕ) × (state : TctiState) × (s' : Bytes)
    × (common_prepare_prologue (fresh cmd_stage_initialize) 0x144 ≡ some (rc_success, p))
    × (common_prepare_epilogue
          (record p { cmd_buffer = splice 10 (0 ∷ 0 ∷ []) p.cmd_buffer; next_data = 12 })
        ≡ some (rc_success, ctx'))
    × (get_command_size ctx' ≡ some size)
    × (size ≡ 12)
    × Transmission pipe simulator ctx'.cmd_buffer size [] rc state s'
    × (tcti_mssim_transmit pipe (some simulator) size (some ctx'.cmd_buffer) []
        ≡ some (record { rc = rc; ctx = some (with_state state simulator); after = s' }))
common_prepare_epilogue-tcti_mssim_transmit_example =
    common_prepare_epilogue-tcti_mssim_transmit pipe pipe-IsKernel simulator
      (fresh cmd_stage_initialize) 0x144 (0 ∷ 0 ∷ []) [] refl refl (λ e. cc) (omega arith)
      (omega arith) (omega arith) (omega arith) (ground arith) (ground arith)
