-- ===== src/Sys/Initialize.antt =====
-- Tss2_Sys_GetContextSize.c and Tss2_Sys_Initialize.c of src/tss2-sys/api, and InitSysContextPtrs of
-- src/tss2-sys/sysapi_util.c. The size of the structure _TSS2_SYS_CONTEXT_BLOB is the compiler's, a
-- parameter.
pub mod Ready
use tpm2_tss_verified.Common.{
  ℕ, ◌+◌, ◌-◌, ◌%◌, ◌^◌, Bool, false, not, Option, none, some, ltb, ◌==◌, ◌||◌, if◌then◌else◌, drop,
}
use tpm2_tss_verified.Rc.{
  rc_success, sys_bad_reference, sys_abi_mismatch, sys_bad_tcti_structure, sys_insufficient_context,
}
use tpm2_tss_verified.Memory.{Bytes, size_mod}
use tpm2_tss_verified.Sys.{cmd_stage_initialize, SysContext, init_sys_context_fields}

-- TPM2_MAX_COMMAND_SIZE
abbrev pub max_command_size : ℕ
max_command_size = 4096

-- TSS2_ABI_VERSION
pub record AbiVersion : Type 0 where
  pub creator : ℕ
  pub family : ℕ
  pub level : ℕ
  pub version : ℕ

-- Whether the two functions of the transport that a command needs are there.
pub record TctiContext : Type 0 where
  pub has_transmit : Bool
  pub has_receive : Bool

-- The negotiation of the version, which a NULL pointer skips.
unfoldable pub abi_mismatch : Option AbiVersion → Bool
abi_mismatch none = false
abi_mismatch (some v) =
    not (v.creator == 1) || (not (v.family == 2) || (not (v.level == 1) || not (v.version == 108)))

module _ (blob_size : ℕ) where
  unfoldable pub get_context_size : ℕ → ℕ
  get_context_size max =
      if max == 0
      then (blob_size + max_command_size) % size_mod
      else (blob_size + (if ltb 10 max then max else 10)) % size_mod

  -- `memory` is the caller's block, which starts with the structure. maxCmdSize is a UINT32.
  unfoldable pub init_sys_context_ptrs : Bytes → ℕ → SysContext → SysContext
  init_sys_context_ptrs memory context_size ctx = record ctx {
    cmd_buffer = drop blob_size memory;
    max_cmd_size = (context_size - blob_size) % 2 ^ 32;
  }

  unfoldable pub initialize :
      Option SysContext → Bytes → ℕ → Option TctiContext → Option AbiVersion → ℕ × Option SysContext
  unfolding init_sys_context_ptrs init_sys_context_fields
  initialize (some ctx) memory context_size (some tcti) abi =
      if ltb context_size blob_size
      then (sys_insufficient_context, some ctx)
      else if not tcti.has_transmit || not tcti.has_receive
      then (sys_bad_tcti_structure, some ctx)
      else if abi_mismatch abi
      then (sys_abi_mismatch, some ctx)
      else (
        rc_success,
        some (record (init_sys_context_fields (init_sys_context_ptrs memory context_size ctx)) {
          previous_stage = cmd_stage_initialize;
        }),
      )
  initialize ctx memory context_size tcti abi = (sys_bad_reference, ctx)
