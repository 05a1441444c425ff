-- ===== src/Sys.antt =====
-- src/tss2-sys/sysapi_util.c and sysapi_util.h: the context of the system API and the frame of a
-- command. `cpBuffer` and `rspParamsSize`, pointers into `cmdBuffer`, are offsets into it.
pub mod Handles
pub mod Execute
pub mod Finish
pub mod Prepare
pub mod Simulator
pub mod Params
pub mod Auths
pub mod Frame
pub mod Command
pub mod Commands
pub mod Initialize
mod Runs
mod Examples
use tpm2_tss_verified.Common.{
  ◌≡◌, refl, ◌⊎◌, inl, inr, ℕ, ◌+◌, ◌-◌, ◌*◌, ◌%◌, ◌^◌, Bool, true, false, not, Option, none, some,
  ltb, ◌==◌, if◌then◌else◌, ◌>>=◌,
}
use tpm2_tss_verified.Rc.{
  rc_success, sys_bad_sequence, sys_malformed_response, tpm2_st_no_sessions, tpm2_st_sessions,
}
use tpm2_tss_verified.Memory.{Bytes, size_mod, write, read}
use tpm2_tss_verified.Endian.{w2, w4, host_to_be, be_to_host, to_memory, of_memory}
use tpm2_tss_verified.Mu.Codec.{local_of}
use tpm2_tss_verified.Mu.Base.{base_marshal, base_unmarshal}
use tpm2_tss_verified.Sys.Handles.{get_num_command_handles, get_num_response_handles}

-- enum cmdStates
pub data Stage : Type 0 where
  cmd_stage_initialize cmd_stage_prepare cmd_stage_send_command : Stage
  cmd_stage_receive_response : Stage

-- previousStage == CMD_STAGE_PREPARE, and == CMD_STAGE_RECEIVE_RESPONSE
unfoldable pub is_prepare : Stage → Bool
is_prepare cmd_stage_prepare = true
is_prepare _ = false

unfoldable pub is_receive_response : Stage → Bool
is_receive_response cmd_stage_receive_response = true
is_receive_response _ = false

pub Stage-cases :
    (stage : Stage)
    → (stage ≡ cmd_stage_prepare)
      ⊎ (stage ≡ cmd_stage_initialize)
      ⊎ (stage ≡ cmd_stage_send_command)
      ⊎ (stage ≡ cmd_stage_receive_response)
Stage-cases cmd_stage_initialize = inr (inl refl)
Stage-cases cmd_stage_prepare = inl refl
Stage-cases cmd_stage_send_command = inr (inr (inl refl))
Stage-cases cmd_stage_receive_response = inr (inr (inr refl))

-- TPM20_Header_Out, in host byte order as `rsp_header` holds it.
pub record RspHeader : Type 0 where
  pub tag : ℕ
  pub response_size : ℕ
  pub response_code : ℕ

-- _TSS2_SYS_CONTEXT_BLOB, less the pointer to the transport.
pub record SysContext : Type 0 where
  pub cmd_buffer : Bytes
  pub max_cmd_size : ℕ
  pub rsp_header : RspHeader
  pub command_code : ℕ
  pub cp_buffer_used_size : ℕ
  pub cp_buffer : ℕ
  pub rsp_params_size : ℕ
  pub previous_stage : Stage
  pub auths_count : ℕ
  pub num_response_handles : ℕ
  pub decrypt_allowed : Bool
  pub encrypt_allowed : Bool
  pub decrypt_null : Bool
  pub auth_allowed : Bool
  pub next_data : ℕ

unfoldable pub init_sys_context_fields : SysContext → SysContext
init_sys_context_fields ctx = record ctx {
  decrypt_allowed = false;
  encrypt_allowed = false;
  decrypt_null = false;
  auth_allowed = false;
  next_data = 0;
}

-- A field of the header at the start of `cmdBuffer`, of four bytes.
unfoldable pub header_field : ℕ → SysContext → Option ℕ
header_field place ctx = do
  bytes ← read 4 place ctx.cmd_buffer
  some (be_to_host w4 (of_memory bytes))

unfoldable pub set_header_field : ℕ → ℕ → SysContext → Option SysContext
set_header_field place value ctx = do
  buf ← write (to_memory 4 (host_to_be w4 value)) place ctx.cmd_buffer
  some (record ctx { cmd_buffer = buf })

-- GetCommandSize(ctx): the field `commandSize` lies behind the tag.
unfoldable pub get_command_size : SysContext → Option ℕ
unfolding header_field
get_command_size = header_field 2

-- The return code and the context, here and below.
unfoldable pub copy_command_header : SysContext → ℕ → Option (ℕ × SysContext)
unfolding base_marshal set_header_field
copy_command_header ctx command_code = do
  m ← base_marshal w2 tpm2_st_no_sessions (some ctx.cmd_buffer) ctx.max_cmd_size (some 0)
  buf ← m.buffer
  let tagged : SysContext = record ctx { cmd_buffer = buf; next_data = local_of m.offset }
  if not (m.rc == rc_success) then some (m.rc, tagged) else do
    coded ← set_header_field 6 command_code tagged
    some (m.rc, record coded { next_data = 10 })

unfoldable pub common_prepare_prologue : SysContext → ℕ → Option (ℕ × SysContext)
unfolding init_sys_context_fields copy_command_header get_num_response_handles
    get_num_command_handles
common_prepare_prologue ctx command_code =
    let fresh = init_sys_context_fields ctx in
    elim ctx.previous_stage [
      | cmd_stage_send_command ↦ some (sys_bad_sequence, fresh)
      | _ ↦ (do
        (rval, copied) ← copy_command_header fresh command_code
        if not (rval == rc_success)
            then some (rval, copied)
            else some (
              rval,
              record copied {
                command_code = command_code;
                num_response_handles = get_num_response_handles command_code;
                rsp_params_size = 10 + get_num_response_handles command_code * 4;
                cp_buffer = copied.next_data + get_num_command_handles command_code * 4;
              },
            ))
    ]

-- The used size is the distance of two pointers, stored in 32 bits.
unfoldable pub common_prepare_epilogue : SysContext → Option (ℕ × SysContext)
unfolding set_header_field
common_prepare_epilogue ctx = do
  sized ← set_header_field 2 (ctx.next_data % 2 ^ 32) ctx
  some (
    rc_success,
    record sized {
      cp_buffer_used_size = (ctx.next_data + size_mod - ctx.cp_buffer) % 2 ^ 32;
      previous_stage = cmd_stage_prepare;
    },
  )

unfoldable pub common_complete : SysContext → Option (ℕ × SysContext)
unfolding header_field base_unmarshal
common_complete ctx = do
  rsp_size ← header_field 2 ctx
  if ltb ctx.max_cmd_size rsp_size
      then some (sys_malformed_response, ctx)
      else elim ctx.previous_stage [
        | cmd_stage_receive_response ↦ (do
          let placed : SysContext = record ctx { next_data = ctx.rsp_params_size }
          t ← base_unmarshal w2 (some ctx.cmd_buffer) ctx.max_cmd_size (some 0) (some 0)
          tag ← t.dest
          if not (t.rc == rc_success)
              then some (t.rc, placed)
              else if not (tag == tpm2_st_sessions)
              then some (t.rc, placed)
              else do
                u ←
                    base_unmarshal w4 (some ctx.cmd_buffer) ctx.max_cmd_size (some placed.next_data)
                      none
                some (u.rc, record placed { next_data = local_of u.offset }))
        | _ ↦ some (sys_bad_sequence, ctx)
      ]
