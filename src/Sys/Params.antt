-- ===== src/Sys/Params.antt =====
-- src/tss2-sys/api: the functions that give a caller the parameters of a command or a response,
-- and replace the first of them: Tss2_Sys_GetDecryptParam.c, Tss2_Sys_SetDecryptParam.c,
-- Tss2_Sys_GetEncryptParam.c, Tss2_Sys_SetEncryptParam.c, Tss2_Sys_GetCpBuffer.c,
-- Tss2_Sys_GetRpBuffer.c and Tss2_Sys_GetCommandCode.c.
pub mod Law
pub mod Room
pub mod Response
use tpm2_tss_verified.Common.{
  ℕ, ◌+◌, ◌-◌, ◌*◌, ◌%◌, ◌^◌, Bool, not, Option, none, some, length, ltb, ◌==◌, ◌||◌, ◌&&◌,
  if◌then◌else◌, ◌>>=◌,
}
use tpm2_tss_verified.Rc.{
  rc_success, sys_bad_reference, sys_bad_sequence, sys_bad_value, sys_bad_size,
  sys_no_decrypt_param, sys_no_encrypt_param, sys_insufficient_context, tpm2_st_no_sessions,
  tpm2_st_sessions,
}
use tpm2_tss_verified.Memory.{Bytes, size_mod, write, read}
use tpm2_tss_verified.Endian.{w2, w4, host_to_be, be_to_host, to_memory, of_memory}
use tpm2_tss_verified.Mu.Codec.{local_of}
use tpm2_tss_verified.Mu.Base.{base_unmarshal}
use tpm2_tss_verified.Sys.{
  Stage, cmd_stage_initialize, SysContext, is_prepare, is_receive_response, header_field,
  set_header_field,
}

-- The return code, and what the caller's size and pointer hold afterwards. The pointer is an offset
-- into `cmdBuffer`.
pub record Area : Type 0 where
  pub rc : ℕ
  pub size : Option ℕ
  pub place : Option ℕ

-- BE_TO_HOST_16(*(UINT16 *)(ctx->cmdBuffer + place))
unfoldable pub word_at : ℕ → SysContext → Option ℕ
word_at place ctx = do bytes ← read 2 place ctx.cmd_buffer; some (be_to_host w2 (of_memory bytes))

unfoldable pub get_decrypt_param : Option SysContext → Option ℕ → Option ℕ → Option Area
unfolding is_prepare
get_decrypt_param (some ctx) (some size) (some place) =
    if not (is_prepare ctx.previous_stage)
    then some (record { rc = sys_bad_sequence; size = some size; place = some place })
    else if not ctx.decrypt_allowed
    then some (record { rc = sys_no_decrypt_param; size = some size; place = some place })
    else do
      param_size ← word_at ctx.cp_buffer ctx
      some (record { rc = rc_success; size = some param_size; place = some (ctx.cp_buffer + 2) })
get_decrypt_param ctx size place =
    some (record { rc = sys_bad_reference; size = size; place = place })

-- memmove(dst, src, len), both in `cmdBuffer`
unfoldable pub move : ℕ → ℕ → ℕ → SysContext → Option SysContext
move dst src len ctx = do
  bytes ← read len src ctx.cmd_buffer
  buf ← write bytes dst ctx.cmd_buffer
  some (record ctx { cmd_buffer = buf })

-- *(UINT16 *)ctx->cpBuffer = HOST_TO_BE_16((UINT16)param_size);
unfoldable pub set_param_size : ℕ → SysContext → Option SysContext
set_param_size param_size ctx = do
  buf ← write (to_memory 2 (host_to_be w2 (param_size % 2 ^ 16))) ctx.cp_buffer ctx.cmd_buffer
  some (record ctx { cmd_buffer = buf })

-- The end of SetDecryptParam: the parameter is copied in, at `dst`.
unfoldable pub copy_param : Bytes → ℕ → SysContext → Option (ℕ × SysContext)
copy_param param dst ctx = do
  sized ← set_param_size (length param) ctx
  if ltb ctx.max_cmd_size (dst + length param % 2 ^ 32)
      then some (sys_insufficient_context, sized)
      else do
        buf ← write param dst sized.cmd_buffer
        some (rc_success, record sized { cmd_buffer = buf })

-- The branch of SetDecryptParam that makes room for a parameter that was NULL, and what follows.
unfoldable pub make_room : Bytes → ℕ → SysContext → Option (ℕ × SysContext)
make_room param dst ctx =
    let len = ctx.cp_buffer_used_size - 2 in
    let behind = ctx.cp_buffer + ctx.cp_buffer_used_size + 2 in
    if ltb ctx.cp_buffer_used_size 2
    then some (sys_bad_size, ctx)
    else if ltb ctx.max_cmd_size (behind + len)
    then some (sys_insufficient_context, ctx)
    else do
      moved ← move behind (ctx.cp_buffer + 2) len ctx
      sized ←
          set_param_size (length param) (record moved {
            cp_buffer_used_size = (ctx.cp_buffer_used_size + length param) % 2 ^ 32;
          })
      command_size ← header_field 2 sized
      fixed ← set_header_field 2 ((command_size + length param) % 2 ^ 32) sized
      copy_param param dst fixed

-- With the size of the current parameter and the place of its bytes.
unfoldable pub replace_param : Bytes → SysContext → Area → Option (ℕ × SysContext)
replace_param param ctx current =
    if not (current.rc == rc_success)
    then some (current.rc, ctx)
    else if (local_of current.size == 0) && ctx.decrypt_null
    then make_room param (local_of current.place) ctx
    else if not (local_of current.size == length param)
    then some (sys_bad_size, ctx)
    else copy_param param (local_of current.place) ctx

-- `param_buffer` holds the bytes of the parameter, `param_size` of them.
unfoldable pub set_decrypt_param : Option SysContext → Option Bytes → Option (ℕ × Option SysContext)
unfolding is_prepare
set_decrypt_param (some ctx) (some param) =
    if not (is_prepare ctx.previous_stage)
    then some (sys_bad_sequence, some ctx)
    else if not ctx.decrypt_allowed
    then some (sys_no_decrypt_param, some ctx)
    else if ltb (length param) 1
    then some (sys_bad_value, some ctx)
    else do
      command_size ← header_field 2 ctx
      if ltb ctx.max_cmd_size ((command_size + length param) % size_mod)
          then some (sys_insufficient_context, some ctx)
          else do
            current ← get_decrypt_param (some ctx) (some 0) (some 0)
            (rc, ctx') ← replace_param param ctx current
            some (rc, some ctx')
set_decrypt_param ctx param = some (sys_bad_reference, ctx)

unfoldable pub get_encrypt_param : Option SysContext → Option ℕ → Option ℕ → Option Area
unfolding is_receive_response
get_encrypt_param (some ctx) (some size) (some place) =
    if not (is_receive_response ctx.previous_stage)
    then some (record { rc = sys_bad_sequence; size = some size; place = some place })
    else do
      tag ← word_at 0 ctx
      if not ctx.encrypt_allowed || (tag == tpm2_st_no_sessions)
          then some (record { rc = sys_no_encrypt_param; size = some size; place = some place })
          else do
            let offset = 10 + ctx.num_response_handles * 4 + 4
            param_size ← word_at offset ctx
            some (record { rc = rc_success; size = some param_size; place = some (offset + 2) })
get_encrypt_param ctx size place =
    some (record { rc = sys_bad_reference; size = size; place = place })

-- `encryptParamBuffer` holds the bytes of the parameter, `encryptParamSize` of them.
unfoldable pub set_encrypt_param : Option SysContext → Option Bytes → Option (ℕ × Option SysContext)
set_encrypt_param (some ctx) (some param) = do
  current ← get_encrypt_param (some ctx) (some 0) (some 0)
  let place = local_of current.place
  if not (current.rc == rc_success)
      then some (current.rc, some ctx)
      else if not (length param == local_of current.size)
      then some (sys_bad_size, some ctx)
      else if ltb ctx.max_cmd_size (place + length param)
      then some (sys_insufficient_context, some ctx)
      else do
        buf ← write param place ctx.cmd_buffer
        some (rc_success, some (record ctx { cmd_buffer = buf }))
set_encrypt_param ctx param = some (sys_bad_reference, ctx)

unfoldable pub get_cp_buffer : Option SysContext → Option ℕ → Option ℕ → Area
unfolding is_prepare
get_cp_buffer (some ctx) (some size) (some place) =
    if not (is_prepare ctx.previous_stage)
    then record { rc = sys_bad_sequence; size = some size; place = some place }
    else record { rc = rc_success; size = some ctx.cp_buffer_used_size; place = some ctx.cp_buffer }
get_cp_buffer ctx size place = record { rc = sys_bad_reference; size = size; place = place }

-- Without sessions the size is a difference of `size_t`, which wraps.
unfoldable pub get_rp_buffer : Option SysContext → Option ℕ → Option ℕ → Option Area
unfolding is_receive_response base_unmarshal
get_rp_buffer (some ctx) (some size) (some place) =
    let offset = 10 + ctx.num_response_handles * 4 in
    let response_size = ctx.rsp_header.response_size in
    if not (is_receive_response ctx.previous_stage)
    then some (record { rc = sys_bad_sequence; size = some size; place = some place })
    else if ctx.rsp_header.tag == tpm2_st_sessions
    then (do
      u ← base_unmarshal w4 (some ctx.cmd_buffer) response_size (some offset) (some 0)
      if not (u.rc == rc_success)
          then some (record { rc = u.rc; size = some size; place = some place })
          else some (record { rc = rc_success; size = u.dest; place = u.offset }))
    else some (record {
      rc = rc_success;
      size = some ((response_size + size_mod - offset) % size_mod);
      place = some offset;
    })
get_rp_buffer ctx size place = some (record { rc = sys_bad_reference; size = size; place = place })

-- The four bytes at `commandCode`.
unfoldable pub get_command_code : Option SysContext → Option Bytes → Option (ℕ × Option Bytes)
get_command_code (some ctx) (some bytes) = elim ctx.previous_stage [
  | cmd_stage_initialize ↦ some (sys_bad_sequence, some bytes)
  | _ ↦ (do
    written ← write (to_memory 4 (host_to_be w4 ctx.command_code)) 0 bytes
    some (rc_success, some written))
]
get_command_code ctx bytes = some (sys_bad_reference, bytes)
