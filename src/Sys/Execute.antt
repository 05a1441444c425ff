-- ===== src/Sys/Execute.antt =====
-- src/tss2-sys/api/Tss2_Sys_Execute.c, over a transport.
use tpm2_tss_verified.Common.{
  ℕ, ◌≡◌, not, Option, none, some, length, All, ltb, ◌==◌, ◌&&◌, if◌then◌else◌, ◌>>=◌,
}
use tpm2_tss_verified.Rc.{
  rc_success, sys_bad_reference, sys_bad_sequence, sys_general_failure, sys_malformed_response,
  sys_insufficient_context, sys_insufficient_response, tcti_insufficient_buffer,
  tpm2_st_no_sessions, tpm2_st_sessions, tpm2_st_rsp_command, tpm2_rc_canceled,
}
use tpm2_tss_verified.Memory.{Bytes}
use tpm2_tss_verified.Endian.{w2, w4, IsByte}
use tpm2_tss_verified.Mu.Codec.{local_of}
use tpm2_tss_verified.Mu.Base.{base_unmarshal}
use tpm2_tss_verified.Sys.{
  cmd_stage_prepare, cmd_stage_send_command, cmd_stage_receive_response, SysContext,
  get_command_size,
}

-- What Tss2_Tcti_Transmit and Tss2_Tcti_Receive do on a state of the transport.
pub record Transport : Type 1 where
  pub State : Type 0
  -- The size and the command buffer: the return code.
  pub transmit : ℕ → Bytes → State → ℕ × State
  -- The size of the buffer, and the buffer: the return code, the size of the response, and the buffer.
  pub receive : ℕ → Bytes → State → ℕ × ℕ × Bytes × State

-- A transport writes bytes, and writes them into the buffer.
pub record IsTransport (t : Transport) : Type 0 where
  pub received_length :
      (size : ℕ) (buf : Bytes) (s : t.State) → length (t.receive size buf s).2 ≡ length buf
  pub received_bytes :
      (size : ℕ) (buf : Bytes) (s : t.State) → All IsByte buf → All IsByte (t.receive size buf s).2

module _ (t : Transport) where
  -- The return code, the context and the transport, here and below.
  unfoldable pub execute_async :
      Option SysContext → t.State → Option (ℕ × Option SysContext × t.State)
  unfolding get_command_size
  execute_async none s = some (sys_bad_reference, none, s)
  execute_async (some ctx) s = elim ctx.previous_stage [
    | cmd_stage_prepare ↦ (do
      size ← get_command_size ctx
      let (rval, s') = t.transmit size ctx.cmd_buffer s
      if not (rval == rc_success)
          then some (rval, some ctx, s')
          else some (rval, some (record ctx { previous_stage = cmd_stage_send_command }), s'))
    | _ ↦ some (sys_bad_sequence, some ctx, s)
  ]

-- The end of ExecuteFinish, once the header is known.
unfoldable pub settle : SysContext → ℕ × SysContext
settle ctx =
    let code = ctx.rsp_header.response_code in
    if ltb ctx.rsp_header.response_size 10
    then (sys_insufficient_response, record ctx { previous_stage = cmd_stage_prepare })
    else if code == tpm2_rc_canceled
    then (code, record ctx { previous_stage = cmd_stage_prepare })
    else (code, record ctx { previous_stage = cmd_stage_receive_response })

-- The middle of ExecuteFinish: the header of the response is read.
unfoldable pub read_rsp_header : SysContext → Option (ℕ × SysContext)
unfolding base_unmarshal settle
read_rsp_header ctx = do
  t ← base_unmarshal w2 (some ctx.cmd_buffer) ctx.max_cmd_size (some 0) (some ctx.rsp_header.tag)
  tag ← t.dest
  let tagged : SysContext = record ctx {
    next_data = local_of t.offset;
    rsp_header = record ctx.rsp_header { tag = tag };
  }
  if not (t.rc == rc_success)
      then some (t.rc, tagged)
      else if not (tag == tpm2_st_sessions) && not (tag == tpm2_st_no_sessions)
      then some (
        if tag == tpm2_st_rsp_command then sys_general_failure else sys_malformed_response,
        tagged,
      )
      else do
        n ←
            base_unmarshal w4 (some ctx.cmd_buffer) ctx.max_cmd_size t.offset
              (some ctx.rsp_header.response_size)
        size ← n.dest
        let sized : SysContext = record tagged {
          next_data = local_of n.offset;
          rsp_header = record tagged.rsp_header { response_size = size };
        }
        if not (n.rc == rc_success)
            then some (n.rc, sized)
            else if ltb ctx.max_cmd_size size
            then some (sys_malformed_response, sized)
            else do
              c ←
                  base_unmarshal w4 (some ctx.cmd_buffer) ctx.max_cmd_size n.offset
                    (some ctx.rsp_header.response_code)
              code ← c.dest
              let coded : SysContext = record sized {
                next_data = local_of c.offset;
                rsp_header = record sized.rsp_header { response_code = code };
              }
              if not (c.rc == rc_success) then some (c.rc, coded) else some (settle coded)

module _ (t : Transport) where
  -- A blocking call.
  unfoldable pub execute_finish :
      Option SysContext → t.State → Option (ℕ × Option SysContext × t.State)
  unfolding read_rsp_header
  execute_finish none s = some (sys_bad_reference, none, s)
  execute_finish (some ctx) s = elim ctx.previous_stage [
    | cmd_stage_send_command ↦ (do
      let (rval, size, buf, s') = t.receive ctx.max_cmd_size ctx.cmd_buffer s
      let filled : SysContext = record ctx { cmd_buffer = buf }
      if rval == tcti_insufficient_buffer
          then some (sys_insufficient_context, some filled, s')
          else if not (rval == rc_success)
          then some (rval, some filled, s')
          else do (rc, done) ← read_rsp_header filled; some (rc, some done, s'))
    | _ ↦ some (sys_bad_sequence, some ctx, s)
  ]

  unfoldable pub execute : Option SysContext → t.State → Option (ℕ × Option SysContext × t.State)
  unfolding execute_async execute_finish
  execute none s = some (sys_bad_reference, none, s)
  execute (some ctx) s = do
    (rval, sent, s') ← execute_async t (some ctx) s
    if not (rval == rc_success) then some (rval, sent, s') else execute_finish sent s'
