-- ===== src/Sys/Command/Exchange.antt =====
-- A command that the transport takes and answers with success and without sessions.
use tpm2_tss_verified.Common.{
  ℕ, ◌≤◌, ◌<◌, ◌≡◌, ap, true, false, some, none, length, All, le→ltb, ◌==◌, arith,
}
use tpm2_tss_verified.Rc.{rc_success, tpm2_st_no_sessions, tpm2_st_sessions, tpm2_rc_canceled}
use tpm2_tss_verified.Memory.{Bytes, size_mod, slice, read_within, length-slice}
use tpm2_tss_verified.Endian.{w2, w4, IsByte, of_be, slice-IsByte, be_to_host-of_memory}
use tpm2_tss_verified.Mu.Base.Laws.{base_unmarshal_fits}
use tpm2_tss_verified.Tcti.Wire.{parsed}
use tpm2_tss_verified.Sys.{
  Stage, cmd_stage_prepare, cmd_stage_send_command, cmd_stage_receive_response, SysContext,
  get_command_size, header_field, common_complete,
}
use tpm2_tss_verified.Sys.Execute.{
  Transport, settle, read_rsp_header, execute_async, execute_finish, execute,
}
use tpm2_tss_verified.Sys.Params.{word_at}
use tpm2_tss_verified.Sys.Command.{take_auths}
use tpm2_tss_verified.Sys.Command.Safe.{HasBuffer, read_size}

-- A response that is a success without sessions, and fits the buffer.
pub record IsPlain (max : ℕ) (buf : Bytes) : Type 0 where
  pub tag : (parsed buf).tag ≡ tpm2_st_no_sessions
  pub code : (parsed buf).code ≡ rc_success
  pub header : 10 ≤ (parsed buf).size
  pub fits : (parsed buf).size ≤ max
  pub bytes : All IsByte buf
  pub inside : max ≤ length buf

-- The context once the header of the response was read.
abbrev pub answered : SysContext → Bytes → SysContext
answered ctx buf = record ctx {
  cmd_buffer = buf;
  next_data = 10;
  rsp_header = record {
    tag = (parsed buf).tag;
    response_size = (parsed buf).size;
    response_code = (parsed buf).code;
  };
  previous_stage = cmd_stage_receive_response;
}

read_rsp_header-IsPlain :
    (ctx : SysContext)
    → IsPlain ctx.max_cmd_size ctx.cmd_buffer
    → ctx.max_cmd_size < size_mod
    → read_rsp_header ctx ≡ some (rc_success, answered ctx ctx.cmd_buffer)
unfolding read_rsp_header settle
read_rsp_header-IsPlain ctx plain max =
    let buf = ctx.cmd_buffer in
    let size = ctx.max_cmd_size in
    let h = parsed buf in
    let i = plain.inside in
    let g = plain.header in
    let f = plain.fits in
    let t =
      base_unmarshal_fits w2 buf size 0 ctx.rsp_header.tag (slice-IsByte 0 2 buf plain.bytes)
        (omega arith) plain.inside max in
    let n =
      base_unmarshal_fits w4 buf size 2 ctx.rsp_header.response_size
        (slice-IsByte 2 4 buf plain.bytes) (omega arith) plain.inside max in
    let c =
      base_unmarshal_fits w4 buf size 6 ctx.rsp_header.response_code
        (slice-IsByte 6 4 buf plain.bytes) (omega arith) plain.inside max in
    let not_sessions : (h.tag == tpm2_st_sessions) ≡ false =
      ap (λ (k : ℕ). k == tpm2_st_sessions) plain.tag in
    let no_sessions : (h.tag == tpm2_st_no_sessions) ≡ true =
      ap (λ (k : ℕ). k == tpm2_st_no_sessions) plain.tag in
    let not_canceled : (h.code == tpm2_rc_canceled) ≡ false =
      ap (λ (k : ℕ). k == tpm2_rc_canceled) plain.code in
    rw (
      t,
      not_sessions,
      no_sessions,
      n,
      le→ltb size h.size plain.fits,
      c,
      le→ltb h.size 10 plain.header,
      not_canceled,
      plain.code,
    )

module _ (t : Transport) (ctx : SysContext) (s s' s'' : t.State) (n size : ℕ) (buf : Bytes) where
  execute_at :
      (stage : Stage)
      → stage ≡ cmd_stage_prepare
      → header_field 2 (record ctx { previous_stage = stage }) ≡ some size
      → t.transmit size ctx.cmd_buffer s ≡ (rc_success, s')
      → t.receive ctx.max_cmd_size ctx.cmd_buffer s' ≡ (rc_success, n, buf, s'')
      → IsPlain ctx.max_cmd_size buf
      → ctx.max_cmd_size < size_mod
      → execute t (some (record ctx { previous_stage = stage })) s
        ≡ some (rc_success, some (answered ctx buf), s'')
  unfolding execute execute_async execute_finish get_command_size
  execute_at cmd_stage_prepare e header taken given plain max = rw (
    header,
    taken,
    given,
    read_rsp_header-IsPlain
        (record ctx { cmd_buffer = buf; previous_stage = cmd_stage_send_command }) plain max,
  )
  execute_at _ e header taken given plain max = cc

  -- Tss2_Sys_Execute for a prepared command.
  pub execute-IsPlain :
      ctx.previous_stage ≡ cmd_stage_prepare
      → header_field 2 ctx ≡ some size
      → t.transmit size ctx.cmd_buffer s ≡ (rc_success, s')
      → t.receive ctx.max_cmd_size ctx.cmd_buffer s' ≡ (rc_success, n, buf, s'')
      → IsPlain ctx.max_cmd_size buf
      → ctx.max_cmd_size < size_mod
      → execute t (some ctx) s ≡ some (rc_success, some (answered ctx buf), s'')
  execute-IsPlain = execute_at ctx.previous_stage

-- CommonComplete on such a response.
pub common_complete-IsPlain :
    (ctx : SysContext) (buf : Bytes)
    → IsPlain ctx.max_cmd_size buf
    → ctx.max_cmd_size < size_mod
    → common_complete (answered ctx buf)
      ≡ some (rc_success, record (answered ctx buf) { next_data = ctx.rsp_params_size })
unfolding common_complete
common_complete-IsPlain ctx buf plain max =
    let i = plain.inside in
    let g = plain.header in
    let f = plain.fits in
    let has : HasBuffer (answered ctx buf) = record {
      bytes = plain.bytes;
      header = omega arith;
      inside = plain.inside;
      max = max;
    } in
    let t =
      base_unmarshal_fits w2 buf ctx.max_cmd_size 0 0 (slice-IsByte 0 2 buf plain.bytes)
        (omega arith) plain.inside max in
    let not_sessions : ((parsed buf).tag == tpm2_st_sessions) ≡ false =
      ap (λ (k : ℕ). k == tpm2_st_sessions) plain.tag in
    rw (
      read_size (answered ctx buf) has cmd_stage_receive_response,
      le→ltb ctx.max_cmd_size (parsed buf).size plain.fits,
      t,
      not_sessions,
    )

-- The end of CommonOneCall without an array for the authorisations.
pub take_auths-IsPlain :
    (ctx : SysContext) (buf : Bytes)
    → IsPlain ctx.max_cmd_size buf
    → take_auths none (answered ctx buf) ≡ some (rc_success, none)
unfolding take_auths word_at
take_auths-IsPlain ctx buf plain =
    let i = plain.inside in
    let g = plain.header in
    let f = plain.fits in
    let not_sessions : (of_be (slice 0 2 buf) == tpm2_st_sessions) ≡ false =
      ap (λ (k : ℕ). k == tpm2_st_sessions) plain.tag in
    let fine : (of_be (slice 6 4 buf) == rc_success) ≡ true =
      ap (λ (k : ℕ). k == rc_success) plain.code in
    rw (
      fine,
      read_within 2 0 buf (omega arith),
      be_to_host-of_memory w2 (slice 0 2 buf) (length-slice 0 2 buf (omega arith))
          (slice-IsByte 0 2 buf plain.bytes),
      not_sessions,
    )
