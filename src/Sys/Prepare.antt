-- ===== src/Sys/Prepare.antt =====
-- What CommonPreparePrologue and CommonPrepareEpilogue make of the command buffer.
use native.Mathlib.Nat.{mod-eq_of_lt}
use tpm2_tss_verified.Common.{
  ◌%◌, ℕ, ◌+◌, ◌-◌, ◌*◌, ◌≤◌, ◌<◌, ◌^◌, ◌≡◌, ◌≢◌, refl, ap, ◌∙◌, some, length, ◌++◌, arith,
}
use tpm2_tss_verified.Rc.{rc_success, tpm2_st_no_sessions}
use tpm2_tss_verified.Memory.{Bytes, size_mod, splice, length-splice, splice-append, splice_comm}
use tpm2_tss_verified.Endian.{w2, to_be, length-to_be}
use tpm2_tss_verified.Mu.Base.Laws.{base_marshal_fits}
use tpm2_tss_verified.Tcti.{Header}
use tpm2_tss_verified.Tcti.Wire.{wire, length-wire}
use tpm2_tss_verified.Sys.Handles.{get_num_command_handles, get_num_response_handles}
use tpm2_tss_verified.Sys.Frame.{set_header_field_fits}
use tpm2_tss_verified.Sys.{
  Stage, cmd_stage_initialize, cmd_stage_receive_response, cmd_stage_prepare,
  cmd_stage_send_command, SysContext, init_sys_context_fields, copy_command_header,
  common_prepare_prologue, common_prepare_epilogue,
}

-- The context that the prologue leaves.
abbrev pub prologue : SysContext → ℕ → SysContext
prologue ctx code = record (init_sys_context_fields ctx) {
  cmd_buffer = splice 6 (to_be 4 code) (splice 0 (to_be 2 tpm2_st_no_sessions) ctx.cmd_buffer);
  command_code = code;
  num_response_handles = get_num_response_handles code;
  rsp_params_size = 10 + get_num_response_handles code * 4;
  cp_buffer = 10 + get_num_command_handles code * 4;
  next_data = 10;
}

copy_command_header-fits :
    (ctx : SysContext) (code : ℕ)
    → 10 ≤ ctx.max_cmd_size
    → ctx.max_cmd_size ≤ length ctx.cmd_buffer
    → ctx.max_cmd_size < size_mod
    → copy_command_header ctx code
      ≡ some (
        rc_success,
        record ctx {
          cmd_buffer =
              splice 6 (to_be 4 code) (splice 0 (to_be 2 tpm2_st_no_sessions) ctx.cmd_buffer);
          next_data = 10;
        },
      )
unfolding copy_command_header
copy_command_header-fits ctx code room inside max =
    let tagged : SysContext = record ctx {
      cmd_buffer = splice 0 (to_be 2 tpm2_st_no_sessions) ctx.cmd_buffer;
      next_data = 2;
    } in
    let l = length-splice 0 (to_be 2 tpm2_st_no_sessions) ctx.cmd_buffer in
    rw (
      base_marshal_fits w2 ctx.cmd_buffer ctx.max_cmd_size 0 tpm2_st_no_sessions (omega arith)
          inside max,
      set_header_field_fits 6 code tagged (omega arith),
    )

pub prologue_at :
    (ctx : SysContext) (code : ℕ) (stage : Stage)
    → stage ≢ cmd_stage_send_command
    → 10 ≤ ctx.max_cmd_size
    → ctx.max_cmd_size ≤ length ctx.cmd_buffer
    → ctx.max_cmd_size < size_mod
    → common_prepare_prologue (record ctx { previous_stage = stage }) code
      ≡ some (rc_success, prologue (record ctx { previous_stage = stage }) code)
unfolding common_prepare_prologue
prologue_at ctx code cmd_stage_send_command idle room inside max = absurd (idle refl)
prologue_at ctx code cmd_stage_initialize idle room inside max = rw (
    copy_command_header-fits
      (init_sys_context_fields (record ctx { previous_stage = cmd_stage_initialize })) code room
      inside max)
prologue_at ctx code cmd_stage_prepare idle room inside max = rw (
    copy_command_header-fits
      (init_sys_context_fields (record ctx { previous_stage = cmd_stage_prepare })) code room inside
      max)
prologue_at ctx code cmd_stage_receive_response idle room inside max = rw (
    copy_command_header-fits
      (init_sys_context_fields (record ctx { previous_stage = cmd_stage_receive_response })) code
      room inside max)

-- The four writes, in the order of the code, are one.
pub four_writes :
    (h : Header) (body buf : Bytes)
    → splice 2
        (to_be 4 h.size)
        (splice 10 body (splice 6 (to_be 4 h.code) (splice 0 (to_be 2 h.tag) buf)))
      ≡ splice 0 (wire h ++ body) buf
four_writes h body buf =
    let t = to_be 2 h.tag in
    let n = to_be 4 h.size in
    let c = to_be 4 h.code in
    let one = splice 0 t buf in
    let l = length-to_be 4 h.size in
    let m1 = splice_comm 2 10 n body (splice 6 c one) (omega arith) in
    let m2 = splice_comm 2 6 n c one (omega arith) in
    let e2 : splice 6 c (splice 2 n one) ≡ splice 2 (n ++ c) one =
      rw (length-to_be 4 h.size) at (splice-append 2 n c one) in
    let e1 : splice 2 (n ++ c) one ≡ splice 0 (wire h) buf =
      rw (length-to_be 2 h.tag) at (splice-append 0 t (n ++ c) buf) in
    let e0 : splice 10 body (splice 0 (wire h) buf) ≡ splice 0 (wire h ++ body) buf =
      rw (length-wire h) at (splice-append 0 (wire h) body buf) in
    m1 ∙ (ap (λ (x : Bytes). splice 10 body x) (m2 ∙ (e2 ∙ e1)) ∙ e0)

-- With the stage ready for a command, a buffer of at least ten bytes and the parameters `body` written
-- behind the header, the prologue and the epilogue return, and the buffer starts with the header of
-- the command, whose size counts the parameters, and the parameters.
pub common_prepare_prologue-common_prepare_epilogue :
    (ctx : SysContext) (code : ℕ) (body : Bytes)
    → ctx.previous_stage ≢ cmd_stage_send_command
    → 10 + length body ≤ ctx.max_cmd_size
    → ctx.max_cmd_size ≤ length ctx.cmd_buffer
    → ctx.max_cmd_size < 2 ^ 32
    → (p ctx' : SysContext) × (common_prepare_prologue ctx code ≡ some (rc_success, p))
      × (common_prepare_epilogue
            (record p { cmd_buffer = splice 10 body p.cmd_buffer; next_data = 10 + length body })
          ≡ some (rc_success, ctx'))
      × (ctx'.cmd_buffer
          ≡ splice 0
              (wire (record { tag = tpm2_st_no_sessions; size = 10 + length body; code = code })
                ++ body)
              ctx.cmd_buffer)
      × (ctx'.previous_stage ≡ cmd_stage_prepare)
unfolding common_prepare_epilogue
common_prepare_prologue-common_prepare_epilogue ctx code body idle room inside max =
    let p = prologue ctx code in
    let body_written : SysContext = record p {
      cmd_buffer = splice 10 body p.cmd_buffer;
      next_data = 10 + length body;
    } in
    let h : Header = record { tag = tpm2_st_no_sessions; size = 10 + length body; code = code } in
    let l0 = length-splice 0 (to_be 2 tpm2_st_no_sessions) ctx.cmd_buffer in
    let l6 =
      length-splice 6 (to_be 4 code) (splice 0 (to_be 2 tpm2_st_no_sessions) ctx.cmd_buffer) in
    let l10 = length-splice 10 body p.cmd_buffer in
    let sized = set_header_field_fits 2 (10 + length body) body_written (omega arith) in
    let small = mod-eq_of_lt {n = 10 + length body} {m = 2 ^ 32} (omega arith) in
    (
      p,
      record body_written {
        cmd_buffer = splice 2 (to_be 4 (10 + length body)) body_written.cmd_buffer;
        cp_buffer_used_size = (10 + length body + size_mod - p.cp_buffer) % 2 ^ 32;
        previous_stage = cmd_stage_prepare;
      },
      prologue_at ctx code ctx.previous_stage idle (omega arith) inside (omega arith),
      rw (small, sized),
      four_writes h body ctx.cmd_buffer,
      refl,
    )
