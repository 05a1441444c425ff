-- ===== src/Sys/Simulator.antt =====
-- A command that sysapi_util.c framed, given to the transport of tcti-mssim.c.
use tpm2_tss_verified.Common.{
  ℕ, ◌+◌, ◌≤◌, ◌<◌, ◌^◌, ◌≡◌, ◌≢◌, refl, ap, ◌∙◌, some, length, length-append, ◌++◌, All,
  All-append, arith,
}
use tpm2_tss_verified.Rc.{rc_success, tpm2_st_no_sessions}
use tpm2_tss_verified.Memory.{Bytes, splice, length-splice, slice-splice, slice_append, splice-All}
use tpm2_tss_verified.Endian.{IsByte}
use tpm2_tss_verified.Io.System.{Kernel, IsKernel}
use tpm2_tss_verified.Tcti.{Header, TctiState, tcti_state_transmit}
use tpm2_tss_verified.Tcti.Wire.{IsValid, wire, length-wire, wire-IsByte, parsed, parsed-wire}
use tpm2_tss_verified.Tcti.Mssim.{Mssim, with_state, tcti_mssim_magic}
use tpm2_tss_verified.Tcti.Mssim.Handlers.{tcti_mssim_transmit}
use tpm2_tss_verified.Tcti.Mssim.Transmit.{Transmission, tcti_mssim_transmit-Transmission}
use tpm2_tss_verified.Sys.{
  cmd_stage_send_command, SysContext, get_command_size, common_prepare_prologue,
  common_prepare_epilogue,
}
use tpm2_tss_verified.Sys.Finish.{get_command_size-parsed}
use tpm2_tss_verified.Sys.Prepare.{common_prepare_prologue-common_prepare_epilogue}

module _ (h : Header) (body buf : Bytes) (v : IsValid h)
    (room : 10 + length body ≤ length buf) where
  framed-parsed : parsed (splice 0 (wire h ++ body) buf) ≡ h
  framed-parsed =
      let bytes = wire h ++ body in
      let l = length-append (wire h) body in
      let n = length-wire h in
      let whole = slice-splice 0 bytes buf (omega arith) in
      let m = length-splice 0 bytes buf in
      let (e, _) = slice_append 0 (wire h) body (splice 0 bytes buf) (omega arith) whole in
      parsed-wire h (splice 0 bytes buf) v (omega arith) (rw n at e)

module _ (k : Kernel) (law : IsKernel k) where
  -- With room for its parameters, a command that prologue and epilogue framed passes the checks of the
  -- simulator's transport in the state TRANSMIT: the transport sends it behind its frame, as far as
  -- the kernel takes it, and the size it is given is the one that ExecuteAsync reads from the header.
  pub common_prepare_epilogue-tcti_mssim_transmit :
      (m : Mssim) (ctx : SysContext) (code : ℕ) (body : Bytes) (s : k.State)
      → m.common.magic ≡ tcti_mssim_magic
      → m.common.state ≡ tcti_state_transmit
      → ctx.previous_stage ≢ cmd_stage_send_command
      → 10 + length body ≤ ctx.max_cmd_size
      → ctx.max_cmd_size ≤ length ctx.cmd_buffer
      → ctx.max_cmd_size < 2 ^ 32
      → code < 2 ^ 32
      → All IsByte body
      → All IsByte ctx.cmd_buffer
      → (p ctx' : SysContext) × (size rc : ℕ) × (state : TctiState) × (s' : k.State)
        × (common_prepare_prologue ctx code ≡ some (rc_success, p))
        × (common_prepare_epilogue
              (record p { cmd_buffer = splice 10 body p.cmd_buffer; next_data = 10 + length body })
            ≡ some (rc_success, ctx'))
        × (get_command_size ctx' ≡ some size)
        × (size ≡ 10 + length body)
        × Transmission k m ctx'.cmd_buffer size s rc state s'
        × (tcti_mssim_transmit k (some m) size (some ctx'.cmd_buffer) s
            ≡ some (record { rc = rc; ctx = some (with_state state m); after = s' }))
  common_prepare_epilogue-tcti_mssim_transmit m ctx code body s magic st idle room inside max cmax
        hb hc =
      let h : Header = record { tag = tpm2_st_no_sessions; size = 10 + length body; code = code } in
      let (p, ctx', e1, e2, buf, _) =
        common_prepare_prologue-common_prepare_epilogue ctx code body idle room inside max in
      let bytes = wire h ++ body in
      let l : length ctx'.cmd_buffer ≡ length ctx.cmd_buffer =
        ap length buf ∙ length-splice 0 bytes ctx.cmd_buffer in
      let all : All IsByte ctx'.cmd_buffer = rw (buf) (
        splice-All IsByte 0 bytes ctx.cmd_buffer
          (All-append IsByte (wire h) body (wire-IsByte h) hb) hc) in
      let head : parsed ctx'.cmd_buffer ≡ h = rw (buf) (
        framed-parsed h body ctx.cmd_buffer (omega arith, omega arith, omega arith)
          (omega arith)) in
      let size_eq : (parsed ctx'.cmd_buffer).size ≡ 10 + length body =
        ap (λ (x : Header). x.size) head in
      let got = get_command_size-parsed ctx' (omega arith) all in
      let (rc, state, s', d, out) =
        tcti_mssim_transmit-Transmission k law m magic ctx'.cmd_buffer (omega arith) all
          (parsed ctx'.cmd_buffer).size s st refl (omega arith) in
      (p, ctx', (parsed ctx'.cmd_buffer).size, rc, state, s', e1, e2, got, size_eq, d, out)
