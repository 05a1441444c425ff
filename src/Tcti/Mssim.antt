-- ===== src/Tcti/Mssim.antt =====
-- src/tss2-tcti/tcti-mssim.c: the transport to the simulator over two sockets. A function takes the
-- context and the kernel, and hands both back. The logging is left out.
pub mod Handlers
pub mod Frame
pub mod Transmit
pub mod Platform
pub mod Receive
pub mod Faults
use tpm2_tss_verified.Common.{
  ℕ, ◌+◌, Bool, true, false, not, Option, none, some, List, [], length, replicate, ltb, ◌==◌,
  if◌then◌else◌, ◌>>=◌,
}
use tpm2_tss_verified.Rc.{
  rc_success, tcti_bad_context, tcti_bad_reference, tcti_bad_value, tcti_io_error,
  tcti_insufficient_buffer, tcti_not_implemented,
}
use tpm2_tss_verified.Memory.{Bytes, write}
use tpm2_tss_verified.Endian.{w1, w4}
use tpm2_tss_verified.Mu.Base.{base_marshal, base_unmarshal}
use tpm2_tss_verified.Io.System.{Kernel, Received, received, receive_failed}
use tpm2_tss_verified.Io.{Socket, write_all, socket_recv_buf, socket_xmit_buf, socket_close}
use tpm2_tss_verified.Tcti.{
  TctiState, tcti_state_transmit, tcti_state_receive, Header, TctiCommon, tcti_common_cancel_checks,
  tcti_common_transmit_checks, tcti_common_receive_checks, tcti_common_set_locality_checks,
  header_unmarshal,
}

abbrev pub tcti_mssim_magic : ℕ
tcti_mssim_magic = 0xf05b04cd9f02728d

-- The platform commands and the command codes of the simulator's protocol.
abbrev pub ms_sim_power_on : ℕ
ms_sim_power_on = 1

abbrev pub ms_sim_tpm_send_command : ℕ
ms_sim_tpm_send_command = 8

abbrev pub ms_sim_cancel_on : ℕ
ms_sim_cancel_on = 9

abbrev pub ms_sim_cancel_off : ℕ
ms_sim_cancel_off = 10

abbrev pub ms_sim_nv_on : ℕ
ms_sim_nv_on = 11

abbrev pub tpm_session_end : ℕ
tpm_session_end = 20

-- TSS2_TCTI_MSSIM_CONTEXT
pub record Mssim : Type 0 where
  pub common : TctiCommon
  pub platform_sock : Socket
  pub tpm_sock : Socket
  pub cancel : Bool

-- The context whose state is changed.
abbrev pub with_state : TctiState → Mssim → Mssim
with_state state m = record m { common = record m.common { state = state } }

unfoldable pub tcti_mssim_context_cast : Option Mssim → Option Mssim
tcti_mssim_context_cast none = none
tcti_mssim_context_cast (some ctx) = if ctx.common.magic == tcti_mssim_magic then some ctx else none

unfoldable pub tcti_mssim_down_cast : Option Mssim → Option TctiCommon
tcti_mssim_down_cast none = none
tcti_mssim_down_cast (some ctx) = some ctx.common

-- The return code, the context and the kernel.
pub record Reply (S : Type 0) : Type 0 where
  pub rc : ℕ
  pub ctx : Option Mssim
  pub after : S

-- What `receive` leaves: also what `response_size` and `response_buffer` point at.
pub record Response (S : Type 0) : Type 0 where
  pub rc : ℕ
  pub ctx : Option Mssim
  pub response_size : Option ℕ
  pub response_buffer : Option Bytes
  pub after : S

-- The argument `timeout`: TSS2_TCTI_TIMEOUT_BLOCK, or some other value.
pub data Timeout : Type 0 where
  timeout_block timeout_other : Timeout

module _ (k : Kernel) where
  open k use {State}

  -- A call of read(2) that is made once. On INVALID_SOCKET it fails.
  abbrev pub read_once : Socket → ℕ → State → Received × State
  read_once none size s = (receive_failed, s)
  read_once (some fd) size s = k.read fd size s

  -- The end of `tcti_platform_command`: the answer of four bytes is looked at.
  unfoldable pub platform_answer : Bytes → Received × State → Option (ℕ × State)
  unfolding base_unmarshal
  platform_answer buf (received bytes, s) =
      if ltb (length bytes) 4 then some (tcti_io_error, s) else do
        buf' ← write bytes 0 buf
        rsp ← base_unmarshal w4 (some buf') 4 none (some 0)
        if not (rsp.rc == rc_success)
            then some (rsp.rc, s)
            else do value ← rsp.dest; some (if not (value == 0) then tcti_io_error else rsp.rc, s)
  platform_answer buf (_, s) = some (tcti_io_error, s)

  unfoldable pub tcti_platform_command : Option Mssim → ℕ → State → Option (ℕ × State)
  unfolding base_marshal write_all platform_answer tcti_mssim_context_cast
  tcti_platform_command ctx cmd s = elim (tcti_mssim_context_cast ctx) [
    | none ↦ some (tcti_bad_context, s)
    | some mssim ↦ (do
      m ← base_marshal w4 cmd (some (replicate 4 0)) 4 none
      if not (m.rc == rc_success) then some (m.rc, s) else do
        buf ← m.buffer
        (total, s') ← write_all k mssim.platform_sock (some buf) 4 s
        if ltb total 4
            then some (tcti_io_error, s')
            else platform_answer buf (read_once mssim.platform_sock 4 s'))
  ]

  -- As it is written: a success of the marshalling returns before anything is sent.
  unfoldable pub send_sim_session_end : Socket → State → Option (ℕ × State)
  unfolding base_marshal socket_xmit_buf
  send_sim_session_end sock s = do
    m ← base_marshal w4 tpm_session_end (some (replicate 4 0)) 4 none
    if m.rc == rc_success then some (m.rc, s) else socket_xmit_buf k sock m.buffer 4 s

  unfoldable pub send_sim_cmd_setup : Option Mssim → ℕ → State → Option (ℕ × State)
  unfolding base_marshal socket_xmit_buf
  send_sim_cmd_setup none size s = some (tcti_bad_reference, s)
  send_sim_cmd_setup (some mssim) size s = do
    a ← base_marshal w4 ms_sim_tpm_send_command (some (replicate 9 0)) 9 (some 0)
    if not (a.rc == rc_success) then some (a.rc, s) else do
      b ← base_marshal w1 mssim.common.locality a.buffer 9 a.offset
      if not (b.rc == rc_success) then some (b.rc, s) else do
        c ← base_marshal w4 size b.buffer 9 b.offset
        if not (c.rc == rc_success)
            then some (c.rc, s)
            else socket_xmit_buf k mssim.tpm_sock c.buffer 9 s
