-- ===== src/Tcti.antt =====
-- src/tss2-tcti/tcti-common.c and tcti-common.h: the state, the command header and the checks that
-- the transport modules share.

pub mod Wire
pub mod Machine
mod Examples
pub mod Mssim
use tpm2_tss_verified.Common.{
  ℕ, ◌≡◌, refl, ◌⊎◌, inl, inr, Bool, true, false, not, Option, none, some, ◌==◌, if◌then◌else◌,
  ◌>>=◌,
}
use tpm2_tss_verified.Rc.{
  rc_success, sys_bad_reference, tcti_not_implemented, tcti_bad_reference, tcti_bad_sequence,
}
use tpm2_tss_verified.Memory.{Bytes}
use tpm2_tss_verified.Endian.{w2, w4}
use tpm2_tss_verified.Mu.Base.{base_marshal, base_unmarshal}

-- tcti_state_t
pub data TctiState : Type 0 where
  tcti_state_final tcti_state_transmit tcti_state_receive : TctiState

pub TctiState-cases :
    (state : TctiState)
    → (state ≡ tcti_state_final) ⊎ (state ≡ tcti_state_transmit) ⊎ (state ≡ tcti_state_receive)
TctiState-cases tcti_state_final = inl refl
TctiState-cases tcti_state_transmit = inr (inl refl)
TctiState-cases tcti_state_receive = inr (inr refl)

-- tpm_header_t
pub record Header : Type 0 where
  pub tag : ℕ
  pub size : ℕ
  pub code : ℕ

abbrev pub tpm_header_size : ℕ
tpm_header_size = 10

-- The fields of TSS2_TCTI_COMMON_CONTEXT that the functions read or write. `magic` stands in its
-- first field, `v2`.
pub record TctiCommon : Type 0 where
  pub magic : ℕ
  pub state : TctiState
  pub header : Header
  pub locality : ℕ

unfoldable pub tcti_common_cancel_checks : Option TctiCommon → ℕ
tcti_common_cancel_checks none = tcti_bad_sequence
tcti_common_cancel_checks (some common) = elim common.state [
  | tcti_state_receive ↦ rc_success
  | _ ↦ tcti_bad_sequence
]

unfoldable pub tcti_common_transmit_checks : Option TctiCommon → Option Bytes → ℕ
tcti_common_transmit_checks none command_buffer = tcti_bad_sequence
tcti_common_transmit_checks (some common) command_buffer = elim common.state [
  | tcti_state_transmit ↦ elim command_buffer [ none ↦ tcti_bad_reference | some _ ↦ rc_success ]
  | _ ↦ tcti_bad_sequence
]

unfoldable pub tcti_common_receive_checks : Option TctiCommon → Option ℕ → ℕ
tcti_common_receive_checks none response_size = tcti_bad_sequence
tcti_common_receive_checks (some common) response_size = elim common.state [
  | tcti_state_receive ↦ elim response_size [ none ↦ tcti_bad_reference | some _ ↦ rc_success ]
  | _ ↦ tcti_bad_sequence
]

unfoldable pub tcti_common_set_locality_checks : Option TctiCommon → ℕ
tcti_common_set_locality_checks none = tcti_bad_sequence
tcti_common_set_locality_checks (some common) = elim common.state [
  | tcti_state_transmit ↦ rc_success
  | _ ↦ tcti_bad_sequence
]

-- The return code, and the header as far as it was read.
unfoldable pub header_unmarshal : Option Bytes → Option Header → Option (ℕ × Option Header)
unfolding base_unmarshal
header_unmarshal buf none = some (sys_bad_reference, none)
header_unmarshal buf (some header) = do
  tag ← base_unmarshal w2 buf tpm_header_size (some 0) (some header.tag)
  if not (tag.rc == rc_success) then some (tag.rc, some header) else do
    t ← tag.dest
    size ← base_unmarshal w4 buf tpm_header_size tag.offset (some header.size)
    if not (size.rc == rc_success) then some (size.rc, some (record header { tag = t })) else do
      n ← size.dest
      code ← base_unmarshal w4 buf tpm_header_size size.offset (some header.code)
      c ← code.dest
      some (code.rc, some (record { tag = t; size = n; code = c }))

-- The return code and the buffer.
unfoldable pub header_marshal : Option Header → Option Bytes → Option (ℕ × Option Bytes)
unfolding base_marshal
header_marshal none buf = some (sys_bad_reference, buf)
header_marshal (some header) buf = do
  tag ← base_marshal w2 header.tag buf tpm_header_size (some 0)
  if not (tag.rc == rc_success) then some (tag.rc, tag.buffer) else do
    size ← base_marshal w4 header.size tag.buffer tpm_header_size tag.offset
    if not (size.rc == rc_success) then some (size.rc, size.buffer) else do
      code ← base_marshal w4 header.code size.buffer tpm_header_size size.offset
      some (code.rc, code.buffer)
