-- ===== src/Tcti/Machine.antt =====
-- The state machine of a transport, as the comment on `tcti_state_t` in tcti-common.h documents it.
use tpm2_tss_verified.Common.{ℕ, Bool, true, false, ◌≡◌, ◌⊎◌, ◌==◌, ◌||◌, if◌then◌else◌}
use tpm2_tss_verified.Rc.{
  rc_success, tcti_bad_context, tcti_bad_reference, tcti_insufficient_buffer, tcti_bad_sequence,
  tcti_try_again, tcti_bad_value,
}
use tpm2_tss_verified.Tcti.{TctiState, tcti_state_transmit, tcti_state_receive}

pub data Call : Type 0 where
  transmit_call receive_call cancel_call set_locality_call : Call

-- Whether the call is one that the state allows.
abbrev pub in_sequence : TctiState → Call → Bool
in_sequence tcti_state_transmit transmit_call = true
in_sequence tcti_state_transmit set_locality_call = true
in_sequence tcti_state_receive receive_call = true
in_sequence tcti_state_receive cancel_call = true
in_sequence _ _ = false

-- The failures of `receive` that leave the state unchanged.
abbrev pub keeps_state : ℕ → Bool
keeps_state rc =
    rc == tcti_try_again
    || rc == tcti_insufficient_buffer
    || rc == tcti_bad_context
    || rc == tcti_bad_reference
    || rc == tcti_bad_value
    || rc == tcti_bad_sequence

-- The state after a call that returned `rc`.
abbrev pub next_state : TctiState → Call → ℕ → TctiState
next_state tcti_state_transmit transmit_call rc =
    if rc == rc_success then tcti_state_receive else tcti_state_transmit
next_state tcti_state_receive receive_call rc =
    if keeps_state rc then tcti_state_receive else tcti_state_transmit
next_state tcti_state_receive cancel_call rc =
    if rc == rc_success then tcti_state_transmit else tcti_state_receive
next_state state _ rc = state

-- A call of the machine: a call out of sequence is refused as such.
abbrev pub IsStep : TctiState → Call → ℕ → TctiState → Type 0
IsStep state call rc state' =
    (state' ≡ next_state state call rc)
    × ((in_sequence state call ≡ true) ⊎ (rc ≡ tcti_bad_sequence))
