-- ===== src/Tcti/Mssim/Platform.antt =====
-- tcti_platform_command and the handlers that end with it: they return, with success or IO_ERROR.
use tpm2_tss_verified.Common.{
  subst, ℕ, ◌≤◌, ◌≡◌, refl, sym, ◌⊎◌, inl, inr, none, some, length, arith, lt→ltb, le→ltb, ◌==◌,
  Bool-cases, true, le_or_lt, if◌then◌else◌,
}
use tpm2_tss_verified.Rc.{rc_success, tcti_io_error, tcti_bad_sequence}
use tpm2_tss_verified.Memory.{Bytes, write, splice, slice, length-splice, write_within, read_within}
use tpm2_tss_verified.Endian.{w4, to_memory, host_to_be, be_to_host, of_memory}
use tpm2_tss_verified.Mu.Base.{too_small, base_marshal, base_unmarshal}
use tpm2_tss_verified.Io.System.{Kernel, IsKernel}
use tpm2_tss_verified.Io.{Socket}
use tpm2_tss_verified.Tcti.{
  TctiState, TctiState-cases, tcti_state_final, tcti_state_transmit, tcti_state_receive,
  tcti_common_cancel_checks, tcti_common_set_locality_checks,
}
use tpm2_tss_verified.Tcti.Machine.{IsStep, cancel_call, set_locality_call}
use tpm2_tss_verified.Tcti.Mssim.{
  Mssim, with_state, tcti_mssim_magic, tcti_mssim_context_cast, tcti_mssim_down_cast,
  platform_answer, tcti_platform_command, read_once, ms_sim_cancel_on,
}
use tpm2_tss_verified.Tcti.Mssim.Frame.{write_all-SentOn}
use tpm2_tss_verified.Tcti.Mssim.Handlers.{tcti_mssim_cancel, tcti_mssim_set_locality}

-- Four bytes read from the start of a buffer, with no offset.
pub base_unmarshal_start :
    (buf : Bytes) (d : ℕ)
    → 4 ≤ length buf
    → base_unmarshal w4 (some buf) 4 none (some d)
      ≡ some (record {
        rc = rc_success;
        offset = none;
        dest = some (be_to_host w4 (of_memory (slice 0 4 buf)));
      })
unfolding base_unmarshal too_small
base_unmarshal_start buf d h = rw (read_within 4 0 buf h)

pub four_ge : 4 ≤ 4
four_ge = omega arith

-- A context of this module in a state.
abbrev pub opened : Mssim → TctiState → Mssim
opened m state = record m { common = record m.common { magic = tcti_mssim_magic; state = state } }

-- What holds of every such context holds of a context with the magic number.
pub by_state :
    (P : Mssim → Type 0)
    → ((m : Mssim) (state : TctiState) → P (opened m state))
    → (m : Mssim) → m.common.magic ≡ tcti_mssim_magic
    → P m
by_state P h m magic =
    subst (λ (x : ℕ). P (record m { common = record m.common { magic = x } })) (sym magic)
      (h m m.common.state)

-- The two codes that a platform command returns.
abbrev pub IsOutcome : ℕ → Type 0
IsOutcome rc = (rc ≡ rc_success) ⊎ (rc ≡ tcti_io_error)

module _ (k : Kernel) (law : IsKernel k) where
  open k use {State}

  platform_answer-returns :
      (buf : Bytes) (sock : Socket) (s : State)
      → 4 ≤ length buf
      → (rc : ℕ) × (s' : State) × IsOutcome rc
        × (platform_answer k buf (read_once k sock 4 s) ≡ some (rc, s'))
  unfolding platform_answer
  platform_answer-returns buf none s room = (tcti_io_error, s, inr refl, refl)
  platform_answer-returns buf (some fd) s room = elim (law.reads fd 4 s) [
    | inl (bytes, s', eq, bound, calm) ↦ elim (le_or_lt 4 (length bytes)) [
      | inl all ↦
          let l = length-splice 0 bytes buf in
          elim (Bool-cases (be_to_host w4 (of_memory (slice 0 4 (splice 0 bytes buf))) == 0)) [
            | inl z ↦ (
              rc_success,
              s',
              inl refl,
              rw (
                eq,
                le→ltb (length bytes) 4 all,
                write_within bytes 0 buf (omega arith),
                base_unmarshal_start (splice 0 bytes buf) 0 (omega arith),
                z,
              ),
            )
            | inr z ↦ (
              tcti_io_error,
              s',
              inr refl,
              rw (
                eq,
                le→ltb (length bytes) 4 all,
                write_within bytes 0 buf (omega arith),
                base_unmarshal_start (splice 0 bytes buf) 0 (omega arith),
                z,
              ),
            )
          ]
      | inr part ↦ (tcti_io_error, s', inr refl, rw (eq, lt→ltb (length bytes) 4 part))
    ]
    | inr (inl (s', eq, less)) ↦ (tcti_io_error, s', inr refl, rw (eq))
    | inr (inr (s', eq, calm)) ↦ (tcti_io_error, s', inr refl, rw (eq))
  ]

  pub tcti_platform_command-returns :
      (m : Mssim) (cmd : ℕ) (s : State)
      → m.common.magic ≡ tcti_mssim_magic
      → (rc : ℕ) × (s' : State) × IsOutcome rc
        × (tcti_platform_command k (some m) cmd s ≡ some (rc, s'))
  unfolding tcti_platform_command tcti_mssim_context_cast base_marshal too_small write to_memory
  tcti_platform_command-returns m cmd s magic =
      let buf : Bytes = to_memory 4 (host_to_be w4 cmd) in
      let (end, s', d, out) = write_all-SentOn k law m.platform_sock buf 4 s four_ge in
      elim (le_or_lt 4 end) [
        | inl all ↦
            let (rc, s'', o, eq) = platform_answer-returns buf m.platform_sock s' four_ge in
            (rc, s'', o, rw (magic, out, le→ltb end 4 all) eq)
        | inr part ↦ (tcti_io_error, s', inr refl, rw (magic, out, lt→ltb end 4 part))
      ]

  -- What a call of cancel does to a context.
  abbrev Cancels : State → Mssim → Type 0
  Cancels s m =
      (rc : ℕ) × (m' : Mssim) × (s' : State) × (tcti_mssim_cancel k (some m) s
        ≡ some (record { rc = rc; ctx = some m'; after = s' }))
      × IsStep m.common.state cancel_call rc m'.common.state
      × (m' ≡ (
          if rc == rc_success
          then record (with_state tcti_state_transmit m) { cancel = true }
          else m))

  cancel-Cancels : (s : State) (m : Mssim) (state : TctiState) → Cancels s (opened m state)
  unfolding tcti_mssim_cancel tcti_mssim_context_cast tcti_mssim_down_cast tcti_common_cancel_checks
  cancel-Cancels s m tcti_state_final =
      (tcti_bad_sequence, opened m tcti_state_final, s, refl, (refl, inr refl), refl)
  cancel-Cancels s m tcti_state_transmit =
      (tcti_bad_sequence, opened m tcti_state_transmit, s, refl, (refl, inr refl), refl)
  cancel-Cancels s m tcti_state_receive =
      let now = opened m tcti_state_receive in
      let (rc, s', o, eq) = tcti_platform_command-returns now ms_sim_cancel_on s refl in
      elim o [
        | inl ok ↦ (
          rc_success,
          record (with_state tcti_state_transmit now) { cancel = true },
          s',
          rw (eq, ok),
          (refl, inl refl),
          refl,
        )
        | inr bad ↦ (tcti_io_error, now, s', rw (eq, bad), (refl, inl refl), refl)
      ]

  -- A call of cancel returns. It follows the documented machine. A success sets the mark by which
  -- `receive` ends the cancellation and leaves the rest as it is, a failure leaves everything.
  pub tcti_mssim_cancel-IsStep :
      (m : Mssim) (s : State)
      → m.common.magic ≡ tcti_mssim_magic
      → (rc : ℕ) × (m' : Mssim) × (s' : State) × (tcti_mssim_cancel k (some m) s
          ≡ some (record { rc = rc; ctx = some m'; after = s' }))
        × IsStep m.common.state cancel_call rc m'.common.state
        × (m' ≡ (
            if rc == rc_success
            then record (with_state tcti_state_transmit m) { cancel = true }
            else m))
  tcti_mssim_cancel-IsStep m s magic = by_state (Cancels s) (cancel-Cancels s) m magic

  -- A call of setLocality follows the documented machine: the locality is set in the state TRANSMIT
  -- and nowhere else, and nothing else changes.
  pub tcti_mssim_set_locality-IsStep :
      (m : Mssim) (locality : ℕ) (s : State)
      → m.common.magic ≡ tcti_mssim_magic
      → (rc : ℕ) × (m' : Mssim) × (tcti_mssim_set_locality k (some m) locality s
          ≡ some (record { rc = rc; ctx = some m'; after = s }))
        × IsStep m.common.state set_locality_call rc m'.common.state
        × (m' ≡ (
            if rc == rc_success
            then record m { common = record m.common { locality = locality } }
            else m))
  unfolding tcti_mssim_set_locality tcti_mssim_context_cast tcti_mssim_down_cast
      tcti_common_set_locality_checks
  tcti_mssim_set_locality-IsStep m locality s magic = elim (TctiState-cases m.common.state) [
    | inl st ↦ (tcti_bad_sequence, m, rw (magic, st), rw st (refl, inr refl), refl)
    | inr (inl st) ↦ (
      rc_success,
      record m { common = record m.common { locality = locality } },
      rw (magic, st),
      rw st (refl, inl refl),
      refl,
    )
    | inr (inr st) ↦ (tcti_bad_sequence, m, rw (magic, st), rw st (refl, inr refl), refl)
  ]
