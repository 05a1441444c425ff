-- ===== src/Tcti/Mssim/Transmit.antt =====
-- tcti_mssim_transmit: what a command puts on the socket, and the state that it leaves.
use tpm2_tss_verified.Common.{
  ℕ, ◌≤◌, ◌<◌, ◌≡◌, refl, ◌⊎◌, inl, inr, some, length, All, arith, lt→ltb, le→ltb, lt→leb, le→leb,
  ◌^◌, ◌==◌, ==_self, Bool-cases, ==→eq, le_or_lt,
}
use tpm2_tss_verified.Rc.{rc_success, tcti_io_error, tcti_bad_value, tcti_bad_sequence}
use tpm2_tss_verified.Memory.{Bytes}
use tpm2_tss_verified.Endian.{IsByte}
use tpm2_tss_verified.Io.System.{Kernel, IsKernel}
use tpm2_tss_verified.Io.{Socket, socket_xmit_buf}
use tpm2_tss_verified.Tcti.{
  TctiState, TctiState-cases, tcti_state_final, tcti_state_transmit, tcti_state_receive,
  tpm_header_size, tcti_common_transmit_checks,
}
use tpm2_tss_verified.Tcti.Wire.{parsed, header_unmarshal-parsed}
use tpm2_tss_verified.Tcti.Machine.{IsStep, transmit_call}
use tpm2_tss_verified.Tcti.Mssim.{
  Mssim, with_state, tcti_mssim_magic, tcti_mssim_context_cast, tcti_mssim_down_cast,
}
use tpm2_tss_verified.Tcti.Mssim.Frame.{
  frame, length-frame, SentOn, xmit-SentOn, send_sim_cmd_setup-frame,
}
use tpm2_tss_verified.Tcti.Mssim.Handlers.{no_header, tcti_mssim_transmit}

-- What the kernel took of a command, with the code and the state that come of it: success, and
-- RECEIVE, when it took the frame and then the whole command, of less than 2^31 bytes.
pub data Transmission (k : Kernel) (m : Mssim) (cmd : Bytes) (size : ℕ) (s : k.State)
    : ℕ → TctiState → k.State → Type 0 where
  frame_failed :
      {end : ℕ} {s' : k.State}
      → SentOn k (frame m.common.locality size) 9 s m.tpm_sock end s'
      → end < 9
      → Transmission k m cmd size s tcti_io_error tcti_state_transmit s'
  command_failed :
      {end : ℕ} {s' s'' : k.State}
      → SentOn k (frame m.common.locality size) 9 s m.tpm_sock 9 s'
      → SentOn k cmd size s' m.tpm_sock end s''
      → (end < size) ⊎ (2 ^ 31 ≤ size)
      → Transmission k m cmd size s tcti_io_error tcti_state_transmit s''
  completed :
      {s' s'' : k.State}
      → SentOn k (frame m.common.locality size) 9 s m.tpm_sock 9 s'
      → SentOn k cmd size s' m.tpm_sock size s''
      → size < 2 ^ 31
      → Transmission k m cmd size s rc_success tcti_state_receive s''

Transmission-IsStep :
    (k : Kernel) (m : Mssim) (cmd : Bytes) (size : ℕ) (s : k.State) (rc : ℕ) (state : TctiState)
    (s' : k.State)
    → Transmission k m cmd size s rc state s'
    → IsStep tcti_state_transmit transmit_call rc state
Transmission-IsStep k m cmd size s _ _ s' (frame_failed d h) = (refl, inl refl)
Transmission-IsStep k m cmd size s _ _ s' (command_failed d d' h) = (refl, inl refl)
Transmission-IsStep k m cmd size s _ _ s' (completed d d' h) = (refl, inl refl)

module _ (k : Kernel) (law : IsKernel k) where
  open k use {State}

  -- A call of socket_xmit_buf fails, short of the end or on a size that is no int, or is complete.
  pub xmit-cases :
      (sock : Socket) (buf : Bytes) (size : ℕ) (s : State)
      → size ≤ length buf
      → ((end : ℕ) × (s' : State) × SentOn k buf size s sock end s'
          × ((end < size) ⊎ (2 ^ 31 ≤ size))
          × (socket_xmit_buf k sock (some buf) size s ≡ some (tcti_io_error, s')))
        ⊎ ((s' : State) × SentOn k buf size s sock size s'
            × (size < 2 ^ 31)
            × (socket_xmit_buf k sock (some buf) size s ≡ some (rc_success, s')))
  xmit-cases sock buf size s room =
      let (end, s', d, bound, out) = xmit-SentOn k law sock buf size s room in
      elim (le_or_lt size end) [
        | inr less ↦ inl (end, s', d, inl less, rw (lt→ltb end size less) at out)
        | inl all ↦ elim (le_or_lt (2 ^ 31) size) [
          | inl large ↦
              inl
                (end, s', d, inr large, rw (le→ltb end size all, le→leb (2 ^ 31) size large) at out)
          | inr small ↦
              let e : end ≡ size = omega arith in
              inr
                (s', rw e at d, small, rw (le→ltb end size all, lt→leb (2 ^ 31) size small) at out)
        ]
      ]

  module _ (m : Mssim) (magic : m.common.magic ≡ tcti_mssim_magic) (cmd : Bytes)
      (room : tpm_header_size ≤ length cmd) (hb : All IsByte cmd) (size : ℕ) (s : State) where
    -- In the state TRANSMIT, a command whose header has its size is sent behind the frame, and the call
    -- returns. The code is success, and the state RECEIVE, exactly when the kernel took both whole and
    -- the size is below 2^31; otherwise it is IO_ERROR and the state stays.
    pub tcti_mssim_transmit-Transmission :
        m.common.state ≡ tcti_state_transmit
        → (parsed cmd).size ≡ size
        → size ≤ length cmd
        → (rc : ℕ) × (state : TctiState) × (s' : State) × Transmission k m cmd size s rc state s'
          × (tcti_mssim_transmit k (some m) size (some cmd) s
              ≡ some (record { rc = rc; ctx = some (with_state state m); after = s' }))
    unfolding tcti_mssim_transmit tcti_mssim_context_cast tcti_mssim_down_cast
        tcti_common_transmit_checks
    tcti_mssim_transmit-Transmission st agree inside =
        let head = header_unmarshal-parsed cmd room no_header hb in
        let set_up = send_sim_cmd_setup-frame k law m size s in
        elim (xmit-cases m.tpm_sock (frame m.common.locality size) 9 s
          (omega (arith, length-frame m.common.locality size))) [
            | inl (end, s', d, less, out) ↦ (
              tcti_io_error,
              tcti_state_transmit,
              s',
              frame_failed d (ground arith),
              rw (magic, st, head, agree, ==_self size, set_up, out),
            )
            | inr (s', d, _, out) ↦ elim (xmit-cases m.tpm_sock cmd size s' inside) [
              | inl (end, s'', d', less, out') ↦ (
                tcti_io_error,
                tcti_state_transmit,
                s'',
                command_failed d d' less,
                rw (magic, st, head, agree, ==_self size, set_up, out, out'),
              )
              | inr (s'', d', small, out') ↦ (
                rc_success,
                tcti_state_receive,
                s'',
                completed d d' small,
                rw (magic, st, head, agree, ==_self size, set_up, out, out'),
              )
            ]
          ]

    -- A call on a command buffer that holds the header and `size` bytes returns. It follows the
    -- documented machine, and changes nothing of the context but the state.
    pub tcti_mssim_transmit-IsStep :
        size ≤ length cmd
        → (rc : ℕ) × (state : TctiState) × (s' : State) × (tcti_mssim_transmit k
              (some m)
              size
              (some cmd)
              s
            ≡ some (record { rc = rc; ctx = some (with_state state m); after = s' }))
          × IsStep m.common.state transmit_call rc state
    unfolding tcti_mssim_transmit tcti_mssim_context_cast tcti_mssim_down_cast
        tcti_common_transmit_checks
    tcti_mssim_transmit-IsStep inside = elim (TctiState-cases m.common.state) [
      | inl st ↦ (tcti_bad_sequence, tcti_state_final, s, rw (magic, st), rw st (refl, inr refl))
      | inr (inl st) ↦ elim (Bool-cases ((parsed cmd).size == size)) [
        | inl agree ↦
            let (rc, state, s', d, out) =
              tcti_mssim_transmit-Transmission st (==→eq _ _ agree) inside in
            (rc, state, s', out, rw st (Transmission-IsStep k m cmd size s rc state s' d))
        | inr differ ↦ (
          tcti_bad_value,
          tcti_state_transmit,
          s,
          rw (magic, st, header_unmarshal-parsed cmd room no_header hb, differ),
          rw st (refl, inl refl),
        )
      ]
      | inr (inr st) ↦
          (tcti_bad_sequence, tcti_state_receive, s, rw (magic, st), rw st (refl, inr refl))
    ]
