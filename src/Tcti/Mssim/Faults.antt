-- ===== src/Tcti/Mssim/Faults.antt =====
-- Two ways in which tcti-mssim.c does not do what it means to.
use tpm2_tss_verified.Common.{
  ℕ, zero, suc, ◌+◌, ◌-◌, ◌≤◌, ◌<◌, ◌≡◌, ◌≢◌, refl, inl, inr, none, some, ◌∷◌, ◌++◌, length,
  length-append, replicate, length-replicate, arith, lt→leb, le→leb, le_or_lt, le→ltb, ne→==,
  first_of, second_of,
}
use tpm2_tss_verified.Memory.{Bytes, write, splice, length-splice}
use tpm2_tss_verified.Mu.Base.{too_small, base_marshal}
use tpm2_tss_verified.Endian.{to_memory}
use tpm2_tss_verified.Io.System.{Kernel, IsKernel}
use tpm2_tss_verified.Io.Complete.{Delivered, ended, failed, retried, filled, more}
use tpm2_tss_verified.Io.{calls, read_loop, read_all, socket_recv_buf, socket_close}
use tpm2_tss_verified.Tcti.{
  TctiState, tcti_state_final, tcti_state_transmit, tcti_state_receive, tcti_common_receive_checks,
}
use tpm2_tss_verified.Tcti.Mssim.{
  Mssim, Response, timeout_block, tcti_mssim_magic, tcti_mssim_context_cast, tcti_mssim_down_cast,
  send_sim_session_end,
}
use tpm2_tss_verified.Tcti.Mssim.Handlers.{
  receive_size, receive_body, tcti_mssim_receive, tcti_mssim_finalize,
}
use tpm2_tss_verified.Tcti.Mssim.Platform.{opened, by_state}
use tpm2_tss_verified.Tcti.Mssim.Receive.{tcti_mssim_receive-Delivered}

module _ (k : Kernel) where
  open k use {State}

  -- Finalizing closes the sockets and does nothing else: the message that ends the session with the
  -- simulator is not sent on either of them, and the state of the machine is left as it is.
  pub tcti_mssim_finalize-socket_close :
      (m : Mssim) (s : State)
      → m.common.magic ≡ tcti_mssim_magic
      → tcti_mssim_finalize k (some m) s
        ≡ some (
          some (record m {
            platform_sock = (socket_close k m.platform_sock s).1;
            tpm_sock = (socket_close k m.tpm_sock (socket_close k m.platform_sock s).2).1;
          }),
          (socket_close k m.tpm_sock (socket_close k m.platform_sock s).2).2,
        )
  unfolding tcti_mssim_finalize tcti_mssim_context_cast send_sim_session_end base_marshal too_small
      write to_memory
  tcti_mssim_finalize-socket_close m s magic = rw (magic)

  -- Bytes that do not fit into what is left of the buffer.
  read_loop_overruns :
      (fd fuel total size : ℕ) (buffer : Bytes) (s : State) (bytes : Bytes) (t : State)
      → Delivered k fd size s bytes t
      → total ≤ length buffer
      → length buffer < total + length bytes
      → read_loop k fd fuel total size buffer s ≡ none
  unfolding read_loop write
  read_loop_overruns fd zero total size buffer s bytes t d room h = refl
  read_loop_overruns fd (suc fuel) total size buffer s _ t (ended eq) room h = absurd (omega arith)
  read_loop_overruns fd (suc fuel) total size buffer s _ t (failed eq) room h = absurd (omega arith)
  read_loop_overruns fd (suc fuel) total size buffer s bytes t (retried {s' = s'} eq d) room h =
      rw (first_of eq, second_of eq, read_loop)
        (read_loop_overruns fd fuel total size buffer s' bytes t d room h)
  read_loop_overruns fd (suc fuel) total size buffer s _ t (filled {b = b} {chunk = chunk} eq e)
        room h =
      rw (
        first_of eq,
        second_of eq,
        read_loop,
        lt→leb (total + length (b ∷ chunk)) (length buffer) (omega arith),
      )
  read_loop_overruns fd (suc fuel) total size buffer s _ t
        (more {s' = s'} {b = b} {chunk = chunk} {bytes = bytes} eq less d) room h =
      elim (le_or_lt (total + length (b ∷ chunk)) (length buffer)) [
        | inr over ↦ rw (
          first_of eq,
          second_of eq,
          read_loop,
          lt→leb (total + length (b ∷ chunk)) (length buffer) over,
        )
        | inl fits ↦
            rw
              (
                first_of eq,
                second_of eq,
                read_loop,
                le→leb (total + length (b ∷ chunk)) (length buffer) fits,
                ne→== (size - length (b ∷ chunk)) 0 (λ e. omega arith),
              )
              (read_loop_overruns fd fuel (total + length (b ∷ chunk)) (size - length (b ∷ chunk))
                (splice total (b ∷ chunk) buffer) s' bytes t d
                (omega (arith, length-splice total (b ∷ chunk) buffer))
                (omega
                  (arith, length-splice total (b ∷ chunk) buffer, length-append (b ∷ chunk) bytes)))
      ]

  read_all_overruns :
      (fd size : ℕ) (buffer : Bytes) (s : State) (bytes : Bytes) (t : State)
      → Delivered k fd size s bytes t
      → length buffer < length bytes
      → read_all k (some fd) (some buffer) size s ≡ none
  unfolding read_all
  read_all_overruns fd size buffer s bytes t d h = rw (
      read_loop_overruns fd (calls k fd size s) 0 size buffer s bytes t d (omega arith)
        (omega arith))

  -- A buffer that is too short for what arrives.
  abbrev Overruns : Bytes → ℕ → State → ℕ → Bytes → State → Mssim → Type 0
  Overruns buffer asked s fd bytes s' m =
      m.common.state ≡ tcti_state_receive
      → m.tpm_sock ≡ some fd
      → m.common.header.size ≢ 0
      → Delivered k fd m.common.header.size s bytes s'
      → length buffer < length bytes
      → tcti_mssim_receive k (some m) (some asked) (some buffer) timeout_block s ≡ none

  receive-Overruns :
      (buffer : Bytes) (asked : ℕ) (s : State) (fd : ℕ) (bytes : Bytes) (s' : State) (m : Mssim)
      (state : TctiState)
      → Overruns buffer asked s fd bytes s' (opened m state)
  unfolding tcti_mssim_receive tcti_mssim_context_cast tcti_mssim_down_cast
      tcti_common_receive_checks receive_size receive_body socket_recv_buf
  receive-Overruns buffer asked s fd bytes s' m tcti_state_final st sock some_size d short = cc
  receive-Overruns buffer asked s fd bytes s' m tcti_state_transmit st sock some_size d short = cc
  receive-Overruns buffer asked s fd bytes s' m tcti_state_receive st sock some_size d short = rw (
    ne→== m.common.header.size 0 some_size,
    le→ltb m.common.header.size m.common.header.size (omega arith),
    sock,
    read_all_overruns fd m.common.header.size buffer s bytes s' d short,
  )

module _ (k : Kernel) (law : IsKernel k) where
  open k use {State}

  -- In the state RECEIVE, with the size of the response known: when the bytes that the kernel delivers,
  -- in however many calls of read(2), are more than the caller's buffer holds, a blocking `receive`
  -- writes past the end of the buffer, whatever size of it the caller passed. The same call returns
  -- when the buffer is longer by the size of the response.
  pub tcti_mssim_receive_overruns :
      (m : Mssim) (buffer : Bytes) (asked : ℕ) (s : State) (fd : ℕ) (bytes : Bytes) (s' : State)
      → m.common.magic ≡ tcti_mssim_magic
      → m.common.state ≡ tcti_state_receive
      → m.tpm_sock ≡ some fd
      → m.common.header.size ≢ 0
      → Delivered k fd m.common.header.size s bytes s'
      → length buffer < length bytes
      → (tcti_mssim_receive k (some m) (some asked) (some buffer) timeout_block s ≡ none)
        × (r : Response State) × (tcti_mssim_receive k
              (some m)
              (some asked)
              (some (buffer ++ replicate m.common.header.size 0))
              timeout_block
              s
            ≡ some r)
  tcti_mssim_receive_overruns m buffer asked s fd bytes s' magic st sock some_size d short =
      let long = buffer ++ replicate m.common.header.size 0 in
      let room : m.common.header.size ≤ length long = omega (
        arith,
        length-append buffer (replicate m.common.header.size 0),
        length-replicate {A = ℕ} m.common.header.size 0,
      ) in
      let (_, _, _, _, _, _, _, _, eq) =
        tcti_mssim_receive-Delivered k law m long asked s magic st some_size room in
      (
        by_state (Overruns k buffer asked s fd bytes s')
            (receive-Overruns k buffer asked s fd bytes s') m magic st sock some_size d short,
        _,
        eq,
      )
