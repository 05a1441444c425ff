-- ===== src/Tcti/Mssim/Receive.antt =====
-- tcti_mssim_receive: first the size of a response is asked for, then the response.
use tpm2_tss_verified.Common.{
  ℕ, ◌≤◌, ◌≡◌, ◌≢◌, refl, ◌⊎◌, inl, inr, none, some, [], length, replicate, arith, le→ltb, ◌==◌,
  ne→==, Bool, Bool-cases, false, if◌then◌else◌,
}
use tpm2_tss_verified.Rc.{rc_success, tcti_io_error}
use tpm2_tss_verified.Memory.{Bytes, splice, slice, length-splice, splice_nil}
use tpm2_tss_verified.Endian.{be_to_host, of_memory, w4}
use tpm2_tss_verified.Io.System.{Kernel, IsKernel}
use tpm2_tss_verified.Io.{Socket, int_lt, read_all, socket_recv_buf}
use tpm2_tss_verified.Io.Complete.{Delivered, read_all-Delivered, int_lt_complete}
use tpm2_tss_verified.Tcti.{
  TctiState, tcti_state_final, tcti_state_transmit, tcti_state_receive, tcti_common_receive_checks,
}
use tpm2_tss_verified.Tcti.Mssim.{
  Mssim, timeout_block, tcti_mssim_magic, tcti_mssim_context_cast, tcti_mssim_down_cast,
  ms_sim_cancel_off,
}
use tpm2_tss_verified.Tcti.Mssim.Platform.{
  four_ge, opened, by_state, IsOutcome, base_unmarshal_start, tcti_platform_command-returns,
}
use tpm2_tss_verified.Tcti.Mssim.Handlers.{
  with_size, released, end_cancel, receive_size, receive_body, tcti_mssim_receive,
}

-- What was delivered on a socket, which may not be open.
pub data DeliveredOn (k : Kernel) (size : ℕ) (s : k.State) : Socket → Bytes → k.State → Type 0 where
  unopened : DeliveredOn k size s none [] s
  on_open :
      {fd : ℕ} {bytes : Bytes} {s' : k.State}
      → Delivered k fd size s bytes s'
      → DeliveredOn k size s (some fd) bytes s'

-- Success, with all of the bytes that were asked for, or a failure.
abbrev pub IsWhole : ℕ → ℕ → ℕ → Type 0
IsWhole rc got size = ((rc ≡ rc_success) × (got ≡ size)) ⊎ (rc ≡ tcti_io_error)

whole : {rc got size : ℕ} → IsOutcome rc → got ≡ size → IsWhole rc got size
whole (inl ok) e = inl (ok, e)
whole (inr bad) e = inr bad

-- The size that four bytes announce.
abbrev pub announced : Bytes → ℕ
announced bytes = be_to_host w4 (of_memory (slice 0 4 (splice 0 bytes (replicate 4 0))))

splice_room : (bytes : Bytes) → 4 ≤ length (splice 0 bytes (replicate 4 0))
splice_room bytes = omega (arith, length-splice 0 bytes (replicate 4 0))

module _ (k : Kernel) (law : IsKernel k) where
  open k use {State}

  recv-DeliveredOn :
      (sock : Socket) (buffer : Bytes) (size : ℕ) (s : State)
      → size ≤ length buffer
      → (bytes : Bytes) × (s' : State) × DeliveredOn k size s sock bytes s'
        × (length bytes ≤ size)
        × (socket_recv_buf k sock (some buffer) size s
            ≡ some (some (splice 0 bytes buffer), length bytes, s'))
  unfolding socket_recv_buf
  recv-DeliveredOn none buffer size s room =
      ([], s, unopened, omega arith, unfold read_all in rw splice_nil)
  recv-DeliveredOn (some fd) buffer size s room =
      let (bytes, s', d, bound, out) = read_all-Delivered k law fd buffer size s room in
      (bytes, s', on_open d, bound, out)

  end_cancel-returns :
      (m : Mssim) (s : State)
      → m.common.magic ≡ tcti_mssim_magic
      → (rc : ℕ) × (s' : State) × IsOutcome rc × (end_cancel k m s ≡ some (rc, s'))
  unfolding end_cancel
  end_cancel-returns m s magic = elim (Bool-cases m.cancel) [
    | inr off ↦ (rc_success, s, inl refl, rw off)
    | inl on ↦
        let (rc, s', o, eq) = tcti_platform_command-returns k law m ms_sim_cancel_off s magic in
        (rc, s', o, rw (eq, on))
  ]

  receive_body-returns :
      (m : Mssim) (buffer : Bytes) (s : State)
      → m.common.magic ≡ tcti_mssim_magic
      → m.common.header.size ≤ length buffer
      → (rc : ℕ) × (bytes : Bytes) × (cancel : Bool) × (s1 s' : State) × DeliveredOn k
          m.common.header.size s m.tpm_sock bytes s1
        × (length bytes ≤ m.common.header.size)
        × IsWhole rc (length bytes) m.common.header.size
        × (receive_body k m buffer s
            ≡ some (record {
              rc = rc;
              ctx = some (released (record m { cancel = cancel }));
              response_size = some m.common.header.size;
              response_buffer = some (splice 0 bytes buffer);
              after = s';
            }))
  unfolding receive_body
  receive_body-returns m buffer s magic room =
      let n = m.common.header.size in
      let (bytes, s1, d, bound, out) = recv-DeliveredOn m.tpm_sock buffer n s room in
      elim (Bool-cases (int_lt (length bytes) n)) [
        | inl less ↦ (tcti_io_error, bytes, m.cancel, s1, s1, d, bound, inr refl, rw (out, less))
        | inr all ↦
            let (tail, s2, _, _, out2) =
              recv-DeliveredOn m.tpm_sock (replicate 4 0) 4 s1 (omega arith) in
            elim (Bool-cases (length tail == 4)) [
              | inr short ↦ (
                tcti_io_error,
                bytes,
                m.cancel,
                s1,
                s2,
                d,
                bound,
                inr refl,
                rw (out, all, out2, short),
              )
              | inl four ↦
                  let (rc, s3, o, eq) = end_cancel-returns m s2 magic in
                  (
                    rc,
                    bytes,
                    false,
                    s1,
                    s3,
                    d,
                    bound,
                    whole o (int_lt_complete (length bytes) n bound all),
                    rw (out, all, out2, four, eq),
                  )
            ]
      ]

  -- What the second call does to a context.
  abbrev Fetches : Bytes → ℕ → State → Mssim → Type 0
  Fetches buffer asked s m =
      m.common.state ≡ tcti_state_receive
      → m.common.header.size ≢ 0
      → m.common.header.size ≤ length buffer
      → (rc : ℕ) × (bytes : Bytes) × (cancel : Bool) × (s1 s' : State) × DeliveredOn k
          m.common.header.size s m.tpm_sock bytes s1
        × (length bytes ≤ m.common.header.size)
        × IsWhole rc (length bytes) m.common.header.size
        × (tcti_mssim_receive k (some m) (some asked) (some buffer) timeout_block s
            ≡ some (record {
              rc = rc;
              ctx = some (released (record m { cancel = cancel }));
              response_size = some m.common.header.size;
              response_buffer = some (splice 0 bytes buffer);
              after = s';
            }))

  receive-Fetches :
      (buffer : Bytes) (asked : ℕ) (s : State) (m : Mssim) (state : TctiState)
      → Fetches buffer asked s (opened m state)
  unfolding tcti_mssim_receive tcti_mssim_context_cast tcti_mssim_down_cast
      tcti_common_receive_checks receive_size
  receive-Fetches buffer asked s m tcti_state_final st some_size room = cc
  receive-Fetches buffer asked s m tcti_state_transmit st some_size room = cc
  receive-Fetches buffer asked s m tcti_state_receive st some_size room =
      let (rc, bytes, c, s1, s', d, bound, o, eq) =
        receive_body-returns (opened m tcti_state_receive) buffer s refl room in
      (
        rc,
        bytes,
        c,
        s1,
        s',
        d,
        bound,
        o,
        rw
            (
              ne→== m.common.header.size 0 some_size,
              le→ltb m.common.header.size m.common.header.size (omega arith),
            )
            eq,
      )

  -- In the state RECEIVE, with the size of the response known and a buffer that has room for it, a
  -- blocking call returns. The buffer has what the kernel delivered at its start and is otherwise as
  -- it was, a success means that this is the whole response, and success or not the machine is back
  -- in TRANSMIT with no size known.
  pub tcti_mssim_receive-Delivered :
      (m : Mssim) (buffer : Bytes) (asked : ℕ) (s : State)
      → m.common.magic ≡ tcti_mssim_magic
      → m.common.state ≡ tcti_state_receive
      → m.common.header.size ≢ 0
      → m.common.header.size ≤ length buffer
      → (rc : ℕ) × (bytes : Bytes) × (cancel : Bool) × (s1 s' : State) × DeliveredOn k
          m.common.header.size s m.tpm_sock bytes s1
        × (length bytes ≤ m.common.header.size)
        × IsWhole rc (length bytes) m.common.header.size
        × (tcti_mssim_receive k (some m) (some asked) (some buffer) timeout_block s
            ≡ some (record {
              rc = rc;
              ctx = some (released (record m { cancel = cancel }));
              response_size = some m.common.header.size;
              response_buffer = some (splice 0 bytes buffer);
              after = s';
            }))
  tcti_mssim_receive-Delivered m buffer asked s magic =
      by_state (Fetches buffer asked s) (receive-Fetches buffer asked s) m magic

  -- What the first call, with no buffer, does to a context.
  abbrev Queries : ℕ → State → Mssim → Type 0
  Queries asked s m =
      m.common.state ≡ tcti_state_receive
      → m.common.header.size ≡ 0
      → (bytes : Bytes) × (s' : State) × DeliveredOn k 4 s m.tpm_sock bytes s'
        × (tcti_mssim_receive k (some m) (some asked) none timeout_block s
            ≡ some (
                if length bytes == 4
                then record {
                  rc = rc_success;
                  ctx = some (with_size (announced bytes) m);
                  response_size = some (announced bytes);
                  response_buffer = none;
                  after = s';
                }
                else record {
                  rc = tcti_io_error;
                  ctx = some (released m);
                  response_size = some asked;
                  response_buffer = none;
                  after = s';
                }))

  receive-Queries :
      (asked : ℕ) (s : State) (m : Mssim) (state : TctiState) → Queries asked s (opened m state)
  unfolding tcti_mssim_receive tcti_mssim_context_cast tcti_mssim_down_cast
      tcti_common_receive_checks receive_size
  receive-Queries asked s m tcti_state_final st z = cc
  receive-Queries asked s m tcti_state_transmit st z = cc
  receive-Queries asked s m tcti_state_receive st z =
      let (bytes, s', d, bound, out) = recv-DeliveredOn m.tpm_sock (replicate 4 0) 4 s four_ge in
      let start =
        base_unmarshal_start (splice 0 bytes (replicate 4 0)) m.common.header.size
          (splice_room bytes) in
      elim (Bool-cases (length bytes == 4)) [
        | inl four ↦ (bytes, s', d, rw (out, four, start, z))
        | inr short ↦ (bytes, s', d, rw (out, short, z))
      ]

  -- In the state RECEIVE, with no size known, a blocking call without a buffer returns. With the four
  -- bytes of the size it succeeds, hands the size out, keeps it and stays in RECEIVE. Without them it
  -- fails with IO_ERROR and the machine is back in TRANSMIT.
  pub tcti_mssim_receive_query :
      (m : Mssim) (asked : ℕ) (s : State)
      → m.common.magic ≡ tcti_mssim_magic
      → m.common.state ≡ tcti_state_receive
      → m.common.header.size ≡ 0
      → (bytes : Bytes) × (s' : State) × DeliveredOn k 4 s m.tpm_sock bytes s'
        × (tcti_mssim_receive k (some m) (some asked) none timeout_block s
            ≡ some (
                if length bytes == 4
                then record {
                  rc = rc_success;
                  ctx = some (with_size (announced bytes) m);
                  response_size = some (announced bytes);
                  response_buffer = none;
                  after = s';
                }
                else record {
                  rc = tcti_io_error;
                  ctx = some (released m);
                  response_size = some asked;
                  response_buffer = none;
                  after = s';
                }))
  tcti_mssim_receive_query m asked s magic =
      by_state (Queries asked s) (receive-Queries asked s) m magic
