-- ===== src/Tcti/Mssim/Handlers.antt =====
-- The functions of tcti-mssim.c that the context's table of functions points at.
use tpm2_tss_verified.Common.{
  ℕ, true, false, not, Option, none, some, replicate, ltb, ◌==◌, if◌then◌else◌, ◌>>=◌,
}
use tpm2_tss_verified.Rc.{
  rc_success, tcti_bad_context, tcti_bad_value, tcti_io_error, tcti_insufficient_buffer,
}
use tpm2_tss_verified.Memory.{Bytes}
use tpm2_tss_verified.Endian.{w4}
use tpm2_tss_verified.Mu.Base.{base_unmarshal}
use tpm2_tss_verified.Io.System.{Kernel}
use tpm2_tss_verified.Io.{int_lt, socket_recv_buf, socket_xmit_buf, socket_close}
use tpm2_tss_verified.Tcti.{
  tcti_state_transmit, tcti_state_receive, Header, tcti_common_cancel_checks,
  tcti_common_transmit_checks, tcti_common_receive_checks, tcti_common_set_locality_checks,
  header_unmarshal,
}
use tpm2_tss_verified.Tcti.Mssim.{
  tcti_mssim_magic, Mssim, Reply, Response, Timeout, timeout_block, timeout_other, with_state,
  tcti_mssim_context_cast, tcti_mssim_down_cast, tcti_platform_command, send_sim_session_end,
  send_sim_cmd_setup, ms_sim_cancel_on, ms_sim_cancel_off, ms_sim_power_on, ms_sim_nv_on,
}

-- header.size = n;
abbrev pub with_size : ℕ → Mssim → Mssim
with_size n m = record m {
  common = record m.common { header = record m.common.header { size = n } };
}

-- The label `out` of `tcti_mssim_receive`.
abbrev pub released : Mssim → Mssim
released m = with_state tcti_state_transmit (with_size 0 m)

-- What a local variable of type tpm_header_t holds before it is read into.
abbrev pub no_header : Header
no_header = record { tag = 0; size = 0; code = 0 }

module _ (k : Kernel) where
  open k use {State}

  unfoldable pub tcti_mssim_transmit :
      Option Mssim → ℕ → Option Bytes → State → Option (Reply State)
  unfolding tcti_mssim_context_cast tcti_mssim_down_cast tcti_common_transmit_checks
      header_unmarshal send_sim_cmd_setup socket_xmit_buf
  tcti_mssim_transmit ctx size cmd_buf s = elim (tcti_mssim_context_cast ctx) [
    | none ↦ some (record { rc = tcti_bad_context; ctx = ctx; after = s })
    | some mssim ↦
        (let checked = tcti_common_transmit_checks (tcti_mssim_down_cast (some mssim)) cmd_buf in
          if not (checked == rc_success)
          then some (record { rc = checked; ctx = ctx; after = s })
          else do
            (parsed, read) ← header_unmarshal cmd_buf (some no_header)
            header ← read
            if not (parsed == rc_success)
                then some (record { rc = parsed; ctx = ctx; after = s })
                else if not (header.size == size)
                then some (record { rc = tcti_bad_value; ctx = ctx; after = s })
                else do
                  (setup, s') ← send_sim_cmd_setup k (some mssim) header.size s
                  if not (setup == rc_success)
                      then some (record { rc = setup; ctx = ctx; after = s' })
                      else do
                        (xmit, s'') ← socket_xmit_buf k mssim.tpm_sock cmd_buf size s'
                        if not (xmit == rc_success)
                            then some (record { rc = xmit; ctx = ctx; after = s'' })
                            else some (record {
                              rc = xmit;
                              ctx = some (with_state tcti_state_receive mssim);
                              after = s'';
                            }))
  ]

  unfoldable pub tcti_mssim_cancel : Option Mssim → State → Option (Reply State)
  unfolding tcti_mssim_context_cast tcti_mssim_down_cast tcti_common_cancel_checks
      tcti_platform_command
  tcti_mssim_cancel ctx s = elim (tcti_mssim_context_cast ctx) [
    | none ↦ some (record { rc = tcti_bad_context; ctx = ctx; after = s })
    | some mssim ↦
        (let checked = tcti_common_cancel_checks (tcti_mssim_down_cast (some mssim)) in
          if not (checked == rc_success)
          then some (record { rc = checked; ctx = ctx; after = s })
          else do
            (rc, s') ← tcti_platform_command k ctx ms_sim_cancel_on s
            if not (rc == rc_success)
                then some (record { rc = rc; ctx = ctx; after = s' })
                else some (record {
                  rc = rc;
                  ctx = some (record (with_state tcti_state_transmit mssim) { cancel = true });
                  after = s';
                }))
  ]

  unfoldable pub tcti_mssim_set_locality : Option Mssim → ℕ → State → Option (Reply State)
  unfolding tcti_mssim_context_cast tcti_mssim_down_cast tcti_common_set_locality_checks
  tcti_mssim_set_locality ctx locality s = elim (tcti_mssim_context_cast ctx) [
    | none ↦ some (record { rc = tcti_bad_context; ctx = ctx; after = s })
    | some mssim ↦
        (let checked = tcti_common_set_locality_checks (tcti_mssim_down_cast (some mssim)) in
          if not (checked == rc_success)
          then some (record { rc = checked; ctx = ctx; after = s })
          else some (record {
            rc = rc_success;
            ctx = some (record mssim { common = record mssim.common { locality = locality } });
            after = s;
          }))
  ]

  -- The context and the kernel.
  unfoldable pub tcti_mssim_finalize : Option Mssim → State → Option (Option Mssim × State)
  unfolding tcti_mssim_context_cast send_sim_session_end socket_close
  tcti_mssim_finalize ctx s = elim (tcti_mssim_context_cast ctx) [
    | none ↦ some (ctx, s)
    | some mssim ↦ (do
      (_, s1) ← send_sim_session_end k mssim.platform_sock s
      (_, s2) ← send_sim_session_end k mssim.tpm_sock s1
      let (_, platform, s3) = socket_close k mssim.platform_sock s2
      let (_, tpm, s4) = socket_close k mssim.tpm_sock s3
      some (some (record mssim { platform_sock = platform; tpm_sock = tpm }), s4))
  ]

  -- The first part of `receive`: the size of the response is read, unless it is known. The code, the
  -- context and the kernel.
  unfoldable pub receive_size : Mssim → State → Option (ℕ × Mssim × State)
  unfolding socket_recv_buf base_unmarshal
  receive_size mssim s =
      if not (mssim.common.header.size == 0) then some (rc_success, mssim, s) else do
        (size_buf, ret, s') ← socket_recv_buf k mssim.tpm_sock (some (replicate 4 0)) 4 s
        if not (ret == 4) then some (tcti_io_error, mssim, s') else do
          u ← base_unmarshal w4 size_buf 4 none (some mssim.common.header.size)
          size ← u.dest
          some (u.rc, with_size size mssim, s')

  -- if (tcti_mssim->cancel) rc = tcti_platform_command (tctiContext, MS_SIM_CANCEL_OFF);
  unfoldable pub end_cancel : Mssim → State → Option (ℕ × State)
  unfolding tcti_platform_command
  end_cancel mssim s =
      if mssim.cancel
      then tcti_platform_command k (some mssim) ms_sim_cancel_off s
      else some (rc_success, s)

  -- The last part: the response, the four bytes behind it, and the end of a cancelled command. The
  -- count of the response is assigned to an int; that of four bytes is one.
  unfoldable pub receive_body : Mssim → Bytes → State → Option (Response State)
  unfolding socket_recv_buf int_lt end_cancel
  receive_body mssim buffer s = do
    let size = mssim.common.header.size
    (body, got, s1) ← socket_recv_buf k mssim.tpm_sock (some buffer) size s
    if int_lt got size
        then some (record {
          rc = tcti_io_error;
          ctx = some (released mssim);
          response_size = some size;
          response_buffer = body;
          after = s1;
        })
        else do
          (_, ret, s2) ← socket_recv_buf k mssim.tpm_sock (some (replicate 4 0)) 4 s1
          if not (ret == 4)
              then some (record {
                rc = tcti_io_error;
                ctx = some (released mssim);
                response_size = some size;
                response_buffer = body;
                after = s2;
              })
              else do
                (rc, s3) ← end_cancel mssim s2
                some (record {
                  rc = rc;
                  ctx = some (released (record mssim { cancel = false }));
                  response_size = some size;
                  response_buffer = body;
                  after = s3;
                })

  -- The comparison of `*response_size` follows the assignment to it.
  unfoldable pub tcti_mssim_receive :
      Option Mssim → Option ℕ → Option Bytes → Timeout → State → Option (Response State)
  unfolding tcti_mssim_context_cast tcti_mssim_down_cast tcti_common_receive_checks receive_size
      receive_body
  tcti_mssim_receive ctx response_size response_buffer timeout s =
      let failed : ℕ → Option (Response State) = λ rc. some (record {
        rc = rc;
        ctx = ctx;
        response_size = response_size;
        response_buffer = response_buffer;
        after = s;
      }) in
      elim (tcti_mssim_context_cast ctx) [
        | none ↦ failed tcti_bad_context
        | some mssim ↦
            (let checked =
                tcti_common_receive_checks (tcti_mssim_down_cast (some mssim)) response_size in
              if not (checked == rc_success) then failed checked else elim timeout [
                | timeout_other ↦ failed tcti_bad_value
                | timeout_block ↦ (do
                  (rc, known, s') ← receive_size mssim s
                  if not (rc == rc_success)
                      then some (record {
                        rc = rc;
                        ctx = some (released known);
                        response_size = response_size;
                        response_buffer = response_buffer;
                        after = s';
                      })
                      else elim response_buffer [
                        | none ↦ some (record {
                          rc = rc_success;
                          ctx = some known;
                          response_size = some known.common.header.size;
                          response_buffer = none;
                          after = s';
                        })
                        | some buffer ↦
                            (let size = known.common.header.size in
                              if ltb size known.common.header.size
                              then some (record {
                                rc = tcti_insufficient_buffer;
                                ctx = some known;
                                response_size = some size;
                                response_buffer = some buffer;
                                after = s';
                              })
                              else receive_body known buffer s')
                      ])
              ])
      ]

  -- simulator_setup(tctiContext)
  unfoldable pub simulator_setup : Option Mssim → State → Option (ℕ × State)
  unfolding tcti_platform_command
  simulator_setup ctx s = do
    (rc, s') ← tcti_platform_command k ctx ms_sim_power_on s
    if not (rc == rc_success) then some (rc, s') else tcti_platform_command k ctx ms_sim_nv_on s'

-- tcti_mssim_init_context_data(tcti_common), less the table of functions and the version.
unfoldable pub tcti_mssim_init_context_data : Mssim → Mssim
tcti_mssim_init_context_data m = record m {
  common = record {
    magic = tcti_mssim_magic;
    state = tcti_state_transmit;
    header = record { tag = 0; size = 0; code = 0 };
    locality = 3;
  };
}
