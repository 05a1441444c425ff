-- ===== src/Tcti/Examples.antt =====
-- The simulator's transport over a concrete kernel, and the theorems at concrete inputs.
use tpm2_tss_verified.Common.{
  ℕ, ◌≤◌, ◌≡◌, leb, ◌||◌, ◌^◌, refl, Bool, true, false, none, some, [], ◌∷◌, ◌++◌, length,
  replicate, All, arith, ltb, ◌==◌, if◌then◌else◌,
}
use tpm2_tss_verified.Rc.{rc_success, tcti_io_error}
use tpm2_tss_verified.Memory.{Bytes, splice}
use tpm2_tss_verified.Endian.{IsByte, of_be, of_memory}
use tpm2_tss_verified.Io.Pipe.{pipe, pipe-IsKernel}
use tpm2_tss_verified.Io.{read_all, socket_xmit_buf, socket_close}
use tpm2_tss_verified.Io.Complete.{
  Delivered, filled, Accepted, read_all-Delivered, socket_xmit_buf-Accepted,
}
use tpm2_tss_verified.Tcti.{
  TctiState, tcti_state_transmit, tcti_state_receive, Header, header_marshal, header_unmarshal,
}
use tpm2_tss_verified.Tcti.Wire.{parsed, header_unmarshal-header_marshal}
use tpm2_tss_verified.Tcti.Machine.{IsStep, transmit_call, cancel_call, set_locality_call}
use tpm2_tss_verified.Tcti.Mssim.{Mssim, Response, with_state, timeout_block, tcti_mssim_magic}
use tpm2_tss_verified.Tcti.Mssim.Handlers.{
  tcti_mssim_finalize, with_size, released, tcti_mssim_transmit, tcti_mssim_cancel,
  tcti_mssim_set_locality, tcti_mssim_receive,
}
use tpm2_tss_verified.Tcti.Mssim.Transmit.{
  Transmission, tcti_mssim_transmit-Transmission, tcti_mssim_transmit-IsStep,
}
use tpm2_tss_verified.Tcti.Mssim.Platform.{tcti_mssim_cancel-IsStep, tcti_mssim_set_locality-IsStep}
use tpm2_tss_verified.Tcti.Mssim.Faults.{
  tcti_mssim_finalize-socket_close, tcti_mssim_receive_overruns,
}
use tpm2_tss_verified.Tcti.Mssim.Receive.{
  DeliveredOn, IsWhole, announced, tcti_mssim_receive-Delivered, tcti_mssim_receive_query,
}

abbrev ready : Mssim
ready = record {
  common = record {
    magic = tcti_mssim_magic;
    state = tcti_state_transmit;
    header = record { tag = 0; size = 0; code = 0 };
    locality = 3;
  };
  platform_sock = some 4;
  tpm_sock = some 3;
  cancel = false;
}

abbrev waiting : Mssim
waiting = with_state tcti_state_receive ready

-- TPM2_Startup(TPM2_SU_CLEAR): twelve bytes.
abbrev startup : Bytes
startup = 0x80 ∷ 0x01 ∷ 0 ∷ 0 ∷ 0 ∷ 12 ∷ 0 ∷ 0 ∷ 1 ∷ 0x44 ∷ 0 ∷ 0 ∷ []

abbrev startup_header : Header
startup_header = record { tag = 0x8001; size = 12; code = 0x144 }

startup-IsByte : All IsByte startup
startup-IsByte = ground arith

startup_size : (parsed startup).size ≡ 12
unfolding of_be of_memory
startup_size = refl

header_unmarshal-header_marshal_example :
    (out : Bytes) × (header_marshal (some startup_header) (some (replicate 10 0))
      ≡ some (rc_success, some out))
    × (header_unmarshal (some out) (some startup_header) ≡ some (rc_success, some startup_header))
    × (length out ≡ 10)
header_unmarshal-header_marshal_example =
    header_unmarshal-header_marshal startup_header startup_header (replicate 10 0)
      (omega arith, omega arith, omega arith) (ground arith) (omega arith)

read_all-Delivered_example :
    (bytes : Bytes) × (s' : Bytes) × Delivered pipe 3 2 startup bytes s'
    × (length bytes ≤ 2)
    × (read_all pipe (some 3) (some (replicate 4 0)) 2 startup
        ≡ some (some (splice 0 bytes (replicate 4 0)), length bytes, s'))
read_all-Delivered_example =
    read_all-Delivered pipe pipe-IsKernel 3 (replicate 4 0) 2 startup (omega arith)

socket_xmit_buf-Accepted_example :
    (end : ℕ) × (s' : Bytes) × Accepted pipe 3 startup 12 0 [] end s'
    × (end ≤ 12)
    × (socket_xmit_buf pipe (some 3) (some startup) 12 []
        ≡ some (if ltb end 12 || leb (2 ^ 31) 12 then tcti_io_error else rc_success, s'))
socket_xmit_buf-Accepted_example =
    socket_xmit_buf-Accepted pipe pipe-IsKernel 3 startup 12 [] (omega arith)

tcti_mssim_transmit-Transmission_example :
    (rc : ℕ) × (state : TctiState) × (s' : Bytes) × Transmission pipe ready startup 12 [] rc state
      s'
    × (tcti_mssim_transmit pipe (some ready) 12 (some startup) []
        ≡ some (record { rc = rc; ctx = some (with_state state ready); after = s' }))
tcti_mssim_transmit-Transmission_example =
    tcti_mssim_transmit-Transmission pipe pipe-IsKernel ready refl startup (omega arith)
      startup-IsByte 12 [] refl startup_size (omega arith)

tcti_mssim_transmit-IsStep_example :
    (rc : ℕ) × (state : TctiState) × (s' : Bytes) × (tcti_mssim_transmit pipe
        (some waiting)
        12
        (some startup)
        []
      ≡ some (record { rc = rc; ctx = some (with_state state waiting); after = s' }))
    × IsStep tcti_state_receive transmit_call rc state
tcti_mssim_transmit-IsStep_example =
    tcti_mssim_transmit-IsStep pipe pipe-IsKernel waiting refl startup (omega arith) startup-IsByte
      12 [] (omega arith)

tcti_mssim_cancel-IsStep_example :
    (rc : ℕ) × (m' : Mssim) × (s' : Bytes) × (tcti_mssim_cancel pipe (some waiting) (replicate 4 0)
      ≡ some (record { rc = rc; ctx = some m'; after = s' }))
    × IsStep tcti_state_receive cancel_call rc m'.common.state
    × (m' ≡ (
        if rc == rc_success
        then record (with_state tcti_state_transmit waiting) { cancel = true }
        else waiting))
tcti_mssim_cancel-IsStep_example =
    tcti_mssim_cancel-IsStep pipe pipe-IsKernel waiting (replicate 4 0) refl

tcti_mssim_set_locality-IsStep_example :
    (rc : ℕ) × (m' : Mssim) × (tcti_mssim_set_locality pipe (some ready) 1 []
      ≡ some (record { rc = rc; ctx = some m'; after = [] }))
    × IsStep tcti_state_transmit set_locality_call rc m'.common.state
    × (m' ≡ (
        if rc == rc_success
        then record ready { common = record ready.common { locality = 1 } }
        else ready))
tcti_mssim_set_locality-IsStep_example =
    tcti_mssim_set_locality-IsStep pipe pipe-IsKernel ready 1 [] refl

-- A response of ten bytes, and the four zeros behind it.
abbrev response : Bytes
response = 0x80 ∷ 0x01 ∷ 0 ∷ 0 ∷ 0 ∷ 10 ∷ 0 ∷ 0 ∷ 0 ∷ 0 ∷ 0 ∷ 0 ∷ 0 ∷ 0 ∷ []

abbrev sized : Mssim
sized = with_size 10 waiting

tcti_mssim_receive-Delivered_example :
    (rc : ℕ) × (bytes : Bytes) × (cancel : Bool) × (s1 s' : Bytes) × DeliveredOn pipe 10 response
      (some 3)
      bytes
      s1
    × (length bytes ≤ 10)
    × IsWhole rc (length bytes) 10
    × (tcti_mssim_receive pipe (some sized) (some 0) (some (replicate 16 0)) timeout_block response
        ≡ some (record {
          rc = rc;
          ctx = some (released (record sized { cancel = cancel }));
          response_size = some 10;
          response_buffer = some (splice 0 bytes (replicate 16 0));
          after = s';
        }))
tcti_mssim_receive-Delivered_example =
    tcti_mssim_receive-Delivered pipe pipe-IsKernel sized (replicate 16 0) 0 response refl refl
      (omega arith) (omega arith)

tcti_mssim_receive_query_example :
    (bytes : Bytes) × (s' : Bytes) × DeliveredOn pipe 4
      (0 ∷ 0 ∷ 0 ∷ 10 ∷ response)
      (some 3)
      bytes
      s'
    × (tcti_mssim_receive pipe
          (some waiting)
          (some 0)
          none
          timeout_block
          (0 ∷ 0 ∷ 0 ∷ 10 ∷ response)
        ≡ some (
            if length bytes == 4
            then record {
              rc = rc_success;
              ctx = some (with_size (announced bytes) waiting);
              response_size = some (announced bytes);
              response_buffer = none;
              after = s';
            }
            else record {
              rc = tcti_io_error;
              ctx = some (released waiting);
              response_size = some 0;
              response_buffer = none;
              after = s';
            }))
tcti_mssim_receive_query_example =
    tcti_mssim_receive_query pipe pipe-IsKernel waiting 0 (0 ∷ 0 ∷ 0 ∷ 10 ∷ response) refl refl refl

tcti_mssim_finalize-socket_close_example :
    tcti_mssim_finalize pipe (some ready) []
    ≡ some (some (record ready { platform_sock = none; tpm_sock = none }), [])
unfolding socket_close
tcti_mssim_finalize-socket_close_example = tcti_mssim_finalize-socket_close pipe ready [] refl

tcti_mssim_receive_overruns_example :
    (tcti_mssim_receive pipe (some sized) (some 4) (some (replicate 4 0)) timeout_block response
      ≡ none)
    × (r : Response Bytes) × (tcti_mssim_receive pipe
          (some sized)
          (some 4)
          (some (replicate 4 0 ++ replicate 10 0))
          timeout_block
          response
        ≡ some r)
tcti_mssim_receive_overruns_example =
    tcti_mssim_receive_overruns pipe pipe-IsKernel sized (replicate 4 0) 4 response 3
      (0x80 ∷ 0x01 ∷ 0 ∷ 0 ∷ 0 ∷ 10 ∷ 0 ∷ 0 ∷ 0 ∷ 0 ∷ []) (0 ∷ 0 ∷ 0 ∷ 0 ∷ []) refl refl refl
      (omega arith) (filled refl refl) (omega arith)
