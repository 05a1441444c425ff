-- ===== src/Sys/Commands/Runs.antt =====
-- Single commands at concrete inputs.
use tpm2_tss_verified.Common.{
  ◌≢◌, ◌⊎◌, ℕ, ◌+◌, ◌*◌, ◌≡◌, refl, false, true, Option, some, none, List, [], ◌∷◌, ◌++◌, length,
  drop, replicate, length-replicate, All, arith,
}
use tpm2_tss_verified.Rc.{rc_success, tpm2_st_sessions}
use tpm2_tss_verified.Memory.{Bytes, splice, slice}
use tpm2_tss_verified.Endian.{w4, to_be, to_memory, of_be, of_memory, IsByte}
use tpm2_tss_verified.Mu.Tpm2b.{Tpm2b}
use tpm2_tss_verified.Mu.Tpm2b.Wire.{IsSized, payload, sized}
use tpm2_tss_verified.Mu.Format.{word}
use tpm2_tss_verified.Mu.Types.{tpm2b_digest}
use tpm2_tss_verified.Tcti.Wire.{wire}
use tpm2_tss_verified.Sys.{
  Stage, cmd_stage_initialize, cmd_stage_prepare, cmd_stage_receive_response, SysContext,
}
use tpm2_tss_verified.Sys.Handles.{
  get_num_handles, get_num_command_handles, get_num_response_handles,
}
use tpm2_tss_verified.Sys.Frame.{IsFramed}
use tpm2_tss_verified.Sys.Auths.{AuthCommand, AuthList}
use tpm2_tss_verified.Sys.Auths.Area.{auth_area}
use tpm2_tss_verified.Sys.Auths.Law.{sized_area, with_auths}
use tpm2_tss_verified.Sys.Command.{
  Arg, arg, allowing, prepare, give_auths, get, ◌followed_by◌, complete, behind_common,
}
use tpm2_tss_verified.Sys.Command.Framed.{marked, plain_header, prepare-IsFramed}
use tpm2_tss_verified.Sys.Command.Authorised.{prepare-give_auths}
use tpm2_tss_verified.Sys.Command.Safe.{HasBuffer, Given, Stands, ThenReads, ReadsFramed}
use tpm2_tss_verified.Sys.Command.Completed.{result, results, framed, complete-Parts}
use tpm2_tss_verified.Sys.Initialize.{TctiContext, get_context_size, initialize}
use tpm2_tss_verified.Sys.Initialize.Ready.{initialize-prepare}
use tpm2_tss_verified.Sys.Execute.{Transport}
use tpm2_tss_verified.Sys.Command.Exchange.{IsPlain}
use tpm2_tss_verified.Sys.Commands.Random.{Randomised, get_random-payload}

abbrev zeros : Bytes
zeros = replicate 48 0

zeros-IsByte : All IsByte zeros
zeros-IsByte = ground arith

zeros-length : length zeros ≡ 48
zeros-length = length-replicate {A = ℕ} 48 0

abbrev context : Stage → SysContext
context stage = record {
  cmd_buffer = zeros;
  max_cmd_size = 48;
  rsp_header = record { tag = tpm2_st_sessions; response_size = 48; response_code = 0 };
  command_code = 0;
  cp_buffer_used_size = 0;
  cp_buffer = 0;
  rsp_params_size = 10;
  previous_stage = stage;
  auths_count = 0;
  num_response_handles = 0;
  decrypt_allowed = false;
  encrypt_allowed = false;
  decrypt_null = false;
  auth_allowed = false;
  next_data = 0;
}

-- The handles and the parameters of TPM2_PolicyCommandCode, for the session 0x03000000 and the code
-- of TPM2_Unseal.
abbrev arguments : List Arg
arguments = arg (word w4) 0x03000000 ∷ arg (word w4) 0x15e ∷ []

abbrev session_handle : Bytes
session_handle = to_be 4 0x03000000

abbrev code_param : Bytes
code_param = to_be 4 0x15e ++ []

one_handle : length session_handle ≡ get_num_command_handles 0x16c * 4
unfolding get_num_command_handles get_num_handles to_be
one_handle = refl

length-arguments : length (session_handle ++ code_param) ≡ 8
unfolding to_be
length-arguments = refl

prepare-IsFramed_example :
    (ctx' : SysContext) × (prepare 0x16c arguments
        (allowing false false true)
        (some (context cmd_stage_initialize))
      ≡ some (rc_success, some ctx'))
    × IsFramed ctx'
        (plain_header 0x16c (session_handle ++ code_param))
        session_handle
        code_param
        zeros
    × (ctx'.auth_allowed ≡ true)
    × (ctx'.decrypt_allowed ≡ false)
    × (ctx'.encrypt_allowed ≡ false)
    × (ctx'.decrypt_null ≡ marked arguments false)
    × (ctx'.max_cmd_size ≡ 48)
    × (ctx'.rsp_params_size ≡ 10 + get_num_response_handles 0x16c * 4)
prepare-IsFramed_example =
    prepare-IsFramed (context cmd_stage_initialize) 0x16c arguments (allowing false false true)
      session_handle code_param (λ e. cc) (omega arith, (omega arith, tt)) refl one_handle
      (omega (arith, length-arguments)) (omega (arith, zeros-length)) (omega arith)

-- The empty authorisation of a password session.
abbrev empty : Tpm2b
empty = record { size = 0; buffer = replicate 64 0 }

empty-IsSized : IsSized 64 empty
empty-IsSized = record { room = length-replicate {A = ℕ} 64 0; fits = omega arith }

abbrev password : AuthCommand
password = (0x40000009, (empty, (1, empty)))

abbrev passwords : AuthList AuthCommand
passwords = record { count = 1; auths = password ∷ password ∷ password ∷ [] }

area-passwords : length (auth_area (password ∷ [])) ≡ 9
unfolding to_be to_memory
area-passwords = refl

prepare-give_auths_example :
    (framed sent : SysContext) × (prepare 0x16c arguments
        (allowing false false true)
        (some (context cmd_stage_initialize))
      ≡ some (rc_success, some framed))
    × (give_auths (some passwords) (some framed) ≡ some (rc_success, some sent))
    × (sent.cmd_buffer
        ≡ splice 0
            (wire (with_auths (plain_header 0x16c (session_handle ++ code_param)) (password ∷ []))
              ++ ((session_handle ++ sized_area (password ∷ [])) ++ code_param))
            zeros)
    × (sent.previous_stage ≡ cmd_stage_prepare)
    × (sent.auths_count ≡ 1)
prepare-give_auths_example =
    prepare-give_auths (context cmd_stage_initialize) 0x16c arguments (allowing false false true)
      session_handle code_param passwords (λ e. cc) (omega arith, (omega arith, tt)) refl one_handle
      refl (omega arith) (omega arith) (omega arith)
      ((omega arith, (empty-IsSized, (omega arith, empty-IsSized))), tt)
      (omega (arith, length-arguments, area-passwords)) (omega (arith, zeros-length)) (omega arith)

context-HasBuffer : (stage : Stage) → HasBuffer (context stage)
context-HasBuffer stage = record {
  bytes = zeros-IsByte;
  header = omega arith;
  inside = omega (arith, zeros-length);
  max = omega arith;
}

complete-Parts_example :
    (rc next : ℕ) × (dest' : Option ℕ × Option Tpm2b) × (Given (word w4).codec.HasShape dest'.0
      × Given tpm2b_digest.codec.HasShape dest'.1)
    × ((rc ≢ rc_success)
        ⊎ ThenReads
            (Stands (word w4))
            (ReadsFramed (Stands tpm2b_digest))
            (context cmd_stage_receive_response)
            next
            dest')
    × (complete
          (get (word w4) followed_by behind_common (get tpm2b_digest))
          (some (context cmd_stage_receive_response))
          (some 0, some empty)
        ≡ some (rc, some (record (context cmd_stage_receive_response) { next_data = next }), dest'))
complete-Parts_example =
    complete-Parts
      (λ (ab : Option ℕ × Option Tpm2b).
        Given (word w4).codec.HasShape ab.0 × Given tpm2b_digest.codec.HasShape ab.1)
      (ThenReads (Stands (word w4)) (ReadsFramed (Stands tpm2b_digest)))
      (get (word w4) followed_by behind_common (get tpm2b_digest))
      (context cmd_stage_receive_response) (some 0, some empty)
      (results (result (word w4)) (framed (result tpm2b_digest)))
      (context-HasBuffer cmd_stage_receive_response) (tt, length-replicate {A = ℕ} 64 0)

abbrev tcti : TctiContext
tcti = record { has_transmit = true; has_receive = true }

context_size : length {A = ℕ} (replicate 30 0) ≡ get_context_size 10 20
unfolding get_context_size
context_size = length-replicate {A = ℕ} 30 0

-- With a structure of 10 bytes.
initialize-prepare_example :
    (ready framed : SysContext) × (initialize 10
        (some (context cmd_stage_prepare))
        (replicate 30 0)
        (get_context_size 10 20)
        (some tcti)
        none
      ≡ (rc_success, some ready))
    × (prepare 0x16c arguments (allowing false false true) (some ready)
        ≡ some (rc_success, some framed))
    × IsFramed framed
        (plain_header 0x16c (session_handle ++ code_param))
        session_handle
        code_param
        (drop 10 (replicate 30 0))
initialize-prepare_example =
    initialize-prepare 10 20 (context cmd_stage_prepare) (replicate 30 0) tcti none 0x16c arguments
      (allowing false false true) session_handle code_param (omega arith) (omega arith) context_size
      refl refl tt (omega arith, (omega arith, tt)) refl one_handle
      (omega (arith, length-arguments))

-- A transport that answers every command with three bytes.
abbrev reply : Bytes
reply = 0x80 ∷ 0x01 ∷ 0 ∷ 0 ∷ 0 ∷ 15 ∷ 0 ∷ 0 ∷ 0 ∷ 0 ∷ 0 ∷ 3 ∷ 1 ∷ 2 ∷ 3 ∷ replicate 33 0

abbrev dice : Transport
dice = record {
  State = Unit {0};
  transmit = λ size buf s. (rc_success, s);
  receive = λ size buf s. (rc_success, 15, reply, s);
}

reply-IsPlain : IsPlain 48 reply
unfolding of_be of_memory
reply-IsPlain = record {
  tag = refl;
  code = refl;
  header = omega arith;
  fits = omega arith;
  bytes = ground arith;
  inside = omega arith;
}

abbrev three : Tpm2b
three = record { size = 3; buffer = 1 ∷ 2 ∷ 3 ∷ replicate 61 0 }

three-stands :
    (slice 10 (length (sized (payload three))) reply ≡ sized (payload three))
    × (length (sized (payload three)) ≡ 5)
unfolding to_be to_memory
three-stands = (refl, refl)

get_random-payload_example : Randomised dice (context cmd_stage_initialize) 3 empty three tt tt
get_random-payload_example =
    get_random-payload dice (context cmd_stage_initialize) 3 empty three tt tt tt 15 reply
      (omega arith) (λ e. cc) (omega arith) (omega (arith, zeros-length)) (omega arith) refl refl
      reply-IsPlain (record { room = refl; fits = omega arith }) (omega (arith, three-stands.1))
      three-stands.0 (length-replicate {A = ℕ} 64 0)
