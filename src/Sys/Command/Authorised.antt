-- ===== src/Sys/Command/Authorised.antt =====
-- A command with its authorisations, as CommonOneCall puts them together.
use tpm2_tss_verified.Common.{
  ℕ, ◌+◌, ◌*◌, ◌≤◌, ◌<◌, ◌^◌, ◌≡◌, ◌≢◌, ◌∙◌, true, some, List, ◌++◌, length, take, All, arith,
}
use tpm2_tss_verified.Rc.{rc_success}
use tpm2_tss_verified.Memory.{Bytes, splice}
use tpm2_tss_verified.Tcti.Wire.{wire}
use tpm2_tss_verified.Sys.{cmd_stage_prepare, cmd_stage_send_command, SysContext}
use tpm2_tss_verified.Sys.Handles.{get_num_command_handles}
use tpm2_tss_verified.Sys.Auths.{AuthCommand, AuthList}
use tpm2_tss_verified.Sys.Auths.Area.{IsAuth, auth_area}
use tpm2_tss_verified.Sys.Auths.Law.{sized_area, with_auths, set_cmd_auths-IsFramed}
use tpm2_tss_verified.Sys.Command.{Arg, Allowed, prepare, give_auths}
use tpm2_tss_verified.Sys.Command.Framed.{AllPut, all_encoded, plain_header, prepare-IsFramed}

-- X_Prepare and then SetCmdAuths, for a command that may have authorisations: the buffer holds the
-- header of a command with sessions, the handles, the size of the authorisation area, the
-- authorisations and the parameters, and the size in the header counts all of them.
pub prepare-give_auths :
    (ctx : SysContext) (code : ℕ) (args : List Arg) (allowed : Allowed) (handles params : Bytes)
    (list : AuthList AuthCommand)
    → ctx.previous_stage ≢ cmd_stage_send_command
    → AllPut args
    → all_encoded args ≡ handles ++ params
    → length handles ≡ get_num_command_handles code * 4
    → allowed.auth ≡ true
    → 0 < list.count
    → list.count ≤ 3
    → list.count ≤ length list.auths
    → All IsAuth (take list.count list.auths)
    → 10 + length (handles ++ params) + 4 + length (auth_area (take list.count list.auths))
      ≤ ctx.max_cmd_size
    → ctx.max_cmd_size ≤ length ctx.cmd_buffer
    → ctx.max_cmd_size < 2 ^ 32
    → (framed sent : SysContext) × (prepare code args allowed (some ctx)
        ≡ some (rc_success, some framed))
      × (give_auths (some list) (some framed) ≡ some (rc_success, some sent))
      × (sent.cmd_buffer
          ≡ splice 0
              (wire
                  (with_auths (plain_header code (handles ++ params)) (take list.count list.auths))
                ++ ((handles ++ sized_area (take list.count list.auths)) ++ params))
              ctx.cmd_buffer)
      × (sent.previous_stage ≡ cmd_stage_prepare)
      × (sent.auths_count ≡ list.count)
unfolding give_auths
prepare-give_auths ctx code args allowed handles params list idle valid bytes count auth some_auths
      few there auths_valid room inside max =
    let (framed, prepared, is_framed, may, _, _, _, same, _) =
      prepare-IsFramed ctx code args allowed handles params idle valid bytes count (omega arith)
        inside max in
    let (sent, given, is_sent, counted) =
      set_cmd_auths-IsFramed framed (plain_header code (handles ++ params)) handles params
        ctx.cmd_buffer is_framed list (may ∙ auth) some_auths few there auths_valid
        (rw same room) in
    (framed, sent, prepared, given, is_sent.laid, is_sent.stage, counted)
