-- ===== src/Sys/Commands/PolicyMore.antt =====
-- src/tss2-sys/api: Policies (the others).
use tpm2_tss_verified.Common.{ℕ, true, false, Option, [], ◌∷◌}
use tpm2_tss_verified.Endian.{w1, w4}
use tpm2_tss_verified.Mu.Tpm2b.{Tpm2b}
use tpm2_tss_verified.Mu.Format.{word}
use tpm2_tss_verified.Mu.Types.{tpm2b_digest, tpm2b_name}
use tpm2_tss_verified.Sys.{SysContext}
use tpm2_tss_verified.Sys.Execute.{Transport}
use tpm2_tss_verified.Sys.Auths.{AuthCommand, AuthList}
use tpm2_tss_verified.Sys.Command.{
  Preparing, Completing, arg, optional, required, prepare, allowing, get, got_all, behind_common,
  complete, Finishing, one_call,
}
use tpm2_tss_verified.Sys.Commands.{OtherTypes}

unfoldable policy_auth_value_prepare : ℕ → Preparing
policy_auth_value_prepare policy_session sys_context =
    prepare 0x16b (arg (word w4) policy_session ∷ []) (allowing false false true) sys_context

unfoldable policy_auth_value_complete : Completing (Unit {0})
policy_auth_value_complete = complete (behind_common got_all)

unfoldable policy_auth_value :
    (t : Transport) → Option SysContext → Option (AuthList AuthCommand) → ℕ → Finishing t (Unit {0})
policy_auth_value t sys_context cmd_auths policy_session =
    one_call t (policy_auth_value_prepare policy_session) policy_auth_value_complete sys_context
      cmd_auths

unfoldable policy_authorize_prepare :
    (other : OtherTypes)
    → ℕ
    → Option Tpm2b
    → Option Tpm2b
    → Option Tpm2b
    → Option other.TpmtTkVerified
    → Preparing
policy_authorize_prepare other policy_session approved_policy policy_ref key_sign check_ticket
      sys_context =
    required check_ticket sys_context (λ check_ticket.
      prepare 0x16a
        (arg (word w4) policy_session
          ∷ optional true tpm2b_digest approved_policy
          ∷ optional false tpm2b_digest policy_ref
          ∷ optional false tpm2b_name key_sign
          ∷ arg other.tpmt_tk_verified check_ticket
          ∷ [])
        (allowing true false true) sys_context)

unfoldable policy_authorize_complete : Completing (Unit {0})
policy_authorize_complete = complete (behind_common got_all)

unfoldable policy_authorize :
    (other : OtherTypes) (t : Transport)
    → Option SysContext
    → Option (AuthList AuthCommand)
    → ℕ
    → Option Tpm2b
    → Option Tpm2b
    → Option Tpm2b
    → Option other.TpmtTkVerified
    → Finishing t (Unit {0})
policy_authorize other t sys_context cmd_auths policy_session approved_policy policy_ref key_sign
      check_ticket =
    one_call t
      (λ ctx. required check_ticket ctx (λ _.
        policy_authorize_prepare other policy_session approved_policy policy_ref key_sign
          check_ticket ctx))
      policy_authorize_complete sys_context cmd_auths

unfoldable policy_authorize_nv_prepare : ℕ → ℕ → ℕ → Preparing
policy_authorize_nv_prepare auth_handle nv_index policy_session sys_context =
    prepare 0x192
      (arg (word w4) auth_handle ∷ arg (word w4) nv_index ∷ arg (word w4) policy_session ∷ [])
      (allowing false false true) sys_context

unfoldable policy_authorize_nv_complete : Completing (Unit {0})
policy_authorize_nv_complete = complete (behind_common got_all)

unfoldable policy_authorize_nv :
    (t : Transport)
    → Option SysContext
    → Option (AuthList AuthCommand)
    → ℕ
    → ℕ
    → ℕ
    → Finishing t (Unit {0})
policy_authorize_nv t sys_context cmd_auths auth_handle nv_index policy_session =
    one_call t (policy_authorize_nv_prepare auth_handle nv_index policy_session)
      policy_authorize_nv_complete sys_context cmd_auths

unfoldable policy_cp_hash_prepare : ℕ → Option Tpm2b → Preparing
policy_cp_hash_prepare policy_session cp_hash_a sys_context =
    prepare 0x16e (arg (word w4) policy_session ∷ optional false tpm2b_digest cp_hash_a ∷ [])
      (allowing true false true) sys_context

unfoldable policy_cp_hash_complete : Completing (Unit {0})
policy_cp_hash_complete = complete (behind_common got_all)

unfoldable policy_cp_hash :
    (t : Transport)
    → Option SysContext
    → Option (AuthList AuthCommand)
    → ℕ
    → Option Tpm2b
    → Finishing t (Unit {0})
policy_cp_hash t sys_context cmd_auths policy_session cp_hash_a =
    one_call t (policy_cp_hash_prepare policy_session cp_hash_a) policy_cp_hash_complete sys_context
      cmd_auths

unfoldable policy_duplication_select_prepare : ℕ → Option Tpm2b → Option Tpm2b → ℕ → Preparing
policy_duplication_select_prepare policy_session object_name new_parent_name include_object
      sys_context =
    prepare 0x188
      (arg (word w4) policy_session
        ∷ optional true tpm2b_name object_name
        ∷ optional false tpm2b_name new_parent_name
        ∷ arg (word w1) include_object
        ∷ [])
      (allowing true false true) sys_context

unfoldable policy_duplication_select_complete : Completing (Unit {0})
policy_duplication_select_complete = complete (behind_common got_all)

unfoldable policy_duplication_select :
    (t : Transport)
    → Option SysContext
    → Option (AuthList AuthCommand)
    → ℕ
    → Option Tpm2b
    → Option Tpm2b
    → ℕ
    → Finishing t (Unit {0})
policy_duplication_select t sys_context cmd_auths policy_session object_name new_parent_name
      include_object =
    one_call t
      (policy_duplication_select_prepare policy_session object_name new_parent_name include_object)
      policy_duplication_select_complete sys_context cmd_auths

unfoldable policy_get_digest_prepare : ℕ → Preparing
policy_get_digest_prepare policy_session sys_context =
    prepare 0x189 (arg (word w4) policy_session ∷ []) (allowing false true true) sys_context

unfoldable policy_get_digest_complete : Completing (Option Tpm2b)
policy_get_digest_complete = complete (behind_common (get tpm2b_digest))

unfoldable policy_get_digest :
    (t : Transport)
    → Option SysContext
    → Option (AuthList AuthCommand)
    → ℕ
    → Finishing t (Option Tpm2b)
policy_get_digest t sys_context cmd_auths policy_session =
    one_call t (policy_get_digest_prepare policy_session) policy_get_digest_complete sys_context
      cmd_auths

unfoldable policy_name_hash_prepare : ℕ → Option Tpm2b → Preparing
policy_name_hash_prepare policy_session name_hash sys_context =
    prepare 0x170 (arg (word w4) policy_session ∷ optional false tpm2b_digest name_hash ∷ [])
      (allowing true false true) sys_context

unfoldable policy_name_hash_complete : Completing (Unit {0})
policy_name_hash_complete = complete (behind_common got_all)

unfoldable policy_name_hash :
    (t : Transport)
    → Option SysContext
    → Option (AuthList AuthCommand)
    → ℕ
    → Option Tpm2b
    → Finishing t (Unit {0})
policy_name_hash t sys_context cmd_auths policy_session name_hash =
    one_call t (policy_name_hash_prepare policy_session name_hash) policy_name_hash_complete
      sys_context cmd_auths

unfoldable policy_nv_written_prepare : ℕ → ℕ → Preparing
policy_nv_written_prepare policy_session written_set sys_context =
    prepare 0x18f (arg (word w4) policy_session ∷ arg (word w1) written_set ∷ [])
      (allowing false false true) sys_context

unfoldable policy_nv_written_complete : Completing (Unit {0})
policy_nv_written_complete = complete (behind_common got_all)

unfoldable policy_nv_written :
    (t : Transport)
    → Option SysContext
    → Option (AuthList AuthCommand)
    → ℕ
    → ℕ
    → Finishing t (Unit {0})
policy_nv_written t sys_context cmd_auths policy_session written_set =
    one_call t (policy_nv_written_prepare policy_session written_set) policy_nv_written_complete
      sys_context cmd_auths

unfoldable policy_password_prepare : ℕ → Preparing
policy_password_prepare policy_session sys_context =
    prepare 0x18c (arg (word w4) policy_session ∷ []) (allowing false false true) sys_context

unfoldable policy_password_complete : Completing (Unit {0})
policy_password_complete = complete (behind_common got_all)

unfoldable policy_password :
    (t : Transport) → Option SysContext → Option (AuthList AuthCommand) → ℕ → Finishing t (Unit {0})
policy_password t sys_context cmd_auths policy_session =
    one_call t (policy_password_prepare policy_session) policy_password_complete sys_context
      cmd_auths

unfoldable policy_physical_presence_prepare : ℕ → Preparing
policy_physical_presence_prepare policy_session sys_context =
    prepare 0x187 (arg (word w4) policy_session ∷ []) (allowing false false true) sys_context

unfoldable policy_physical_presence_complete : Completing (Unit {0})
policy_physical_presence_complete = complete (behind_common got_all)

unfoldable policy_physical_presence :
    (t : Transport) → Option SysContext → Option (AuthList AuthCommand) → ℕ → Finishing t (Unit {0})
policy_physical_presence t sys_context cmd_auths policy_session =
    one_call t (policy_physical_presence_prepare policy_session) policy_physical_presence_complete
      sys_context cmd_auths

unfoldable policy_template_prepare : ℕ → Option Tpm2b → Preparing
policy_template_prepare policy_session template_hash sys_context =
    prepare 0x190 (arg (word w4) policy_session ∷ optional false tpm2b_digest template_hash ∷ [])
      (allowing true false true) sys_context

unfoldable policy_template_complete : Completing (Unit {0})
policy_template_complete = complete (behind_common got_all)

unfoldable policy_template :
    (t : Transport)
    → Option SysContext
    → Option (AuthList AuthCommand)
    → ℕ
    → Option Tpm2b
    → Finishing t (Unit {0})
policy_template t sys_context cmd_auths policy_session template_hash =
    one_call t (policy_template_prepare policy_session template_hash) policy_template_complete
      sys_context cmd_auths
