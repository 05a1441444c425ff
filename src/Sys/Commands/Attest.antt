-- ===== src/Sys/Commands/Attest.antt =====
-- src/tss2-sys/api: Attestation.
use tpm2_tss_verified.Common.{ℕ, true, Option, [], ◌∷◌}
use tpm2_tss_verified.Endian.{w4}
use tpm2_tss_verified.Mu.Tpm2b.{Tpm2b}
use tpm2_tss_verified.Mu.Format.{word}
use tpm2_tss_verified.Mu.Types.{tpm2b_digest}
use tpm2_tss_verified.Mu.Buffers.{tpm2b_data}
use tpm2_tss_verified.Sys.{SysContext}
use tpm2_tss_verified.Sys.Execute.{Transport}
use tpm2_tss_verified.Sys.Auths.{AuthCommand, AuthList}
use tpm2_tss_verified.Sys.Command.{
  Preparing, Completing, arg, optional, pointer, required, prepare, allowing, get, ◌followed_by◌,
  behind_common, complete, Finishing, one_call,
}
use tpm2_tss_verified.Sys.Commands.{OtherTypes}

unfoldable certify_prepare :
    (other : OtherTypes) → ℕ → ℕ → Option Tpm2b → Option other.TpmtSigScheme → Preparing
certify_prepare other object_handle sign_handle qualifying_data in_scheme sys_context =
    required in_scheme sys_context (λ in_scheme.
      prepare 0x148
        (arg (word w4) object_handle
          ∷ arg (word w4) sign_handle
          ∷ optional true tpm2b_data qualifying_data
          ∷ arg other.tpmt_sig_scheme in_scheme
          ∷ [])
        (allowing true true true) sys_context)

unfoldable certify_complete :
    (other : OtherTypes) → Completing (Option other.Tpm2bAttest × Option other.TpmtSignature)
certify_complete other =
    complete (behind_common (get other.tpm2b_attest followed_by get other.tpmt_signature))

unfoldable certify :
    (other : OtherTypes) (t : Transport)
    → Option SysContext
    → Option (AuthList AuthCommand)
    → ℕ
    → ℕ
    → Option Tpm2b
    → Option other.TpmtSigScheme
    → Finishing t (Option other.Tpm2bAttest × Option other.TpmtSignature)
certify other t sys_context cmd_auths object_handle sign_handle qualifying_data in_scheme =
    one_call t
      (λ ctx.
        required in_scheme ctx
          (λ _. certify_prepare other object_handle sign_handle qualifying_data in_scheme ctx))
      (certify_complete other) sys_context cmd_auths

unfoldable certify_creation_prepare :
    (other : OtherTypes)
    → ℕ
    → ℕ
    → Option Tpm2b
    → Option Tpm2b
    → Option other.TpmtSigScheme
    → Option other.TpmtTkCreation
    → Preparing
certify_creation_prepare other sign_handle object_handle qualifying_data creation_hash in_scheme
      creation_ticket sys_context =
    required in_scheme sys_context (λ in_scheme.
      required creation_ticket sys_context (λ creation_ticket.
        prepare 0x14a
          (arg (word w4) sign_handle
            ∷ arg (word w4) object_handle
            ∷ optional true tpm2b_data qualifying_data
            ∷ pointer tpm2b_digest creation_hash
            ∷ arg other.tpmt_sig_scheme in_scheme
            ∷ arg other.tpmt_tk_creation creation_ticket
            ∷ [])
          (allowing true true true) sys_context))

unfoldable certify_creation_complete :
    (other : OtherTypes) → Completing (Option other.Tpm2bAttest × Option other.TpmtSignature)
certify_creation_complete other =
    complete (behind_common (get other.tpm2b_attest followed_by get other.tpmt_signature))

unfoldable certify_creation :
    (other : OtherTypes) (t : Transport)
    → Option SysContext
    → Option (AuthList AuthCommand)
    → ℕ
    → ℕ
    → Option Tpm2b
    → Option Tpm2b
    → Option other.TpmtSigScheme
    → Option other.TpmtTkCreation
    → Finishing t (Option other.Tpm2bAttest × Option other.TpmtSignature)
certify_creation other t sys_context cmd_auths sign_handle object_handle qualifying_data
      creation_hash in_scheme creation_ticket =
    one_call t
      (λ ctx. required in_scheme ctx (λ _. required creation_ticket ctx (λ _.
        certify_creation_prepare other sign_handle object_handle qualifying_data creation_hash
          in_scheme creation_ticket ctx)))
      (certify_creation_complete other) sys_context cmd_auths

unfoldable get_command_audit_digest_prepare :
    (other : OtherTypes) → ℕ → ℕ → Option Tpm2b → Option other.TpmtSigScheme → Preparing
get_command_audit_digest_prepare other privacy_handle sign_handle qualifying_data in_scheme
      sys_context =
    required in_scheme sys_context (λ in_scheme.
      prepare 0x133
        (arg (word w4) privacy_handle
          ∷ arg (word w4) sign_handle
          ∷ optional true tpm2b_data qualifying_data
          ∷ arg other.tpmt_sig_scheme in_scheme
          ∷ [])
        (allowing true true true) sys_context)

unfoldable get_command_audit_digest_complete :
    (other : OtherTypes) → Completing (Option other.Tpm2bAttest × Option other.TpmtSignature)
get_command_audit_digest_complete other =
    complete (behind_common (get other.tpm2b_attest followed_by get other.tpmt_signature))

unfoldable get_command_audit_digest :
    (other : OtherTypes) (t : Transport)
    → Option SysContext
    → Option (AuthList AuthCommand)
    → ℕ
    → ℕ
    → Option Tpm2b
    → Option other.TpmtSigScheme
    → Finishing t (Option other.Tpm2bAttest × Option other.TpmtSignature)
get_command_audit_digest other t sys_context cmd_auths privacy_handle sign_handle qualifying_data
      in_scheme =
    one_call t
      (λ ctx. required in_scheme ctx (λ _.
        get_command_audit_digest_prepare other privacy_handle sign_handle qualifying_data in_scheme
          ctx))
      (get_command_audit_digest_complete other) sys_context cmd_auths

unfoldable get_session_audit_digest_prepare :
    (other : OtherTypes) → ℕ → ℕ → ℕ → Option Tpm2b → Option other.TpmtSigScheme → Preparing
get_session_audit_digest_prepare other privacy_admin_handle sign_handle session_handle
      qualifying_data in_scheme sys_context =
    required in_scheme sys_context (λ in_scheme.
      prepare 0x14d
        (arg (word w4) privacy_admin_handle
          ∷ arg (word w4) sign_handle
          ∷ arg (word w4) session_handle
          ∷ optional true tpm2b_data qualifying_data
          ∷ arg other.tpmt_sig_scheme in_scheme
          ∷ [])
        (allowing true true true) sys_context)

unfoldable get_session_audit_digest_complete :
    (other : OtherTypes) → Completing (Option other.Tpm2bAttest × Option other.TpmtSignature)
get_session_audit_digest_complete other =
    complete (behind_common (get other.tpm2b_attest followed_by get other.tpmt_signature))

unfoldable get_session_audit_digest :
    (other : OtherTypes) (t : Transport)
    → Option SysContext
    → Option (AuthList AuthCommand)
    → ℕ
    → ℕ
    → ℕ
    → Option Tpm2b
    → Option other.TpmtSigScheme
    → Finishing t (Option other.Tpm2bAttest × Option other.TpmtSignature)
get_session_audit_digest other t sys_context cmd_auths privacy_admin_handle sign_handle
      session_handle qualifying_data in_scheme =
    one_call t
      (λ ctx. required in_scheme ctx (λ _.
        get_session_audit_digest_prepare other privacy_admin_handle sign_handle session_handle
          qualifying_data in_scheme ctx))
      (get_session_audit_digest_complete other) sys_context cmd_auths

unfoldable get_time_prepare :
    (other : OtherTypes) → ℕ → ℕ → Option Tpm2b → Option other.TpmtSigScheme → Preparing
get_time_prepare other privacy_admin_handle sign_handle qualifying_data in_scheme sys_context =
    required in_scheme sys_context (λ in_scheme.
      prepare 0x14c
        (arg (word w4) privacy_admin_handle
          ∷ arg (word w4) sign_handle
          ∷ optional true tpm2b_data qualifying_data
          ∷ arg other.tpmt_sig_scheme in_scheme
          ∷ [])
        (allowing true true true) sys_context)

unfoldable get_time_complete :
    (other : OtherTypes) → Completing (Option other.Tpm2bAttest × Option other.TpmtSignature)
get_time_complete other =
    complete (behind_common (get other.tpm2b_attest followed_by get other.tpmt_signature))

unfoldable get_time :
    (other : OtherTypes) (t : Transport)
    → Option SysContext
    → Option (AuthList AuthCommand)
    → ℕ
    → ℕ
    → Option Tpm2b
    → Option other.TpmtSigScheme
    → Finishing t (Option other.Tpm2bAttest × Option other.TpmtSignature)
get_time other t sys_context cmd_auths privacy_admin_handle sign_handle qualifying_data in_scheme =
    one_call t
      (λ ctx. required in_scheme ctx (λ _.
        get_time_prepare other privacy_admin_handle sign_handle qualifying_data in_scheme ctx))
      (get_time_complete other) sys_context cmd_auths

unfoldable quote_prepare :
    (other : OtherTypes)
    → ℕ
    → Option Tpm2b
    → Option other.TpmtSigScheme
    → Option other.TpmlPcrSelection
    → Preparing
quote_prepare other sign_handle qualifying_data in_scheme pc_rselect sys_context =
    required in_scheme sys_context (λ in_scheme. required pc_rselect sys_context (λ pc_rselect.
      prepare 0x158
        (arg (word w4) sign_handle
          ∷ optional true tpm2b_data qualifying_data
          ∷ arg other.tpmt_sig_scheme in_scheme
          ∷ arg other.tpml_pcr_selection pc_rselect
          ∷ [])
        (allowing true true true) sys_context))

unfoldable quote_complete :
    (other : OtherTypes) → Completing (Option other.Tpm2bAttest × Option other.TpmtSignature)
quote_complete other =
    complete (behind_common (get other.tpm2b_attest followed_by get other.tpmt_signature))

unfoldable quote :
    (other : OtherTypes) (t : Transport)
    → Option SysContext
    → Option (AuthList AuthCommand)
    → ℕ
    → Option Tpm2b
    → Option other.TpmtSigScheme
    → Option other.TpmlPcrSelection
    → Finishing t (Option other.Tpm2bAttest × Option other.TpmtSignature)
quote other t sys_context cmd_auths sign_handle qualifying_data in_scheme pc_rselect =
    one_call t
      (λ ctx. required in_scheme ctx (λ _.
        required pc_rselect ctx
          (λ _. quote_prepare other sign_handle qualifying_data in_scheme pc_rselect ctx)))
      (quote_complete other) sys_context cmd_auths
