-- ===== src/Sys/Commands/Signing.antt =====
-- src/tss2-sys/api: Ephemeral keys, signatures and the audit.
use tpm2_tss_verified.Common.{ℕ, true, false, Option, [], ◌∷◌}
use tpm2_tss_verified.Endian.{w2, w4}
use tpm2_tss_verified.Mu.Tpm2b.{Tpm2b}
use tpm2_tss_verified.Mu.Tpml.{Tpml}
use tpm2_tss_verified.Mu.Format.{word}
use tpm2_tss_verified.Mu.Types.{tpm2b_digest, tpm2b_sensitive_data, tpm2b_ecc_parameter, tpml_cc}
use tpm2_tss_verified.Sys.{SysContext}
use tpm2_tss_verified.Sys.Execute.{Transport}
use tpm2_tss_verified.Sys.Auths.{AuthCommand, AuthList}
use tpm2_tss_verified.Sys.Command.{
  Preparing, Completing, arg, optional, required, prepare, allowing, get, got_all, ◌followed_by◌,
  behind_common, complete, Finishing, one_call,
}
use tpm2_tss_verified.Sys.Commands.{OtherTypes}

unfoldable commit_prepare :
    (other : OtherTypes) → ℕ → Option other.Tpm2bEccPoint → Option Tpm2b → Option Tpm2b → Preparing
commit_prepare other sign_handle p1 s2 y2 sys_context =
    prepare 0x18b
      (arg (word w4) sign_handle
        ∷ optional true other.tpm2b_ecc_point p1
        ∷ optional false tpm2b_sensitive_data s2
        ∷ optional false tpm2b_ecc_parameter y2
        ∷ [])
      (allowing true true true) sys_context

unfoldable commit_complete :
    (other : OtherTypes)
    → Completing (
        Option other.Tpm2bEccPoint
        × (Option other.Tpm2bEccPoint × (Option other.Tpm2bEccPoint × Option ℕ)))
commit_complete other = complete (
    behind_common (
      get other.tpm2b_ecc_point
      followed_by get other.tpm2b_ecc_point
      followed_by get other.tpm2b_ecc_point
      followed_by get (word w2)))

unfoldable commit :
    (other : OtherTypes) (t : Transport)
    → Option SysContext
    → Option (AuthList AuthCommand)
    → ℕ
    → Option other.Tpm2bEccPoint
    → Option Tpm2b
    → Option Tpm2b
    → Finishing t (
        Option other.Tpm2bEccPoint
        × (Option other.Tpm2bEccPoint × (Option other.Tpm2bEccPoint × Option ℕ)))
commit other t sys_context cmd_auths sign_handle p1 s2 y2 =
    one_call t (commit_prepare other sign_handle p1 s2 y2) (commit_complete other) sys_context
      cmd_auths

unfoldable ec_ephemeral_prepare : ℕ → Preparing
ec_ephemeral_prepare curve_id sys_context =
    prepare 0x18e (arg (word w2) curve_id ∷ []) (allowing false true true) sys_context

unfoldable ec_ephemeral_complete :
    (other : OtherTypes) → Completing (Option other.Tpm2bEccPoint × Option ℕ)
ec_ephemeral_complete other =
    complete (behind_common (get other.tpm2b_ecc_point followed_by get (word w2)))

unfoldable ec_ephemeral :
    (other : OtherTypes) (t : Transport)
    → Option SysContext
    → Option (AuthList AuthCommand)
    → ℕ
    → Finishing t (Option other.Tpm2bEccPoint × Option ℕ)
ec_ephemeral other t sys_context cmd_auths curve_id =
    one_call t (ec_ephemeral_prepare curve_id) (ec_ephemeral_complete other) sys_context cmd_auths

unfoldable set_command_code_audit_status_prepare :
    ℕ → ℕ → Option (Tpml ℕ) → Option (Tpml ℕ) → Preparing
set_command_code_audit_status_prepare auth audit_alg set_list clear_list sys_context =
    required set_list sys_context (λ set_list. required clear_list sys_context (λ clear_list.
      prepare 0x140
        (arg (word w4) auth
          ∷ arg (word w2) audit_alg
          ∷ arg tpml_cc set_list
          ∷ arg tpml_cc clear_list
          ∷ [])
        (allowing false false true) sys_context))

unfoldable set_command_code_audit_status_complete : Completing (Unit {0})
set_command_code_audit_status_complete = complete (behind_common got_all)

unfoldable set_command_code_audit_status :
    (t : Transport)
    → Option SysContext
    → Option (AuthList AuthCommand)
    → ℕ
    → ℕ
    → Option (Tpml ℕ)
    → Option (Tpml ℕ)
    → Finishing t (Unit {0})
set_command_code_audit_status t sys_context cmd_auths auth audit_alg set_list clear_list =
    one_call t
      (λ ctx. required set_list ctx (λ _.
        required clear_list ctx
          (λ _. set_command_code_audit_status_prepare auth audit_alg set_list clear_list ctx)))
      set_command_code_audit_status_complete sys_context cmd_auths

unfoldable sign_prepare :
    (other : OtherTypes)
    → ℕ
    → Option Tpm2b
    → Option other.TpmtSigScheme
    → Option other.TpmtTkHashcheck
    → Preparing
sign_prepare other key_handle digest in_scheme validation sys_context =
    required in_scheme sys_context (λ in_scheme. required validation sys_context (λ validation.
      prepare 0x15d
        (arg (word w4) key_handle
          ∷ optional true tpm2b_digest digest
          ∷ arg other.tpmt_sig_scheme in_scheme
          ∷ arg other.tpmt_tk_hashcheck validation
          ∷ [])
        (allowing true false true) sys_context))

unfoldable sign_complete : (other : OtherTypes) → Completing (Option other.TpmtSignature)
sign_complete other = complete (behind_common (get other.tpmt_signature))

unfoldable sign :
    (other : OtherTypes) (t : Transport)
    → Option SysContext
    → Option (AuthList AuthCommand)
    → ℕ
    → Option Tpm2b
    → Option other.TpmtSigScheme
    → Option other.TpmtTkHashcheck
    → Finishing t (Option other.TpmtSignature)
sign other t sys_context cmd_auths key_handle digest in_scheme validation =
    one_call t
      (λ ctx. required in_scheme ctx (λ _.
        required validation ctx
          (λ _. sign_prepare other key_handle digest in_scheme validation ctx)))
      (sign_complete other) sys_context cmd_auths

unfoldable verify_signature_prepare :
    (other : OtherTypes) → ℕ → Option Tpm2b → Option other.TpmtSignature → Preparing
verify_signature_prepare other key_handle digest signature sys_context =
    required signature sys_context (λ signature.
      prepare 0x177
        (arg (word w4) key_handle
          ∷ optional true tpm2b_digest digest
          ∷ arg other.tpmt_signature signature
          ∷ [])
        (allowing true false true) sys_context)

unfoldable verify_signature_complete :
    (other : OtherTypes) → Completing (Option other.TpmtTkVerified)
verify_signature_complete other = complete (behind_common (get other.tpmt_tk_verified))

unfoldable verify_signature :
    (other : OtherTypes) (t : Transport)
    → Option SysContext
    → Option (AuthList AuthCommand)
    → ℕ
    → Option Tpm2b
    → Option other.TpmtSignature
    → Finishing t (Option other.TpmtTkVerified)
verify_signature other t sys_context cmd_auths key_handle digest signature =
    one_call t
      (λ ctx.
        required signature ctx
          (λ _. verify_signature_prepare other key_handle digest signature ctx))
      (verify_signature_complete other) sys_context cmd_auths
