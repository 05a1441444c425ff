-- ===== src/Sys/Commands/Session.antt =====
-- src/tss2-sys/api: Sessions.
use tpm2_tss_verified.Common.{ℕ, true, false, Option, [], ◌∷◌}
use tpm2_tss_verified.Endian.{w1, w2, w4}
use tpm2_tss_verified.Mu.Tpm2b.{Tpm2b}
use tpm2_tss_verified.Mu.Format.{word}
use tpm2_tss_verified.Mu.Types.{tpm2b_digest}
use tpm2_tss_verified.Sys.{SysContext}
use tpm2_tss_verified.Sys.Execute.{Transport}
use tpm2_tss_verified.Sys.Auths.{AuthCommand, AuthList}
use tpm2_tss_verified.Sys.Command.{
  Preparing, Completing, arg, optional, required, prepare, allowing, get, got_all, ◌followed_by◌,
  behind_common, complete, Finishing, one_call,
}
use tpm2_tss_verified.Sys.Commands.{OtherTypes}

unfoldable policy_restart_prepare : ℕ → Preparing
policy_restart_prepare session_handle sys_context =
    prepare 0x180 (arg (word w4) session_handle ∷ []) (allowing false false true) sys_context

unfoldable policy_restart_complete : Completing (Unit {0})
policy_restart_complete = complete (behind_common got_all)

unfoldable policy_restart :
    (t : Transport) → Option SysContext → Option (AuthList AuthCommand) → ℕ → Finishing t (Unit {0})
policy_restart t sys_context cmd_auths session_handle =
    one_call t (policy_restart_prepare session_handle) policy_restart_complete sys_context cmd_auths

unfoldable start_auth_session_prepare :
    (other : OtherTypes)
    → ℕ
    → ℕ
    → Option Tpm2b
    → Option other.Tpm2bEncryptedSecret
    → ℕ
    → Option other.TpmtSymDef
    → ℕ
    → Preparing
start_auth_session_prepare other tpm_key bind nonce_caller encrypted_salt session_type symmetric
      auth_hash sys_context =
    required symmetric sys_context (λ symmetric.
      prepare 0x176
        (arg (word w4) tpm_key
          ∷ arg (word w4) bind
          ∷ optional true tpm2b_digest nonce_caller
          ∷ optional false other.tpm2b_encrypted_secret encrypted_salt
          ∷ arg (word w1) session_type
          ∷ arg other.tpmt_sym_def symmetric
          ∷ arg (word w2) auth_hash
          ∷ [])
        (allowing true true true) sys_context)

unfoldable start_auth_session_complete : Completing (Option ℕ × Option Tpm2b)
start_auth_session_complete = complete (get (word w4) followed_by behind_common (get tpm2b_digest))

unfoldable start_auth_session :
    (other : OtherTypes) (t : Transport)
    → Option SysContext
    → Option (AuthList AuthCommand)
    → ℕ
    → ℕ
    → Option Tpm2b
    → Option other.Tpm2bEncryptedSecret
    → ℕ
    → Option other.TpmtSymDef
    → ℕ
    → Finishing t (Option ℕ × Option Tpm2b)
start_auth_session other t sys_context cmd_auths tpm_key bind nonce_caller encrypted_salt
      session_type symmetric auth_hash =
    one_call t
      (λ ctx. required symmetric ctx (λ _.
        start_auth_session_prepare other tpm_key bind nonce_caller encrypted_salt session_type
          symmetric auth_hash ctx))
      start_auth_session_complete sys_context cmd_auths
