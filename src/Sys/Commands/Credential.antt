-- ===== src/Sys/Commands/Credential.antt =====
-- src/tss2-sys/api: Credentials and sealed data.
use tpm2_tss_verified.Common.{ℕ, true, false, Option, [], ◌∷◌}
use tpm2_tss_verified.Endian.{w4}
use tpm2_tss_verified.Mu.Tpm2b.{Tpm2b}
use tpm2_tss_verified.Mu.Format.{word}
use tpm2_tss_verified.Mu.Types.{tpm2b_digest, tpm2b_name, tpm2b_sensitive_data}
use tpm2_tss_verified.Sys.{SysContext}
use tpm2_tss_verified.Sys.Execute.{Transport}
use tpm2_tss_verified.Sys.Auths.{AuthCommand, AuthList}
use tpm2_tss_verified.Sys.Command.{
  Preparing, Completing, arg, optional, prepare, allowing, get, ◌followed_by◌, behind_common,
  complete, Finishing, one_call,
}
use tpm2_tss_verified.Sys.Commands.{OtherTypes}

unfoldable activate_credential_prepare :
    (other : OtherTypes)
    → ℕ
    → ℕ
    → Option other.Tpm2bIdObject
    → Option other.Tpm2bEncryptedSecret
    → Preparing
activate_credential_prepare other activate_handle key_handle credential_blob secret sys_context =
    prepare 0x147
      (arg (word w4) activate_handle
        ∷ arg (word w4) key_handle
        ∷ optional true other.tpm2b_id_object credential_blob
        ∷ optional false other.tpm2b_encrypted_secret secret
        ∷ [])
      (allowing true true true) sys_context

unfoldable activate_credential_complete : Completing (Option Tpm2b)
activate_credential_complete = complete (behind_common (get tpm2b_digest))

unfoldable activate_credential :
    (other : OtherTypes) (t : Transport)
    → Option SysContext
    → Option (AuthList AuthCommand)
    → ℕ
    → ℕ
    → Option other.Tpm2bIdObject
    → Option other.Tpm2bEncryptedSecret
    → Finishing t (Option Tpm2b)
activate_credential other t sys_context cmd_auths activate_handle key_handle credential_blob
      secret =
    one_call t (activate_credential_prepare other activate_handle key_handle credential_blob secret)
      activate_credential_complete sys_context cmd_auths

unfoldable make_credential_prepare : ℕ → Option Tpm2b → Option Tpm2b → Preparing
make_credential_prepare handle credential object_name sys_context =
    prepare 0x168
      (arg (word w4) handle
        ∷ optional true tpm2b_digest credential
        ∷ optional false tpm2b_name object_name
        ∷ [])
      (allowing true true true) sys_context

unfoldable make_credential_complete :
    (other : OtherTypes)
    → Completing (Option other.Tpm2bIdObject × Option other.Tpm2bEncryptedSecret)
make_credential_complete other =
    complete
      (behind_common (get other.tpm2b_id_object followed_by get other.tpm2b_encrypted_secret))

unfoldable make_credential :
    (other : OtherTypes) (t : Transport)
    → Option SysContext
    → Option (AuthList AuthCommand)
    → ℕ
    → Option Tpm2b
    → Option Tpm2b
    → Finishing t (Option other.Tpm2bIdObject × Option other.Tpm2bEncryptedSecret)
make_credential other t sys_context cmd_auths handle credential object_name =
    one_call t (make_credential_prepare handle credential object_name)
      (make_credential_complete other) sys_context cmd_auths

unfoldable unseal_prepare : ℕ → Preparing
unseal_prepare item_handle sys_context =
    prepare 0x15e (arg (word w4) item_handle ∷ []) (allowing false true true) sys_context

unfoldable unseal_complete : Completing (Option Tpm2b)
unseal_complete = complete (behind_common (get tpm2b_sensitive_data))

unfoldable unseal :
    (t : Transport)
    → Option SysContext
    → Option (AuthList AuthCommand)
    → ℕ
    → Finishing t (Option Tpm2b)
unseal t sys_context cmd_auths item_handle =
    one_call t (unseal_prepare item_handle) unseal_complete sys_context cmd_auths
