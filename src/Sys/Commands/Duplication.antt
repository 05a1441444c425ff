-- ===== src/Sys/Commands/Duplication.antt =====
-- src/tss2-sys/api: Duplication of objects.
use tpm2_tss_verified.Common.{ℕ, true, false, Option, [], ◌∷◌}
use tpm2_tss_verified.Endian.{w4}
use tpm2_tss_verified.Mu.Tpm2b.{Tpm2b}
use tpm2_tss_verified.Mu.Format.{word}
use tpm2_tss_verified.Mu.Types.{tpm2b_name}
use tpm2_tss_verified.Mu.Buffers.{tpm2b_data}
use tpm2_tss_verified.Sys.{SysContext}
use tpm2_tss_verified.Sys.Execute.{Transport}
use tpm2_tss_verified.Sys.Auths.{AuthCommand, AuthList}
use tpm2_tss_verified.Sys.Command.{
  Preparing, Completing, arg, optional, required, prepare, allowing, get, ◌followed_by◌,
  behind_common, complete, Finishing, one_call,
}
use tpm2_tss_verified.Sys.Commands.{OtherTypes}

unfoldable duplicate_prepare :
    (other : OtherTypes) → ℕ → ℕ → Option Tpm2b → Option other.TpmtSymDefObject → Preparing
duplicate_prepare other object_handle new_parent_handle encryption_key_in symmetric_alg
      sys_context =
    required symmetric_alg sys_context (λ symmetric_alg.
      prepare 0x14b
        (arg (word w4) object_handle
          ∷ arg (word w4) new_parent_handle
          ∷ optional true tpm2b_data encryption_key_in
          ∷ arg other.tpmt_sym_def_object symmetric_alg
          ∷ [])
        (allowing true true true) sys_context)

unfoldable duplicate_complete :
    (other : OtherTypes)
    → Completing (Option Tpm2b × (Option other.Tpm2bPrivate × Option other.Tpm2bEncryptedSecret))
duplicate_complete other = complete (
    behind_common (
      get tpm2b_data
      followed_by get other.tpm2b_private
      followed_by get other.tpm2b_encrypted_secret))

unfoldable duplicate :
    (other : OtherTypes) (t : Transport)
    → Option SysContext
    → Option (AuthList AuthCommand)
    → ℕ
    → ℕ
    → Option Tpm2b
    → Option other.TpmtSymDefObject
    → Finishing t (Option Tpm2b × (Option other.Tpm2bPrivate × Option other.Tpm2bEncryptedSecret))
duplicate other t sys_context cmd_auths object_handle new_parent_handle encryption_key_in
      symmetric_alg =
    one_call t
      (λ ctx. required symmetric_alg ctx (λ _.
        duplicate_prepare other object_handle new_parent_handle encryption_key_in symmetric_alg
          ctx))
      (duplicate_complete other) sys_context cmd_auths

unfoldable import_object_prepare :
    (other : OtherTypes)
    → ℕ
    → Option Tpm2b
    → Option other.Tpm2bPublic
    → Option other.Tpm2bPrivate
    → Option other.Tpm2bEncryptedSecret
    → Option other.TpmtSymDefObject
    → Preparing
import_object_prepare other parent_handle encryption_key object_public duplicate in_sym_seed
      symmetric_alg sys_context =
    required symmetric_alg sys_context (λ symmetric_alg.
      prepare 0x156
        (arg (word w4) parent_handle
          ∷ optional true tpm2b_data encryption_key
          ∷ optional false other.tpm2b_public object_public
          ∷ optional false other.tpm2b_private duplicate
          ∷ optional false other.tpm2b_encrypted_secret in_sym_seed
          ∷ arg other.tpmt_sym_def_object symmetric_alg
          ∷ [])
        (allowing true true true) sys_context)

unfoldable import_object_complete : (other : OtherTypes) → Completing (Option other.Tpm2bPrivate)
import_object_complete other = complete (behind_common (get other.tpm2b_private))

unfoldable import_object :
    (other : OtherTypes) (t : Transport)
    → Option SysContext
    → Option (AuthList AuthCommand)
    → ℕ
    → Option Tpm2b
    → Option other.Tpm2bPublic
    → Option other.Tpm2bPrivate
    → Option other.Tpm2bEncryptedSecret
    → Option other.TpmtSymDefObject
    → Finishing t (Option other.Tpm2bPrivate)
import_object other t sys_context cmd_auths parent_handle encryption_key object_public duplicate
      in_sym_seed symmetric_alg =
    one_call t
      (λ ctx. required symmetric_alg ctx (λ _.
        import_object_prepare other parent_handle encryption_key object_public duplicate in_sym_seed
          symmetric_alg ctx))
      (import_object_complete other) sys_context cmd_auths

unfoldable rewrap_prepare :
    (other : OtherTypes)
    → ℕ
    → ℕ
    → Option other.Tpm2bPrivate
    → Option Tpm2b
    → Option other.Tpm2bEncryptedSecret
    → Preparing
rewrap_prepare other old_parent new_parent in_duplicate name in_sym_seed sys_context =
    prepare 0x152
      (arg (word w4) old_parent
        ∷ arg (word w4) new_parent
        ∷ optional true other.tpm2b_private in_duplicate
        ∷ optional false tpm2b_name name
        ∷ optional false other.tpm2b_encrypted_secret in_sym_seed
        ∷ [])
      (allowing true true true) sys_context

unfoldable rewrap_complete :
    (other : OtherTypes)
    → Completing (Option other.Tpm2bPrivate × Option other.Tpm2bEncryptedSecret)
rewrap_complete other =
    complete (behind_common (get other.tpm2b_private followed_by get other.tpm2b_encrypted_secret))

unfoldable rewrap :
    (other : OtherTypes) (t : Transport)
    → Option SysContext
    → Option (AuthList AuthCommand)
    → ℕ
    → ℕ
    → Option other.Tpm2bPrivate
    → Option Tpm2b
    → Option other.Tpm2bEncryptedSecret
    → Finishing t (Option other.Tpm2bPrivate × Option other.Tpm2bEncryptedSecret)
rewrap other t sys_context cmd_auths old_parent new_parent in_duplicate name in_sym_seed =
    one_call t (rewrap_prepare other old_parent new_parent in_duplicate name in_sym_seed)
      (rewrap_complete other) sys_context cmd_auths
