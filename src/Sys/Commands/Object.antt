-- ===== src/Sys/Commands/Object.antt =====
-- src/tss2-sys/api: Objects.
use tpm2_tss_verified.Common.{ℕ, true, false, Option, [], ◌∷◌}
use tpm2_tss_verified.Endian.{w4}
use tpm2_tss_verified.Mu.Tpm2b.{Tpm2b}
use tpm2_tss_verified.Mu.Format.{word}
use tpm2_tss_verified.Mu.Types.{tpm2b_digest, tpm2b_name}
use tpm2_tss_verified.Mu.Buffers.{tpm2b_data}
use tpm2_tss_verified.Sys.{SysContext}
use tpm2_tss_verified.Sys.Execute.{Transport}
use tpm2_tss_verified.Sys.Auths.{AuthCommand, AuthList}
use tpm2_tss_verified.Sys.Command.{
  Preparing, Completing, arg, optional, required, prepare, allowing, get, ◌followed_by◌,
  behind_common, complete, Finishing, one_call,
}
use tpm2_tss_verified.Sys.Commands.{OtherTypes}

unfoldable create_prepare :
    (other : OtherTypes)
    → ℕ
    → Option other.Tpm2bSensitiveCreate
    → Option other.Tpm2bPublic
    → Option Tpm2b
    → Option other.TpmlPcrSelection
    → Preparing
create_prepare other parent_handle in_sensitive in_public outside_info creation_pcr sys_context =
    required creation_pcr sys_context (λ creation_pcr.
      prepare 0x153
        (arg (word w4) parent_handle
          ∷ optional true other.tpm2b_sensitive_create in_sensitive
          ∷ optional false other.tpm2b_public in_public
          ∷ optional false tpm2b_data outside_info
          ∷ arg other.tpml_pcr_selection creation_pcr
          ∷ [])
        (allowing true true true) sys_context)

unfoldable create_complete :
    (other : OtherTypes)
    → Completing (
        Option other.Tpm2bPrivate
        × (Option other.Tpm2bPublic
            × (Option other.Tpm2bCreationData × (Option Tpm2b × Option other.TpmtTkCreation))))
create_complete other = complete (
    behind_common (
      get other.tpm2b_private
      followed_by get other.tpm2b_public
      followed_by get other.tpm2b_creation_data
      followed_by get tpm2b_digest
      followed_by get other.tpmt_tk_creation))

unfoldable create :
    (other : OtherTypes) (t : Transport)
    → Option SysContext
    → Option (AuthList AuthCommand)
    → ℕ
    → Option other.Tpm2bSensitiveCreate
    → Option other.Tpm2bPublic
    → Option Tpm2b
    → Option other.TpmlPcrSelection
    → Finishing t (
        Option other.Tpm2bPrivate
        × (Option other.Tpm2bPublic
            × (Option other.Tpm2bCreationData × (Option Tpm2b × Option other.TpmtTkCreation))))
create other t sys_context cmd_auths parent_handle in_sensitive in_public outside_info
      creation_pcr =
    one_call t
      (λ ctx. required creation_pcr ctx (λ _.
        create_prepare other parent_handle in_sensitive in_public outside_info creation_pcr ctx))
      (create_complete other) sys_context cmd_auths

unfoldable create_loaded_prepare :
    (other : OtherTypes)
    → ℕ
    → Option other.Tpm2bSensitiveCreate
    → Option other.Tpm2bTemplate
    → Preparing
create_loaded_prepare other parent_handle in_sensitive in_public sys_context =
    required in_public sys_context (λ in_public.
      prepare 0x191
        (arg (word w4) parent_handle
          ∷ optional true other.tpm2b_sensitive_create in_sensitive
          ∷ arg other.tpm2b_template in_public
          ∷ [])
        (allowing true true true) sys_context)

unfoldable create_loaded_complete :
    (other : OtherTypes)
    → Completing
        (Option ℕ × (Option other.Tpm2bPrivate × (Option other.Tpm2bPublic × Option Tpm2b)))
create_loaded_complete other = complete (
    get (word w4)
    followed_by behind_common
        (get other.tpm2b_private followed_by get other.tpm2b_public followed_by get tpm2b_name))

unfoldable load_prepare :
    (other : OtherTypes) → ℕ → Option other.Tpm2bPrivate → Option other.Tpm2bPublic → Preparing
load_prepare other parent_handle in_private in_public sys_context =
    prepare 0x157
      (arg (word w4) parent_handle
        ∷ optional true other.tpm2b_private in_private
        ∷ optional false other.tpm2b_public in_public
        ∷ [])
      (allowing true true true) sys_context

unfoldable pub load_complete : Completing (Option ℕ × Option Tpm2b)
load_complete = complete (get (word w4) followed_by behind_common (get tpm2b_name))

unfoldable load :
    (other : OtherTypes) (t : Transport)
    → Option SysContext
    → Option (AuthList AuthCommand)
    → ℕ
    → Option other.Tpm2bPrivate
    → Option other.Tpm2bPublic
    → Finishing t (Option ℕ × Option Tpm2b)
load other t sys_context cmd_auths parent_handle in_private in_public =
    one_call t (load_prepare other parent_handle in_private in_public) load_complete sys_context
      cmd_auths

unfoldable load_external_prepare :
    (other : OtherTypes) → Option other.Tpm2bSensitive → Option other.Tpm2bPublic → ℕ → Preparing
load_external_prepare other in_private in_public hierarchy sys_context =
    prepare 0x167
      (optional true other.tpm2b_sensitive in_private
        ∷ optional false other.tpm2b_public in_public
        ∷ arg (word w4) hierarchy
        ∷ [])
      (allowing true true true) sys_context

unfoldable load_external_complete : Completing (Option ℕ × Option Tpm2b)
load_external_complete = complete (get (word w4) followed_by behind_common (get tpm2b_name))

unfoldable load_external :
    (other : OtherTypes) (t : Transport)
    → Option SysContext
    → Option (AuthList AuthCommand)
    → Option other.Tpm2bSensitive
    → Option other.Tpm2bPublic
    → ℕ
    → Finishing t (Option ℕ × Option Tpm2b)
load_external other t sys_context cmd_auths in_private in_public hierarchy =
    one_call t (load_external_prepare other in_private in_public hierarchy) load_external_complete
      sys_context cmd_auths

unfoldable object_change_auth_prepare : ℕ → ℕ → Option Tpm2b → Preparing
object_change_auth_prepare object_handle parent_handle new_auth sys_context =
    prepare 0x150
      (arg (word w4) object_handle
        ∷ arg (word w4) parent_handle
        ∷ optional false tpm2b_digest new_auth
        ∷ [])
      (allowing true true true) sys_context

unfoldable object_change_auth_complete :
    (other : OtherTypes) → Completing (Option other.Tpm2bPrivate)
object_change_auth_complete other = complete (behind_common (get other.tpm2b_private))

unfoldable object_change_auth :
    (other : OtherTypes) (t : Transport)
    → Option SysContext
    → Option (AuthList AuthCommand)
    → ℕ
    → ℕ
    → Option Tpm2b
    → Finishing t (Option other.Tpm2bPrivate)
object_change_auth other t sys_context cmd_auths object_handle parent_handle new_auth =
    one_call t (object_change_auth_prepare object_handle parent_handle new_auth)
      (object_change_auth_complete other) sys_context cmd_auths

unfoldable read_public_prepare : ℕ → Preparing
read_public_prepare object_handle sys_context =
    prepare 0x173 (arg (word w4) object_handle ∷ []) (allowing false true true) sys_context

unfoldable read_public_complete :
    (other : OtherTypes) → Completing (Option other.Tpm2bPublic × (Option Tpm2b × Option Tpm2b))
read_public_complete other =
    complete
      (behind_common (get other.tpm2b_public followed_by get tpm2b_name followed_by get tpm2b_name))

unfoldable read_public :
    (other : OtherTypes) (t : Transport)
    → Option SysContext
    → Option (AuthList AuthCommand)
    → ℕ
    → Finishing t (Option other.Tpm2bPublic × (Option Tpm2b × Option Tpm2b))
read_public other t sys_context cmd_auths object_handle =
    one_call t (read_public_prepare object_handle) (read_public_complete other) sys_context
      cmd_auths
