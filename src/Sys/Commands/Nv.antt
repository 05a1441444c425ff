-- ===== src/Sys/Commands/Nv.antt =====
-- src/tss2-sys/api: Non-volatile storage: definition and writing.
use tpm2_tss_verified.Common.{ℕ, true, false, Option, [], ◌∷◌}
use tpm2_tss_verified.Endian.{w2, w4, w8}
use tpm2_tss_verified.Mu.Tpm2b.{Tpm2b}
use tpm2_tss_verified.Mu.Format.{word}
use tpm2_tss_verified.Mu.Types.{tpm2b_digest, tpm2b_max_nv_buffer}
use tpm2_tss_verified.Sys.{SysContext}
use tpm2_tss_verified.Sys.Execute.{Transport}
use tpm2_tss_verified.Sys.Auths.{AuthCommand, AuthList}
use tpm2_tss_verified.Sys.Command.{
  Preparing, Completing, arg, optional, prepare, allowing, got_all, behind_common, complete,
  Finishing, one_call,
}
use tpm2_tss_verified.Sys.Commands.{OtherTypes}

unfoldable nv_define_space_prepare :
    (other : OtherTypes) → ℕ → Option Tpm2b → Option other.Tpm2bNvPublic → Preparing
nv_define_space_prepare other auth_handle auth public_info sys_context =
    prepare 0x12a
      (arg (word w4) auth_handle
        ∷ optional true tpm2b_digest auth
        ∷ optional false other.tpm2b_nv_public public_info
        ∷ [])
      (allowing true false true) sys_context

unfoldable nv_define_space_complete : Completing (Unit {0})
nv_define_space_complete = complete (behind_common got_all)

unfoldable nv_define_space :
    (other : OtherTypes) (t : Transport)
    → Option SysContext
    → Option (AuthList AuthCommand)
    → ℕ
    → Option Tpm2b
    → Option other.Tpm2bNvPublic
    → Finishing t (Unit {0})
nv_define_space other t sys_context cmd_auths auth_handle auth public_info =
    one_call t (nv_define_space_prepare other auth_handle auth public_info) nv_define_space_complete
      sys_context cmd_auths

unfoldable nv_extend_prepare : ℕ → ℕ → Option Tpm2b → Preparing
nv_extend_prepare auth_handle nv_index data_value sys_context =
    prepare 0x136
      (arg (word w4) auth_handle
        ∷ arg (word w4) nv_index
        ∷ optional false tpm2b_max_nv_buffer data_value
        ∷ [])
      (allowing true false true) sys_context

unfoldable nv_extend_complete : Completing (Unit {0})
nv_extend_complete = complete (behind_common got_all)

unfoldable nv_extend :
    (t : Transport)
    → Option SysContext
    → Option (AuthList AuthCommand)
    → ℕ
    → ℕ
    → Option Tpm2b
    → Finishing t (Unit {0})
nv_extend t sys_context cmd_auths auth_handle nv_index data_value =
    one_call t (nv_extend_prepare auth_handle nv_index data_value) nv_extend_complete sys_context
      cmd_auths

unfoldable nv_increment_prepare : ℕ → ℕ → Preparing
nv_increment_prepare auth_handle nv_index sys_context =
    prepare 0x134 (arg (word w4) auth_handle ∷ arg (word w4) nv_index ∷ [])
      (allowing false false true) sys_context

unfoldable nv_increment_complete : Completing (Unit {0})
nv_increment_complete = complete (behind_common got_all)

unfoldable nv_increment :
    (t : Transport)
    → Option SysContext
    → Option (AuthList AuthCommand)
    → ℕ
    → ℕ
    → Finishing t (Unit {0})
nv_increment t sys_context cmd_auths auth_handle nv_index =
    one_call t (nv_increment_prepare auth_handle nv_index) nv_increment_complete sys_context
      cmd_auths

unfoldable nv_set_bits_prepare : ℕ → ℕ → ℕ → Preparing
nv_set_bits_prepare auth_handle nv_index bits sys_context =
    prepare 0x135 (arg (word w4) auth_handle ∷ arg (word w4) nv_index ∷ arg (word w8) bits ∷ [])
      (allowing false false true) sys_context

unfoldable nv_set_bits_complete : Completing (Unit {0})
nv_set_bits_complete = complete (behind_common got_all)

unfoldable nv_set_bits :
    (t : Transport)
    → Option SysContext
    → Option (AuthList AuthCommand)
    → ℕ
    → ℕ
    → ℕ
    → Finishing t (Unit {0})
nv_set_bits t sys_context cmd_auths auth_handle nv_index bits =
    one_call t (nv_set_bits_prepare auth_handle nv_index bits) nv_set_bits_complete sys_context
      cmd_auths

unfoldable nv_undefine_space_prepare : ℕ → ℕ → Preparing
nv_undefine_space_prepare auth_handle nv_index sys_context =
    prepare 0x122 (arg (word w4) auth_handle ∷ arg (word w4) nv_index ∷ [])
      (allowing false false true) sys_context

unfoldable nv_undefine_space_complete : Completing (Unit {0})
nv_undefine_space_complete = complete (behind_common got_all)

unfoldable nv_undefine_space :
    (t : Transport)
    → Option SysContext
    → Option (AuthList AuthCommand)
    → ℕ
    → ℕ
    → Finishing t (Unit {0})
nv_undefine_space t sys_context cmd_auths auth_handle nv_index =
    one_call t (nv_undefine_space_prepare auth_handle nv_index) nv_undefine_space_complete
      sys_context cmd_auths

unfoldable nv_undefine_space_special_prepare : ℕ → ℕ → Preparing
nv_undefine_space_special_prepare nv_index platform sys_context =
    prepare 0x11f (arg (word w4) nv_index ∷ arg (word w4) platform ∷ []) (allowing false false true)
      sys_context

unfoldable nv_undefine_space_special_complete : Completing (Unit {0})
nv_undefine_space_special_complete = complete (behind_common got_all)

unfoldable nv_undefine_space_special :
    (t : Transport)
    → Option SysContext
    → Option (AuthList AuthCommand)
    → ℕ
    → ℕ
    → Finishing t (Unit {0})
nv_undefine_space_special t sys_context cmd_auths nv_index platform =
    one_call t (nv_undefine_space_special_prepare nv_index platform)
      nv_undefine_space_special_complete sys_context cmd_auths

unfoldable nv_write_prepare : ℕ → ℕ → Option Tpm2b → ℕ → Preparing
nv_write_prepare auth_handle nv_index data_value offset sys_context =
    prepare 0x137
      (arg (word w4) auth_handle
        ∷ arg (word w4) nv_index
        ∷ optional true tpm2b_max_nv_buffer data_value
        ∷ arg (word w2) offset
        ∷ [])
      (allowing true false true) sys_context

unfoldable nv_write_complete : Completing (Unit {0})
nv_write_complete = complete (behind_common got_all)

unfoldable nv_write :
    (t : Transport)
    → Option SysContext
    → Option (AuthList AuthCommand)
    → ℕ
    → ℕ
    → Option Tpm2b
    → ℕ
    → Finishing t (Unit {0})
nv_write t sys_context cmd_auths auth_handle nv_index data_value offset =
    one_call t (nv_write_prepare auth_handle nv_index data_value offset) nv_write_complete
      sys_context cmd_auths
