-- ===== src/Sys/Commands/NvMore.antt =====
-- src/tss2-sys/api: Non-volatile storage: locks and reading.
use tpm2_tss_verified.Common.{ℕ, true, false, Option, [], ◌∷◌}
use tpm2_tss_verified.Endian.{w2, w4}
use tpm2_tss_verified.Mu.Tpm2b.{Tpm2b}
use tpm2_tss_verified.Mu.Format.{word}
use tpm2_tss_verified.Mu.Types.{tpm2b_digest, tpm2b_name, tpm2b_max_nv_buffer}
use tpm2_tss_verified.Mu.Buffers.{tpm2b_data}
use tpm2_tss_verified.Sys.{SysContext}
use tpm2_tss_verified.Sys.Execute.{Transport}
use tpm2_tss_verified.Sys.Auths.{AuthCommand, AuthList}
use tpm2_tss_verified.Sys.Command.{
  Preparing, Completing, arg, optional, required, prepare, allowing, get, got_all, ◌followed_by◌,
  behind_common, complete, Finishing, one_call,
}
use tpm2_tss_verified.Sys.Commands.{OtherTypes}

unfoldable nv_certify_prepare :
    (other : OtherTypes) → ℕ → ℕ → ℕ → Option Tpm2b → Option other.TpmtSigScheme → ℕ → ℕ → Preparing
nv_certify_prepare other sign_handle auth_handle nv_index qualifying_data in_scheme size offset
      sys_context =
    required in_scheme sys_context (λ in_scheme.
      prepare 0x184
        (arg (word w4) sign_handle
          ∷ arg (word w4) auth_handle
          ∷ arg (word w4) nv_index
          ∷ optional true tpm2b_data qualifying_data
          ∷ arg other.tpmt_sig_scheme in_scheme
          ∷ arg (word w2) size
          ∷ arg (word w2) offset
          ∷ [])
        (allowing true true true) sys_context)

unfoldable nv_certify_complete :
    (other : OtherTypes) → Completing (Option other.Tpm2bAttest × Option other.TpmtSignature)
nv_certify_complete other =
    complete (behind_common (get other.tpm2b_attest followed_by get other.tpmt_signature))

unfoldable nv_certify :
    (other : OtherTypes) (t : Transport)
    → Option SysContext
    → Option (AuthList AuthCommand)
    → ℕ
    → ℕ
    → ℕ
    → Option Tpm2b
    → Option other.TpmtSigScheme
    → ℕ
    → ℕ
    → Finishing t (Option other.Tpm2bAttest × Option other.TpmtSignature)
nv_certify other t sys_context cmd_auths sign_handle auth_handle nv_index qualifying_data in_scheme
      size offset =
    one_call t
      (λ ctx. required in_scheme ctx (λ _.
        nv_certify_prepare other sign_handle auth_handle nv_index qualifying_data in_scheme size
          offset ctx))
      (nv_certify_complete other) sys_context cmd_auths

unfoldable nv_change_auth_prepare : ℕ → Option Tpm2b → Preparing
nv_change_auth_prepare nv_index new_auth sys_context =
    prepare 0x13b (arg (word w4) nv_index ∷ optional false tpm2b_digest new_auth ∷ [])
      (allowing true false true) sys_context

unfoldable nv_change_auth_complete : Completing (Unit {0})
nv_change_auth_complete = complete (behind_common got_all)

unfoldable nv_change_auth :
    (t : Transport)
    → Option SysContext
    → Option (AuthList AuthCommand)
    → ℕ
    → Option Tpm2b
    → Finishing t (Unit {0})
nv_change_auth t sys_context cmd_auths nv_index new_auth =
    one_call t (nv_change_auth_prepare nv_index new_auth) nv_change_auth_complete sys_context
      cmd_auths

unfoldable nv_global_write_lock_prepare : ℕ → Preparing
nv_global_write_lock_prepare auth_handle sys_context =
    prepare 0x132 (arg (word w4) auth_handle ∷ []) (allowing false false true) sys_context

unfoldable nv_global_write_lock_complete : Completing (Unit {0})
nv_global_write_lock_complete = complete (behind_common got_all)

unfoldable nv_global_write_lock :
    (t : Transport) → Option SysContext → Option (AuthList AuthCommand) → ℕ → Finishing t (Unit {0})
nv_global_write_lock t sys_context cmd_auths auth_handle =
    one_call t (nv_global_write_lock_prepare auth_handle) nv_global_write_lock_complete sys_context
      cmd_auths

unfoldable nv_read_prepare : ℕ → ℕ → ℕ → ℕ → Preparing
nv_read_prepare auth_handle nv_index size offset sys_context =
    prepare 0x14e
      (arg (word w4) auth_handle
        ∷ arg (word w4) nv_index
        ∷ arg (word w2) size
        ∷ arg (word w2) offset
        ∷ [])
      (allowing false true true) sys_context

unfoldable nv_read_complete : Completing (Option Tpm2b)
nv_read_complete = complete (behind_common (get tpm2b_max_nv_buffer))

unfoldable nv_read :
    (t : Transport)
    → Option SysContext
    → Option (AuthList AuthCommand)
    → ℕ
    → ℕ
    → ℕ
    → ℕ
    → Finishing t (Option Tpm2b)
nv_read t sys_context cmd_auths auth_handle nv_index size offset =
    one_call t (nv_read_prepare auth_handle nv_index size offset) nv_read_complete sys_context
      cmd_auths

unfoldable nv_read_lock_prepare : ℕ → ℕ → Preparing
nv_read_lock_prepare auth_handle nv_index sys_context =
    prepare 0x14f (arg (word w4) auth_handle ∷ arg (word w4) nv_index ∷ [])
      (allowing false false true) sys_context

unfoldable nv_read_lock_complete : Completing (Unit {0})
nv_read_lock_complete = complete (behind_common got_all)

unfoldable nv_read_lock :
    (t : Transport)
    → Option SysContext
    → Option (AuthList AuthCommand)
    → ℕ
    → ℕ
    → Finishing t (Unit {0})
nv_read_lock t sys_context cmd_auths auth_handle nv_index =
    one_call t (nv_read_lock_prepare auth_handle nv_index) nv_read_lock_complete sys_context
      cmd_auths

unfoldable nv_read_public_prepare : ℕ → Preparing
nv_read_public_prepare nv_index sys_context =
    prepare 0x169 (arg (word w4) nv_index ∷ []) (allowing false true true) sys_context

unfoldable nv_read_public_complete :
    (other : OtherTypes) → Completing (Option other.Tpm2bNvPublic × Option Tpm2b)
nv_read_public_complete other =
    complete (behind_common (get other.tpm2b_nv_public followed_by get tpm2b_name))

unfoldable nv_read_public :
    (other : OtherTypes) (t : Transport)
    → Option SysContext
    → Option (AuthList AuthCommand)
    → ℕ
    → Finishing t (Option other.Tpm2bNvPublic × Option Tpm2b)
nv_read_public other t sys_context cmd_auths nv_index =
    one_call t (nv_read_public_prepare nv_index) (nv_read_public_complete other) sys_context
      cmd_auths

unfoldable nv_write_lock_prepare : ℕ → ℕ → Preparing
nv_write_lock_prepare auth_handle nv_index sys_context =
    prepare 0x138 (arg (word w4) auth_handle ∷ arg (word w4) nv_index ∷ [])
      (allowing false false true) sys_context

unfoldable nv_write_lock_complete : Completing (Unit {0})
nv_write_lock_complete = complete (behind_common got_all)

unfoldable nv_write_lock :
    (t : Transport)
    → Option SysContext
    → Option (AuthList AuthCommand)
    → ℕ
    → ℕ
    → Finishing t (Unit {0})
nv_write_lock t sys_context cmd_auths auth_handle nv_index =
    one_call t (nv_write_lock_prepare auth_handle nv_index) nv_write_lock_complete sys_context
      cmd_auths
