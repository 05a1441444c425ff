-- ===== src/Sys/Commands/Symmetric.antt =====
-- src/tss2-sys/api: Symmetric primitives and random numbers.
use tpm2_tss_verified.Common.{ℕ, true, false, Option, [], ◌∷◌}
use tpm2_tss_verified.Endian.{w1, w2, w4}
use tpm2_tss_verified.Mu.Tpm2b.{Tpm2b}
use tpm2_tss_verified.Mu.Format.{word}
use tpm2_tss_verified.Mu.Types.{tpm2b_digest, tpm2b_sensitive_data}
use tpm2_tss_verified.Mu.Buffers.{tpm2b_max_buffer, tpm2b_iv}
use tpm2_tss_verified.Sys.{SysContext}
use tpm2_tss_verified.Sys.Execute.{Transport}
use tpm2_tss_verified.Sys.Auths.{AuthCommand, AuthList}
use tpm2_tss_verified.Sys.Command.{
  Preparing, Completing, arg, optional, prepare, allowing, get, got_all, ◌followed_by◌,
  behind_common, complete, Finishing, one_call,
}
use tpm2_tss_verified.Sys.Commands.{OtherTypes}

unfoldable encrypt_decrypt_prepare : ℕ → ℕ → ℕ → Option Tpm2b → Option Tpm2b → Preparing
encrypt_decrypt_prepare key_handle decrypt mode iv_in in_data sys_context =
    prepare 0x164
      (arg (word w4) key_handle
        ∷ arg (word w1) decrypt
        ∷ arg (word w2) mode
        ∷ optional false tpm2b_iv iv_in
        ∷ optional false tpm2b_max_buffer in_data
        ∷ [])
      (allowing true true true) sys_context

unfoldable encrypt_decrypt_complete : Completing (Option Tpm2b × Option Tpm2b)
encrypt_decrypt_complete = complete (behind_common (get tpm2b_max_buffer followed_by get tpm2b_iv))

unfoldable encrypt_decrypt :
    (t : Transport)
    → Option SysContext
    → Option (AuthList AuthCommand)
    → ℕ
    → ℕ
    → ℕ
    → Option Tpm2b
    → Option Tpm2b
    → Finishing t (Option Tpm2b × Option Tpm2b)
encrypt_decrypt t sys_context cmd_auths key_handle decrypt mode iv_in in_data =
    one_call t (encrypt_decrypt_prepare key_handle decrypt mode iv_in in_data)
      encrypt_decrypt_complete sys_context cmd_auths

unfoldable encrypt_decrypt2_prepare : ℕ → Option Tpm2b → ℕ → ℕ → Option Tpm2b → Preparing
encrypt_decrypt2_prepare key_handle in_data decrypt mode iv_in sys_context =
    prepare 0x193
      (arg (word w4) key_handle
        ∷ optional false tpm2b_max_buffer in_data
        ∷ arg (word w1) decrypt
        ∷ arg (word w2) mode
        ∷ optional false tpm2b_iv iv_in
        ∷ [])
      (allowing true true true) sys_context

unfoldable encrypt_decrypt2_complete : Completing (Option Tpm2b × Option Tpm2b)
encrypt_decrypt2_complete = complete (behind_common (get tpm2b_max_buffer followed_by get tpm2b_iv))

unfoldable encrypt_decrypt2 :
    (t : Transport)
    → Option SysContext
    → Option (AuthList AuthCommand)
    → ℕ
    → Option Tpm2b
    → ℕ
    → ℕ
    → Option Tpm2b
    → Finishing t (Option Tpm2b × Option Tpm2b)
encrypt_decrypt2 t sys_context cmd_auths key_handle in_data decrypt mode iv_in =
    one_call t (encrypt_decrypt2_prepare key_handle in_data decrypt mode iv_in)
      encrypt_decrypt2_complete sys_context cmd_auths

unfoldable event_sequence_complete_prepare : ℕ → ℕ → Option Tpm2b → Preparing
event_sequence_complete_prepare pcr_handle sequence_handle buffer sys_context =
    prepare 0x185
      (arg (word w4) pcr_handle
        ∷ arg (word w4) sequence_handle
        ∷ optional false tpm2b_max_buffer buffer
        ∷ [])
      (allowing true false true) sys_context

unfoldable event_sequence_complete_complete :
    (other : OtherTypes) → Completing (Option other.TpmlDigestValues)
event_sequence_complete_complete other = complete (behind_common (get other.tpml_digest_values))

unfoldable event_sequence_complete :
    (other : OtherTypes) (t : Transport)
    → Option SysContext
    → Option (AuthList AuthCommand)
    → ℕ
    → ℕ
    → Option Tpm2b
    → Finishing t (Option other.TpmlDigestValues)
event_sequence_complete other t sys_context cmd_auths pcr_handle sequence_handle buffer =
    one_call t (event_sequence_complete_prepare pcr_handle sequence_handle buffer)
      (event_sequence_complete_complete other) sys_context cmd_auths

unfoldable pub get_random_prepare : ℕ → Preparing
get_random_prepare bytes_requested sys_context =
    prepare 0x17b (arg (word w2) bytes_requested ∷ []) (allowing false true true) sys_context

unfoldable pub get_random_complete : Completing (Option Tpm2b)
get_random_complete = complete (behind_common (get tpm2b_digest))

unfoldable pub get_random :
    (t : Transport)
    → Option SysContext
    → Option (AuthList AuthCommand)
    → ℕ
    → Finishing t (Option Tpm2b)
get_random t sys_context cmd_auths bytes_requested =
    one_call t (get_random_prepare bytes_requested) get_random_complete sys_context cmd_auths

unfoldable sequence_complete_prepare : ℕ → Option Tpm2b → ℕ → Preparing
sequence_complete_prepare sequence_handle buffer hierarchy sys_context =
    prepare 0x13e
      (arg (word w4) sequence_handle
        ∷ optional true tpm2b_max_buffer buffer
        ∷ arg (word w4) hierarchy
        ∷ [])
      (allowing true true true) sys_context

unfoldable sequence_complete_complete :
    (other : OtherTypes) → Completing (Option Tpm2b × Option other.TpmtTkHashcheck)
sequence_complete_complete other =
    complete (behind_common (get tpm2b_digest followed_by get other.tpmt_tk_hashcheck))

unfoldable sequence_complete :
    (other : OtherTypes) (t : Transport)
    → Option SysContext
    → Option (AuthList AuthCommand)
    → ℕ
    → Option Tpm2b
    → ℕ
    → Finishing t (Option Tpm2b × Option other.TpmtTkHashcheck)
sequence_complete other t sys_context cmd_auths sequence_handle buffer hierarchy =
    one_call t (sequence_complete_prepare sequence_handle buffer hierarchy)
      (sequence_complete_complete other) sys_context cmd_auths

unfoldable stir_random_prepare : Option Tpm2b → Preparing
stir_random_prepare in_data sys_context =
    prepare 0x146 (optional false tpm2b_sensitive_data in_data ∷ []) (allowing true false true)
      sys_context

unfoldable stir_random_complete : Completing (Unit {0})
stir_random_complete = complete (behind_common got_all)

unfoldable stir_random :
    (t : Transport)
    → Option SysContext
    → Option (AuthList AuthCommand)
    → Option Tpm2b
    → Finishing t (Unit {0})
stir_random t sys_context cmd_auths in_data =
    one_call t (stir_random_prepare in_data) stir_random_complete sys_context cmd_auths
