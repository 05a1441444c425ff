-- ===== src/Sys/Commands/Pcr.antt =====
-- src/tss2-sys/api: Platform configuration registers.
use tpm2_tss_verified.Common.{ℕ, true, false, Option, [], ◌∷◌}
use tpm2_tss_verified.Endian.{w1, w2, w4}
use tpm2_tss_verified.Mu.Tpm2b.{Tpm2b}
use tpm2_tss_verified.Mu.Tpml.{Tpml}
use tpm2_tss_verified.Mu.Format.{word}
use tpm2_tss_verified.Mu.Types.{tpm2b_digest, tpml_digest}
use tpm2_tss_verified.Mu.Buffers.{tpm2b_event}
use tpm2_tss_verified.Sys.{SysContext}
use tpm2_tss_verified.Sys.Execute.{Transport}
use tpm2_tss_verified.Sys.Auths.{AuthCommand, AuthList}
use tpm2_tss_verified.Sys.Command.{
  Preparing, Completing, arg, optional, required, prepare, allowing, get, got_all, ◌followed_by◌,
  behind_common, complete, Finishing, one_call,
}
use tpm2_tss_verified.Sys.Commands.{OtherTypes}

unfoldable pcr_allocate_prepare :
    (other : OtherTypes) → ℕ → Option other.TpmlPcrSelection → Preparing
pcr_allocate_prepare other auth_handle pcr_allocation sys_context =
    required pcr_allocation sys_context (λ pcr_allocation.
      prepare 0x12b (arg (word w4) auth_handle ∷ arg other.tpml_pcr_selection pcr_allocation ∷ [])
        (allowing false false true) sys_context)

unfoldable pcr_allocate_complete : Completing (Option ℕ × (Option ℕ × (Option ℕ × Option ℕ)))
pcr_allocate_complete = complete (
    behind_common
      (get (word w1) followed_by get (word w4) followed_by get (word w4) followed_by get (word w4)))

unfoldable pcr_allocate :
    (other : OtherTypes) (t : Transport)
    → Option SysContext
    → Option (AuthList AuthCommand)
    → ℕ
    → Option other.TpmlPcrSelection
    → Finishing t (Option ℕ × (Option ℕ × (Option ℕ × Option ℕ)))
pcr_allocate other t sys_context cmd_auths auth_handle pcr_allocation =
    one_call t
      (λ ctx.
        required pcr_allocation ctx
          (λ _. pcr_allocate_prepare other auth_handle pcr_allocation ctx))
      pcr_allocate_complete sys_context cmd_auths

unfoldable pcr_event_prepare : ℕ → Option Tpm2b → Preparing
pcr_event_prepare pcr_handle event_data sys_context =
    prepare 0x13c (arg (word w4) pcr_handle ∷ optional false tpm2b_event event_data ∷ [])
      (allowing true false true) sys_context

unfoldable pcr_event_complete : (other : OtherTypes) → Completing (Option other.TpmlDigestValues)
pcr_event_complete other = complete (behind_common (get other.tpml_digest_values))

unfoldable pcr_event :
    (other : OtherTypes) (t : Transport)
    → Option SysContext
    → Option (AuthList AuthCommand)
    → ℕ
    → Option Tpm2b
    → Finishing t (Option other.TpmlDigestValues)
pcr_event other t sys_context cmd_auths pcr_handle event_data =
    one_call t (pcr_event_prepare pcr_handle event_data) (pcr_event_complete other) sys_context
      cmd_auths

unfoldable pcr_extend_prepare : (other : OtherTypes) → ℕ → Option other.TpmlDigestValues → Preparing
pcr_extend_prepare other pcr_handle digests sys_context = required digests sys_context (λ digests.
    prepare 0x182 (arg (word w4) pcr_handle ∷ arg other.tpml_digest_values digests ∷ [])
      (allowing false false true) sys_context)

unfoldable pcr_extend_complete : Completing (Unit {0})
pcr_extend_complete = complete (behind_common got_all)

unfoldable pcr_extend :
    (other : OtherTypes) (t : Transport)
    → Option SysContext
    → Option (AuthList AuthCommand)
    → ℕ
    → Option other.TpmlDigestValues
    → Finishing t (Unit {0})
pcr_extend other t sys_context cmd_auths pcr_handle digests =
    one_call t (λ ctx. required digests ctx (λ _. pcr_extend_prepare other pcr_handle digests ctx))
      pcr_extend_complete sys_context cmd_auths

unfoldable pcr_read_prepare : (other : OtherTypes) → Option other.TpmlPcrSelection → Preparing
pcr_read_prepare other pcr_selection_in sys_context =
    required pcr_selection_in sys_context (λ pcr_selection_in.
      prepare 0x17e (arg other.tpml_pcr_selection pcr_selection_in ∷ []) (allowing false false true)
        sys_context)

unfoldable pcr_read_complete :
    (other : OtherTypes)
    → Completing (Option ℕ × (Option other.TpmlPcrSelection × Option (Tpml Tpm2b)))
pcr_read_complete other = complete (
    behind_common
      (get (word w4) followed_by get other.tpml_pcr_selection followed_by get tpml_digest))

unfoldable pcr_read :
    (other : OtherTypes) (t : Transport)
    → Option SysContext
    → Option (AuthList AuthCommand)
    → Option other.TpmlPcrSelection
    → Finishing t (Option ℕ × (Option other.TpmlPcrSelection × Option (Tpml Tpm2b)))
pcr_read other t sys_context cmd_auths pcr_selection_in =
    one_call t
      (λ ctx. required pcr_selection_in ctx (λ _. pcr_read_prepare other pcr_selection_in ctx))
      (pcr_read_complete other) sys_context cmd_auths

unfoldable pcr_reset_prepare : ℕ → Preparing
pcr_reset_prepare pcr_handle sys_context =
    prepare 0x13d (arg (word w4) pcr_handle ∷ []) (allowing false false true) sys_context

unfoldable pcr_reset_complete : Completing (Unit {0})
pcr_reset_complete = complete (behind_common got_all)

unfoldable pcr_reset :
    (t : Transport) → Option SysContext → Option (AuthList AuthCommand) → ℕ → Finishing t (Unit {0})
pcr_reset t sys_context cmd_auths pcr_handle =
    one_call t (pcr_reset_prepare pcr_handle) pcr_reset_complete sys_context cmd_auths

unfoldable pcr_set_auth_policy_prepare : ℕ → Option Tpm2b → ℕ → ℕ → Preparing
pcr_set_auth_policy_prepare auth_handle auth_policy hash_alg pcr_num sys_context =
    prepare 0x12c
      (arg (word w4) auth_handle
        ∷ optional true tpm2b_digest auth_policy
        ∷ arg (word w2) hash_alg
        ∷ arg (word w4) pcr_num
        ∷ [])
      (allowing true false true) sys_context

unfoldable pcr_set_auth_policy_complete : Completing (Unit {0})
pcr_set_auth_policy_complete = complete (behind_common got_all)

unfoldable pcr_set_auth_policy :
    (t : Transport)
    → Option SysContext
    → Option (AuthList AuthCommand)
    → ℕ
    → Option Tpm2b
    → ℕ
    → ℕ
    → Finishing t (Unit {0})
pcr_set_auth_policy t sys_context cmd_auths auth_handle auth_policy hash_alg pcr_num =
    one_call t (pcr_set_auth_policy_prepare auth_handle auth_policy hash_alg pcr_num)
      pcr_set_auth_policy_complete sys_context cmd_auths

unfoldable pcr_set_auth_value_prepare : ℕ → Option Tpm2b → Preparing
pcr_set_auth_value_prepare pcr_handle auth sys_context =
    prepare 0x183 (arg (word w4) pcr_handle ∷ optional false tpm2b_digest auth ∷ [])
      (allowing true false true) sys_context

unfoldable pcr_set_auth_value_complete : Completing (Unit {0})
pcr_set_auth_value_complete = complete (behind_common got_all)

unfoldable pcr_set_auth_value :
    (t : Transport)
    → Option SysContext
    → Option (AuthList AuthCommand)
    → ℕ
    → Option Tpm2b
    → Finishing t (Unit {0})
pcr_set_auth_value t sys_context cmd_auths pcr_handle auth =
    one_call t (pcr_set_auth_value_prepare pcr_handle auth) pcr_set_auth_value_complete sys_context
      cmd_auths
