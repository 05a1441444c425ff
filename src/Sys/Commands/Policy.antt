-- ===== src/Sys/Commands/Policy.antt =====
-- src/tss2-sys/api: Policies (of a command, a counter, a PCR, NV, and a choice).
use tpm2_tss_verified.Common.{ℕ, true, false, Option, [], ◌∷◌}
use tpm2_tss_verified.Endian.{w1, w2, w4}
use tpm2_tss_verified.Mu.Tpm2b.{Tpm2b}
use tpm2_tss_verified.Mu.Tpml.{Tpml}
use tpm2_tss_verified.Mu.Format.{word, flags}
use tpm2_tss_verified.Mu.Types.{tpm2b_digest, tpml_digest}
use tpm2_tss_verified.Sys.{SysContext}
use tpm2_tss_verified.Sys.Execute.{Transport}
use tpm2_tss_verified.Sys.Auths.{AuthCommand, AuthList}
use tpm2_tss_verified.Sys.Command.{
  Preparing, Completing, arg, optional, required, prepare, allowing, got_all, behind_common,
  complete, Finishing, one_call,
}
use tpm2_tss_verified.Sys.Commands.{OtherTypes}

unfoldable policy_command_code_prepare : ℕ → ℕ → Preparing
policy_command_code_prepare policy_session code sys_context =
    prepare 0x16c (arg (word w4) policy_session ∷ arg (word w4) code ∷ [])
      (allowing false false true) sys_context

unfoldable policy_command_code_complete : Completing (Unit {0})
policy_command_code_complete = complete (behind_common got_all)

unfoldable policy_command_code :
    (t : Transport)
    → Option SysContext
    → Option (AuthList AuthCommand)
    → ℕ
    → ℕ
    → Finishing t (Unit {0})
policy_command_code t sys_context cmd_auths policy_session code =
    one_call t (policy_command_code_prepare policy_session code) policy_command_code_complete
      sys_context cmd_auths

unfoldable policy_counter_timer_prepare : ℕ → Option Tpm2b → ℕ → ℕ → Preparing
policy_counter_timer_prepare policy_session operand_b offset operation sys_context =
    prepare 0x16d
      (arg (word w4) policy_session
        ∷ optional true tpm2b_digest operand_b
        ∷ arg (word w2) offset
        ∷ arg (word w2) operation
        ∷ [])
      (allowing true false true) sys_context

unfoldable policy_counter_timer_complete : Completing (Unit {0})
policy_counter_timer_complete = complete (behind_common got_all)

unfoldable policy_counter_timer :
    (t : Transport)
    → Option SysContext
    → Option (AuthList AuthCommand)
    → ℕ
    → Option Tpm2b
    → ℕ
    → ℕ
    → Finishing t (Unit {0})
policy_counter_timer t sys_context cmd_auths policy_session operand_b offset operation =
    one_call t (policy_counter_timer_prepare policy_session operand_b offset operation)
      policy_counter_timer_complete sys_context cmd_auths

unfoldable policy_locality_prepare : ℕ → ℕ → Preparing
policy_locality_prepare policy_session locality sys_context =
    prepare 0x16f (arg (word w4) policy_session ∷ arg (flags w1) locality ∷ [])
      (allowing false false true) sys_context

unfoldable policy_locality_complete : Completing (Unit {0})
policy_locality_complete = complete (behind_common got_all)

unfoldable policy_locality :
    (t : Transport)
    → Option SysContext
    → Option (AuthList AuthCommand)
    → ℕ
    → ℕ
    → Finishing t (Unit {0})
policy_locality t sys_context cmd_auths policy_session locality =
    one_call t (policy_locality_prepare policy_session locality) policy_locality_complete
      sys_context cmd_auths

unfoldable policy_nv_prepare : ℕ → ℕ → ℕ → Option Tpm2b → ℕ → ℕ → Preparing
policy_nv_prepare auth_handle nv_index policy_session operand_b offset operation sys_context =
    prepare 0x149
      (arg (word w4) auth_handle
        ∷ arg (word w4) nv_index
        ∷ arg (word w4) policy_session
        ∷ optional true tpm2b_digest operand_b
        ∷ arg (word w2) offset
        ∷ arg (word w2) operation
        ∷ [])
      (allowing true false true) sys_context

unfoldable policy_nv_complete : Completing (Unit {0})
policy_nv_complete = complete (behind_common got_all)

unfoldable policy_nv :
    (t : Transport)
    → Option SysContext
    → Option (AuthList AuthCommand)
    → ℕ
    → ℕ
    → ℕ
    → Option Tpm2b
    → ℕ
    → ℕ
    → Finishing t (Unit {0})
policy_nv t sys_context cmd_auths auth_handle nv_index policy_session operand_b offset operation =
    one_call t (policy_nv_prepare auth_handle nv_index policy_session operand_b offset operation)
      policy_nv_complete sys_context cmd_auths

unfoldable policy_or_prepare : ℕ → Option (Tpml Tpm2b) → Preparing
policy_or_prepare policy_session p_hash_list sys_context =
    required p_hash_list sys_context (λ p_hash_list.
      prepare 0x171 (arg (word w4) policy_session ∷ arg tpml_digest p_hash_list ∷ [])
        (allowing false false true) sys_context)

unfoldable policy_or_complete : Completing (Unit {0})
policy_or_complete = complete (behind_common got_all)

unfoldable policy_or :
    (t : Transport)
    → Option SysContext
    → Option (AuthList AuthCommand)
    → ℕ
    → Option (Tpml Tpm2b)
    → Finishing t (Unit {0})
policy_or t sys_context cmd_auths policy_session p_hash_list =
    one_call t
      (λ ctx. required p_hash_list ctx (λ _. policy_or_prepare policy_session p_hash_list ctx))
      policy_or_complete sys_context cmd_auths

unfoldable policy_pcr_prepare :
    (other : OtherTypes) → ℕ → Option Tpm2b → Option other.TpmlPcrSelection → Preparing
policy_pcr_prepare other policy_session pcr_digest pcrs sys_context =
    required pcrs sys_context (λ pcrs.
      prepare 0x17f
        (arg (word w4) policy_session
          ∷ optional true tpm2b_digest pcr_digest
          ∷ arg other.tpml_pcr_selection pcrs
          ∷ [])
        (allowing true false true) sys_context)

unfoldable policy_pcr_complete : Completing (Unit {0})
policy_pcr_complete = complete (behind_common got_all)

unfoldable policy_pcr :
    (other : OtherTypes) (t : Transport)
    → Option SysContext
    → Option (AuthList AuthCommand)
    → ℕ
    → Option Tpm2b
    → Option other.TpmlPcrSelection
    → Finishing t (Unit {0})
policy_pcr other t sys_context cmd_auths policy_session pcr_digest pcrs =
    one_call t
      (λ ctx. required pcrs ctx (λ _. policy_pcr_prepare other policy_session pcr_digest pcrs ctx))
      policy_pcr_complete sys_context cmd_auths
