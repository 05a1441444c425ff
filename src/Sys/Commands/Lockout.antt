-- ===== src/Sys/Commands/Lockout.antt =====
-- src/tss2-sys/api: The dictionary attack protection, physical presence and field upgrades.
use tpm2_tss_verified.Common.{ℕ, true, false, Option, [], ◌∷◌}
use tpm2_tss_verified.Endian.{w4}
use tpm2_tss_verified.Mu.Tpm2b.{Tpm2b}
use tpm2_tss_verified.Mu.Tpml.{Tpml}
use tpm2_tss_verified.Mu.Format.{word}
use tpm2_tss_verified.Mu.Types.{tpm2b_digest, tpml_cc}
use tpm2_tss_verified.Mu.Buffers.{tpm2b_max_buffer}
use tpm2_tss_verified.Sys.{SysContext}
use tpm2_tss_verified.Sys.Execute.{Transport}
use tpm2_tss_verified.Sys.Auths.{AuthCommand, AuthList}
use tpm2_tss_verified.Sys.Command.{
  Preparing, Completing, arg, optional, required, prepare, allowing, get, got_all, ◌followed_by◌,
  behind_common, complete, Finishing, one_call,
}
use tpm2_tss_verified.Sys.Commands.{OtherTypes}

unfoldable dictionary_attack_lock_reset_prepare : ℕ → Preparing
dictionary_attack_lock_reset_prepare lock_handle sys_context =
    prepare 0x139 (arg (word w4) lock_handle ∷ []) (allowing false false true) sys_context

unfoldable dictionary_attack_lock_reset_complete : Completing (Unit {0})
dictionary_attack_lock_reset_complete = complete (behind_common got_all)

unfoldable dictionary_attack_lock_reset :
    (t : Transport) → Option SysContext → Option (AuthList AuthCommand) → ℕ → Finishing t (Unit {0})
dictionary_attack_lock_reset t sys_context cmd_auths lock_handle =
    one_call t (dictionary_attack_lock_reset_prepare lock_handle)
      dictionary_attack_lock_reset_complete sys_context cmd_auths

unfoldable dictionary_attack_parameters_prepare : ℕ → ℕ → ℕ → ℕ → Preparing
dictionary_attack_parameters_prepare lock_handle new_max_tries new_recovery_time lockout_recovery
      sys_context =
    prepare 0x13a
      (arg (word w4) lock_handle
        ∷ arg (word w4) new_max_tries
        ∷ arg (word w4) new_recovery_time
        ∷ arg (word w4) lockout_recovery
        ∷ [])
      (allowing false false true) sys_context

unfoldable dictionary_attack_parameters_complete : Completing (Unit {0})
dictionary_attack_parameters_complete = complete (behind_common got_all)

unfoldable dictionary_attack_parameters :
    (t : Transport)
    → Option SysContext
    → Option (AuthList AuthCommand)
    → ℕ
    → ℕ
    → ℕ
    → ℕ
    → Finishing t (Unit {0})
dictionary_attack_parameters t sys_context cmd_auths lock_handle new_max_tries new_recovery_time
      lockout_recovery =
    one_call t
      (dictionary_attack_parameters_prepare lock_handle new_max_tries new_recovery_time
        lockout_recovery)
      dictionary_attack_parameters_complete sys_context cmd_auths

unfoldable field_upgrade_data_prepare : Option Tpm2b → Preparing
field_upgrade_data_prepare fu_data sys_context =
    prepare 0x141 (optional false tpm2b_max_buffer fu_data ∷ []) (allowing true false true)
      sys_context

unfoldable field_upgrade_data_complete :
    (other : OtherTypes) → Completing (Option other.TpmtHa × Option other.TpmtHa)
field_upgrade_data_complete other =
    complete (behind_common (get other.tpmt_ha followed_by get other.tpmt_ha))

unfoldable field_upgrade_data :
    (other : OtherTypes) (t : Transport)
    → Option SysContext
    → Option (AuthList AuthCommand)
    → Option Tpm2b
    → Finishing t (Option other.TpmtHa × Option other.TpmtHa)
field_upgrade_data other t sys_context cmd_auths fu_data =
    one_call t (field_upgrade_data_prepare fu_data) (field_upgrade_data_complete other) sys_context
      cmd_auths

unfoldable field_upgrade_start_prepare :
    (other : OtherTypes) → ℕ → ℕ → Option Tpm2b → Option other.TpmtSignature → Preparing
field_upgrade_start_prepare other authorization key_handle fu_digest manifest_signature
      sys_context =
    required manifest_signature sys_context (λ manifest_signature.
      prepare 0x12f
        (arg (word w4) authorization
          ∷ arg (word w4) key_handle
          ∷ optional true tpm2b_digest fu_digest
          ∷ arg other.tpmt_signature manifest_signature
          ∷ [])
        (allowing true false true) sys_context)

unfoldable field_upgrade_start_complete : Completing (Unit {0})
field_upgrade_start_complete = complete (behind_common got_all)

unfoldable field_upgrade_start :
    (other : OtherTypes) (t : Transport)
    → Option SysContext
    → Option (AuthList AuthCommand)
    → ℕ
    → ℕ
    → Option Tpm2b
    → Option other.TpmtSignature
    → Finishing t (Unit {0})
field_upgrade_start other t sys_context cmd_auths authorization key_handle fu_digest
      manifest_signature =
    one_call t
      (λ ctx. required manifest_signature ctx (λ _.
        field_upgrade_start_prepare other authorization key_handle fu_digest manifest_signature
          ctx))
      field_upgrade_start_complete sys_context cmd_auths

unfoldable firmware_read_prepare : ℕ → Preparing
firmware_read_prepare sequence_number sys_context =
    prepare 0x179 (arg (word w4) sequence_number ∷ []) (allowing false true true) sys_context

unfoldable firmware_read_complete : Completing (Option Tpm2b)
firmware_read_complete = complete (behind_common (get tpm2b_max_buffer))

unfoldable firmware_read :
    (t : Transport)
    → Option SysContext
    → Option (AuthList AuthCommand)
    → ℕ
    → Finishing t (Option Tpm2b)
firmware_read t sys_context cmd_auths sequence_number =
    one_call t (firmware_read_prepare sequence_number) firmware_read_complete sys_context cmd_auths

unfoldable pp_commands_prepare : ℕ → Option (Tpml ℕ) → Option (Tpml ℕ) → Preparing
pp_commands_prepare auth set_list clear_list sys_context =
    required set_list sys_context (λ set_list. required clear_list sys_context (λ clear_list.
      prepare 0x12d (arg (word w4) auth ∷ arg tpml_cc set_list ∷ arg tpml_cc clear_list ∷ [])
        (allowing false false true) sys_context))

unfoldable pp_commands_complete : Completing (Unit {0})
pp_commands_complete = complete (behind_common got_all)

unfoldable pp_commands :
    (t : Transport)
    → Option SysContext
    → Option (AuthList AuthCommand)
    → ℕ
    → Option (Tpml ℕ)
    → Option (Tpml ℕ)
    → Finishing t (Unit {0})
pp_commands t sys_context cmd_auths auth set_list clear_list =
    one_call t
      (λ ctx.
        required set_list ctx
          (λ _. required clear_list ctx (λ _. pp_commands_prepare auth set_list clear_list ctx)))
      pp_commands_complete sys_context cmd_auths

unfoldable set_algorithm_set_prepare : ℕ → ℕ → Preparing
set_algorithm_set_prepare auth_handle algorithm_set sys_context =
    prepare 0x13f (arg (word w4) auth_handle ∷ arg (word w4) algorithm_set ∷ [])
      (allowing false false true) sys_context

unfoldable set_algorithm_set_complete : Completing (Unit {0})
set_algorithm_set_complete = complete (behind_common got_all)

unfoldable set_algorithm_set :
    (t : Transport)
    → Option SysContext
    → Option (AuthList AuthCommand)
    → ℕ
    → ℕ
    → Finishing t (Unit {0})
set_algorithm_set t sys_context cmd_auths auth_handle algorithm_set =
    one_call t (set_algorithm_set_prepare auth_handle algorithm_set) set_algorithm_set_complete
      sys_context cmd_auths
