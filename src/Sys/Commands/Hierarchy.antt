-- ===== src/Sys/Commands/Hierarchy.antt =====
-- src/tss2-sys/api: Hierarchies.
use tpm2_tss_verified.Common.{ℕ, true, false, Option, [], ◌∷◌}
use tpm2_tss_verified.Endian.{w1, w2, w4}
use tpm2_tss_verified.Mu.Tpm2b.{Tpm2b}
use tpm2_tss_verified.Mu.Format.{word}
use tpm2_tss_verified.Mu.Types.{tpm2b_digest, tpm2b_name}
use tpm2_tss_verified.Mu.Buffers.{tpm2b_data}
use tpm2_tss_verified.Sys.{SysContext}
use tpm2_tss_verified.Sys.Execute.{Transport}
use tpm2_tss_verified.Sys.Auths.{AuthCommand, AuthList}
use tpm2_tss_verified.Sys.Command.{
  Preparing, Completing, arg, optional, required, prepare, allowing, get, got_all, ◌followed_by◌,
  behind_common, complete, Finishing, one_call,
}
use tpm2_tss_verified.Sys.Commands.{OtherTypes}

unfoldable change_eps_prepare : ℕ → Preparing
change_eps_prepare auth_handle sys_context =
    prepare 0x124 (arg (word w4) auth_handle ∷ []) (allowing false false true) sys_context

unfoldable change_eps_complete : Completing (Unit {0})
change_eps_complete = complete (behind_common got_all)

unfoldable change_eps :
    (t : Transport) → Option SysContext → Option (AuthList AuthCommand) → ℕ → Finishing t (Unit {0})
change_eps t sys_context cmd_auths auth_handle =
    one_call t (change_eps_prepare auth_handle) change_eps_complete sys_context cmd_auths

unfoldable change_pps_prepare : ℕ → Preparing
change_pps_prepare auth_handle sys_context =
    prepare 0x125 (arg (word w4) auth_handle ∷ []) (allowing false false true) sys_context

unfoldable change_pps_complete : Completing (Unit {0})
change_pps_complete = complete (behind_common got_all)

unfoldable change_pps :
    (t : Transport) → Option SysContext → Option (AuthList AuthCommand) → ℕ → Finishing t (Unit {0})
change_pps t sys_context cmd_auths auth_handle =
    one_call t (change_pps_prepare auth_handle) change_pps_complete sys_context cmd_auths

unfoldable clear_prepare : ℕ → Preparing
clear_prepare auth_handle sys_context =
    prepare 0x126 (arg (word w4) auth_handle ∷ []) (allowing false false true) sys_context

unfoldable clear_complete : Completing (Unit {0})
clear_complete = complete (behind_common got_all)

unfoldable clear :
    (t : Transport) → Option SysContext → Option (AuthList AuthCommand) → ℕ → Finishing t (Unit {0})
clear t sys_context cmd_auths auth_handle =
    one_call t (clear_prepare auth_handle) clear_complete sys_context cmd_auths

unfoldable clear_control_prepare : ℕ → ℕ → Preparing
clear_control_prepare auth disable sys_context =
    prepare 0x127 (arg (word w4) auth ∷ arg (word w1) disable ∷ []) (allowing false false true)
      sys_context

unfoldable clear_control_complete : Completing (Unit {0})
clear_control_complete = complete (behind_common got_all)

unfoldable clear_control :
    (t : Transport)
    → Option SysContext
    → Option (AuthList AuthCommand)
    → ℕ
    → ℕ
    → Finishing t (Unit {0})
clear_control t sys_context cmd_auths auth disable =
    one_call t (clear_control_prepare auth disable) clear_control_complete sys_context cmd_auths

unfoldable create_primary_prepare :
    (other : OtherTypes)
    → ℕ
    → Option other.Tpm2bSensitiveCreate
    → Option other.Tpm2bPublic
    → Option Tpm2b
    → Option other.TpmlPcrSelection
    → Preparing
create_primary_prepare other primary_handle in_sensitive in_public outside_info creation_pcr
      sys_context =
    required creation_pcr sys_context (λ creation_pcr.
      prepare 0x131
        (arg (word w4) primary_handle
          ∷ optional true other.tpm2b_sensitive_create in_sensitive
          ∷ optional false other.tpm2b_public in_public
          ∷ optional false tpm2b_data outside_info
          ∷ arg other.tpml_pcr_selection creation_pcr
          ∷ [])
        (allowing true true true) sys_context)

unfoldable create_primary_complete :
    (other : OtherTypes)
    → Completing (
        Option ℕ
        × (Option other.Tpm2bPublic
            × (Option other.Tpm2bCreationData
                × (Option Tpm2b × (Option other.TpmtTkCreation × Option Tpm2b)))))
create_primary_complete other = complete (
    get (word w4)
    followed_by behind_common (
        get other.tpm2b_public
        followed_by get other.tpm2b_creation_data
        followed_by get tpm2b_digest
        followed_by get other.tpmt_tk_creation
        followed_by get tpm2b_name))

unfoldable create_primary :
    (other : OtherTypes) (t : Transport)
    → Option SysContext
    → Option (AuthList AuthCommand)
    → ℕ
    → Option other.Tpm2bSensitiveCreate
    → Option other.Tpm2bPublic
    → Option Tpm2b
    → Option other.TpmlPcrSelection
    → Finishing t (
        Option ℕ
        × (Option other.Tpm2bPublic
            × (Option other.Tpm2bCreationData
                × (Option Tpm2b × (Option other.TpmtTkCreation × Option Tpm2b)))))
create_primary other t sys_context cmd_auths primary_handle in_sensitive in_public outside_info
      creation_pcr =
    one_call t
      (λ ctx. required creation_pcr ctx (λ _.
        create_primary_prepare other primary_handle in_sensitive in_public outside_info creation_pcr
          ctx))
      (create_primary_complete other) sys_context cmd_auths

unfoldable hierarchy_change_auth_prepare : ℕ → Option Tpm2b → Preparing
hierarchy_change_auth_prepare auth_handle new_auth sys_context =
    prepare 0x129 (arg (word w4) auth_handle ∷ optional false tpm2b_digest new_auth ∷ [])
      (allowing true false true) sys_context

unfoldable hierarchy_change_auth_complete : Completing (Unit {0})
hierarchy_change_auth_complete = complete (behind_common got_all)

unfoldable hierarchy_change_auth :
    (t : Transport)
    → Option SysContext
    → Option (AuthList AuthCommand)
    → ℕ
    → Option Tpm2b
    → Finishing t (Unit {0})
hierarchy_change_auth t sys_context cmd_auths auth_handle new_auth =
    one_call t (hierarchy_change_auth_prepare auth_handle new_auth) hierarchy_change_auth_complete
      sys_context cmd_auths

unfoldable hierarchy_control_prepare : ℕ → ℕ → ℕ → Preparing
hierarchy_control_prepare auth_handle enable state sys_context =
    prepare 0x121 (arg (word w4) auth_handle ∷ arg (word w4) enable ∷ arg (word w1) state ∷ [])
      (allowing false false true) sys_context

unfoldable hierarchy_control_complete : Completing (Unit {0})
hierarchy_control_complete = complete (behind_common got_all)

unfoldable hierarchy_control :
    (t : Transport)
    → Option SysContext
    → Option (AuthList AuthCommand)
    → ℕ
    → ℕ
    → ℕ
    → Finishing t (Unit {0})
hierarchy_control t sys_context cmd_auths auth_handle enable state =
    one_call t (hierarchy_control_prepare auth_handle enable state) hierarchy_control_complete
      sys_context cmd_auths

unfoldable set_primary_policy_prepare : ℕ → Option Tpm2b → ℕ → Preparing
set_primary_policy_prepare auth_handle auth_policy hash_alg sys_context =
    prepare 0x12e
      (arg (word w4) auth_handle
        ∷ optional true tpm2b_digest auth_policy
        ∷ arg (word w2) hash_alg
        ∷ [])
      (allowing true false true) sys_context

unfoldable set_primary_policy_complete : Completing (Unit {0})
set_primary_policy_complete = complete (behind_common got_all)

unfoldable set_primary_policy :
    (t : Transport)
    → Option SysContext
    → Option (AuthList AuthCommand)
    → ℕ
    → Option Tpm2b
    → ℕ
    → Finishing t (Unit {0})
set_primary_policy t sys_context cmd_auths auth_handle auth_policy hash_alg =
    one_call t (set_primary_policy_prepare auth_handle auth_policy hash_alg)
      set_primary_policy_complete sys_context cmd_auths
