-- ===== src/Sys/Commands/Attached.antt =====
-- src/tss2-sys/api: Attached components and the test of the vendor.
use tpm2_tss_verified.Common.{ℕ, true, false, Option, [], ◌∷◌}
use tpm2_tss_verified.Endian.{w1, w4}
use tpm2_tss_verified.Mu.Tpm2b.{Tpm2b}
use tpm2_tss_verified.Mu.Tpml.{Tpml}
use tpm2_tss_verified.Mu.Format.{word}
use tpm2_tss_verified.Mu.Types.{tpm2b_name, tpml_ac_capabilities, tpms_ac_output}
use tpm2_tss_verified.Mu.Buffers.{tpm2b_data, tpm2b_max_buffer}
use tpm2_tss_verified.Sys.{SysContext}
use tpm2_tss_verified.Sys.Execute.{Transport}
use tpm2_tss_verified.Sys.Auths.{AuthCommand, AuthList}
use tpm2_tss_verified.Sys.Command.{
  Preparing, Completing, arg, optional, prepare, allowing, get, got_all, ◌followed_by◌,
  behind_common, complete, Finishing, one_call,
}

unfoldable ac_get_capability_prepare : ℕ → ℕ → ℕ → Preparing
ac_get_capability_prepare ac capability count sys_context =
    prepare 0x194 (arg (word w4) ac ∷ arg (word w4) capability ∷ arg (word w4) count ∷ [])
      (allowing false false true) sys_context

unfoldable ac_get_capability_complete : Completing (Option ℕ × Option (Tpml (ℕ × ℕ)))
ac_get_capability_complete =
    complete (behind_common (get (word w1) followed_by get tpml_ac_capabilities))

unfoldable ac_get_capability :
    (t : Transport)
    → Option SysContext
    → Option (AuthList AuthCommand)
    → ℕ
    → ℕ
    → ℕ
    → Finishing t (Option ℕ × Option (Tpml (ℕ × ℕ)))
ac_get_capability t sys_context cmd_auths ac capability count =
    one_call t (ac_get_capability_prepare ac capability count) ac_get_capability_complete
      sys_context cmd_auths

unfoldable ac_send_prepare : ℕ → ℕ → ℕ → Option Tpm2b → Preparing
ac_send_prepare send_object auth_handle ac ac_data_in sys_context =
    prepare 0x195
      (arg (word w4) send_object
        ∷ arg (word w4) auth_handle
        ∷ arg (word w4) ac
        ∷ optional true tpm2b_max_buffer ac_data_in
        ∷ [])
      (allowing true false true) sys_context

unfoldable ac_send_complete : Completing (Option (ℕ × ℕ))
ac_send_complete = complete (behind_common (get tpms_ac_output))

unfoldable ac_send :
    (t : Transport)
    → Option SysContext
    → Option (AuthList AuthCommand)
    → ℕ
    → ℕ
    → ℕ
    → Option Tpm2b
    → Finishing t (Option (ℕ × ℕ))
ac_send t sys_context cmd_auths send_object auth_handle ac ac_data_in =
    one_call t (ac_send_prepare send_object auth_handle ac ac_data_in) ac_send_complete sys_context
      cmd_auths

unfoldable policy_ac_send_select_prepare :
    ℕ → Option Tpm2b → Option Tpm2b → Option Tpm2b → ℕ → Preparing
policy_ac_send_select_prepare policy_session object_name auth_handle_name ac_name include_object
      sys_context =
    prepare 0x196
      (arg (word w4) policy_session
        ∷ optional true tpm2b_name object_name
        ∷ optional false tpm2b_name auth_handle_name
        ∷ optional false tpm2b_name ac_name
        ∷ arg (word w1) include_object
        ∷ [])
      (allowing true false true) sys_context

unfoldable policy_ac_send_select_complete : Completing (Unit {0})
policy_ac_send_select_complete = complete (behind_common got_all)

unfoldable policy_ac_send_select :
    (t : Transport)
    → Option SysContext
    → Option (AuthList AuthCommand)
    → ℕ
    → Option Tpm2b
    → Option Tpm2b
    → Option Tpm2b
    → ℕ
    → Finishing t (Unit {0})
policy_ac_send_select t sys_context cmd_auths policy_session object_name auth_handle_name ac_name
      include_object =
    one_call t
      (policy_ac_send_select_prepare policy_session object_name auth_handle_name ac_name
        include_object)
      policy_ac_send_select_complete sys_context cmd_auths

unfoldable vendor_tcg_test_prepare : Option Tpm2b → Preparing
vendor_tcg_test_prepare input_data sys_context =
    prepare 0x20000000 (optional false tpm2b_data input_data ∷ []) (allowing true true true)
      sys_context

unfoldable vendor_tcg_test_complete : Completing (Option Tpm2b)
vendor_tcg_test_complete = complete (behind_common (get tpm2b_data))

unfoldable vendor_tcg_test :
    (t : Transport)
    → Option SysContext
    → Option (AuthList AuthCommand)
    → Option Tpm2b
    → Finishing t (Option Tpm2b)
vendor_tcg_test t sys_context cmd_auths input_data =
    one_call t (vendor_tcg_test_prepare input_data) vendor_tcg_test_complete sys_context cmd_auths
