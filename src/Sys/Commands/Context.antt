-- ===== src/Sys/Commands/Context.antt =====
-- src/tss2-sys/api: Contexts, the clock and capabilities.
use tpm2_tss_verified.Common.{ℕ, true, false, Option, none, [], ◌∷◌}
use tpm2_tss_verified.Endian.{w1, w4, w8}
use tpm2_tss_verified.Mu.Format.{word}
use tpm2_tss_verified.Mu.Types.{tpms_time_info}
use tpm2_tss_verified.Sys.{SysContext}
use tpm2_tss_verified.Sys.Execute.{Transport}
use tpm2_tss_verified.Sys.Auths.{AuthCommand, AuthList}
use tpm2_tss_verified.Sys.Command.{
  Preparing, Completing, arg, required, prepare, allowing, get, got_all, ◌followed_by◌,
  behind_common, complete, Called, Finishing, one_call,
}
use tpm2_tss_verified.Sys.Commands.{OtherTypes}

unfoldable clock_rate_adjust_prepare : ℕ → ℕ → Preparing
clock_rate_adjust_prepare auth rate_adjust sys_context =
    prepare 0x130 (arg (word w4) auth ∷ arg (word w1) rate_adjust ∷ []) (allowing false false true)
      sys_context

unfoldable clock_rate_adjust_complete : Completing (Unit {0})
clock_rate_adjust_complete = complete (behind_common got_all)

unfoldable clock_rate_adjust :
    (t : Transport)
    → Option SysContext
    → Option (AuthList AuthCommand)
    → ℕ
    → ℕ
    → Finishing t (Unit {0})
clock_rate_adjust t sys_context cmd_auths auth rate_adjust =
    one_call t (clock_rate_adjust_prepare auth rate_adjust) clock_rate_adjust_complete sys_context
      cmd_auths

unfoldable clock_set_prepare : ℕ → ℕ → Preparing
clock_set_prepare auth new_time sys_context =
    prepare 0x128 (arg (word w4) auth ∷ arg (word w8) new_time ∷ []) (allowing false false true)
      sys_context

unfoldable clock_set_complete : Completing (Unit {0})
clock_set_complete = complete (behind_common got_all)

unfoldable clock_set :
    (t : Transport)
    → Option SysContext
    → Option (AuthList AuthCommand)
    → ℕ
    → ℕ
    → Finishing t (Unit {0})
clock_set t sys_context cmd_auths auth new_time =
    one_call t (clock_set_prepare auth new_time) clock_set_complete sys_context cmd_auths

unfoldable context_load_prepare : (other : OtherTypes) → Option other.TpmsContext → Preparing
context_load_prepare other context sys_context = required context sys_context (λ context.
    prepare 0x161 (arg other.tpms_context context ∷ []) (allowing false false false) sys_context)

unfoldable context_load_complete : Completing (Option ℕ × Unit {0})
context_load_complete = complete (get (word w4) followed_by behind_common got_all)

unfoldable context_load :
    (other : OtherTypes) (t : Transport)
    → Option SysContext
    → Option other.TpmsContext
    → (Option ℕ × Unit {0})
    → t.State
    → Option (Called (Option ℕ × Unit {0}) t.State)
context_load other t sys_context context results s =
    one_call t (λ ctx. required context ctx (λ _. context_load_prepare other context ctx))
      context_load_complete sys_context none results none s

unfoldable context_save_prepare : ℕ → Preparing
context_save_prepare save_handle sys_context =
    prepare 0x162 (arg (word w4) save_handle ∷ []) (allowing false false false) sys_context

unfoldable context_save_complete : (other : OtherTypes) → Completing (Option other.TpmsContext)
context_save_complete other = complete (behind_common (get other.tpms_context))

unfoldable context_save :
    (other : OtherTypes) (t : Transport)
    → Option SysContext
    → ℕ
    → (Option other.TpmsContext)
    → t.State
    → Option (Called (Option other.TpmsContext) t.State)
context_save other t sys_context save_handle results s =
    one_call t (context_save_prepare save_handle) (context_save_complete other) sys_context none
      results none s

unfoldable evict_control_prepare : ℕ → ℕ → ℕ → Preparing
evict_control_prepare auth object_handle persistent_handle sys_context =
    prepare 0x120
      (arg (word w4) auth ∷ arg (word w4) object_handle ∷ arg (word w4) persistent_handle ∷ [])
      (allowing false false true) sys_context

unfoldable evict_control_complete : Completing (Unit {0})
evict_control_complete = complete (behind_common got_all)

unfoldable evict_control :
    (t : Transport)
    → Option SysContext
    → Option (AuthList AuthCommand)
    → ℕ
    → ℕ
    → ℕ
    → Finishing t (Unit {0})
evict_control t sys_context cmd_auths auth object_handle persistent_handle =
    one_call t (evict_control_prepare auth object_handle persistent_handle) evict_control_complete
      sys_context cmd_auths

unfoldable flush_context_prepare : ℕ → Preparing
flush_context_prepare flush_handle sys_context =
    prepare 0x165 (arg (word w4) flush_handle ∷ []) (allowing false false false) sys_context

unfoldable flush_context_complete : Completing (Unit {0})
flush_context_complete = complete (behind_common got_all)

unfoldable flush_context :
    (t : Transport)
    → Option SysContext
    → ℕ
    → Unit {0}
    → t.State
    → Option (Called (Unit {0}) t.State)
flush_context t sys_context flush_handle results s =
    one_call t (flush_context_prepare flush_handle) flush_context_complete sys_context none results
      none s

unfoldable get_capability_prepare : ℕ → ℕ → ℕ → Preparing
get_capability_prepare capability property property_count sys_context =
    prepare 0x17a
      (arg (word w4) capability ∷ arg (word w4) property ∷ arg (word w4) property_count ∷ [])
      (allowing false false true) sys_context

unfoldable get_capability_complete :
    (other : OtherTypes) → Completing (Option ℕ × Option other.TpmsCapabilityData)
get_capability_complete other =
    complete (behind_common (get (word w1) followed_by get other.tpms_capability_data))

unfoldable get_capability :
    (other : OtherTypes) (t : Transport)
    → Option SysContext
    → Option (AuthList AuthCommand)
    → ℕ
    → ℕ
    → ℕ
    → Finishing t (Option ℕ × Option other.TpmsCapabilityData)
get_capability other t sys_context cmd_auths capability property property_count =
    one_call t (get_capability_prepare capability property property_count)
      (get_capability_complete other) sys_context cmd_auths

unfoldable read_clock_prepare : Preparing
read_clock_prepare sys_context = prepare 0x181 [] (allowing false false false) sys_context

unfoldable read_clock_complete : Completing (Option (ℕ × (ℕ × (ℕ × (ℕ × ℕ)))))
read_clock_complete = complete (behind_common (get tpms_time_info))

unfoldable read_clock :
    (t : Transport)
    → Option SysContext
    → (Option (ℕ × (ℕ × (ℕ × (ℕ × ℕ)))))
    → t.State
    → Option (Called (Option (ℕ × (ℕ × (ℕ × (ℕ × ℕ))))) t.State)
read_clock t sys_context results s =
    one_call t read_clock_prepare read_clock_complete sys_context none results none s

unfoldable test_parms_prepare : (other : OtherTypes) → Option other.TpmtPublicParms → Preparing
test_parms_prepare other parameters sys_context = required parameters sys_context (λ parameters.
    prepare 0x18a (arg other.tpmt_public_parms parameters ∷ []) (allowing false false true)
      sys_context)

unfoldable test_parms_complete : Completing (Unit {0})
test_parms_complete = complete (behind_common got_all)

unfoldable test_parms :
    (other : OtherTypes) (t : Transport)
    → Option SysContext
    → Option (AuthList AuthCommand)
    → Option other.TpmtPublicParms
    → Finishing t (Unit {0})
test_parms other t sys_context cmd_auths parameters =
    one_call t (λ ctx. required parameters ctx (λ _. test_parms_prepare other parameters ctx))
      test_parms_complete sys_context cmd_auths
