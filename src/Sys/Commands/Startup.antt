-- ===== src/Sys/Commands/Startup.antt =====
-- src/tss2-sys/api: Startup, shutdown and self tests.
use tpm2_tss_verified.Common.{ℕ, true, false, Option, none, [], ◌∷◌}
use tpm2_tss_verified.Endian.{w1, w2, w4}
use tpm2_tss_verified.Mu.Tpm2b.{Tpm2b}
use tpm2_tss_verified.Mu.Tpml.{Tpml}
use tpm2_tss_verified.Mu.Format.{word}
use tpm2_tss_verified.Mu.Types.{tpml_alg}
use tpm2_tss_verified.Mu.Buffers.{tpm2b_max_buffer}
use tpm2_tss_verified.Sys.{SysContext}
use tpm2_tss_verified.Sys.Execute.{Transport}
use tpm2_tss_verified.Sys.Auths.{AuthCommand, AuthList}
use tpm2_tss_verified.Sys.Command.{
  Preparing, Completing, arg, required, prepare, allowing, get, got_all, ◌followed_by◌,
  behind_common, complete, Called, Finishing, one_call,
}

unfoldable get_test_result_prepare : Preparing
get_test_result_prepare sys_context = prepare 0x17c [] (allowing false true true) sys_context

unfoldable get_test_result_complete : Completing (Option Tpm2b × Option ℕ)
get_test_result_complete = complete (behind_common (get tpm2b_max_buffer followed_by get (word w4)))

unfoldable get_test_result :
    (t : Transport)
    → Option SysContext
    → Option (AuthList AuthCommand)
    → Finishing t (Option Tpm2b × Option ℕ)
get_test_result t sys_context cmd_auths =
    one_call t get_test_result_prepare get_test_result_complete sys_context cmd_auths

unfoldable incremental_self_test_prepare : Option (Tpml ℕ) → Preparing
incremental_self_test_prepare to_test sys_context =
    required to_test sys_context
      (λ to_test. prepare 0x142 (arg tpml_alg to_test ∷ []) (allowing false false true) sys_context)

unfoldable incremental_self_test_complete : Completing (Option (Tpml ℕ))
incremental_self_test_complete = complete (behind_common (get tpml_alg))

unfoldable incremental_self_test :
    (t : Transport)
    → Option SysContext
    → Option (AuthList AuthCommand)
    → Option (Tpml ℕ)
    → Finishing t (Option (Tpml ℕ))
incremental_self_test t sys_context cmd_auths to_test =
    one_call t (λ ctx. required to_test ctx (λ _. incremental_self_test_prepare to_test ctx))
      incremental_self_test_complete sys_context cmd_auths

unfoldable self_test_prepare : ℕ → Preparing
self_test_prepare full_test sys_context =
    prepare 0x143 (arg (word w1) full_test ∷ []) (allowing false false true) sys_context

unfoldable self_test_complete : Completing (Unit {0})
self_test_complete = complete (behind_common got_all)

unfoldable self_test :
    (t : Transport) → Option SysContext → Option (AuthList AuthCommand) → ℕ → Finishing t (Unit {0})
self_test t sys_context cmd_auths full_test =
    one_call t (self_test_prepare full_test) self_test_complete sys_context cmd_auths

unfoldable shutdown_prepare : ℕ → Preparing
shutdown_prepare shutdown_type sys_context =
    prepare 0x145 (arg (word w2) shutdown_type ∷ []) (allowing false false true) sys_context

unfoldable shutdown_complete : Completing (Unit {0})
shutdown_complete = complete (behind_common got_all)

unfoldable shutdown :
    (t : Transport) → Option SysContext → Option (AuthList AuthCommand) → ℕ → Finishing t (Unit {0})
shutdown t sys_context cmd_auths shutdown_type =
    one_call t (shutdown_prepare shutdown_type) shutdown_complete sys_context cmd_auths

unfoldable startup_prepare : ℕ → Preparing
startup_prepare startup_type sys_context =
    prepare 0x144 (arg (word w2) startup_type ∷ []) (allowing false false false) sys_context

unfoldable startup_complete : Completing (Unit {0})
startup_complete = complete (behind_common got_all)

unfoldable startup :
    (t : Transport)
    → Option SysContext
    → ℕ
    → Unit {0}
    → t.State
    → Option (Called (Unit {0}) t.State)
startup t sys_context startup_type results s =
    one_call t (startup_prepare startup_type) startup_complete sys_context none results none s
