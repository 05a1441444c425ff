-- ===== src/Sys/Commands/Sequence.antt =====
-- src/tss2-sys/api: Hashes, HMACs and their sequences.
use tpm2_tss_verified.Common.{ℕ, true, false, Option, [], ◌∷◌}
use tpm2_tss_verified.Endian.{w2, w4}
use tpm2_tss_verified.Mu.Tpm2b.{Tpm2b}
use tpm2_tss_verified.Mu.Format.{word}
use tpm2_tss_verified.Mu.Types.{tpm2b_digest}
use tpm2_tss_verified.Mu.Buffers.{tpm2b_max_buffer}
use tpm2_tss_verified.Sys.{SysContext}
use tpm2_tss_verified.Sys.Execute.{Transport}
use tpm2_tss_verified.Sys.Auths.{AuthCommand, AuthList}
use tpm2_tss_verified.Sys.Command.{
  Preparing, Completing, arg, optional, prepare, allowing, get, got_all, ◌followed_by◌,
  behind_common, complete, Finishing, one_call,
}
use tpm2_tss_verified.Sys.Commands.{OtherTypes}

unfoldable hmac_prepare : ℕ → Option Tpm2b → ℕ → Preparing
hmac_prepare handle buffer hash_alg sys_context =
    prepare 0x155
      (arg (word w4) handle ∷ optional true tpm2b_max_buffer buffer ∷ arg (word w2) hash_alg ∷ [])
      (allowing true true true) sys_context

unfoldable hmac_complete : Completing (Option Tpm2b)
hmac_complete = complete (behind_common (get tpm2b_digest))

unfoldable hmac :
    (t : Transport)
    → Option SysContext
    → Option (AuthList AuthCommand)
    → ℕ
    → Option Tpm2b
    → ℕ
    → Finishing t (Option Tpm2b)
hmac t sys_context cmd_auths handle buffer hash_alg =
    one_call t (hmac_prepare handle buffer hash_alg) hmac_complete sys_context cmd_auths

unfoldable hmac_start_prepare : ℕ → Option Tpm2b → ℕ → Preparing
hmac_start_prepare handle auth hash_alg sys_context =
    prepare 0x15b
      (arg (word w4) handle ∷ optional true tpm2b_digest auth ∷ arg (word w2) hash_alg ∷ [])
      (allowing true false true) sys_context

unfoldable hmac_start_complete : Completing (Option ℕ × Unit {0})
hmac_start_complete = complete (get (word w4) followed_by behind_common got_all)

unfoldable hmac_start :
    (t : Transport)
    → Option SysContext
    → Option (AuthList AuthCommand)
    → ℕ
    → Option Tpm2b
    → ℕ
    → Finishing t (Option ℕ × Unit {0})
hmac_start t sys_context cmd_auths handle auth hash_alg =
    one_call t (hmac_start_prepare handle auth hash_alg) hmac_start_complete sys_context cmd_auths

unfoldable hash_data_prepare : Option Tpm2b → ℕ → ℕ → Preparing
hash_data_prepare data_value hash_alg hierarchy sys_context =
    prepare 0x17d
      (optional true tpm2b_max_buffer data_value
        ∷ arg (word w2) hash_alg
        ∷ arg (word w4) hierarchy
        ∷ [])
      (allowing true true true) sys_context

unfoldable hash_data_complete :
    (other : OtherTypes) → Completing (Option Tpm2b × Option other.TpmtTkHashcheck)
hash_data_complete other =
    complete (behind_common (get tpm2b_digest followed_by get other.tpmt_tk_hashcheck))

unfoldable hash_data :
    (other : OtherTypes) (t : Transport)
    → Option SysContext
    → Option (AuthList AuthCommand)
    → Option Tpm2b
    → ℕ
    → ℕ
    → Finishing t (Option Tpm2b × Option other.TpmtTkHashcheck)
hash_data other t sys_context cmd_auths data_value hash_alg hierarchy =
    one_call t (hash_data_prepare data_value hash_alg hierarchy) (hash_data_complete other)
      sys_context cmd_auths

unfoldable hash_sequence_start_prepare : Option Tpm2b → ℕ → Preparing
hash_sequence_start_prepare auth hash_alg sys_context =
    prepare 0x186 (optional true tpm2b_digest auth ∷ arg (word w2) hash_alg ∷ [])
      (allowing true false true) sys_context

unfoldable hash_sequence_start_complete : Completing (Option ℕ × Unit {0})
hash_sequence_start_complete = complete (get (word w4) followed_by behind_common got_all)

unfoldable hash_sequence_start :
    (t : Transport)
    → Option SysContext
    → Option (AuthList AuthCommand)
    → Option Tpm2b
    → ℕ
    → Finishing t (Option ℕ × Unit {0})
hash_sequence_start t sys_context cmd_auths auth hash_alg =
    one_call t (hash_sequence_start_prepare auth hash_alg) hash_sequence_start_complete sys_context
      cmd_auths

unfoldable sequence_update_prepare : ℕ → Option Tpm2b → Preparing
sequence_update_prepare sequence_handle buffer sys_context =
    prepare 0x15c (arg (word w4) sequence_handle ∷ optional false tpm2b_max_buffer buffer ∷ [])
      (allowing true false true) sys_context

unfoldable sequence_update_complete : Completing (Unit {0})
sequence_update_complete = complete (behind_common got_all)

unfoldable sequence_update :
    (t : Transport)
    → Option SysContext
    → Option (AuthList AuthCommand)
    → ℕ
    → Option Tpm2b
    → Finishing t (Unit {0})
sequence_update t sys_context cmd_auths sequence_handle buffer =
    one_call t (sequence_update_prepare sequence_handle buffer) sequence_update_complete sys_context
      cmd_auths
