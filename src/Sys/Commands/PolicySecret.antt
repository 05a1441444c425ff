-- ===== src/Sys/Commands/PolicySecret.antt =====
-- src/tss2-sys/api: Policies that an authorisation proves (secret, signature, ticket).
use tpm2_tss_verified.Common.{ℕ, true, false, Option, [], ◌∷◌}
use tpm2_tss_verified.Endian.{w4}
use tpm2_tss_verified.Mu.Tpm2b.{Tpm2b}
use tpm2_tss_verified.Mu.Format.{word}
use tpm2_tss_verified.Mu.Types.{tpm2b_digest, tpm2b_name}
use tpm2_tss_verified.Sys.{SysContext}
use tpm2_tss_verified.Sys.Execute.{Transport}
use tpm2_tss_verified.Sys.Auths.{AuthCommand, AuthList}
use tpm2_tss_verified.Sys.Command.{
  Preparing, Completing, arg, optional, required, prepare, allowing, get, got_all, ◌followed_by◌,
  behind_common, complete, Finishing, one_call,
}
use tpm2_tss_verified.Sys.Commands.{OtherTypes}

unfoldable policy_secret_prepare :
    ℕ → ℕ → Option Tpm2b → Option Tpm2b → Option Tpm2b → ℕ → Preparing
policy_secret_prepare auth_handle policy_session nonce_tpm cp_hash_a policy_ref expiration
      sys_context =
    prepare 0x151
      (arg (word w4) auth_handle
        ∷ arg (word w4) policy_session
        ∷ optional true tpm2b_digest nonce_tpm
        ∷ optional false tpm2b_digest cp_hash_a
        ∷ optional false tpm2b_digest policy_ref
        ∷ arg (word w4) expiration
        ∷ [])
      (allowing true true true) sys_context

unfoldable policy_secret_complete :
    (other : OtherTypes) → Completing (Option Tpm2b × Option other.TpmtTkAuth)
policy_secret_complete other =
    complete (behind_common (get tpm2b_digest followed_by get other.tpmt_tk_auth))

unfoldable policy_secret :
    (other : OtherTypes) (t : Transport)
    → Option SysContext
    → Option (AuthList AuthCommand)
    → ℕ
    → ℕ
    → Option Tpm2b
    → Option Tpm2b
    → Option Tpm2b
    → ℕ
    → Finishing t (Option Tpm2b × Option other.TpmtTkAuth)
policy_secret other t sys_context cmd_auths auth_handle policy_session nonce_tpm cp_hash_a
      policy_ref expiration =
    one_call t
      (policy_secret_prepare auth_handle policy_session nonce_tpm cp_hash_a policy_ref expiration)
      (policy_secret_complete other) sys_context cmd_auths

unfoldable policy_signed_prepare :
    (other : OtherTypes)
    → ℕ
    → ℕ
    → Option Tpm2b
    → Option Tpm2b
    → Option Tpm2b
    → ℕ
    → Option other.TpmtSignature
    → Preparing
policy_signed_prepare other auth_object policy_session nonce_tpm cp_hash_a policy_ref expiration
      auth sys_context =
    required auth sys_context (λ auth.
      prepare 0x160
        (arg (word w4) auth_object
          ∷ arg (word w4) policy_session
          ∷ optional true tpm2b_digest nonce_tpm
          ∷ optional false tpm2b_digest cp_hash_a
          ∷ optional false tpm2b_digest policy_ref
          ∷ arg (word w4) expiration
          ∷ arg other.tpmt_signature auth
          ∷ [])
        (allowing true true true) sys_context)

unfoldable policy_signed_complete :
    (other : OtherTypes) → Completing (Option Tpm2b × Option other.TpmtTkAuth)
policy_signed_complete other =
    complete (behind_common (get tpm2b_digest followed_by get other.tpmt_tk_auth))

unfoldable policy_signed :
    (other : OtherTypes) (t : Transport)
    → Option SysContext
    → Option (AuthList AuthCommand)
    → ℕ
    → ℕ
    → Option Tpm2b
    → Option Tpm2b
    → Option Tpm2b
    → ℕ
    → Option other.TpmtSignature
    → Finishing t (Option Tpm2b × Option other.TpmtTkAuth)
policy_signed other t sys_context cmd_auths auth_object policy_session nonce_tpm cp_hash_a
      policy_ref expiration auth =
    one_call t
      (λ ctx. required auth ctx (λ _.
        policy_signed_prepare other auth_object policy_session nonce_tpm cp_hash_a policy_ref
          expiration auth ctx))
      (policy_signed_complete other) sys_context cmd_auths

unfoldable policy_ticket_prepare :
    (other : OtherTypes)
    → ℕ
    → Option Tpm2b
    → Option Tpm2b
    → Option Tpm2b
    → Option Tpm2b
    → Option other.TpmtTkAuth
    → Preparing
policy_ticket_prepare other policy_session timeout cp_hash_a policy_ref auth_name ticket
      sys_context =
    required ticket sys_context (λ ticket.
      prepare 0x172
        (arg (word w4) policy_session
          ∷ optional true tpm2b_digest timeout
          ∷ optional false tpm2b_digest cp_hash_a
          ∷ optional false tpm2b_digest policy_ref
          ∷ optional false tpm2b_name auth_name
          ∷ arg other.tpmt_tk_auth ticket
          ∷ [])
        (allowing true false true) sys_context)

unfoldable policy_ticket_complete : Completing (Unit {0})
policy_ticket_complete = complete (behind_common got_all)

unfoldable policy_ticket :
    (other : OtherTypes) (t : Transport)
    → Option SysContext
    → Option (AuthList AuthCommand)
    → ℕ
    → Option Tpm2b
    → Option Tpm2b
    → Option Tpm2b
    → Option Tpm2b
    → Option other.TpmtTkAuth
    → Finishing t (Unit {0})
policy_ticket other t sys_context cmd_auths policy_session timeout cp_hash_a policy_ref auth_name
      ticket =
    one_call t
      (λ ctx. required ticket ctx (λ _.
        policy_ticket_prepare other policy_session timeout cp_hash_a policy_ref auth_name ticket
          ctx))
      policy_ticket_complete sys_context cmd_auths
