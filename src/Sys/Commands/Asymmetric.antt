-- ===== src/Sys/Commands/Asymmetric.antt =====
-- src/tss2-sys/api: Asymmetric primitives.
use tpm2_tss_verified.Common.{ℕ, true, false, Option, [], ◌∷◌}
use tpm2_tss_verified.Endian.{w2, w4}
use tpm2_tss_verified.Mu.Tpm2b.{Tpm2b}
use tpm2_tss_verified.Mu.Format.{word}
use tpm2_tss_verified.Mu.Buffers.{tpm2b_data, tpm2b_public_key_rsa}
use tpm2_tss_verified.Sys.{SysContext}
use tpm2_tss_verified.Sys.Execute.{Transport}
use tpm2_tss_verified.Sys.Auths.{AuthCommand, AuthList}
use tpm2_tss_verified.Sys.Command.{
  Preparing, Completing, arg, optional, required, prepare, allowing, get, ◌followed_by◌,
  behind_common, complete, Finishing, one_call,
}
use tpm2_tss_verified.Sys.Commands.{OtherTypes}

unfoldable ecc_parameters_prepare : ℕ → Preparing
ecc_parameters_prepare curve_id sys_context =
    prepare 0x178 (arg (word w2) curve_id ∷ []) (allowing false false true) sys_context

unfoldable ecc_parameters_complete :
    (other : OtherTypes) → Completing (Option other.TpmsAlgorithmDetailEcc)
ecc_parameters_complete other = complete (behind_common (get other.tpms_algorithm_detail_ecc))

unfoldable ecc_parameters :
    (other : OtherTypes) (t : Transport)
    → Option SysContext
    → Option (AuthList AuthCommand)
    → ℕ
    → Finishing t (Option other.TpmsAlgorithmDetailEcc)
ecc_parameters other t sys_context cmd_auths curve_id =
    one_call t (ecc_parameters_prepare curve_id) (ecc_parameters_complete other) sys_context
      cmd_auths

unfoldable ecdh_key_gen_prepare : ℕ → Preparing
ecdh_key_gen_prepare key_handle sys_context =
    prepare 0x163 (arg (word w4) key_handle ∷ []) (allowing false true true) sys_context

unfoldable ecdh_key_gen_complete :
    (other : OtherTypes) → Completing (Option other.Tpm2bEccPoint × Option other.Tpm2bEccPoint)
ecdh_key_gen_complete other =
    complete (behind_common (get other.tpm2b_ecc_point followed_by get other.tpm2b_ecc_point))

unfoldable ecdh_key_gen :
    (other : OtherTypes) (t : Transport)
    → Option SysContext
    → Option (AuthList AuthCommand)
    → ℕ
    → Finishing t (Option other.Tpm2bEccPoint × Option other.Tpm2bEccPoint)
ecdh_key_gen other t sys_context cmd_auths key_handle =
    one_call t (ecdh_key_gen_prepare key_handle) (ecdh_key_gen_complete other) sys_context cmd_auths

unfoldable ecdh_z_gen_prepare : (other : OtherTypes) → ℕ → Option other.Tpm2bEccPoint → Preparing
ecdh_z_gen_prepare other key_handle in_point sys_context =
    prepare 0x154 (arg (word w4) key_handle ∷ optional false other.tpm2b_ecc_point in_point ∷ [])
      (allowing true true true) sys_context

unfoldable ecdh_z_gen_complete : (other : OtherTypes) → Completing (Option other.Tpm2bEccPoint)
ecdh_z_gen_complete other = complete (behind_common (get other.tpm2b_ecc_point))

unfoldable ecdh_z_gen :
    (other : OtherTypes) (t : Transport)
    → Option SysContext
    → Option (AuthList AuthCommand)
    → ℕ
    → Option other.Tpm2bEccPoint
    → Finishing t (Option other.Tpm2bEccPoint)
ecdh_z_gen other t sys_context cmd_auths key_handle in_point =
    one_call t (ecdh_z_gen_prepare other key_handle in_point) (ecdh_z_gen_complete other)
      sys_context cmd_auths

unfoldable rsa_decrypt_prepare :
    (other : OtherTypes) → ℕ → Option Tpm2b → Option other.TpmtRsaDecrypt → Option Tpm2b → Preparing
rsa_decrypt_prepare other key_handle cipher_text in_scheme label sys_context =
    required in_scheme sys_context (λ in_scheme.
      prepare 0x159
        (arg (word w4) key_handle
          ∷ optional true tpm2b_public_key_rsa cipher_text
          ∷ arg other.tpmt_rsa_decrypt in_scheme
          ∷ optional false tpm2b_data label
          ∷ [])
        (allowing true true true) sys_context)

unfoldable rsa_decrypt_complete : Completing (Option Tpm2b)
rsa_decrypt_complete = complete (behind_common (get tpm2b_public_key_rsa))

unfoldable rsa_decrypt :
    (other : OtherTypes) (t : Transport)
    → Option SysContext
    → Option (AuthList AuthCommand)
    → ℕ
    → Option Tpm2b
    → Option other.TpmtRsaDecrypt
    → Option Tpm2b
    → Finishing t (Option Tpm2b)
rsa_decrypt other t sys_context cmd_auths key_handle cipher_text in_scheme label =
    one_call t
      (λ ctx.
        required in_scheme ctx
          (λ _. rsa_decrypt_prepare other key_handle cipher_text in_scheme label ctx))
      rsa_decrypt_complete sys_context cmd_auths

unfoldable rsa_encrypt_prepare :
    (other : OtherTypes) → ℕ → Option Tpm2b → Option other.TpmtRsaDecrypt → Option Tpm2b → Preparing
rsa_encrypt_prepare other key_handle message in_scheme label sys_context =
    required in_scheme sys_context (λ in_scheme.
      prepare 0x174
        (arg (word w4) key_handle
          ∷ optional true tpm2b_public_key_rsa message
          ∷ arg other.tpmt_rsa_decrypt in_scheme
          ∷ optional false tpm2b_data label
          ∷ [])
        (allowing true true true) sys_context)

unfoldable rsa_encrypt_complete : Completing (Option Tpm2b)
rsa_encrypt_complete = complete (behind_common (get tpm2b_public_key_rsa))

unfoldable rsa_encrypt :
    (other : OtherTypes) (t : Transport)
    → Option SysContext
    → Option (AuthList AuthCommand)
    → ℕ
    → Option Tpm2b
    → Option other.TpmtRsaDecrypt
    → Option Tpm2b
    → Finishing t (Option Tpm2b)
rsa_encrypt other t sys_context cmd_auths key_handle message in_scheme label =
    one_call t
      (λ ctx.
        required in_scheme ctx
          (λ _. rsa_encrypt_prepare other key_handle message in_scheme label ctx))
      rsa_encrypt_complete sys_context cmd_auths

unfoldable z_gen_2_phase_prepare :
    (other : OtherTypes)
    → ℕ
    → Option other.Tpm2bEccPoint
    → Option other.Tpm2bEccPoint
    → ℕ
    → ℕ
    → Preparing
z_gen_2_phase_prepare other key_a in_qs_b in_qe_b in_scheme counter sys_context =
    prepare 0x18d
      (arg (word w4) key_a
        ∷ optional true other.tpm2b_ecc_point in_qs_b
        ∷ optional false other.tpm2b_ecc_point in_qe_b
        ∷ arg (word w2) in_scheme
        ∷ arg (word w2) counter
        ∷ [])
      (allowing true true true) sys_context

unfoldable z_gen_2_phase_complete :
    (other : OtherTypes) → Completing (Option other.Tpm2bEccPoint × Option other.Tpm2bEccPoint)
z_gen_2_phase_complete other =
    complete (behind_common (get other.tpm2b_ecc_point followed_by get other.tpm2b_ecc_point))

unfoldable z_gen_2_phase :
    (other : OtherTypes) (t : Transport)
    → Option SysContext
    → Option (AuthList AuthCommand)
    → ℕ
    → Option other.Tpm2bEccPoint
    → Option other.Tpm2bEccPoint
    → ℕ
    → ℕ
    → Finishing t (Option other.Tpm2bEccPoint × Option other.Tpm2bEccPoint)
z_gen_2_phase other t sys_context cmd_auths key_a in_qs_b in_qe_b in_scheme counter =
    one_call t (z_gen_2_phase_prepare other key_a in_qs_b in_qe_b in_scheme counter)
      (z_gen_2_phase_complete other) sys_context cmd_auths
