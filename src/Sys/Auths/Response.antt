-- ===== src/Sys/Auths/Response.antt =====
-- GetRspAuths, on a response of any bytes.
use tpm2_tss_verified.Common.{
  ℕ, zero, suc, ◌+◌, ◌≤◌, ◌<◌, ◌≡◌, ◌≢◌, refl, ◌⊎◌, inl, inr, some, List, [], ◌∷◌, ◌++◌, length,
  take, All, length-append, le_or_lt, lt→ltb, le→ltb, ne→==, arith,
}
use tpm2_tss_verified.Rc.{rc_success, sys_malformed_response}
use tpm2_tss_verified.Memory.{Bytes, size_mod, slice, slice-split}
use tpm2_tss_verified.Endian.{IsByte}
use tpm2_tss_verified.Mu.Types.{tpms_auth_response}
use tpm2_tss_verified.Sys.{SysContext}
use tpm2_tss_verified.Sys.Frame.{word_at-returns}
use tpm2_tss_verified.Sys.Auths.{AuthResponse, validate_auths, auths_unmarshal}

-- The array of a response's authorisations, and the authorisations on the wire.
abbrev pub HasRoom : AuthResponse → Type 0
HasRoom = tpms_auth_response.codec.HasShape

abbrev pub rsp_area : List AuthResponse → Bytes
rsp_area [] = []
rsp_area (auth ∷ auths) =
    tpms_auth_response.codec.encode (tpms_auth_response.codec.view auth) ++ rsp_area auths

-- The validation reads inside the response, whatever the response says.
pub validate_auths-returns :
    (n offset : ℕ) (ctx : SysContext)
    → ctx.rsp_header.response_size ≤ length ctx.cmd_buffer
    → (rc : ℕ) × (validate_auths n offset ctx ≡ some rc)
unfolding validate_auths
validate_auths-returns zero offset ctx inside = (rc_success, refl)
validate_auths-returns (suc n) offset ctx inside =
    let end = ctx.rsp_header.response_size in
    elim (le_or_lt (offset + 2) end) [
      | inr out ↦ (sys_malformed_response, rw (lt→ltb end (offset + 2) out))
      | inl in1 ↦
          let (nonce, e) = word_at-returns offset ctx (omega arith) in
          let behind_nonce = offset + (2 + nonce) in
          elim (le_or_lt (behind_nonce + 1 + 2) end) [
            | inr out ↦ elim (le_or_lt (behind_nonce + 2) end) [
              | inr out' ↦ (
                sys_malformed_response,
                rw (le→ltb end (offset + 2) in1, e, lt→ltb end (behind_nonce + 2) out'),
              )
              | inl in2 ↦ (
                sys_malformed_response,
                rw (
                  le→ltb end (offset + 2) in1,
                  e,
                  le→ltb end (behind_nonce + 2) in2,
                  lt→ltb end (behind_nonce + 1 + 2) out,
                ),
              )
            ]
            | inl in3 ↦
                let (hmac, f) = word_at-returns (behind_nonce + 1) ctx (omega arith) in
                let behind_hmac = behind_nonce + 1 + (2 + hmac) in
                elim (le_or_lt behind_hmac end) [
                  | inr out ↦ (
                    sys_malformed_response,
                    rw (
                      le→ltb end (offset + 2) in1,
                      e,
                      le→ltb end (behind_nonce + 2) (omega arith),
                      le→ltb end (behind_nonce + 1 + 2) in3,
                      f,
                      lt→ltb end behind_hmac out,
                    ),
                  )
                  | inl in4 ↦
                      let (rc, rest) = validate_auths-returns n behind_hmac ctx inside in
                      (
                        rc,
                        rw (
                          le→ltb end (offset + 2) in1,
                          e,
                          le→ltb end (behind_nonce + 2) (omega arith),
                          le→ltb end (behind_nonce + 1 + 2) in3,
                          f,
                          le→ltb end behind_hmac in4,
                          rest,
                        ),
                      )
                ]
          ]
    ]

-- `n` authorisations were read from the bytes at the offset.
abbrev pub ReadFrom : ℕ → ℕ → SysContext → List AuthResponse → Type 0
ReadFrom n offset ctx auths =
    (offset + length (rsp_area (take n auths)) ≤ ctx.max_cmd_size)
    × (slice offset (length (rsp_area (take n auths))) ctx.cmd_buffer ≡ rsp_area (take n auths))

module _ (ctx : SysContext) (bytes : All IsByte ctx.cmd_buffer)
    (inside : ctx.max_cmd_size ≤ length ctx.cmd_buffer) (max : ctx.max_cmd_size < size_mod) where
  pub auths_unmarshal-decodes :
      (n : ℕ) (auths : List AuthResponse) (offset : ℕ)
      → All HasRoom auths
      → n ≤ length auths
      → offset ≤ ctx.max_cmd_size
      → (rc : ℕ) × (auths' : List AuthResponse) × (auths_unmarshal n auths offset ctx
          ≡ some (rc, auths'))
        × ((rc ≢ rc_success) ⊎ ((rc ≡ rc_success) × ReadFrom n offset ctx auths'))
  unfolding auths_unmarshal
  auths_unmarshal-decodes zero auths offset shapes room start =
      (rc_success, auths, refl, inr (refl, (omega arith, refl)))
  auths_unmarshal-decodes (suc n) [] offset shapes room start = absurd (omega arith)
  auths_unmarshal-decodes (suc n) (auth ∷ auths) offset (shape, shapes) room start =
      elim (tpms_auth_response.law.decodes auth ctx.cmd_buffer ctx.max_cmd_size offset shape bytes
        inside max) [
          | inl a ↦
              let enc = tpms_auth_response.codec.encode (tpms_auth_response.codec.view a.object) in
              let here = a.inside in
              let (rc, auths', done, what) =
                auths_unmarshal-decodes n auths (offset + length enc) shapes (omega arith) here in
              let l = length-append enc (rsp_area (take n auths')) in
              let two =
                slice-split offset (length enc) (length (rsp_area (take n auths')))
                  ctx.cmd_buffer in
              (
                rc,
                a.object ∷ auths',
                rw (a.result, done),
                elim what [
                  | inl failed ↦ inl failed
                  | inr (fine, (bound, eq)) ↦ inr (fine, (omega arith, rw (l, two, a.encoded, eq)))
                ],
              )
          | inr r ↦ (
            r.code,
            r.left ∷ auths,
            rw (r.result, ne→== r.code rc_success r.failed),
            inl r.failed,
          )
        ]
