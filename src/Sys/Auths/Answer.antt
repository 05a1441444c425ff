-- ===== src/Sys/Auths/Answer.antt =====
-- GetRspAuths as a whole.
use tpm2_tss_verified.Common.{
  ℕ, ◌+◌, ◌≤◌, ◌<◌, ◌^◌, ◌≡◌, ◌≢◌, refl, ap, ◌∙◌, ◌⊎◌, inl, inr, true, not, some, List, ◌||◌, map,
  length, take, All, Bool-cases, le_or_lt, lt→ltb, le→ltb, ◌==◌, arith,
}
use tpm2_tss_verified.Rc.{rc_success, sys_malformed_response, sys_bad_sequence, tpm2_st_sessions}
use tpm2_tss_verified.Memory.{size_mod, slice, read_within, length-slice}
use tpm2_tss_verified.Endian.{
  w4, IsByte, to_be, of_be, length-to_be, be_to_host-of_memory, slice-IsByte, of_be-to_be,
  to_be-IsByte,
}
use tpm2_tss_verified.Sys.{SysContext, cmd_stage_receive_response, is_receive_response}
use tpm2_tss_verified.Sys.Auths.{
  AuthResponse, AuthList, validate_auths, auths_unmarshal, get_rsp_auths,
}
use tpm2_tss_verified.Sys.Auths.Response.{
  HasRoom, rsp_area, ReadFrom, validate_auths-returns, auths_unmarshal-decodes,
}
use tpm2_tss_verified.Sys.Auths.Reads.{
  IsRspAuth, rsp_view, area_place, Stands, validate_auths-passes, auths_unmarshal-reads,
}

begins : (m n k : ℕ) → m + 2 ≤ n → n ≤ k → m ≤ k
begins m n k h g = omega arith

within : (m n k : ℕ) → m ≤ n → n ≤ k → m ≤ k
within m n k h g = omega arith

-- An error, or the authorisations that stand behind the parameters.
abbrev pub Answer : SysContext → ℕ → ℕ → AuthList AuthResponse → Type 0
Answer ctx params_size rc list =
    (rc ≢ rc_success)
    ⊎ ((rc ≡ rc_success)
        × ((list.count ≡ ctx.auths_count)
            × ReadFrom ctx.auths_count (area_place ctx params_size) ctx list.auths))

-- On a response of any bytes that fits the command buffer, GetRspAuths returns: it reads nothing
-- outside the buffer, and what it returns with success is encoded in the response, behind the
-- parameters.
pub get_rsp_auths-decodes :
    (ctx : SysContext) (list : AuthList AuthResponse)
    → All IsByte ctx.cmd_buffer
    → ctx.rsp_header.response_size ≤ ctx.max_cmd_size
    → ctx.max_cmd_size ≤ length ctx.cmd_buffer
    → ctx.max_cmd_size < size_mod
    → ctx.rsp_params_size + 4 ≤ length ctx.cmd_buffer
    → ctx.auths_count ≤ length list.auths
    → All HasRoom list.auths
    → (rc : ℕ) × (list' : AuthList AuthResponse) × (get_rsp_auths (some ctx) (some list)
        ≡ some (rc, some list'))
      × Answer ctx (of_be (slice ctx.rsp_params_size 4 ctx.cmd_buffer)) rc list'
unfolding get_rsp_auths
get_rsp_auths-decodes ctx list bytes fits inside max params room shapes =
    let stage = is_receive_response ctx.previous_stage in
    let end = ctx.rsp_header.response_size in
    let out_of_order =
      not stage || (not (ctx.rsp_header.response_code == rc_success) || not ctx.auth_allowed) in
    let sizes = slice ctx.rsp_params_size 4 ctx.cmd_buffer in
    let offset = area_place ctx (of_be sizes) in
    let look = read_within 4 ctx.rsp_params_size ctx.cmd_buffer params in
    let swap =
      be_to_host-of_memory w4 sizes (length-slice ctx.rsp_params_size 4 ctx.cmd_buffer params)
        (slice-IsByte ctx.rsp_params_size 4 ctx.cmd_buffer bytes) in
    elim (Bool-cases out_of_order) [
      | inl h ↦ (sys_bad_sequence, list, rw h, inl (λ e. cc))
      | inr h ↦ elim (Bool-cases (not (tpm2_st_sessions == ctx.rsp_header.tag))) [
        | inl k ↦ (sys_bad_sequence, list, rw (h, k), inl (λ e. cc))
        | inr k ↦ elim (le_or_lt (offset + 2) end) [
          | inr out ↦ (
            sys_malformed_response,
            list,
            rw (h, k, look, swap, lt→ltb end (offset + 2) out),
            inl (λ e. cc),
          )
          | inl here ↦
              let (valid, v) =
                validate_auths-returns ctx.auths_count offset ctx
                  (within end ctx.max_cmd_size (length ctx.cmd_buffer) fits inside) in
              elim (Bool-cases (valid == rc_success)) [
                | inr bad ↦ (
                  valid,
                  list,
                  rw (h, k, look, swap, le→ltb end (offset + 2) here, v, bad),
                  inl (ground arith),
                )
                | inl good ↦
                    let (rc, auths, done, what) =
                      auths_unmarshal-decodes ctx bytes inside max ctx.auths_count list.auths offset
                        shapes room (begins offset end ctx.max_cmd_size here fits) in
                    (
                      rc,
                      record { count = ctx.auths_count; auths = auths },
                      rw (h, k, look, swap, le→ltb end (offset + 2) here, v, good, done),
                      elim what [
                        | inl failed ↦ inl failed
                        | inr (fine, read_from) ↦ inr (fine, (refl, read_from))
                      ],
                    )
              ]
        ]
      ]
    ]

-- A response with sessions that holds `auths` behind its parameters, one for each authorisation of
-- the command: GetRspAuths returns what they hold.
pub get_rsp_auths-reads :
    (ctx : SysContext) (list : AuthList AuthResponse) (auths : List AuthResponse) (params_size : ℕ)
    → ctx.previous_stage ≡ cmd_stage_receive_response
    → ctx.rsp_header.response_code ≡ rc_success
    → ctx.rsp_header.tag ≡ tpm2_st_sessions
    → ctx.auth_allowed ≡ true
    → ctx.auths_count ≡ length auths
    → All IsRspAuth auths
    → 2 ≤ length (rsp_area auths)
    → area_place ctx params_size + length (rsp_area auths) ≤ ctx.rsp_header.response_size
    → ctx.rsp_header.response_size ≤ ctx.max_cmd_size
    → ctx.max_cmd_size ≤ length ctx.cmd_buffer
    → ctx.max_cmd_size < size_mod
    → ctx.rsp_params_size + 4 ≤ length ctx.cmd_buffer
    → params_size < 2 ^ 32
    → slice ctx.rsp_params_size 4 ctx.cmd_buffer ≡ to_be 4 params_size
    → Stands (rsp_area auths) (area_place ctx params_size) ctx.cmd_buffer
    → All HasRoom list.auths
    → length auths ≤ length list.auths
    → (list' : AuthList AuthResponse) × (get_rsp_auths (some ctx) (some list)
        ≡ some (rc_success, some list'))
      × (list'.count ≡ length auths)
      × (map rsp_view (take (length auths) list'.auths) ≡ map rsp_view auths)
unfolding get_rsp_auths
get_rsp_auths-reads ctx list auths params_size stage code tag allowed count valid some_auths area
      fits inside max params small sized stands shapes room =
    let place = area_place ctx params_size in
    let end = ctx.rsp_header.response_size in
    let at_receive : is_receive_response ctx.previous_stage ≡ true = ap is_receive_response stage in
    let at_code : (ctx.rsp_header.response_code == rc_success) ≡ true =
      ap (λ (n : ℕ). n == rc_success) code in
    let at_tag : (tpm2_st_sessions == ctx.rsp_header.tag) ≡ true =
      ap (λ (n : ℕ). tpm2_st_sessions == n) tag in
    let (dest, done, same) =
      auths_unmarshal-reads ctx inside max auths list.auths place valid shapes room (omega arith)
        stands in
    let passes : validate_auths ctx.auths_count place ctx ≡ some rc_success =
      ap (λ (n : ℕ). validate_auths n place ctx) count
      ∙ validate_auths-passes ctx auths place valid area (omega arith) stands in
    let read_them : auths_unmarshal ctx.auths_count list.auths place ctx ≡ some (rc_success, dest) =
      ap (λ (n : ℕ). auths_unmarshal n list.auths place ctx) count ∙ done in
    (
      record { count = ctx.auths_count; auths = dest },
      rw (
        at_receive,
        at_code,
        ap not allowed,
        at_tag,
        read_within 4 ctx.rsp_params_size ctx.cmd_buffer params,
        sized,
        be_to_host-of_memory w4 (to_be 4 params_size) (length-to_be 4 params_size)
            (to_be-IsByte 4 params_size),
        of_be-to_be 4 params_size small,
        le→ltb end (place + 2) (omega arith),
        passes,
        read_them,
      ),
      count,
      same,
    )
