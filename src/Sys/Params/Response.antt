-- ===== src/Sys/Params/Response.antt =====
-- The parameters of a response: the first one, and all of them.
use tpm2_tss_verified.Common.{
  ℕ, ◌+◌, ◌-◌, ◌*◌, ◌%◌, ◌≤◌, ◌<◌, ◌^◌, ◌≡◌, ◌≢◌, ◌⊎◌, inl, inr, refl, ap, true, some, length,
  ne→==, le_or_lt, arith,
}
use tpm2_tss_verified.Rc.{rc_success, tpm2_st_no_sessions, tpm2_st_sessions}
use tpm2_tss_verified.Memory.{Bytes, size_mod, slice}
use tpm2_tss_verified.Endian.{to_be}
use tpm2_tss_verified.Sys.{SysContext, cmd_stage_receive_response, is_receive_response}
use tpm2_tss_verified.Sys.Params.{get_rp_buffer}

-- The place of the first parameter in a response with sessions.
abbrev pub param_place : SysContext → ℕ
param_place ctx = 10 + ctx.num_response_handles * 4 + 4

-- A response with sessions of which the first parameter is `bytes`, and may be encrypted.
pub record HasParam (ctx : SysContext) (tag : ℕ) (bytes : Bytes) : Type 0 where
  pub stage : ctx.previous_stage ≡ cmd_stage_receive_response
  pub allowed : ctx.encrypt_allowed ≡ true
  pub tagged : slice 0 2 ctx.cmd_buffer ≡ to_be 2 tag
  pub tag_fits : tag < 2 ^ 16
  pub sessions : tag ≢ tpm2_st_no_sessions
  pub size_stands : slice (param_place ctx) 2 ctx.cmd_buffer ≡ to_be 2 (length bytes)
  pub stands : slice (param_place ctx + 2) (length bytes) ctx.cmd_buffer ≡ bytes
  pub small : length bytes < 2 ^ 16
  pub room : param_place ctx + 2 + length bytes ≤ ctx.max_cmd_size
  pub inside : ctx.max_cmd_size ≤ length ctx.cmd_buffer

wrapped :
    (a b : ℕ)
    → a < size_mod
    → b < size_mod
    → ((b ≤ a) × ((a + size_mod - b) % size_mod + b ≡ a))
      ⊎ ((a < b) × ((a + size_mod - b) % size_mod + b ≡ a + size_mod))
wrapped a b ha hb = elim (le_or_lt b a) [
  | inl h ↦ inl (h, omega arith)
  | inr h ↦ inr (h, omega arith)
]

-- GetRpBuffer on a response without sessions: with the place it returns the size of what follows,
-- if the response reaches that place; a shorter response has a size near 2^64.
pub get_rp_buffer-size :
    (ctx : SysContext) (s p : ℕ)
    → ctx.previous_stage ≡ cmd_stage_receive_response
    → ctx.rsp_header.tag ≢ tpm2_st_sessions
    → ctx.rsp_header.response_size < 2 ^ 32
    → ctx.num_response_handles < 2 ^ 32
    → (place size : ℕ) × (place ≡ 10 + ctx.num_response_handles * 4)
      × (get_rp_buffer (some ctx) (some s) (some p)
          ≡ some (record { rc = rc_success; size = some size; place = some place }))
      × (((place ≤ ctx.rsp_header.response_size) × (size + place ≡ ctx.rsp_header.response_size))
          ⊎ ((ctx.rsp_header.response_size < place)
              × (size + place ≡ ctx.rsp_header.response_size + size_mod)))
unfolding get_rp_buffer
get_rp_buffer-size ctx s p stage no_sessions size_fits handles_fit =
    let place = 10 + ctx.num_response_handles * 4 in
    let rs = ctx.rsp_header.response_size in
    let at_receive : is_receive_response ctx.previous_stage ≡ true = ap is_receive_response stage in
    (
      place,
      (rs + size_mod - place) % size_mod,
      refl,
      rw (at_receive, ne→== ctx.rsp_header.tag tpm2_st_sessions no_sessions),
      wrapped rs place (omega arith) (omega arith),
    )
