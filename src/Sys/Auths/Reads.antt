-- ===== src/Sys/Auths/Reads.antt =====
-- GetRspAuths: what a response holds is what is returned.
use tpm2_tss_verified.Common.{
  ℕ, ◌+◌, ◌*◌, ◌≤◌, ◌<◌, ◌≡◌, refl, some, List, [], ◌∷◌, ◌++◌, map, length, take, All,
  length-append, le→ltb, arith,
}
use mathlib.Core.Path.{ap₂}
use tpm2_tss_verified.Rc.{rc_success}
use tpm2_tss_verified.Memory.{Bytes, size_mod, slice, slice_append}
use tpm2_tss_verified.Endian.{to_be, length-to_be}
use tpm2_tss_verified.Mu.Tpm2b.Wire.{payload, sized, length-payload, length-sized}
use tpm2_tss_verified.Mu.Types.{tpms_auth_response}
use tpm2_tss_verified.Sys.{SysContext}
use tpm2_tss_verified.Sys.Frame.{word_at-to_be}
use tpm2_tss_verified.Sys.Auths.{AuthResponse, validate_auths, auths_unmarshal}
use tpm2_tss_verified.Sys.Auths.Response.{HasRoom, rsp_area}

-- An authorisation of a response whose nonce and HMAC fit their arrays, and what goes on the wire.
abbrev pub IsRspAuth : AuthResponse → Type 0
IsRspAuth = tpms_auth_response.codec.IsValid

abbrev pub rsp_view : AuthResponse → Bytes × (ℕ × Bytes)
rsp_view = tpms_auth_response.codec.view

-- The place of the authorisation area in a response whose size of parameters is given.
abbrev pub area_place : SysContext → ℕ → ℕ
area_place ctx params_size = 10 + ctx.num_response_handles * 4 + params_size + 4

-- A run of bytes that stands at a place.
abbrev pub Stands : Bytes → ℕ → Bytes → Type 0
Stands bytes place buf = slice place (length bytes) buf ≡ bytes

-- The two sizes that the validation reads.
sizes_of :
    (auth : AuthResponse) (offset : ℕ) (ctx : SysContext)
    → IsRspAuth auth
    → offset + length (tpms_auth_response.codec.encode (rsp_view auth)) ≤ length ctx.cmd_buffer
    → Stands (tpms_auth_response.codec.encode (rsp_view auth)) offset ctx.cmd_buffer
    → (slice offset 2 ctx.cmd_buffer ≡ to_be 2 (length (payload auth.0)))
      × (slice (offset + (2 + length (payload auth.0)) + 1) 2 ctx.cmd_buffer
          ≡ to_be 2 (length (payload auth.1.1)))
sizes_of (nonce, (attributes, hmac)) offset ctx valid room e =
    let buf = ctx.cmd_buffer in
    let n = payload nonce in
    let m = payload hmac in
    let f = to_be 1 attributes in
    let ln = length-sized n in
    let lm = length-sized m in
    let lf = length-to_be 1 attributes in
    let l1 = length-append (sized n) (f ++ sized m) in
    let l2 = length-append f (sized m) in
    let (e1, e2) = slice_append offset (sized n) (f ++ sized m) buf room e in
    let (e3, _) = slice_append offset (to_be 2 (length n)) n buf (omega arith) e1 in
    let e2' : slice (offset + (2 + length n)) (length (f ++ sized m)) buf ≡ f ++ sized m =
      rw ln at e2 in
    let (_, e4) = slice_append (offset + (2 + length n)) f (sized m) buf (omega arith) e2' in
    let e4' : slice (offset + (2 + length n) + 1) (length (sized m)) buf ≡ sized m = rw lf at e4 in
    let (e5, _) =
      slice_append (offset + (2 + length n) + 1) (to_be 2 (length m)) m buf (omega arith) e4' in
    (rw (length-to_be 2 (length n)) at e3, rw (length-to_be 2 (length m)) at e5)

module _ (ctx : SysContext) where
  -- The validation lets a well-formed area pass.
  pub validate_auths-passes :
      (auths : List AuthResponse) (offset : ℕ)
      → All IsRspAuth auths
      → offset + length (rsp_area auths) ≤ ctx.rsp_header.response_size
      → ctx.rsp_header.response_size ≤ length ctx.cmd_buffer
      → Stands (rsp_area auths) offset ctx.cmd_buffer
      → validate_auths (length auths) offset ctx ≡ some rc_success
  unfolding validate_auths
  validate_auths-passes [] offset valid room inside e = refl
  validate_auths-passes ((nonce, (attributes, hmac)) ∷ auths) offset ((vn, (vf, vh)), valid) room
        inside e =
      let auth : AuthResponse = (nonce, (attributes, hmac)) in
      let end = ctx.rsp_header.response_size in
      let enc = tpms_auth_response.codec.encode (rsp_view auth) in
      let n = payload nonce in
      let m = payload hmac in
      let f = to_be 1 attributes in
      let l = length-append enc (rsp_area auths) in
      let l1 = length-append (sized n) (f ++ sized m) in
      let l2 = length-append f (sized m) in
      let lf = length-to_be 1 attributes in
      let ln = length-sized n in
      let lm = length-sized m in
      let (here, rest) = slice_append offset enc (rsp_area auths) ctx.cmd_buffer (omega arith) e in
      let (s1, s2) = sizes_of auth offset ctx (vn, (vf, vh)) (omega arith) here in
      let behind_nonce = offset + (2 + length n) in
      let behind_hmac = behind_nonce + 1 + (2 + length m) in
      let there : offset + length enc ≡ behind_hmac = omega arith in
      let pn = length-payload 64 nonce vn in
      let ph = length-payload 64 hmac vh in
      let fn = vn.fits in
      let fh = vh.fits in
      rw (
        le→ltb end (offset + 2) (omega arith),
        word_at-to_be offset (length n) ctx (omega arith) (omega arith) s1,
        le→ltb end (behind_nonce + 2) (omega arith),
        le→ltb end (behind_nonce + 1 + 2) (omega arith),
        word_at-to_be (behind_nonce + 1) (length m) ctx (omega arith) (omega arith) s2,
        le→ltb end behind_hmac (omega arith),
        validate_auths-passes auths behind_hmac valid (omega arith) inside (rw there at rest),
      )

  module _ (inside : ctx.max_cmd_size ≤ length ctx.cmd_buffer)
      (max : ctx.max_cmd_size < size_mod) where
    pub auths_unmarshal-reads :
        (auths dest : List AuthResponse) (offset : ℕ)
        → All IsRspAuth auths
        → All HasRoom dest
        → length auths ≤ length dest
        → offset + length (rsp_area auths) ≤ ctx.max_cmd_size
        → Stands (rsp_area auths) offset ctx.cmd_buffer
        → (dest' : List AuthResponse) × (auths_unmarshal (length auths) dest offset ctx
            ≡ some (rc_success, dest'))
          × (map rsp_view (take (length auths) dest') ≡ map rsp_view auths)
    unfolding auths_unmarshal
    auths_unmarshal-reads [] dest offset valid shapes room fits e = (dest, refl, refl)
    auths_unmarshal-reads (auth ∷ auths) [] offset valid shapes room fits e = absurd (omega arith)
    auths_unmarshal-reads (auth ∷ auths) (d ∷ dest) offset (v, valid) (shape, shapes) room fits e =
        let enc = tpms_auth_response.codec.encode (rsp_view auth) in
        let l = length-append enc (rsp_area auths) in
        let (here, rest) =
          slice_append offset enc (rsp_area auths) ctx.cmd_buffer (omega arith) e in
        let (d', _, same, done) =
          tpms_auth_response.law.reads auth d ctx.cmd_buffer ctx.max_cmd_size offset v shape
            (omega arith) inside max here in
        let (dest', done', same') =
          auths_unmarshal-reads auths dest (offset + length enc) valid shapes (omega arith)
            (omega arith) rest in
        (d' ∷ dest', rw (done, done'), ap₂ (λ x xs. x ∷ xs) same same')
