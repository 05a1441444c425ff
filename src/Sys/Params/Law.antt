-- ===== src/Sys/Params/Law.antt =====
-- The first parameter of a command, read and replaced.
use native.Mathlib.Nat.{mod-eq_of_lt}
use tpm2_tss_verified.Common.{
  ℕ, ◌+◌, ◌≤◌, ◌<◌, ◌^◌, ◌≡◌, ap, sym, ◌∙◌, true, not, some, ◌++◌, length, length-append, le→ltb,
  ne→==, ==_self, ◌==◌, arith,
}
use tpm2_tss_verified.Rc.{rc_success}
use tpm2_tss_verified.Memory.{
  Bytes, size_mod, splice, slice, slice_append, length-splice, splice-append, splice_replace,
  write_within,
}
use tpm2_tss_verified.Endian.{w2, to_be, length-to_be, to_memory-host_to_be}
use tpm2_tss_verified.Mu.Tpm2b.Wire.{sized, length-sized}
use tpm2_tss_verified.Tcti.{Header}
use tpm2_tss_verified.Tcti.Wire.{wire}
use tpm2_tss_verified.Sys.{SysContext, is_prepare}
use tpm2_tss_verified.Sys.Frame.{
  IsFramed, IsFramed-length, IsFramed-slice, IsFramed-header_field, wire_behind, word_at-to_be,
}
use tpm2_tss_verified.Sys.Params.{
  get_decrypt_param, set_param_size, copy_param, replace_param, set_decrypt_param,
}

module _ (ctx : SysContext) (h : Header) (front bytes rest buf : Bytes)
    (framed : IsFramed ctx h front (sized bytes ++ rest) buf) (small : length bytes < 2 ^ 16) where
  -- The size and the bytes of the first parameter.
  pub first_param :
      (slice ctx.cp_buffer 2 ctx.cmd_buffer ≡ to_be 2 (length bytes))
      × (slice (ctx.cp_buffer + 2) (length bytes) ctx.cmd_buffer ≡ bytes)
  first_param =
      let (l, _, fits) = IsFramed-length ctx h front (sized bytes ++ rest) buf framed in
      let p = framed.place in
      let i = framed.inside in
      let a = length-append (sized bytes) rest in
      let s = length-sized bytes in
      let (e, _) =
        slice_append ctx.cp_buffer (sized bytes) rest ctx.cmd_buffer (omega arith)
          (IsFramed-slice ctx h front (sized bytes ++ rest) buf framed) in
      let (n, b) =
        slice_append ctx.cp_buffer (to_be 2 (length bytes)) bytes ctx.cmd_buffer (omega arith) e in
      (rw (length-to_be 2 (length bytes)) at n, rw (length-to_be 2 (length bytes)) at b)

  pub get_decrypt_param-IsFramed :
      (s p : ℕ)
      → ctx.decrypt_allowed ≡ true
      → get_decrypt_param (some ctx) (some s) (some p)
        ≡ some (record {
          rc = rc_success;
          size = some (length bytes);
          place = some (ctx.cp_buffer + 2);
        })
  unfolding get_decrypt_param
  get_decrypt_param-IsFramed s p allowed =
      let (l, _, fits) = IsFramed-length ctx h front (sized bytes ++ rest) buf framed in
      let there = framed.place in
      let i = framed.inside in
      let a = length-append (sized bytes) rest in
      let b = length-sized bytes in
      let prepared : is_prepare ctx.previous_stage ≡ true = ap is_prepare framed.stage in
      rw (
        prepared,
        ap not allowed,
        word_at-to_be ctx.cp_buffer (length bytes) ctx (omega arith) small first_param.0,
      )

pub copy_param-fits :
    (param : Bytes) (ctx : SysContext)
    → length param < 2 ^ 16
    → ctx.cp_buffer + 2 + length param ≤ ctx.max_cmd_size
    → ctx.max_cmd_size ≤ length ctx.cmd_buffer
    → copy_param param (ctx.cp_buffer + 2) ctx
      ≡ some (
        rc_success,
        record ctx { cmd_buffer = splice ctx.cp_buffer (sized param) ctx.cmd_buffer },
      )
unfolding copy_param set_param_size
copy_param-fits param ctx small fits inside =
    let size = to_be 2 (length param) in
    let l = length-splice ctx.cp_buffer size ctx.cmd_buffer in
    let n = length-to_be 2 (length param) in
    rw
      (
        mod-eq_of_lt {n = length param} {m = 2 ^ 16} small,
        mod-eq_of_lt {n = length param} {m = 2 ^ 32} (omega arith),
        to_memory-host_to_be w2 (length param),
        write_within size ctx.cp_buffer ctx.cmd_buffer (omega arith),
        le→ltb ctx.max_cmd_size (ctx.cp_buffer + 2 + length param) fits,
        write_within param (ctx.cp_buffer + 2) (splice ctx.cp_buffer size ctx.cmd_buffer)
            (omega arith),
      )
      (ap (λ (b : Bytes). some (rc_success, record ctx { cmd_buffer = b }))
        (rw n at (splice-append ctx.cp_buffer size param ctx.cmd_buffer)))

module _ (ctx : SysContext) (h : Header) (front old new rest buf : Bytes)
    (framed : IsFramed ctx h front (sized old ++ rest) buf) (same : length new ≡ length old) where
  replaced-IsFramed :
      IsFramed
        (record ctx { cmd_buffer = splice ctx.cp_buffer (sized new) ctx.cmd_buffer })
        h
        front
        (sized new ++ rest)
        buf
  replaced-IsFramed =
      let l1 = length-append (sized old) rest in
      let l2 = length-append (sized new) rest in
      let s1 = length-sized old in
      let s2 = length-sized new in
      let at_place = 10 + length front in
      let e : splice at_place (sized new) (splice 0 (wire h ++ (front ++ (sized old ++ rest))) buf)
          ≡ splice 0 (wire h ++ (front ++ (sized new ++ rest))) buf =
        ap (λ (b : Bytes). splice at_place (sized new) b)
          (sym (wire_behind h front (sized old ++ rest) buf))
        ∙ (splice_replace at_place (sized new) (sized old) rest (splice 0 (wire h ++ front) buf)
              (omega arith)
            ∙ wire_behind h front (sized new ++ rest) buf) in
      record {
        stage = framed.stage;
        laid = rw (framed.laid, framed.place) e;
        size = framed.size ∙ omega arith;
        place = framed.place;
        used = framed.used ∙ omega arith;
        room = framed.room;
        inside = framed.inside;
        max = framed.max;
      }

  -- SetDecryptParam with a parameter of the size of the present one, on a prepared command whose
  -- buffer has room for both: the first parameter is replaced and nothing else changes, and
  -- GetDecryptParam gives the new one.
  pub set_decrypt_param-get_decrypt_param :
      ctx.decrypt_allowed ≡ true
      → 1 ≤ length new
      → length new < 2 ^ 16
      → h.size + length new ≤ ctx.max_cmd_size
      → (ctx' : SysContext) × (set_decrypt_param (some ctx) (some new)
          ≡ some (rc_success, some ctx'))
        × IsFramed ctx' h front (sized new ++ rest) buf
        × (get_decrypt_param (some ctx') (some 0) (some 0)
            ≡ some (record {
              rc = rc_success;
              size = some (length new);
              place = some (ctx'.cp_buffer + 2);
            }))
        × (slice (ctx'.cp_buffer + 2) (length new) ctx'.cmd_buffer ≡ new)
  unfolding set_decrypt_param replace_param
  set_decrypt_param-get_decrypt_param allowed some_bytes small fits =
      let ctx' : SysContext = record ctx {
        cmd_buffer = splice ctx.cp_buffer (sized new) ctx.cmd_buffer;
      } in
      let framed' = replaced-IsFramed in
      let (l, _, within) = IsFramed-length ctx h front (sized old ++ rest) buf framed in
      let prepared : is_prepare ctx.previous_stage ≡ true = ap is_prepare framed.stage in
      let m = framed.max in
      let i = framed.inside in
      let p = framed.place in
      let a = length-append (sized old) rest in
      let s = length-sized old in
      let same_size : (length old == length new) ≡ true =
        ap (λ (n : ℕ). length old == n) same ∙ ==_self (length old) in
      (
        ctx',
        rw (
          prepared,
          ap not allowed,
          le→ltb (length new) 1 some_bytes,
          IsFramed-header_field ctx h front (sized old ++ rest) buf framed,
          mod-eq_of_lt {n = h.size + length new} {m = size_mod} (omega arith),
          le→ltb ctx.max_cmd_size (h.size + length new) fits,
          get_decrypt_param-IsFramed ctx h front old rest buf framed (omega arith) 0 0 allowed,
          ne→== (length old) 0 (omega arith),
          same_size,
          copy_param-fits new ctx small (omega arith) (omega arith),
        ),
        framed',
        get_decrypt_param-IsFramed ctx' h front new rest buf framed' small 0 0 allowed,
        (first_param ctx' h front new rest buf framed' small).1,
      )
