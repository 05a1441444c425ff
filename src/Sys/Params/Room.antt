-- ===== src/Sys/Params/Room.antt =====
-- SetDecryptParam where the first parameter was prepared as NULL.
use native.Mathlib.Nat.{mod-eq_of_lt}
use tpm2_tss_verified.Common.{
  ℕ, ◌+◌, ◌-◌, ◌≤◌, ◌<◌, ◌^◌, ◌≡◌, refl, ap, ◌∙◌, true, not, some, [], ◌++◌, length, length-append,
  le→ltb, arith,
}
use tpm2_tss_verified.Rc.{rc_success}
use tpm2_tss_verified.Memory.{
  Bytes, size_mod, splice, slice, slice_append, length-splice, splice_absorb, splice_comm,
  write_within,
}
use tpm2_tss_verified.Endian.{w2, to_be, length-to_be, to_memory-host_to_be}
use tpm2_tss_verified.Mu.Tpm2b.Wire.{sized, length-sized}
use tpm2_tss_verified.Tcti.{Header}
use tpm2_tss_verified.Sys.{SysContext, is_prepare, header_field}
use tpm2_tss_verified.Sys.Frame.{
  IsFramed, IsFramed-length, IsFramed-slice, IsFramed-header_field, header_field-splice,
  set_header_field_fits, move_fits,
}
use tpm2_tss_verified.Sys.Params.{set_param_size, make_room, replace_param, set_decrypt_param}
use tpm2_tss_verified.Sys.Params.Law.{first_param, get_decrypt_param-IsFramed, copy_param-fits}

set_param_size-fits :
    (n : ℕ) (ctx : SysContext)
    → n < 2 ^ 16
    → ctx.cp_buffer + 2 ≤ length ctx.cmd_buffer
    → set_param_size n ctx
      ≡ some (record ctx { cmd_buffer = splice ctx.cp_buffer (to_be 2 n) ctx.cmd_buffer })
unfolding set_param_size
set_param_size-fits n ctx small room =
    let l = length-to_be 2 n in
    rw (
      mod-eq_of_lt {n = n} {m = 2 ^ 16} small,
      to_memory-host_to_be w2 n,
      write_within (to_be 2 n) ctx.cp_buffer ctx.cmd_buffer (omega arith),
    )

-- The size of the parameter is written twice.
size_twice :
    (place n : ℕ) (new buf : Bytes)
    → 6 ≤ place
    → splice place (sized new) (splice 2 (to_be 4 n) (splice place (to_be 2 (length new)) buf))
      ≡ splice place (sized new) (splice 2 (to_be 4 n) buf)
size_twice place n new buf behind =
    let l4 = length-to_be 4 n in
    let l2 = length-to_be 2 (length new) in
    let ls = length-sized new in
    ap (λ (b : Bytes). splice place (sized new) b)
      (splice_comm 2 place (to_be 4 n) (to_be 2 (length new)) buf (omega arith))
    ∙ splice_absorb place (sized new) (to_be 2 (length new)) (splice 2 (to_be 4 n) buf)
        (omega arith)

make_room-fits :
    (ctx : SysContext) (new : Bytes) (command_size : ℕ)
    → header_field 2 ctx ≡ some command_size
    → 10 ≤ ctx.cp_buffer
    → 2 ≤ ctx.cp_buffer_used_size
    → ctx.cp_buffer + ctx.cp_buffer_used_size + 2 + (ctx.cp_buffer_used_size - 2) ≤ ctx.max_cmd_size
    → ctx.cp_buffer + 2 + length new ≤ ctx.max_cmd_size
    → ctx.max_cmd_size ≤ length ctx.cmd_buffer
    → length new < 2 ^ 16
    → ctx.cp_buffer_used_size + length new < 2 ^ 32
    → command_size + length new < 2 ^ 32
    → make_room new (ctx.cp_buffer + 2) ctx
      ≡ some (
        rc_success,
        record ctx {
          cmd_buffer = splice ctx.cp_buffer (sized new) (
              splice 2 (to_be 4 (command_size + length new)) (
                splice
                  (ctx.cp_buffer + ctx.cp_buffer_used_size + 2)
                  (slice (ctx.cp_buffer + 2) (ctx.cp_buffer_used_size - 2) ctx.cmd_buffer)
                  ctx.cmd_buffer));
          cp_buffer_used_size = ctx.cp_buffer_used_size + length new;
        },
      )
unfolding make_room
make_room-fits ctx new command_size sized_before header some_used room fits inside small used_small
      size_small =
    let place = ctx.cp_buffer in
    let used = ctx.cp_buffer_used_size in
    let n = length new in
    let behind = place + used + 2 in
    let old = slice (place + 2) (used - 2) ctx.cmd_buffer in
    let b1 = splice behind old ctx.cmd_buffer in
    let b2 = splice place (to_be 2 n) b1 in
    let b3 = splice 2 (to_be 4 (command_size + n)) b2 in
    let l1 = length-splice behind old ctx.cmd_buffer in
    let l2 = length-splice place (to_be 2 n) b1 in
    let l3 = length-splice 2 (to_be 4 (command_size + n)) b2 in
    let counted : SysContext = record ctx { cmd_buffer = b1; cp_buffer_used_size = used + n } in
    let marked : SysContext = record counted { cmd_buffer = b2 } in
    let fixed : SysContext = record marked { cmd_buffer = b3 } in
    let size_of : header_field 2 marked ≡ some command_size =
      header_field-splice place (to_be 2 n) counted marked (omega arith) refl
      ∙ (header_field-splice behind old ctx counted (omega arith) refl ∙ sized_before) in
    rw
      (
        le→ltb used 2 some_used,
        le→ltb ctx.max_cmd_size (behind + (used - 2)) room,
        move_fits behind (place + 2) (used - 2) ctx (omega arith) (omega arith),
        mod-eq_of_lt {n = used + n} {m = 2 ^ 32} used_small,
        set_param_size-fits n counted small (omega arith),
        size_of,
        mod-eq_of_lt {n = command_size + n} {m = 2 ^ 32} size_small,
        set_header_field_fits 2 (command_size + n) marked (omega arith),
        copy_param-fits new fixed small fits (omega arith),
      )
      (ap
        (λ (b : Bytes).
          some (rc_success, record ctx { cmd_buffer = b; cp_buffer_used_size = used + n }))
        (size_twice place (command_size + n) new b1 (omega arith)))

module _ (ctx : SysContext) (h : Header) (front new rest buf : Bytes)
    (framed : IsFramed ctx h front (sized [] ++ rest) buf) where
  -- SetDecryptParam on a prepared command whose first parameter was NULL: the new parameter is
  -- written, and the size of the command counts it, but the parameters that follow are copied to
  -- the place behind the parameters and two more bytes, wherever the new parameter ends.
  pub set_decrypt_param-null :
      ctx.decrypt_allowed ≡ true
      → ctx.decrypt_null ≡ true
      → 1 ≤ length new
      → length new < 2 ^ 16
      → h.size + length new ≤ ctx.max_cmd_size
      → ctx.cp_buffer + 4 + length rest + length rest ≤ ctx.max_cmd_size
      → (ctx' : SysContext) × (set_decrypt_param (some ctx) (some new)
          ≡ some (rc_success, some ctx'))
        × (ctx'.cmd_buffer
            ≡ splice ctx.cp_buffer (sized new) (
                splice 2
                  (to_be 4 (h.size + length new))
                  (splice (ctx.cp_buffer + 4 + length rest) rest ctx.cmd_buffer)))
        × (ctx'.cp_buffer_used_size ≡ 2 + length new + length rest)
        × (ctx'.cp_buffer ≡ ctx.cp_buffer)
  unfolding set_decrypt_param replace_param
  set_decrypt_param-null allowed null some_bytes small fits room =
      let params = sized [] ++ rest in
      let (l, _, within) = IsFramed-length ctx h front params buf framed in
      let (_, first) = first_param ctx h front [] rest buf framed (omega arith) in
      let prepared : is_prepare ctx.previous_stage ≡ true = ap is_prepare framed.stage in
      let m = framed.max in
      let i = framed.inside in
      let p = framed.place in
      let a = length-append (sized []) rest in
      let s = length-sized [] in
      let used : ctx.cp_buffer_used_size ≡ 2 + length rest = framed.used ∙ omega arith in
      let n = length new in
      let (_, tail) =
        slice_append ctx.cp_buffer (sized []) rest ctx.cmd_buffer (omega arith)
          (IsFramed-slice ctx h front params buf framed) in
      let behind : ctx.cp_buffer + ctx.cp_buffer_used_size + 2 ≡ ctx.cp_buffer + 4 + length rest =
        omega arith in
      let len : ctx.cp_buffer_used_size - 2 ≡ length rest = omega arith in
      let tail' : slice (ctx.cp_buffer + 2) (length rest) ctx.cmd_buffer ≡ rest = rw s at tail in
      let made =
        make_room-fits ctx new h.size (IsFramed-header_field ctx h front params buf framed)
          (omega arith) (omega arith) (omega arith) (omega arith) (omega arith) small (omega arith)
          (omega arith) in
      (
        record ctx {
          cmd_buffer = splice ctx.cp_buffer (sized new) (
              splice 2 (to_be 4 (h.size + length new)) (
                splice (ctx.cp_buffer + ctx.cp_buffer_used_size + 2)
                  (slice (ctx.cp_buffer + 2) (ctx.cp_buffer_used_size - 2) ctx.cmd_buffer)
                  ctx.cmd_buffer));
          cp_buffer_used_size = ctx.cp_buffer_used_size + length new;
        },
        rw (
          prepared,
          ap not allowed,
          le→ltb (length new) 1 some_bytes,
          IsFramed-header_field ctx h front params buf framed,
          mod-eq_of_lt {n = h.size + length new} {m = size_mod} (omega arith),
          le→ltb ctx.max_cmd_size (h.size + length new) fits,
          get_decrypt_param-IsFramed ctx h front [] rest buf framed (omega arith) 0 0 allowed,
          made,
          null,
        ),
        rw (behind, len, tail') refl,
        omega arith,
        refl,
      )
