-- ===== src/Sys/Auths/Law.antt =====
-- SetCmdAuths puts the authorisations between the handles and the parameters of a command.
use native.Mathlib.Nat.{mod-eq_of_lt}
use mathlib.Core.List.{append_assoc}
use tpm2_tss_verified.Common.{
  ℕ, ◌+◌, ◌≤◌, ◌<◌, ◌^◌, ◌≡◌, refl, sym, ap, ◌∙◌, true, not, some, List, ◌++◌, length, take, All,
  length-append, length-take, le→ltb, ne→==, arith,
}
use tpm2_tss_verified.Rc.{rc_success, tpm2_st_sessions}
use tpm2_tss_verified.Memory.{
  Bytes, size_mod, splice, slice, length-splice, splice-append, splice_comm, splice_absorb,
  write_within,
}
use tpm2_tss_verified.Endian.{w2, w4, to_be, to_memory, length-to_be, to_memory-host_to_be}
use tpm2_tss_verified.Mu.Base.Laws.{base_marshal_fits}
use tpm2_tss_verified.Tcti.{Header}
use tpm2_tss_verified.Tcti.Wire.{wire}
use tpm2_tss_verified.Sys.{SysContext, is_prepare}
use tpm2_tss_verified.Sys.Frame.{
  IsFramed, wire_over, slice-wire, length-framed, wire_tag, wire_size, header_field-wire,
  set_header_field_fits, move_fits,
}
use tpm2_tss_verified.Sys.Auths.{
  AuthCommand, AuthList, elements, auth_size, insert_auths, place_auths, set_cmd_auths,
}
use tpm2_tss_verified.Sys.Auths.Area.{
  IsAuth, auth_area, auth_size-auth_area, auths_marshal-auth_area,
}

-- What is written at `cpBuffer`: the size of the area, and the area.
abbrev pub sized_area : List AuthCommand → Bytes
sized_area auths = to_be 4 (length (auth_area auths)) ++ auth_area auths

pub length-sized_area :
    (auths : List AuthCommand) → length (sized_area auths) ≡ 4 + length (auth_area auths)
length-sized_area auths = omega (
  arith,
  length-append (to_be 4 (length (auth_area auths))) (auth_area auths),
  length-to_be 4 (length (auth_area auths)),
)

-- The writes at `cpBuffer`, in the order of the code, are one.
area_writes :
    (place : ℕ) (size zeros area params buf : Bytes)
    → length size ≡ 4
    → length zeros ≡ 4
    → splice
        (place + 4)
        area
        (splice place size (splice place zeros (splice (place + length area + 4) params buf)))
      ≡ splice place ((size ++ area) ++ params) buf
area_writes place size zeros area params buf four zero4 =
    let moved = splice (place + length area + 4) params buf in
    let l = length-append size area in
    let e1 : splice place size (splice place zeros moved) ≡ splice place size moved =
      splice_absorb place size zeros moved (omega arith) in
    let e2 : splice (place + 4) area (splice place size moved) ≡ splice place (size ++ area) moved =
      rw four at (splice-append place size area moved) in
    let e3 : splice place (size ++ area) moved
        ≡ splice (place + length area + 4) params (splice place (size ++ area) buf) =
      splice_comm place (place + length area + 4) (size ++ area) params buf (omega arith) in
    let there : place + length (size ++ area) ≡ place + length area + 4 = omega arith in
    let e4 : splice (place + length area + 4) params (splice place (size ++ area) buf)
        ≡ splice place ((size ++ area) ++ params) buf =
      rw there at (splice-append place (size ++ area) params buf) in
    ap (λ (b : Bytes). splice (place + 4) area b) e1 ∙ (e2 ∙ (e3 ∙ e4))

module _ (auths : List AuthCommand) (valid : All IsAuth auths) where
  insert_auths-fits :
      (new : ℕ) (ctx : SysContext)
      → ctx.cp_buffer + 4 + length (auth_area auths) + ctx.cp_buffer_used_size ≤ new
      → 10 ≤ new
      → new ≤ length ctx.cmd_buffer
      → new < size_mod
      → insert_auths auths (length (auth_area auths)) new ctx
        ≡ some (
          rc_success,
          record ctx {
            cmd_buffer = splice 2 (to_be 4 new) (
                splice ctx.cp_buffer
                  (sized_area auths ++ slice ctx.cp_buffer ctx.cp_buffer_used_size ctx.cmd_buffer)
                  ctx.cmd_buffer);
            cp_buffer = ctx.cp_buffer + (length (auth_area auths) + 4);
            auths_count = length auths;
          },
        )
  unfolding insert_auths to_memory
  insert_auths-fits new ctx room header inside max =
      let area = auth_area auths in
      let size = length area in
      let place = ctx.cp_buffer in
      let params = slice place ctx.cp_buffer_used_size ctx.cmd_buffer in
      let b1 = splice (place + size + 4) params ctx.cmd_buffer in
      let b2 = splice place (to_memory 4 0) b1 in
      let b3 = splice place (to_be 4 size) b2 in
      let b4 = splice (place + 4) area b3 in
      let l1 = length-splice (place + size + 4) params ctx.cmd_buffer in
      let l2 = length-splice place (to_memory 4 0) b1 in
      let l3 = length-splice place (to_be 4 size) b2 in
      let l4 = length-splice (place + 4) area b3 in
      let written : SysContext = record ctx { cmd_buffer = b4; cp_buffer = place + (size + 4) } in
      rw
        (
          move_fits (place + size + 4) place ctx.cp_buffer_used_size ctx (omega arith)
              (omega arith),
          write_within (to_memory 4 0) place b1 (omega arith),
          base_marshal_fits w4 b2 new place size (omega arith) (omega arith) max,
          auths_marshal-auth_area auths b3 new (place + 4) valid (omega arith) (omega arith) max,
          set_header_field_fits 2 new written (omega arith),
        )
        (ap
          (λ (b : Bytes). some (
            rc_success,
            record ctx {
              cmd_buffer = splice 2 (to_be 4 new) b;
              cp_buffer = place + (size + 4);
              auths_count = length auths;
            },
          ))
          (area_writes place (to_be 4 size) (to_memory 4 0) area params ctx.cmd_buffer
            (length-to_be 4 size) refl))

-- The tag, the area and the size are in place.
area_framed :
    (h : Header) (front params mid buf : Bytes) (n : ℕ)
    → 10 + length front + length params ≤ length buf
    → splice 2 (to_be 4 n) (
        splice
          (10 + length front)
          (mid
            ++ slice
                (10 + length front)
                (length params)
                (splice 0 (wire h ++ (front ++ params)) buf))
          (splice 0 (wire h ++ (front ++ params)) buf))
      ≡ splice 0 (wire (record h { size = n }) ++ ((front ++ mid) ++ params)) buf
area_framed h front params mid buf n room =
    let l = length-append mid params in
    let h' : Header = record h { size = n } in
    let there = 10 + length front in
    let b = splice 0 (wire h ++ (front ++ params)) buf in
    ap (λ (p : Bytes). splice 2 (to_be 4 n) (splice there (mid ++ p) b))
      (slice-wire h front params buf room)
    ∙ (ap (λ (b' : Bytes). splice 2 (to_be 4 n) b')
          (wire_over h front params (mid ++ params) buf (omega arith))
        ∙ (wire_size h (front ++ (mid ++ params)) buf n
            ∙ ap (λ (b' : Bytes). splice 0 (wire h' ++ b') buf)
                (sym (append_assoc front mid params))))

-- The header of a command with an authorisation area.
abbrev pub with_auths : Header → List AuthCommand → Header
with_auths h auths = record {
  tag = tpm2_st_sessions;
  size = h.size + 4 + length (auth_area auths);
  code = h.code;
}

module _ (ctx : SysContext) (h : Header) (front params buf : Bytes)
    (framed : IsFramed ctx h front params buf) where
  place_auths-IsFramed :
      (auths : List AuthCommand)
      → All IsAuth auths
      → h.size + 4 + length (auth_area auths) ≤ ctx.max_cmd_size
      → (ctx' : SysContext) × (place_auths auths ctx ≡ some (rc_success, ctx'))
        × IsFramed ctx' (with_auths h auths) (front ++ sized_area auths) params buf
        × (ctx'.auths_count ≡ length auths)
  unfolding place_auths
  place_auths-IsFramed auths valid fits =
      let size = length (auth_area auths) in
      let new = size + 4 + h.size in
      let h1 : Header = record h { tag = tpm2_st_sessions } in
      let b1 = splice 0 (to_be 2 tpm2_st_sessions) ctx.cmd_buffer in
      let tagged : SysContext = record ctx { cmd_buffer = b1 } in
      let laid : b1 ≡ splice 0 (wire h1 ++ (front ++ params)) buf =
        ap (λ (b : Bytes). splice 0 (to_be 2 tpm2_st_sessions) b) framed.laid
        ∙ wire_tag h (front ++ params) buf tpm2_st_sessions in
      let n = length-framed h1 front params in
      let s = framed.size in
      let r = framed.room in
      let i = framed.inside in
      let m = framed.max in
      let p = framed.place in
      let u = framed.used in
      let l : length ctx.cmd_buffer ≡ length buf =
        ap (λ (b : Bytes). length b) framed.laid
        ∙ length-splice 0 (wire h ++ (front ++ params)) buf in
      let l1 = length-splice 0 (to_be 2 tpm2_st_sessions) ctx.cmd_buffer in
      let counted : auth_size 0 auths ≡ size =
        auth_size-auth_area auths 0 valid (omega arith) ∙ omega arith in
      let number : new ≡ h.size + 4 + size = omega arith in
      let a = length-append front (sized_area auths) in
      let al = length-sized_area auths in
      (
        record tagged {
          cmd_buffer = splice 2 (to_be 4 new) (
              splice ctx.cp_buffer
                (sized_area auths ++ slice ctx.cp_buffer ctx.cp_buffer_used_size b1) b1);
          cp_buffer = ctx.cp_buffer + (size + 4);
          auths_count = length auths;
        },
        rw (
          to_memory-host_to_be w2 tpm2_st_sessions,
          write_within (to_be 2 tpm2_st_sessions) 0 ctx.cmd_buffer
              (omega (arith, length-to_be 2 tpm2_st_sessions)),
          header_field-wire h1 (front ++ params) buf tagged laid (omega arith) (omega arith),
          counted,
          mod-eq_of_lt {n = new} {m = 2 ^ 32} (omega arith),
          le→ltb ctx.max_cmd_size new (omega arith),
          le→ltb ctx.max_cmd_size ctx.cp_buffer_used_size (omega arith),
          insert_auths-fits auths valid new tagged (omega arith) (omega arith) (omega arith)
              (omega arith),
        ),
        record {
          stage = framed.stage;
          laid =
              rw (laid, p, u, number)
                (area_framed h1 front params (sized_area auths) buf (h.size + 4 + size)
                  (omega arith));
          size = omega arith;
          place = omega arith;
          used = u;
          room = fits;
          inside = i;
          max = m;
        },
        refl,
      )

-- The count of the authorisations is no part of the frame.
IsFramed-auths_count :
    (ctx : SysContext) (h : Header) (front params buf : Bytes) (n : ℕ)
    → IsFramed ctx h front params buf
    → IsFramed (record ctx { auths_count = n }) h front params buf
IsFramed-auths_count ctx h front params buf n framed = record {
  stage = framed.stage;
  laid = framed.laid;
  size = framed.size;
  place = framed.place;
  used = framed.used;
  room = framed.room;
  inside = framed.inside;
  max = framed.max;
}

module _ (ctx : SysContext) (h : Header) (front params buf : Bytes)
    (framed : IsFramed ctx h front params buf) where
  -- SetCmdAuths on a prepared command that may have authorisations: if they fit, the size of the
  -- area and the area are put in front of the parameters, which move up, the tag says that there are
  -- sessions, and the size of the command counts them.
  pub set_cmd_auths-IsFramed :
      (list : AuthList AuthCommand)
      → ctx.auth_allowed ≡ true
      → 0 < list.count
      → list.count ≤ 3
      → list.count ≤ length list.auths
      → All IsAuth (take list.count list.auths)
      → h.size + 4 + length (auth_area (take list.count list.auths)) ≤ ctx.max_cmd_size
      → (ctx' : SysContext) × (set_cmd_auths (some ctx) (some list) ≡ some (rc_success, some ctx'))
        × IsFramed ctx'
            (with_auths h (take list.count list.auths))
            (front ++ sized_area (take list.count list.auths))
            params
            buf
        × (ctx'.auths_count ≡ list.count)
  unfolding set_cmd_auths elements is_prepare
  set_cmd_auths-IsFramed list allowed some_auths few inside valid fits =
      let auths = take list.count list.auths in
      let cleared : SysContext = record ctx { auths_count = 0 } in
      let prepared : is_prepare ctx.previous_stage ≡ true = ap is_prepare framed.stage in
      let n = length-take list.count list.auths in
      let (ctx', done, framed', counted) =
        place_auths-IsFramed cleared h front params buf
          (IsFramed-auths_count ctx h front params buf 0 framed) auths valid fits in
      (
        ctx',
        rw (
          le→ltb 3 list.count few,
          prepared,
          ap not allowed,
          ne→== list.count 0 (omega arith),
          le→ltb (length list.auths) list.count inside,
          done,
        ),
        framed',
        counted ∙ omega arith,
      )
