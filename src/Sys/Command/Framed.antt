-- ===== src/Sys/Command/Framed.antt =====
-- What preparing a command makes of the context.
use native.Mathlib.Nat.{mod-eq_of_lt, add-zero, add_assoc}
use tpm2_tss_verified.Common.{
  ℕ, ◌+◌, ◌-◌, ◌*◌, ◌%◌, ◌≤◌, ◌<◌, ◌^◌, ◌≡◌, ◌≢◌, refl, ap, sym, ◌∙◌, Bool, false, ◌||◌, some, List,
  [], ◌∷◌, ◌++◌, length, length-append, arith,
}
use tpm2_tss_verified.Rc.{rc_success, tpm2_st_no_sessions}
use tpm2_tss_verified.Memory.{Bytes, size_mod, splice, splice_nil, splice-append, length-splice}
use tpm2_tss_verified.Endian.{w2, to_be, length-to_be}
use tpm2_tss_verified.Mu.Base.Laws.{base_marshal_fits}
use tpm2_tss_verified.Tcti.{Header}
use tpm2_tss_verified.Tcti.Wire.{wire}
use tpm2_tss_verified.Sys.{
  cmd_stage_prepare, cmd_stage_send_command, SysContext, common_prepare_epilogue,
  init_sys_context_fields,
}
use tpm2_tss_verified.Sys.Handles.{get_num_command_handles, get_num_response_handles}
use tpm2_tss_verified.Sys.Prepare.{prologue, prologue_at, four_writes}
use tpm2_tss_verified.Sys.Frame.{IsFramed, set_header_field_fits}
use tpm2_tss_verified.Sys.Command.{Arg, arg, absent, refused, put, put_all, Allowed, prepare}

-- The bytes of an argument, which has a place in a command if it fits its type.
abbrev pub encoded : Arg → Bytes
encoded (arg f a) = f.codec.encode (f.codec.view a)
encoded (absent first) = to_be 2 0
encoded refused = []

abbrev pub all_encoded : List Arg → Bytes
all_encoded [] = []
all_encoded (a ∷ args) = encoded a ++ all_encoded args

abbrev pub CanPut : Arg → Type 0
CanPut (arg f a) = f.codec.IsValid a
CanPut (absent first) = Unit
CanPut refused = ⊥

abbrev pub AllPut : List Arg → Type 0
AllPut [] = Unit
AllPut (a ∷ args) = CanPut a × AllPut args

-- `decryptNull`, behind one argument and behind all of them.
abbrev pub marked_by : Arg → Bool → Bool
marked_by (arg f a) mark = mark
marked_by (absent first) mark = first || mark
marked_by refused mark = mark

abbrev pub marked : List Arg → Bool → Bool
marked [] mark = mark
marked (a ∷ args) mark = marked args (marked_by a mark)

-- The context with `bytes` written at `nextData`.
abbrev pub extended : SysContext → Bytes → Bool → SysContext
extended ctx bytes mark = record ctx {
  cmd_buffer = splice ctx.next_data bytes ctx.cmd_buffer;
  next_data = ctx.next_data + length bytes;
  decrypt_null = mark;
}

extended-append :
    (ctx : SysContext) (xs ys : Bytes) (m n : Bool)
    → extended (extended ctx xs m) ys n ≡ extended ctx (xs ++ ys) n
extended-append ctx xs ys m n =
    ap
      (λ (b : Bytes). record ctx {
        cmd_buffer = b;
        next_data = ctx.next_data + length xs + length ys;
        decrypt_null = n;
      })
      (splice-append ctx.next_data xs ys ctx.cmd_buffer)
    ∙ ap
        (λ (k : ℕ). record ctx {
          cmd_buffer = splice ctx.next_data (xs ++ ys) ctx.cmd_buffer;
          next_data = k;
          decrypt_null = n;
        })
        (add_assoc ctx.next_data (length xs) (length ys)
          ∙ ap (λ (k : ℕ). ctx.next_data + k) (sym (length-append xs ys)))

put-encoded :
    (a : Arg) (ctx : SysContext)
    → CanPut a
    → ctx.next_data + length (encoded a) ≤ ctx.max_cmd_size
    → ctx.max_cmd_size ≤ length ctx.cmd_buffer
    → ctx.max_cmd_size < size_mod
    → put a ctx ≡ some (rc_success, extended ctx (encoded a) (marked_by a ctx.decrypt_null))
unfolding put
put-encoded (arg f a) ctx valid fits inside max =
    rw (f.law.fits a ctx.cmd_buffer ctx.max_cmd_size ctx.next_data valid fits inside max)
put-encoded (absent first) ctx valid fits inside max =
    let l = length-to_be 2 0 in
    rw (
      base_marshal_fits w2 ctx.cmd_buffer ctx.max_cmd_size ctx.next_data 0 (omega arith) inside max,
      l,
    )
put-encoded refused ctx valid fits inside max = absurd valid

pub put_all-all_encoded :
    (args : List Arg) (ctx : SysContext)
    → AllPut args
    → ctx.next_data + length (all_encoded args) ≤ ctx.max_cmd_size
    → ctx.max_cmd_size ≤ length ctx.cmd_buffer
    → ctx.max_cmd_size < size_mod
    → put_all args ctx
      ≡ some (rc_success, extended ctx (all_encoded args) (marked args ctx.decrypt_null))
unfolding put_all
put_all-all_encoded [] ctx valid fits inside max =
    rw (splice_nil ctx.next_data ctx.cmd_buffer, add-zero)
put_all-all_encoded (a ∷ args) ctx (v, valid) fits inside max =
    let bytes = encoded a in
    let l = length-append bytes (all_encoded args) in
    let mark = marked_by a ctx.decrypt_null in
    let s = length-splice ctx.next_data bytes ctx.cmd_buffer in
    rw
      (
        put-encoded a ctx v (omega arith) inside max,
        put_all-all_encoded args (extended ctx bytes mark) valid (omega arith) (omega arith) max,
      )
      (ap (λ (c : SysContext). some (rc_success, c))
        (extended-append ctx bytes (all_encoded args) mark (marked args mark)))

-- The header of a command without authorisations.
abbrev pub plain_header : ℕ → Bytes → Header
plain_header code body = record { tag = tpm2_st_no_sessions; size = 10 + length body; code = code }

-- X_Prepare with arguments that fit their types and the command buffer, when no command is under
-- way: it returns with the command in the buffer, the handles in front of `cpBuffer` and the
-- parameters behind it, under a header whose size counts both; and with what the command allows.
pub prepare-IsFramed :
    (ctx : SysContext) (code : ℕ) (args : List Arg) (allowed : Allowed) (handles params : Bytes)
    → ctx.previous_stage ≢ cmd_stage_send_command
    → AllPut args
    → all_encoded args ≡ handles ++ params
    → length handles ≡ get_num_command_handles code * 4
    → 10 + length (handles ++ params) ≤ ctx.max_cmd_size
    → ctx.max_cmd_size ≤ length ctx.cmd_buffer
    → ctx.max_cmd_size < 2 ^ 32
    → (ctx' : SysContext) × (prepare code args allowed (some ctx) ≡ some (rc_success, some ctx'))
      × IsFramed ctx' (plain_header code (handles ++ params)) handles params ctx.cmd_buffer
      × (ctx'.auth_allowed ≡ allowed.auth)
      × (ctx'.decrypt_allowed ≡ allowed.decrypt)
      × (ctx'.encrypt_allowed ≡ allowed.encrypt)
      × (ctx'.decrypt_null ≡ marked args false)
      × (ctx'.max_cmd_size ≡ ctx.max_cmd_size)
      × (ctx'.rsp_params_size ≡ 10 + get_num_response_handles code * 4)
unfolding prepare common_prepare_epilogue init_sys_context_fields
prepare-IsFramed ctx code args allowed handles params idle valid bytes count room inside max =
    let body = all_encoded args in
    let begun = prologue ctx code in
    let written = extended begun body (marked args false) in
    let flagged : SysContext = record written {
      decrypt_allowed = allowed.decrypt;
      encrypt_allowed = allowed.encrypt;
      auth_allowed = allowed.auth;
    } in
    let n = 10 + length body in
    let h : Header = plain_header code body in
    let t = splice 0 (to_be 2 tpm2_st_no_sessions) ctx.cmd_buffer in
    let l0 = length-splice 0 (to_be 2 tpm2_st_no_sessions) ctx.cmd_buffer in
    let l6 = length-splice 6 (to_be 4 code) t in
    let l10 = length-splice 10 body begun.cmd_buffer in
    let lb : length body ≡ length (handles ++ params) = ap (λ (b : Bytes). length b) bytes in
    let la = length-append handles params in
    let used = (n + size_mod - begun.cp_buffer) % 2 ^ 32 in
    let laid : splice 2 (to_be 4 n) flagged.cmd_buffer
        ≡ splice 0 (wire (plain_header code (handles ++ params)) ++ (handles ++ params))
            ctx.cmd_buffer =
      four_writes h body ctx.cmd_buffer
      ∙ ap (λ (b : Bytes). splice 0 (wire (plain_header code b) ++ b) ctx.cmd_buffer) bytes in
    (
      record flagged {
        cmd_buffer = splice 2 (to_be 4 n) flagged.cmd_buffer;
        cp_buffer_used_size = used;
        previous_stage = cmd_stage_prepare;
      },
      rw (
        prologue_at ctx code ctx.previous_stage idle (omega arith) inside (omega arith),
        put_all-all_encoded args begun valid (omega arith) (omega arith) (omega arith),
        mod-eq_of_lt {n = n} {m = 2 ^ 32} (omega arith),
        set_header_field_fits 2 n flagged (omega arith),
      ),
      record {
        stage = refl;
        laid = laid;
        size = omega arith;
        place = omega arith;
        used = omega arith;
        room = room;
        inside = inside;
        max = max;
      },
      refl,
      refl,
      refl,
      refl,
      refl,
      refl,
    )
