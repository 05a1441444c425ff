-- ===== src/Sys/Commands/Random.antt =====
-- One call of GetRandom, from the command to its result.
use mathlib.Core.Path.{ap₂}
use mathlib.Core.List.{append-nil}
use tpm2_tss_verified.Common.{
  ℕ, ◌+◌, ◌≤◌, ◌<◌, ◌^◌, ◌≡◌, ◌≢◌, refl, ap, ◌∙◌, false, true, some, none, [], ◌∷◌, ◌++◌, length,
  length-append, arith,
}
use tpm2_tss_verified.Rc.{rc_success, tpm2_st_no_sessions}
use tpm2_tss_verified.Memory.{Bytes, size_mod, splice, slice}
use tpm2_tss_verified.Endian.{w2, to_be, length-to_be}
use tpm2_tss_verified.Mu.Tpm2b.{Tpm2b}
use tpm2_tss_verified.Mu.Tpm2b.Wire.{payload, sized, IsSized}
use tpm2_tss_verified.Mu.Format.{word}
use tpm2_tss_verified.Mu.Types.{tpm2b_digest}
use tpm2_tss_verified.Tcti.Wire.{wire}
use tpm2_tss_verified.Sys.{
  cmd_stage_prepare, cmd_stage_send_command, cmd_stage_receive_response, SysContext, header_field,
}
use tpm2_tss_verified.Sys.Handles.{
  get_num_handles, get_num_command_handles, get_num_response_handles,
}
use tpm2_tss_verified.Sys.Execute.{Transport}
use tpm2_tss_verified.Sys.Frame.{IsFramed-header_field}
use tpm2_tss_verified.Sys.Command.{
  arg, allowing, one_call, common_one_call, give_auths, complete, behind_common, get,
}
use tpm2_tss_verified.Sys.Command.Framed.{plain_header, prepare-IsFramed}
use tpm2_tss_verified.Sys.Command.Exchange.{
  IsPlain, answered, execute-IsPlain, take_auths-IsPlain, common_complete-IsPlain,
}
use tpm2_tss_verified.Sys.Commands.Symmetric.{get_random_prepare, get_random_complete, get_random}

handles_of : (get_num_command_handles 0x17b ≡ 0) × (get_num_response_handles 0x17b ≡ 0)
unfolding get_num_command_handles get_num_response_handles get_num_handles
handles_of = (refl, refl)

lt_trans : (m n : ℕ) → m ≡ n → n < 2 ^ 32 → m < 2 ^ 64
lt_trans m n e h = omega arith

-- The bytes of the command, in the command buffer.
abbrev pub requesting : ℕ → Bytes → Bytes
requesting n buf =
    splice 0 (wire (record { tag = tpm2_st_no_sessions; size = 12; code = 0x17b }) ++ to_be 2 n) buf

requested :
    (n : ℕ) (buf : Bytes)
    → splice 0
        (wire (plain_header 0x17b ([] ++ (to_be 2 n ++ []))) ++ ([] ++ (to_be 2 n ++ [])))
        buf
      ≡ requesting n buf
requested n buf =
    let l : 10 + length (to_be 2 n ++ []) ≡ 12 =
      omega (arith, length-append (to_be 2 n) [], length-to_be 2 n) in
    ap
      (λ (k : ℕ).
        splice 0
          (wire (record { tag = tpm2_st_no_sessions; size = k; code = 0x17b }) ++ (to_be 2 n ++ []))
          buf)
      l
    ∙ ap
        (λ (b : Bytes).
          splice 0 (wire (record { tag = tpm2_st_no_sessions; size = 12; code = 0x17b }) ++ b) buf)
        (append-nil (to_be 2 n))

-- What GetRandom returns.
abbrev pub Randomised :
    (t : Transport) → SysContext → ℕ → Tpm2b → Tpm2b → t.State → t.State → Type 0
Randomised t ctx n dest given s s'' =
    (ctx' : SysContext) × (dest' : Tpm2b) × (get_random t (some ctx) none n (some dest) none s
      ≡ some (record {
        rc = rc_success;
        ctx = some ctx';
        rsp_auths = none;
        results = some dest';
        after = s'';
      }))
    × (payload dest' ≡ payload given)
    × (ctx'.previous_stage ≡ cmd_stage_receive_response)

-- From the prepared command on.
from_prepared :
    (t : Transport) (ctx framed : SysContext) (n : ℕ) (dest given : Tpm2b) (s s' s'' : t.State)
    (size : ℕ) (buf : Bytes)
    → get_random_prepare n (some ctx) ≡ some (rc_success, some framed)
    → framed.previous_stage ≡ cmd_stage_prepare
    → header_field 2 framed ≡ some 12
    → framed.rsp_params_size ≡ 10
    → framed.max_cmd_size < size_mod
    → t.transmit 12 framed.cmd_buffer s ≡ (rc_success, s')
    → t.receive framed.max_cmd_size framed.cmd_buffer s' ≡ (rc_success, size, buf, s'')
    → IsPlain framed.max_cmd_size buf
    → IsSized 64 given
    → 10 + length (sized (payload given)) ≤ framed.max_cmd_size
    → slice 10 (length (sized (payload given))) buf ≡ sized (payload given)
    → length dest.buffer ≡ 64
    → Randomised t ctx n dest given s s''
unfolding get_random get_random_complete one_call common_one_call give_auths complete behind_common
    get
from_prepared t ctx framed n dest given s s' s'' size buf prepared stage twelve params max taken
      received plain valid fits stands capacity =
    let bytes = sized (payload given) in
    let there = ap (λ (k : ℕ). slice k (length bytes) buf) params ∙ stands in
    let (dest', _, payload', got) =
      tpm2b_digest.law.reads given dest buf framed.max_cmd_size framed.rsp_params_size valid
        capacity (omega arith) plain.inside max there in
    (
      record (answered framed buf) { next_data = framed.rsp_params_size + length bytes },
      dest',
      rw (
        prepared,
        execute-IsPlain t framed s s' s'' size 12 buf stage twelve taken received plain max,
        take_auths-IsPlain framed buf plain,
        common_complete-IsPlain framed buf plain max,
        got,
      ),
      payload',
      refl,
    )

-- The calls of GetRandom, with the transport that takes the command of twelve bytes and answers with
-- success, without sessions, and with the buffer `given` behind the header.
pub get_random-payload :
    (t : Transport) (ctx : SysContext) (n : ℕ) (dest given : Tpm2b) (s s' s'' : t.State) (size : ℕ)
    (buf : Bytes)
    → n < 2 ^ 16
    → ctx.previous_stage ≢ cmd_stage_send_command
    → 12 ≤ ctx.max_cmd_size
    → ctx.max_cmd_size ≤ length ctx.cmd_buffer
    → ctx.max_cmd_size < 2 ^ 32
    → t.transmit 12 (requesting n ctx.cmd_buffer) s ≡ (rc_success, s')
    → t.receive ctx.max_cmd_size (requesting n ctx.cmd_buffer) s' ≡ (rc_success, size, buf, s'')
    → IsPlain ctx.max_cmd_size buf
    → IsSized 64 given
    → 10 + length (sized (payload given)) ≤ ctx.max_cmd_size
    → slice 10 (length (sized (payload given))) buf ≡ sized (payload given)
    → length dest.buffer ≡ 64
    → Randomised t ctx n dest given s s''
unfolding get_random_prepare
get_random-payload t ctx n dest given s s' s'' size buf small idle room inside max taken received
      plain valid fits stands capacity =
    let body = to_be 2 n ++ [] in
    let l : length body ≡ 2 = omega (arith, length-append (to_be 2 n) [], length-to_be 2 n) in
    let (framed, prepared, is_framed, _, _, _, _, same, params) =
      prepare-IsFramed ctx 0x17b (arg (word w2) n ∷ []) (allowing false true true) [] body idle
        (small, tt) refl (omega (arith, handles_of.0)) (omega arith) inside max in
    let sent : framed.cmd_buffer ≡ requesting n ctx.cmd_buffer =
      is_framed.laid ∙ requested n ctx.cmd_buffer in
    from_prepared t ctx framed n dest given s s' s'' size buf prepared is_framed.stage
      (IsFramed-header_field framed (plain_header 0x17b ([] ++ body)) [] body ctx.cmd_buffer
          is_framed
        ∙ ap some (omega arith))
      (params ∙ omega (arith, handles_of.1))
      (lt_trans framed.max_cmd_size ctx.max_cmd_size same max)
      (ap (λ (b : Bytes). t.transmit 12 b s) sent ∙ taken)
      (ap₂ (λ (m : ℕ) (b : Bytes). t.receive m b s') same sent ∙ received) (rw same plain) valid
      (rw same fits) stands capacity
