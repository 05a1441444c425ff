-- ===== src/Sys/Auths.antt =====
-- Tss2_Sys_SetCmdAuths.c and Tss2_Sys_GetRspAuths.c of src/tss2-sys/api: the authorisation areas of a
-- command and of a response.
pub mod Area
pub mod Law
pub mod Response
pub mod Reads
pub mod Answer
use tpm2_tss_verified.Common.{
  ℕ, zero, suc, ◌+◌, ◌*◌, ◌%◌, ◌^◌, Bool, not, Option, none, some, List, [], ◌∷◌, length, take, ltb,
  ◌==◌, ◌||◌, if◌then◌else◌, ◌>>=◌,
}
use tpm2_tss_verified.Rc.{
  rc_success, sys_bad_reference, sys_bad_sequence, sys_bad_value, sys_invalid_sessions,
  sys_insufficient_context, sys_malformed_response, tpm2_st_sessions,
}
use tpm2_tss_verified.Memory.{Bytes, write, read}
use tpm2_tss_verified.Endian.{w2, w4, host_to_be, be_to_host, to_memory, of_memory}
use tpm2_tss_verified.Mu.Codec.{Marshalled, local_of}
use tpm2_tss_verified.Mu.Base.{base_marshal}
use tpm2_tss_verified.Mu.Tpm2b.{Tpm2b}
use tpm2_tss_verified.Mu.Types.{tpms_auth_command, tpms_auth_response}
use tpm2_tss_verified.Sys.{
  SysContext, is_prepare, is_receive_response, header_field, set_header_field,
}
use tpm2_tss_verified.Sys.Params.{move, word_at}

-- TPMS_AUTH_COMMAND: the session, the nonce, the attributes and the HMAC; and TPMS_AUTH_RESPONSE.
abbrev pub AuthCommand : Type 0
AuthCommand = ℕ × (Tpm2b × (ℕ × Tpm2b))

abbrev pub AuthResponse : Type 0
AuthResponse = Tpm2b × (ℕ × Tpm2b)

-- TSS2L_SYS_AUTH_COMMAND and TSS2L_SYS_AUTH_RESPONSE: the count, and the array of three.
pub record AuthList (A : Type 0) : Type 0 where
  pub count : ℕ
  pub auths : List A

-- TPM2_MAX_SESSION_NUM
abbrev pub max_session_num : ℕ
max_session_num = 3

-- auths[0] to auths[count - 1]. Past the array is a fault.
unfoldable pub elements : {A : Type 0} → AuthList A → Option (List A)
elements list =
    if ltb (length list.auths) list.count then none else some (take list.count list.auths)

-- for (i = 0; i < cmdAuthsArray->count; i++) authSize += ...
unfoldable pub auth_size : ℕ → List AuthCommand → ℕ
auth_size size [] = size
auth_size size ((handle, (nonce, (attributes, hmac))) ∷ auths) =
    auth_size ((size + 4 + (2 + nonce.size) + 1 + (2 + hmac.size)) % 2 ^ 32) auths

-- The loop over Tss2_MU_TPMS_AUTH_COMMAND_Marshal, which an error ends.
unfoldable pub auths_marshal : List AuthCommand → Bytes → ℕ → ℕ → Option Marshalled
auths_marshal [] buf buffer_size offset =
    some (record { rc = rc_success; buffer = some buf; offset = some offset })
auths_marshal (auth ∷ auths) buf buffer_size offset = do
  m ← tpms_auth_command.codec.marshal auth (some buf) buffer_size (some offset)
  buf' ← m.buffer
  if not (m.rc == rc_success)
      then some m
      else auths_marshal auths buf' buffer_size (local_of m.offset)

-- From the memmove on: the area is written at `cpBuffer`.
unfoldable pub insert_auths : List AuthCommand → ℕ → ℕ → SysContext → Option (ℕ × SysContext)
unfolding move base_marshal auths_marshal set_header_field
insert_auths auths size new_cmd_size ctx = do
  moved ← move (ctx.cp_buffer + size + 4) ctx.cp_buffer ctx.cp_buffer_used_size ctx
  buf ← write (to_memory 4 0) ctx.cp_buffer moved.cmd_buffer
  m ← base_marshal w4 size (some buf) new_cmd_size (some ctx.cp_buffer)
  buf' ← m.buffer
  let marked : SysContext = record moved { cmd_buffer = buf' }
  if not (m.rc == rc_success) then some (m.rc, marked) else do
    n ← auths_marshal auths buf' new_cmd_size (local_of m.offset)
    buf'' ← n.buffer
    let written : SysContext = record marked {
      cmd_buffer = buf'';
      cp_buffer = ctx.cp_buffer + (size + 4);
    }
    sized ← set_header_field 2 new_cmd_size written
    some (n.rc, record sized { auths_count = length auths })

-- With at least one authorisation: the tag, the sizes and their checks.
unfoldable pub place_auths : List AuthCommand → SysContext → Option (ℕ × SysContext)
unfolding header_field auth_size insert_auths
place_auths auths ctx = do
  buf ← write (to_memory 2 (host_to_be w2 tpm2_st_sessions)) 0 ctx.cmd_buffer
  let tagged : SysContext = record ctx { cmd_buffer = buf }
  command_size ← header_field 2 tagged
  let size = auth_size 0 auths
  let new_cmd_size = (size + 4 + command_size) % 2 ^ 32
  if ltb ctx.max_cmd_size new_cmd_size
      then some (sys_insufficient_context, tagged)
      else if ltb ctx.max_cmd_size ctx.cp_buffer_used_size
      then some (sys_insufficient_context, tagged)
      else insert_auths auths size new_cmd_size tagged

unfoldable pub set_cmd_auths :
    Option SysContext → Option (AuthList AuthCommand) → Option (ℕ × Option SysContext)
unfolding is_prepare elements
set_cmd_auths (some ctx) (some list) =
    if ltb max_session_num list.count
    then some (sys_bad_value, some ctx)
    else if not (is_prepare ctx.previous_stage)
    then some (sys_bad_sequence, some ctx)
    else if not ctx.auth_allowed
    then some (rc_success, some ctx)
    else if list.count == 0
    then some (rc_success, some (record ctx { auths_count = 0 }))
    else do
      auths ← elements list
      (rval, ctx') ← place_auths auths (record ctx { auths_count = 0 })
      some (rval, some ctx')
set_cmd_auths ctx list = some (sys_bad_reference, ctx)

-- The loop that validates the area: the code to return, rc_success when it goes on. The rounds left
-- and `offset_tmp`.
unfoldable pub validate_auths : ℕ → ℕ → SysContext → Option ℕ
unfolding word_at
validate_auths zero offset ctx = some rc_success
validate_auths (suc n) offset ctx =
    let end = ctx.rsp_header.response_size in
    if ltb end (offset + 2) then some sys_malformed_response else do
      nonce_size ← word_at offset ctx
      let behind_nonce = offset + (2 + nonce_size)
      if ltb end (behind_nonce + 2)
          then some sys_malformed_response
          else if ltb end (behind_nonce + 1 + 2)
          then some sys_malformed_response
          else do
            hmac_size ← word_at (behind_nonce + 1) ctx
            let behind_hmac = behind_nonce + 1 + (2 + hmac_size)
            if ltb end behind_hmac
                then some sys_malformed_response
                else validate_auths n behind_hmac ctx

-- The loop over Tss2_MU_TPMS_AUTH_RESPONSE_Unmarshal, which an error ends: the code and the array.
-- The rounds left and the rest of the array.
unfoldable pub auths_unmarshal :
    ℕ → List AuthResponse → ℕ → SysContext → Option (ℕ × List AuthResponse)
auths_unmarshal zero auths offset ctx = some (rc_success, auths)
auths_unmarshal (suc n) [] offset ctx = none
auths_unmarshal (suc n) (auth ∷ auths) offset ctx = do
  u ←
      tpms_auth_response.codec.unmarshal (some ctx.cmd_buffer) ctx.max_cmd_size (some offset)
        (some auth)
  auth' ← u.dest
  if not (u.rc == rc_success) then some (u.rc, auth' ∷ auths) else do
    (rval, auths') ← auths_unmarshal n auths (local_of u.offset) ctx
    some (rval, auth' ∷ auths')

unfoldable pub get_rsp_auths :
    Option SysContext → Option (AuthList AuthResponse) → Option (ℕ × Option (AuthList AuthResponse))
unfolding is_receive_response
get_rsp_auths (some ctx) (some list) =
    if not (is_receive_response ctx.previous_stage)
      || (not (ctx.rsp_header.response_code == rc_success) || not ctx.auth_allowed)
    then some (sys_bad_sequence, some list)
    else if not (tpm2_st_sessions == ctx.rsp_header.tag)
    then some (sys_bad_sequence, some list)
    else do
      bytes ← read 4 ctx.rsp_params_size ctx.cmd_buffer
      let offset = 10 + ctx.num_response_handles * 4 + be_to_host w4 (of_memory bytes) + 4
      if ltb ctx.rsp_header.response_size (offset + 2)
          then some (sys_malformed_response, some list)
          else do
            valid ← validate_auths ctx.auths_count offset ctx
            if not (valid == rc_success) then some (valid, some list) else do
              (rval, auths) ← auths_unmarshal ctx.auths_count list.auths offset ctx
              some (rval, some (record { count = ctx.auths_count; auths = auths }))
get_rsp_auths ctx list = some (sys_bad_reference, list)
