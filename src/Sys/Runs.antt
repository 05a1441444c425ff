-- ===== src/Sys/Runs.antt =====
-- The authorisations and the parameters at concrete inputs.
use tpm2_tss_verified.Common.{
  ℕ, ◌+◌, ◌≤◌, ◌<◌, ◌≡◌, refl, ◌⊎◌, true, some, [], ◌∷◌, ◌++◌, length, map, take, replicate,
  length-replicate, length-append, All, arith,
}
use tpm2_tss_verified.Rc.{rc_success, tpm2_st_no_sessions, tpm2_st_sessions}
use tpm2_tss_verified.Memory.{Bytes, size_mod, splice, slice}
use tpm2_tss_verified.Endian.{IsByte, to_be, to_memory, of_be}
use tpm2_tss_verified.Mu.Tpm2b.{Tpm2b}
use tpm2_tss_verified.Mu.Tpm2b.Wire.{IsSized, sized, length-sized}
use tpm2_tss_verified.Tcti.{Header}
use tpm2_tss_verified.Tcti.Wire.{wire}
use tpm2_tss_verified.Sys.{Stage, cmd_stage_prepare, cmd_stage_receive_response, SysContext}
use tpm2_tss_verified.Sys.Frame.{IsFramed}
use tpm2_tss_verified.Sys.Params.{get_decrypt_param, set_decrypt_param, get_rp_buffer}
use tpm2_tss_verified.Sys.Params.Law.{set_decrypt_param-get_decrypt_param}
use tpm2_tss_verified.Sys.Params.Room.{set_decrypt_param-null}
use tpm2_tss_verified.Sys.Params.Response.{get_rp_buffer-size}
use tpm2_tss_verified.Sys.Auths.{AuthCommand, AuthResponse, AuthList, set_cmd_auths, get_rsp_auths}
use tpm2_tss_verified.Sys.Auths.Area.{auth_area}
use tpm2_tss_verified.Sys.Auths.Law.{sized_area, with_auths, set_cmd_auths-IsFramed}
use tpm2_tss_verified.Sys.Auths.Response.{rsp_area}
use tpm2_tss_verified.Sys.Auths.Reads.{rsp_view}
use tpm2_tss_verified.Sys.Auths.Answer.{Answer, get_rsp_auths-decodes, get_rsp_auths-reads}

abbrev zeros : Bytes
zeros = replicate 48 0

abbrev at_stage : Stage → Bytes → Bytes → SysContext
at_stage stage front params = record {
  cmd_buffer = zeros;
  max_cmd_size = 48;
  rsp_header = record { tag = tpm2_st_sessions; response_size = 48; response_code = 0 };
  command_code = 0x12a;
  cp_buffer_used_size = length params;
  cp_buffer = 10 + length front;
  rsp_params_size = 10;
  previous_stage = stage;
  auths_count = 1;
  num_response_handles = 0;
  decrypt_allowed = true;
  encrypt_allowed = true;
  decrypt_null = true;
  auth_allowed = true;
  next_data = 0;
}

-- A prepared command.
abbrev command : Bytes → Bytes → Header
command front params = record {
  tag = tpm2_st_no_sessions;
  size = 10 + length front + length params;
  code = 0x12a;
}

abbrev prepared : Bytes → Bytes → SysContext
prepared front params = record (at_stage cmd_stage_prepare front params) {
  cmd_buffer = splice 0 (wire (command front params) ++ (front ++ params)) zeros;
}

prepared-IsFramed :
    (front params : Bytes)
    → 10 + length front + length params ≤ 48
    → IsFramed (prepared front params) (command front params) front params zeros
prepared-IsFramed front params room = record {
  stage = refl;
  laid = refl;
  size = refl;
  place = refl;
  used = refl;
  room = room;
  inside = omega (arith, length-replicate {A = ℕ} 48 0);
  max = omega arith;
}

-- The empty authorisation of a password session.
abbrev empty : Tpm2b
empty = record { size = 0; buffer = replicate 64 0 }

empty-IsSized : IsSized 64 empty
empty-IsSized = record { room = length-replicate {A = ℕ} 64 0; fits = omega arith }

abbrev password : AuthCommand
password = (0x40000009, (empty, (1, empty)))

abbrev passwords : AuthList AuthCommand
passwords = record { count = 1; auths = password ∷ password ∷ password ∷ [] }

area-passwords : length (auth_area (password ∷ [])) ≡ 9
unfolding to_be to_memory
area-passwords = refl

set_cmd_auths-IsFramed_example :
    (ctx' : SysContext) × (set_cmd_auths
        (some (prepared (1 ∷ 2 ∷ 3 ∷ 4 ∷ []) (0 ∷ 7 ∷ [])))
        (some passwords)
      ≡ some (rc_success, some ctx'))
    × IsFramed ctx'
        (with_auths (command (1 ∷ 2 ∷ 3 ∷ 4 ∷ []) (0 ∷ 7 ∷ [])) (password ∷ []))
        ((1 ∷ 2 ∷ 3 ∷ 4 ∷ []) ++ sized_area (password ∷ []))
        (0 ∷ 7 ∷ [])
        zeros
    × (ctx'.auths_count ≡ 1)
set_cmd_auths-IsFramed_example =
    set_cmd_auths-IsFramed (prepared (1 ∷ 2 ∷ 3 ∷ 4 ∷ []) (0 ∷ 7 ∷ []))
      (command (1 ∷ 2 ∷ 3 ∷ 4 ∷ []) (0 ∷ 7 ∷ [])) (1 ∷ 2 ∷ 3 ∷ 4 ∷ []) (0 ∷ 7 ∷ []) zeros
      (prepared-IsFramed (1 ∷ 2 ∷ 3 ∷ 4 ∷ []) (0 ∷ 7 ∷ []) (omega arith)) passwords refl
      (omega arith) (omega arith) (omega arith)
      ((omega arith, (empty-IsSized, (omega arith, empty-IsSized))), tt)
      (omega (arith, area-passwords))

-- The parameters of a command whose first parameter is three bytes, and the new one.
abbrev secret : Bytes
secret = 5 ∷ 6 ∷ 7 ∷ []

abbrev cipher : Bytes
cipher = 250 ∷ 251 ∷ 252 ∷ []

param_then_nine : (bytes : Bytes) → length (sized bytes ++ (9 ∷ [])) ≡ 3 + length bytes
param_then_nine bytes = omega (arith, length-append (sized bytes) (9 ∷ []), length-sized bytes)

set_decrypt_param-get_decrypt_param_example :
    (ctx' : SysContext) × (set_decrypt_param
        (some (prepared [] (sized secret ++ (9 ∷ []))))
        (some cipher)
      ≡ some (rc_success, some ctx'))
    × IsFramed ctx' (command [] (sized secret ++ (9 ∷ []))) [] (sized cipher ++ (9 ∷ [])) zeros
    × (get_decrypt_param (some ctx') (some 0) (some 0)
        ≡ some (record { rc = rc_success; size = some 3; place = some (ctx'.cp_buffer + 2) }))
    × (slice (ctx'.cp_buffer + 2) 3 ctx'.cmd_buffer ≡ cipher)
set_decrypt_param-get_decrypt_param_example =
    set_decrypt_param-get_decrypt_param (prepared [] (sized secret ++ (9 ∷ [])))
      (command [] (sized secret ++ (9 ∷ []))) [] secret cipher (9 ∷ []) zeros
      (prepared-IsFramed [] (sized secret ++ (9 ∷ [])) (omega (arith, param_then_nine secret))) refl
      refl (omega arith) (omega arith) (omega (arith, param_then_nine secret))

set_decrypt_param-null_example :
    (ctx' : SysContext) × (set_decrypt_param
        (some (prepared [] (sized [] ++ (9 ∷ []))))
        (some cipher)
      ≡ some (rc_success, some ctx'))
    × (ctx'.cmd_buffer
        ≡ splice 10 (sized cipher) (
            splice 2
              (to_be 4 (10 + 0 + length (sized [] ++ (9 ∷ [])) + 3))
              (splice 15 (9 ∷ []) (prepared [] (sized [] ++ (9 ∷ []))).cmd_buffer)))
    × (ctx'.cp_buffer_used_size ≡ 6)
    × (ctx'.cp_buffer ≡ 10)
set_decrypt_param-null_example =
    set_decrypt_param-null (prepared [] (sized [] ++ (9 ∷ []))) (command [] (sized [] ++ (9 ∷ [])))
      [] cipher (9 ∷ []) zeros
      (prepared-IsFramed [] (sized [] ++ (9 ∷ [])) (omega (arith, param_then_nine []))) refl refl
      (omega arith) (omega arith) (omega (arith, param_then_nine [])) (omega arith)

-- A response with sessions whose first parameter is `secret`.
abbrev answered : SysContext
answered = record (at_stage cmd_stage_receive_response [] []) {
  cmd_buffer = splice 0 (to_be 2 tpm2_st_sessions) (splice 14 (to_be 2 3) (splice 16 secret zeros));
}

-- A response of ten bytes for a command whose response has a handle.
abbrev cut : SysContext
cut = record answered {
  rsp_header = record { tag = tpm2_st_no_sessions; response_size = 10; response_code = 0 };
  num_response_handles = 1;
}

get_rp_buffer-size_example :
    (place size : ℕ) × (place ≡ 14)
    × (get_rp_buffer (some cut) (some 0) (some 0)
        ≡ some (record { rc = rc_success; size = some size; place = some place }))
    × (((place ≤ 10) × (size + place ≡ 10)) ⊎ ((10 < place) × (size + place ≡ 10 + size_mod)))
get_rp_buffer-size_example =
    get_rp_buffer-size cut 0 0 refl (λ e. omega arith) (omega arith) (omega arith)

zeros-IsByte : All IsByte zeros
zeros-IsByte = ground arith

abbrev zero_response : SysContext
zero_response = at_stage cmd_stage_receive_response [] []

abbrev room_for_one : AuthList AuthResponse
room_for_one = record { count = 0; auths = (empty, (0, empty)) ∷ [] }

get_rsp_auths-decodes_example :
    (rc : ℕ) × (list' : AuthList AuthResponse) × (get_rsp_auths
        (some zero_response)
        (some room_for_one)
      ≡ some (rc, some list'))
    × Answer zero_response (of_be (slice 10 4 zeros)) rc list'
get_rsp_auths-decodes_example =
    get_rsp_auths-decodes zero_response room_for_one zeros-IsByte (omega arith) (omega arith)
      (omega arith) (omega arith) (omega arith)
      ((length-replicate {A = ℕ} 64 0, (tt, length-replicate {A = ℕ} 64 0)), tt)

-- A response without parameters and with one authorisation.
abbrev accepted : AuthResponse
accepted = (empty, (1, empty))

abbrev authorised : SysContext
authorised = record zero_response {
  cmd_buffer = splice 10 (to_be 4 0) (splice 14 (rsp_area (accepted ∷ [])) zeros);
}

area-accepted : length (rsp_area (accepted ∷ [])) ≡ 5
unfolding to_be to_memory
area-accepted = refl

authorised-stands :
    (slice 10 4 authorised.cmd_buffer ≡ to_be 4 0)
    × (slice 14 (length (rsp_area (accepted ∷ []))) authorised.cmd_buffer
        ≡ rsp_area (accepted ∷ []))
unfolding to_be to_memory
authorised-stands = (refl, refl)

authorised-length : length authorised.cmd_buffer ≡ 48
unfolding to_be to_memory
authorised-length = refl

get_rsp_auths-reads_example :
    (list' : AuthList AuthResponse) × (get_rsp_auths (some authorised) (some room_for_one)
      ≡ some (rc_success, some list'))
    × (list'.count ≡ 1)
    × (map rsp_view (take 1 list'.auths) ≡ map rsp_view (accepted ∷ []))
get_rsp_auths-reads_example =
    get_rsp_auths-reads authorised room_for_one (accepted ∷ []) 0 refl refl refl refl refl
      ((empty-IsSized, (omega arith, empty-IsSized)), tt) (omega (arith, area-accepted))
      (omega (arith, area-accepted)) (omega arith) (omega (arith, authorised-length)) (omega arith)
      (omega (arith, authorised-length)) (omega arith) authorised-stands.0 authorised-stands.1
      ((length-replicate {A = ℕ} 64 0, (tt, length-replicate {A = ℕ} 64 0)), tt) (omega arith)
