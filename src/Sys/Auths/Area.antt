-- ===== src/Sys/Auths/Area.antt =====
-- The authorisation area of a command: its length, and the loop that writes it.
use native.Mathlib.Nat.{mod-eq_of_lt, add-zero}
use tpm2_tss_verified.Common.{
  ℕ, ◌+◌, ◌≤◌, ◌<◌, ◌^◌, ◌≡◌, ap, ◌∙◌, some, List, [], ◌∷◌, ◌++◌, length, length-append, All, arith,
}
use tpm2_tss_verified.Memory.{Bytes, size_mod, splice, splice_nil, length-splice}
use tpm2_tss_verified.Endian.{to_be, length-to_be}
use tpm2_tss_verified.Mu.Codec.{marshalled, marshalled-append}
use tpm2_tss_verified.Mu.Tpm2b.Wire.{payload, sized, length-payload, length-sized}
use tpm2_tss_verified.Mu.Types.{tpms_auth_command}
use tpm2_tss_verified.Sys.Auths.{AuthCommand, auth_size, auths_marshal}

-- An authorisation whose nonce and HMAC fit their arrays.
abbrev pub IsAuth : AuthCommand → Type 0
IsAuth = tpms_auth_command.codec.IsValid

-- The authorisations on the wire, one behind the other.
abbrev pub auth_area : List AuthCommand → Bytes
auth_area [] = []
auth_area (auth ∷ auths) =
    tpms_auth_command.codec.encode (tpms_auth_command.codec.view auth) ++ auth_area auths

pub length-auth :
    (auth : AuthCommand)
    → IsAuth auth
    → length (tpms_auth_command.codec.encode (tpms_auth_command.codec.view auth))
      ≡ 9 + auth.1.0.size + auth.1.1.1.size
length-auth (handle, (nonce, (attributes, hmac))) (_, (vn, (_, vh))) =
    let n = sized (payload nonce) in
    let f = to_be 1 attributes in
    let m = sized (payload hmac) in
    omega (
      arith,
      length-append (to_be 4 handle) (n ++ (f ++ m)),
      length-append n (f ++ m),
      length-append f m,
      length-to_be 4 handle,
      length-to_be 1 attributes,
      length-sized (payload nonce),
      length-sized (payload hmac),
      length-payload 64 nonce vn,
      length-payload 64 hmac vh,
    )

-- The size that is counted is the length of the area.
pub auth_size-auth_area :
    (auths : List AuthCommand) (size : ℕ)
    → All IsAuth auths
    → size + length (auth_area auths) < 2 ^ 32
    → auth_size size auths ≡ size + length (auth_area auths)
unfolding auth_size
auth_size-auth_area [] size valid small = omega arith
auth_size-auth_area ((handle, (nonce, (attributes, hmac))) ∷ auths) size (v, valid) small =
    let auth : AuthCommand = (handle, (nonce, (attributes, hmac))) in
    let bytes = tpms_auth_command.codec.encode (tpms_auth_command.codec.view auth) in
    let n = length-auth auth v in
    let a = length-append bytes (auth_area auths) in
    let next = size + 4 + (2 + nonce.size) + 1 + (2 + hmac.size) in
    let e = mod-eq_of_lt {n = next} {m = 2 ^ 32} (omega arith) in
    let ih = auth_size-auth_area auths next valid (omega arith) in
    let same : next + length (auth_area auths) ≡ size + length (bytes ++ auth_area auths) =
      omega arith in
    ap (λ (k : ℕ). auth_size k auths) e ∙ (ih ∙ same)

-- The area is written at the offset, if it fits.
pub auths_marshal-auth_area :
    (auths : List AuthCommand) (buf : Bytes) (size offset : ℕ)
    → All IsAuth auths
    → offset + length (auth_area auths) ≤ size
    → size ≤ length buf
    → size < size_mod
    → auths_marshal auths buf size offset ≡ some (marshalled (auth_area auths) buf offset)
unfolding auths_marshal
auths_marshal-auth_area [] buf size offset valid fits inside max =
    rw (splice_nil offset buf, add-zero)
auths_marshal-auth_area (auth ∷ auths) buf size offset (v, valid) fits inside max =
    let bytes = tpms_auth_command.codec.encode (tpms_auth_command.codec.view auth) in
    let a = length-append bytes (auth_area auths) in
    let l = length-splice offset bytes buf in
    rw
      (
        tpms_auth_command.law.fits auth buf size offset v (omega arith) inside max,
        auths_marshal-auth_area auths (splice offset bytes buf) size (offset + length bytes) valid
            (omega arith) (omega arith) max,
      )
      (ap some (marshalled-append bytes (auth_area auths) buf offset))
