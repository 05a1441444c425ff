-- ===== src/Tcti/Mssim/Frame.antt =====
-- What the functions of tcti-mssim.c put on a socket, and that their calls of src/util/io.c return.
use tpm2_tss_verified.Common.{
  ℕ, ◌≤◌, ◌≡◌, refl, ap, ◌∙◌, none, some, [], ◌∷◌, ◌++◌, length, length-append, replicate, arith,
  ◌^◌, Bool, ltb, leb, ◌||◌, if◌then◌else◌,
}
use tpm2_tss_verified.Rc.{rc_success, tcti_io_error}
use tpm2_tss_verified.Memory.{Bytes, splice, splice-append, length-splice}
use tpm2_tss_verified.Endian.{w1, w4, to_be, length-to_be}
use tpm2_tss_verified.Mu.Base.Laws.{base_marshal_fits}
use tpm2_tss_verified.Io.System.{Kernel, IsKernel}
use tpm2_tss_verified.Io.{Socket, write_all, socket_xmit_buf}
use tpm2_tss_verified.Io.Complete.{
  Accepted, int_lt-ltb, socket_xmit_buf-Accepted, write_all-Accepted,
}
use tpm2_tss_verified.Tcti.Mssim.{Mssim, ms_sim_tpm_send_command, send_sim_cmd_setup}

overlay_all : (xs ys : Bytes) → length xs ≡ length ys → splice 0 xs ys ≡ xs
overlay_all [] [] h = refl
overlay_all [] (y ∷ ys) h = absurd (omega arith)
overlay_all (x ∷ xs) [] h = absurd (omega arith)
overlay_all (x ∷ xs) (y ∷ ys) h = ap (λ (t : Bytes). x ∷ t) (overlay_all xs ys (omega arith))

-- The nine bytes before a command: the code of the protocol, the locality and the command's size.
abbrev pub frame : ℕ → ℕ → Bytes
frame locality size = to_be 4 ms_sim_tpm_send_command ++ (to_be 1 locality ++ to_be 4 size)

pub length-frame : (locality size : ℕ) → length (frame locality size) ≡ 9
length-frame locality size = omega (
  arith,
  length-append (to_be 4 ms_sim_tpm_send_command) (to_be 1 locality ++ to_be 4 size),
  length-append (to_be 1 locality) (to_be 4 size),
  length-to_be 4 ms_sim_tpm_send_command,
  length-to_be 1 locality,
  length-to_be 4 size,
)

-- What was accepted on a socket, which may not be open.
pub data SentOn (k : Kernel) (buf : Bytes) (size : ℕ) (s : k.State)
    : Socket → ℕ → k.State → Type 0 where
  unopened : SentOn k buf size s none 0 s
  opened :
      {fd end : ℕ} {s' : k.State}
      → Accepted k fd buf size 0 s end s'
      → SentOn k buf size s (some fd) end s'

module _ (k : Kernel) (law : IsKernel k) where
  open k use {State}

  pub write_all-SentOn :
      (sock : Socket) (buf : Bytes) (size : ℕ) (s : State)
      → size ≤ length buf
      → (end : ℕ) × (s' : State) × SentOn k buf size s sock end s'
        × (write_all k sock (some buf) size s ≡ some (end, s'))
  write_all-SentOn none buf size s room = (0, s, unopened, unfold write_all in refl)
  write_all-SentOn (some fd) buf size s room =
      let (end, s', d, bound, out) = write_all-Accepted k law fd buf size s room in
      (end, s', opened d, out)

  pub xmit-SentOn :
      (sock : Socket) (buf : Bytes) (size : ℕ) (s : State)
      → size ≤ length buf
      → (end : ℕ) × (s' : State) × SentOn k buf size s sock end s'
        × (end ≤ size)
        × (socket_xmit_buf k sock (some buf) size s
            ≡ some (if ltb end size || leb (2 ^ 31) size then tcti_io_error else rc_success, s'))
  xmit-SentOn none buf size s room = (
    0,
    s,
    unopened,
    omega arith,
    unfold socket_xmit_buf write_all in
        ap (λ (b : Bool). some (if b then tcti_io_error else rc_success, s))
          (int_lt-ltb 0 size (omega arith)),
  )
  xmit-SentOn (some fd) buf size s room =
      let (end, s', d, bound, out) = socket_xmit_buf-Accepted k law fd buf size s room in
      (end, s', opened d, bound, out)

  pub send_sim_cmd_setup-frame :
      (m : Mssim) (size : ℕ) (s : State)
      → send_sim_cmd_setup k (some m) size s
        ≡ socket_xmit_buf k m.tpm_sock (some (frame m.common.locality size)) 9 s
  unfolding send_sim_cmd_setup
  send_sim_cmd_setup-frame m size s =
      let a = to_be 4 ms_sim_tpm_send_command in
      let b = to_be 1 m.common.locality in
      let c = to_be 4 size in
      let zeros : Bytes = replicate 9 0 in
      let one = splice 0 a zeros in
      let two = splice 4 b one in
      let l1 : length one ≡ 9 = length-splice 0 a zeros in
      let l2 : length two ≡ length one = length-splice 4 b one in
      let e1 : splice 4 (b ++ c) one ≡ splice 0 (a ++ (b ++ c)) zeros =
        rw (length-to_be 4 ms_sim_tpm_send_command) at (splice-append 0 a (b ++ c) zeros) in
      let e2 : splice 5 c two ≡ splice 4 (b ++ c) one =
        rw (length-to_be 1 m.common.locality) at (splice-append 4 b c one) in
      let e3 =
        overlay_all (frame m.common.locality size) zeros (length-frame m.common.locality size) in
      rw
        (
          base_marshal_fits w4 zeros 9 0 ms_sim_tpm_send_command (omega arith) (omega arith)
              (omega arith),
          base_marshal_fits w1 one 9 4 m.common.locality (omega arith) (omega arith) (omega arith),
          base_marshal_fits w4 two 9 5 size (omega arith) (omega arith) (omega arith),
        )
        (ap (λ (x : Bytes). socket_xmit_buf k m.tpm_sock (some x) 9 s) (e2 ∙ (e1 ∙ e3)))
