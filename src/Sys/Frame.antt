-- ===== src/Sys/Frame.antt =====
-- A command in its buffer: the header, and the bytes behind it.
use mathlib.Core.List.{append_assoc}
use tpm2_tss_verified.Common.{
  sym, ◌+◌, ◌∙◌, ℕ, ◌+◌, ◌≤◌, ◌<◌, ◌^◌, ◌≡◌, ap, ◌∙◌, some, length, ◌++◌, length-append, arith,
}
use tpm2_tss_verified.Memory.{
  Bytes, read, slice-splice_before, splice, slice, splice-overlay, slice-overlay, length-splice,
  length-slice, slice-splice, splice-append, splice_absorb, read_within, write_within,
}
use tpm2_tss_verified.Endian.{
  w2, w4, to_be, to_memory, Fits, length-to_be, be_to_host, of_memory, be_to_host-of_memory,
  of_be-to_be, to_be-IsByte, to_memory-host_to_be,
}
use tpm2_tss_verified.Tcti.{Header}
use tpm2_tss_verified.Tcti.Wire.{wire, length-wire}
use tpm2_tss_verified.Sys.{SysContext, cmd_stage_prepare, header_field, set_header_field}
use tpm2_tss_verified.Sys.Params.{move, word_at}

module _ (h : Header) (rest buf : Bytes) where
  -- The tag is written over the tag, and the size over the size.
  pub wire_tag :
      (t : ℕ)
      → splice 0 (to_be 2 t) (splice 0 (wire h ++ rest) buf)
        ≡ splice 0 (wire (record h { tag = t }) ++ rest) buf
  unfolding to_be to_memory
  wire_tag t = splice-overlay 0 (to_be 2 t) (wire h ++ rest) buf (omega arith)

  pub wire_size :
      (n : ℕ)
      → splice 2 (to_be 4 n) (splice 0 (wire h ++ rest) buf)
        ≡ splice 0 (wire (record h { size = n }) ++ rest) buf
  unfolding to_be to_memory
  wire_size n = splice-overlay 2 (to_be 4 n) (wire h ++ rest) buf (omega arith)

  slice_size :
      length (wire h ++ rest) ≤ length buf
      → slice 2 4 (splice 0 (wire h ++ rest) buf) ≡ to_be 4 h.size
  unfolding to_be to_memory
  slice_size room = slice-overlay 2 4 (wire h ++ rest) buf (omega arith) room

  -- The size is read back.
  pub header_field-wire :
      (ctx : SysContext)
      → ctx.cmd_buffer ≡ splice 0 (wire h ++ rest) buf
      → length (wire h ++ rest) ≤ length buf
      → Fits w4 h.size
      → header_field 2 ctx ≡ some h.size
  unfolding header_field
  header_field-wire ctx laid room fit =
      let e : slice 2 4 ctx.cmd_buffer ≡ to_be 4 h.size =
        ap (λ b. slice 2 4 b) laid ∙ slice_size room in
      let l : length ctx.cmd_buffer ≡ length buf =
        ap (λ b. length b) laid ∙ length-splice 0 (wire h ++ rest) buf in
      let w = length-wire h in
      let a = length-append (wire h) rest in
      rw (
        read_within 4 2 ctx.cmd_buffer (omega arith),
        e,
        be_to_host-of_memory w4 (to_be 4 h.size) (length-to_be 4 h.size) (to_be-IsByte 4 h.size),
        of_be-to_be 4 h.size fit,
      )

pub set_header_field_fits :
    (place value : ℕ) (ctx : SysContext)
    → place + 4 ≤ length ctx.cmd_buffer
    → set_header_field place value ctx
      ≡ some (record ctx { cmd_buffer = splice place (to_be 4 value) ctx.cmd_buffer })
unfolding set_header_field
set_header_field_fits place value ctx room = rw (
  to_memory-host_to_be w4 value,
  write_within (to_be 4 value) place ctx.cmd_buffer (omega (arith, length-to_be 4 value)),
)

pub word_at-to_be :
    (place value : ℕ) (ctx : SysContext)
    → place + 2 ≤ length ctx.cmd_buffer
    → Fits w2 value
    → slice place 2 ctx.cmd_buffer ≡ to_be 2 value
    → word_at place ctx ≡ some value
unfolding word_at
word_at-to_be place value ctx room fit e = rw (
  read_within 2 place ctx.cmd_buffer room,
  e,
  be_to_host-of_memory w2 (to_be 2 value) (length-to_be 2 value) (to_be-IsByte 2 value),
  of_be-to_be 2 value fit,
)

pub word_at-returns :
    (place : ℕ) (ctx : SysContext)
    → place + 2 ≤ length ctx.cmd_buffer
    → (value : ℕ) × (word_at place ctx ≡ some value)
unfolding word_at
word_at-returns place ctx room = (
  be_to_host w2 (of_memory (slice place 2 ctx.cmd_buffer)),
  rw (read_within 2 place ctx.cmd_buffer room),
)

pub move_fits :
    (dst src len : ℕ) (ctx : SysContext)
    → src + len ≤ length ctx.cmd_buffer
    → dst + len ≤ length ctx.cmd_buffer
    → move dst src len ctx
      ≡ some (record ctx { cmd_buffer = splice dst (slice src len ctx.cmd_buffer) ctx.cmd_buffer })
unfolding move
move_fits dst src len ctx from to =
    let l = length-slice src len ctx.cmd_buffer from in
    rw (
      read_within len src ctx.cmd_buffer from,
      write_within (slice src len ctx.cmd_buffer) dst ctx.cmd_buffer (omega arith),
    )

-- What stands behind `front` is written behind it.
pub wire_behind :
    (h : Header) (front rest buf : Bytes)
    → splice (10 + length front) rest (splice 0 (wire h ++ front) buf)
      ≡ splice 0 (wire h ++ (front ++ rest)) buf
wire_behind h front rest buf =
    let l : length (wire h ++ front) ≡ 10 + length front =
      length-append (wire h) front ∙ ap (λ (n : ℕ). n + length front) (length-wire h) in
    let there : 0 + length (wire h ++ front) ≡ 10 + length front = omega arith in
    rw there at (splice-append 0 (wire h ++ front) rest buf)
    ∙ ap (λ (b : Bytes). splice 0 b buf) (append_assoc (wire h) front rest)

-- A longer run is written over what stands behind `front`.
pub wire_over :
    (h : Header) (front old new buf : Bytes)
    → length old ≤ length new
    → splice (10 + length front) new (splice 0 (wire h ++ (front ++ old)) buf)
      ≡ splice 0 (wire h ++ (front ++ new)) buf
wire_over h front old new buf longer =
    ap (λ (b : Bytes). splice (10 + length front) new b) (sym (wire_behind h front old buf))
    ∙ (splice_absorb (10 + length front) new old (splice 0 (wire h ++ front) buf) longer
        ∙ wire_behind h front new buf)

-- What stands behind `front` is read.
pub slice-wire :
    (h : Header) (front rest buf : Bytes)
    → 10 + length front + length rest ≤ length buf
    → slice (10 + length front) (length rest) (splice 0 (wire h ++ (front ++ rest)) buf) ≡ rest
slice-wire h front rest buf room =
    let l = length-splice 0 (wire h ++ front) buf in
    ap (λ (b : Bytes). slice (10 + length front) (length rest) b)
      (sym (wire_behind h front rest buf))
    ∙ slice-splice (10 + length front) rest (splice 0 (wire h ++ front) buf) (omega arith)

pub length-framed :
    (h : Header) (front rest : Bytes)
    → length (wire h ++ (front ++ rest)) ≡ 10 + length front + length rest
length-framed h front rest =
    omega (arith, length-append (wire h) (front ++ rest), length-append front rest, length-wire h)

-- The size stays when bytes behind it are written.
pub header_field-splice :
    (n : ℕ) (bytes : Bytes) (ctx ctx' : SysContext)
    → 6 ≤ n
    → ctx'.cmd_buffer ≡ splice n bytes ctx.cmd_buffer
    → header_field 2 ctx' ≡ header_field 2 ctx
unfolding header_field read
header_field-splice n bytes ctx ctx' behind e =
    rw (
      e,
      length-splice n bytes ctx.cmd_buffer,
      slice-splice_before 2 4 n bytes ctx.cmd_buffer behind,
    )

-- A prepared command: the header, whose size counts what follows; what stands before `cpBuffer`,
-- which is the handles and then the authorisation area; and the parameters.
pub record IsFramed (ctx : SysContext) (h : Header) (front params buf : Bytes) : Type 0 where
  pub stage : ctx.previous_stage ≡ cmd_stage_prepare
  pub laid : ctx.cmd_buffer ≡ splice 0 (wire h ++ (front ++ params)) buf
  pub size : h.size ≡ 10 + length front + length params
  pub place : ctx.cp_buffer ≡ 10 + length front
  pub used : ctx.cp_buffer_used_size ≡ length params
  pub room : h.size ≤ ctx.max_cmd_size
  pub inside : ctx.max_cmd_size ≤ length buf
  pub max : ctx.max_cmd_size < 2 ^ 32

module _ (ctx : SysContext) (h : Header) (front params buf : Bytes)
    (framed : IsFramed ctx h front params buf) where
  -- The command is inside the buffer.
  pub IsFramed-length :
      (length ctx.cmd_buffer ≡ length buf)
      × (length (wire h ++ (front ++ params)) ≤ ctx.max_cmd_size)
      × (10 + length front + length params ≤ ctx.max_cmd_size)
  IsFramed-length =
      let n = length-framed h front params in
      let s = framed.size in
      let r = framed.room in
      (
        ap (λ (b : Bytes). length b) framed.laid
            ∙ length-splice 0 (wire h ++ (front ++ params)) buf,
        omega arith,
        omega arith,
      )

  -- The size of the command is read from its header.
  pub IsFramed-header_field : header_field 2 ctx ≡ some h.size
  IsFramed-header_field =
      let (_, fits, _) = IsFramed-length in
      let i = framed.inside in
      let r = framed.room in
      let m = framed.max in
      header_field-wire h (front ++ params) buf ctx framed.laid (omega arith) (omega arith)

  -- The parameters stand at `cpBuffer`.
  pub IsFramed-slice : slice ctx.cp_buffer (length params) ctx.cmd_buffer ≡ params
  IsFramed-slice =
      let (_, _, fits) = IsFramed-length in
      let i = framed.inside in
      rw (framed.laid, framed.place) (slice-wire h front params buf (omega arith))
