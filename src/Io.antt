-- ===== src/Io.antt =====
-- src/util/io.c: reading and writing whole buffers on a socket, over a kernel that may stop short,
-- be interrupted or fail. (The branches for Windows are not modelled.) TEMP_RETRY keeps the count of
-- one call in an int, which holds it, since read(2) and write(2) move at most 0x7ffff000 bytes.
pub mod System
pub mod Pipe
pub mod Complete
use tpm2_tss_verified.Common.{
  ℕ, zero, suc, ◌+◌, ◌-◌, ◌%◌, ◌^◌, Bool, true, false, Option, none, some, [], ◌∷◌, length, ltb,
  ◌==◌, if◌then◌else◌, ◌>>=◌,
}
use tpm2_tss_verified.Memory.{Bytes, write, read}
use tpm2_tss_verified.Rc.{rc_success, tcti_io_error}
use tpm2_tss_verified.Io.System.{
  Kernel, received, receive_interrupted, receive_failed, sent, send_interrupted, send_failed,
}

-- What a read leaves: the count that is returned, the caller's buffer, and the kernel.
pub record Got (S : Type 0) : Type 0 where
  pub total : ℕ
  pub buffer : Bytes
  pub after : S

-- What a write leaves: the count that is returned, and the kernel.
pub record Put (S : Type 0) : Type 0 where
  pub total : ℕ
  pub after : S

module _ (k : Kernel) (fd : ℕ) where
  open k use {State}

  -- The loop of `read_all`, with TEMP_RETRY unrolled into it: an interrupted call is made again.
  unfoldable pub read_loop : ℕ → ℕ → ℕ → Bytes → State → Option (Got State)
  read_loop zero recvd_total size buffer s = none
  read_loop (suc fuel) recvd_total size buffer s =
      let (answer, s') = k.read fd size s in
      elim answer [
        | receive_interrupted ↦ read_loop fuel recvd_total size buffer s'
        | receive_failed ↦ some (record { total = recvd_total; buffer = buffer; after = s' })
        | received [] ↦ some (record { total = recvd_total; buffer = buffer; after = s' })
        | received (b ∷ bytes) ↦ (do
          let recvd = suc (length bytes)
          buffer' ← write (b ∷ bytes) recvd_total buffer
          let next = read_loop fuel (recvd_total + recvd) (size - recvd) buffer' s'
          if size - recvd == 0
              then some (record { total = recvd_total + recvd; buffer = buffer'; after = s' })
              else next)
      ]

  -- The loop of `write_all`.
  unfoldable pub write_loop : ℕ → ℕ → Bytes → ℕ → State → Option (Put State)
  write_loop zero written_total buf size s = none
  write_loop (suc fuel) written_total buf size s = do
    bytes ← read (size - written_total) written_total buf
    let (answer, s') = k.write fd bytes s
    elim answer [
      | send_interrupted ↦ write_loop fuel written_total buf size s'
      | send_failed ↦ some (record { total = written_total; after = s' })
      | sent written ↦
          (let next = write_loop fuel (written_total + written) buf size s' in
            if ltb (written_total + written) size
            then next
            else some (record { total = written_total + written; after = s' }))
    ]

  -- The calls that the loops make at most: one per byte, one per interruption, and one more.
  unfoldable pub calls : ℕ → State → ℕ
  calls size s = suc (size + k.signals s)

-- INVALID_SOCKET, which is -1, is `none`.
abbrev pub Socket : Type 0
Socket = Option ℕ

-- Whether an int that a count was assigned to is less than the ssize_t of a size. The int is the count
-- modulo 2^32, and negative from 2^31 on. The size is one of an object, below 2^63, so that its
-- ssize_t is the size.
unfoldable pub int_lt : ℕ → ℕ → Bool
int_lt count size = let ret = count % 2 ^ 32 in if ltb ret (2 ^ 31) then ltb ret size else true

module _ (k : Kernel) where
  -- The buffer, the count and the kernel. A call on INVALID_SOCKET fails, with EBADF.
  unfoldable pub read_all :
      Socket → Option Bytes → ℕ → k.State → Option (Option Bytes × ℕ × k.State)
  unfolding read_loop calls
  read_all fd none size s = some (none, 0, s)
  read_all none (some buffer) size s = some (some buffer, 0, s)
  read_all (some fd) (some buffer) size s = do
    got ← read_loop k fd (calls k fd size s) 0 size buffer s
    some (some got.buffer, got.total, got.after)

  unfoldable pub write_all : Socket → Option Bytes → ℕ → k.State → Option (ℕ × k.State)
  unfolding write_loop calls
  write_all fd none size s = some (0, s)
  write_all none (some buf) size s = some (0, s)
  write_all (some fd) (some buf) size s = do
    put ← write_loop k fd (calls k fd size s) 0 buf size s
    some (put.total, put.after)

  unfoldable pub socket_recv_buf :
      Socket → Option Bytes → ℕ → k.State → Option (Option Bytes × ℕ × k.State)
  unfolding read_all
  socket_recv_buf = read_all

  -- The return code and the kernel. `ret` is an int.
  unfoldable pub socket_xmit_buf : Socket → Option Bytes → ℕ → k.State → Option (ℕ × k.State)
  unfolding write_all int_lt
  socket_xmit_buf sock buf size s = do
    (total, s') ← write_all sock buf size s
    some (if int_lt total size then tcti_io_error else rc_success, s')

  -- socket_close(&socket): the return code, the socket and the kernel.
  unfoldable pub socket_close : Socket → k.State → ℕ × Socket × k.State
  socket_close none s = (rc_success, none, s)
  socket_close (some fd) s =
      let (closed, s') = k.close fd s in
      if closed then (rc_success, none, s') else (tcti_io_error, some fd, s')
