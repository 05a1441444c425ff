-- ===== src/Io/Complete.antt =====
-- The loops of src/util/io.c end, and with how much.
use native.Mathlib.Nat.{add_assoc}
use tpm2_tss_verified.Common.{
  true, false, first_of, second_of, ℕ, zero, suc, ◌+◌, ◌-◌, ◌≤◌, ◌<◌, ◌≡◌, refl, inl, inr, some, [],
  ◌∷◌, ◌++◌, length, length-append, arith, ltb, leb, ◌||◌, ◌^◌, lt→ltb, le→ltb, ◌==◌, ne→==,
  le_or_lt, if◌then◌else◌,
}
use tpm2_tss_verified.Rc.{rc_success, tcti_io_error}
use tpm2_tss_verified.Memory.{
  Bytes, splice, slice, splice_nil, splice-append, length-splice, length-slice, write_within,
  read_within,
}
use tpm2_tss_verified.Io.System.{
  Kernel, IsKernel, received, receive_interrupted, receive_failed, sent, send_interrupted,
  send_failed,
}
use tpm2_tss_verified.Io.{
  calls, read_loop, write_loop, read_all, write_all, int_lt, socket_xmit_buf,
}

module _ (k : Kernel) (fd : ℕ) where
  open k use {State}

  -- The answers of the kernel to a read of `size` bytes: chunks, with interruptions between them,
  -- until the size is reached, the stream ends or a call fails.
  pub data Delivered : ℕ → State → Bytes → State → Type 0 where
    ended :
        {size : ℕ} {s s' : State} → k.read fd size s ≡ (received [], s') → Delivered size s [] s'
    failed :
        {size : ℕ} {s s' : State} → k.read fd size s ≡ (receive_failed, s') → Delivered size s [] s'
    retried :
        {size : ℕ} {s s' t : State} {bytes : Bytes}
        → k.read fd size s ≡ (receive_interrupted, s')
        → Delivered size s' bytes t
        → Delivered size s bytes t
    filled :
        {size : ℕ} {s s' : State} {b : ℕ} {chunk : Bytes}
        → k.read fd size s ≡ (received (b ∷ chunk), s')
        → length (b ∷ chunk) ≡ size
        → Delivered size s (b ∷ chunk) s'
    more :
        {size : ℕ} {s s' t : State} {b : ℕ} {chunk bytes : Bytes}
        → k.read fd size s ≡ (received (b ∷ chunk), s')
        → length (b ∷ chunk) < size
        → Delivered (size - length (b ∷ chunk)) s' bytes t
        → Delivered size s ((b ∷ chunk) ++ bytes) t

add_zero : (n : ℕ) → n + 0 ≡ n
add_zero n = omega arith

zero_plus : (n : ℕ) → 0 + n ≡ n
zero_plus n = omega arith

antisym : (a b : ℕ) → a ≤ b → b ≤ a → a ≡ b
antisym a b h k = omega arith

-- A call that accepted a byte leaves fewer to offer.
progress_fuel :
    (size start n signals fuel : ℕ)
    → ((n ≡ 0) → size ≤ start)
    → (size - start + signals < suc fuel) × (start + n < size)
    → size - (start + n) + signals < fuel
progress_fuel size start zero signals fuel some_left (h, less) =
    absurd (omega (arith, some_left refl))
progress_fuel size start (suc n) signals fuel some_left (h, less) = omega arith

sub_self : (a n : ℕ) → a ≤ n → (a - n == 0) ≡ true
sub_self a n h = ground arith

module _ (k : Kernel) (law : IsKernel k) (fd : ℕ) where
  open k use {State}

  read_loop-Delivered :
      (fuel total size : ℕ) (buffer : Bytes) (s : State)
      → size + k.signals s < fuel
      → total + size ≤ length buffer
      → (bytes : Bytes) × (s' : State) × Delivered k fd size s bytes s'
        × (length bytes ≤ size)
        × (k.signals s' ≤ k.signals s)
        × (read_loop k fd fuel total size buffer s
            ≡ some (record {
              total = total + length bytes;
              buffer = splice total bytes buffer;
              after = s';
            }))
  unfolding read_loop
  read_loop-Delivered zero total size buffer s h room = absurd (omega arith)
  read_loop-Delivered (suc fuel) total size buffer s h room = elim (law.reads fd size s) [
    | inl ([], s', eq, _, calm) ↦ (
      [],
      s',
      ended eq,
      omega arith,
      calm,
      rw (first_of eq, second_of eq, read_loop, splice_nil, add_zero total),
    )
    | inl ((b ∷ chunk), s', eq, bound, calm) ↦ elim (le_or_lt size (length (b ∷ chunk))) [
      | inl all ↦ (
        b ∷ chunk,
        s',
        filled eq (omega arith),
        bound,
        calm,
        rw (
          first_of eq,
          second_of eq,
          read_loop,
          write_within (b ∷ chunk) total buffer (omega arith),
          sub_self size (length (b ∷ chunk)) all,
        ),
      )
      | inr part ↦
          let (bytes, t, d, bound', calm', out) =
            read_loop-Delivered fuel (total + length (b ∷ chunk)) (size - length (b ∷ chunk))
              (splice total (b ∷ chunk) buffer) s' (omega arith)
              (omega (arith, length-splice total (b ∷ chunk) buffer)) in
          (
            (b ∷ chunk) ++ bytes,
            t,
            more eq part d,
            omega (arith, length-append (b ∷ chunk) bytes),
            omega arith,
            rw (
              first_of eq,
              second_of eq,
              read_loop,
              write_within (b ∷ chunk) total buffer (omega arith),
              ne→== (size - length (b ∷ chunk)) 0 (λ e. omega arith),
              out,
              splice-append,
              length-append (b ∷ chunk) bytes,
              add_assoc,
            ),
          )
    ]
    | inr (inl (s', eq, less)) ↦
        let (bytes, t, d, bound, calm, out) =
          read_loop-Delivered fuel total size buffer s' (omega arith) room in
        (bytes, t, retried eq d, bound, omega arith, rw (first_of eq, second_of eq, read_loop) out)
    | inr (inr (s', eq, calm)) ↦ (
      [],
      s',
      failed eq,
      omega arith,
      calm,
      rw (first_of eq, second_of eq, read_loop, splice_nil, add_zero total),
    )
  ]

  -- A buffer that holds `size` bytes is filled from its start with what the kernel delivered, no
  -- more than `size` bytes, and nothing else of it changes; the count is returned.
  pub read_all-Delivered :
      (buffer : Bytes) (size : ℕ) (s : State)
      → size ≤ length buffer
      → (bytes : Bytes) × (s' : State) × Delivered k fd size s bytes s'
        × (length bytes ≤ size)
        × (read_all k (some fd) (some buffer) size s
            ≡ some (some (splice 0 bytes buffer), length bytes, s'))
  unfolding read_all calls
  read_all-Delivered buffer size s room =
      let (bytes, s', d, bound, _, out) =
        read_loop-Delivered (calls k fd size s) 0 size buffer s (omega arith) (omega arith) in
      (bytes, s', d, bound, rw (out, zero_plus (length bytes)) refl)

-- A count that does not exceed the size is less as an int when it is less, or does not fit.
pub int_lt-ltb :
    (count size : ℕ) → count ≤ size → int_lt count size ≡ (ltb count size || leb (2 ^ 31) size)
unfolding int_lt
int_lt-ltb count size h = ground arith

pub int_lt_complete : (count size : ℕ) → count ≤ size → int_lt count size ≡ false → count ≡ size
unfolding int_lt
int_lt_complete count size h e = ground arith

module _ (k : Kernel) (fd : ℕ) (buf : Bytes) (size : ℕ) where
  open k use {State}

  -- The answers of the kernel to a write of the first `size` bytes of a buffer from some place on:
  -- until all of them are accepted, or a call fails.
  pub data Accepted : ℕ → State → ℕ → State → Type 0 where
    failed :
        {start : ℕ} {s s' : State}
        → k.write fd (slice start (size - start) buf) s ≡ (send_failed, s')
        → Accepted start s start s'
    retried :
        {start end : ℕ} {s s' t : State}
        → k.write fd (slice start (size - start) buf) s ≡ (send_interrupted, s')
        → Accepted start s' end t
        → Accepted start s end t
    finished :
        {start n : ℕ} {s s' : State}
        → k.write fd (slice start (size - start) buf) s ≡ (sent n, s')
        → start + n ≡ size
        → Accepted start s size s'
    more :
        {start n end : ℕ} {s s' t : State}
        → k.write fd (slice start (size - start) buf) s ≡ (sent n, s')
        → start + n < size
        → Accepted (start + n) s' end t
        → Accepted start s end t

module _ (k : Kernel) (law : IsKernel k) (fd : ℕ) (buf : Bytes) (size : ℕ) where
  open k use {State}

  write_loop-Accepted :
      (fuel start : ℕ) (s : State)
      → size - start + k.signals s < fuel
      → start ≤ size
      → size ≤ length buf
      → (end : ℕ) × (s' : State) × Accepted k fd buf size start s end s'
        × (end ≤ size)
        × (write_loop k fd fuel start buf size s ≡ some (record { total = end; after = s' }))
  unfolding write_loop
  write_loop-Accepted zero start s h le room = absurd (omega arith)
  write_loop-Accepted (suc fuel) start s h le room =
      let part = slice start (size - start) buf in
      let taken = read_within (size - start) start buf (omega arith) in
      let l : length part ≡ size - start = length-slice start (size - start) buf (omega arith) in
      elim (law.writes fd part s) [
        | inl (n, s', eq, bound, progress, calm) ↦ elim (le_or_lt size (start + n)) [
          | inl all ↦ (
            size,
            s',
            finished eq (omega arith),
            omega arith,
            rw (taken, first_of eq, second_of eq, write_loop, le→ltb (start + n) size all)
                (rw (antisym (start + n) size (omega arith) all) refl),
          )
          | inr less ↦
              let next =
                write_loop-Accepted fuel (start + n) s'
                  (progress_fuel size start n (k.signals s') fuel
                    (λ e. omega (arith, progress e, l)) (omega arith, less))
                  (omega arith) room in
              let (end, t, d, bound', out) = next in
              (
                end,
                t,
                more eq less d,
                bound',
                rw (taken, first_of eq, second_of eq, write_loop, lt→ltb (start + n) size less) out,
              )
        ]
        | inr (inl (s', eq, less)) ↦
            let (end, t, d, bound, out) = write_loop-Accepted fuel start s' (omega arith) le room in
            (end, t, retried eq d, bound, rw (taken, first_of eq, second_of eq, write_loop) out)
        | inr (inr (s', eq, calm)) ↦
            (start, s', failed eq, le, rw (taken, first_of eq, second_of eq, write_loop))
      ]

  pub write_all-Accepted :
      (s : State)
      → size ≤ length buf
      → (end : ℕ) × (s' : State) × Accepted k fd buf size 0 s end s'
        × (end ≤ size)
        × (write_all k (some fd) (some buf) size s ≡ some (end, s'))
  unfolding write_all calls
  write_all-Accepted s room =
      let (end, s', d, bound, out) =
        write_loop-Accepted (calls k fd size s) 0 s (omega arith) (omega arith) room in
      (end, s', d, bound, rw (out) refl)

  -- socket_xmit_buf on an open socket returns. The code is success exactly when the kernel accepted
  -- every one of the `size` bytes, in order, and there are fewer than 2^31 of them; otherwise it is
  -- IO_ERROR.
  pub socket_xmit_buf-Accepted :
      (s : State)
      → size ≤ length buf
      → (end : ℕ) × (s' : State) × Accepted k fd buf size 0 s end s'
        × (end ≤ size)
        × (socket_xmit_buf k (some fd) (some buf) size s
            ≡ some (if ltb end size || leb (2 ^ 31) size then tcti_io_error else rc_success, s'))
  unfolding socket_xmit_buf
  socket_xmit_buf-Accepted s room =
      let (end, s', d, bound, out) = write_all-Accepted s room in
      (end, s', d, bound, rw (out, int_lt-ltb end size bound) refl)
