-- ===== src/Io/System.antt =====
-- The system calls that src/util/io.c makes, as an interface: read(2), write(2) and close(2) on a
-- state that stands for the kernel and the peer.
use tpm2_tss_verified.Common.{ℕ, ◌≤◌, ◌<◌, ◌≡◌, ◌⊎◌, Bool, length}
use tpm2_tss_verified.Memory.{Bytes}

-- A call of read(2): the bytes that arrived (none at the end of the stream), EINTR, or another error.
pub data Received : Type 0 where
  received : Bytes → Received
  receive_interrupted receive_failed : Received

-- A call of write(2): the count of bytes that were accepted, EINTR, or another error.
pub data Sent : Type 0 where
  sent : ℕ → Sent
  send_interrupted send_failed : Sent

pub record Kernel : Type 1 where
  pub State : Type 0
  -- The descriptor and the size asked for.
  pub read : ℕ → ℕ → State → Received × State
  -- The descriptor and the bytes offered.
  pub write : ℕ → Bytes → State → Sent × State
  -- Whether close(2) succeeded.
  pub close : ℕ → State → Bool × State
  -- The signals that will still interrupt a call.
  pub signals : State → ℕ

-- The documented behaviour: no more bytes move than were asked for or offered, a blocking socket
-- accepts at least one byte of some, and the calls are not interrupted for ever.
pub record IsKernel (k : Kernel) : Type 0 where
  pub reads :
      (fd size : ℕ) (s : k.State)
      → ((bytes : Bytes) × (s' : k.State) × (k.read fd size s ≡ (received bytes, s'))
          × (length bytes ≤ size)
          × (k.signals s' ≤ k.signals s))
        ⊎ ((s' : k.State) × (k.read fd size s ≡ (receive_interrupted, s'))
            × (k.signals s' < k.signals s))
        ⊎ ((s' : k.State) × (k.read fd size s ≡ (receive_failed, s'))
            × (k.signals s' ≤ k.signals s))
  pub writes :
      (fd : ℕ) (bytes : Bytes) (s : k.State)
      → ((n : ℕ) × (s' : k.State) × (k.write fd bytes s ≡ (sent n, s'))
          × (n ≤ length bytes)
          × ((n ≡ 0) → length bytes ≡ 0)
          × (k.signals s' ≤ k.signals s))
        ⊎ ((s' : k.State) × (k.write fd bytes s ≡ (send_interrupted, s'))
            × (k.signals s' < k.signals s))
        ⊎ ((s' : k.State) × (k.write fd bytes s ≡ (send_failed, s')) × (k.signals s' ≤ k.signals s))
