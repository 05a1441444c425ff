-- ===== src/Io/Pipe.antt =====
-- A concrete kernel for the tests of src/util/io.c and of what uses it.
use tpm2_tss_verified.Common.{refl, inl, true, length, take, drop, length-take, arith}
use tpm2_tss_verified.Memory.{Bytes}
use tpm2_tss_verified.Io.System.{Kernel, IsKernel, received, sent}

-- A peer that has sent some bytes and takes whatever it is offered.
abbrev pub pipe : Kernel
pipe = record {
  State = Bytes;
  read = λ fd size s. (received (take size s), drop size s);
  write = λ fd bytes s. (sent (length bytes), s);
  close = λ fd s. (true, s);
  signals = λ s. 0;
}

pub pipe-IsKernel : IsKernel pipe
pipe-IsKernel = record {
  reads = λ fd size s.
      inl (take size s, drop size s, refl, omega (arith, length-take size s), omega arith);
  writes = λ fd bytes s. inl (length bytes, s, refl, omega arith, (λ h. h), omega arith);
}
