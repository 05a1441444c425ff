-- ===== src/Mu/Tpm2b/Laws.antt =====
-- TPM2B_MARSHAL and TPM2B_UNMARSHAL meet the contract of a codec.
use tpm2_tss_verified.Common.{ℕ, ◌^◌, ◌<◌, [], arith}
use tpm2_tss_verified.Memory.{splice_nil}
use tpm2_tss_verified.Mu.Codec.{IsCodec}
use tpm2_tss_verified.Mu.Tpm2b.Wire.{tpm2b}
use tpm2_tss_verified.Mu.Tpm2b.Write.{tpm2b_fits, tpm2b_short}
use tpm2_tss_verified.Mu.Tpm2b.Read.{tpm2b_reads, tpm2b_decodes}

pub tpm2b-IsCodec : (capacity : ℕ) → capacity < 2 ^ 16 → IsCodec (tpm2b capacity)
tpm2b-IsCodec capacity small = record {
  valid_shape = λ t v. v.room;
  fits = λ t buf size offset v h hs hm. tpm2b_fits capacity t buf size offset v h hs hm;
  short = λ t buf size offset v h hs hm.
      ([], omega arith, rw splice_nil (tpm2b_short capacity t buf size offset v h));
  reads = λ t d buf size offset v room h hs hm e.
      tpm2b_reads capacity t d buf size offset small v room h hs hm e;
  decodes =
      λ d buf size offset room hb hs hm. tpm2b_decodes capacity d buf size offset room hb hs hm;
}
