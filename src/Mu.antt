-- ===== src/Mu.antt =====
-- src/tss2-mu: marshalling TPM types into a buffer and out of one.
pub mod Codec
pub mod Base
pub mod Tpm2b
pub mod Tpml
pub mod Tpms
pub mod Format
pub mod Types
pub mod Buffers
pub mod RoundTrip
pub mod Table
pub mod Null
mod Examples
