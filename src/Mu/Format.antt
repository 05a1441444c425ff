-- ===== src/Mu/Format.antt =====
-- A codec with its contract and with the object of which every byte is 0. The types of the TPM are
-- built from these.
use tpm2_tss_verified.Common.{ℕ, ◌<◌, ◌^◌, List, replicate, length-replicate}
use tpm2_tss_verified.Memory.{Bytes}
use tpm2_tss_verified.Endian.{Width}
use tpm2_tss_verified.Mu.Codec.{Codec, IsCodec}
use tpm2_tss_verified.Mu.Base.Laws.{uint, uint-IsCodec, attributes, attributes-IsCodec}
use tpm2_tss_verified.Mu.Tpm2b.{Tpm2b}
use tpm2_tss_verified.Mu.Tpm2b.Wire.{tpm2b}
use tpm2_tss_verified.Mu.Tpm2b.Laws.{tpm2b-IsCodec}
use tpm2_tss_verified.Mu.Tpml.{Tpml}
use tpm2_tss_verified.Mu.Tpml.Wire.{tpml}
use tpm2_tss_verified.Mu.Tpml.Law.{tpml-IsCodec}
use tpm2_tss_verified.Mu.Tpms.Law.{◌then◌, chain-IsCodec, tpms, tpms-IsCodec}

pub record Format (A V : Type 0) : Type 1 where
  pub codec : Codec A V
  pub law : IsCodec codec
  pub blank : A
  pub blank_shape : codec.HasShape blank

abbrev pub word : Width → Format ℕ ℕ
word w = record { codec = uint w; law = uint-IsCodec w; blank = 0; blank_shape = tt }

abbrev pub flags : Width → Format ℕ ℕ
flags w = record { codec = attributes w; law = attributes-IsCodec w; blank = 0; blank_shape = tt }

abbrev pub bytes : (capacity : ℕ) → capacity < 2 ^ 16 → Format Tpm2b Bytes
bytes capacity small = record {
  codec = tpm2b capacity;
  law = tpm2b-IsCodec capacity small;
  blank = record { size = 0; buffer = replicate capacity 0 };
  blank_shape = length-replicate capacity 0;
}

infixr 60 ◌and◌
abbrev pub ◌and◌ : {A B V W : Type 0} → Format A V → Format B W → Format (A × B) (V × W)
f and g = record {
  codec = f.codec then g.codec;
  law = chain-IsCodec f.codec g.codec f.law g.law;
  blank = (f.blank, g.blank);
  blank_shape = (f.blank_shape, g.blank_shape);
}

abbrev pub struct : {A V : Type 0} → Format A V → Format A V
struct f = record {
  codec = tpms f.codec f.blank;
  law = tpms-IsCodec f.codec f.blank f.law f.blank_shape;
  blank = f.blank;
  blank_shape = f.blank_shape;
}

abbrev pub list_of :
    {A V : Type 0} (capacity : ℕ) → capacity < 2 ^ 32 → Format A V → Format (Tpml A) (List V)
list_of capacity small f = record {
  codec = tpml f.codec f.blank capacity;
  law = tpml-IsCodec f.codec f.law f.blank f.blank_shape capacity small;
  blank = record { count = 0; items = replicate capacity f.blank };
  blank_shape = length-replicate capacity f.blank;
}
