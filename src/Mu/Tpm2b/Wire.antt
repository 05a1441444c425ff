-- ===== src/Mu/Tpm2b/Wire.antt =====
-- The wire format of a sized buffer: a 16-bit size, then the bytes in use.
use tpm2_tss_verified.Common.{ℕ, ◌+◌, ◌≤◌, ◌≡◌, ap, ◌∙◌, some, ◌++◌, length, length-append, arith}
use tpm2_tss_verified.Memory.{Bytes, slice, length-slice}
use tpm2_tss_verified.Endian.{to_be, length-to_be}
use tpm2_tss_verified.Mu.Codec.{Codec}
use tpm2_tss_verified.Mu.Tpm2b.{Tpm2b, tpm2b_marshal, tpm2b_unmarshal}

-- The bytes in use, and their wire format: a 16-bit size, then the bytes.
abbrev pub payload : Tpm2b → Bytes
payload t = slice 0 t.size t.buffer

abbrev pub sized : Bytes → Bytes
sized bytes = to_be 2 (length bytes) ++ bytes

-- An object of a type of the given capacity.
pub record IsSized (capacity : ℕ) (t : Tpm2b) : Type 0 where
  pub room : length t.buffer ≡ capacity
  pub fits : t.size ≤ capacity

-- The type with this capacity.
abbrev pub tpm2b : ℕ → Codec Tpm2b Bytes
tpm2b capacity = record {
  IsValid = IsSized capacity;
  HasShape = λ t. length t.buffer ≡ capacity;
  view = payload;
  encode = sized;
  marshal = λ t. tpm2b_marshal (some t);
  unmarshal = tpm2b_unmarshal capacity;
}

pub length-payload : (capacity : ℕ) (t : Tpm2b) → IsSized capacity t → length (payload t) ≡ t.size
length-payload capacity t v = length-slice 0 t.size t.buffer (omega arith)

pub length-sized : (bytes : Bytes) → length (sized bytes) ≡ 2 + length bytes
length-sized bytes =
    length-append (to_be 2 (length bytes)) bytes
    ∙ ap (λ (n : ℕ). n + length bytes) (length-to_be 2 (length bytes))

pub sized_of :
    (t : Tpm2b) → length (payload t) ≡ t.size → sized (payload t) ≡ to_be 2 t.size ++ payload t
sized_of t n = rw n
