-- ===== src/Mu/Tpml/Wire.antt =====
-- The wire format of a counted list: a 32-bit count, then the elements.
use tpm2_tss_verified.Common.{
  ℕ, ◌+◌, ◌≤◌, ◌≡◌, ap, ◌∙◌, List, [], ◌∷◌, ◌++◌, length, length-append, map, take, All, some,
}
use tpm2_tss_verified.Memory.{Bytes}
use tpm2_tss_verified.Endian.{to_be, length-to_be}
use tpm2_tss_verified.Mu.Codec.{Codec}
use tpm2_tss_verified.Mu.Tpml.{Tpml, tpml_marshal, tpml_unmarshal}

abbrev pub encode_items {ℓ} : {V : Type ℓ} → (V → Bytes) → List V → Bytes
encode_items encode [] = []
encode_items encode (v ∷ vs) = encode v ++ encode_items encode vs

abbrev pub counted {ℓ} : {V : Type ℓ} → (V → Bytes) → List V → Bytes
counted encode vs = to_be 4 (length vs) ++ encode_items encode vs

pub length-counted {ℓ} :
    {V : Type ℓ} (encode : V → Bytes) (vs : List V)
    → length (counted encode vs) ≡ 4 + length (encode_items encode vs)
length-counted encode vs =
    length-append (to_be 4 (length vs)) (encode_items encode vs)
    ∙ ap (λ (n : ℕ). n + length (encode_items encode vs)) (length-to_be 4 (length vs))

module _ {A V : Type 0} (c : Codec A V) (blank : A) (capacity : ℕ) where
  pub record IsCounted (t : Tpml A) : Type 0 where
    pub room : length t.items ≡ capacity
    pub fits : t.count ≤ capacity
    pub valid : All c.IsValid (take t.count t.items)

  -- The lists of up to `capacity` elements.
  abbrev pub tpml : Codec (Tpml A) (List V)
  tpml = record {
    IsValid = IsCounted;
    HasShape = λ t. length t.items ≡ capacity;
    view = λ t. map c.view (take t.count t.items);
    encode = counted c.encode;
    marshal = λ t. tpml_marshal c.marshal (some t);
    unmarshal = tpml_unmarshal c.unmarshal blank capacity;
  }
