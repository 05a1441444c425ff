-- ===== src/Mu/Tpms.antt =====
-- src/tss2-mu/tpms-types.c: the structures. TPMS_MARSHAL_2, _3, _4, _5, _7 and _11 are one chain of
-- calls for the members, at `&local_offset`, which a failing call ends; so a structure is its
-- members as nested pairs, and the chain is made of pairs.
pub mod Law
use tpm2_tss_verified.Common.{ℕ, Option, none, some}
use tpm2_tss_verified.Rc.{rc_success, mu_bad_reference}
use tpm2_tss_verified.Memory.{Bytes}
use tpm2_tss_verified.Mu.Codec.{
  Marshalled, Unmarshalled, Marshal, Unmarshal, local_of, store_offset, try_marshal, try_unmarshal,
}

-- dest ? &dest->m : NULL
unfoldable pub member : {A B : Type 0} → Option A → (A → B) → Option B
member none m = none
member (some dest) m = some (m dest)

-- What `dest` points at once its two parts are as given.
unfoldable pub together : {A B : Type 0} → Option A → Option B → Option (A × B)
together none b = none
together (some a) none = none
together (some a) (some b) = some (a, b)

module _ {A B : Type 0} where
  -- ret = fn1(src->m1, ...); if (ret) return ret; ret = fn2(src->m2, ...); and the offset if both
  -- succeed.
  unfoldable pub chain_marshal : Marshal A → Marshal B → Marshal (A × B)
  chain_marshal fn1 fn2 (m1, m2) buffer buffer_size offset =
      try_marshal (fn1 m1 buffer buffer_size (some (local_of offset))) offset (λ buffer' local.
        try_marshal (fn2 m2 buffer' buffer_size (some local)) offset (λ buffer'' local'.
          some
            (record { rc = rc_success; buffer = buffer''; offset = store_offset offset local' })))

  unfoldable pub chain_unmarshal : Unmarshal A → Unmarshal B → Unmarshal (A × B)
  unfolding member together
  chain_unmarshal fn1 fn2 buffer buffer_size offset dest =
      try_unmarshal (fn1 buffer buffer_size (some (local_of offset)) (member dest (λ d. d.0)))
        offset (λ first. together first (member dest (λ d. d.1)))
        (λ first local.
          try_unmarshal (fn2 buffer buffer_size (some local) (member dest (λ d. d.1))) offset
            (together first)
            (λ second local'. some (record {
              rc = rc_success;
              offset = store_offset offset local';
              dest = together first second;
            })))

module _ {A : Type 0} where
  -- TPMS_MARSHAL_n(type, ...), over the chain for its members.
  unfoldable pub tpms_marshal :
      Marshal A → Option A → Option Bytes → ℕ → Option ℕ → Option Marshalled
  tpms_marshal members none buffer buffer_size offset =
      some (record { rc = mu_bad_reference; buffer = buffer; offset = offset })
  tpms_marshal members (some src) none buffer_size none =
      some (record { rc = mu_bad_reference; buffer = none; offset = none })
  tpms_marshal members (some src) (some buf) buffer_size none =
      members src (some buf) buffer_size none
  tpms_marshal members (some src) buffer buffer_size (some offset) =
      members src buffer buffer_size (some offset)

  -- TPMS_UNMARSHAL_n(type, ...). `blank` is the structure after memset(dest, 0, sizeof(*dest)).
  unfoldable pub tpms_unmarshal : Unmarshal A → A → Unmarshal A
  tpms_unmarshal members blank buffer buffer_size none none =
      some (record { rc = mu_bad_reference; offset = none; dest = none })
  tpms_unmarshal members blank buffer buffer_size (some offset) none =
      members buffer buffer_size (some offset) none
  tpms_unmarshal members blank buffer buffer_size offset (some dest) =
      members buffer buffer_size offset (some blank)
