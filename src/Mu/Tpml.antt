-- ===== src/Mu/Tpml.antt =====
-- src/tss2-mu/tpml-types.c: counted lists. The functions of the element type are parameters, as
-- they are of the macros.
pub mod Wire
pub mod Write
pub mod Read
pub mod Law
use tpm2_tss_verified.Common.{
  ℕ, zero, suc, ◌+◌, Bool, Option, none, some, List, [], ◌∷◌, ◌++◌, length, replicate, ltb,
  if◌then◌else◌, ◌>>=◌,
}
use tpm2_tss_verified.Rc.{
  rc_success, mu_bad_reference, mu_insufficient_buffer, sys_bad_value, sys_malformed_response,
}
use tpm2_tss_verified.Memory.{Bytes}
use tpm2_tss_verified.Endian.{w4}
use tpm2_tss_verified.Mu.Codec.{
  Marshalled, Unmarshalled, Marshal, Unmarshal, local_of, store_offset, try_marshal, try_unmarshal,
}
use tpm2_tss_verified.Mu.Base.{too_small, base_marshal, base_unmarshal}

-- The `count` field and the array behind it, whose length is TAB_SIZE.
pub record Tpml (A : Type 0) : Type 0 where
  pub count : ℕ
  pub items : List A

module _ {A : Type 0} (marshal_func : Marshal A) where
  -- for (i = 0; i < src->count; i++), over the rounds left and the rest of the array; then the end
  -- of the function.
  unfoldable pub items_marshal : ℕ → List A → Option ℕ → ℕ → Option Bytes → ℕ → Option Marshalled
  items_marshal zero items offset buffer_size buf local =
      some (record { rc = rc_success; buffer = buf; offset = store_offset offset local })
  items_marshal (suc n) [] offset buffer_size buf local = none
  items_marshal (suc n) (x ∷ items) offset buffer_size buf local =
      try_marshal (marshal_func x buf buffer_size (some local)) offset
        (λ buf' local'. items_marshal n items offset buffer_size buf' local')

  -- From the check of the count on, with `buf_ptr`.
  unfoldable pub list_marshal : Tpml A → Option Bytes → ℕ → Option ℕ → Option Marshalled
  list_marshal src buf_ptr buffer_size offset =
      try_marshal (base_marshal w4 src.count buf_ptr buffer_size (some (local_of offset))) offset
        (items_marshal src.count src.items offset buffer_size)

  -- TPML_MARSHAL(type, marshal_func, buf_name, op). Without a buffer the list is marshalled into
  -- `local_buffer`, whose contents are never read, and the bounds hold all the same.
  unfoldable pub tpml_marshal : Option (Tpml A) → Option Bytes → ℕ → Option ℕ → Option Marshalled
  unfolding list_marshal
  tpml_marshal none buffer buffer_size offset =
      some (record { rc = mu_bad_reference; buffer = buffer; offset = offset })
  tpml_marshal (some src) none buffer_size none =
      some (record { rc = mu_bad_reference; buffer = none; offset = none })
  tpml_marshal (some src) none buffer_size (some offset) =
      if too_small buffer_size offset 4
      then some (record { rc = mu_insufficient_buffer; buffer = none; offset = some offset })
      else if ltb (length src.items) src.count
      then some (record { rc = sys_bad_value; buffer = none; offset = some offset })
      else do
        r ← list_marshal src (some (replicate buffer_size 0)) buffer_size (some offset)
        some (record r { buffer = none })
  tpml_marshal (some src) (some buf) buffer_size offset =
      if too_small buffer_size (local_of offset) 4
      then some (record { rc = mu_insufficient_buffer; buffer = some buf; offset = offset })
      else if ltb (length src.items) src.count
      then some (record { rc = sys_bad_value; buffer = some buf; offset = offset })
      else list_marshal src (some buf) buffer_size offset

-- The destination with the element at hand put back.
unfoldable pub put_item : {A : Type 0} → ℕ → List A → List A → Option A → Option (Tpml A)
put_item count front rest none = none
put_item count front rest (some x) = some (record { count = count; items = front ++ (x ∷ rest) })

-- `blank` is an element of which every byte is 0, as `memset` leaves it, and `capacity` is TAB_SIZE.
module _ {A : Type 0} (unmarshal_func : Unmarshal A) (blank : A) (capacity : ℕ) where
  -- for (i = 0; i < count; i++) into `dest`, over the rounds left, the elements before `i` and the
  -- rest of the array.
  unfoldable pub items_unmarshal :
      ℕ → ℕ → List A → List A → Option ℕ → Bytes → ℕ → ℕ → Option (Unmarshalled (Tpml A))
  items_unmarshal zero count front rest offset buf buffer_size local = some (record {
    rc = rc_success;
    offset = store_offset offset local;
    dest = some (record { count = count; items = front ++ rest });
  })
  items_unmarshal (suc n) count front [] offset buf buffer_size local = none
  items_unmarshal (suc n) count front (x ∷ rest) offset buf buffer_size local =
      try_unmarshal (unmarshal_func (some buf) buffer_size (some local) (some x)) offset
        (put_item count front rest)
        (λ item local'. elim item [
          | none ↦ none
          | some x' ↦
              items_unmarshal n count (front ++ (x' ∷ [])) rest offset buf buffer_size local'
        ])

  -- The same loop with `dest` NULL, which moves the offset only.
  unfoldable pub items_skip : ℕ → Option ℕ → Bytes → ℕ → ℕ → Option (Unmarshalled (Tpml A))
  items_skip zero offset buf buffer_size local =
      some (record { rc = rc_success; offset = store_offset offset local; dest = none })
  items_skip (suc n) offset buf buffer_size local =
      try_unmarshal (unmarshal_func (some buf) buffer_size (some local) none) offset (λ _. none)
        (λ _ local'. items_skip n offset buf buffer_size local')

  -- From the check of the count on. With a destination: memset(dest, 0, sizeof(*dest)).
  unfoldable pub list_unmarshal :
      Option ℕ → Bytes → ℕ → Option (Tpml A) → Option ℕ → ℕ → Option (Unmarshalled (Tpml A))
  list_unmarshal offset buf buffer_size dest none local = none
  list_unmarshal offset buf buffer_size none (some count) local =
      if ltb capacity count
      then some (record { rc = sys_malformed_response; offset = offset; dest = none })
      else items_skip count offset buf buffer_size local
  list_unmarshal offset buf buffer_size (some dest) (some count) local =
      if ltb capacity count
      then some (record { rc = sys_malformed_response; offset = offset; dest = some dest })
      else items_unmarshal count count [] (replicate capacity blank) offset buf buffer_size local

  -- TPML_UNMARSHAL(type, unmarshal_func, buf_name), behind the checks of its pointers.
  unfoldable pub tpml_read : Bytes → ℕ → Option ℕ → Option (Tpml A) → Option (Unmarshalled (Tpml A))
  tpml_read buf buffer_size offset dest =
      if too_small buffer_size (local_of offset) 4
      then some (record { rc = mu_insufficient_buffer; offset = offset; dest = dest })
      else try_unmarshal
          (base_unmarshal w4 (some buf) buffer_size (some (local_of offset)) (some 0)) offset
          (λ _. dest) (list_unmarshal offset buf buffer_size dest)

  unfoldable pub tpml_unmarshal :
      Option Bytes → ℕ → Option ℕ → Option (Tpml A) → Option (Unmarshalled (Tpml A))
  unfolding tpml_read
  tpml_unmarshal none buffer_size offset dest =
      some (record { rc = mu_bad_reference; offset = offset; dest = dest })
  tpml_unmarshal (some buf) buffer_size none none =
      some (record { rc = mu_bad_reference; offset = none; dest = none })
  tpml_unmarshal (some buf) buffer_size (some offset) none =
      tpml_read buf buffer_size (some offset) none
  tpml_unmarshal (some buf) buffer_size offset (some dest) =
      tpml_read buf buffer_size offset (some dest)
