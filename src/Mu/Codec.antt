-- ===== src/Mu/Codec.antt =====
-- What every marshalling function of src/tss2-mu takes and leaves behind, and the contract by which
-- the functions for compound types use those for their parts.
--
-- A pointer that may be NULL is an `Option`. A result is `none` where the C code would read or write
-- outside an object. `buffer_size` is the caller's claim about `buffer`.
use native.Mathlib.Nat.{add_assoc}
use tpm2_tss_verified.Common.{
  ℕ, ◌+◌, ◌-◌, ◌≤◌, ◌<◌, ◌≡◌, ◌≢◌, ◌⊎◌, Option, none, some, length, ◌++◌, length-append, All, ◌==◌,
  if◌then◌else◌, ◌>>=◌,
}
use tpm2_tss_verified.Rc.{rc_success, mu_insufficient_buffer}
use tpm2_tss_verified.Memory.{Bytes, size_mod, splice, slice, splice-append}
use tpm2_tss_verified.Endian.{IsByte}

-- The return code, and what `buffer` and `offset` point at afterwards.
pub record Marshalled : Type 0 where
  pub rc : ℕ
  pub buffer : Option Bytes
  pub offset : Option ℕ

-- The return code, and what `offset` and `dest` point at afterwards.
pub record Unmarshalled (A : Type 0) : Type 0 where
  pub rc : ℕ
  pub offset : Option ℕ
  pub dest : Option A

abbrev pub Marshal : Type 0 → Type 0
Marshal A = A → Option Bytes → ℕ → Option ℕ → Option Marshalled

abbrev pub Unmarshal : Type 0 → Type 0
Unmarshal A = Option Bytes → ℕ → Option ℕ → Option A → Option (Unmarshalled A)

-- size_t local_offset = 0; if (offset != NULL) local_offset = *offset;
abbrev pub local_of : Option ℕ → ℕ
local_of none = 0
local_of (some offset) = offset

-- if (offset != NULL) *offset = value;
abbrev pub store_offset : Option ℕ → ℕ → Option ℕ
store_offset none value = none
store_offset (some offset) value = some value

-- rc = m; if (rc) return rc; and what follows, with the buffer and the local offset as `m` left them.
-- An early return leaves the caller's offset alone.
abbrev pub try_marshal :
    Option Marshalled → Option ℕ → (Option Bytes → ℕ → Option Marshalled) → Option Marshalled
try_marshal m offset next = do
  r ← m
  if r.rc == rc_success
      then next r.buffer (local_of r.offset)
      else some (record r { offset = offset })

-- The same for the functions that read. `keep` is what an early return leaves in the destination.
abbrev pub try_unmarshal :
    {A B : Type 0}
    → Option (Unmarshalled B)
    → Option ℕ
    → (Option B → Option A)
    → (Option B → ℕ → Option (Unmarshalled A))
    → Option (Unmarshalled A)
try_unmarshal m offset keep next = do
  r ← m
  if r.rc == rc_success
      then next r.dest (local_of r.offset)
      else some (record { rc = r.rc; offset = offset; dest = keep r.dest })

-- A type with its wire format and its two functions. `view` is what of an object goes on the wire.
pub record Codec (A V : Type 0) : Type 1 where
  pub IsValid : A → Type 0
  pub HasShape : A → Type 0
  pub view : A → V
  pub encode : V → Bytes
  pub marshal : Marshal A
  pub unmarshal : Unmarshal A

-- Success: `bytes` lie at `offset`, and the offset stands behind them.
abbrev pub marshalled : Bytes → Bytes → ℕ → Marshalled
marshalled bytes buf offset = record {
  rc = rc_success;
  buffer = some (splice offset bytes buf);
  offset = some (offset + length bytes);
}

-- Two parts, the second written behind the first, are one object.
pub marshalled-append :
    (xs ys buf : Bytes) (offset : ℕ)
    → marshalled ys (splice offset xs buf) (offset + length xs) ≡ marshalled (xs ++ ys) buf offset
marshalled-append xs ys buf offset =
    rw (splice-append offset xs ys buf, length-append xs ys, add_assoc)

module _ {A V : Type 0} (c : Codec A V) (buf : Bytes) (size offset : ℕ) where
  open c use {IsValid, HasShape, view, encode}

  -- The input at `offset` is the encoding of the object that is read.
  pub record Accepts (r : Option (Unmarshalled A)) : Type 0 where
    pub object : A
    pub valid : IsValid object
    pub inside : offset + length (encode (view object)) ≤ size
    pub encoded : slice offset (length (encode (view object))) buf ≡ encode (view object)
    pub result :
        r
        ≡ some (record {
          rc = rc_success;
          offset = some (offset + length (encode (view object)));
          dest = some object;
        })

  -- An error: the offset stays.
  pub record Rejects (r : Option (Unmarshalled A)) : Type 0 where
    pub left : A
    pub shape : HasShape left
    pub code : ℕ
    pub failed : code ≢ rc_success
    pub result : r ≡ some (record { rc = code; offset = some offset; dest = some left })

-- The contract, for a caller that passes a buffer, an offset and a destination.
pub record IsCodec {A V : Type 0} (c : Codec A V) : Type 0 where
  pub valid_shape : (a : A) → c.IsValid a → c.HasShape a
  -- An object that fits is written, and nothing else changes.
  pub fits :
      (a : A) (buf : Bytes) (size offset : ℕ)
      → c.IsValid a
      → offset + length (c.encode (c.view a)) ≤ size
      → size ≤ length buf
      → size < size_mod
      → c.marshal a (some buf) size (some offset)
        ≡ some (marshalled (c.encode (c.view a)) buf offset)
  -- One that does not fit is an error. What is written lies between `offset` and `size`.
  pub short :
      (a : A) (buf : Bytes) (size offset : ℕ)
      → c.IsValid a
      → size < offset + length (c.encode (c.view a))
      → size ≤ length buf
      → size < size_mod
      → (written : Bytes) × (length written ≤ size - offset)
        × (c.marshal a (some buf) size (some offset)
            ≡ some (record {
              rc = mu_insufficient_buffer;
              buffer = some (splice offset written buf);
              offset = some offset;
            }))
  -- What was marshalled is read back, into any destination.
  pub reads :
      (a d : A) (buf : Bytes) (size offset : ℕ)
      → c.IsValid a
      → c.HasShape d
      → offset + length (c.encode (c.view a)) ≤ size
      → size ≤ length buf
      → size < size_mod
      → slice offset (length (c.encode (c.view a))) buf ≡ c.encode (c.view a)
      → (d' : A) × c.HasShape d'
        × (c.view d' ≡ c.view a)
        × (c.unmarshal (some buf) size (some offset) (some d)
            ≡ some (record {
              rc = rc_success;
              offset = some (offset + length (c.encode (c.view a)));
              dest = some d';
            }))
  -- On any input at all no access leaves the buffer, and what is accepted is an encoding.
  pub decodes :
      (d : A) (buf : Bytes) (size offset : ℕ)
      → c.HasShape d
      → All IsByte buf
      → size ≤ length buf
      → size < size_mod
      → Accepts c buf size offset (c.unmarshal (some buf) size (some offset) (some d))
        ⊎ Rejects c buf size offset (c.unmarshal (some buf) size (some offset) (some d))
