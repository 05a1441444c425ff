-- ===== src/Endian/Swap.antt =====
-- The byte swaps and the wire format.
use mathlib.Core.List.{reverse-reverse, reverse-append}
use native.Mathlib.Nat.{pow-suc}
use tpm2_tss_verified.Common.{
  ℕ, zero, suc, ◌/◌, ◌%◌, ◌^◌, ◌<◌, ◌≡◌, refl, ap, ◌∙◌, [], ◌∷◌, length, All, All-append, reverse,
  length-reverse, arith,
}
use tpm2_tss_verified.Memory.{Bytes, slice}
use tpm2_tss_verified.Endian.Defs.{
  Width, w1, w2, w4, w8, size_of, endian_conv_16, endian_conv_32, endian_conv_64, host_to_be,
  be_to_host, to_memory, of_memory, to_be, of_be,
}

abbrev pub IsByte : ℕ → Type 0
IsByte b = b < 256

-- Values that fit a width.
abbrev pub Fits : Width → ℕ → Type 0
Fits w value = value < 256 ^ size_of w

pub length-to_memory : (n value : ℕ) → length (to_memory n value) ≡ n
unfolding to_memory
length-to_memory zero value = refl
length-to_memory (suc n) value = ap suc (length-to_memory n (value / 256))

pub length-to_be : (n value : ℕ) → length (to_be n value) ≡ n
unfolding to_be
length-to_be n value = length-reverse (to_memory n value) ∙ length-to_memory n value

pub to_memory-of_memory :
    (bytes : Bytes) → All IsByte bytes → to_memory (length bytes) (of_memory bytes) ≡ bytes
unfolding to_memory of_memory
to_memory-of_memory [] h = refl
to_memory-of_memory (b ∷ bytes) (hb, h) = ground (arith, to_memory-of_memory bytes h)

-- A swapped integer is the one whose bytes in memory are the value's in reverse.
endian_conv_16-reverse : (value : ℕ) → endian_conv_16 (value % 2 ^ 16) ≡ of_memory (to_be 2 value)
unfolding endian_conv_16 of_memory to_be
endian_conv_16-reverse value = omega arith

endian_conv_32-reverse : (value : ℕ) → endian_conv_32 (value % 2 ^ 32) ≡ of_memory (to_be 4 value)
unfolding endian_conv_32 of_memory to_be
endian_conv_32-reverse value = omega arith

endian_conv_64-reverse : (value : ℕ) → endian_conv_64 (value % 2 ^ 64) ≡ of_memory (to_be 8 value)
unfolding endian_conv_64 of_memory to_be
endian_conv_64-reverse value = omega arith

to_memory-IsByte : (n value : ℕ) → All IsByte (to_memory n value)
unfolding to_memory
to_memory-IsByte zero value = tt
to_memory-IsByte (suc n) value = (omega arith, to_memory-IsByte n (value / 256))

reverse-IsByte : (bytes : Bytes) → All IsByte bytes → All IsByte (reverse bytes)
reverse-IsByte [] h = tt
reverse-IsByte (b ∷ bytes) (hb, h) =
    rw (reverse-append (b ∷ []) bytes) (All-append IsByte _ _ (reverse-IsByte bytes h) (hb, tt))

pub to_be-IsByte : (n value : ℕ) → All IsByte (to_be n value)
unfolding to_be
to_be-IsByte n value = reverse-IsByte _ (to_memory-IsByte n value)

to_be-of_memory :
    (bytes : Bytes) (n : ℕ)
    → length bytes ≡ n
    → All IsByte bytes
    → to_be n (of_memory bytes) ≡ reverse bytes
unfolding to_be
to_be-of_memory bytes n e h = ap reverse (rw e at (to_memory-of_memory bytes h))

to_memory-of_memory-to_be : (n value : ℕ) → to_memory n (of_memory (to_be n value)) ≡ to_be n value
to_memory-of_memory-to_be n value =
    rw (length-to_be n value) at (to_memory-of_memory (to_be n value) (to_be-IsByte n value))

-- The swapped integer, written to memory, is the wire format of the value.
pub to_memory-host_to_be :
    (w : Width) (value : ℕ) → to_memory (size_of w) (host_to_be w value) ≡ to_be (size_of w) value
unfolding host_to_be
to_memory-host_to_be w1 value = unfold to_memory to_be in refl
to_memory-host_to_be w2 value =
    rw (endian_conv_16-reverse value) (to_memory-of_memory-to_be 2 value)
to_memory-host_to_be w4 value =
    rw (endian_conv_32-reverse value) (to_memory-of_memory-to_be 4 value)
to_memory-host_to_be w8 value =
    rw (endian_conv_64-reverse value) (to_memory-of_memory-to_be 8 value)

of_memory-lt : (bytes : Bytes) → All IsByte bytes → of_memory bytes < 256 ^ length bytes
unfolding of_memory
of_memory-lt [] h = omega arith
of_memory-lt (b ∷ bytes) (hb, h) = omega (arith, pow-suc 256 (length bytes), of_memory-lt bytes h)

pub of_memory-to_memory : (n value : ℕ) → value < 256 ^ n → of_memory (to_memory n value) ≡ value
unfolding of_memory to_memory
of_memory-to_memory zero value h = omega arith
of_memory-to_memory (suc n) value h =
    let rest = of_memory-to_memory n (value / 256) (omega (arith, pow-suc 256 n)) in omega arith

-- The wire format stands for the value.
pub of_be-to_be : (n value : ℕ) → value < 256 ^ n → of_be (to_be n value) ≡ value
unfolding of_be to_be
of_be-to_be n value h = rw reverse-reverse (of_memory-to_memory n value h)

pub of_be-lt : (bytes : Bytes) → All IsByte bytes → of_be bytes < 256 ^ length bytes
unfolding of_be
of_be-lt bytes h = rw length-reverse at (of_memory-lt (reverse bytes) (reverse-IsByte bytes h))

-- An integer read from memory and swapped is what the bytes stand for on the wire.
pub be_to_host-of_memory :
    (w : Width) (bytes : Bytes)
    → length bytes ≡ size_of w
    → All IsByte bytes
    → be_to_host w (of_memory bytes) ≡ of_be bytes
unfolding be_to_host of_be
be_to_host-of_memory w1 [] n h = cc
be_to_host-of_memory w1 (b ∷ []) n h = refl
be_to_host-of_memory w1 (b ∷ c ∷ bytes) n h = cc
be_to_host-of_memory w2 bytes n h =
    rw (endian_conv_16-reverse (of_memory bytes)) (ap of_memory (to_be-of_memory bytes 2 n h))
be_to_host-of_memory w4 bytes n h =
    rw (endian_conv_32-reverse (of_memory bytes)) (ap of_memory (to_be-of_memory bytes 4 n h))
be_to_host-of_memory w8 bytes n h =
    rw (endian_conv_64-reverse (of_memory bytes)) (ap of_memory (to_be-of_memory bytes 8 n h))

pub slice-IsByte : (i n : ℕ) (bytes : Bytes) → All IsByte bytes → All IsByte (slice i n bytes)
slice-IsByte zero zero bytes h = tt
slice-IsByte zero (suc n) [] h = tt
slice-IsByte zero (suc n) (b ∷ bytes) (hb, h) = (hb, slice-IsByte zero n bytes h)
slice-IsByte (suc i) zero [] h = tt
slice-IsByte (suc i) (suc n) [] h = tt
slice-IsByte (suc i) n (b ∷ bytes) (hb, h) = slice-IsByte i n bytes h

-- Bytes are the wire format of the value that they stand for.
pub to_be-of_be :
    (n : ℕ) (bytes : Bytes) → length bytes ≡ n → All IsByte bytes → to_be n (of_be bytes) ≡ bytes
unfolding of_be
to_be-of_be n bytes e h =
    to_be-of_memory (reverse bytes) n (length-reverse bytes ∙ e) (reverse-IsByte bytes h)
    ∙ reverse-reverse bytes
