-- ===== src/Memory/Splice.antt =====
-- A run of bytes laid over an array, and a run of bytes cut from one.
use native.Mathlib.Nat.{suc-add, zero-add}
use tpm2_tss_verified.Common.{
  ℕ, zero, suc, ◌+◌, ◌≤◌, ◌<◌, ◌≡◌, refl, sym, ap, ◌⊎◌, List, [], ◌∷◌, ◌++◌, length, get_elem?,
  take, drop, All, append_inj, length-append, ◌∙◌, arith,
}

module _ {ℓ} {A : Type ℓ} where
  -- The first list over the front of the second, whose length stays.
  abbrev pub overlay : List A → List A → List A
  overlay [] ys = ys
  overlay (x ∷ xs) [] = []
  overlay (x ∷ xs) (y ∷ ys) = x ∷ overlay xs ys

  -- The same from position `n` on.
  abbrev pub splice : ℕ → List A → List A → List A
  splice zero xs ys = overlay xs ys
  splice (suc n) xs [] = []
  splice (suc n) xs (y ∷ ys) = y ∷ splice n xs ys

  -- `n` elements from position `i` on.
  abbrev pub slice : ℕ → ℕ → List A → List A
  slice i n xs = take n (drop i xs)

module _ {ℓ} {A : Type ℓ} where
  pub length-overlay : (xs ys : List A) → length (overlay xs ys) ≡ length ys
  length-overlay [] ys = refl
  length-overlay (x ∷ xs) [] = refl
  length-overlay (x ∷ xs) (y ∷ ys) = ap suc (length-overlay xs ys)

  pub length-splice : (n : ℕ) (xs ys : List A) → length (splice n xs ys) ≡ length ys
  length-splice zero xs ys = length-overlay xs ys
  length-splice (suc n) xs [] = refl
  length-splice (suc n) xs (y ∷ ys) = ap suc (length-splice n xs ys)

  overlay-append :
      (xs zs ys : List A) → splice (length xs) zs (overlay xs ys) ≡ overlay (xs ++ zs) ys
  overlay-append [] zs ys = refl
  overlay-append (x ∷ xs) zs [] = refl
  overlay-append (x ∷ xs) zs (y ∷ ys) = ap (λ (t : List A). x ∷ t) (overlay-append xs zs ys)

  -- Writing nothing changes nothing.
  pub splice_nil : (n : ℕ) (ys : List A) → splice n [] ys ≡ ys
  splice_nil zero ys = refl
  splice_nil (suc n) [] = refl
  splice_nil (suc n) (y ∷ ys) = ap (λ (t : List A). y ∷ t) (splice_nil n ys)

  -- Two adjoining writes are one.
  pub splice-append :
      (n : ℕ) (xs zs ys : List A)
      → splice (n + length xs) zs (splice n xs ys) ≡ splice n (xs ++ zs) ys
  splice-append zero xs zs ys = rw zero-add (overlay-append xs zs ys)
  splice-append (suc n) xs zs [] = rw suc-add
  splice-append (suc n) xs zs (y ∷ ys) =
      rw suc-add (ap (λ (t : List A). y ∷ t) (splice-append n xs zs ys))

  take-overlay : (xs ys : List A) → length xs ≤ length ys → take (length xs) (overlay xs ys) ≡ xs
  take-overlay [] ys h = refl
  take-overlay (x ∷ xs) [] h = absurd (omega arith)
  take-overlay (x ∷ xs) (y ∷ ys) h = ap (λ (t : List A). x ∷ t) (take-overlay xs ys (omega arith))

  -- What was written is read back.
  pub slice-splice :
      (n : ℕ) (xs ys : List A)
      → n + length xs ≤ length ys
      → slice n (length xs) (splice n xs ys) ≡ xs
  slice-splice zero xs ys h = take-overlay xs ys (omega arith)
  slice-splice (suc n) xs [] h = absurd (omega arith)
  slice-splice (suc n) xs (y ∷ ys) h = slice-splice n xs ys (omega arith)

  get_elem?-overlay :
      (xs ys : List A) (i : ℕ) → length xs ≤ i → get_elem? (overlay xs ys) i ≡ get_elem? ys i
  get_elem?-overlay [] ys i h = refl
  get_elem?-overlay (x ∷ xs) [] i h = refl
  get_elem?-overlay (x ∷ xs) (y ∷ ys) zero h = absurd (omega arith)
  get_elem?-overlay (x ∷ xs) (y ∷ ys) (suc i) h = get_elem?-overlay xs ys i (omega arith)

  -- A write leaves everything outside its range.
  pub get_elem?-splice :
      (n : ℕ) (xs ys : List A) (i : ℕ)
      → (i < n) ⊎ (n + length xs ≤ i)
      → get_elem? (splice n xs ys) i ≡ get_elem? ys i
  get_elem?-splice zero xs ys i h = get_elem?-overlay xs ys i (omega arith)
  get_elem?-splice (suc n) xs [] i h = refl
  get_elem?-splice (suc n) xs (y ∷ ys) zero h = refl
  get_elem?-splice (suc n) xs (y ∷ ys) (suc i) h = get_elem?-splice n xs ys i (omega arith)

  pub length-slice : (i n : ℕ) (xs : List A) → i + n ≤ length xs → length (slice i n xs) ≡ n
  length-slice zero zero xs h = refl
  length-slice zero (suc n) [] h = absurd (omega arith)
  length-slice zero (suc n) (x ∷ xs) h = ap suc (length-slice zero n xs (omega arith))
  length-slice (suc i) n [] h = absurd (omega arith)
  length-slice (suc i) n (x ∷ xs) h = length-slice i n xs (omega arith)

  take-nil : (n : ℕ) → take {A = A} n [] ≡ []
  take-nil zero = refl
  take-nil (suc n) = refl

  drop-nil : (n : ℕ) → drop {A = A} n [] ≡ []
  drop-nil zero = refl
  drop-nil (suc n) = refl

  take-split : (m n : ℕ) (xs : List A) → take (m + n) xs ≡ take m xs ++ take n (drop m xs)
  take-split zero n xs = rw zero-add
  take-split (suc m) n [] = rw suc-add (sym (take-nil n))
  take-split (suc m) n (x ∷ xs) = rw suc-add (ap (λ (t : List A). x ∷ t) (take-split m n xs))

  -- A range is its first part and the rest.
  pub slice-split :
      (i m n : ℕ) (xs : List A) → slice i (m + n) xs ≡ slice i m xs ++ slice (i + m) n xs
  slice-split zero m n xs = rw zero-add (take-split m n xs)
  slice-split (suc i) m n [] = rw (suc-add, take-nil, take-nil, take-nil)
  slice-split (suc i) m n (x ∷ xs) = rw suc-add (slice-split i m n xs)

  -- A range that holds two parts holds each in its place.
  pub slice_append :
      (i : ℕ) (xs ys buf : List A)
      → i + length (xs ++ ys) ≤ length buf
      → slice i (length (xs ++ ys)) buf ≡ xs ++ ys
      → (slice i (length xs) buf ≡ xs) × (slice (i + length xs) (length ys) buf ≡ ys)
  slice_append i xs ys buf h e =
      let l = length-append xs ys in
      append_inj (slice i (length xs) buf) (slice (i + length xs) (length ys) buf) xs ys
        (length-slice i (length xs) buf (omega arith))
        (sym (slice-split i (length xs) (length ys) buf) ∙ rw l at e)

  -- A property of all elements of both lists holds of all elements of the result.
  overlay-All : (P : A → Type 0) (xs ys : List A) → All P xs → All P ys → All P (overlay xs ys)
  overlay-All P [] ys h k = k
  overlay-All P (x ∷ xs) [] h k = tt
  overlay-All P (x ∷ xs) (y ∷ ys) (hx, h) (_, k) = (hx, overlay-All P xs ys h k)

  pub splice-All :
      (P : A → Type 0) (n : ℕ) (xs ys : List A) → All P xs → All P ys → All P (splice n xs ys)
  splice-All P zero xs ys h k = overlay-All P xs ys h k
  splice-All P (suc n) xs [] h k = tt
  splice-All P (suc n) xs (y ∷ ys) h (hy, k) = (hy, splice-All P n xs ys h k)

  overlay-splice :
      (m : ℕ) (xs zs ys : List A)
      → length xs ≤ m
      → overlay xs (splice m zs ys) ≡ splice m zs (overlay xs ys)
  overlay-splice m [] zs ys h = refl
  overlay-splice zero (x ∷ xs) zs ys h = absurd (omega arith)
  overlay-splice (suc m) (x ∷ xs) zs [] h = refl
  overlay-splice (suc m) (x ∷ xs) zs (y ∷ ys) h =
      ap (λ (t : List A). x ∷ t) (overlay-splice m xs zs ys (omega arith))

  -- Writes that do not meet can be made in either order.
  pub splice_comm :
      (n m : ℕ) (xs zs ys : List A)
      → n + length xs ≤ m
      → splice n xs (splice m zs ys) ≡ splice m zs (splice n xs ys)
  splice_comm zero m xs zs ys h = overlay-splice m xs zs ys (omega arith)
  splice_comm (suc n) zero xs zs ys h = absurd (omega arith)
  splice_comm (suc n) (suc m) xs zs [] h = refl
  splice_comm (suc n) (suc m) xs zs (y ∷ ys) h =
      ap (λ (t : List A). y ∷ t) (splice_comm n m xs zs ys (omega arith))

  overlay_absorb :
      (xs ys buf : List A) → length ys ≤ length xs → overlay xs (overlay ys buf) ≡ overlay xs buf
  overlay_absorb xs [] buf h = refl
  overlay_absorb [] (y ∷ ys) buf h = absurd (omega arith)
  overlay_absorb (x ∷ xs) (y ∷ ys) [] h = refl
  overlay_absorb (x ∷ xs) (y ∷ ys) (z ∷ buf) h =
      ap (λ (t : List A). x ∷ t) (overlay_absorb xs ys buf (omega arith))

  -- The later of two writes at one place is seen, if it is as long.
  pub splice_absorb :
      (n : ℕ) (xs ys buf : List A)
      → length ys ≤ length xs
      → splice n xs (splice n ys buf) ≡ splice n xs buf
  splice_absorb zero xs ys buf h = overlay_absorb xs ys buf h
  splice_absorb (suc n) xs ys [] h = refl
  splice_absorb (suc n) xs ys (z ∷ buf) h = ap (λ (t : List A). z ∷ t) (splice_absorb n xs ys buf h)

  -- A write within what was written is a write to that.
  pub splice-overlay :
      (m : ℕ) (zs xs buf : List A)
      → m + length zs ≤ length xs
      → splice m zs (overlay xs buf) ≡ overlay (splice m zs xs) buf
  splice-overlay zero [] xs buf h = refl
  splice-overlay zero (z ∷ zs) [] buf h = absurd (omega arith)
  splice-overlay zero (z ∷ zs) (x ∷ xs) [] h = refl
  splice-overlay zero (z ∷ zs) (x ∷ xs) (y ∷ buf) h =
      ap (λ (t : List A). z ∷ t) (splice-overlay zero zs xs buf (omega arith))
  splice-overlay (suc m) zs [] buf h = absurd (omega arith)
  splice-overlay (suc m) zs (x ∷ xs) [] h = refl
  splice-overlay (suc m) zs (x ∷ xs) (y ∷ buf) h =
      ap (λ (t : List A). x ∷ t) (splice-overlay m zs xs buf (omega arith))

  -- A range of what was written.
  pub slice-overlay :
      (i n : ℕ) (xs buf : List A)
      → i + n ≤ length xs
      → length xs ≤ length buf
      → slice i n (overlay xs buf) ≡ slice i n xs
  slice-overlay zero zero xs buf h room = refl
  slice-overlay zero (suc n) [] buf h room = absurd (omega arith)
  slice-overlay zero (suc n) (x ∷ xs) [] h room = absurd (omega arith)
  slice-overlay zero (suc n) (x ∷ xs) (y ∷ buf) h room =
      ap (λ (t : List A). x ∷ t) (slice-overlay zero n xs buf (omega arith) (omega arith))
  slice-overlay (suc i) n [] buf h room = absurd (omega arith)
  slice-overlay (suc i) n (x ∷ xs) [] h room = absurd (omega arith)
  slice-overlay (suc i) n (x ∷ xs) (y ∷ buf) h room =
      slice-overlay i n xs buf (omega arith) (omega arith)

  -- The front of what was written is replaced.
  pub splice_replace :
      (n : ℕ) (xs ys rest buf : List A)
      → length xs ≡ length ys
      → splice n xs (splice n (ys ++ rest) buf) ≡ splice n (xs ++ rest) buf
  splice_replace n xs ys rest buf h =
      let there : n + length xs ≡ n + length ys = ap (λ (k : ℕ). n + k) h in
      ap (λ (b : List A). splice n xs b) (sym (splice-append n ys rest buf))
      ∙ (splice_comm n (n + length ys) xs rest (splice n ys buf) (omega arith)
          ∙ (ap (λ (b : List A). splice (n + length ys) rest b)
                (splice_absorb n xs ys buf (omega arith))
              ∙ rw there at (splice-append n xs rest buf)))

  take-splice : (k n : ℕ) (xs ys : List A) → k ≤ n → take k (splice n xs ys) ≡ take k ys
  take-splice zero n xs ys h = refl
  take-splice (suc k) zero xs ys h = absurd (omega arith)
  take-splice (suc k) (suc n) xs [] h = refl
  take-splice (suc k) (suc n) xs (y ∷ ys) h =
      ap (λ (t : List A). y ∷ t) (take-splice k n xs ys (omega arith))

  -- A write leaves the range in front of it.
  pub slice-splice_before :
      (i k n : ℕ) (xs ys : List A) → i + k ≤ n → slice i k (splice n xs ys) ≡ slice i k ys
  slice-splice_before zero k n xs ys h = take-splice k n xs ys (omega arith)
  slice-splice_before (suc i) k zero xs ys h = absurd (omega arith)
  slice-splice_before (suc i) k (suc n) xs [] h = refl
  slice-splice_before (suc i) k (suc n) xs (y ∷ ys) h =
      slice-splice_before i k n xs ys (omega arith)
