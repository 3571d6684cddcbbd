-- ===== src/Bytes/Laws.antt =====
-- A write is read back, and leaves what does not meet it alone.
use shibadb.Bytes.{IsByte, copy_to, slice, zeros, same_bytes, all_zero}
use shibadb.Prelude.{
  ℕ, zero, suc, ◌+◌, ◌≤◌, ◌≡◌, ◌⊎◌, refl, ap, ◌∙◌, arith, take-append_le, drop-append_le, List, [],
  ◌∷◌, ◌++◌, true, take, drop, length, All, All-take, All-drop, All-replicate, length-replicate,
  length-take, length-drop,
}

pub length-copy_to :
    (buffer : List ℕ) (offset : ℕ) (bytes : List ℕ)
    → length (copy_to buffer offset bytes) ≡ length buffer
unfolding copy_to
length-copy_to [] offset bytes = refl
length-copy_to (x ∷ buffer) (suc offset) bytes = ap suc (length-copy_to buffer offset bytes)
length-copy_to (x ∷ buffer) zero [] = refl
length-copy_to (x ∷ buffer) zero (b ∷ bytes) = ap suc (length-copy_to buffer zero bytes)

pub slice-copy_to_self :
    (buffer : List ℕ) (offset : ℕ) (bytes : List ℕ) (n : ℕ)
    → n ≡ length bytes
    → offset + n ≤ length buffer
    → slice (copy_to buffer offset bytes) offset n ≡ bytes
unfolding copy_to slice
slice-copy_to_self [] zero [] zero e h = refl
slice-copy_to_self [] (suc offset) [] zero e h = refl
slice-copy_to_self [] offset bytes (suc n) e h = absurd (omega arith)
slice-copy_to_self [] offset (b ∷ bytes) zero e h = absurd (omega arith)
slice-copy_to_self (x ∷ buffer) (suc offset) bytes n e h =
    slice-copy_to_self buffer offset bytes n e (omega arith)
slice-copy_to_self (x ∷ buffer) zero [] zero e h = refl
slice-copy_to_self (x ∷ buffer) zero [] (suc n) e h = absurd (omega arith)
slice-copy_to_self (x ∷ buffer) zero (b ∷ bytes) zero e h = absurd (omega arith)
slice-copy_to_self (x ∷ buffer) zero (b ∷ bytes) (suc n) e h =
    ap (λ r. b ∷ r) (slice-copy_to_self buffer zero bytes n (omega arith) (omega arith))

abbrev pub Apart : ℕ → ℕ → ℕ → ℕ → Type 0
Apart offset size o n = (offset + size ≤ o) ⊎ (o + n ≤ offset)

pub slice-copy_to_outside :
    (buffer : List ℕ) (offset : ℕ) (bytes : List ℕ) (o n : ℕ)
    → Apart offset (length bytes) o n
    → slice (copy_to buffer offset bytes) o n ≡ slice buffer o n
unfolding copy_to slice
slice-copy_to_outside [] offset bytes o n h = refl
slice-copy_to_outside (x ∷ buffer) (suc offset) bytes (suc o) n h =
    slice-copy_to_outside buffer offset bytes o n (omega arith)
slice-copy_to_outside (x ∷ buffer) (suc offset) bytes zero zero h = refl
slice-copy_to_outside (x ∷ buffer) (suc offset) bytes zero (suc n) h =
    ap (λ r. x ∷ r) (slice-copy_to_outside buffer offset bytes zero n (omega arith))
slice-copy_to_outside (x ∷ buffer) zero [] o n h = refl
slice-copy_to_outside (x ∷ buffer) zero (b ∷ bytes) zero zero h = refl
slice-copy_to_outside (x ∷ buffer) zero (b ∷ bytes) zero (suc n) h = absurd (omega arith)
slice-copy_to_outside (x ∷ buffer) zero (b ∷ bytes) (suc o) n h =
    slice-copy_to_outside buffer zero bytes o n (omega arith)

pub copy_to-IsByte :
    (buffer : List ℕ) (offset : ℕ) (bytes : List ℕ)
    → All IsByte buffer
    → All IsByte bytes
    → All IsByte (copy_to buffer offset bytes)
unfolding copy_to
copy_to-IsByte [] offset bytes h k = tt
copy_to-IsByte (x ∷ buffer) (suc offset) bytes (p, h) k =
    (p, copy_to-IsByte buffer offset bytes h k)
copy_to-IsByte (x ∷ buffer) zero [] h k = h
copy_to-IsByte (x ∷ buffer) zero (b ∷ bytes) (p, h) (q, k) =
    (q, copy_to-IsByte buffer zero bytes h k)

pub same_bytes_refl : (xs : List ℕ) → same_bytes xs xs ≡ true
unfolding same_bytes
same_bytes_refl [] = refl
same_bytes_refl (x ∷ xs) = ground (arith, same_bytes_refl xs)

pub same_bytes-eq : (xs ys : List ℕ) → same_bytes xs ys ≡ true → xs ≡ ys
unfolding same_bytes
same_bytes-eq [] [] h = refl
same_bytes-eq [] (y ∷ ys) h = cc
same_bytes-eq (x ∷ xs) [] h = cc
same_bytes-eq (x ∷ xs) (y ∷ ys) h = ground (arith, same_bytes-eq xs ys)

pub all_zero-zeros : (n : ℕ) → all_zero (zeros n) ≡ true
unfolding all_zero zeros
all_zero-zeros zero = refl
all_zero-zeros (suc n) = all_zero-zeros n

pub all_zero-eq : (xs : List ℕ) → all_zero xs ≡ true → xs ≡ zeros (length xs)
unfolding all_zero zeros
all_zero-eq [] h = refl
all_zero-eq (x ∷ xs) h = ground (arith, all_zero-eq xs)

pub length-zeros : (n : ℕ) → length (zeros n) ≡ n
unfolding zeros
length-zeros n = length-replicate n 0

pub slice-zeros : (m o n : ℕ) → o + n ≤ m → slice (zeros m) o n ≡ zeros n
unfolding slice zeros
slice-zeros m zero zero h = refl
slice-zeros m (suc o) zero h = refl
slice-zeros zero o (suc n) h = absurd (omega arith)
slice-zeros (suc m) zero (suc n) h = ap (λ r. 0 ∷ r) (slice-zeros m zero n (omega arith))
slice-zeros (suc m) (suc o) (suc n) h = slice-zeros m o (suc n) (omega arith)

pub length-slice : (xs : List ℕ) (o n : ℕ) → o + n ≤ length xs → length (slice xs o n) ≡ n
unfolding slice
length-slice xs o n h = omega (arith, length-take n (drop o xs), length-drop o xs)

pub slice-IsByte : (xs : List ℕ) (o n : ℕ) → All IsByte xs → All IsByte (slice xs o n)
unfolding slice
slice-IsByte xs o n h = All-take IsByte n (drop o xs) (All-drop IsByte o xs h)

pub copy_to-nil : (buffer : List ℕ) (offset : ℕ) → copy_to buffer offset [] ≡ buffer
unfolding copy_to
copy_to-nil [] offset = refl
copy_to-nil (x ∷ buffer) zero = refl
copy_to-nil (x ∷ buffer) (suc offset) = ap (λ r. x ∷ r) (copy_to-nil buffer offset)

pub zeros-IsByte : (n : ℕ) → All IsByte (zeros n)
unfolding zeros
zeros-IsByte n = All-replicate IsByte n 0 (omega arith)

pub slice-append_le :
    (xs ys : List ℕ) (o n : ℕ) → o + n ≤ length xs → slice (xs ++ ys) o n ≡ slice xs o n
unfolding slice
slice-append_le xs ys o n h =
    ap (take n) (drop-append_le o xs ys (omega arith))
    ∙ take-append_le n (drop o xs) ys (omega (arith, length-drop o xs))

-- A range of the front of a buffer.
pub slice-take : (xs : List ℕ) (m o n : ℕ) → o + n ≤ m → slice (take m xs) o n ≡ slice xs o n
unfolding slice
slice-take xs zero zero zero h = refl
slice-take xs zero zero (suc n) h = absurd (omega arith)
slice-take xs zero (suc o) n h = absurd (omega arith)
slice-take [] (suc m) o n h = refl
slice-take (x ∷ xs) (suc m) zero zero h = refl
slice-take (x ∷ xs) (suc m) zero (suc n) h = ap (λ r. x ∷ r) (slice-take xs m zero n (omega arith))
slice-take (x ∷ xs) (suc m) (suc o) n h = slice-take xs m o n (omega arith)

-- A field between two others.
pub slice-middle :
    (front xs back : List ℕ) (o n : ℕ)
    → o ≡ length front
    → n ≡ length xs
    → slice (front ++ xs ++ back) o n ≡ xs
unfolding slice
slice-middle [] [] back zero zero ho hn = refl
slice-middle [] [] back zero (suc n) ho hn = absurd (omega arith)
slice-middle [] (x ∷ xs) back zero zero ho hn = absurd (omega arith)
slice-middle [] (x ∷ xs) back zero (suc n) ho hn =
    ap (λ r. x ∷ r) (slice-middle [] xs back zero n (omega arith) (omega arith))
slice-middle [] xs back (suc o) n ho hn = absurd (omega arith)
slice-middle (y ∷ front) xs back zero n ho hn = absurd (omega arith)
slice-middle (y ∷ front) xs back (suc o) n ho hn =
    slice-middle front xs back o n (omega arith) (omega arith)

pub drop-append : (front back : List ℕ) (o : ℕ) → o ≡ length front → drop o (front ++ back) ≡ back
drop-append [] back zero h = refl
drop-append [] back (suc o) h = absurd (omega arith)
drop-append (x ∷ front) back zero h = absurd (omega arith)
drop-append (x ∷ front) back (suc o) h = drop-append front back o (omega arith)
