-- ===== src/Bytes.antt =====
-- C buffers as lists of bytes: `memcpy`, `memset` and reads at an offset.
pub mod Laws
pub mod Stores
pub mod Tiles
use shibadb.Prelude.{
  ℕ, zero, suc, ◌+◌, ◌-◌, ◌<◌, ◌≤◌, ◌≡◌, refl, arith, List, [], ◌∷◌, ◌++◌, Bool, true, false, ◌&&◌,
  ◌==◌, take, drop, replicate, length, All,
}

-- A C byte
abbrev pub IsByte : ℕ → Type 0
IsByte b = b < 256

-- `memcpy(output + offset, bytes, n)` for the `n` bytes of the list. What would pass the end of
-- the buffer is dropped.
unfoldable pub copy_to : List ℕ → ℕ → List ℕ → List ℕ
copy_to [] offset bytes = []
copy_to (x ∷ buffer) (suc offset) bytes = x ∷ copy_to buffer offset bytes
copy_to (x ∷ buffer) zero [] = x ∷ buffer
copy_to (x ∷ buffer) zero (b ∷ bytes) = b ∷ copy_to buffer zero bytes

-- The `n` bytes from `offset` on.
unfoldable pub slice : List ℕ → ℕ → ℕ → List ℕ
slice buffer offset n = take n (drop offset buffer)

-- `memset(output, 0, n)` of a new buffer
unfoldable pub zeros : ℕ → List ℕ
zeros n = replicate n 0

-- `memcmp(a, b, n) == 0`
unfoldable pub same_bytes : List ℕ → List ℕ → Bool
same_bytes [] [] = true
same_bytes [] (y ∷ ys) = false
same_bytes (x ∷ xs) [] = false
same_bytes (x ∷ xs) (y ∷ ys) = x == y && same_bytes xs ys

-- No byte differs from zero.
unfoldable pub all_zero : List ℕ → Bool
all_zero [] = true
all_zero (x ∷ xs) = x == 0 && all_zero xs
