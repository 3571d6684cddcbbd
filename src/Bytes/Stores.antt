-- ===== src/Bytes/Stores.antt =====
-- A sequence of writes at fixed offsets, the way the encoders lay a header out, and what is read
-- back from it.
use shibadb.Bytes.{IsByte, copy_to, slice}
use shibadb.Bytes.Laws.{length-copy_to, slice-copy_to_self, slice-copy_to_outside, copy_to-IsByte}
use shibadb.Prelude.{
  ℕ, ◌+◌, ◌≤◌, ◌≡◌, ◌∙◌, refl, arith, List, [], ◌∷◌, ◌++◌, Bool, true, ◌&&◌, ◌||◌, ◌==◌, leb,
  if◌then◌else◌, Option, none, some, length, All,
}

-- One write of `size` bytes.
pub record Store : Type 0 where
  pub offset : ℕ
  pub size : ℕ
  pub bytes : List ℕ

-- The writes, in order.
unfoldable pub run : List ℕ → List Store → List ℕ
run buffer [] = buffer
run buffer (s ∷ stores) = run (copy_to buffer s.offset s.bytes) stores

-- The range of `n` bytes from `o` on lies outside the store.
abbrev pub misses : Store → ℕ → ℕ → Bool
misses s o n = leb (o + n) s.offset || leb (s.offset + s.size) o

unfoldable pub all_miss : List Store → ℕ → ℕ → Bool
all_miss [] o n = true
all_miss (s ∷ stores) o n = misses s o n && all_miss stores o n

-- The bytes that the last of the stores leaves at a range, if the range is one of theirs and no
-- later one touches it.
unfoldable pub found : List Store → ℕ → ℕ → Option (List ℕ)
unfolding all_miss
found [] o n = none
found (s ∷ stores) o n =
    let rest = found stores o n in
    if s.offset == o && s.size == n && all_miss stores o n then some s.bytes else rest

-- A store writes as many bytes as it says, within a buffer of `m` bytes.
abbrev pub FitsIn : ℕ → Store → Type 0
FitsIn m s = (length s.bytes ≡ s.size) × (s.offset + s.size ≤ m)

pub length-run :
    (buffer : List ℕ) (stores : List Store) → length (run buffer stores) ≡ length buffer
unfolding run
length-run buffer [] = refl
length-run buffer (s ∷ stores) =
    length-run (copy_to buffer s.offset s.bytes) stores ∙ length-copy_to buffer s.offset s.bytes

-- What no store touches is as it was.
pub slice-run_miss :
    (buffer : List ℕ) (stores : List Store) (o n : ℕ)
    → All (FitsIn (length buffer)) stores
    → all_miss stores o n ≡ true
    → slice (run buffer stores) o n ≡ slice buffer o n
unfolding run all_miss
slice-run_miss buffer [] o n fits h = refl
slice-run_miss buffer (s ∷ stores) o n (fit, fits) h =
    slice-run_miss (copy_to buffer s.offset s.bytes) stores o n
      (rw (length-copy_to buffer s.offset s.bytes) fits) (ground arith)
    ∙ slice-copy_to_outside buffer s.offset s.bytes o n (ground arith)

-- What a store wrote is read back, if no later one touches it.
pub slice-run_hit :
    (buffer : List ℕ) (stores : List Store) (o n : ℕ) {bytes : List ℕ}
    → All (FitsIn (length buffer)) stores
    → found stores o n ≡ some bytes
    → slice (run buffer stores) o n ≡ bytes
unfolding run found
slice-run_hit buffer [] o n fits h = cc
slice-run_hit buffer (s ∷ stores) o n {bytes} (fit, fits) h = ground (
  arith,
  slice-run_hit (copy_to buffer s.offset s.bytes) stores o n {bytes = bytes} fits',
  slice-run_miss (copy_to buffer s.offset s.bytes) stores o n fits',
  slice-copy_to_self buffer s.offset s.bytes n,
)
  where
    fits' : All (FitsIn (length (copy_to buffer s.offset s.bytes))) stores
    fits' = rw (length-copy_to buffer s.offset s.bytes) fits

abbrev pub HasBytes : Store → Type 0
HasBytes s = All IsByte s.bytes

pub run-IsByte :
    (buffer : List ℕ) (stores : List Store)
    → All IsByte buffer
    → All HasBytes stores
    → All IsByte (run buffer stores)
unfolding run
run-IsByte buffer [] h k = h
run-IsByte buffer (s ∷ stores) h (q, k) =
    run-IsByte (copy_to buffer s.offset s.bytes) stores (copy_to-IsByte buffer s.offset s.bytes h q)
      k

pub run-append :
    (buffer : List ℕ) (stores more : List Store)
    → run buffer (stores ++ more) ≡ run (run buffer stores) more
unfolding run
run-append buffer [] more = refl
run-append buffer (s ∷ stores) more = run-append (copy_to buffer s.offset s.bytes) stores more
