-- ===== src/Wal/Size.antt =====
-- src/wal.c: the size of a log and of a frame, with overflow checks.
use shibadb.Codec.{size_max, checked_add_size, checked_mul_size}
use shibadb.Codec.Checked.{checked_add_size_exact, checked_mul_size_exact}
use shibadb.Status.{Result, ok, err, overflow}
use shibadb.Prelude.{
  ℕ, ◌+◌, ◌*◌, ◌%◌, ◌^◌, ◌≤◌, ◌≡◌, refl, arith, Option, none, some, false, dec_le, ◌<◌, ◌∙◌, leb,
  if◌then◌else◌, le→leb,
}

-- Sizes of a frame in the three formats of the log.
abbrev pub frame_size : ℕ → ℕ
frame_size page_size = (8 + page_size) % 2 ^ 64

abbrev pub frame_size_v4 : ℕ → ℕ
frame_size_v4 page_size = (24 + page_size) % 2 ^ 64

abbrev pub frame_size_v5 : ℕ → ℕ
frame_size_v5 page_size = (40 + page_size) % 2 ^ 64

-- `if (!checked(...)) return SDB_E_OVERFLOW`
abbrev pub or_overflow {ℓ} : {A : Type ℓ} → Option ℕ → (ℕ → Result A) → Result A
or_overflow none next = err overflow
or_overflow (some value) next = next value

unfoldable pub expected_size : ℕ → ℕ → Result ℕ
expected_size page_size page_count = or_overflow (checked_add_size 8 page_size) λ record_size.
    or_overflow (checked_mul_size record_size page_count) λ records_size.
      or_overflow (checked_add_size 64 records_size)
        λ without_commit. or_overflow (checked_add_size without_commit 24) λ size. ok size

lt→leb : (a b : ℕ) → b < a → leb a b ≡ false
lt→leb a b h = ground arith

module _ (left right : ℕ) (next : ℕ → Result ℕ) where
  add_fits :
      left + right ≤ size_max → or_overflow (checked_add_size left right) next ≡ next (left + right)
  add_fits h =
      rw (checked_add_size_exact left right (omega arith), le→leb (left + right) size_max h) refl

  add_over :
      left ≤ size_max
      → size_max < left + right
      → or_overflow (checked_add_size left right) next ≡ err overflow
  add_over small h =
      rw (checked_add_size_exact left right small, lt→leb (left + right) size_max h) refl

  mul_fits :
      left * right ≤ size_max → or_overflow (checked_mul_size left right) next ≡ next (left * right)
  mul_fits h = rw (checked_mul_size_exact left right, le→leb (left * right) size_max h) refl

  mul_over : size_max < left * right → or_overflow (checked_mul_size left right) next ≡ err overflow
  mul_over h = rw (checked_mul_size_exact left right, lt→leb (left * right) size_max h) refl

-- For a page size of at most 65536, the result is the exact size of a log with these pages, or
-- an overflow exactly when that is no size_t.
pub expected_size_exact :
    (page_size page_count : ℕ)
    → page_size ≤ 65536
    → expected_size page_size page_count ≡ (
        if leb (64 + (8 + page_size) * page_count + 24) size_max
        then ok (64 + (8 + page_size) * page_count + 24)
        else err overflow)
unfolding expected_size
expected_size_exact page_size page_count small =
    add_fits 8 page_size _ (omega arith)
    ∙ elim (dec_le (64 + (8 + page_size) * page_count + 24) size_max) as (λ _. rest ≡ result) [
      | yes fits ↦
          mul_fits (8 + page_size) page_count _ (omega arith)
          ∙ add_fits 64 ((8 + page_size) * page_count) _ (omega arith)
          ∙ add_fits (64 + (8 + page_size) * page_count) 24 _ fits
          ∙ rw (le→leb (64 + (8 + page_size) * page_count + 24) size_max fits) refl
      | no over ↦
          rw (lt→leb (64 + (8 + page_size) * page_count + 24) size_max (omega arith))
            (too_large over)
    ]
  where
    rest : Result ℕ
    rest = or_overflow (checked_mul_size (8 + page_size) page_count) λ records_size.
        or_overflow (checked_add_size 64 records_size)
          λ without_commit. or_overflow (checked_add_size without_commit 24) λ size. ok size

    result : Result ℕ
    result =
        if leb (64 + (8 + page_size) * page_count + 24) size_max
        then ok (64 + (8 + page_size) * page_count + 24)
        else err overflow

    too_large : ¬ (64 + (8 + page_size) * page_count + 24 ≤ size_max) → rest ≡ err overflow
    too_large over = elim (dec_le ((8 + page_size) * page_count) size_max) [
      | no product ↦ mul_over (8 + page_size) page_count _ (omega arith)
      | yes product ↦
          mul_fits (8 + page_size) page_count _ product
          ∙ elim (dec_le (64 + (8 + page_size) * page_count) size_max) [
            | no sum ↦ add_over 64 ((8 + page_size) * page_count) _ (omega arith) (omega arith)
            | yes sum ↦
                add_fits 64 ((8 + page_size) * page_count) _ sum
                ∙ add_over (64 + (8 + page_size) * page_count) 24 _ sum (omega arith)
          ]
    ]
