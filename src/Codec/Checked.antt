-- ===== src/Codec/Checked.antt =====
-- The checked operations return the exact result or report that it does not fit.
use shibadb.Codec.{size_max, checked_add_size, checked_mul_size}
use native.Mathlib.Nat.{div-lt_iff_lt-mul, mul_comm}
use shibadb.Prelude.{ℕ, zero, suc, ◌+◌, ◌*◌, ◌≤◌, ◌≡◌, arith, none, some, leb, if◌then◌else◌}

-- For two `size_t` values the result is the exact sum, or none exactly when the sum does not fit.
pub checked_add_size_exact :
    (left right : ℕ)
    → left ≤ size_max
    → checked_add_size left right
      ≡ (if leb (left + right) size_max then some (left + right) else none)
unfolding checked_add_size
checked_add_size_exact left right h = ground arith

-- For two `size_t` values the result is the exact product, or none exactly when it does not fit.
pub checked_mul_size_exact :
    (left right : ℕ)
    → checked_mul_size left right
      ≡ (if leb (left * right) size_max then some (left * right) else none)
unfolding checked_mul_size
checked_mul_size_exact zero right = ground arith
checked_mul_size_exact (suc left) right = ground (
  arith,
  (div-lt_iff_lt-mul {k = suc left} {x = size_max} {y = right} (omega arith)),
  mul_comm right (suc left),
)
