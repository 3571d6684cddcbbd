-- ===== src/Bits.antt =====
-- The C operators `&`, `|` and `^` as arithmetic. The native operations are defined by a recursion
-- on binary digits; one equation for the lowest digit of each carries all the laws.
mod Digit
pub mod Xor
pub use Digit.{bit_and_step, bit_or_step, bit_xor_step}
use Prim.Native.Nat.{bit_or-bitwise}
use native.Mathlib.Nat.{pow-suc, one-le-pow, div-add-mod, mod-lt}
use shibadb.Prelude.{
  ℕ, zero, suc, ◌+◌, ◌-◌, ◌*◌, ◌/◌, ◌%◌, ◌^◌, ◌≤◌, ◌<◌, bit_and, bit_or, ◌≡◌, refl, ap, ap₂, ◌∙◌,
  arith,
}

bit_or-zero_within : (a n : ℕ) → a ≤ n → bit_or a 0 ≡ a
bit_or-zero_within (suc a) (suc n) h =
    omega (arith, bit_or-zero_within (suc a / 2) n (omega arith), bit_or_step (suc a) 0)
bit_or-zero_within (suc a) zero h = absurd (omega arith)
bit_or-zero_within zero n h = refl

pub bit_or-zero : (a : ℕ) → bit_or a 0 ≡ a
bit_or-zero a = bit_or-zero_within a a (omega arith)

bit_and-zero_within : (a n : ℕ) → a ≤ n → bit_and a 0 ≡ 0
bit_and-zero_within (suc a) (suc n) h =
    omega (arith, bit_and-zero_within (suc a / 2) n (omega arith), bit_and_step (suc a) 0)
bit_and-zero_within (suc a) zero h = absurd (omega arith)
bit_and-zero_within zero n h = refl

zero-right : (a : ℕ) → bit_and a 0 ≡ 0
zero-right a = bit_and-zero_within a a (omega arith)

zero-bit_or : (b : ℕ) → bit_or 0 b ≡ b
zero-bit_or b = bit_or-bitwise 0 b

double_shift : (b k : ℕ) → b * 2 ^ suc k ≡ 2 * (b * 2 ^ k)
double_shift b k = omega (arith, ap (λ (t : ℕ). b * t) (pow-suc 2 k))

-- `low | (high << k)` is a sum when `low` has `k` bits.
pub bit_or-shift : (k low high : ℕ) → low < 2 ^ k → bit_or low (high * 2 ^ k) ≡ low + high * 2 ^ k
bit_or-shift zero zero high h = omega (arith, zero-bit_or (high * 2 ^ 0))
bit_or-shift zero (suc low) high h = absurd (omega arith)
bit_or-shift (suc k) low high h = omega (
  arith,
  bit_or_step low (high * 2 ^ suc k),
  double_shift high k,
  pow-suc 2 k,
  bit_or-shift k (low / 2) high (omega (arith, pow-suc 2 k)),
  ap (λ (t : ℕ). bit_or (low / 2) t) (half_of_double (high * 2 ^ k) (double_shift high k)),
)
  where
    half_of_double : (t : ℕ) → high * 2 ^ suc k ≡ 2 * t → high * 2 ^ suc k / 2 ≡ t
    half_of_double t e = omega arith

-- The mask of `k` ones takes the low field of a number written as two fields.
bit_and-low_field : (k high low : ℕ) → low < 2 ^ k → bit_and (low + high * 2 ^ k) (2 ^ k - 1) ≡ low
bit_and-low_field zero high low h = rw zero-right (omega arith)
bit_and-low_field (suc k) high low h =
    let split : bit_and ((low + high * 2 ^ suc k) / 2) ((2 ^ suc k - 1) / 2)
        ≡ bit_and (low / 2 + high * 2 ^ k) (2 ^ k - 1) =
      ap₂ bit_and (omega (arith, double_shift high k))
        (omega (arith, pow-suc 2 k, one-le-pow k 2)) in
    omega (
      arith,
      split,
      bit_and_step (low + high * 2 ^ suc k) (2 ^ suc k - 1),
      bit_and-low_field k high (low / 2) (omega (arith, pow-suc 2 k)),
      double_shift high k,
      pow-suc 2 k,
      one-le-pow k 2,
    )

-- `v & (2^k - 1)` keeps the `k` low bits.
pub bit_and-mask : (k v : ℕ) → bit_and v (2 ^ k - 1) ≡ v % 2 ^ k
bit_and-mask k v =
    ap (λ (t : ℕ). bit_and t (2 ^ k - 1)) fields
    ∙ bit_and-low_field k (v / 2 ^ k) (v % 2 ^ k) (mod-lt v (one-le-pow k 2 (omega arith)))
  where
    fields : v ≡ v % 2 ^ k + v / 2 ^ k * 2 ^ k
    fields = omega (arith, div-add-mod v (2 ^ k))
