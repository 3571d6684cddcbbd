-- ===== src/Bits/Xor.antt =====
-- The laws of `^`: a commutative group of exponent two, compatible with shifts.
use Prim.Native.Nat.{bit_xor-bitwise}
use native.Mathlib.Nat.{pow-suc, pow-succ', div-div-eq-div-mul}
use shibadb.Bits.Digit.{bit_xor_step}
use shibadb.Prelude.{
  ℕ, zero, suc, ◌+◌, ◌*◌, ◌/◌, ◌%◌, ◌^◌, ◌≤◌, ◌<◌, bit_xor, ◌≡◌, refl, sym, ap, ◌∙◌, arith,
}

-- The two digits of `a ^ b` at the bottom, as equations that `omega` reads.
pub xor-half : (a b : ℕ) → bit_xor a b / 2 ≡ bit_xor (a / 2) (b / 2)
xor-half a b = omega (arith, bit_xor_step a b)

pub xor-parity : (a b : ℕ) → bit_xor a b % 2 ≡ (a + b) % 2
xor-parity a b = omega (arith, bit_xor_step a b)

xor_comm_below : (n a b : ℕ) → a ≤ n → b ≤ n → bit_xor a b ≡ bit_xor b a
xor_comm_below zero zero zero p q = refl
xor_comm_below zero (suc a) b p q = absurd (omega arith)
xor_comm_below zero a (suc b) p q = absurd (omega arith)
xor_comm_below (suc n) a b p q = omega (
  arith,
  bit_xor_step a b,
  bit_xor_step b a,
  xor_comm_below n (a / 2) (b / 2) (omega arith) (omega arith),
)

pub xor_comm : (a b : ℕ) → bit_xor a b ≡ bit_xor b a
xor_comm a b = xor_comm_below (a + b) a b (omega arith) (omega arith)

xor_assoc_below : (n a b c : ℕ) → a + b + c ≤ n → bit_xor (bit_xor a b) c ≡ bit_xor a (bit_xor b c)
xor_assoc_below zero zero zero zero p = refl
xor_assoc_below zero (suc a) b c p = absurd (omega arith)
xor_assoc_below zero zero (suc b) c p = absurd (omega arith)
xor_assoc_below zero zero zero (suc c) p = absurd (omega arith)
xor_assoc_below (suc n) a b c p = omega (
  arith,
  bit_xor_step (bit_xor a b) c,
  bit_xor_step a (bit_xor b c),
  xor-parity a b,
  xor-parity b c,
  ap (λ (t : ℕ). bit_xor t (c / 2)) (xor-half a b),
  ap (λ (t : ℕ). bit_xor (a / 2) t) (xor-half b c),
  xor_assoc_below n (a / 2) (b / 2) (c / 2) (omega arith),
)

pub xor_assoc : (a b c : ℕ) → bit_xor (bit_xor a b) c ≡ bit_xor a (bit_xor b c)
xor_assoc a b c = xor_assoc_below (a + b + c) a b c (omega arith)

pub zero-xor : (b : ℕ) → bit_xor 0 b ≡ b
zero-xor b = bit_xor-bitwise 0 b

pub xor-zero : (a : ℕ) → bit_xor a 0 ≡ a
xor-zero a = xor_comm a 0 ∙ zero-xor a

xor-self_below : (n a : ℕ) → a ≤ n → bit_xor a a ≡ 0
xor-self_below zero zero p = refl
xor-self_below zero (suc a) p = absurd (omega arith)
xor-self_below (suc n) a p = omega (arith, bit_xor_step a a, xor-self_below n (a / 2) (omega arith))

pub xor_self : (a : ℕ) → bit_xor a a ≡ 0
xor_self a = xor-self_below a a (omega arith)

-- Four terms pair up either way: what makes a sum of two values step as the sum of their steps.
pub xor_exchange :
    (a b c d : ℕ) → bit_xor (bit_xor a b) (bit_xor c d) ≡ bit_xor (bit_xor a c) (bit_xor b d)
xor_exchange a b c d =
    xor_assoc a b (bit_xor c d)
    ∙ ap (bit_xor a)
        (sym (xor_assoc b c d) ∙ ap (λ t. bit_xor t d) (xor_comm b c) ∙ xor_assoc c b d)
    ∙ sym (xor_assoc a c (bit_xor b d))

pub xor-lt : (k a b : ℕ) → a < 2 ^ k → b < 2 ^ k → bit_xor a b < 2 ^ k
xor-lt zero zero zero p q = omega arith
xor-lt zero (suc a) b p q = absurd (omega arith)
xor-lt zero zero (suc b) p q = absurd (omega arith)
xor-lt (suc k) a b p q = omega (
  arith,
  bit_xor_step a b,
  pow-suc 2 k,
  xor-lt k (a / 2) (b / 2) (omega (arith, pow-suc 2 k)) (omega (arith, pow-suc 2 k)),
)

-- A value with `k` bits and one shifted past them do not meet: `^` adds them.
pub xor-shift : (k low high : ℕ) → low < 2 ^ k → bit_xor low (high * 2 ^ k) ≡ low + high * 2 ^ k
xor-shift zero zero high p = omega (arith, zero-xor (high * 2 ^ 0))
xor-shift zero (suc low) high p = absurd (omega arith)
xor-shift (suc k) low high p =
    let double : high * 2 ^ suc k ≡ 2 * (high * 2 ^ k) =
      omega (arith, ap (λ (t : ℕ). high * t) (pow-suc 2 k)) in
    let half : high * 2 ^ suc k / 2 ≡ high * 2 ^ k = omega arith in
    omega (
      arith,
      bit_xor_step low (high * 2 ^ suc k),
      ap (bit_xor (low / 2)) half,
      xor-shift k (low / 2) high (omega (arith, pow-suc 2 k)),
    )

-- `(a ^ b) >> k`, for a `b` that has `k` bits.
pub xor-div_low : (k a b : ℕ) → b < 2 ^ k → bit_xor a b / 2 ^ k ≡ a / 2 ^ k
xor-div_low zero a zero h = rw xor-zero
xor-div_low zero a (suc b) h = absurd (omega arith)
xor-div_low (suc k) a b h =
    halve (bit_xor a b)
    ∙ ap (λ t. t / 2 ^ k) (xor-half a b)
    ∙ xor-div_low k (a / 2) (b / 2) (omega (arith, pow-suc 2 k))
    ∙ sym (halve a)
  where
    halve : (x : ℕ) → x / 2 ^ suc k ≡ x / 2 / 2 ^ k
    halve x = ap (λ t. x / t) (pow-succ' 2 k) ∙ sym (div-div-eq-div-mul x 2 (2 ^ k))
