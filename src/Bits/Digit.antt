-- ===== src/Bits/Digit.antt =====
-- The lowest digit of `&`, `|` and `^`: the fuel of the digit recursion is dropped.
use Prim.Native.Nat.{max, differ, digits, bitwise, bit_and-bitwise, bit_or-bitwise, bit_xor-bitwise}
use native.Mathlib.Nat.{le_refl}
use shibadb.Prelude.{
  ℕ, zero, suc, ◌+◌, ◌*◌, ◌/◌, ◌%◌, ◌≤◌, ◌<◌, min, bit_and, bit_or, bit_xor, ◌≡◌, refl, arith,
}

-- An operation is given by what it does to the lowest digits.
abbrev pub Steps : (ℕ → ℕ → ℕ) → (ℕ → ℕ → ℕ) → Type 0
Steps op digit = (a b : ℕ) → op a b ≡ op (a / 2) (b / 2) * 2 + digit (a % 2) (b % 2)

module _ (digit : ℕ → ℕ → ℕ) (rest : ℕ → ℕ) where
  -- Any fuel that covers the first operand gives the same digits.
  enough : (a b m n : ℕ) → a ≤ m → a ≤ n → digits rest digit m a b ≡ digits rest digit n a b
  enough (suc a) b (suc m) (suc n) hm hn =
      let half = enough (suc a / 2) (b / 2) m n (omega arith) (omega arith) in rw half
  enough (suc a) b (suc m) zero hm hn = absurd (omega arith)
  enough (suc a) b zero n hm hn = absurd (omega arith)
  enough zero b (suc m) (suc n) hm hn = refl
  enough zero b (suc m) zero hm hn = refl
  enough zero b zero (suc n) hm hn = refl
  enough zero b zero zero hm hn = refl

  lowest :
      (b a : ℕ)
      → bitwise rest digit (suc a) b
        ≡ bitwise rest digit (suc a / 2) (b / 2) * 2 + digit (suc a % 2) (b % 2)
  lowest b a = omega (arith, enough (suc a / 2) (b / 2) a (suc a / 2) (omega arith) (le_refl _))

pub bit_and_step : Steps bit_and min
bit_and_step (suc a) b = simp bit_and-bitwise (lowest min (λ y. 0) b a)
bit_and_step zero b = simp bit_and-bitwise (omega arith)

pub bit_or_step : Steps bit_or max
bit_or_step (suc a) b = simp bit_or-bitwise (lowest max (λ y. y) b a)
bit_or_step zero b = simp bit_or-bitwise (omega arith)

differ_bits : (x y : ℕ) → x < 2 → y < 2 → differ x y ≡ (x + y) % 2
differ_bits zero zero p q = refl
differ_bits zero (suc zero) p q = refl
differ_bits (suc zero) zero p q = refl
differ_bits (suc zero) (suc zero) p q = refl
differ_bits zero (suc (suc y)) p q = absurd (omega arith)
differ_bits (suc zero) (suc (suc y)) p q = absurd (omega arith)
differ_bits (suc (suc x)) y p q = absurd (omega arith)

pub bit_xor_step : (a b : ℕ) → bit_xor a b ≡ bit_xor (a / 2) (b / 2) * 2 + (a + b) % 2
bit_xor_step zero b = simp bit_xor-bitwise (omega arith)
bit_xor_step (suc a) b =
    omega (arith, step, differ_bits (suc a % 2) (b % 2) (omega arith) (omega arith))
  where
    step : bit_xor (suc a) b ≡ bit_xor (suc a / 2) (b / 2) * 2 + differ (suc a % 2) (b % 2)
    step = simp bit_xor-bitwise (lowest differ (λ y. y) b a)
