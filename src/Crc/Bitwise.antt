-- ===== src/Crc/Bitwise.antt =====
-- The reference: CRC-32/ISO-HDLC one bit at a time, and its tables.
use native.Mathlib.Nat.{pow-suc, zero-add, suc-add}
use shibadb.Bits.Xor.{xor-half, xor-parity, xor_exchange, xor-zero, xor-lt}
use shibadb.Prelude.{
  ℕ, zero, suc, ◌+◌, ◌*◌, ◌/◌, ◌%◌, ◌^◌, ◌<◌, bit_xor, ◌≡◌, refl, ap, ap₂, ◌∙◌, arith, List, [],
  ◌∷◌, ◌==◌, if◌then◌else◌,
}

-- The generator polynomial, reflected.
abbrev pub polynomial : ℕ
polynomial = 0xedb88320

-- One bit through the register.
unfoldable pub shift_bit : ℕ → ℕ
shift_bit crc = bit_xor (crc / 2) (if crc % 2 == 1 then polynomial else 0)

unfoldable pub shift_bits : ℕ → ℕ → ℕ
shift_bits zero crc = crc
shift_bits (suc n) crc = shift_bits n (shift_bit crc)

-- Eight bits: one byte of zeros through the register.
unfoldable pub shift_byte : ℕ → ℕ
shift_byte crc = shift_bits 8 crc

-- The register after the bytes of a message.
unfoldable pub register : ℕ → List ℕ → ℕ
register crc [] = crc
register crc (b ∷ message) = register (shift_byte (bit_xor crc b)) message

-- The checksum of a message: all ones in the register at the start, and inverted at the end.
unfoldable pub crc_of : List ℕ → ℕ
crc_of message = bit_xor (register 0xffffffff message) 0xffffffff

tap : ℕ → ℕ
tap c = if c == 1 then polynomial else 0

tap-xor : (a b : ℕ) → a < 2 → b < 2 → tap ((a + b) % 2) ≡ bit_xor (tap a) (tap b)
unfolding tap
tap-xor zero zero p q = refl
tap-xor zero (suc zero) p q = refl
tap-xor (suc zero) zero p q = refl
tap-xor (suc zero) (suc zero) p q = refl
tap-xor zero (suc (suc b)) p q = absurd (omega arith)
tap-xor (suc zero) (suc (suc b)) p q = absurd (omega arith)
tap-xor (suc (suc a)) b p q = absurd (omega arith)

pub shift_bit-xor : (a b : ℕ) → shift_bit (bit_xor a b) ≡ bit_xor (shift_bit a) (shift_bit b)
unfolding shift_bit tap
shift_bit-xor a b =
    ap₂ bit_xor (xor-half a b)
      (ap tap (xor-parity a b ∙ omega arith) ∙ tap-xor (a % 2) (b % 2) (omega arith) (omega arith))
    ∙ xor_exchange (a / 2) (b / 2) (tap (a % 2)) (tap (b % 2))

pub shift_bits-xor :
    (n a b : ℕ) → shift_bits n (bit_xor a b) ≡ bit_xor (shift_bits n a) (shift_bits n b)
unfolding shift_bits
shift_bits-xor zero a b = refl
shift_bits-xor (suc n) a b =
    ap (shift_bits n) (shift_bit-xor a b) ∙ shift_bits-xor n (shift_bit a) (shift_bit b)

pub shift_bits-add : (m n a : ℕ) → shift_bits (m + n) a ≡ shift_bits n (shift_bits m a)
unfolding shift_bits
shift_bits-add zero n a = rw zero-add
shift_bits-add (suc m) n a = rw suc-add (shift_bits-add m n (shift_bit a))

shift_bit-double : (a b : ℕ) → b ≡ 2 * a → shift_bit b ≡ a
unfolding shift_bit tap
shift_bit-double a b e =
    let even : b % 2 ≡ 0 = omega arith in rw even (xor-zero (b / 2) ∙ omega arith)

-- Zeros at the bottom are shifted out, with no feedback.
pub shift_bits-mul : (n a : ℕ) → shift_bits n (a * 2 ^ n) ≡ a
unfolding shift_bits
shift_bits-mul zero a = omega arith
shift_bits-mul (suc n) a =
    ap (shift_bits n) (
      shift_bit-double (a * 2 ^ n) (a * 2 ^ suc n)
        (omega (arith, ap (λ (t : ℕ). a * t) (pow-suc 2 n))))
    ∙ shift_bits-mul n a

pub shift_bits-zero : (n : ℕ) → shift_bits n 0 ≡ 0
unfolding shift_bits shift_bit
shift_bits-zero zero = refl
shift_bits-zero (suc n) = shift_bits-zero n

-- The register holds 32 bits.
pub shift_bit-lt : (a : ℕ) → a < 2 ^ 32 → shift_bit a < 2 ^ 32
unfolding shift_bit tap
shift_bit-lt a h = xor-lt 32 (a / 2) (tap (a % 2)) (omega arith) (tap-lt (a % 2))
  where
    tap-lt : (c : ℕ) → tap c < 2 ^ 32
    tap-lt c = ground arith

pub shift_bits-lt : (n a : ℕ) → a < 2 ^ 32 → shift_bits n a < 2 ^ 32
unfolding shift_bits
shift_bits-lt zero a h = h
shift_bits-lt (suc n) a h = shift_bits-lt n (shift_bit a) (shift_bit-lt a h)
