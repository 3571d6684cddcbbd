-- ===== src/Crc/Detect.antt =====
-- What the checksum detects: the register is a bijection in its content, so two messages that
-- differ in one byte never have the same checksum.
use shibadb.Bits.Xor.{xor_assoc, xor_self, xor-zero, zero-xor, xor-lt}
use shibadb.Crc.{crc32, IsByte}
use shibadb.Crc.Bitwise.{
  polynomial, shift_bit, shift_bits, shift_byte, register, crc_of, shift_bit-xor, shift_bit-lt,
  shift_bits-lt,
}
use shibadb.Crc.Reference.{crc32-eq-crc_of, register-append, register-lt}
use shibadb.Prelude.{
  ◌≢◌, ℕ, zero, suc, ◌/◌, ◌^◌, ◌<◌, bit_xor, ◌≡◌, sym, ap, ◌∙◌, arith, List, [], ◌∷◌, ◌++◌, All,
  All-append,
}

xor_cancel : (a b c : ℕ) → bit_xor a c ≡ bit_xor b c → a ≡ b
xor_cancel a b c e = sym (undo a) ∙ ap (λ t. bit_xor t c) e ∙ undo b
  where
    undo : (x : ℕ) → bit_xor (bit_xor x c) c ≡ x
    undo x = xor_assoc x c c ∙ ap (bit_xor x) (xor_self c) ∙ xor-zero x

eq_of_xor_zero : (a b : ℕ) → bit_xor a b ≡ 0 → a ≡ b
eq_of_xor_zero a b e = xor_cancel a b b (e ∙ sym (xor_self b))

-- The polynomial has the top bit, which a shifted register has not.
shift_bit-eq-zero : (a : ℕ) → a < 2 ^ 32 → shift_bit a ≡ 0 → a ≡ 0
unfolding shift_bit
shift_bit-eq-zero a h e =
    ground (arith, eq_of_xor_zero (a / 2) polynomial, eq_of_xor_zero (a / 2) 0)

shift_bit-injective : (a b : ℕ) → a < 2 ^ 32 → b < 2 ^ 32 → shift_bit a ≡ shift_bit b → a ≡ b
shift_bit-injective a b ha hb e = eq_of_xor_zero a b (
    shift_bit-eq-zero (bit_xor a b) (xor-lt 32 a b ha hb)
      (shift_bit-xor a b ∙ ap (λ t. bit_xor t (shift_bit b)) e ∙ xor_self (shift_bit b)))

shift_bits-injective :
    (n a b : ℕ) → a < 2 ^ 32 → b < 2 ^ 32 → shift_bits n a ≡ shift_bits n b → a ≡ b
unfolding shift_bits
shift_bits-injective zero a b ha hb e = e
shift_bits-injective (suc n) a b ha hb e =
    shift_bit-injective a b ha hb
      (shift_bits-injective n (shift_bit a) (shift_bit b) (shift_bit-lt a ha) (shift_bit-lt b hb) e)

-- What follows never hides a difference in the register.
register-injective :
    (xs : List ℕ) (a b : ℕ)
    → a < 2 ^ 32
    → b < 2 ^ 32
    → All IsByte xs
    → register a xs ≡ register b xs
    → a ≡ b
unfolding register shift_byte
register-injective [] a b ha hb bytes e = e
register-injective (x ∷ xs) a b ha hb (hx, hs) e =
    let fits = λ (c : ℕ) (h : c < 2 ^ 32). xor-lt 32 c x h (omega arith) in
    xor_cancel a b x (
      shift_bits-injective 8 (bit_xor a x) (bit_xor b x) (fits a ha) (fits b hb) (
        register-injective xs (shift_bits 8 (bit_xor a x)) (shift_bits 8 (bit_xor b x))
          (shift_bits-lt 8 (bit_xor a x) (fits a ha)) (shift_bits-lt 8 (bit_xor b x) (fits b hb)) hs
          e))

-- Messages that differ in one byte at most, with the same checksum, are the same.
pub crc32-injective_byte :
    (front back : List ℕ) (a b : ℕ)
    → All IsByte front
    → All IsByte back
    → IsByte a
    → IsByte b
    → crc32 (front ++ (a ∷ back)) ≡ crc32 (front ++ (b ∷ back))
    → a ≡ b
unfolding crc_of register shift_byte
crc32-injective_byte front back a b hf hk ha hb e = xor_right start a b (
    shift_bits-injective 8 (bit_xor start a) (bit_xor start b) (fits a ha) (fits b hb) (
      register-injective back _ _ (shift_bits-lt 8 _ (fits a ha)) (shift_bits-lt 8 _ (fits b hb)) hk
        (sym (register-append 0xffffffff front (a ∷ back))
          ∙ xor_cancel (register 0xffffffff (front ++ (a ∷ back)))
              (register 0xffffffff (front ++ (b ∷ back))) 0xffffffff
              (sym (crc32-eq-crc_of _ (whole a ha)) ∙ e ∙ crc32-eq-crc_of _ (whole b hb))
          ∙ register-append 0xffffffff front (b ∷ back))))
  where
    start : ℕ
    start = register 0xffffffff front

    fits : (c : ℕ) → IsByte c → bit_xor start c < 2 ^ 32
    fits c h = xor-lt 32 start c (register-lt 0xffffffff front (omega arith) hf) (omega arith)

    whole : (c : ℕ) → IsByte c → All IsByte (front ++ (c ∷ back))
    whole c h = All-append IsByte front (c ∷ back) hf (h, hk)

    xor_right : (s x y : ℕ) → bit_xor s x ≡ bit_xor s y → x ≡ y
    xor_right s x y q = sym (undo x) ∙ ap (bit_xor s) q ∙ undo y
      where
        undo : (z : ℕ) → bit_xor s (bit_xor s z) ≡ z
        undo z = sym (xor_assoc s s z) ∙ ap (λ t. bit_xor t z) (xor_self s) ∙ zero-xor z

-- A change of one byte, at any place of a message of any length, changes the checksum.
pub crc32_detects_byte :
    (front back : List ℕ) (a b : ℕ)
    → All IsByte front
    → All IsByte back
    → IsByte a
    → IsByte b
    → a ≢ b
    → crc32 (front ++ (a ∷ back)) ≢ crc32 (front ++ (b ∷ back))
crc32_detects_byte front back a b hf hk ha hb ne e =
    ne (crc32-injective_byte front back a b hf hk ha hb e)
