-- ===== src/Crc/Reference.antt =====
-- checksum.c against the reference: the loops, the checksum, and the checksum of a zeroed range.
use shibadb.Bits.Xor.{xor-lt, xor-zero}
use shibadb.Crc.{
  next_byte, load_word, next_eight, continue_bytes, crc32_continue, complement, crc32,
  continue_zeros, crc32_zeroed_range, entry, IsByte,
}
use shibadb.Crc.Bitwise.{shift_bits, shift_byte, register, crc_of, shift_bits-lt}
use shibadb.Crc.Tables.{slice_0, slice_1, slice_2, slice_3}
use shibadb.Crc.Equivalence.{next_byte-shift, four_bytes, word_bytes, last_bytes, load_word-lt}
use shibadb.Prelude.{
  ℕ, zero, suc, ◌+◌, ◌/◌, ◌^◌, ◌<◌, bit_and, bit_xor, ◌≡◌, refl, sym, ap, ◌∙◌, arith, List, [], ◌∷◌,
  ◌++◌, All, All-append, All-take, All-drop, All-replicate, take, drop, replicate, length,
  if◌then◌else◌, leb,
}

pub register-lt : (crc : ℕ) (xs : List ℕ) → crc < 2 ^ 32 → All IsByte xs → register crc xs < 2 ^ 32
unfolding register shift_byte
register-lt crc [] h bytes = h
register-lt crc (b ∷ xs) h (hb, hs) =
    register-lt (shift_bits 8 (bit_xor crc b)) xs
      (shift_bits-lt 8 (bit_xor crc b) (xor-lt 32 crc b h (omega arith))) hs

pub register-append :
    (crc : ℕ) (xs ys : List ℕ) → register crc (xs ++ ys) ≡ register (register crc xs) ys
unfolding register
register-append crc [] ys = refl
register-append crc (b ∷ xs) ys = register-append (shift_byte (bit_xor crc b)) xs ys

-- One round of the main loop is eight rounds of the register.
eight :
    (crc a b c d e f g h : ℕ) (xs : List ℕ)
    → crc < 2 ^ 32
    → All IsByte (a ∷ b ∷ c ∷ d ∷ e ∷ f ∷ g ∷ h ∷ [])
    → register crc (a ∷ b ∷ c ∷ d ∷ e ∷ f ∷ g ∷ h ∷ xs)
      ≡ register (next_eight (load_word crc a b c d) e f g h) xs
unfolding register shift_byte next_eight
eight crc a b c d e f g h xs fits (ha, (hb, (hc, (hd, (he, (hf, (hg, (hh, _)))))))) =
    ap (λ t. register t xs)
      (ap
          (λ t. shift_bits 8 (
            bit_xor
              (shift_bits 8 (bit_xor (shift_bits 8 (bit_xor (shift_bits 8 (bit_xor t e)) f)) g)) h))
          (four_bytes crc a b c d ha hb hc)
        ∙ last_bytes (load_word crc a b c d) e f g h he hf hg hh
        ∙ ap
            (λ t.
              bit_xor
                (bit_xor (bit_xor (bit_xor t (entry slice_3 e)) (entry slice_2 f))
                  (entry slice_1 g))
                (entry slice_0 h))
            (word_bytes (load_word crc a b c d) (load_word-lt crc a b c d fits ha hb hc hd)))

continue_bytes-eq-register :
    (crc : ℕ) (xs : List ℕ) → All IsByte xs → continue_bytes crc xs ≡ register crc xs
unfolding continue_bytes register
continue_bytes-eq-register crc [] bytes = refl
continue_bytes-eq-register crc (b ∷ xs) (hb, hs) =
    ap (λ t. continue_bytes t xs) (next_byte-shift crc b hb)
    ∙ continue_bytes-eq-register (shift_byte (bit_xor crc b)) xs hs

next_eight-lt :
    (crc a b c d e f g h : ℕ)
    → crc < 2 ^ 32
    → All IsByte (a ∷ b ∷ c ∷ d ∷ e ∷ f ∷ g ∷ h ∷ [])
    → next_eight (load_word crc a b c d) e f g h < 2 ^ 32
next_eight-lt crc a b c d e f g h fits bytes =
    unfold register in
    rw (eight crc a b c d e f g h [] fits bytes) at
      (register-lt crc (a ∷ b ∷ c ∷ d ∷ e ∷ f ∷ g ∷ h ∷ []) fits bytes)

crc32_continue-eq-register :
    (crc : ℕ) (xs : List ℕ) → crc < 2 ^ 32 → All IsByte xs → crc32_continue crc xs ≡ register crc xs
unfolding crc32_continue
crc32_continue-eq-register crc (a ∷ b ∷ c ∷ d ∷ e ∷ f ∷ g ∷ h ∷ xs) fits
      (ha, (hb, (hc, (hd, (he, (hf, (hg, (hh, hs)))))))) =
    let bytes : All IsByte (a ∷ b ∷ c ∷ d ∷ e ∷ f ∷ g ∷ h ∷ []) =
      (ha, (hb, (hc, (hd, (he, (hf, (hg, (hh, tt)))))))) in
    crc32_continue-eq-register (next_eight (load_word crc a b c d) e f g h) xs
      (next_eight-lt crc a b c d e f g h fits bytes) hs
    ∙ sym (eight crc a b c d e f g h xs fits bytes)
crc32_continue-eq-register crc xs fits bytes = continue_bytes-eq-register crc xs bytes

-- On every list of bytes, eight bytes a round through eight tables give the CRC-32 that the
-- bitwise definition gives (reflected polynomial 0xEDB88320, all ones before, inverted after).
pub crc32-eq-crc_of : (xs : List ℕ) → All IsByte xs → crc32 xs ≡ crc_of xs
unfolding crc32 crc_of complement
crc32-eq-crc_of xs bytes =
    ap (λ t. bit_xor t 0xffffffff) (crc32_continue-eq-register 0xffffffff xs (omega arith) bytes)

zeros-eq-register : (n crc : ℕ) → continue_zeros n crc ≡ register crc (replicate n 0)
unfolding continue_zeros register
zeros-eq-register zero crc = refl
zeros-eq-register (suc n) crc =
    ap (continue_zeros n) zero_round ∙ zeros-eq-register n (shift_byte (bit_xor crc 0))
  where
    zero_round :
        bit_xor (crc / 2 ^ 8) (entry slice_0 (bit_and crc 0xff)) ≡ shift_byte (bit_xor crc 0)
    zero_round =
        ap (λ t. bit_xor (crc / 2 ^ 8) (entry slice_0 (bit_and t 0xff))) (sym (xor-zero crc))
        ∙ unfold next_byte in next_byte-shift crc 0 (omega arith)

-- The bytes with `n` of them, from `offset` on, replaced by zeros.
abbrev pub zero_out : List ℕ → ℕ → ℕ → List ℕ
zero_out xs offset n = take offset xs ++ (replicate n 0 ++ drop (offset + n) xs)

-- Where the range lies within the bytes, the checksum of a zeroed range is the checksum of the
-- bytes with zeros put there; where it does not, the result is 0.
pub crc32_zeroed_range-eq-crc32 :
    (xs : List ℕ) (offset n : ℕ)
    → All IsByte xs
    → crc32_zeroed_range xs offset n
      ≡ (if leb (offset + n) (length xs) then crc32 (zero_out xs offset n) else 0)
unfolding crc32_zeroed_range
crc32_zeroed_range-eq-crc32 xs offset n bytes = ground (arith, within)
  where
    front : All IsByte (take offset xs)
    front = All-take IsByte offset xs bytes

    back : All IsByte (drop (offset + n) xs)
    back = All-drop IsByte (offset + n) xs bytes

    zeros : All IsByte (replicate n 0)
    zeros = All-replicate IsByte n 0 (omega arith)

    start : ℕ
    start = register 0xffffffff (take offset xs)

    whole :
        crc32_continue
          (continue_zeros n (crc32_continue 0xffffffff (take offset xs)))
          (drop (offset + n) xs)
        ≡ crc32_continue 0xffffffff (zero_out xs offset n)
    whole =
        ap (λ t. crc32_continue (continue_zeros n t) (drop (offset + n) xs))
          (crc32_continue-eq-register 0xffffffff (take offset xs) (omega arith) front)
        ∙ ap (λ t. crc32_continue t (drop (offset + n) xs)) (zeros-eq-register n start)
        ∙ crc32_continue-eq-register (register start (replicate n 0)) (drop (offset + n) xs)
            (register-lt start (replicate n 0)
              (register-lt 0xffffffff (take offset xs) (omega arith) front) zeros)
            back
        ∙ sym (register-append start (replicate n 0) (drop (offset + n) xs))
        ∙ sym (register-append 0xffffffff (take offset xs) (replicate n 0 ++ drop (offset + n) xs))
        ∙ sym (
            crc32_continue-eq-register 0xffffffff (zero_out xs offset n) (omega arith) (
              All-append IsByte (take offset xs) (replicate n 0 ++ drop (offset + n) xs) front
                (All-append IsByte (replicate n 0) (drop (offset + n) xs) zeros back)))

    within :
        complement (
          crc32_continue
            (continue_zeros n (crc32_continue 0xffffffff (take offset xs)))
            (drop (offset + n) xs))
        ≡ crc32 (zero_out xs offset n)
    within = unfold crc32 in ap complement whole

-- The checksum fits 32 bits.
pub crc32-lt : (xs : List ℕ) → All IsByte xs → crc32 xs < 2 ^ 32
unfolding crc32 complement
crc32-lt xs bytes =
    rw (crc32_continue-eq-register 0xffffffff xs (omega arith) bytes)
      (xor-lt 32 _ 0xffffffff (register-lt 0xffffffff xs (omega arith) bytes) (omega arith))

pub crc32_zeroed_range-lt :
    (xs : List ℕ) (offset n : ℕ) → All IsByte xs → crc32_zeroed_range xs offset n < 2 ^ 32
crc32_zeroed_range-lt xs offset n bytes = rw (crc32_zeroed_range-eq-crc32 xs offset n bytes) (
    ground (
      arith,
      crc32-lt (zero_out xs offset n) (
          All-append IsByte (take offset xs) (replicate n 0 ++ drop (offset + n) xs)
            (All-take IsByte offset xs bytes)
            (All-append IsByte (replicate n 0) (drop (offset + n) xs)
              (All-replicate IsByte n 0 (omega arith)) (All-drop IsByte (offset + n) xs bytes))),
    ))

-- The checksum depends on what lies before and behind the range alone.
pub crc32_zeroed_range-cong :
    (xs ys : List ℕ) (offset n : ℕ)
    → length xs ≡ length ys
    → take offset xs ≡ take offset ys
    → drop (offset + n) xs ≡ drop (offset + n) ys
    → crc32_zeroed_range xs offset n ≡ crc32_zeroed_range ys offset n
unfolding crc32_zeroed_range
crc32_zeroed_range-cong xs ys offset n len front back = rw (len, front, back)
