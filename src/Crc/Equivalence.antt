-- ===== src/Crc/Equivalence.antt =====
-- The table-driven loops of checksum.c compute the bitwise register.
use shibadb.Bits.{bit_or-shift, bit_and-mask}
use shibadb.Bits.Xor.{xor_assoc, xor_comm, xor-div_low, xor-lt, xor-shift}
use shibadb.Crc.{entry, next_byte, load_word}
use shibadb.Crc.Bitwise.{shift_bits, shift_byte, shift_bits-xor, shift_bits-add, shift_bits-mul}
use shibadb.Crc.TableLaws
use shibadb.Crc.Tables.{slice_0, slice_1, slice_2, slice_3, slice_4, slice_5, slice_6, slice_7}
use shibadb.Prelude.{
  ℕ, ◌+◌, ◌*◌, ◌/◌, ◌%◌, ◌^◌, ◌<◌, bit_and, bit_or, bit_xor, ◌≡◌, sym, ap, ap₂, ◌∙◌, arith,
}

-- A register splits into its low byte and the rest: the rest only moves down.
split_byte : (x : ℕ) → shift_bits 8 x ≡ bit_xor (x / 2 ^ 8) (shift_bits 8 (x % 2 ^ 8))
split_byte x =
    ap (shift_bits 8) (omega (arith, xor-shift 8 (x % 2 ^ 8) (x / 2 ^ 8) (omega arith)))
    ∙ shift_bits-xor 8 (x % 2 ^ 8) (x / 2 ^ 8 * 2 ^ 8)
    ∙ ap (bit_xor (shift_bits 8 (x % 2 ^ 8))) (shift_bits-mul 8 (x / 2 ^ 8))
    ∙ xor_comm _ _

-- One round of the byte loop is eight bits through the register.
pub next_byte-shift : (crc b : ℕ) → b < 256 → next_byte crc b ≡ shift_byte (bit_xor crc b)
unfolding next_byte shift_byte
next_byte-shift crc b h =
    ap₂ bit_xor (sym (xor-div_low 8 crc b h)) (
      ap (entry _) (bit_and-mask 8 (bit_xor crc b))
      ∙ TableLaws.slice_0-entry (bit_xor crc b % 2 ^ 8) (omega arith))
    ∙ sym (split_byte (bit_xor crc b))

-- A byte that enters after `n` bits could have entered `n` bits higher at the start.
absorb :
    (n x b : ℕ)
    → shift_bits 8 (bit_xor (shift_bits n x) b) ≡ shift_bits (n + 8) (bit_xor x (b * 2 ^ n))
absorb n x b =
    ap (λ t. shift_bits 8 (bit_xor (shift_bits n x) t)) (sym (shift_bits-mul n b))
    ∙ ap (shift_bits 8) (sym (shift_bits-xor n x (b * 2 ^ n)))
    ∙ sym (shift_bits-add n 8 (bit_xor x (b * 2 ^ n)))

or-eq-xor : (k low high : ℕ) → low < 2 ^ k → bit_or low (high * 2 ^ k) ≡ bit_xor low (high * 2 ^ k)
or-eq-xor k low high h = bit_or-shift k low high h ∙ sym (xor-shift k low high h)

-- Four bytes loaded at once are four bytes that enter one after the other.
pub four_bytes :
    (crc a b c d : ℕ)
    → a < 256
    → b < 256
    → c < 256
    → shift_bits 8 (
        bit_xor
          (shift_bits 8 (bit_xor (shift_bits 8 (bit_xor (shift_bits 8 (bit_xor crc a)) b)) c))
          d)
      ≡ shift_bits 32 (load_word crc a b c d)
unfolding load_word
four_bytes crc a b c d ha hb hc =
    ap (λ t. shift_bits 8 (bit_xor (shift_bits 8 (bit_xor t c)) d)) (absorb 8 (bit_xor crc a) b)
    ∙ ap (λ t. shift_bits 8 (bit_xor t d)) (absorb 16 (bit_xor (bit_xor crc a) (b * 2 ^ 8)) c)
    ∙ absorb 24 (bit_xor (bit_xor (bit_xor crc a) (b * 2 ^ 8)) (c * 2 ^ 16)) d
    ∙ ap (shift_bits 32) (sym word)
  where
    two : bit_or a (b * 2 ^ 8) ≡ bit_xor a (b * 2 ^ 8)
    two = or-eq-xor 8 a b ha

    three :
        bit_or (bit_or a (b * 2 ^ 8)) (c * 2 ^ 16) ≡ bit_xor (bit_xor a (b * 2 ^ 8)) (c * 2 ^ 16)
    three =
        or-eq-xor 16 _ c (omega (arith, bit_or-shift 8 a b ha))
        ∙ ap (λ t. bit_xor t (c * 2 ^ 16)) two

    four :
        bit_or (bit_or (bit_or a (b * 2 ^ 8)) (c * 2 ^ 16)) (d * 2 ^ 24)
        ≡ bit_xor (bit_xor (bit_xor a (b * 2 ^ 8)) (c * 2 ^ 16)) (d * 2 ^ 24)
    four =
        or-eq-xor 24 _ d (
          omega (
            arith,
            bit_or-shift 8 a b ha,
            bit_or-shift 16 (bit_or a (b * 2 ^ 8)) c (omega (arith, bit_or-shift 8 a b ha)),
          ))
        ∙ ap (λ t. bit_xor t (d * 2 ^ 24)) three

    word :
        bit_xor crc (bit_or (bit_or (bit_or a (b * 2 ^ 8)) (c * 2 ^ 16)) (d * 2 ^ 24))
        ≡ bit_xor (bit_xor (bit_xor (bit_xor crc a) (b * 2 ^ 8)) (c * 2 ^ 16)) (d * 2 ^ 24)
    word = rw four (simp xor_assoc)

-- What stands `n` bits up needs `n` bits more to come out.
drain : (n k x : ℕ) → shift_bits (n + k) (x * 2 ^ n) ≡ shift_bits k x
drain n k x = shift_bits-add n k (x * 2 ^ n) ∙ ap (shift_bits k) (shift_bits-mul n x)

byte_of : (k w : ℕ) → bit_and (w / 2 ^ k) 0xff ≡ w / 2 ^ k % 256
byte_of k w = bit_and-mask 8 (w / 2 ^ k)

-- A register as the sum of its four bytes.
four_fields :
    (w : ℕ)
    → w < 2 ^ 32
    → w
      ≡ bit_xor
          (bit_xor (bit_xor (w % 256) (w / 2 ^ 8 % 256 * 2 ^ 8)) (w / 2 ^ 16 % 256 * 2 ^ 16))
          (w / 2 ^ 24 % 256 * 2 ^ 24)
four_fields w h =
    let two : bit_xor (w % 256) (w / 2 ^ 8 % 256 * 2 ^ 8) ≡ w % 2 ^ 16 =
      xor-shift 8 (w % 256) (w / 2 ^ 8 % 256) (omega arith) ∙ omega arith in
    let three : bit_xor (w % 2 ^ 16) (w / 2 ^ 16 % 256 * 2 ^ 16) ≡ w % 2 ^ 24 =
      xor-shift 16 (w % 2 ^ 16) (w / 2 ^ 16 % 256) (omega arith) ∙ omega arith in
    let four : bit_xor (w % 2 ^ 24) (w / 2 ^ 24 % 256 * 2 ^ 24) ≡ w =
      xor-shift 24 (w % 2 ^ 24) (w / 2 ^ 24 % 256) (omega arith) ∙ omega arith in
    rw (two, three, four)

-- 64 bits through a register of 32 take its four bytes through the tables 7 to 4.
pub word_bytes :
    (w : ℕ)
    → w < 2 ^ 32
    → shift_bits 64 w
      ≡ bit_xor
          (bit_xor
            (bit_xor (entry slice_7 (bit_and w 0xff)) (entry slice_6 (bit_and (w / 2 ^ 8) 0xff)))
            (entry slice_5 (bit_and (w / 2 ^ 16) 0xff)))
          (entry slice_4 (bit_and (w / 2 ^ 24) 0xff))
word_bytes w h =
    ap (shift_bits 64) (four_fields w h)
    ∙ simp shift_bits-xor (
        ap₂ bit_xor
          (ap₂ bit_xor
            (ap₂ bit_xor
              (sym
                (ap (entry slice_7) (bit_and-mask 8 w) ∙ TableLaws.slice_7-entry _ (omega arith)))
              (drain 8 56 _
                ∙ sym (ap (entry slice_6) (byte_of 8 w) ∙ TableLaws.slice_6-entry _ (omega arith))))
            (drain 16 48 _
              ∙ sym (ap (entry slice_5) (byte_of 16 w) ∙ TableLaws.slice_5-entry _ (omega arith))))
          (drain 24 40 _
            ∙ sym (ap (entry slice_4) (byte_of 24 w) ∙ TableLaws.slice_4-entry _ (omega arith))))

-- The last four bytes of a round, in turn.
pub last_bytes :
    (w e f g h : ℕ)
    → e < 256
    → f < 256
    → g < 256
    → h < 256
    → shift_bits 8 (
        bit_xor
          (shift_bits 8
            (bit_xor (shift_bits 8 (bit_xor (shift_bits 8 (bit_xor (shift_bits 32 w) e)) f)) g))
          h)
      ≡ bit_xor
          (bit_xor
            (bit_xor (bit_xor (shift_bits 64 w) (entry slice_3 e)) (entry slice_2 f))
            (entry slice_1 g))
          (entry slice_0 h)
last_bytes w e f g h he hf hg hh = simp (
  shift_bits-xor,
  ← shift_bits-add,
  TableLaws.slice_3-entry e he,
  TableLaws.slice_2-entry f hf,
  TableLaws.slice_1-entry g hg,
  TableLaws.slice_0-entry h hh,
)

-- Loading four bytes keeps the register within 32 bits.
pub load_word-lt :
    (crc a b c d : ℕ)
    → crc < 2 ^ 32
    → a < 256
    → b < 256
    → c < 256
    → d < 256
    → load_word crc a b c d < 2 ^ 32
unfolding load_word
load_word-lt crc a b c d h ha hb hc hd =
    let two = bit_or-shift 8 a b ha in
    let three = bit_or-shift 16 (bit_or a (b * 2 ^ 8)) c (omega arith) in
    let four = bit_or-shift 24 (bit_or (bit_or a (b * 2 ^ 8)) (c * 2 ^ 16)) d (omega arith) in
    xor-lt 32 crc _ h (omega arith)
