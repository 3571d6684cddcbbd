-- ===== src/Codec/RoundTrip.antt =====
-- Little-endian integers: the value that is read, and writing and reading as inverses.
use shibadb.Bits.{bit_or-shift, bit_and-mask}
use shibadb.Bytes.{IsByte}
use shibadb.Codec.{read_u16_le, read_u32_le, read_u64_le, write_u16_le, write_u32_le, write_u64_le}
use shibadb.Prelude.{ℕ, ◌+◌, ◌*◌, ◌/◌, ◌%◌, ◌^◌, ◌≡◌, arith, List, [], ◌∷◌, All, bit_or, bit_and}

-- The value of a little-endian field.
unfoldable pub value_of : List ℕ → ℕ
value_of [] = 0
value_of (b ∷ bytes) = b + 256 * value_of bytes

pub read_u16-value :
    (a b : ℕ) (rest : List ℕ) → IsByte a → read_u16_le (a ∷ b ∷ rest) ≡ value_of (a ∷ b ∷ [])
unfolding read_u16_le value_of
read_u16-value a b rest ha = omega (arith, bit_or-shift 8 a b ha)

pub read_u32-value :
    (a b c d : ℕ) (rest : List ℕ)
    → All IsByte (a ∷ b ∷ c ∷ d ∷ [])
    → read_u32_le (a ∷ b ∷ c ∷ d ∷ rest) ≡ value_of (a ∷ b ∷ c ∷ d ∷ [])
unfolding read_u32_le value_of
read_u32-value a b c d rest (ha, (hb, (hc, _))) =
    let two = bit_or-shift 8 a b ha in
    let three = bit_or-shift 16 (bit_or a (b * 2 ^ 8)) c (omega arith) in
    let four = bit_or-shift 24 (bit_or (bit_or a (b * 2 ^ 8)) (c * 2 ^ 16)) d (omega arith) in
    omega arith

pub read_u64-value :
    (a b c d e f g h : ℕ) (rest : List ℕ)
    → All IsByte (a ∷ b ∷ c ∷ d ∷ e ∷ f ∷ g ∷ h ∷ [])
    → read_u64_le (a ∷ b ∷ c ∷ d ∷ e ∷ f ∷ g ∷ h ∷ rest)
      ≡ value_of (a ∷ b ∷ c ∷ d ∷ e ∷ f ∷ g ∷ h ∷ [])
unfolding read_u64_le value_of
read_u64-value a b c d e f g h rest (ha, (hb, (hc, (hd, (he, (hf, (hg, (hh, _)))))))) =
    let v1 : ℕ = bit_or 0 (a * 2 ^ 0) in
    let v2 : ℕ = bit_or v1 (b * 2 ^ 8) in
    let v3 : ℕ = bit_or v2 (c * 2 ^ 16) in
    let v4 : ℕ = bit_or v3 (d * 2 ^ 24) in
    let v5 : ℕ = bit_or v4 (e * 2 ^ 32) in
    let v6 : ℕ = bit_or v5 (f * 2 ^ 40) in
    let v7 : ℕ = bit_or v6 (g * 2 ^ 48) in
    let s1 = bit_or-shift 0 0 a (omega arith) in
    let s2 = bit_or-shift 8 v1 b (omega arith) in
    let s3 = bit_or-shift 16 v2 c (omega arith) in
    let s4 = bit_or-shift 24 v3 d (omega arith) in
    let s5 = bit_or-shift 32 v4 e (omega arith) in
    let s6 = bit_or-shift 40 v5 f (omega arith) in
    let s7 = bit_or-shift 48 v6 g (omega arith) in
    let s8 = bit_or-shift 56 v7 h (omega arith) in omega arith

-- What the writers leave, byte by byte.
bit_and_byte : (v : ℕ) → bit_and v 255 ≡ v % 256
bit_and_byte v = bit_and-mask 8 v

shift_none : (v : ℕ) → v / 2 ^ 0 ≡ v
shift_none v = omega arith

pub write_u16-bytes : (o v : ℕ) → (write_u16_le o v).bytes ≡ v % 256 ∷ v / 2 ^ 8 % 256 ∷ []
unfolding write_u16_le
write_u16-bytes o v = simp bit_and_byte

pub write_u32-bytes :
    (o v : ℕ)
    → (write_u32_le o v).bytes
      ≡ v % 256 ∷ v / 2 ^ 8 % 256 ∷ v / 2 ^ 16 % 256 ∷ v / 2 ^ 24 % 256 ∷ []
unfolding write_u32_le
write_u32-bytes o v = simp (bit_and_byte, shift_none)

pub write_u64-bytes :
    (o v : ℕ)
    → (write_u64_le o v).bytes
      ≡ v % 256
        ∷ v / 2 ^ 8 % 256
        ∷ v / 2 ^ 16 % 256
        ∷ v / 2 ^ 24 % 256
        ∷ v / 2 ^ 32 % 256
        ∷ v / 2 ^ 40 % 256
        ∷ v / 2 ^ 48 % 256
        ∷ v / 2 ^ 56 % 256
        ∷ []
unfolding write_u64_le
write_u64-bytes o v = simp (bit_and_byte, shift_none)

pub write_u16-IsByte : (o v : ℕ) → All IsByte (write_u16_le o v).bytes
write_u16-IsByte o v = rw write_u16-bytes (omega arith)

pub write_u32-IsByte : (o v : ℕ) → All IsByte (write_u32_le o v).bytes
write_u32-IsByte o v = rw write_u32-bytes (omega arith)

pub write_u64-IsByte : (o v : ℕ) → All IsByte (write_u64_le o v).bytes
write_u64-IsByte o v = rw write_u64-bytes (omega arith)
