-- ===== src/Codec/Buffers.antt =====
-- Fields of a buffer: an integer that was stored is read back, and an integer that was read is
-- stored as the bytes that were there.
use shibadb.Bytes.{IsByte, slice}
use shibadb.Bytes.Laws.{length-slice, slice-IsByte}
use shibadb.Codec.{read_u16_le, read_u32_le, read_u64_le, write_u16_le, write_u32_le, write_u64_le}
use shibadb.Codec.RoundTrip.{
  value_of, read_u16-value, read_u32-value, read_u64-value, write_u16-bytes, write_u32-bytes,
  write_u64-bytes,
}
use shibadb.Prelude.{
  ℕ, ◌+◌, ◌^◌, ◌<◌, ◌≤◌, ◌≡◌, refl, ap, ◌∙◌, arith, List, [], ◌∷◌, All, take, drop, length,
}

module _ where
  read_u16-take : (xs : List ℕ) → read_u16_le xs ≡ read_u16_le (take 2 xs)
  unfolding read_u16_le
  read_u16-take [] = refl
  read_u16-take (a ∷ []) = refl
  read_u16-take (a ∷ b ∷ xs) = refl

  read_u32-take : (xs : List ℕ) → read_u32_le xs ≡ read_u32_le (take 4 xs)
  unfolding read_u32_le
  read_u32-take [] = refl
  read_u32-take (a ∷ []) = refl
  read_u32-take (a ∷ b ∷ []) = refl
  read_u32-take (a ∷ b ∷ c ∷ []) = refl
  read_u32-take (a ∷ b ∷ c ∷ d ∷ xs) = refl

  read_u64-take : (xs : List ℕ) → read_u64_le xs ≡ read_u64_le (take 8 xs)
  unfolding read_u64_le
  read_u64-take [] = refl
  read_u64-take (a ∷ []) = refl
  read_u64-take (a ∷ b ∷ []) = refl
  read_u64-take (a ∷ b ∷ c ∷ []) = refl
  read_u64-take (a ∷ b ∷ c ∷ d ∷ []) = refl
  read_u64-take (a ∷ b ∷ c ∷ d ∷ e ∷ []) = refl
  read_u64-take (a ∷ b ∷ c ∷ d ∷ e ∷ f ∷ []) = refl
  read_u64-take (a ∷ b ∷ c ∷ d ∷ e ∷ f ∷ g ∷ []) = refl
  read_u64-take (a ∷ b ∷ c ∷ d ∷ e ∷ f ∷ g ∷ h ∷ xs) = refl

-- A read sees only the bytes of its width.
pub read_u16-slice :
    (buffer : List ℕ) (o : ℕ) → read_u16_le (drop o buffer) ≡ read_u16_le (slice buffer o 2)
unfolding slice
read_u16-slice buffer o = read_u16-take (drop o buffer)

pub read_u32-slice :
    (buffer : List ℕ) (o : ℕ) → read_u32_le (drop o buffer) ≡ read_u32_le (slice buffer o 4)
unfolding slice
read_u32-slice buffer o = read_u32-take (drop o buffer)

pub read_u64-slice :
    (buffer : List ℕ) (o : ℕ) → read_u64_le (drop o buffer) ≡ read_u64_le (slice buffer o 8)
unfolding slice
read_u64-slice buffer o = read_u64-take (drop o buffer)

module _ (buffer : List ℕ) (o p v : ℕ) where
  pub read_u16-stored :
      slice buffer o 2 ≡ (write_u16_le p v).bytes → v < 2 ^ 16 → read_u16_le (drop o buffer) ≡ v
  unfolding slice value_of
  read_u16-stored e h =
      read_u16-take (drop o buffer)
      ∙ ap read_u16_le (e ∙ write_u16-bytes p v)
      ∙ read_u16-value _ _ [] (omega arith)
      ∙ omega arith

  pub read_u32-stored :
      slice buffer o 4 ≡ (write_u32_le p v).bytes → v < 2 ^ 32 → read_u32_le (drop o buffer) ≡ v
  unfolding slice value_of
  read_u32-stored e h =
      read_u32-take (drop o buffer)
      ∙ ap read_u32_le (e ∙ write_u32-bytes p v)
      ∙ read_u32-value _ _ _ _ [] (omega arith)
      ∙ omega arith

  pub read_u64-stored :
      slice buffer o 8 ≡ (write_u64_le p v).bytes → v < 2 ^ 64 → read_u64_le (drop o buffer) ≡ v
  unfolding slice value_of
  read_u64-stored e h =
      read_u64-take (drop o buffer)
      ∙ ap read_u64_le (e ∙ write_u64-bytes p v)
      ∙ read_u64-value _ _ _ _ _ _ _ _ [] (omega arith)
      ∙ omega arith

-- Reading and storing again gives the same bytes.
write_u16-read_bytes :
    (p : ℕ) (xs : List ℕ)
    → length xs ≡ 2
    → All IsByte xs
    → (write_u16_le p (read_u16_le xs)).bytes ≡ xs
unfolding value_of
write_u16-read_bytes p [] e h = absurd (omega arith)
write_u16-read_bytes p (a ∷ []) e h = absurd (omega arith)
write_u16-read_bytes p (a ∷ b ∷ c ∷ xs) e h = absurd (omega arith)
write_u16-read_bytes p (a ∷ b ∷ []) e (ha, (hb, _)) =
    write_u16-bytes p (read_u16_le (a ∷ b ∷ [])) ∙ ground (arith, read_u16-value a b [] ha)

write_u32-read_bytes :
    (p : ℕ) (xs : List ℕ)
    → length xs ≡ 4
    → All IsByte xs
    → (write_u32_le p (read_u32_le xs)).bytes ≡ xs
unfolding value_of
write_u32-read_bytes p (a ∷ b ∷ c ∷ d ∷ []) e h =
    write_u32-bytes p (read_u32_le (a ∷ b ∷ c ∷ d ∷ []))
    ∙ ground (arith, read_u32-value a b c d [] h)
write_u32-read_bytes p xs e h = absurd (omega arith)

write_u64-read_bytes :
    (p : ℕ) (xs : List ℕ)
    → length xs ≡ 8
    → All IsByte xs
    → (write_u64_le p (read_u64_le xs)).bytes ≡ xs
unfolding value_of
write_u64-read_bytes p (a ∷ b ∷ c ∷ d ∷ e ∷ f ∷ g ∷ h ∷ []) n bytes =
    write_u64-bytes p (read_u64_le (a ∷ b ∷ c ∷ d ∷ e ∷ f ∷ g ∷ h ∷ []))
    ∙ ground (arith, read_u64-value a b c d e f g h [] bytes)
write_u64-read_bytes p xs n bytes = absurd (omega arith)

module _ (buffer : List ℕ) (o p : ℕ) (bytes : All IsByte buffer) where
  pub write_u16-read :
      o + 2 ≤ length buffer
      → (write_u16_le p (read_u16_le (drop o buffer))).bytes ≡ slice buffer o 2
  write_u16-read h =
      ap (λ v. (write_u16_le p v).bytes) (read_u16-slice buffer o)
      ∙ write_u16-read_bytes p (slice buffer o 2) (length-slice buffer o 2 h)
          (slice-IsByte buffer o 2 bytes)

  pub write_u32-read :
      o + 4 ≤ length buffer
      → (write_u32_le p (read_u32_le (drop o buffer))).bytes ≡ slice buffer o 4
  write_u32-read h =
      ap (λ v. (write_u32_le p v).bytes) (read_u32-slice buffer o)
      ∙ write_u32-read_bytes p (slice buffer o 4) (length-slice buffer o 4 h)
          (slice-IsByte buffer o 4 bytes)

  pub write_u64-read :
      o + 8 ≤ length buffer
      → (write_u64_le p (read_u64_le (drop o buffer))).bytes ≡ slice buffer o 8
  write_u64-read h =
      ap (λ v. (write_u64_le p v).bytes) (read_u64-slice buffer o)
      ∙ write_u64-read_bytes p (slice buffer o 8) (length-slice buffer o 8 h)
          (slice-IsByte buffer o 8 bytes)

-- What is read fits the width.
read_u16-bytes_lt : (xs : List ℕ) → length xs ≡ 2 → All IsByte xs → read_u16_le xs < 2 ^ 16
unfolding value_of
read_u16-bytes_lt (a ∷ b ∷ []) e bytes = omega (arith, read_u16-value a b [] bytes.0)
read_u16-bytes_lt [] e bytes = absurd (omega arith)
read_u16-bytes_lt (a ∷ []) e bytes = absurd (omega arith)
read_u16-bytes_lt (a ∷ b ∷ c ∷ xs) e bytes = absurd (omega arith)

read_u32-bytes_lt : (xs : List ℕ) → length xs ≡ 4 → All IsByte xs → read_u32_le xs < 2 ^ 32
unfolding value_of
read_u32-bytes_lt (a ∷ b ∷ c ∷ d ∷ []) e bytes = omega (arith, read_u32-value a b c d [] bytes)
read_u32-bytes_lt xs e bytes = absurd (omega arith)

read_u64-bytes_lt : (xs : List ℕ) → length xs ≡ 8 → All IsByte xs → read_u64_le xs < 2 ^ 64
unfolding value_of
read_u64-bytes_lt (a ∷ b ∷ c ∷ d ∷ e ∷ f ∷ g ∷ h ∷ []) n bytes =
    omega (arith, read_u64-value a b c d e f g h [] bytes)
read_u64-bytes_lt xs e bytes = absurd (omega arith)

module _ (buffer : List ℕ) (o : ℕ) (bytes : All IsByte buffer) where
  pub read_u16-lt : o + 2 ≤ length buffer → read_u16_le (drop o buffer) < 2 ^ 16
  read_u16-lt h = rw read_u16-slice (
      read_u16-bytes_lt (slice buffer o 2) (length-slice buffer o 2 h)
        (slice-IsByte buffer o 2 bytes))

  pub read_u32-lt : o + 4 ≤ length buffer → read_u32_le (drop o buffer) < 2 ^ 32
  read_u32-lt h = rw read_u32-slice (
      read_u32-bytes_lt (slice buffer o 4) (length-slice buffer o 4 h)
        (slice-IsByte buffer o 4 bytes))

  pub read_u64-lt : o + 8 ≤ length buffer → read_u64_le (drop o buffer) < 2 ^ 64
  read_u64-lt h = rw read_u64-slice (
      read_u64-bytes_lt (slice buffer o 8) (length-slice buffer o 8 h)
        (slice-IsByte buffer o 8 bytes))
