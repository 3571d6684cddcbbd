-- ===== src/Seal/Detect.antt =====
-- A sealed buffer with one byte changed, wherever it is, is not sealed any more.
use mathlib.Core.List.{append_assoc}
use native.Mathlib.Nat.{zero-add}
use shibadb.Bytes.{IsByte, slice}
use shibadb.Bytes.Tiles.{eq_of_agree}
use shibadb.Codec.{read_u32_le, write_u32_le}
use shibadb.Codec.Buffers.{read_u32-slice, write_u32-read}
use shibadb.Crc.{crc32, crc32_zeroed_range}
use shibadb.Crc.Reference.{zero_out, crc32_zeroed_range-eq-crc32, crc32_zeroed_range-cong}
use shibadb.Crc.Detect.{crc32-injective_byte}
use shibadb.Prelude.{
  ℕ, suc, ◌+◌, ◌-◌, ◌<◌, ◌≤◌, ◌≡◌, refl, sym, ap, ap₂, ◌∙◌, ◌⊎◌, inl, inr, arith, List, [], ◌∷◌,
  ◌++◌, All, All-append, All-take, All-drop, All-replicate, take, drop, replicate, length,
  length-append, length-drop, take-append_cons, drop-append_cons, take-append_le, drop-append_le,
  dec_lt, get_or, ◌≢◌, split_at, set_split, set, All-get_or,
}

-- The whole buffer with its one byte singled out.
module _ (front back : List ℕ) where
  abbrev pub whole : ℕ → List ℕ
  whole a = front ++ (a ∷ back)

  pub length-whole : (a : ℕ) → length (whole a) ≡ length front + suc (length back)
  length-whole a = length-append front (a ∷ back)

module _ (front back : List ℕ) (offset n : ℕ) where
  -- The byte stands before the range.
  zero_out_before :
      length front < offset
      → (a : ℕ)
      → zero_out (whole front back a) offset n
        ≡ front
          ++ (a
              ∷ (take (offset - suc (length front)) back
                  ++ (replicate n 0 ++ drop (offset + n - suc (length front)) back)))
  zero_out_before h a =
      ap₂ (λ r s. r ++ (replicate n 0 ++ s)) (take-append_cons offset front a back h)
        (drop-append_cons (offset + n) front a back (omega arith))
      ∙ append_assoc front (a ∷ take (offset - suc (length front)) back) _

  -- The byte stands behind the range.
  zero_out_behind :
      offset + n ≤ length front
      → (a : ℕ)
      → zero_out (whole front back a) offset n
        ≡ (take offset front ++ (replicate n 0 ++ drop (offset + n) front)) ++ (a ∷ back)
  zero_out_behind h a =
      ap₂ (λ r s. r ++ (replicate n 0 ++ s)) (take-append_le offset front (a ∷ back) (omega arith))
        (drop-append_le (offset + n) front (a ∷ back) h)
      ∙ ap (λ r. take offset front ++ r)
          (sym (append_assoc (replicate n 0) (drop (offset + n) front) (a ∷ back)))
      ∙ sym (append_assoc (take offset front) (replicate n 0 ++ drop (offset + n) front) (a ∷ back))

  module _ (hf : All IsByte front) (hk : All IsByte back) where
    blank : All IsByte (replicate n 0)
    blank = All-replicate IsByte n 0 (omega arith)

    bytes : (a : ℕ) → IsByte a → All IsByte (whole front back a)
    bytes a h = All-append IsByte front (a ∷ back) hf (h, hk)

    crc-whole :
        (a : ℕ)
        → IsByte a
        → offset + n ≤ length front + suc (length back)
        → crc32_zeroed_range (whole front back a) offset n
          ≡ crc32 (zero_out (whole front back a) offset n)
    crc-whole a ha fits =
        crc32_zeroed_range-eq-crc32 (whole front back a) offset n (bytes a ha)
        ∙ ground (arith, length-whole front back a)

    -- A change of one byte outside the range changes the checksum around the range.
    crc32_zeroed_range_detects_byte :
        (a b : ℕ)
        → IsByte a
        → IsByte b
        → offset + n ≤ length front + suc (length back)
        → (length front < offset) ⊎ (offset + n ≤ length front)
        → crc32_zeroed_range (whole front back a) offset n
          ≡ crc32_zeroed_range (whole front back b) offset n
        → a ≡ b
    crc32_zeroed_range_detects_byte a b ha hb fits (inl before) e =
        crc32-injective_byte front _ a b hf
          (All-append IsByte (take (offset - suc (length front)) back) _ (All-take IsByte _ back hk)
            (All-append IsByte (replicate n 0) _ blank (All-drop IsByte _ back hk)))
          ha hb
          (sym (ap crc32 (zero_out_before before a))
            ∙ sym (crc-whole a ha fits)
            ∙ e
            ∙ crc-whole b hb fits
            ∙ ap crc32 (zero_out_before before b))
    crc32_zeroed_range_detects_byte a b ha hb fits (inr behind) e =
        crc32-injective_byte (take offset front ++ (replicate n 0 ++ drop (offset + n) front)) back
          a b
          (All-append IsByte (take offset front) _ (All-take IsByte offset front hf)
            (All-append IsByte (replicate n 0) _ blank (All-drop IsByte (offset + n) front hf)))
          hk ha hb
          (sym (ap crc32 (zero_out_behind behind a))
            ∙ sym (crc-whole a ha fits)
            ∙ e
            ∙ crc-whole b hb fits
            ∙ ap crc32 (zero_out_behind behind b))

get_or-middle :
    (front : List ℕ) (a : ℕ) (back : List ℕ) → get_or (front ++ (a ∷ back)) (length front) 0 ≡ a
get_or-middle [] a back = refl
get_or-middle (x ∷ front) a back = get_or-middle front a back

-- The buffer carries, at `offset`, its own checksum.
abbrev pub IsSealed : List ℕ → ℕ → Type 0
IsSealed page offset = read_u32_le (drop offset page) ≡ crc32_zeroed_range page offset 4

module _ (front back : List ℕ) (offset a b : ℕ) (hf : All IsByte front) (hk : All IsByte back)
    (ha : IsByte a) (hb : IsByte b) (fits : offset + 4 ≤ length front + suc (length back))
    (sealed_a : IsSealed (front ++ (a ∷ back)) offset)
    (sealed_b : IsSealed (front ++ (b ∷ back)) offset) where
  -- Outside the field both read the same checksum.
  outside :
      (length front < offset) ⊎ (offset + 4 ≤ length front)
      → slice (whole front back a) offset 4 ≡ slice (whole front back b) offset 4
      → a ≡ b
  outside apart same =
      crc32_zeroed_range_detects_byte front back offset 4 hf hk a b ha hb fits apart (
        sym sealed_a
        ∙ read_u32-slice (whole front back a) offset
        ∙ ap read_u32_le same
        ∙ sym (read_u32-slice (whole front back b) offset)
        ∙ sealed_b)

  -- Inside the field both compute the same checksum, so the fields are the same bytes.
  inside : offset ≤ length front → length front < offset + 4 → a ≡ b
  inside lo hi =
      sym (get_or-middle front a back)
      ∙ ap (λ xs. get_or xs (length front) 0)
          (eq_of_agree (whole front back a) (whole front back b)
            (offset ∷ 4 ∷ (length front + suc (length back)) ∷ [])
            (omega (arith, length-whole front back a)) (omega (arith, length-whole front back b))
            (rw zero-add (unfold slice in heads, (field, (unfold slice in ap (take _) tails, tt)))))
      ∙ get_or-middle front b back
    where
      heads : take offset (whole front back a) ≡ take offset (whole front back b)
      heads =
          take-append_le offset front (a ∷ back) lo
          ∙ sym (take-append_le offset front (b ∷ back) lo)

      tails : drop (offset + 4) (whole front back a) ≡ drop (offset + 4) (whole front back b)
      tails =
          drop-append_cons (offset + 4) front a back hi
          ∙ sym (drop-append_cons (offset + 4) front b back hi)

      same_crc :
          crc32_zeroed_range (whole front back a) offset 4
          ≡ crc32_zeroed_range (whole front back b) offset 4
      same_crc =
          crc32_zeroed_range-cong (whole front back a) (whole front back b) offset 4
            (length-whole front back a ∙ sym (length-whole front back b)) heads tails

      field : slice (whole front back a) offset 4 ≡ slice (whole front back b) offset 4
      field =
          sym (
            write_u32-read (whole front back a) offset 0
              (All-append IsByte front (a ∷ back) hf (ha, hk))
              (omega (arith, length-whole front back a)))
          ∙ ap (λ v. (write_u32_le 0 v).bytes) (sealed_a ∙ same_crc ∙ sym sealed_b)
          ∙ write_u32-read (whole front back b) offset 0
              (All-append IsByte front (b ∷ back) hf (hb, hk))
              (omega (arith, length-whole front back b))

  -- Two sealed buffers that differ in at most one byte are the same.
  pub seal_detects_byte : a ≡ b
  seal_detects_byte = elim (dec_lt (length front) offset) [
    | yes before ↦ outside (inl before) (same_before before)
    | no late ↦ elim (dec_lt (length front) (offset + 4)) [
      | yes within ↦ inside (omega arith) within
      | no behind ↦ outside (inr (omega arith)) (same_behind (omega arith))
    ]
  ]
    where
      same_before :
          length front < offset
          → slice (whole front back a) offset 4 ≡ slice (whole front back b) offset 4
      same_before h =
          unfold slice in
          ap (take 4)
            (drop-append_cons offset front a back h ∙ sym (drop-append_cons offset front b back h))

      fixed :
          offset + 4 ≤ length front
          → (c : ℕ) → take 4 (drop offset (front ++ (c ∷ back))) ≡ take 4 (drop offset front)
      fixed h c =
          ap (take 4) (drop-append_le offset front (c ∷ back) (omega arith))
          ∙ take-append_le 4 (drop offset front) (c ∷ back)
              (omega (arith, length-drop offset front))

      same_behind :
          offset + 4 ≤ length front
          → slice (whole front back a) offset 4 ≡ slice (whole front back b) offset 4
      same_behind h = unfold slice in fixed h a ∙ sym (fixed h b)

-- A sealed buffer with another byte put at any one place is not sealed.
pub set-IsSealed :
    (page : List ℕ) (offset i b : ℕ)
    → All IsByte page
    → IsByte b
    → offset + 4 ≤ length page
    → i < length page
    → b ≢ get_or page i 0
    → IsSealed page offset
    → ¬ IsSealed (set page i b) offset
set-IsSealed page offset i b bytes hb fits within other sealed sealed' = other (
    sym (
      seal_detects_byte (take i page) (drop (suc i) page) offset (get_or page i 0) b
        (All-take IsByte i page bytes) (All-drop IsByte (suc i) page bytes)
        (All-get_or IsByte page i 0 bytes (omega arith)) hb
        (omega (
          arith,
          ap length whole,
          length-append (take i page) (get_or page i 0 ∷ drop (suc i) page),
        ))
        (rw whole at sealed) (rw (set_split i page b within) at sealed')))
  where
    whole : page ≡ take i page ++ (get_or page i 0 ∷ drop (suc i) page)
    whole = split_at i page 0 within
