-- ===== src/Seal.antt =====
-- The checksum field that pages, WAL headers and commit records carry: the CRC of the whole with
-- that field read as zeros.
pub mod Detect
use native.Mathlib.Nat.{zero-add}
use shibadb.Bytes.{IsByte, slice, copy_to}
use shibadb.Bytes.Laws.{length-copy_to, zeros-IsByte}
use shibadb.Bytes.Stores.{
  Store, run, length-run, run-IsByte, FitsIn, HasBytes, slice-run_miss, slice-run_hit, all_miss,
  found,
}
use shibadb.Bytes.Tiles.{slice-all, eq_of_agree}
use shibadb.Codec.{read_u32_le, write_u32_le}
use shibadb.Codec.RoundTrip.{write_u32-IsByte}
use shibadb.Codec.Buffers.{read_u32-stored, write_u32-read}
use shibadb.Crc.{crc32_zeroed_range, crc32}
use shibadb.Crc.Reference.{crc32_zeroed_range-lt, crc32_zeroed_range-cong}
use shibadb.Prelude.{
  ℕ, zero, suc, ◌+◌, ◌-◌, ◌<◌, ◌≤◌, ◌^◌, ◌≡◌, ◌⊎◌, inl, inr, refl, sym, ap, ◌∙◌, arith, List, [],
  ◌∷◌, All, true, take, drop, length, leb, ◌||◌,
}

-- Write the checksum into its field.
unfoldable pub seal : List ℕ → ℕ → List ℕ
seal body offset = run body (write_u32_le offset (crc32_zeroed_range body offset 4) ∷ [])

module _ (body : List ℕ) (offset : ℕ) (fits : offset + 4 ≤ length body) where
  store_fits : (v : ℕ) → All (FitsIn (length body)) (write_u32_le offset v ∷ [])
  store_fits v = unfold write_u32_le in ((refl, fits), tt)

  pub length-seal : length (seal body offset) ≡ length body
  unfolding seal
  length-seal = length-run body _

  -- Sealing changes nothing outside the field.
  pub slice-seal :
      (o n : ℕ)
      → (o + n ≤ offset) ⊎ (offset + 4 ≤ o)
      → slice (seal body offset) o n ≡ slice body o n
  unfolding seal
  slice-seal o n apart =
      slice-run_miss body _ o n (store_fits _) (unfold all_miss write_u32_le in ground arith)

  slice-front_seal : take offset (seal body offset) ≡ take offset body
  slice-front_seal = unfold slice in slice-seal 0 offset (inl (omega arith))

  slice-back_seal : drop (offset + 4) (seal body offset) ≡ drop (offset + 4) body
  slice-back_seal =
      sym (slice-all (seal body offset) (offset + 4) (length body) (omega (arith, length-seal)))
      ∙ slice-seal (offset + 4) (length body) (inr (omega arith))
      ∙ slice-all body (offset + 4) (length body) (omega arith)

  pub crc-seal : crc32_zeroed_range (seal body offset) offset 4 ≡ crc32_zeroed_range body offset 4
  crc-seal =
      crc32_zeroed_range-cong (seal body offset) body offset 4 length-seal slice-front_seal
        slice-back_seal

  pub field-seal :
      slice (seal body offset) offset 4
      ≡ (write_u32_le offset (crc32_zeroed_range body offset 4)).bytes
  field-seal =
      unfold seal in
      slice-run_hit body _ offset 4 (store_fits _)
        (unfold found all_miss write_u32_le in ground arith)

  -- What a reader finds in the field is the checksum that it computes.
  pub read-seal :
      All IsByte body
      → read_u32_le (drop offset (seal body offset))
        ≡ crc32_zeroed_range (seal body offset) offset 4
  read-seal bytes =
      read_u32-stored (seal body offset) offset offset (crc32_zeroed_range body offset 4) field-seal
        (crc32_zeroed_range-lt body offset 4 bytes)
      ∙ sym crc-seal

  pub seal-IsByte : All IsByte body → All IsByte (seal body offset)
  unfolding seal
  seal-IsByte bytes = run-IsByte body _ bytes (write_u32-IsByte offset _, tt)

-- A buffer whose field holds its checksum is the seal of any body that agrees with it elsewhere.
pub seal-eq_of_agree :
    (body page : List ℕ) (offset : ℕ)
    → offset + 4 ≤ length page
    → All IsByte page
    → length body ≡ length page
    → slice body 0 offset ≡ slice page 0 offset
    → drop (offset + 4) body ≡ drop (offset + 4) page
    → read_u32_le (drop offset page) ≡ crc32_zeroed_range page offset 4
    → seal body offset ≡ page
unfolding seal
seal-eq_of_agree body page offset fits bytes len front back check =
    eq_of_agree (seal body offset) page (offset ∷ 4 ∷ (length page - (offset + 4)) ∷ [])
      (omega (arith, length-seal body offset fits')) (omega arith)
      (rw zero-add
        (slice-seal body offset fits' 0 offset (inl (omega arith)) ∙ front, (field, (rest, tt))))
  where
    fits' : offset + 4 ≤ length body
    fits' = omega arith

    same_crc : crc32_zeroed_range body offset 4 ≡ read_u32_le (drop offset page)
    same_crc =
        crc32_zeroed_range-cong body page offset 4 len (unfold slice in front) back ∙ sym check

    field : slice (seal body offset) offset 4 ≡ slice page offset 4
    field =
        field-seal body offset fits'
        ∙ ap (λ v. (write_u32_le offset v).bytes) same_crc
        ∙ write_u32-read page offset offset bytes fits

    rest :
        slice (seal body offset) (offset + 4) (length page - (offset + 4))
        ≡ slice page (offset + 4) (length page - (offset + 4))
    rest =
        slice-seal body offset fits' (offset + 4) (length page - (offset + 4)) (inr (omega arith))
        ∙ unfold slice in ap (take (length page - (offset + 4))) back
