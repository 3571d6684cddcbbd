-- ===== src/SuperblockStore/Encoded.antt =====
-- What the update writes: a slot that a reader finds valid.
use shibadb.Codec.{write_u16_le, write_u32_le, write_u64_le, memcpy}
use shibadb.Bytes.Stores.{all_miss}
use shibadb.Status.{ok, err, invalid_argument}
use shibadb.Superblock.{
  Superblock, superblock_encode, validate_superblock, superblock_stores, header_auth,
}
use shibadb.Superblock.Fields
use shibadb.Superblock.Fields.{IsWide, image}
use shibadb.Superblock.Reserved.{any_nonzero-zeros}
use shibadb.Superblock.RoundTrip.{superblock_decode-image, superblock_encode-image}
use shibadb.SuperblockStore.{mirror, valid_slot, sign_slot, encode_slot, slot_padding_is_zero}
use shibadb.Prelude.{◌≡◌, ◌⊎◌, inl, inr, refl, ap, ◌∙◌, arith, none, some, true, false, Bool-cases}

module _ (sb : Superblock) (wide : IsWide sb) (plain : header_auth sb.flags ≡ false) where
  padding_zero : slot_padding_is_zero (image sb 4096) sb ≡ true
  unfolding slot_padding_is_zero
  padding_zero =
      rw
        (
          plain,
          any_nonzero-zeros 3936 160 (image sb 4096) (omega (arith, Fields.length-image sb 4096)) (
              Fields.image-body sb 4096 wide (omega arith) 160 3936
                (unfold all_miss write_u32_le in refl)
              ∙ Fields.body-zeros sb 4096 wide (omega arith) 160 3936
                  (unfold all_miss superblock_stores write_u16_le write_u32_le write_u64_le
                      memcpy in
                    refl)
                  (omega arith)),
        )
        refl

  pub mirror-image :
      validate_superblock (some sb) ≡ true
      → mirror (image sb 4096) ≡ some (record { slot_bytes = image sb 4096; decoded = sb })
  unfolding mirror valid_slot
  mirror-image valid =
      ap (valid_slot (image sb 4096)) (superblock_decode-image sb 4096 wide (omega arith) valid)
      ∙ rw padding_zero refl

  refused :
      validate_superblock (some sb) ≡ false
      → superblock_encode (some sb) true 4096 ≡ err invalid_argument
  unfolding superblock_encode
  refused invalid = rw invalid refl

  -- The encoder refuses the superblock, or writes its image.
  pub encode_slot-cases :
      (encode_slot sb none ≡ err invalid_argument)
      ⊎ ((encode_slot sb none ≡ ok (image sb 4096)) × (validate_superblock (some sb) ≡ true))
  unfolding encode_slot sign_slot
  encode_slot-cases = elim (Bool-cases (validate_superblock (some sb))) [
    | inl valid ↦ inr (
      ap (sign_slot sb.flags none) (superblock_encode-image sb 4096 wide (omega arith) valid)
          ∙ rw plain refl,
      valid,
    )
    | inr invalid ↦ inl (ap (sign_slot sb.flags none) (refused invalid))
  ]
