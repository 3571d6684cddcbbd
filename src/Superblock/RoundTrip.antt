-- ===== src/Superblock/RoundTrip.antt =====
-- A superblock that is written is read back.
use shibadb.Bytes.{IsByte, slice, zeros}
use shibadb.Bytes.Laws.{length-zeros, length-slice, same_bytes_refl, slice-take}
use shibadb.Bytes.Stores.{run, length-run, FitsIn, all_miss, found, slice-run_miss, slice-run_hit}
use shibadb.Bytes.Tiles.{eq_of_agree}
use shibadb.Codec.{write_u16_le, write_u32_le, write_u64_le, memcpy, read_u32_le}
use shibadb.Codec.Buffers.{read_u16-stored, read_u32-stored, read_u64-stored}
use shibadb.Crc.{crc32}
use shibadb.Crc.Reference.{crc32-lt}
use shibadb.Status.{ok}
use shibadb.Superblock.{
  Superblock, superblock_encode, superblock_decode, validate_superblock, decoded, superblock_stores,
}
use shibadb.Superblock.Fields
use shibadb.Superblock.Fields.{IsWide, body, image}
use shibadb.Superblock.Reserved.{any_nonzero-zeros}
use shibadb.Prelude.{
  ℕ, ◌+◌, ◌≤◌, ◌≡◌, refl, sym, ◌∙◌, arith, List, [], ◌∷◌, All, All-take, take, drop, length,
  length-take, some, true, le→ltb, ==_refl,
}

module _ (sb : Superblock) (n : ℕ) (wide : IsWide sb) (big : 160 ≤ n) where
  abbrev header : List ℕ
  header = slice (image sb n) 0 160

  length-header : length header ≡ 160
  length-header = length-slice (image sb n) 0 160 (omega (arith, Fields.length-image sb n))

  clear-FitsIn : All (FitsIn (length header)) (memcpy 88 4 (zeros 4) ∷ [])
  clear-FitsIn = unfold memcpy in rw length-header (omega (arith, length-zeros 4))

  header-slice : (o k : ℕ) → o + k ≤ 160 → slice header o k ≡ slice (image sb n) o k
  header-slice o k h = unfold slice in slice-take (image sb n) 160 o k h

  -- Clearing the field gives back what the checksum was computed over.
  cleared-eq : run header (memcpy 88 4 (zeros 4) ∷ []) ≡ take 160 (body sb n)
  cleared-eq =
      eq_of_agree (run header (memcpy 88 4 (zeros 4) ∷ [])) (take 160 (body sb n))
        (88 ∷ 4 ∷ 68 ∷ [])
        (omega (arith, length-run header (memcpy 88 4 (zeros 4) ∷ []), length-header))
        (omega (arith, length-take 160 (body sb n)))
        (
          outside 0 88 (unfold all_miss memcpy in refl) (unfold all_miss write_u32_le in refl)
              (omega arith),
          (
            at_field,
            (
              outside 92 68 (unfold all_miss memcpy in refl) (unfold all_miss write_u32_le in refl)
                  (omega arith),
              tt,
            ),
          ),
        )
    where
      outside :
          (o k : ℕ)
          → all_miss (memcpy 88 4 (zeros 4) ∷ []) o k ≡ true
          → all_miss (write_u32_le 88 (crc32 (take 160 (body sb n))) ∷ []) o k ≡ true
          → o + k ≤ 160
          → slice (run header (memcpy 88 4 (zeros 4) ∷ [])) o k ≡ slice (take 160 (body sb n)) o k
      outside o k apart apart' inside =
          slice-run_miss header _ o k clear-FitsIn apart
          ∙ header-slice o k inside
          ∙ Fields.image-body sb n wide big o k apart'
          ∙ sym (slice-take (body sb n) 160 o k inside)

      written : slice (run header (memcpy 88 4 (zeros 4) ∷ [])) 88 4 ≡ zeros 4
      written =
          slice-run_hit header (memcpy 88 4 (zeros 4) ∷ []) 88 4 clear-FitsIn
            (unfold found all_miss memcpy in refl)

      at_field :
          slice (run header (memcpy 88 4 (zeros 4) ∷ [])) 88 4 ≡ slice (take 160 (body sb n)) 88 4
      at_field =
          written
          ∙ sym (
              slice-take (body sb n) 160 88 4 (omega arith)
              ∙ Fields.body-zeros sb n wide big 88 4
                  (unfold all_miss superblock_stores write_u16_le write_u32_le write_u64_le
                      memcpy in
                    refl)
                  (omega arith))

  -- The record that the decoder reads is the one that was encoded.
  decoded-image : decoded (image sb n) ≡ sb
  unfolding decoded
  decoded-image =
      rw
        (
          read_u32-stored (image sb n) 12 12 sb.page_size (Fields.image-page_size sb n wide big)
              wide.page_size_fits,
          read_u32-stored (image sb n) 16 16 sb.flags (Fields.image-flags sb n wide big)
              wide.flags_fit,
          read_u64-stored (image sb n) 24 24 sb.generation (Fields.image-generation sb n wide big)
              wide.generation_fits,
          read_u64-stored (image sb n) 32 32 sb.checkpoint_lsn
              (Fields.image-checkpoint_lsn sb n wide big) wide.lsn_fits,
          read_u64-stored (image sb n) 40 40 sb.root_page (Fields.image-root_page sb n wide big)
              wide.root_fits,
          read_u64-stored (image sb n) 48 48 sb.freelist_page
              (Fields.image-freelist_page sb n wide big) wide.freelist_fits,
          read_u64-stored (image sb n) 92 92 sb.next_page_id
              (Fields.image-next_page_id sb n wide big) wide.next_fits,
          read_u32-stored (image sb n) 100 100 sb.key_wrap_id
              (Fields.image-key_wrap_id sb n wide big) wide.wrap_id_fits,
          read_u32-stored (image sb n) 104 104 sb.kdf_iterations
              (Fields.image-kdf_iterations sb n wide big) wide.iterations_fit,
          Fields.image-salt sb n wide big,
          Fields.image-file_id sb n wide big,
          Fields.image-wrapped_key sb n wide big,
          Fields.image-key_wrap_tag sb n wide big,
        )
        refl

  stored_checksum : read_u32_le (drop 88 header) ≡ crc32 (take 160 (body sb n))
  stored_checksum =
      read_u32-stored header 88 88 (crc32 (take 160 (body sb n)))
        (header-slice 88 4 (omega arith) ∙ Fields.image-checksum sb n wide big)
        (crc32-lt (take 160 (body sb n))
          (All-take IsByte 160 (body sb n) (Fields.body-IsByte sb n wide big)))

  -- A buffer that holds the encoded superblock decodes to it.
  pub superblock_decode-image :
      validate_superblock (some sb) ≡ true → superblock_decode (some (image sb n)) n ≡ ok sb
  unfolding superblock_decode
  superblock_decode-image valid =
      rw
        (
          le→ltb n 160 big,
          Fields.image-magic sb n wide big,
          same_bytes_refl,
          read_u16-stored (image sb n) 8 8 2 (Fields.image-version sb n wide big) (omega arith),
          read_u16-stored (image sb n) 10 10 160 (Fields.image-size sb n wide big) (omega arith),
          stored_checksum,
          cleared-eq,
          any_nonzero-zeros 4 20 (image sb n) (omega (arith, Fields.length-image sb n))
              (Fields.image-reserved_20 sb n wide big),
          any_nonzero-zeros 4 156 (image sb n) (omega (arith, Fields.length-image sb n))
              (Fields.image-reserved_156 sb n wide big),
          decoded-image,
          valid,
          ==_refl,
        )
        refl

  pub superblock_encode-image :
      validate_superblock (some sb) ≡ true → superblock_encode (some sb) true n ≡ ok (image sb n)
  unfolding superblock_encode
  superblock_encode-image valid = rw (valid, le→ltb n 160 big) refl

  -- A valid superblock whose fields fit their widths is encoded into any buffer that holds the header,
  -- and the buffer decodes to it.
  pub superblock_decode-encode :
      validate_superblock (some sb) ≡ true
      → (output : List ℕ) × (superblock_encode (some sb) true n ≡ ok output)
        × (superblock_decode (some output) n ≡ ok sb)
        × (length output ≡ n)
  superblock_decode-encode valid = (
    image sb n,
    superblock_encode-image valid,
    superblock_decode-image valid,
    Fields.length-image sb n,
  )
