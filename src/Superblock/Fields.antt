-- ===== src/Superblock/Fields.antt =====
-- What an encoded superblock holds at each field, before and after its checksum is written.
use shibadb.Bytes.{IsByte, slice, zeros}
use shibadb.Bytes.Laws.{length-zeros, slice-zeros, zeros-IsByte}
use shibadb.Bytes.Stores.{
  run, length-run, run-IsByte, FitsIn, HasBytes, all_miss, found, slice-run_miss, slice-run_hit,
}
use shibadb.Codec.{write_u16_le, write_u32_le, write_u64_le, memcpy}
use shibadb.Codec.RoundTrip.{write_u16-IsByte, write_u32-IsByte, write_u64-IsByte}
use shibadb.Crc.{crc32}
use shibadb.Superblock.{Superblock, superblock_stores, superblock_magic}
use shibadb.Prelude.{
  ℕ, ◌+◌, ◌^◌, ◌<◌, ◌≤◌, ◌≡◌, ◌∙◌, refl, arith, List, [], ◌∷◌, All, true, some, take, length,
}

-- Every field fits its width, and the arrays have their sizes.
pub record IsWide (sb : Superblock) : Type 0 where
  pub page_size_fits : sb.page_size < 2 ^ 32
  pub flags_fit : sb.flags < 2 ^ 32
  pub generation_fits : sb.generation < 2 ^ 64
  pub lsn_fits : sb.checkpoint_lsn < 2 ^ 64
  pub root_fits : sb.root_page < 2 ^ 64
  pub freelist_fits : sb.freelist_page < 2 ^ 64
  pub next_fits : sb.next_page_id < 2 ^ 64
  pub wrap_id_fits : sb.key_wrap_id < 2 ^ 32
  pub iterations_fit : sb.kdf_iterations < 2 ^ 32
  pub salt_size : length sb.salt ≡ 16
  pub file_id_size : length sb.file_id ≡ 16
  pub wrapped_key_size : length sb.wrapped_key ≡ 32
  pub tag_size : length sb.key_wrap_tag ≡ 16
  pub salt_bytes : All IsByte sb.salt
  pub file_id_bytes : All IsByte sb.file_id
  pub wrapped_key_bytes : All IsByte sb.wrapped_key
  pub tag_bytes : All IsByte sb.key_wrap_tag

module _ (sb : Superblock) (n : ℕ) where
  abbrev pub body : List ℕ
  body = run (zeros n) (superblock_stores sb)

  -- The encoded superblock.
  abbrev pub image : List ℕ
  image = run body (write_u32_le 88 (crc32 (take 160 body)) ∷ [])

  pub length-body : length body ≡ n
  length-body = length-run (zeros n) (superblock_stores sb) ∙ length-zeros n

  pub length-image : length image ≡ n
  length-image = length-run body (write_u32_le 88 (crc32 (take 160 body)) ∷ []) ∙ length-body

  module _ (wide : IsWide sb) (big : 160 ≤ n) where
    stores-FitsIn : All (FitsIn (length (zeros n))) (superblock_stores sb)
    unfolding superblock_stores write_u16_le write_u32_le write_u64_le memcpy
    stores-FitsIn =
        rw length-zeros
          (omega (arith, wide.salt_size, wide.file_id_size, wide.wrapped_key_size, wide.tag_size))

    seal-FitsIn : All (FitsIn (length body)) (write_u32_le 88 (crc32 (take 160 body)) ∷ [])
    seal-FitsIn = unfold write_u32_le in rw length-body (omega arith)

    field :
        (o k : ℕ) {bytes : List ℕ}
        → found (superblock_stores sb) o k ≡ some bytes
        → slice body o k ≡ bytes
    field o k e = slice-run_hit (zeros n) (superblock_stores sb) o k stores-FitsIn e

    -- The checksum is apart from every other field.
    pub image-body :
        (o k : ℕ)
        → all_miss (write_u32_le 88 (crc32 (take 160 body)) ∷ []) o k ≡ true
        → slice image o k ≡ slice body o k
    image-body o k apart = slice-run_miss body _ o k seal-FitsIn apart

    -- What no field covers is zero.
    pub body-zeros :
        (o k : ℕ)
        → all_miss (superblock_stores sb) o k ≡ true
        → o + k ≤ n
        → slice body o k ≡ zeros k
    body-zeros o k apart inside =
        slice-run_miss (zeros n) (superblock_stores sb) o k stores-FitsIn apart
        ∙ slice-zeros n o k inside

    pub image-checksum : slice image 88 4 ≡ (write_u32_le 88 (crc32 (take 160 body))).bytes
    image-checksum =
        slice-run_hit body _ 88 4 seal-FitsIn (unfold found all_miss write_u32_le in refl)

    pub body-IsByte : All IsByte body
    body-IsByte = run-IsByte (zeros n) (superblock_stores sb) (zeros-IsByte n) stores-HasBytes
      where
        stores-HasBytes : All HasBytes (superblock_stores sb)
        stores-HasBytes =
            unfold superblock_stores in
            (
              (unfold memcpy in omega arith),
              (
                write_u16-IsByte 8 2,
                (
                  write_u16-IsByte 10 160,
                  (
                    write_u32-IsByte 12 sb.page_size,
                    (
                      write_u32-IsByte 16 sb.flags,
                      (
                        write_u64-IsByte 24 sb.generation,
                        (
                          write_u64-IsByte 32 sb.checkpoint_lsn,
                          (
                            write_u64-IsByte 40 sb.root_page,
                            (
                              write_u64-IsByte 48 sb.freelist_page,
                              (
                                (unfold memcpy in wide.salt_bytes),
                                (
                                  (unfold memcpy in wide.file_id_bytes),
                                  (
                                    write_u64-IsByte 92 sb.next_page_id,
                                    (
                                      write_u32-IsByte 100 sb.key_wrap_id,
                                      (
                                        write_u32-IsByte 104 sb.kdf_iterations,
                                        (
                                          (unfold memcpy in wide.wrapped_key_bytes),
                                          ((unfold memcpy in wide.tag_bytes), tt),
                                        ),
                                      ),
                                    ),
                                  ),
                                ),
                              ),
                            ),
                          ),
                        ),
                      ),
                    ),
                  ),
                ),
              ),
            )

    pub image-magic : slice image 0 8 ≡ superblock_magic
    image-magic =
        image-body 0 8 (unfold all_miss write_u32_le in refl)
        ∙ field 0 8 (
            unfold found all_miss superblock_stores write_u16_le write_u32_le write_u64_le memcpy in
            refl)

    pub image-version : slice image 8 2 ≡ (write_u16_le 8 2).bytes
    image-version =
        image-body 8 2 (unfold all_miss write_u32_le in refl)
        ∙ field 8 2 (
            unfold found all_miss superblock_stores write_u16_le write_u32_le write_u64_le memcpy in
            refl)

    pub image-size : slice image 10 2 ≡ (write_u16_le 10 160).bytes
    image-size =
        image-body 10 2 (unfold all_miss write_u32_le in refl)
        ∙ field 10 2 (
            unfold found all_miss superblock_stores write_u16_le write_u32_le write_u64_le memcpy in
            refl)

    pub image-page_size : slice image 12 4 ≡ (write_u32_le 12 sb.page_size).bytes
    image-page_size =
        image-body 12 4 (unfold all_miss write_u32_le in refl)
        ∙ field 12 4 (
            unfold found all_miss superblock_stores write_u16_le write_u32_le write_u64_le memcpy in
            refl)

    pub image-flags : slice image 16 4 ≡ (write_u32_le 16 sb.flags).bytes
    image-flags =
        image-body 16 4 (unfold all_miss write_u32_le in refl)
        ∙ field 16 4 (
            unfold found all_miss superblock_stores write_u16_le write_u32_le write_u64_le memcpy in
            refl)

    pub image-generation : slice image 24 8 ≡ (write_u64_le 24 sb.generation).bytes
    image-generation =
        image-body 24 8 (unfold all_miss write_u32_le in refl)
        ∙ field 24 8 (
            unfold found all_miss superblock_stores write_u16_le write_u32_le write_u64_le memcpy in
            refl)

    pub image-checkpoint_lsn : slice image 32 8 ≡ (write_u64_le 32 sb.checkpoint_lsn).bytes
    image-checkpoint_lsn =
        image-body 32 8 (unfold all_miss write_u32_le in refl)
        ∙ field 32 8 (
            unfold found all_miss superblock_stores write_u16_le write_u32_le write_u64_le memcpy in
            refl)

    pub image-root_page : slice image 40 8 ≡ (write_u64_le 40 sb.root_page).bytes
    image-root_page =
        image-body 40 8 (unfold all_miss write_u32_le in refl)
        ∙ field 40 8 (
            unfold found all_miss superblock_stores write_u16_le write_u32_le write_u64_le memcpy in
            refl)

    pub image-freelist_page : slice image 48 8 ≡ (write_u64_le 48 sb.freelist_page).bytes
    image-freelist_page =
        image-body 48 8 (unfold all_miss write_u32_le in refl)
        ∙ field 48 8 (
            unfold found all_miss superblock_stores write_u16_le write_u32_le write_u64_le memcpy in
            refl)

    pub image-salt : slice image 56 16 ≡ sb.salt
    image-salt =
        image-body 56 16 (unfold all_miss write_u32_le in refl)
        ∙ field 56 16 (
            unfold found all_miss superblock_stores write_u16_le write_u32_le write_u64_le memcpy in
            refl)

    pub image-file_id : slice image 72 16 ≡ sb.file_id
    image-file_id =
        image-body 72 16 (unfold all_miss write_u32_le in refl)
        ∙ field 72 16 (
            unfold found all_miss superblock_stores write_u16_le write_u32_le write_u64_le memcpy in
            refl)

    pub image-next_page_id : slice image 92 8 ≡ (write_u64_le 92 sb.next_page_id).bytes
    image-next_page_id =
        image-body 92 8 (unfold all_miss write_u32_le in refl)
        ∙ field 92 8 (
            unfold found all_miss superblock_stores write_u16_le write_u32_le write_u64_le memcpy in
            refl)

    pub image-key_wrap_id : slice image 100 4 ≡ (write_u32_le 100 sb.key_wrap_id).bytes
    image-key_wrap_id =
        image-body 100 4 (unfold all_miss write_u32_le in refl)
        ∙ field 100 4 (
            unfold found all_miss superblock_stores write_u16_le write_u32_le write_u64_le memcpy in
            refl)

    pub image-kdf_iterations : slice image 104 4 ≡ (write_u32_le 104 sb.kdf_iterations).bytes
    image-kdf_iterations =
        image-body 104 4 (unfold all_miss write_u32_le in refl)
        ∙ field 104 4 (
            unfold found all_miss superblock_stores write_u16_le write_u32_le write_u64_le memcpy in
            refl)

    pub image-wrapped_key : slice image 108 32 ≡ sb.wrapped_key
    image-wrapped_key =
        image-body 108 32 (unfold all_miss write_u32_le in refl)
        ∙ field 108 32 (
            unfold found all_miss superblock_stores write_u16_le write_u32_le write_u64_le memcpy in
            refl)

    pub image-key_wrap_tag : slice image 140 16 ≡ sb.key_wrap_tag
    image-key_wrap_tag =
        image-body 140 16 (unfold all_miss write_u32_le in refl)
        ∙ field 140 16 (
            unfold found all_miss superblock_stores write_u16_le write_u32_le write_u64_le memcpy in
            refl)

    pub image-reserved_20 : slice image 20 4 ≡ zeros 4
    image-reserved_20 =
        image-body 20 4 (unfold all_miss write_u32_le in refl)
        ∙ body-zeros 20 4
            (unfold all_miss superblock_stores write_u16_le write_u32_le write_u64_le memcpy in
              refl)
            (omega arith)

    pub image-reserved_156 : slice image 156 4 ≡ zeros 4
    image-reserved_156 =
        image-body 156 4 (unfold all_miss write_u32_le in refl)
        ∙ body-zeros 156 4
            (unfold all_miss superblock_stores write_u16_le write_u32_le write_u64_le memcpy in
              refl)
            (omega arith)
