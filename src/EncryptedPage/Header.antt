-- ===== src/EncryptedPage/Header.antt =====
-- The header of the payload of an encrypted page.
use shibadb.Bytes.{IsByte, slice, zeros}
use shibadb.Bytes.Laws.{length-zeros, zeros-IsByte}
use shibadb.Bytes.Stores.{
  Store, run, length-run, run-IsByte, FitsIn, HasBytes, all_miss, found, slice-run_hit,
}
use shibadb.Codec.{write_u16_le, write_u32_le, memcpy}
use shibadb.Codec.RoundTrip.{write_u16-IsByte, write_u32-IsByte}
use shibadb.EncryptedPage.{encrypted_magic}
use shibadb.Prelude.{ℕ, ◌≡◌, refl, ◌∙◌, arith, List, [], ◌∷◌, length, All, some}

-- What the header of the payload holds.
module _ (plaintext_type : ℕ) (nonce : List ℕ) (size : ℕ) (tag : List ℕ)
    (nonce_size : length nonce ≡ 24) (tag_size : length tag ≡ 16) where
  abbrev stores : List Store
  stores =
      memcpy 0 4 encrypted_magic
      ∷ write_u16_le 4 1
      ∷ write_u16_le 6 plaintext_type
      ∷ memcpy 8 24 nonce
      ∷ write_u32_le 32 size
      ∷ memcpy 36 16 tag
      ∷ []

  abbrev pub header : List ℕ
  header = run (zeros 52) stores

  pub length-header : length header ≡ 52
  length-header = length-run (zeros 52) stores ∙ length-zeros 52

  stores-FitsIn : All (FitsIn (length (zeros 52))) stores
  unfolding write_u16_le write_u32_le memcpy
  stores-FitsIn = rw length-zeros (omega (arith, nonce_size, tag_size))

  field : (o k : ℕ) {bytes : List ℕ} → found stores o k ≡ some bytes → slice header o k ≡ bytes
  field o k e = slice-run_hit (zeros 52) stores o k stores-FitsIn e

  pub header-IsByte : All IsByte nonce → All IsByte tag → All IsByte header
  header-IsByte hn ht = run-IsByte (zeros 52) stores (zeros-IsByte 52) has
    where
      has : All HasBytes stores
      has = (
        (unfold memcpy in omega arith),
        (
          write_u16-IsByte 4 1,
          (
            write_u16-IsByte 6 plaintext_type,
            ((unfold memcpy in hn), (write_u32-IsByte 32 size, ((unfold memcpy in ht), tt))),
          ),
        ),
      )

  pub header_fields :
      (slice header 0 4 ≡ encrypted_magic)
      × (slice header 4 2 ≡ (write_u16_le 4 1).bytes)
      × (slice header 6 2 ≡ (write_u16_le 6 plaintext_type).bytes)
      × (slice header 8 24 ≡ nonce)
      × (slice header 32 4 ≡ (write_u32_le 32 size).bytes)
      × (slice header 36 16 ≡ tag)
  unfolding found all_miss write_u16_le write_u32_le memcpy
  header_fields = (
    field 0 4 refl,
    field 4 2 refl,
    field 6 2 refl,
    field 8 24 refl,
    field 32 4 refl,
    field 36 16 refl,
  )
