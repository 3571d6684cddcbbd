-- ===== src/Page/RoundTrip.antt =====
-- Encoding and decoding a page are inverse to one another.
use shibadb.Bytes.{IsByte, slice, zeros, all_zero}
use shibadb.Bytes.Laws.{same_bytes_refl, all_zero-zeros, copy_to-nil}
use shibadb.Bytes.Stores.{run}
use shibadb.Codec.{read_u16_le, read_u32_le, read_u64_le, memcpy}
use shibadb.Codec.Buffers.{read_u16-stored, read_u32-stored, read_u64-stored}
use shibadb.Crc.{crc32_zeroed_range}
use shibadb.Page
use shibadb.Page.{
  PageView, page_type_valid, page_size_invalid, page_stores, page_encode, page_decode,
  checksum_offset, page_header_size,
}
use shibadb.Page.Fields
use shibadb.Page.Fields.{stores, body}
use shibadb.Seal.{seal, slice-seal, length-seal, read-seal, seal-IsByte}
use shibadb.Status.{ok}
use shibadb.Prelude.{
  ℕ, suc, ◌+◌, ◌-◌, ◌%◌, ◌^◌, ◌<◌, ◌≤◌, ◌≡◌, ◌≢◌, refl, sym, ap, ◌∙◌, inl, inr, arith, List, [],
  ◌∷◌, All, take, drop, length, some, true, false, ==_of_ne, ==_refl,
}

-- The arguments that `page_encode` accepts.
pub record IsEncodable (page_size type page_id page_lsn : ℕ) (payload : List ℕ) : Type 0 where
  pub size_valid : page_size_invalid page_size ≡ false
  pub type_valid : page_type_valid type ≡ true
  pub id_nonzero : page_id ≢ 0
  pub id_fits : page_id < 2 ^ 64
  pub lsn_fits : page_lsn < 2 ^ 64
  pub payload_fits : length payload ≤ page_size - 32
  pub payload_bytes : All IsByte payload

pub page_size_bounds :
    (page_size : ℕ) → page_size_invalid page_size ≡ false → (4096 ≤ page_size) × (page_size ≤ 65536)
unfolding page_size_invalid
page_size_bounds page_size h = ground arith

pub page_type_bound : (type : ℕ) → page_type_valid type ≡ true → type < 2 ^ 16
unfolding page_type_valid
page_type_bound type h = ground arith

take-length : (xs : List ℕ) → take (length xs) xs ≡ xs
take-length [] = refl
take-length (x ∷ xs) = ap (λ r. x ∷ r) (take-length xs)

-- The write of an empty payload is left out, and would change nothing.
body-stores :
    (page_size type page_id page_lsn : ℕ) (payload : List ℕ)
    → run (zeros page_size) (page_stores type page_id page_lsn (some payload) (length payload))
      ≡ body page_size type page_id page_lsn payload
unfolding page_stores run memcpy
body-stores page_size type page_id page_lsn [] = sym (copy_to-nil _ 32)
body-stores page_size type page_id page_lsn (x ∷ payload) =
    rw (take-length, ==_of_ne (suc (length payload)) 0 (omega arith))

module _ {page_size type page_id page_lsn : ℕ} {payload : List ℕ} (buffer : List ℕ)
    (valid : IsEncodable page_size type page_id page_lsn payload) where
  abbrev raw : List ℕ
  raw = body page_size type page_id page_lsn payload

  abbrev page : List ℕ
  page = seal raw 28

  pub page_encode-eq_seal :
      page_encode (some buffer) page_size type page_id page_lsn (some payload) (length payload)
      ≡ ok page
  unfolding page_encode seal
  page_encode-eq_seal =
      rw body-stores (ground (arith, valid, page_size_bounds page_size valid.size_valid))

  big : 4096 ≤ page_size
  big = (page_size_bounds page_size valid.size_valid).0

  pub length-raw : length raw ≡ page_size
  length-raw = Fields.length-body page_size type page_id page_lsn payload big valid.payload_fits

  sealable : 28 + 4 ≤ length raw
  sealable = omega (arith, length-raw, big)

  page-magic : slice page 0 4 ≡ Page.page_magic
  page-magic =
      slice-seal raw 28 sealable 0 4 (inl (omega arith))
      ∙ Fields.body-magic page_size type page_id page_lsn payload big valid.payload_fits

  page-type : read_u16_le (drop 4 page) ≡ type
  page-type =
      read_u16-stored page 4 4 type
        (slice-seal raw 28 sealable 4 2 (inl (omega arith))
          ∙ Fields.body-type page_size type page_id page_lsn payload big valid.payload_fits)
        (page_type_bound type valid.type_valid)

  page-flags : read_u16_le (drop 6 page) ≡ 0
  page-flags =
      read_u16-stored page 6 6 0
        (slice-seal raw 28 sealable 6 2 (inl (omega arith))
          ∙ Fields.body-flags page_size type page_id page_lsn payload big valid.payload_fits)
        (omega arith)

  page-page_id : read_u64_le (drop 8 page) ≡ page_id
  page-page_id =
      read_u64-stored page 8 8 page_id
        (slice-seal raw 28 sealable 8 8 (inl (omega arith))
          ∙ Fields.body-page_id page_size type page_id page_lsn payload big valid.payload_fits)
        valid.id_fits

  page-page_lsn : read_u64_le (drop 16 page) ≡ page_lsn
  page-page_lsn =
      read_u64-stored page 16 16 page_lsn
        (slice-seal raw 28 sealable 16 8 (inl (omega arith))
          ∙ Fields.body-page_lsn page_size type page_id page_lsn payload big valid.payload_fits)
        valid.lsn_fits

  small : length payload % 2 ^ 32 ≡ length payload
  small = omega (arith, valid.payload_fits, (page_size_bounds page_size valid.size_valid).1)

  page-payload_size : read_u32_le (drop 24 page) ≡ length payload
  page-payload_size =
      read_u32-stored page 24 24 (length payload % 2 ^ 32)
        (slice-seal raw 28 sealable 24 4 (inl (omega arith))
          ∙ Fields.body-payload_size page_size type page_id page_lsn payload big valid.payload_fits)
        (omega arith)
      ∙ small

  page-payload : slice page 32 (length payload) ≡ payload
  page-payload =
      slice-seal raw 28 sealable 32 (length payload) (inr (omega arith))
      ∙ Fields.body-payload page_size type page_id page_lsn payload big valid.payload_fits

  page-padding :
      all_zero (slice page (32 + length payload) (page_size - (32 + length payload))) ≡ true
  page-padding =
      ap all_zero (
        slice-seal raw 28 sealable (32 + length payload) (page_size - (32 + length payload))
          (inr (omega arith))
        ∙ Fields.body-padding page_size type page_id page_lsn payload big valid.payload_fits)
      ∙ all_zero-zeros (page_size - (32 + length payload))

  raw-IsByte : All IsByte raw
  raw-IsByte =
      Fields.body-IsByte page_size type page_id page_lsn payload big valid.payload_fits
        valid.payload_bytes

  page-checksum : read_u32_le (drop 28 page) ≡ crc32_zeroed_range page 28 4
  page-checksum = read-seal raw 28 sealable raw-IsByte

  -- The view of the page that these arguments encode to.
  abbrev pub view : PageView
  view = record {
    type = type;
    flags = 0;
    page_id = page_id;
    page_lsn = page_lsn;
    payload = payload;
    payload_size = length payload;
  }

  page_decode-page : page_decode (some page) page_size page_id ≡ ok view
  unfolding page_decode
  page_decode-page =
      rw
        (
          page-magic, same_bytes_refl, page-type, page-flags, page-page_id, page-payload_size,
          page-page_lsn, page-payload, page-padding, page-checksum, ==_refl,
        )
        (ground (arith, valid))

  -- Arguments that meet the conditions are encoded as a page of `page_size` bytes, which decodes to
  -- them.
  pub page_decode-page_encode :
      (page' : List ℕ) × (page_encode
          (some buffer)
          page_size
          type
          page_id
          page_lsn
          (some payload)
          (length payload)
        ≡ ok page')
      × (page_decode (some page') page_size page_id ≡ ok view)
      × (length page' ≡ page_size)
      × All IsByte page'
  page_decode-page_encode = (
    page,
    page_encode-eq_seal,
    page_decode-page,
    length-seal raw 28 sealable ∙ length-raw,
    seal-IsByte raw 28 sealable raw-IsByte,
  )
