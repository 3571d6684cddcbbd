-- ===== src/Page/Canonical.antt =====
-- What `page_decode` accepts: exactly the pages that `page_encode` writes.
use shibadb.Bytes.{IsByte, slice, zeros, same_bytes, all_zero}
use shibadb.Bytes.Laws.{same_bytes-eq, all_zero-eq, length-slice, slice-IsByte}
use shibadb.Bytes.Tiles.{Agree, slice-eq_of_agree, drop-eq_of_agree_end}
use shibadb.Codec.{read_u16_le, read_u32_le, read_u64_le, write_u16_le, write_u32_le, write_u64_le}
use shibadb.Codec.Buffers.{write_u16-read, write_u32-read, write_u64-read, read_u64-lt}
use shibadb.Crc.{crc32_zeroed_range}
use shibadb.Page.{
  PageView, page_magic, page_type_valid, page_size_invalid, page_encode, page_decode,
}
use shibadb.Page.Fields
use shibadb.Page.Fields.{body}
use shibadb.Page.RoundTrip.{IsEncodable, page_size_bounds, page_encode-eq_seal}
use shibadb.Seal.{seal-eq_of_agree}
use shibadb.Status.{ok}
use shibadb.Prelude.{
  ℕ, ◌+◌, ◌-◌, ◌%◌, ◌^◌, ◌≤◌, ◌≡◌, ◌≢◌, sym, ap, ◌∙◌, arith, List, [], ◌∷◌, All, drop, length, some,
  true, false,
}

-- The conditions that `page_decode` checks on a buffer of `page_size` bytes.
pub record IsPage (page : List ℕ) (page_size page_id : ℕ) : Type 0 where
  pub size_valid : page_size_invalid page_size ≡ false
  pub magic : same_bytes (slice page 0 4) page_magic ≡ true
  pub type_valid : page_type_valid (read_u16_le (drop 4 page)) ≡ true
  pub no_flags : read_u16_le (drop 6 page) ≡ 0
  pub id_nonzero : page_id ≢ 0
  pub same_id : read_u64_le (drop 8 page) ≡ page_id
  pub payload_fits : read_u32_le (drop 24 page) ≤ page_size - 32
  pub checksum : read_u32_le (drop 28 page) ≡ crc32_zeroed_range page 28 4
  pub padding :
      all_zero (
        slice page
          (32 + read_u32_le (drop 24 page))
          (page_size - (32 + read_u32_le (drop 24 page))))
      ≡ true

abbrev pub view_of : List ℕ → ℕ → PageView
view_of page page_id = record {
  type = read_u16_le (drop 4 page);
  flags = 0;
  page_id = page_id;
  page_lsn = read_u64_le (drop 16 page);
  payload = slice page 32 (read_u32_le (drop 24 page));
  payload_size = read_u32_le (drop 24 page);
}

pub page_decode-IsPage :
    (page : List ℕ) (page_size page_id : ℕ) {view : PageView}
    → page_decode (some page) page_size page_id ≡ ok view
    → IsPage page page_size page_id × (view ≡ view_of page page_id)
unfolding page_decode
page_decode-IsPage page page_size page_id h = ground arith

module _ (page : List ℕ) {page_size page_id : ℕ} (whole : length page ≡ page_size)
    (bytes : All IsByte page) (valid : IsPage page page_size page_id) where
  abbrev view : PageView
  view = view_of page page_id

  big : 4096 ≤ page_size
  big = (page_size_bounds page_size valid.size_valid).0

  payload_length : length view.payload ≡ view.payload_size
  payload_length = length-slice page 32 view.payload_size (omega (arith, big, valid.payload_fits))

  view-IsEncodable : IsEncodable page_size view.type page_id view.page_lsn view.payload
  view-IsEncodable = record {
    size_valid = valid.size_valid;
    type_valid = valid.type_valid;
    id_nonzero = valid.id_nonzero;
    id_fits = rw (valid.same_id) at (read_u64-lt page 8 bytes (omega (arith, big)));
    lsn_fits = read_u64-lt page 16 bytes (omega (arith, big));
    payload_fits = omega (arith, payload_length, valid.payload_fits);
    payload_bytes = slice-IsByte page 32 view.payload_size bytes;
  }

  abbrev raw : List ℕ
  raw = body page_size view.type page_id view.page_lsn view.payload

  fits : length view.payload ≤ page_size - 32
  fits = view-IsEncodable.payload_fits

  same_size : length view.payload % 2 ^ 32 ≡ view.payload_size
  same_size = omega (arith, payload_length, fits, (page_size_bounds page_size valid.size_valid).1)

  length-body : length raw ≡ page_size
  length-body = Fields.length-body page_size view.type page_id view.page_lsn view.payload big fits

  header : Agree raw page 0 (4 ∷ 2 ∷ 2 ∷ 8 ∷ 8 ∷ 4 ∷ [])
  header = (
    Fields.body-magic page_size view.type page_id view.page_lsn view.payload big fits
        ∙ sym (same_bytes-eq (slice page 0 4) page_magic valid.magic),
    (
      Fields.body-type page_size view.type page_id view.page_lsn view.payload big fits
          ∙ write_u16-read page 4 4 bytes (omega (arith, big)),
      (
        Fields.body-flags page_size view.type page_id view.page_lsn view.payload big fits
            ∙ ap (λ v. (write_u16_le 6 v).bytes) (sym valid.no_flags)
            ∙ write_u16-read page 6 6 bytes (omega (arith, big)),
        (
          Fields.body-page_id page_size view.type page_id view.page_lsn view.payload big fits
              ∙ ap (λ v. (write_u64_le 8 v).bytes) (sym valid.same_id)
              ∙ write_u64-read page 8 8 bytes (omega (arith, big)),
          (
            Fields.body-page_lsn page_size view.type page_id view.page_lsn view.payload big fits
                ∙ write_u64-read page 16 16 bytes (omega (arith, big)),
            (
              Fields.body-payload_size page_size view.type page_id view.page_lsn view.payload big
                    fits
                  ∙ ap (λ v. (write_u32_le 24 v).bytes) same_size
                  ∙ write_u32-read page 24 24 bytes (omega (arith, big)),
              tt,
            ),
          ),
        ),
      ),
    ),
  )

  padding_length :
      length (slice page (32 + view.payload_size) (page_size - (32 + view.payload_size)))
      ≡ page_size - (32 + view.payload_size)
  padding_length =
      length-slice page (32 + view.payload_size) (page_size - (32 + view.payload_size))
        (omega (arith, big, valid.payload_fits))

  rest : Agree raw page 32 (view.payload_size ∷ (page_size - (32 + view.payload_size)) ∷ [])
  rest = (
    ap (slice raw 32) (sym payload_length)
        ∙ Fields.body-payload page_size view.type page_id view.page_lsn view.payload big fits,
    (
      ap (λ k. slice raw (32 + k) (page_size - (32 + k))) (sym payload_length)
          ∙ Fields.body-padding page_size view.type page_id view.page_lsn view.payload big fits
          ∙ ap (λ k. zeros (page_size - (32 + k))) payload_length
          ∙ ap zeros (sym padding_length)
          ∙ sym (all_zero-eq _ valid.padding),
      tt,
    ),
  )

  pub page_encode-view :
      (buffer : List ℕ)
      → page_encode
          (some buffer)
          page_size
          view.type
          page_id
          view.page_lsn
          (some view.payload)
          view.payload_size
        ≡ ok page
  page_encode-view buffer =
      ap (page_encode (some buffer) page_size view.type page_id view.page_lsn (some view.payload))
        (sym payload_length)
      ∙ page_encode-eq_seal buffer view-IsEncodable
      ∙ ap ok (
          seal-eq_of_agree raw page 28 (omega (arith, big)) bytes (omega (arith, length-body))
            (slice-eq_of_agree raw page 0 (4 ∷ 2 ∷ 2 ∷ 8 ∷ 8 ∷ 4 ∷ []) 28 (omega arith) header)
            (drop-eq_of_agree_end raw page 32
              (view.payload_size ∷ (page_size - (32 + view.payload_size)) ∷ [])
              (omega (arith, length-body)) (omega arith) rest)
            valid.checksum)

-- A buffer of bytes that decodes is, byte for byte, what `page_encode` writes for the decoded view:
-- no view has two encodings, and padding and flags carry nothing.
pub page_encode-page_decode :
    (page buffer : List ℕ) (page_size page_id : ℕ) (view : PageView)
    → length page ≡ page_size
    → All IsByte page
    → page_decode (some page) page_size page_id ≡ ok view
    → page_encode
        (some buffer)
        page_size
        view.type
        view.page_id
        view.page_lsn
        (some view.payload)
        view.payload_size
      ≡ ok page
page_encode-page_decode page buffer page_size page_id view whole bytes h =
    let (valid, same) = page_decode-IsPage page page_size page_id h in
    rw same (page_encode-view page whole bytes valid buffer)
