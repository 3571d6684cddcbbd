-- ===== src/Page/Fields.antt =====
-- What an encoded page holds at each field. The header fields and the payload are those of the
-- writes of `page_encode`; the checksum is a seal.
use shibadb.Bytes.{IsByte, slice, zeros}
use shibadb.Bytes.Laws.{length-zeros, zeros-IsByte, slice-zeros}
use shibadb.Bytes.Stores.{
  Store, run, length-run, run-IsByte, FitsIn, all_miss, found, slice-run_miss, slice-run_hit,
}
use shibadb.Codec.{write_u16_le, write_u32_le, write_u64_le, memcpy}
use shibadb.Codec.RoundTrip.{write_u16-IsByte, write_u32-IsByte, write_u64-IsByte}
use shibadb.Page.{page_magic}
use shibadb.Prelude.{ℕ, ◌+◌, ◌-◌, ◌%◌, ◌^◌, ◌≤◌, ◌≡◌, ◌∙◌, arith, List, [], ◌∷◌, All, length}

module _ (page_size type page_id page_lsn : ℕ) (payload : List ℕ) where
  -- The writes with the payload's written out, empty or not.
  abbrev pub stores : List Store
  stores =
      memcpy 0 4 page_magic
      ∷ write_u16_le 4 type
      ∷ write_u16_le 6 0
      ∷ write_u64_le 8 page_id
      ∷ write_u64_le 16 page_lsn
      ∷ write_u32_le 24 (length payload % 2 ^ 32)
      ∷ memcpy 32 (length payload) payload
      ∷ []

  abbrev pub body : List ℕ
  body = run (zeros page_size) stores

  module _ (big : 4096 ≤ page_size) (fits : length payload ≤ page_size - 32) where
    stores-FitsIn : All (FitsIn (length (zeros page_size))) stores
    unfolding write_u16_le write_u32_le write_u64_le memcpy
    stores-FitsIn = rw length-zeros (omega arith)

    pub length-body : length body ≡ page_size
    length-body = length-run (zeros page_size) stores ∙ length-zeros page_size

    pub body-magic : slice body 0 4 ≡ page_magic
    body-magic =
        slice-run_hit (zeros page_size) stores 0 4 stores-FitsIn
          (unfold found all_miss write_u16_le write_u32_le write_u64_le memcpy in ground arith)

    pub body-type : slice body 4 2 ≡ (write_u16_le 4 type).bytes
    body-type =
        slice-run_hit (zeros page_size) stores 4 2 stores-FitsIn
          (unfold found all_miss write_u16_le write_u32_le write_u64_le memcpy in ground arith)

    pub body-flags : slice body 6 2 ≡ (write_u16_le 6 0).bytes
    body-flags =
        slice-run_hit (zeros page_size) stores 6 2 stores-FitsIn
          (unfold found all_miss write_u16_le write_u32_le write_u64_le memcpy in ground arith)

    pub body-page_id : slice body 8 8 ≡ (write_u64_le 8 page_id).bytes
    body-page_id =
        slice-run_hit (zeros page_size) stores 8 8 stores-FitsIn
          (unfold found all_miss write_u16_le write_u32_le write_u64_le memcpy in ground arith)

    pub body-page_lsn : slice body 16 8 ≡ (write_u64_le 16 page_lsn).bytes
    body-page_lsn =
        slice-run_hit (zeros page_size) stores 16 8 stores-FitsIn
          (unfold found all_miss write_u16_le write_u32_le write_u64_le memcpy in ground arith)

    pub body-payload_size : slice body 24 4 ≡ (write_u32_le 24 (length payload % 2 ^ 32)).bytes
    body-payload_size =
        slice-run_hit (zeros page_size) stores 24 4 stores-FitsIn
          (unfold found all_miss write_u16_le write_u32_le write_u64_le memcpy in ground arith)

    pub body-payload : slice body 32 (length payload) ≡ payload
    body-payload =
        slice-run_hit (zeros page_size) stores 32 (length payload) stores-FitsIn
          (unfold found all_miss write_u16_le write_u32_le write_u64_le memcpy in ground arith)

    pub body-padding :
        slice body (32 + length payload) (page_size - (32 + length payload))
        ≡ zeros (page_size - (32 + length payload))
    body-padding =
        slice-run_miss (zeros page_size) stores (32 + length payload)
          (page_size - (32 + length payload)) stores-FitsIn
          (unfold all_miss write_u16_le write_u32_le write_u64_le memcpy in ground arith)
        ∙ slice-zeros page_size (32 + length payload) (page_size - (32 + length payload))
            (omega arith)

    pub body-IsByte : All IsByte payload → All IsByte body
    body-IsByte bytes = run-IsByte (zeros page_size) stores (zeros-IsByte page_size) (
      unfold memcpy in omega arith,
      (
        write_u16-IsByte 4 type,
        (
          write_u16-IsByte 6 0,
          (
            write_u64-IsByte 8 page_id,
            (
              write_u64-IsByte 16 page_lsn,
              (write_u32-IsByte 24 (length payload % 2 ^ 32), (unfold memcpy in bytes, tt)),
            ),
          ),
        ),
      ),
    )
