-- ===== src/Page.antt =====
-- src/page.c: the envelope of a page. A page is the list of its bytes; NULL is `none`.
pub mod Fields
pub mod RoundTrip
pub mod Canonical
pub mod Detect
use shibadb.Bytes.{copy_to, slice, zeros, same_bytes, all_zero}
use shibadb.Bytes.Stores.{Store, run}
use shibadb.Codec.{
  read_u16_le, read_u32_le, read_u64_le, write_u16_le, write_u32_le, write_u64_le, memcpy,
}
use shibadb.Crc.{crc32_zeroed_range}
use shibadb.Status.{Result, ok, err, invalid_argument, bad_magic, corrupt, fail_if, ◌>>=◌, ◌>>◌}
use shibadb.Prelude.{
  ℕ, ◌+◌, ◌-◌, ◌%◌, ◌^◌, bit_and, List, [], ◌∷◌, ◌++◌, take, drop, Option, none, some, Bool, true,
  false, ◌&&◌, ◌||◌, not, ◌==◌, ltb, if◌then◌else◌,
}

abbrev pub min_page_size : ℕ
min_page_size = 4096

abbrev pub max_page_size : ℕ
max_page_size = 65536

abbrev pub page_header_size : ℕ
page_header_size = 32

abbrev pub checksum_offset : ℕ
checksum_offset = 28

-- "SPG1"
abbrev pub page_magic : List ℕ
page_magic = b'S' ∷ b'P' ∷ b'G' ∷ b'1' ∷ []

-- SDB_PAGE_TYPE_DATA, SDB_PAGE_TYPE_FREE, SDB_PAGE_TYPE_ENCRYPTED
unfoldable pub page_type_valid : ℕ → Bool
page_type_valid type = type == 1 || type == 2 || type == 3

-- The guard on `page_size` of both functions.
unfoldable pub page_size_invalid : ℕ → Bool
page_size_invalid page_size =
    ltb page_size min_page_size
    || ltb max_page_size page_size
    || not (bit_and page_size (page_size - 1) == 0)

-- `sdb_page_view`; `payload` is the bytes that the pointer and `payload_size` describe.
pub record PageView : Type 0 where
  pub type : ℕ
  pub flags : ℕ
  pub page_id : ℕ
  pub page_lsn : ℕ
  pub payload : List ℕ
  pub payload_size : ℕ

abbrev pub is_null {ℓ} : {A : Type ℓ} → Option A → Bool
is_null none = true
is_null (some a) = false

-- The bytes behind a pointer.
abbrev pub target : Option (List ℕ) → List ℕ
target none = []
target (some bytes) = bytes

-- The writes of `sdb_page_encode` before the checksum.
unfoldable pub page_stores : ℕ → ℕ → ℕ → Option (List ℕ) → ℕ → List Store
page_stores type page_id page_lsn payload payload_size =
    memcpy 0 4 page_magic
    ∷ write_u16_le 4 type
    ∷ write_u16_le 6 0
    ∷ write_u64_le 8 page_id
    ∷ write_u64_le 16 page_lsn
    ∷ write_u32_le 24 (payload_size % 2 ^ 32)
    ∷ (if not (payload_size == 0)
        then memcpy page_header_size payload_size (take payload_size (target payload)) ∷ []
        else [])

-- `page` is the caller's buffer of `page_size` bytes, which is overwritten.
unfoldable pub page_encode : Option (List ℕ) → ℕ → ℕ → ℕ → ℕ → Option (List ℕ) → ℕ → Result (List ℕ)
unfolding page_type_valid page_size_invalid page_stores
page_encode page page_size type page_id page_lsn payload payload_size = do
  fail_if (is_null page || page_id == 0 || not (page_type_valid type)) invalid_argument
  fail_if (page_size_invalid page_size) invalid_argument
  fail_if
      (ltb (page_size - page_header_size) payload_size
        || (is_null payload && not (payload_size == 0))
        || ltb (2 ^ 32 - 1) payload_size)
      invalid_argument
  let body = run (zeros page_size) (page_stores type page_id page_lsn payload payload_size)
  let checksum = crc32_zeroed_range body checksum_offset 4
  ok (run body (write_u32_le checksum_offset checksum ∷ []))

-- `page` has `page_size` bytes.
unfoldable pub page_decode : Option (List ℕ) → ℕ → ℕ → Result PageView
unfolding page_type_valid page_size_invalid
page_decode none page_size expected_page_id = err invalid_argument
page_decode (some page) page_size expected_page_id = do
  fail_if (expected_page_id == 0) invalid_argument
  fail_if (page_size_invalid page_size) invalid_argument
  fail_if (not (same_bytes (slice page 0 4) page_magic)) bad_magic
  let type = read_u16_le (drop 4 page)
  let flags = read_u16_le (drop 6 page)
  let page_id = read_u64_le (drop 8 page)
  let payload_size = read_u32_le (drop 24 page)
  fail_if
      (not (page_type_valid type)
        || not (flags == 0)
        || not (page_id == expected_page_id)
        || ltb (page_size - page_header_size) payload_size)
      corrupt
  let stored_checksum = read_u32_le (drop checksum_offset page)
  let computed_checksum = crc32_zeroed_range page checksum_offset 4
  fail_if (not (stored_checksum == computed_checksum)) corrupt
  fail_if
      (not (
        all_zero (
          slice page (page_header_size + payload_size)
            (page_size - (page_header_size + payload_size)))))
      corrupt
  ok (record {
    type = type;
    flags = flags;
    page_id = page_id;
    page_lsn = read_u64_le (drop 16 page);
    payload = slice page page_header_size payload_size;
    payload_size = payload_size;
  })
