-- ===== src/EncryptedPage.antt =====
-- src/encrypted_page.c: the payload of an encrypted page. A NULL pointer is `none`; wiping the buffers
-- after use is left out. `malloc_succeeds` and `nonce` are what the allocator and the random numbers
-- answer. The payload of a view is a list, so that the test of a NULL payload is left out.
pub mod Header
pub mod RoundTrip
use shibadb.Bytes.{slice, zeros, same_bytes}
use shibadb.Bytes.Stores.{Store, run}
use shibadb.Cipher.Aead.{encrypt, decrypt, bytes_of}
use shibadb.Codec.{read_u16_le, read_u32_le, write_u16_le, write_u32_le, write_u64_le, memcpy}
use shibadb.Page.{PageView, page_encode, is_null}
use shibadb.Status.{
  Status, Result, ok, err, fail_if, corrupt, invalid_argument, out_of_memory, ◌>>=◌, ◌>>◌,
}
use shibadb.Superblock.{Superblock}
use shibadb.Prelude.{
  ℕ, ◌+◌, ◌-◌, ◌^◌, ◌&&◌, List, [], ◌∷◌, ◌++◌, drop, length, Option, none, some, Bool, true, false,
  not, ◌||◌, ◌==◌, ltb, if◌then◌else◌,
}

-- "SEN1"
abbrev pub encrypted_magic : List ℕ
encrypted_magic = 83 ∷ 69 ∷ 78 ∷ 49 ∷ []

-- SDB_ENCRYPTED_PAYLOAD_HEADER_SIZE
abbrev pub encrypted_header_size : ℕ
encrypted_header_size = 52

-- `plaintext_type` is SDB_PAGE_TYPE_DATA or SDB_PAGE_TYPE_FREE.
unfoldable pub plaintext_type_valid : ℕ → Bool
plaintext_type_valid type = type == 1 || type == 2

unfoldable pub encrypted_aad : Superblock → ℕ → ℕ → ℕ → ℕ → List ℕ
encrypted_aad sb page_id page_lsn plaintext_type plaintext_size = run (zeros 40) (
    memcpy 0 16 sb.file_id
    ∷ write_u64_le 16 page_id
    ∷ write_u64_le 24 page_lsn
    ∷ write_u16_le 32 plaintext_type
    ∷ write_u32_le 36 plaintext_size
    ∷ [])

-- The header of the payload, once the tag is written.
unfoldable pub payload_header : ℕ → List ℕ → ℕ → List ℕ → List ℕ
payload_header plaintext_type nonce plaintext_size tag = run (zeros encrypted_header_size) (
    memcpy 0 4 encrypted_magic
    ∷ write_u16_le 4 1
    ∷ write_u16_le 6 plaintext_type
    ∷ memcpy 8 24 nonce
    ∷ write_u32_le 32 plaintext_size
    ∷ memcpy 36 16 tag
    ∷ [])

-- The page that is written to the buffer `page` of `page_size` bytes.
unfoldable pub encrypted_page_encode :
    Bool
    → Result (List ℕ)
    → Option Superblock
    → Option (List ℕ)
    → Option (List ℕ)
    → ℕ
    → ℕ
    → ℕ
    → ℕ
    → Option (List ℕ)
    → ℕ
    → Result (List ℕ)
encrypted_page_encode malloc_succeeds nonce none data_key page page_size plaintext_type page_id
      page_lsn plaintext plaintext_size =
    err invalid_argument
encrypted_page_encode malloc_succeeds nonce (some sb) data_key page page_size plaintext_type page_id
      page_lsn plaintext plaintext_size =
    do
      fail_if
          (is_null data_key
            || is_null page
            || page_id == 0
            || not (plaintext_type_valid plaintext_type)
            || ltb page_size (32 + encrypted_header_size)
            || (is_null plaintext && not (plaintext_size == 0))
            || ltb (2 ^ 32 - 1) plaintext_size
            || ltb (page_size - 32 - encrypted_header_size) plaintext_size)
          invalid_argument
      fail_if (not malloc_succeeds) out_of_memory
      random ← nonce
      sealed ←
          encrypt data_key (some random)
            (some (encrypted_aad sb page_id page_lsn plaintext_type plaintext_size)) 40 plaintext
            plaintext_size
      page_encode page page_size 3 page_id page_lsn
          (some (payload_header plaintext_type random plaintext_size sealed.1 ++ sealed.0))
          (encrypted_header_size + plaintext_size)

-- What the decoder reports when it has no error of its own: the type and the plaintext, or with
-- SDB_E_BUFFER_TOO_SMALL the size that is needed.
pub data Opened : Type 0 where
  opened : ℕ → List ℕ → Opened
  too_small : ℕ → Opened

unfoldable pub encrypted_page_decrypt :
    Option Superblock → Option (List ℕ) → Option PageView → Bool → ℕ → Result Opened
encrypted_page_decrypt none data_key view has_plaintext capacity = err invalid_argument
encrypted_page_decrypt (some sb) data_key none has_plaintext capacity = err invalid_argument
encrypted_page_decrypt (some sb) data_key (some view) has_plaintext capacity = do
  fail_if (is_null data_key || not (view.type == 3) || ltb view.payload_size encrypted_header_size)
      invalid_argument
  let payload : List ℕ = view.payload
  let plaintext_type : ℕ = read_u16_le (drop 6 payload)
  let plaintext_size : ℕ = read_u32_le (drop 32 payload)
  fail_if
      (not (same_bytes (slice payload 0 4) encrypted_magic)
        || not (read_u16_le (drop 4 payload) == 1)
        || not (plaintext_type_valid plaintext_type)
        || not (plaintext_size == view.payload_size - encrypted_header_size))
      corrupt
  fail_if (not has_plaintext && not (capacity == 0)) invalid_argument
  if ltb capacity plaintext_size
      then ok (too_small plaintext_size)
      else (decrypt data_key (some (slice payload 8 24))
            (some (encrypted_aad sb view.page_id view.page_lsn plaintext_type plaintext_size)) 40
            (some (drop encrypted_header_size payload)) plaintext_size (some (slice payload 36 16))
          >>= λ plaintext. ok (opened plaintext_type plaintext))
