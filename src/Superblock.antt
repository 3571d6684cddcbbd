-- ===== src/Superblock.antt =====
-- src/superblock.c: the header of the database file. A NULL pointer is `none`.
pub mod Sound
pub mod Fields
pub mod Reserved
pub mod RoundTrip
use shibadb.Bytes.{slice, zeros, same_bytes}
use shibadb.Bytes.Stores.{Store, run}
use shibadb.Codec.{
  read_u16_le, read_u32_le, read_u64_le, write_u16_le, write_u32_le, write_u64_le, memcpy,
}
use shibadb.Crc.{crc32}
use shibadb.Status.{
  Status, Result, ok, err, invalid_argument, buffer_too_small, bad_magic, unsupported_version,
  corrupt, fail_if, ◌>>=◌, ◌>>◌,
}
use shibadb.Prelude.{
  ℕ, zero, suc, ◌+◌, ◌-◌, ◌*◌, ◌/◌, ◌^◌, bit_and, bit_or, List, [], ◌∷◌, take, drop, Option, none,
  some, Bool, true, false, ◌&&◌, ◌||◌, not, ◌==◌, ltb, leb, if◌then◌else◌, get_or,
}

-- `sdb_superblock_v1`
pub record Superblock : Type 0 where
  pub page_size : ℕ
  pub flags : ℕ
  pub generation : ℕ
  pub checkpoint_lsn : ℕ
  pub root_page : ℕ
  pub freelist_page : ℕ
  pub next_page_id : ℕ
  pub key_wrap_id : ℕ
  pub kdf_iterations : ℕ
  pub salt : List ℕ
  pub file_id : List ℕ
  pub wrapped_key : List ℕ
  pub key_wrap_tag : List ℕ

-- "SHIBAC01"
abbrev pub superblock_magic : List ℕ
superblock_magic = b'S' ∷ b'H' ∷ b'I' ∷ b'B' ∷ b'A' ∷ b'C' ∷ b'0' ∷ b'1' ∷ []

abbrev pub header_size : ℕ
header_size = 160

unfoldable pub is_power_of_two_u32 : ℕ → Bool
is_power_of_two_u32 value = not (value == 0) && bit_and value (value - 1) == 0

-- `SDB_SUPERBLOCK_SLOT_SIZE * SDB_SUPERBLOCK_SLOT_COUNT`
abbrev pub data_offset : ℕ
data_offset = 4096 * 2

unfoldable pub page_geometry_valid : ℕ → ℕ → Bool
page_geometry_valid next_page_id page_size =
    if next_page_id == 0 || page_size == 0
    then false
    else leb (next_page_id - 1) ((2 ^ 64 - 1 - data_offset) / page_size)

-- The loop of `sdb_bytes_all_zero`
unfoldable pub or_bytes : ℕ → List ℕ → ℕ
or_bytes aggregate [] = aggregate
or_bytes aggregate (b ∷ bytes) = or_bytes (bit_or aggregate b) bytes

unfoldable pub bytes_all_zero : List ℕ → Bool
unfolding or_bytes
bytes_all_zero bytes = or_bytes 0 bytes == 0

-- `sdb_sb_field`
pub data SbField : Type 0 where
  field_ok : SbField
  field_null_arg : SbField
  field_page_size : SbField
  field_flags : SbField
  field_next_page_id : SbField
  field_file_id : SbField
  field_salt : SbField
  field_key_wrap_id : SbField
  field_kdf_iterations : SbField
  field_wrapped_key : SbField
  field_key_wrap_tag : SbField
  field_enc_mismatch : SbField
  field_root_page : SbField
  field_freelist_page : SbField

-- `(flags & SDB_FLAG_ENCRYPTED) != 0U` and `(flags & SDB_FLAG_HEADER_AUTH) != 0U`
unfoldable pub encrypted : ℕ → Bool
encrypted flags = not (bit_and flags 1 == 0)

unfoldable pub header_auth : ℕ → Bool
header_auth flags = not (bit_and flags 2 == 0)

-- The checks that depend on encryption, at the end of `sdb_validate_superblock_detailed`.
unfoldable pub validate_keys : Superblock → SbField
validate_keys sb =
    if encrypted sb.flags && bytes_all_zero sb.salt
    then field_salt
    else if encrypted sb.flags
    then if sb.key_wrap_id == 0
      then field_key_wrap_id
      else if ltb sb.kdf_iterations 600000 || ltb 10000000 sb.kdf_iterations
      then field_kdf_iterations
      else if bytes_all_zero sb.wrapped_key
      then field_wrapped_key
      else if bytes_all_zero sb.key_wrap_tag
      then field_key_wrap_tag
      else field_ok
    else if not (sb.key_wrap_id == 0)
        || not (sb.kdf_iterations == 0)
        || not (bytes_all_zero sb.wrapped_key)
        || not (bytes_all_zero sb.key_wrap_tag)
    then field_enc_mismatch
    else field_ok

unfoldable pub validate_superblock_detailed : Option Superblock → SbField
validate_superblock_detailed none = field_null_arg
validate_superblock_detailed (some sb) =
    if ltb sb.page_size 4096 || ltb 65536 sb.page_size || not (is_power_of_two_u32 sb.page_size)
    then field_page_size
    else if not (bit_and sb.flags (2 ^ 32 - 1 - 3) == 0)
        || (header_auth sb.flags && not (encrypted sb.flags))
    then field_flags
    else if not (page_geometry_valid sb.next_page_id sb.page_size)
    then field_next_page_id
    else if leb sb.next_page_id sb.root_page
    then field_root_page
    else if leb sb.next_page_id sb.freelist_page
    then field_freelist_page
    else if bytes_all_zero sb.file_id
    then field_file_id
    else validate_keys sb

-- `field == SDB_SB_FIELD_OK`
unfoldable pub is_ok : SbField → Bool
is_ok field_ok = true
is_ok field = false

-- `sdb_validate_superblock`; the result `true` is SDB_OK and `false` SDB_E_INVALID_ARGUMENT.
unfoldable pub validate_superblock : Option Superblock → Bool
validate_superblock superblock = is_ok (validate_superblock_detailed superblock)

-- The writes of `sdb_superblock_v1_encode` before the checksum.
unfoldable pub superblock_stores : Superblock → List Store
superblock_stores sb =
    memcpy 0 8 superblock_magic
    ∷ write_u16_le 8 2
    ∷ write_u16_le 10 header_size
    ∷ write_u32_le 12 sb.page_size
    ∷ write_u32_le 16 sb.flags
    ∷ write_u64_le 24 sb.generation
    ∷ write_u64_le 32 sb.checkpoint_lsn
    ∷ write_u64_le 40 sb.root_page
    ∷ write_u64_le 48 sb.freelist_page
    ∷ memcpy 56 16 sb.salt
    ∷ memcpy 72 16 sb.file_id
    ∷ write_u64_le 92 sb.next_page_id
    ∷ write_u32_le 100 sb.key_wrap_id
    ∷ write_u32_le 104 sb.kdf_iterations
    ∷ memcpy 108 32 sb.wrapped_key
    ∷ memcpy 140 16 sb.key_wrap_tag
    ∷ []

-- The result is the buffer of `output_size` bytes; `has_output` is `output != NULL`.
unfoldable pub superblock_encode : Option Superblock → Bool → ℕ → Result (List ℕ)
superblock_encode none has_output output_size = err invalid_argument
superblock_encode (some sb) has_output output_size = do
  fail_if (not (validate_superblock (some sb))) invalid_argument
  fail_if (not has_output) invalid_argument
  fail_if (ltb output_size header_size) buffer_too_small
  let output = run (zeros output_size) (superblock_stores sb)
  let checksum = crc32 (take header_size output)
  ok (run output (write_u32_le 88 checksum ∷ []))

-- The loops over reserved bytes: one of the bytes from `index` on is not zero.
unfoldable pub any_nonzero : ℕ → ℕ → List ℕ → Bool
any_nonzero zero index input = false
any_nonzero (suc count) index input =
    not (get_or input index 0 == 0) || any_nonzero count (index + 1) input

-- What the decoder reads out of the header.
unfoldable pub decoded : List ℕ → Superblock
decoded input = record {
  page_size = read_u32_le (drop 12 input);
  flags = read_u32_le (drop 16 input);
  generation = read_u64_le (drop 24 input);
  checkpoint_lsn = read_u64_le (drop 32 input);
  root_page = read_u64_le (drop 40 input);
  freelist_page = read_u64_le (drop 48 input);
  next_page_id = read_u64_le (drop 92 input);
  key_wrap_id = read_u32_le (drop 100 input);
  kdf_iterations = read_u32_le (drop 104 input);
  salt = slice input 56 16;
  file_id = slice input 72 16;
  wrapped_key = slice input 108 32;
  key_wrap_tag = slice input 140 16;
}

-- `input` has `input_size` bytes.
unfoldable pub superblock_decode : Option (List ℕ) → ℕ → Result Superblock
superblock_decode none input_size = err invalid_argument
superblock_decode (some input) input_size = do
  fail_if (ltb input_size header_size) buffer_too_small
  fail_if (not (same_bytes (slice input 0 8) superblock_magic)) bad_magic
  let format_version = read_u16_le (drop 8 input)
  fail_if (not (format_version == 1) && not (format_version == 2)) unsupported_version
  fail_if (not (read_u16_le (drop 10 input) == header_size)) corrupt
  let header = slice input 0 header_size
  let stored_checksum = read_u32_le (drop 88 header)
  let cleared = run header (memcpy 88 4 (zeros 4) ∷ [])
  let computed_checksum = crc32 cleared
  fail_if (not (stored_checksum == computed_checksum)) corrupt
  fail_if (any_nonzero 4 20 input) corrupt
  fail_if (any_nonzero 4 156 input) corrupt
  fail_if (not (validate_superblock (some (decoded input)))) corrupt
  ok (decoded input)
