-- ===== src/Tests/Header.antt =====
-- The superblock at a concrete input.
use shibadb.Bytes.{copy_to, slice, zeros, same_bytes}
use shibadb.Bytes.Stores.{run}
use shibadb.Codec.{
  read_u16_le, read_u32_le, read_u64_le, read_u64_loop, write_u16_le, write_u32_le, write_u64_le,
  write_loop, memcpy,
}
use shibadb.Crc.{
  crc32, crc32_continue, continue_bytes, next_byte, next_eight, load_word, entry, complement,
}
use shibadb.Crc.Tables.{slice_0, slice_1, slice_2, slice_3, slice_4, slice_5, slice_6, slice_7}
use shibadb.Status.{ok}
use shibadb.Superblock
use shibadb.Superblock.{Superblock, superblock_encode, superblock_decode, superblock_stores}
use shibadb.Superblock.Sound.{IsSound, superblock_decode-IsSound, superblock_encode-IsSound}
use shibadb.Superblock.Fields.{IsWide}
use shibadb.Superblock.RoundTrip.{superblock_decode-encode}
use shibadb.Prelude.{arith, true, length, ◌≤◌, ℕ, ◌≡◌, refl, List, [], ◌∷◌, replicate, some, take}

abbrev pub plain : Superblock
plain = record {
  page_size = 4096;
  flags = 0;
  generation = 3;
  checkpoint_lsn = 9;
  root_page = 1;
  freelist_page = 0;
  next_page_id = 5;
  key_wrap_id = 0;
  kdf_iterations = 0;
  salt = replicate 16 0;
  file_id = replicate 16 7;
  wrapped_key = replicate 32 0;
  key_wrap_tag = replicate 16 0;
}

abbrev header : List ℕ
header =
    let output = run (zeros 160) (superblock_stores plain) in
    run output (write_u32_le 88 (crc32 (take 160 output)) ∷ [])

header-decodes : superblock_decode (some header) 160 ≡ ok plain
unfolding superblock_decode copy_to slice zeros same_bytes run read_u16_le read_u32_le read_u64_le
    read_u64_loop write_u16_le write_u32_le write_u64_le write_loop memcpy crc32 crc32_continue
    continue_bytes next_byte next_eight load_word entry complement slice_0 slice_1 slice_2 slice_3
    slice_4 slice_5 slice_6 slice_7 superblock_stores Superblock.any_nonzero Superblock.decoded
    Superblock.validate_superblock Superblock.validate_superblock_detailed Superblock.validate_keys
    Superblock.is_ok Superblock.is_power_of_two_u32 Superblock.page_geometry_valid
    Superblock.or_bytes Superblock.bytes_all_zero Superblock.encrypted Superblock.header_auth
header-decodes = refl

superblock_decode-IsSound_example : IsSound plain
superblock_decode-IsSound_example = superblock_decode-IsSound header 160 plain header-decodes

header-encodes : superblock_encode (some plain) true 160 ≡ ok header
unfolding superblock_encode copy_to slice zeros same_bytes run read_u16_le read_u32_le read_u64_le
    read_u64_loop write_u16_le write_u32_le write_u64_le write_loop memcpy crc32 crc32_continue
    continue_bytes next_byte next_eight load_word entry complement slice_0 slice_1 slice_2 slice_3
    slice_4 slice_5 slice_6 slice_7 superblock_stores Superblock.any_nonzero Superblock.decoded
    Superblock.validate_superblock Superblock.validate_superblock_detailed Superblock.validate_keys
    Superblock.is_ok Superblock.is_power_of_two_u32 Superblock.page_geometry_valid
    Superblock.or_bytes Superblock.bytes_all_zero Superblock.encrypted Superblock.header_auth
header-encodes = refl

superblock_encode-IsSound_example : IsSound plain × (160 ≤ 160) × (length header ≡ 160)
superblock_encode-IsSound_example = superblock_encode-IsSound plain true 160 header header-encodes

pub plain-IsWide : IsWide plain
plain-IsWide = record {
  page_size_fits = omega arith;
  flags_fit = omega arith;
  generation_fits = omega arith;
  lsn_fits = omega arith;
  root_fits = omega arith;
  freelist_fits = omega arith;
  next_fits = omega arith;
  wrap_id_fits = omega arith;
  iterations_fit = omega arith;
  salt_size = refl;
  file_id_size = refl;
  wrapped_key_size = refl;
  tag_size = refl;
  salt_bytes = omega arith;
  file_id_bytes = omega arith;
  wrapped_key_bytes = omega arith;
  tag_bytes = omega arith;
}

pub plain-valid : Superblock.validate_superblock (some plain) ≡ true
unfolding Superblock.validate_superblock Superblock.validate_superblock_detailed
    Superblock.validate_keys Superblock.is_ok Superblock.is_power_of_two_u32
    Superblock.page_geometry_valid Superblock.or_bytes Superblock.bytes_all_zero
    Superblock.encrypted Superblock.header_auth
plain-valid = refl

superblock_decode-encode_example :
    (output : List ℕ) × (superblock_encode (some plain) true 4096 ≡ ok output)
    × (superblock_decode (some output) 4096 ≡ ok plain)
    × (length output ≡ 4096)
superblock_decode-encode_example =
    superblock_decode-encode plain 4096 plain-IsWide (omega arith) plain-valid
