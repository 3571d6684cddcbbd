-- ===== src/Tests/Signed.antt =====
-- An authenticated read of a concrete file, whose first slot is signed and whose second is blank.
use shibadb.Bytes.{copy_to, slice, zeros, same_bytes}
use shibadb.Bytes.Stores.{run}
use shibadb.Bytes.Laws.{length-zeros}
use shibadb.Cipher.Aead.{constant_time_equal, difference_loop}
use shibadb.Codec.{read_u16_le, read_u32_le, read_u64_le, read_u64_loop, memcpy}
use shibadb.Crc.{
  crc32, crc32_continue, continue_bytes, next_byte, next_eight, load_word, entry, complement,
}
use shibadb.Crc.Tables.{slice_0, slice_1, slice_2, slice_3, slice_4, slice_5, slice_6, slice_7}
use shibadb.Sha256
use shibadb.Sha256.Hmac.{hmac_sha256, normalize, make_pad}
use shibadb.Status.{ok}
use shibadb.Superblock
use shibadb.Superblock.{Superblock, superblock_decode}
use shibadb.SuperblockStore.{
  Slot, ReadResult, mirror, valid_slot, slot_padding_is_zero, slot_auth_tag_matches, authenticated,
  select_slot, result_of, read_authenticated_file,
}
use shibadb.SuperblockStore.Authentic.{IsAuthentic, read_authenticated_file-IsAuthentic}
use shibadb.SuperblockStore.Slots.{at_slot, load_slots-eq}
use shibadb.Prelude.{
  ℕ, ◌≡◌, ◌≤◌, refl, ap, ◌∙◌, arith, List, [], ◌∷◌, ◌++◌, replicate, length, length-append, drop,
  some, none, true,
}

abbrev data_key : List ℕ
data_key = replicate 32 1

abbrev signed : Superblock
signed = record {
  page_size = 4096;
  flags = 3;
  generation = 3;
  checkpoint_lsn = 9;
  root_page = 1;
  freelist_page = 0;
  next_page_id = 5;
  key_wrap_id = 1;
  kdf_iterations = 600000;
  salt = replicate 16 6;
  file_id = replicate 16 7;
  wrapped_key = replicate 32 8;
  key_wrap_tag = replicate 16 9;
}

abbrev header : List ℕ
header =
    83 ∷ 72 ∷ 73 ∷ 66 ∷ 65 ∷ 67 ∷ 48 ∷ 49 ∷ 2 ∷ 0 ∷ 160 ∷ 0 ∷ 0 ∷ 16 ∷ 0 ∷ 0 ∷ 3 ∷ 0 ∷ 0 ∷ 0 ∷ 0 ∷ 0
    ∷ 0 ∷ 0 ∷ 3 ∷ 0 ∷ 0 ∷ 0 ∷ 0 ∷ 0 ∷ 0 ∷ 0 ∷ 9 ∷ 0 ∷ 0 ∷ 0 ∷ 0 ∷ 0 ∷ 0 ∷ 0 ∷ 1 ∷ 0 ∷ 0 ∷ 0 ∷ 0 ∷ 0
    ∷ 0 ∷ 0 ∷ 0 ∷ 0 ∷ 0 ∷ 0 ∷ 0 ∷ 0 ∷ 0 ∷ 0 ∷ 6 ∷ 6 ∷ 6 ∷ 6 ∷ 6 ∷ 6 ∷ 6 ∷ 6 ∷ 6 ∷ 6 ∷ 6 ∷ 6 ∷ 6 ∷ 6
    ∷ 6 ∷ 6 ∷ 7 ∷ 7 ∷ 7 ∷ 7 ∷ 7 ∷ 7 ∷ 7 ∷ 7 ∷ 7 ∷ 7 ∷ 7 ∷ 7 ∷ 7 ∷ 7 ∷ 7 ∷ 7 ∷ 130 ∷ 29 ∷ 151 ∷ 231
    ∷ 5 ∷ 0 ∷ 0 ∷ 0 ∷ 0 ∷ 0 ∷ 0 ∷ 0 ∷ 1 ∷ 0 ∷ 0 ∷ 0 ∷ 192 ∷ 39 ∷ 9 ∷ 0 ∷ 8 ∷ 8 ∷ 8 ∷ 8 ∷ 8 ∷ 8 ∷ 8
    ∷ 8 ∷ 8 ∷ 8 ∷ 8 ∷ 8 ∷ 8 ∷ 8 ∷ 8 ∷ 8 ∷ 8 ∷ 8 ∷ 8 ∷ 8 ∷ 8 ∷ 8 ∷ 8 ∷ 8 ∷ 8 ∷ 8 ∷ 8 ∷ 8 ∷ 8 ∷ 8 ∷ 8
    ∷ 8 ∷ 9 ∷ 9 ∷ 9 ∷ 9 ∷ 9 ∷ 9 ∷ 9 ∷ 9 ∷ 9 ∷ 9 ∷ 9 ∷ 9 ∷ 9 ∷ 9 ∷ 9 ∷ 9 ∷ 0 ∷ 0 ∷ 0 ∷ 0 ∷ []

abbrev tag : List ℕ
tag =
    68 ∷ 58 ∷ 116 ∷ 5 ∷ 81 ∷ 189 ∷ 41 ∷ 161 ∷ 81 ∷ 55 ∷ 184 ∷ 253 ∷ 120 ∷ 207 ∷ 160 ∷ 148 ∷ 101
    ∷ 110 ∷ 191 ∷ 23 ∷ 223 ∷ 9 ∷ 205 ∷ 125 ∷ 85 ∷ 154 ∷ 73 ∷ 236 ∷ 255 ∷ 44 ∷ 216 ∷ 73 ∷ []

tag_of_header : hmac_sha256 data_key header ≡ tag
unfolding hmac_sha256 normalize make_pad Sha256.sha256 Sha256.sha256_init Sha256.sha256_update
    Sha256.rotr32 Sha256.read_u32_be Sha256.write_u32_be Sha256.load_words Sha256.next_word
    Sha256.extend Sha256.compress_round Sha256.compress Sha256.add_words Sha256.transform
    Sha256.flush_full Sha256.take_chunk Sha256.update_loop Sha256.length_bytes Sha256.close_message
    Sha256.write_state Sha256.sha256_final Sha256.update_nonempty
tag_of_header = refl

abbrev slot_bytes : List ℕ
slot_bytes = header ++ (tag ++ replicate 3904 0)

abbrev slot : Slot
slot = record { slot_bytes = slot_bytes; decoded = signed }

slot-decodes : superblock_decode (some slot_bytes) 4096 ≡ ok signed
unfolding superblock_decode copy_to slice zeros same_bytes run read_u16_le read_u32_le read_u64_le
    read_u64_loop memcpy crc32 crc32_continue continue_bytes next_byte next_eight load_word entry
    complement slice_0 slice_1 slice_2 slice_3 slice_4 slice_5 slice_6 slice_7
    Superblock.any_nonzero Superblock.decoded Superblock.validate_superblock
    Superblock.validate_superblock_detailed Superblock.validate_keys Superblock.is_ok
    Superblock.is_power_of_two_u32 Superblock.page_geometry_valid Superblock.or_bytes
    Superblock.bytes_all_zero Superblock.encrypted Superblock.header_auth
slot-decodes = refl

padded : slot_padding_is_zero slot_bytes signed ≡ true
unfolding slot_padding_is_zero Superblock.any_nonzero Superblock.header_auth
padded = refl

slot-valid : mirror slot_bytes ≡ some slot
unfolding mirror valid_slot
slot-valid = ap (valid_slot slot_bytes) slot-decodes ∙ rw padded refl

matches : slot_auth_tag_matches slot data_key ≡ true
unfolding slot_auth_tag_matches
matches =
    ap (λ (t : List ℕ). constant_time_equal t (drop 160 slot_bytes) 32) tag_of_header ∙ same_tag
  where
    same_tag : constant_time_equal tag (drop 160 slot_bytes) 32 ≡ true
    same_tag = unfold constant_time_equal difference_loop in refl

counts : authenticated data_key (some slot) ≡ some slot
unfolding authenticated Superblock.header_auth
counts = rw matches refl

abbrev file_bytes : List ℕ
file_bytes = slot_bytes ++ zeros 4096

first_slot : at_slot file_bytes 0 ≡ some slot
unfolding slice zeros
first_slot = slot-valid

second_slot : at_slot file_bytes 1 ≡ none
unfolding mirror valid_slot superblock_decode slice zeros same_bytes
second_slot = refl

two_slots : 8192 ≤ length file_bytes
two_slots = omega (arith, length-append slot_bytes (zeros 4096), length-zeros 4096)

abbrev result : ReadResult
result = result_of slot 1 0

reads :
    (read_authenticated_file
      (some data_key)
      (record { bytes = file_bytes; budget = 2; torn = [] })).0
    ≡ ok result
unfolding read_authenticated_file
reads = rw (load_slots-eq file_bytes [] 0 two_slots) selected
  where
    selected :
        select_slot
          (authenticated data_key (at_slot file_bytes 0))
          (authenticated data_key (at_slot file_bytes 1))
        ≡ ok result
    selected = rw (first_slot, second_slot, counts) (unfold authenticated select_slot in refl)

read_authenticated_file-IsAuthentic_example : IsAuthentic file_bytes data_key result
read_authenticated_file-IsAuthentic_example =
    read_authenticated_file-IsAuthentic file_bytes [] data_key 0 two_slots result reads
