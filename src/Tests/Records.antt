-- ===== src/Tests/Records.antt =====
-- Checksums, integers, pages and commit records at concrete inputs.
use mathlib.Core.List.{append-nil}
use shibadb.Bytes.{IsByte, copy_to, zeros}
use shibadb.Bytes.Stores.{run}
use shibadb.Codec.{
  checked_add_size, checked_mul_size, size_max, write_u16_le, write_u32_le, write_u64_le, memcpy,
}
use shibadb.Codec.Checked.{checked_add_size_exact, checked_mul_size_exact}
use shibadb.Crc.{
  crc32, crc32_zeroed_range, crc32_continue, continue_bytes, next_byte, next_eight, load_word,
  entry, complement,
}
use shibadb.Crc.Bitwise.{crc_of}
use shibadb.Crc.Reference.{crc32-eq-crc_of, crc32_zeroed_range-eq-crc32, zero_out}
use shibadb.Crc.Detect.{crc32_detects_byte}
use shibadb.Crc.Tables.{slice_0, slice_1, slice_2, slice_3, slice_4, slice_5, slice_6, slice_7}
use shibadb.Page
use shibadb.Page.{PageView, page_encode, page_decode}
use shibadb.Page.RoundTrip.{IsEncodable, page_decode-page_encode, view}
use shibadb.Page.Canonical.{page_encode-page_decode}
use shibadb.Page.Detect.{page_decode_detects_change}
use shibadb.Status.{ok}
use shibadb.Wal.Size.{expected_size, expected_size_exact}
use shibadb.Wal.Commit.{CommitRec, encode_commit_rec, decode_commit_rec}
use shibadb.Wal.Commit.RoundTrip.{
  encode_commit_rec-IsByte, decode-encode_commit_rec, decode_commit_rec_detects_change,
}
use shibadb.Prelude.{
  ℕ, ◌+◌, ◌^◌, ◌≡◌, refl, arith, List, [], ◌∷◌, ◌++◌, All, some, none, length, get_or, set, ◌%◌,
  ◌≢◌,
}

-- "123456789", whose CRC-32 is the check value of the standard.
abbrev digits : List ℕ
digits = b'1' ∷ b'2' ∷ b'3' ∷ b'4' ∷ b'5' ∷ b'6' ∷ b'7' ∷ b'8' ∷ b'9' ∷ []

crc32-digits : crc32 digits ≡ 0xcbf43926
unfolding crc32 crc32_continue continue_bytes next_byte next_eight load_word entry complement
    slice_0 slice_1 slice_2 slice_3 slice_4 slice_5 slice_6 slice_7
crc32-digits = refl

crc32-eq-crc_of_example : crc32 digits ≡ crc_of digits
crc32-eq-crc_of_example = crc32-eq-crc_of digits (omega arith)

crc32_zeroed_range-eq-crc32_example : crc32_zeroed_range digits 2 4 ≡ crc32 (zero_out digits 2 4)
crc32_zeroed_range-eq-crc32_example = crc32_zeroed_range-eq-crc32 digits 2 4 (omega arith)

crc32_detects_byte_example :
    crc32 ((1 ∷ 2 ∷ []) ++ (7 ∷ 3 ∷ [])) ≢ crc32 ((1 ∷ 2 ∷ []) ++ (8 ∷ 3 ∷ []))
crc32_detects_byte_example =
    crc32_detects_byte (1 ∷ 2 ∷ []) (3 ∷ []) 7 8 (omega arith) (omega arith) (omega arith)
      (omega arith) (omega arith)

checked_add_size_exact_example : checked_add_size size_max 1 ≡ none
checked_add_size_exact_example = checked_add_size_exact size_max 1 (omega arith)

checked_mul_size_exact_example : checked_mul_size (2 ^ 32) (2 ^ 32) ≡ none
checked_mul_size_exact_example = checked_mul_size_exact (2 ^ 32) (2 ^ 32)

abbrev hello : List ℕ
hello = b'h' ∷ b'i' ∷ []

hello-IsEncodable : IsEncodable 4096 1 7 3 hello
hello-IsEncodable = record {
  size_valid = unfold Page.page_size_invalid in refl;
  type_valid = unfold Page.page_type_valid in refl;
  id_nonzero = omega arith;
  id_fits = omega arith;
  lsn_fits = omega arith;
  payload_fits = omega arith;
  payload_bytes = omega arith;
}

-- The page that the arguments encode to.
abbrev page : List ℕ
page = (page_decode-page_encode [] hello-IsEncodable).0

page_decode-page_encode_example :
    (page : List ℕ) × (page_encode (some []) 4096 1 7 3 (some hello) (length hello) ≡ ok page)
    × (page_decode (some page) 4096 7 ≡ ok (view [] hello-IsEncodable))
    × (length page ≡ 4096)
    × All IsByte page
page_decode-page_encode_example = page_decode-page_encode [] hello-IsEncodable

page-decodes : page_decode (some page) 4096 7 ≡ ok (view [] hello-IsEncodable)
page-decodes = (page_decode-page_encode [] hello-IsEncodable).2

page-length : length page ≡ 4096
page-length = (page_decode-page_encode [] hello-IsEncodable).3

page-bytes : All IsByte page
page-bytes = (page_decode-page_encode [] hello-IsEncodable).4

page_encode-page_decode_example : page_encode (some []) 4096 1 7 3 (some hello) 2 ≡ ok page
page_encode-page_decode_example =
    page_encode-page_decode page [] 4096 7 (view [] hello-IsEncodable) page-length page-bytes
      page-decodes

-- The byte at 100 counted up by one.
page_decode_detects_change_example :
    page_decode (some (set page 100 ((get_or page 100 0 + 1) % 256))) 4096 7
    ≢ ok (view [] hello-IsEncodable)
page_decode_detects_change_example =
    page_decode_detects_change page 4096 7 100 ((get_or page 100 0 + 1) % 256)
      (view [] hello-IsEncodable) (view [] hello-IsEncodable) page-bytes page-length page-decodes
      (omega arith) (omega arith) (omega arith)

abbrev rec : CommitRec
rec = record { txn_id = 9; frame_count = 2; next_page_id = 5; freelist_page = 0 }

decode-encode_commit_rec_example :
    decode_commit_rec
      (some (encode_commit_rec rec 77 ++ (1 ∷ [])))
      (length (encode_commit_rec rec 77 ++ (1 ∷ [])))
    ≡ ok (rec, 77)
decode-encode_commit_rec_example = decode-encode_commit_rec rec 77 (1 ∷ []) (omega arith)

abbrev record_bytes : List ℕ
record_bytes = encode_commit_rec rec 77 ++ []

record-IsByte : All IsByte record_bytes
record-IsByte = rw append-nil (encode_commit_rec-IsByte rec 77 [])

decode_commit_rec_detects_change_example :
    decode_commit_rec (some (set record_bytes 9 1)) 44 ≢ ok (rec, 77)
unfolding encode_commit_rec run copy_to zeros decode_commit_rec memcpy write_u16_le write_u64_le
    write_u32_le
decode_commit_rec_detects_change_example =
    decode_commit_rec_detects_change record_bytes 9 1 (rec, 77) (rec, 77) record-IsByte refl
      (decode-encode_commit_rec rec 77 [] (omega arith)) (omega arith) (omega arith)
      (λ e. absurd (omega arith))

expected_size_exact_example : expected_size 4096 3 ≡ ok 12400
expected_size_exact_example = expected_size_exact 4096 3 (omega arith)
