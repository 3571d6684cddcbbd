-- ===== src/Superblock/Sound.antt =====
-- What a superblock that is accepted or written satisfies.
use native.Mathlib.Nat.{div-mul-le_self, mul-le-mul_right}
use shibadb.Bytes.{zeros}
use shibadb.Bytes.Laws.{length-zeros}
use shibadb.Bytes.Stores.{run, length-run}
use shibadb.Codec.{write_u32_le}
use shibadb.Crc.{crc32}
use shibadb.Status.{ok}
use shibadb.Superblock.{
  superblock_encode, superblock_stores, header_size, Superblock, SbField, field_page_size,
  field_flags, field_next_page_id, field_root_page, field_freelist_page, is_ok,
  validate_superblock_detailed, validate_superblock, page_geometry_valid, superblock_decode,
  decoded, data_offset,
}
use shibadb.Prelude.{
  [], ◌∷◌, take, length, ℕ, ◌+◌, ◌-◌, ◌*◌, ◌/◌, ◌^◌, ◌<◌, ◌≤◌, ◌≡◌, refl, arith, List, some, Bool,
  true, false, not, ◌||◌, leb, ltb, sym, if◌then◌else◌,
}

-- The pages that a superblock names are below the next page, and the offset of every page below it,
-- after the two slots of the superblock, fits 64 bits.
pub record IsSound (sb : Superblock) : Type 0 where
  pub size_low : 4096 ≤ sb.page_size
  pub size_high : sb.page_size ≤ 65536
  pub root : sb.root_page < sb.next_page_id
  pub freelist : sb.freelist_page < sb.next_page_id
  pub offsets :
      (page_id : ℕ) → page_id < sb.next_page_id → data_offset + page_id * sb.page_size < 2 ^ 64

-- What the test of the geometry checks.
geometry_bound :
    (next_page_id page_size : ℕ)
    → page_geometry_valid next_page_id page_size ≡ true
    → next_page_id - 1 ≤ (2 ^ 64 - 1 - data_offset) / page_size
unfolding page_geometry_valid
geometry_bound next_page_id page_size h = ground arith

geometry :
    (next_page_id page_size page_id : ℕ)
    → page_geometry_valid next_page_id page_size ≡ true
    → page_id < next_page_id
    → data_offset + page_id * page_size < 2 ^ 64
geometry next_page_id page_size page_id h below =
    let bound : page_id ≤ (2 ^ 64 - 1 - data_offset) / page_size =
      omega (arith, geometry_bound next_page_id page_size h) in
    omega (
      arith,
      mul-le-mul_right page_size bound,
      div-mul-le_self (2 ^ 64 - 1 - data_offset) page_size,
    )

-- A check that did not end the validation was passed.
passed :
    (bad : Bool) (field rest : SbField)
    → is_ok field ≡ false
    → is_ok (if bad then field else rest) ≡ true
    → (bad ≡ false) × (is_ok rest ≡ true)
passed true field rest e h = absurd (cc (e, h))
passed false field rest e h = (refl, h)

valid-IsSound : (sb : Superblock) → validate_superblock (some sb) ≡ true → IsSound sb
unfolding validate_superblock validate_superblock_detailed is_ok
valid-IsSound sb h =
    let (size, h1) = passed _ field_page_size _ refl h in
    let (flags, h2) = passed _ field_flags _ refl h1 in
    let (space, h3) = passed _ field_next_page_id _ refl h2 in
    let (root, h4) = passed _ field_root_page _ refl h3 in
    let (freelist, h5) = passed _ field_freelist_page _ refl h4 in
    record {
      size_low = (in_range sb.page_size _ size).0;
      size_high = (in_range sb.page_size _ size).1;
      root = above sb.next_page_id sb.root_page root;
      freelist = above sb.next_page_id sb.freelist_page freelist;
      offsets =
          λ page_id below. geometry sb.next_page_id sb.page_size page_id (positive _ space) below;
    }
  where
    in_range :
        (n : ℕ) (other : Bool)
        → (ltb n 4096 || ltb 65536 n || other) ≡ false
        → (4096 ≤ n) × (n ≤ 65536)
    in_range n other e = (ground arith, ground arith)

    above : (n page : ℕ) → leb n page ≡ false → page < n
    above n page e = ground arith

    positive : (b : Bool) → not b ≡ false → b ≡ true
    positive true e = refl
    positive false e = absurd (cc e)

superblock_decode-valid :
    (input : List ℕ) (input_size : ℕ) (sb : Superblock)
    → superblock_decode (some input) input_size ≡ ok sb
    → (validate_superblock (some (decoded input)) ≡ true) × (decoded input ≡ sb)
unfolding superblock_decode
superblock_decode-valid input input_size sb h = ground arith

-- A superblock that is decoded has a page size from 4096 to 65536, names a root page and a free-list
-- page below its next page, and leaves the offset of every page below that within 64 bits.
pub superblock_decode-IsSound :
    (input : List ℕ) (input_size : ℕ) (sb : Superblock)
    → superblock_decode (some input) input_size ≡ ok sb
    → IsSound sb
superblock_decode-IsSound input input_size sb h =
    let (valid, same) = superblock_decode-valid input input_size sb h in
    rw (sym same) (valid-IsSound (decoded input) valid)

superblock_encode-valid :
    (sb : Superblock) (has_output : Bool) (output_size : ℕ) (output : List ℕ)
    → superblock_encode (some sb) has_output output_size ≡ ok output
    → (validate_superblock (some sb) ≡ true) × (header_size ≤ output_size)
unfolding superblock_encode
superblock_encode-valid sb has_output output_size output h = ground arith

superblock_encode-length :
    (sb : Superblock) (has_output : Bool) (output_size : ℕ) (output : List ℕ)
    → superblock_encode (some sb) has_output output_size ≡ ok output
    → length output ≡ output_size
unfolding superblock_encode
superblock_encode-length sb has_output output_size output h = ground (
  arith,
  length-run (run (zeros output_size) (superblock_stores sb)) (
      write_u32_le 88 (crc32 (take header_size (run (zeros output_size) (superblock_stores sb))))
      ∷ []),
  length-run (zeros output_size) (superblock_stores sb),
  length-zeros output_size,
)

-- A superblock is written only if it is sound, over the whole of a buffer that holds the header.
pub superblock_encode-IsSound :
    (sb : Superblock) (has_output : Bool) (output_size : ℕ) (output : List ℕ)
    → superblock_encode (some sb) has_output output_size ≡ ok output
    → IsSound sb × (header_size ≤ output_size) × (length output ≡ output_size)
superblock_encode-IsSound sb has_output output_size output h =
    let (valid, room) = superblock_encode-valid sb has_output output_size output h in
    (valid-IsSound sb valid, room, superblock_encode-length sb has_output output_size output h)
