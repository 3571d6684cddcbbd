-- ===== src/Crc.antt =====
-- src/checksum.c: CRC-32/ISO-HDLC by eight tables, eight input bytes a round.
-- The pair of a pointer and a size is the list of the bytes.
pub mod Tables
pub mod Bitwise
pub mod TableLaws
pub mod Equivalence
pub mod Reference
pub mod Detect
use shibadb.Prelude.{
  ℕ, ◌+◌, ◌*◌, ◌/◌, ◌^◌, bit_and, bit_or, bit_xor, List, [], ◌∷◌, get_or, take, drop, length, ltb,
  ◌-◌, ◌||◌, if◌then◌else◌, zero, suc, ◌<◌,
}
use Tables.{slice_0, slice_1, slice_2, slice_3, slice_4, slice_5, slice_6, slice_7}

-- `sdb_crc32_slice[k][index]`; every caller masks the index to eight bits or passes a byte.
unfoldable pub entry : List ℕ → ℕ → ℕ
entry table index = get_or table index 0

-- One round of the byte loop.
unfoldable pub next_byte : ℕ → ℕ → ℕ
next_byte crc b = bit_xor (crc / 2 ^ 8) (entry slice_0 (bit_and (bit_xor crc b) 0xff))

-- `crc ^= data[index] | data[index + 1] << 8 | data[index + 2] << 16 | data[index + 3] << 24`
unfoldable pub load_word : ℕ → ℕ → ℕ → ℕ → ℕ → ℕ
load_word crc a b c d =
    bit_xor crc (bit_or (bit_or (bit_or a (b * 2 ^ 8)) (c * 2 ^ 16)) (d * 2 ^ 24))

-- The eight lookups of one round of the main loop; `word` is the checksum with four bytes loaded.
unfoldable pub next_eight : ℕ → ℕ → ℕ → ℕ → ℕ → ℕ
next_eight word e f g h =
    bit_xor
      (bit_xor
        (bit_xor
          (bit_xor
            (bit_xor
              (bit_xor
                (bit_xor (entry slice_7 (bit_and word 0xff))
                  (entry slice_6 (bit_and (word / 2 ^ 8) 0xff)))
                (entry slice_5 (bit_and (word / 2 ^ 16) 0xff)))
              (entry slice_4 (bit_and (word / 2 ^ 24) 0xff)))
            (entry slice_3 e))
          (entry slice_2 f))
        (entry slice_1 g))
      (entry slice_0 h)

-- `for (; index < size; ++index)`: the bytes that are left.
unfoldable pub continue_bytes : ℕ → List ℕ → ℕ
continue_bytes crc [] = crc
continue_bytes crc (b ∷ bytes) = continue_bytes (next_byte crc b) bytes

-- `sdb_crc32_continue`: the main loop runs while eight bytes are left.
unfoldable pub crc32_continue : ℕ → List ℕ → ℕ
crc32_continue crc (a ∷ b ∷ c ∷ d ∷ e ∷ f ∷ g ∷ h ∷ bytes) =
    crc32_continue (next_eight (load_word crc a b c d) e f g h) bytes
crc32_continue crc bytes = continue_bytes crc bytes

-- `~crc` on a uint32_t
unfoldable pub complement : ℕ → ℕ
complement crc = bit_xor crc 0xffffffff

unfoldable pub crc32 : List ℕ → ℕ
crc32 bytes = complement (crc32_continue 0xffffffff bytes)

-- The loop over the zeroed range: `n` rounds of a zero byte.
unfoldable pub continue_zeros : ℕ → ℕ → ℕ
continue_zeros zero crc = crc
continue_zeros (suc n) crc =
    continue_zeros n (bit_xor (crc / 2 ^ 8) (entry slice_0 (bit_and crc 0xff)))

unfoldable pub crc32_zeroed_range : List ℕ → ℕ → ℕ → ℕ
crc32_zeroed_range bytes zero_offset zero_size =
    if ltb (length bytes) zero_offset || ltb (length bytes - zero_offset) zero_size
    then 0
    else complement (
        crc32_continue
          (continue_zeros zero_size (crc32_continue 0xffffffff (take zero_offset bytes)))
          (drop (zero_offset + zero_size) bytes))

-- A C byte
abbrev pub IsByte : ℕ → Type 0
IsByte b = b < 256
