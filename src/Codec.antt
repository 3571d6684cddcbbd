-- ===== src/Codec.antt =====
-- src/codec.c: little-endian integers and overflow-checked arithmetic on `size_t`.
-- A pointer into a buffer is the list of the bytes from there on; a write is the store it makes.
pub mod RoundTrip
pub mod Buffers
pub mod Checked
use shibadb.Bytes.Stores.{Store}
use shibadb.Prelude.{
  ℕ, zero, suc, ◌+◌, ◌-◌, ◌*◌, ◌/◌, ◌^◌, bit_and, bit_or, List, [], ◌∷◌, get_or, Option, none, some,
  Bool, ◌&&◌, not, ◌==◌, ltb, if◌then◌else◌,
}

abbrev pub size_max : ℕ
size_max = 2 ^ 64 - 1

-- `none` is the result `false`, which leaves `*result` alone.
unfoldable pub checked_add_size : ℕ → ℕ → Option ℕ
checked_add_size left right = if ltb (size_max - left) right then none else some (left + right)

unfoldable pub checked_mul_size : ℕ → ℕ → Option ℕ
checked_mul_size left right =
    if not (left == 0) && ltb (size_max / left) right then none else some (left * right)

unfoldable pub read_u16_le : List ℕ → ℕ
read_u16_le input = bit_or (get_or input 0 0) (get_or input 1 0 * 2 ^ 8)

unfoldable pub read_u32_le : List ℕ → ℕ
read_u32_le input =
    bit_or
      (bit_or (bit_or (get_or input 0 0) (get_or input 1 0 * 2 ^ 8)) (get_or input 2 0 * 2 ^ 16))
      (get_or input 3 0 * 2 ^ 24)

-- The loop of `sdb_read_u64_le` with `rounds` left to run.
unfoldable pub read_u64_loop : ℕ → ℕ → ℕ → List ℕ → ℕ
read_u64_loop zero index value input = value
read_u64_loop (suc rounds) index value input =
    read_u64_loop rounds (index + 1) (bit_or value (get_or input index 0 * 2 ^ (index * 8))) input

unfoldable pub read_u64_le : List ℕ → ℕ
unfolding read_u64_loop
read_u64_le input = read_u64_loop 8 0 0 input

-- The bytes that the loop of a writer leaves: `(value >> (index * 8)) & 0xff` for each index.
unfoldable pub write_loop : ℕ → ℕ → ℕ → List ℕ
write_loop zero index value = []
write_loop (suc rounds) index value =
    bit_and (value / 2 ^ (index * 8)) 0xff ∷ write_loop rounds (index + 1) value

unfoldable pub write_u16_le : ℕ → ℕ → Store
write_u16_le output value = record {
  offset = output;
  size = 2;
  bytes = bit_and value 0xff ∷ bit_and (value / 2 ^ 8) 0xff ∷ [];
}

unfoldable pub write_u32_le : ℕ → ℕ → Store
unfolding write_loop
write_u32_le output value = record { offset = output; size = 4; bytes = write_loop 4 0 value }

unfoldable pub write_u64_le : ℕ → ℕ → Store
unfolding write_loop
write_u64_le output value = record { offset = output; size = 8; bytes = write_loop 8 0 value }

-- `memcpy(output + at, source, count)` of the `count` bytes of `source`
unfoldable pub memcpy : ℕ → ℕ → List ℕ → Store
memcpy output count source = record { offset = output; size = count; bytes = source }
