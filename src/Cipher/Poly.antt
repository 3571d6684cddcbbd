-- ===== src/Cipher/Poly.antt =====
-- src/xchacha20poly1305.c: Poly1305 in five limbs of 26 bits.
use shibadb.Codec.{read_u32_le, write_u32_le}
use shibadb.Prelude.{
  ℕ, zero, suc, ◌+◌, ◌-◌, ◌*◌, ◌/◌, ◌%◌, ◌^◌, bit_and, bit_or, bit_xor, List, [], ◌∷◌, ◌++◌, take,
  drop, length, replicate, not, ◌==◌, leb, if◌then◌else◌,
}

-- Five limbs
pub record Limbs : Type 0 where
  pub l0 : ℕ
  pub l1 : ℕ
  pub l2 : ℕ
  pub l3 : ℕ
  pub l4 : ℕ

-- `sdb_poly1305`; `buffer` is its first `buffered` bytes, and `pad` its four words.
pub record Poly1305 : Type 0 where
  pub r : Limbs
  pub h : Limbs
  pub pad0 : ℕ
  pub pad1 : ℕ
  pub pad2 : ℕ
  pub pad3 : ℕ
  pub buffer : List ℕ

-- `(uint32_t)value` and `(uint64_t)value`
abbrev pub to_u32 : ℕ → ℕ
to_u32 value = value % 2 ^ 32

abbrev pub to_u64 : ℕ → ℕ
to_u64 value = value % 2 ^ 64

-- The two halves of one round of the loop of `sdb_poly1305_blocks`: the block is added, and the sum
-- multiplied by `r`.
unfoldable pub add_block : Limbs → ℕ → List ℕ → Limbs
add_block h high_bit message = record {
  l0 = to_u32 (h.l0 + bit_and (read_u32_le message) 0x3ffffff);
  l1 = to_u32 (h.l1 + bit_and (read_u32_le (drop 3 message) / 2 ^ 2) 0x3ffffff);
  l2 = to_u32 (h.l2 + bit_and (read_u32_le (drop 6 message) / 2 ^ 4) 0x3ffffff);
  l3 = to_u32 (h.l3 + bit_and (read_u32_le (drop 9 message) / 2 ^ 6) 0x3ffffff);
  l4 = to_u32 (h.l4 + bit_or (read_u32_le (drop 12 message) / 2 ^ 8) high_bit);
}

-- A sum of five products in uint64_t
unfoldable pub dot : ℕ → ℕ → ℕ → ℕ → ℕ → Limbs → ℕ
dot a b c d e h = to_u64 (h.l0 * a + h.l1 * b + h.l2 * c + h.l3 * d + h.l4 * e)

unfoldable pub multiply : Limbs → Limbs → Limbs
multiply r h =
    let s1 = to_u32 (r.l1 * 5) in
    let s2 = to_u32 (r.l2 * 5) in
    let s3 = to_u32 (r.l3 * 5) in
    let s4 = to_u32 (r.l4 * 5) in
    let d0 = dot r.l0 s4 s3 s2 s1 h in
    let d1 = to_u64 (dot r.l1 r.l0 s4 s3 s2 h + to_u32 (d0 / 2 ^ 26)) in
    let d2 = to_u64 (dot r.l2 r.l1 r.l0 s4 s3 h + to_u32 (d1 / 2 ^ 26)) in
    let d3 = to_u64 (dot r.l3 r.l2 r.l1 r.l0 s4 h + to_u32 (d2 / 2 ^ 26)) in
    let d4 = to_u64 (dot r.l4 r.l3 r.l2 r.l1 r.l0 h + to_u32 (d3 / 2 ^ 26)) in
    let h0 = to_u32 (bit_and (to_u32 d0) 0x3ffffff + to_u32 (to_u32 (d4 / 2 ^ 26) * 5)) in
    record {
      l0 = bit_and h0 0x3ffffff;
      l1 = to_u32 (bit_and (to_u32 d1) 0x3ffffff + h0 / 2 ^ 26);
      l2 = bit_and (to_u32 d2) 0x3ffffff;
      l3 = bit_and (to_u32 d3) 0x3ffffff;
      l4 = bit_and (to_u32 d4) 0x3ffffff;
    }

-- `while (size >= 16U)`, `rounds` times.
unfoldable pub blocks_loop : ℕ → Limbs → ℕ → Limbs → List ℕ → Limbs
blocks_loop zero r high_bit h message = h
blocks_loop (suc rounds) r high_bit h message =
    blocks_loop rounds r high_bit (multiply r (add_block h high_bit message)) (drop 16 message)

unfoldable pub poly1305_blocks : Poly1305 → List ℕ → ℕ → Poly1305
poly1305_blocks context message high_bit = record context {
  h = blocks_loop (length message / 16) context.r high_bit context.h message;
}

unfoldable pub poly1305_init : List ℕ → Poly1305
poly1305_init key = record {
  r = record {
    l0 = bit_and (read_u32_le key) 0x3ffffff;
    l1 = bit_and (read_u32_le (drop 3 key) / 2 ^ 2) 0x3ffff03;
    l2 = bit_and (read_u32_le (drop 6 key) / 2 ^ 4) 0x3ffc0ff;
    l3 = bit_and (read_u32_le (drop 9 key) / 2 ^ 6) 0x3f03fff;
    l4 = bit_and (read_u32_le (drop 12 key) / 2 ^ 8) 0x00fffff;
  };
  h = record { l0 = 0; l1 = 0; l2 = 0; l3 = 0; l4 = 0 };
  pad0 = read_u32_le (drop 16 key);
  pad1 = read_u32_le (drop 20 key);
  pad2 = read_u32_le (drop 24 key);
  pad3 = read_u32_le (drop 28 key);
  buffer = [];
}

abbrev pub high_bit : ℕ
high_bit = 2 ^ 24

-- The first part of `sdb_poly1305_update`: the buffer is filled, and absorbed when it is full.
unfoldable pub update_buffered : Poly1305 → List ℕ → Poly1305
update_buffered context message =
    let filled = context.buffer ++ take (16 - length context.buffer) message in
    if length filled == 16
    then record (poly1305_blocks context filled high_bit) { buffer = [] }
    else record context { buffer = filled }

-- The rest of it: whole blocks, and what is left goes to the buffer.
unfoldable pub update_whole : Poly1305 → List ℕ → Poly1305
update_whole context message =
    let full_size = length message / 16 * 16 in
    let context' =
      if leb 16 (length message)
      then poly1305_blocks context (take full_size message) high_bit
      else context in
    let message' = if leb 16 (length message) then drop full_size message else message in
    if not (length message' == 0) then record context' { buffer = message' } else context'

unfoldable pub poly1305_update : Poly1305 → List ℕ → Poly1305
unfolding update_buffered update_whole
poly1305_update context message =
    if not (length context.buffer == 0)
    then update_whole (update_buffered context message) (drop (16 - length context.buffer) message)
    else update_whole context message

-- The last block, padded by a one and zeros.
unfoldable pub finish_buffer : Poly1305 → Poly1305
finish_buffer context =
    if not (length context.buffer == 0)
    then poly1305_blocks context
        (context.buffer ++ (1 ∷ replicate (16 - (length context.buffer + 1)) 0)) 0
    else context

-- The carries of `sdb_poly1305_final`.
unfoldable pub full_carry : Limbs → Limbs
full_carry h =
    let h2 = to_u32 (h.l2 + h.l1 / 2 ^ 26) in
    let h3 = to_u32 (h.l3 + h2 / 2 ^ 26) in
    let h4 = to_u32 (h.l4 + h3 / 2 ^ 26) in
    let h0 = to_u32 (h.l0 + to_u32 (h4 / 2 ^ 26 * 5)) in
    record {
      l0 = bit_and h0 0x3ffffff;
      l1 = to_u32 (bit_and h.l1 0x3ffffff + h0 / 2 ^ 26);
      l2 = bit_and h2 0x3ffffff;
      l3 = bit_and h3 0x3ffffff;
      l4 = bit_and h4 0x3ffffff;
    }

-- `h + 5 - 2^130` in limbs, where `g4` wraps below zero.
unfoldable pub minus_prime : Limbs → Limbs
minus_prime h =
    let g0 = to_u32 (h.l0 + 5) in
    let g1 = to_u32 (h.l1 + g0 / 2 ^ 26) in
    let g2 = to_u32 (h.l2 + g1 / 2 ^ 26) in
    let g3 = to_u32 (h.l3 + g2 / 2 ^ 26) in
    record {
      l0 = bit_and g0 0x3ffffff;
      l1 = bit_and g1 0x3ffffff;
      l2 = bit_and g2 0x3ffffff;
      l3 = bit_and g3 0x3ffffff;
      l4 = to_u32 (h.l4 + g3 / 2 ^ 26 + (2 ^ 32 - 2 ^ 26));
    }

-- `g &= mask; mask = ~mask; h = (h & mask) | g`, where `mask` is zero when `g4` wrapped and all ones
-- when not.
unfoldable pub select_limb : ℕ → ℕ → ℕ → ℕ
select_limb mask h g = bit_or (bit_and h (bit_xor mask 0xffffffff)) (bit_and g mask)

unfoldable pub reduce : Limbs → Limbs
reduce h =
    let g = minus_prime h in
    let mask = to_u32 (g.l4 / 2 ^ 31 + (2 ^ 32 - 1)) in
    record {
      l0 = select_limb mask h.l0 g.l0;
      l1 = select_limb mask h.l1 g.l1;
      l2 = select_limb mask h.l2 g.l2;
      l3 = select_limb mask h.l3 g.l3;
      l4 = select_limb mask h.l4 g.l4;
    }

unfoldable pub poly1305_final : Poly1305 → List ℕ
unfolding finish_buffer full_carry minus_prime reduce
poly1305_final context =
    let h = reduce (full_carry (finish_buffer context).h) in
    let f0 = bit_or h.l0 (to_u32 (h.l1 * 2 ^ 26)) + context.pad0 in
    let f1 = bit_or (h.l1 / 2 ^ 6) (to_u32 (h.l2 * 2 ^ 20)) + context.pad1 + f0 / 2 ^ 32 in
    let f2 = bit_or (h.l2 / 2 ^ 12) (to_u32 (h.l3 * 2 ^ 14)) + context.pad2 + f1 / 2 ^ 32 in
    let f3 = bit_or (h.l3 / 2 ^ 18) (to_u32 (h.l4 * 2 ^ 8)) + context.pad3 + f2 / 2 ^ 32 in
    (write_u32_le 0 (to_u32 f0)).bytes
    ++ ((write_u32_le 4 (to_u32 f1)).bytes
        ++ ((write_u32_le 8 (to_u32 f2)).bytes ++ (write_u32_le 12 (to_u32 f3)).bytes))

unfoldable pub pad16 : Poly1305 → ℕ → Poly1305
pad16 context size =
    let remainder = bit_and size 15 in
    if not (remainder == 0) then poly1305_update context (replicate (16 - remainder) 0) else context
