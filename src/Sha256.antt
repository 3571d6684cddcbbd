-- ===== src/Sha256.antt =====
-- src/sha256.c: SHA-256 in its portable path, as in a build without SDB_CPU_X86.
pub mod Streaming
pub mod Hmac
pub mod Pads
pub mod Derive
use shibadb.Prelude.{
  ℕ, zero, suc, ◌+◌, ◌-◌, ◌*◌, ◌/◌, ◌%◌, ◌^◌, bit_and, bit_or, bit_xor, List, [], ◌∷◌, ◌++◌, get_or,
  take, drop, length, replicate, Bool, true, false, not, ◌==◌, ltb, if◌then◌else◌,
}

abbrev pub sha256_constants : List ℕ
sha256_constants =
    0x428a2f98 ∷ 0x71374491 ∷ 0xb5c0fbcf ∷ 0xe9b5dba5 ∷ 0x3956c25b ∷ 0x59f111f1 ∷ 0x923f82a4
    ∷ 0xab1c5ed5 ∷ 0xd807aa98 ∷ 0x12835b01 ∷ 0x243185be ∷ 0x550c7dc3 ∷ 0x72be5d74 ∷ 0x80deb1fe
    ∷ 0x9bdc06a7 ∷ 0xc19bf174 ∷ 0xe49b69c1 ∷ 0xefbe4786 ∷ 0x0fc19dc6 ∷ 0x240ca1cc ∷ 0x2de92c6f
    ∷ 0x4a7484aa ∷ 0x5cb0a9dc ∷ 0x76f988da ∷ 0x983e5152 ∷ 0xa831c66d ∷ 0xb00327c8 ∷ 0xbf597fc7
    ∷ 0xc6e00bf3 ∷ 0xd5a79147 ∷ 0x06ca6351 ∷ 0x14292967 ∷ 0x27b70a85 ∷ 0x2e1b2138 ∷ 0x4d2c6dfc
    ∷ 0x53380d13 ∷ 0x650a7354 ∷ 0x766a0abb ∷ 0x81c2c92e ∷ 0x92722c85 ∷ 0xa2bfe8a1 ∷ 0xa81a664b
    ∷ 0xc24b8b70 ∷ 0xc76c51a3 ∷ 0xd192e819 ∷ 0xd6990624 ∷ 0xf40e3585 ∷ 0x106aa070 ∷ 0x19a4c116
    ∷ 0x1e376c08 ∷ 0x2748774c ∷ 0x34b0bcb5 ∷ 0x391c0cb3 ∷ 0x4ed8aa4a ∷ 0x5b9cca4f ∷ 0x682e6ff3
    ∷ 0x748f82ee ∷ 0x78a5636f ∷ 0x84c87814 ∷ 0x8cc70208 ∷ 0x90befffa ∷ 0xa4506ceb ∷ 0xbef9a3f7
    ∷ 0xc67178f2 ∷ []

-- `(uint32_t)value`
abbrev pub to_u32 : ℕ → ℕ
to_u32 value = value % 2 ^ 32

unfoldable pub rotr32 : ℕ → ℕ → ℕ
rotr32 value amount = bit_or (value / 2 ^ amount) (to_u32 (value * 2 ^ (32 - amount)))

unfoldable pub read_u32_be : List ℕ → ℕ
read_u32_be input =
    bit_or
      (bit_or (bit_or (get_or input 0 0 * 2 ^ 24) (get_or input 1 0 * 2 ^ 16))
        (get_or input 2 0 * 2 ^ 8))
      (get_or input 3 0)

-- The four bytes that `sdb_write_u32_be` writes.
unfoldable pub write_u32_be : ℕ → List ℕ
write_u32_be value =
    value / 2 ^ 24 % 256 ∷ value / 2 ^ 16 % 256 ∷ value / 2 ^ 8 % 256 ∷ value % 256 ∷ []

-- Eight words: `state`, and the variables `a` to `h` of the transform.
pub record Words : Type 0 where
  pub a : ℕ
  pub b : ℕ
  pub c : ℕ
  pub d : ℕ
  pub e : ℕ
  pub f : ℕ
  pub g : ℕ
  pub h : ℕ

-- `sdb_sha256_context`; `buffer` is its first `buffered` bytes.
pub record Sha256Context : Type 0 where
  pub state : Words
  pub bit_count : ℕ
  pub buffer : List ℕ

-- `schedule[index] = sdb_read_u32_be(block + (index * 4U))`, `count` times.
unfoldable pub load_words : ℕ → List ℕ → List ℕ
load_words zero block = []
load_words (suc count) block = read_u32_be block ∷ load_words count (drop 4 block)

-- `schedule[index]` from the words before it.
unfoldable pub next_word : ℕ → List ℕ → ℕ
next_word index schedule =
    let w15 = get_or schedule (index - 15) 0 in
    let w2 = get_or schedule (index - 2) 0 in
    let s0 = bit_xor (bit_xor (rotr32 w15 7) (rotr32 w15 18)) (w15 / 2 ^ 3) in
    let s1 = bit_xor (bit_xor (rotr32 w2 17) (rotr32 w2 19)) (w2 / 2 ^ 10) in
    to_u32 (get_or schedule (index - 16) 0 + s0 + get_or schedule (index - 7) 0 + s1)

unfoldable pub extend : ℕ → ℕ → List ℕ → List ℕ
extend zero index schedule = schedule
extend (suc rounds) index schedule =
    extend rounds (index + 1) (schedule ++ (next_word index schedule ∷ []))

-- One round of the loop over 64 constants.
unfoldable pub compress_round : Words → ℕ → ℕ → Words
compress_round w constant word =
    let sum1 = bit_xor (bit_xor (rotr32 w.e 6) (rotr32 w.e 11)) (rotr32 w.e 25) in
    let choose = bit_xor (bit_and w.e w.f) (bit_and (bit_xor w.e 0xffffffff) w.g) in
    let temporary1 = to_u32 (w.h + sum1 + choose + constant + word) in
    let sum0 = bit_xor (bit_xor (rotr32 w.a 2) (rotr32 w.a 13)) (rotr32 w.a 22) in
    let majority = bit_xor (bit_xor (bit_and w.a w.b) (bit_and w.a w.c)) (bit_and w.b w.c) in
    let temporary2 = to_u32 (sum0 + majority) in
    record {
      a = to_u32 (temporary1 + temporary2);
      b = w.a;
      c = w.b;
      d = w.c;
      e = to_u32 (w.d + temporary1);
      f = w.e;
      g = w.f;
      h = w.g;
    }

unfoldable pub compress : List ℕ → List ℕ → Words → Words
compress [] schedule w = w
compress (constant ∷ constants) schedule w =
    compress constants (drop 1 schedule) (compress_round w constant (get_or schedule 0 0))

-- `context->state[0] += a` and so on
unfoldable pub add_words : Words → Words → Words
add_words s w = record {
  a = to_u32 (s.a + w.a);
  b = to_u32 (s.b + w.b);
  c = to_u32 (s.c + w.c);
  d = to_u32 (s.d + w.d);
  e = to_u32 (s.e + w.e);
  f = to_u32 (s.f + w.f);
  g = to_u32 (s.g + w.g);
  h = to_u32 (s.h + w.h);
}

-- `sdb_sha256_transform_scalar` on the state.
unfoldable pub transform : Words → List ℕ → Words
transform state block =
    add_words state (compress sha256_constants (extend 48 16 (load_words 16 block)) state)

abbrev pub initial_state : Words
initial_state = record {
  a = 0x6a09e667;
  b = 0xbb67ae85;
  c = 0x3c6ef372;
  d = 0xa54ff53a;
  e = 0x510e527f;
  f = 0x9b05688c;
  g = 0x1f83d9ab;
  h = 0x5be0cd19;
}

unfoldable pub sha256_init : Sha256Context
sha256_init = record { state = initial_state; bit_count = 0; buffer = [] }

-- `if (context->buffered == 64U)`
unfoldable pub flush_full : Sha256Context → Sha256Context
flush_full context =
    if length context.buffer == 64
    then record context { state = transform context.state context.buffer; buffer = [] }
    else context

-- One round of the loop of `sdb_sha256_update`, which takes `chunk`.
unfoldable pub take_chunk : Sha256Context → List ℕ → Sha256Context
unfolding flush_full
take_chunk context chunk = flush_full (record context {
  bit_count = (context.bit_count + length chunk * 8) % 2 ^ 64;
  buffer = context.buffer ++ chunk;
})

-- `while (size != 0U)`, for at most `rounds` rounds.
unfoldable pub update_loop : ℕ → Sha256Context → List ℕ → Sha256Context
update_loop rounds context [] = context
update_loop zero context (x ∷ input) = context
update_loop (suc rounds) context (x ∷ input) =
    update_loop rounds (take_chunk context (take (64 - length context.buffer) (x ∷ input)))
      (drop (64 - length context.buffer) (x ∷ input))

-- Every round takes a byte at least, so the size is enough rounds.
unfoldable pub sha256_update : Sha256Context → List ℕ → Sha256Context
sha256_update context input = update_loop (length input) context input

-- The eight bytes that the loop over `buffer[63U - index]` leaves, the last first.
unfoldable pub length_bytes : ℕ → ℕ → List ℕ → List ℕ
length_bytes zero bit_count after = after
length_bytes (suc rounds) bit_count after =
    length_bytes rounds (bit_count / 2 ^ 8) (bit_count % 256 ∷ after)

-- The first part of `sdb_sha256_final`: the one bit, and a block of its own where the length does not
-- fit behind it.
unfoldable pub close_message : Sha256Context → Sha256Context
close_message context =
    let buffer = context.buffer ++ (0x80 ∷ []) in
    if ltb 56 (length buffer)
    then record context {
      state = transform context.state (buffer ++ replicate (64 - length buffer) 0);
      buffer = [];
    }
    else record context { buffer = buffer }

unfoldable pub write_state : Words → List ℕ
write_state s =
    write_u32_be s.a
    ++ (write_u32_be s.b
        ++ (write_u32_be s.c
            ++ (write_u32_be s.d
                ++ (write_u32_be s.e
                    ++ (write_u32_be s.f ++ (write_u32_be s.g ++ write_u32_be s.h))))))

unfoldable pub sha256_final : Sha256Context → List ℕ
unfolding close_message
sha256_final context =
    let closed = close_message context in
    write_state (
      transform closed.state (
        closed.buffer
        ++ (replicate (56 - length closed.buffer) 0 ++ length_bytes 8 context.bit_count [])))

unfoldable pub update_nonempty : Sha256Context → List ℕ → Sha256Context
update_nonempty context input =
    if not (length input == 0) then sha256_update context input else context

unfoldable pub sha256 : List ℕ → List ℕ
unfolding update_nonempty
sha256 input = sha256_final (update_nonempty sha256_init input)
