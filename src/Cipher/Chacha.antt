-- ===== src/Cipher/Chacha.antt =====
-- src/xchacha20poly1305.c: ChaCha20. The state is the list of its sixteen words; the eight blocks at
-- once of the vector path are not modelled, as in a build without SDB_CPU_X86.
pub mod Involution
pub mod Stream
use shibadb.Codec.{read_u32_le, write_u32_le}
use shibadb.Prelude.{
  ℕ, zero, suc, ◌+◌, ◌-◌, ◌*◌, ◌/◌, ◌%◌, ◌^◌, bit_or, bit_xor, List, [], ◌∷◌, ◌++◌, get_or, set,
  take, drop, length, min,
}

-- Addition of two uint32_t
unfoldable pub add32 : ℕ → ℕ → ℕ
add32 a b = (a + b) % 2 ^ 32

unfoldable pub rotl32 : ℕ → ℕ → ℕ
rotl32 value amount = bit_or (value * 2 ^ amount % 2 ^ 32) (value / 2 ^ (32 - amount))

-- `sdb_chacha_quarter` on the words at four places of the state.
unfoldable pub chacha_quarter : List ℕ → ℕ → ℕ → ℕ → ℕ → List ℕ
chacha_quarter state i j k l =
    let a = add32 (get_or state i 0) (get_or state j 0) in
    let d = rotl32 (bit_xor (get_or state l 0) a) 16 in
    let c = add32 (get_or state k 0) d in
    let b = rotl32 (bit_xor (get_or state j 0) c) 12 in
    let a' = add32 a b in
    let d' = rotl32 (bit_xor d a') 8 in
    let c' = add32 c d' in
    let b' = rotl32 (bit_xor b c') 7 in set (set (set (set state i a') j b') k c') l d'

-- The body of the loop of `sdb_chacha_rounds`.
unfoldable pub double_round : List ℕ → List ℕ
double_round state =
    let s1 = chacha_quarter state 0 4 8 12 in
    let s2 = chacha_quarter s1 1 5 9 13 in
    let s3 = chacha_quarter s2 2 6 10 14 in
    let s4 = chacha_quarter s3 3 7 11 15 in
    let s5 = chacha_quarter s4 0 5 10 15 in
    let s6 = chacha_quarter s5 1 6 11 12 in
    let s7 = chacha_quarter s6 2 7 8 13 in chacha_quarter s7 3 4 9 14

-- `rounds` rounds of that loop; `chacha_rounds` runs ten.
unfoldable pub rounds_loop : ℕ → List ℕ → List ℕ
rounds_loop zero state = state
rounds_loop (suc rounds) state = rounds_loop rounds (double_round state)

unfoldable pub chacha_rounds : List ℕ → List ℕ
chacha_rounds state = rounds_loop 10 state

-- `count` words from a buffer, by the loop over `sdb_read_u32_le(input + (index * 4U))`.
unfoldable pub read_words : ℕ → List ℕ → List ℕ
read_words zero input = []
read_words (suc count) input = read_u32_le input ∷ read_words count (drop 4 input)

-- The bytes of the words, by the loop over `sdb_write_u32_le(output + (index * 4U), ...)`.
unfoldable pub write_words : List ℕ → List ℕ
write_words [] = []
write_words (w ∷ words) = (write_u32_le 0 w).bytes ++ write_words words

-- "expand 32-byte k"
abbrev pub constants : List ℕ
constants = 0x61707865 ∷ 0x3320646e ∷ 0x79622d32 ∷ 0x6b206574 ∷ []

unfoldable pub chacha_state : List ℕ → ℕ → List ℕ → List ℕ
chacha_state key counter nonce =
    constants
    ++ (read_words 8 key
        ++ (counter
            ∷ read_u32_le nonce
            ∷ read_u32_le (drop 4 nonce)
            ∷ read_u32_le (drop 8 nonce)
            ∷ []))

-- `state[index] + initial[index]` for each index
unfoldable pub add_words : List ℕ → List ℕ → List ℕ
add_words [] initial = []
add_words (s ∷ state) initial = add32 s (get_or initial 0 0) ∷ add_words state (drop 1 initial)

unfoldable pub chacha_block : List ℕ → ℕ → List ℕ → List ℕ
chacha_block key counter nonce =
    let initial = chacha_state key counter nonce in
    write_words (add_words (chacha_rounds initial) initial)

unfoldable pub hchacha20 : List ℕ → List ℕ → List ℕ
hchacha20 key nonce =
    let state = chacha_rounds (constants ++ (read_words 8 key ++ read_words 4 nonce)) in
    write_words (take 4 state ++ take 4 (drop 12 state))

-- `output[index] = input[index] ^ block[index]` from `index` on
unfoldable pub xor_block : ℕ → List ℕ → List ℕ → List ℕ
xor_block index [] block = []
xor_block index (x ∷ input) block =
    bit_xor x (get_or block index 0) ∷ xor_block (index + 1) input block

-- `while (size != 0)`, with at most `rounds` rounds.
unfoldable pub xor_loop : ℕ → List ℕ → List ℕ → ℕ → List ℕ → List ℕ
xor_loop rounds key nonce counter [] = []
xor_loop zero key nonce counter (x ∷ input) = []
xor_loop (suc rounds) key nonce counter (x ∷ input) =
    xor_block 0 (take 64 (x ∷ input)) (chacha_block key counter nonce)
    ++ xor_loop rounds key nonce (add32 counter 1) (drop 64 (x ∷ input))

-- Every round takes a byte at least, so the size is enough rounds.
unfoldable pub chacha_xor : List ℕ → List ℕ → ℕ → List ℕ → List ℕ
chacha_xor key nonce counter input = xor_loop (length input) key nonce counter input
