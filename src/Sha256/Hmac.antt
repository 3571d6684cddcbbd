-- ===== src/Sha256/Hmac.antt =====
-- src/sha256.c: HMAC over the streaming hash, and PBKDF2 over HMAC.
use shibadb.Sha256.{sha256, sha256_init, sha256_update, sha256_final, update_nonempty}
use shibadb.Status.{
  Result, ok, err, invalid_argument, out_of_memory, overflow, fail_if, ◌>>=◌, ◌>>◌,
}
use shibadb.Prelude.{
  ℕ, zero, suc, ◌+◌, ◌-◌, ◌/◌, ◌%◌, ◌^◌, bit_xor, List, [], ◌∷◌, ◌++◌, get_or, take, drop, length,
  replicate, map, Bool, true, false, not, ◌||◌, ◌&&◌, ◌==◌, ltb, if◌then◌else◌, Option, none, some,
}

-- `normalized`: the key, hashed if it is longer than a block, and zeros.
unfoldable pub normalize : List ℕ → List ℕ
normalize key =
    if ltb 64 (length key)
    then sha256 key ++ replicate 32 0
    else key ++ replicate (64 - length key) 0

-- `pad[index] = normalized[index] ^ byte`
unfoldable pub make_pad : ℕ → List ℕ → List ℕ
make_pad byte normalized = map (λ k. bit_xor k byte) normalized

unfoldable pub hmac_sha256 : List ℕ → List ℕ → List ℕ
unfolding normalize make_pad
hmac_sha256 key input =
    let normalized = normalize key in
    let inner = sha256_update sha256_init (make_pad 0x36 normalized) in
    let inner_hash = sha256_final (update_nonempty inner input) in
    let outer = sha256_update sha256_init (make_pad 0x5c normalized) in
    sha256_final (sha256_update outer inner_hash)

-- `message[salt_size ...]`: the number of the block in four bytes, the highest first.
unfoldable pub block_bytes : ℕ → List ℕ
block_bytes block =
    block / 2 ^ 24 % 256 ∷ block / 2 ^ 16 % 256 ∷ block / 2 ^ 8 % 256 ∷ block % 256 ∷ []

-- `result[index] ^= u[index]`
unfoldable pub xor_into : List ℕ → List ℕ → List ℕ
xor_into [] u = []
xor_into (r ∷ result) u = bit_xor r (get_or u 0 0) ∷ xor_into result (drop 1 u)

-- The loop over `iteration`, `rounds` times.
unfoldable pub iterate : ℕ → List ℕ → List ℕ → List ℕ → List ℕ
iterate zero password u result = result
iterate (suc rounds) password u result =
    let u' = hmac_sha256 password u in iterate rounds password u' (xor_into result u')

-- One block of 32 bytes.
unfoldable pub derive_block : List ℕ → List ℕ → ℕ → ℕ → List ℕ
derive_block password salt iterations block =
    let u = hmac_sha256 password (salt ++ block_bytes block) in
    iterate (iterations - 1) password u u

-- `while (output_size != 0)`, for at most `rounds` rounds.
unfoldable pub pbkdf2_loop : ℕ → List ℕ → List ℕ → ℕ → ℕ → ℕ → Result (List ℕ)
pbkdf2_loop rounds password salt iterations block zero = ok []
pbkdf2_loop zero password salt iterations block (suc size) = err overflow
pbkdf2_loop (suc rounds) password salt iterations block (suc size) =
    let rest = pbkdf2_loop rounds password salt iterations ((block + 1) % 2 ^ 32) (suc size - 32) in
    let result = take (suc size) (take 32 (derive_block password salt iterations block)) in
    if block == 2 ^ 32 - 1 && not (suc size - 32 == 0)
    then err overflow
    else (rest >>= λ output. ok (result ++ output))

abbrev pub is_null : Option (List ℕ) → Bool
is_null none = true
is_null (some bytes) = false

-- The bytes behind a pointer.
abbrev pub bytes_of : Option (List ℕ) → List ℕ
bytes_of none = []
bytes_of (some bytes) = bytes

-- `malloc_succeeds` is what the allocator answers. Every round writes a byte at least, so the size is
-- enough rounds.
unfoldable pub pbkdf2_hmac_sha256 :
    Bool → Option (List ℕ) → ℕ → Option (List ℕ) → ℕ → ℕ → Bool → ℕ → Result (List ℕ)
pbkdf2_hmac_sha256 malloc_succeeds password password_size salt salt_size iterations has_output
      output_size =
    do
      fail_if
          ((is_null password && not (password_size == 0))
            || (is_null salt && not (salt_size == 0))
            || (not has_output && not (output_size == 0))
            || iterations == 0
            || ltb (2 ^ 64 - 1 - 4) salt_size)
          invalid_argument
      fail_if (not malloc_succeeds) out_of_memory
      pbkdf2_loop output_size (take password_size (bytes_of password))
          (take salt_size (bytes_of salt)) iterations 1 output_size
