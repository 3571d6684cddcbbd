-- ===== src/Cipher/Aead.antt =====
-- src/xchacha20poly1305.c: the authenticated cipher. NULL is `none`; a result is the buffer written.
pub mod Compare
pub mod RoundTrip
pub mod Sealed
use shibadb.Codec.{write_u64_le}
use shibadb.Cipher.Chacha.{hchacha20, chacha_block, chacha_xor}
use shibadb.Cipher.Poly.{Poly1305, poly1305_init, poly1305_update, poly1305_final, pad16}
use shibadb.Status.{Result, ok, err, invalid_argument, corrupt, fail_if, ◌>>=◌, ◌>>◌}
use shibadb.Prelude.{
  ℕ, zero, suc, ◌+◌, ◌*◌, ◌^◌, ◌-◌, bit_or, bit_xor, List, [], ◌∷◌, ◌++◌, take, drop, length,
  replicate, get_or, Option, none, some, Bool, true, false, not, ◌&&◌, ◌||◌, ◌==◌, ltb,
  if◌then◌else◌,
}

-- `difference |= left[index] ^ right[index]` for `size` indices from `index` on.
unfoldable pub difference_loop : ℕ → ℕ → ℕ → List ℕ → List ℕ → ℕ
difference_loop zero index difference left right = difference
difference_loop (suc size) index difference left right =
    difference_loop size (index + 1)
      (bit_or difference (bit_xor (get_or left index 0) (get_or right index 0))) left right

-- `sdb_constant_time_equal` of src/sha256.c
unfoldable pub constant_time_equal : List ℕ → List ℕ → ℕ → Bool
unfolding difference_loop
constant_time_equal left right size = difference_loop size 0 0 left right == 0

-- The subkey and the nonce of `sdb_xchacha_setup`, whose own NULL checks its callers have made.
unfoldable pub xchacha_setup : List ℕ → List ℕ → List ℕ × List ℕ
xchacha_setup key nonce = (hchacha20 key nonce, replicate 4 0 ++ take 8 (drop 16 nonce))

unfoldable pub update_nonempty : Poly1305 → List ℕ → Poly1305
update_nonempty context message =
    if not (length message == 0) then poly1305_update context message else context

unfoldable pub aead_tag : List ℕ → List ℕ → List ℕ → List ℕ
unfolding update_nonempty
aead_tag poly_key aad ciphertext =
    let context = poly1305_init poly_key in
    let context = pad16 (update_nonempty context aad) (length aad) in
    let context = pad16 (update_nonempty context ciphertext) (length ciphertext) in
    let lengths =
      (write_u64_le 0 (length aad)).bytes ++ (write_u64_le 8 (length ciphertext)).bytes in
    poly1305_final (poly1305_update context lengths)

-- The bytes behind a pointer and the size that goes with it.
abbrev pub bytes_of : Option (List ℕ) → List ℕ
bytes_of none = []
bytes_of (some bytes) = bytes

abbrev pub is_null : Option (List ℕ) → Bool
is_null none = true
is_null (some bytes) = false

abbrev pub max_message : ℕ
max_message = (2 ^ 32 - 2) * 64

-- The result is the ciphertext and the tag.
unfoldable pub encrypt :
    Option (List ℕ)
    → Option (List ℕ)
    → Option (List ℕ)
    → ℕ
    → Option (List ℕ)
    → ℕ
    → Result (List ℕ × List ℕ)
encrypt none _ aad aad_size plaintext plaintext_size = err invalid_argument
encrypt (some key) none aad aad_size plaintext plaintext_size = err invalid_argument
encrypt (some key) (some nonce) aad aad_size plaintext plaintext_size = do
  fail_if
      ((is_null aad && not (aad_size == 0))
        || (is_null plaintext && not (plaintext_size == 0))
        || ltb max_message plaintext_size)
      invalid_argument
  let subkey = (xchacha_setup key nonce).0
  let ietf_nonce = (xchacha_setup key nonce).1
  let first_block = chacha_block subkey 0 ietf_nonce
  let ciphertext =
      if not (plaintext_size == 0)
      then chacha_xor subkey ietf_nonce 1 (take plaintext_size (bytes_of plaintext))
      else []
  ok (ciphertext, aead_tag first_block (take aad_size (bytes_of aad)) ciphertext)

-- The result is the plaintext.
unfoldable pub decrypt :
    Option (List ℕ)
    → Option (List ℕ)
    → Option (List ℕ)
    → ℕ
    → Option (List ℕ)
    → ℕ
    → Option (List ℕ)
    → Result (List ℕ)
decrypt none _ aad aad_size ciphertext ciphertext_size tag = err invalid_argument
decrypt (some key) none aad aad_size ciphertext ciphertext_size tag = err invalid_argument
decrypt (some key) (some nonce) aad aad_size ciphertext ciphertext_size none = err invalid_argument
decrypt (some key) (some nonce) aad aad_size ciphertext ciphertext_size (some tag) = do
  fail_if
      ((is_null aad && not (aad_size == 0))
        || (is_null ciphertext && not (ciphertext_size == 0))
        || ltb max_message ciphertext_size)
      invalid_argument
  let subkey = (xchacha_setup key nonce).0
  let ietf_nonce = (xchacha_setup key nonce).1
  let first_block = chacha_block subkey 0 ietf_nonce
  let expected =
      aead_tag first_block (take aad_size (bytes_of aad))
        (take ciphertext_size (bytes_of ciphertext))
  fail_if (not (constant_time_equal expected tag 16)) corrupt
  ok (
      if not (ciphertext_size == 0)
      then chacha_xor subkey ietf_nonce 1 (take ciphertext_size (bytes_of ciphertext))
      else [])
