-- ===== src/Tests/Cipher.antt =====
-- The cipher at concrete inputs, with the vectors of RFC 8439.
use shibadb.Codec.{read_u32_le, write_u32_le, write_loop}
use shibadb.Cipher.Chacha
use shibadb.Cipher.Poly
use shibadb.Cipher.Chacha.{chacha_quarter, chacha_block, chacha_xor}
use shibadb.Cipher.Chacha.Stream.{chacha_xor-at}
use shibadb.Cipher.Poly.{poly1305_init, poly1305_update, poly1305_final}
use shibadb.Cipher.Aead.{encrypt, decrypt}
use shibadb.Cipher.Aead.RoundTrip.{
  decrypt-encrypt, decrypt_refuses_tag, stream, tag_of, encrypt-run, length-tag_of,
}
use shibadb.Status.{ok, err, corrupt}
use shibadb.Prelude.{
  ℕ, ◌+◌, ◌-◌, ◌/◌, ◌%◌, ◌^◌, bit_xor, ◌≡◌, ◌≢◌, refl, ap, arith, List, [], ◌∷◌, length, replicate,
  some, get_or, ◌<◌, ◌∙◌,
}

quarter_vector :
    chacha_quarter (0x11111111 ∷ 0x01020304 ∷ 0x9b8d6f43 ∷ 0x01234567 ∷ []) 0 1 2 3
    ≡ 0xea2a92f4 ∷ 0xcb1cf8ce ∷ 0x4581472e ∷ 0x5881c4bb ∷ []
unfolding chacha_quarter Chacha.add32 Chacha.rotl32
quarter_vector = refl

-- The block of RFC 8439, section 2.3.2.
block_vector :
    chacha_block
      (0x00 ∷ 0x01 ∷ 0x02 ∷ 0x03 ∷ 0x04 ∷ 0x05 ∷ 0x06 ∷ 0x07 ∷ 0x08 ∷ 0x09 ∷ 0x0a ∷ 0x0b ∷ 0x0c
        ∷ 0x0d ∷ 0x0e ∷ 0x0f ∷ 0x10 ∷ 0x11 ∷ 0x12 ∷ 0x13 ∷ 0x14 ∷ 0x15 ∷ 0x16 ∷ 0x17 ∷ 0x18 ∷ 0x19
        ∷ 0x1a ∷ 0x1b ∷ 0x1c ∷ 0x1d ∷ 0x1e ∷ 0x1f ∷ [])
      1
      (0x00 ∷ 0x00 ∷ 0x00 ∷ 0x09 ∷ 0x00 ∷ 0x00 ∷ 0x00 ∷ 0x4a ∷ 0x00 ∷ 0x00 ∷ 0x00 ∷ 0x00 ∷ [])
    ≡ 0x10 ∷ 0xf1 ∷ 0xe7 ∷ 0xe4 ∷ 0xd1 ∷ 0x3b ∷ 0x59 ∷ 0x15 ∷ 0x50 ∷ 0x0f ∷ 0xdd ∷ 0x1f ∷ 0xa3
      ∷ 0x20 ∷ 0x71 ∷ 0xc4 ∷ 0xc7 ∷ 0xd1 ∷ 0xf4 ∷ 0xc7 ∷ 0x33 ∷ 0xc0 ∷ 0x68 ∷ 0x03 ∷ 0x04 ∷ 0x22
      ∷ 0xaa ∷ 0x9a ∷ 0xc3 ∷ 0xd4 ∷ 0x6c ∷ 0x4e ∷ 0xd2 ∷ 0x82 ∷ 0x64 ∷ 0x46 ∷ 0x07 ∷ 0x9f ∷ 0xaa
      ∷ 0x09 ∷ 0x14 ∷ 0xc2 ∷ 0xd7 ∷ 0x05 ∷ 0xd9 ∷ 0x8b ∷ 0x02 ∷ 0xa2 ∷ 0xb5 ∷ 0x12 ∷ 0x9c ∷ 0xd1
      ∷ 0xde ∷ 0x16 ∷ 0x4e ∷ 0xb9 ∷ 0xcb ∷ 0xd0 ∷ 0x83 ∷ 0xe8 ∷ 0xa2 ∷ 0x50 ∷ 0x3c ∷ 0x4e ∷ []
unfolding chacha_block chacha_quarter Chacha.add32 Chacha.rotl32 Chacha.double_round
    Chacha.rounds_loop Chacha.chacha_rounds Chacha.read_words Chacha.write_words Chacha.chacha_state
    Chacha.add_words read_u32_le write_u32_le write_loop
block_vector = refl

abbrev poly_key : List ℕ
poly_key =
    0x85 ∷ 0xd6 ∷ 0xbe ∷ 0x78 ∷ 0x57 ∷ 0x55 ∷ 0x6d ∷ 0x33 ∷ 0x7f ∷ 0x44 ∷ 0x52 ∷ 0xfe ∷ 0x42 ∷ 0xd5
    ∷ 0x06 ∷ 0xa8 ∷ 0x01 ∷ 0x03 ∷ 0x80 ∷ 0x8a ∷ 0xfb ∷ 0x0d ∷ 0xb2 ∷ 0xfd ∷ 0x4a ∷ 0xbf ∷ 0xf6
    ∷ 0xaf ∷ 0x41 ∷ 0x49 ∷ 0xf5 ∷ 0x1b ∷ []

-- "Cryptographic Forum Research Group"
abbrev poly_message : List ℕ
poly_message =
    0x43 ∷ 0x72 ∷ 0x79 ∷ 0x70 ∷ 0x74 ∷ 0x6f ∷ 0x67 ∷ 0x72 ∷ 0x61 ∷ 0x70 ∷ 0x68 ∷ 0x69 ∷ 0x63 ∷ 0x20
    ∷ 0x46 ∷ 0x6f ∷ 0x72 ∷ 0x75 ∷ 0x6d ∷ 0x20 ∷ 0x52 ∷ 0x65 ∷ 0x73 ∷ 0x65 ∷ 0x61 ∷ 0x72 ∷ 0x63
    ∷ 0x68 ∷ 0x20 ∷ 0x47 ∷ 0x72 ∷ 0x6f ∷ 0x75 ∷ 0x70 ∷ []

poly_vector :
    poly1305_final (poly1305_update (poly1305_init poly_key) poly_message)
    ≡ 0xa8 ∷ 0x06 ∷ 0x1d ∷ 0xc1 ∷ 0x30 ∷ 0x51 ∷ 0x36 ∷ 0xc6 ∷ 0xc2 ∷ 0x2b ∷ 0x8b ∷ 0xaf ∷ 0x0c
      ∷ 0x01 ∷ 0x27 ∷ 0xa9 ∷ []
unfolding poly1305_init poly1305_update poly1305_final Poly.update_buffered Poly.update_whole
    Poly.finish_buffer Poly.full_carry Poly.minus_prime Poly.reduce Poly.select_limb
    Poly.poly1305_blocks Poly.blocks_loop Poly.add_block Poly.multiply Poly.dot read_u32_le
    write_u32_le write_loop
poly_vector = refl

abbrev key : List ℕ
key = replicate 32 1

abbrev nonce : List ℕ
nonce = replicate 24 2

abbrev text : List ℕ
text = b'h' ∷ b'i' ∷ []

-- A message of more than two blocks, from the last counter, so that the counter wraps around.
abbrev long_text : List ℕ
long_text = replicate 130 5

chacha_xor-at_example :
    (length (chacha_xor key nonce (2 ^ 32 - 1) long_text) ≡ 130)
    × ((i : ℕ)
        → i < 130
        → get_or (chacha_xor key nonce (2 ^ 32 - 1) long_text) i 0
          ≡ bit_xor
              (get_or long_text i 0)
              (get_or (chacha_block key ((2 ^ 32 - 1 + i / 64) % 2 ^ 32) nonce) (i % 64) 0))
chacha_xor-at_example = chacha_xor-at key nonce (2 ^ 32 - 1) long_text (omega arith)

decrypt-encrypt_example :
    (ciphertext : List ℕ) × (tag : List ℕ) × (encrypt
        (some key)
        (some nonce)
        (some [])
        0
        (some text)
        2
      ≡ ok (ciphertext, tag))
    × (length ciphertext ≡ 2)
    × (decrypt (some key) (some nonce) (some []) 0 (some ciphertext) (length ciphertext) (some tag)
        ≡ ok text)
decrypt-encrypt_example = decrypt-encrypt key nonce [] text (omega arith)

-- The ciphertext and the tag of that message, and a tag with its first byte changed.
abbrev sealed_text : List ℕ
sealed_text = stream key nonce text

abbrev sealed_tag : List ℕ
sealed_tag = tag_of key nonce [] sealed_text

abbrev bump : List ℕ → List ℕ
bump [] = []
bump (b ∷ bytes) = (b + 1) ∷ bytes

length-bump : (bytes : List ℕ) → length (bump bytes) ≡ length bytes
length-bump [] = refl
length-bump (b ∷ bytes) = refl

bump-ne : (bytes : List ℕ) → 0 < length bytes → bump bytes ≢ bytes
bump-ne [] h e = absurd (omega arith)
bump-ne (b ∷ bytes) h e = absurd (omega (arith, ap (λ xs. get_or xs 0 0) e))

sealed_tag-size : length sealed_tag ≡ 16
sealed_tag-size = length-tag_of _ [] sealed_text

decrypt_refuses_tag_example :
    decrypt
      (some key)
      (some nonce)
      (some [])
      0
      (some sealed_text)
      (length sealed_text)
      (some (bump sealed_tag))
    ≡ err corrupt
decrypt_refuses_tag_example =
    decrypt_refuses_tag key nonce [] text sealed_text sealed_tag (bump sealed_tag) (omega arith)
      (encrypt-run key nonce [] text (omega arith)) (length-bump sealed_tag ∙ sealed_tag-size)
      (bump-ne sealed_tag (omega (arith, sealed_tag-size)))
