-- ===== src/Cipher/Aead/RoundTrip.antt =====
-- What is encrypted is decrypted, and a wrong tag is refused.
use shibadb.Cipher.Chacha.{chacha_xor, chacha_block}
use shibadb.Cipher.Chacha.Involution.{chacha_xor_twice, length-chacha_xor, nil_of_length}
use shibadb.Cipher.Aead.Compare.{constant_time_equal-same, constant_time_equal_sound}
use shibadb.Cipher.Aead.{
  constant_time_equal, xchacha_setup, aead_tag, encrypt, decrypt, max_message,
}
use shibadb.Cipher.Poly.{poly1305_final}
use shibadb.Codec.{write_u32_le, write_loop}
use shibadb.Status.{ok, err, corrupt, fail_if, ◌>>◌}
use shibadb.Prelude.{
  ℕ, ◌≤◌, ◌≡◌, ◌≢◌, refl, sym, ap, ◌∙◌, arith, List, [], ◌∷◌, take, length, some, Bool, true, false,
  not, ◌==◌, le→ltb, ==_of_ne, if◌then◌else◌,
}

take_whole : (xs : List ℕ) → take (length xs) xs ≡ xs
take_whole [] = refl
take_whole (x ∷ xs) = ap (λ r. x ∷ r) (take_whole xs)

-- The keystream's part of the work, in either direction.
stream_if :
    (subkey ietf_nonce input : List ℕ)
    → (if not (length input == 0)
        then chacha_xor subkey ietf_nonce 1 (take (length input) input)
        else [])
      ≡ chacha_xor subkey ietf_nonce 1 input
stream_if subkey ietf_nonce [] =
    sym
      (nil_of_length (chacha_xor subkey ietf_nonce 1 []) (length-chacha_xor subkey ietf_nonce 1 []))
stream_if subkey ietf_nonce (x ∷ input) =
    rw (==_of_ne (length (x ∷ input)) 0 (omega arith))
      (ap (chacha_xor subkey ietf_nonce 1) (take_whole (x ∷ input)))

checked :
    (good : Bool) (result : List ℕ)
    → (fail_if (not good) corrupt >> ok result) ≡ (if good then ok result else err corrupt)
checked true result = refl
checked false result = refl

module _ (key nonce : List ℕ) where
  abbrev pub stream : List ℕ → List ℕ
  stream input = chacha_xor (xchacha_setup key nonce).0 (xchacha_setup key nonce).1 1 input

  abbrev pub tag_of : List ℕ → List ℕ → List ℕ
  tag_of aad ciphertext =
      aead_tag (chacha_block (xchacha_setup key nonce).0 0 (xchacha_setup key nonce).1) aad
        ciphertext

  pub encrypt-run :
      (aad plaintext : List ℕ)
      → length plaintext ≤ max_message
      → encrypt (some key) (some nonce) (some aad) (length aad) (some plaintext) (length plaintext)
        ≡ ok (stream plaintext, tag_of aad (stream plaintext))
  unfolding encrypt
  encrypt-run aad plaintext fits =
      rw
        (
          le→ltb max_message (length plaintext) fits,
          stream_if (xchacha_setup key nonce).0 (xchacha_setup key nonce).1 plaintext,
          take_whole aad,
        )
        refl

  decrypt-run :
      (aad ciphertext tag : List ℕ)
      → length ciphertext ≤ max_message
      → decrypt
          (some key)
          (some nonce)
          (some aad)
          (length aad)
          (some ciphertext)
          (length ciphertext)
          (some tag)
        ≡ (if constant_time_equal (tag_of aad ciphertext) tag 16
            then ok (stream ciphertext)
            else err corrupt)
  unfolding decrypt
  decrypt-run aad ciphertext tag fits =
      rw
        (
          le→ltb max_message (length ciphertext) fits,
          stream_if (xchacha_setup key nonce).0 (xchacha_setup key nonce).1 ciphertext,
          take_whole aad,
          take_whole ciphertext,
        )
        (checked (constant_time_equal (tag_of aad ciphertext) tag 16) (stream ciphertext))

-- A message within the limit is encrypted, to a ciphertext of its size, which decrypts to the message
-- under the same key, nonce and associated data.
pub decrypt-encrypt :
    (key nonce aad plaintext : List ℕ)
    → length plaintext ≤ max_message
    → (ciphertext : List ℕ) × (tag : List ℕ) × (encrypt
          (some key)
          (some nonce)
          (some aad)
          (length aad)
          (some plaintext)
          (length plaintext)
        ≡ ok (ciphertext, tag))
      × (length ciphertext ≡ length plaintext)
      × (decrypt
            (some key)
            (some nonce)
            (some aad)
            (length aad)
            (some ciphertext)
            (length ciphertext)
            (some tag)
          ≡ ok plaintext)
decrypt-encrypt key nonce aad plaintext fits =
    let size =
      length-chacha_xor (xchacha_setup key nonce).0 (xchacha_setup key nonce).1 1 plaintext in
    (
      stream key nonce plaintext,
      tag_of key nonce aad (stream key nonce plaintext),
      encrypt-run key nonce aad plaintext fits,
      size,
      decrypt-run key nonce aad (stream key nonce plaintext) _ (omega (arith, size))
          ∙ rw (constant_time_equal-same (tag_of key nonce aad (stream key nonce plaintext)) 16) (
              ap ok (
                chacha_xor_twice (xchacha_setup key nonce).0 (xchacha_setup key nonce).1 1
                  plaintext)),
    )

pub length-tag_of :
    (poly_key aad ciphertext : List ℕ) → length (aead_tag poly_key aad ciphertext) ≡ 16
unfolding aead_tag poly1305_final write_u32_le write_loop
length-tag_of poly_key aad ciphertext = refl

refused :
    (good : Bool) (result : List ℕ)
    → good ≢ true
    → (if good then ok result else err corrupt) ≡ err corrupt
refused true result h = absurd (h refl)
refused false result h = refl

-- Under any other tag of 16 bytes than the one that encryption made, the ciphertext is refused.
pub decrypt_refuses_tag :
    (key nonce aad plaintext ciphertext tag forged : List ℕ)
    → length plaintext ≤ max_message
    → encrypt (some key) (some nonce) (some aad) (length aad) (some plaintext) (length plaintext)
      ≡ ok (ciphertext, tag)
    → length forged ≡ 16
    → forged ≢ tag
    → decrypt
        (some key)
        (some nonce)
        (some aad)
        (length aad)
        (some ciphertext)
        (length ciphertext)
        (some forged)
      ≡ err corrupt
decrypt_refuses_tag key nonce aad plaintext ciphertext tag forged fits run size ne =
    let made : List ℕ × List ℕ =
      (stream key nonce plaintext, tag_of key nonce aad (stream key nonce plaintext)) in
    let given : List ℕ × List ℕ = (ciphertext, tag) in
    let same : made ≡ given = cc (encrypt-run key nonce aad plaintext fits, run) in
    let text : stream key nonce plaintext ≡ ciphertext = ap (λ p. p.0) same in
    let expected : tag_of key nonce aad ciphertext ≡ tag =
      ap (tag_of key nonce aad) (sym text) ∙ ap (λ p. p.1) same in
    let fits' : length ciphertext ≤ max_message = omega (
      arith,
      ap length text,
      length-chacha_xor (xchacha_setup key nonce).0 (xchacha_setup key nonce).1 1 plaintext,
    ) in
    decrypt-run key nonce aad ciphertext forged fits'
    ∙ refused (constant_time_equal (tag_of key nonce aad ciphertext) forged 16)
        (stream key nonce ciphertext) (λ accepted. ne (sym (same_tag accepted) ∙ expected))
  where
    sixteen : length (tag_of key nonce aad ciphertext) ≡ 16
    sixteen = length-tag_of _ aad ciphertext

    same_tag :
        constant_time_equal (tag_of key nonce aad ciphertext) forged 16 ≡ true
        → tag_of key nonce aad ciphertext ≡ forged
    same_tag accepted =
        constant_time_equal_sound (tag_of key nonce aad ciphertext) forged (sixteen ∙ sym size)
          (ap (constant_time_equal (tag_of key nonce aad ciphertext) forged) sixteen ∙ accepted)
