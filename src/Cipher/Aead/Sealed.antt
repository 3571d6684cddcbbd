-- ===== src/Cipher/Aead/Sealed.antt =====
-- The round trip for a caller that knows the sizes.
use shibadb.Cipher.Aead.{encrypt, decrypt, max_message}
use shibadb.Cipher.Aead.RoundTrip.{decrypt-encrypt, decrypt_refuses_tag}
use shibadb.Status.{ok, err, corrupt}
use shibadb.Prelude.{ℕ, ◌≤◌, ◌≡◌, ◌≢◌, sym, ap, subst, ◌∙◌, arith, List, length, some}

module _ (key nonce aad plaintext : List ℕ) (aad_size size : ℕ) (sealed : List ℕ × List ℕ)
    (ea : length aad ≡ aad_size) (es : length plaintext ≡ size) (fits : size ≤ max_message)
    (run : encrypt (some key) (some nonce) (some aad) aad_size (some plaintext) size
      ≡ ok sealed) where
  run_sized :
      encrypt (some key) (some nonce) (some aad) (length aad) (some plaintext) (length plaintext)
      ≡ ok sealed
  run_sized =
      ap (λ a. encrypt (some key) (some nonce) (some aad) a (some plaintext) (length plaintext)) ea
      ∙ ap (λ n. encrypt (some key) (some nonce) (some aad) aad_size (some plaintext) n) es
      ∙ run

  opened :
      (length sealed.0 ≡ length plaintext)
      × (decrypt
            (some key)
            (some nonce)
            (some aad)
            (length aad)
            (some sealed.0)
            (length sealed.0)
            (some sealed.1)
          ≡ ok plaintext)
  opened =
      let (c, t, made, len, opens) = decrypt-encrypt key nonce aad plaintext (omega (arith, es)) in
      let made_as : (c, t) ≡ sealed = cc (made, run_sized) in
      subst
        (λ (p : List ℕ × List ℕ).
          (length p.0 ≡ length plaintext)
          × (decrypt (some key) (some nonce) (some aad) (length aad) (some p.0) (length p.0)
                (some p.1)
              ≡ ok plaintext))
        made_as (len, opens)

  pub length-sealed : length sealed.0 ≡ size
  length-sealed = opened.0 ∙ es

  sized :
      (tag : List ℕ)
      → decrypt (some key) (some nonce) (some aad) aad_size (some sealed.0) size (some tag)
        ≡ decrypt
            (some key)
            (some nonce)
            (some aad)
            (length aad)
            (some sealed.0)
            (length sealed.0)
            (some tag)
  sized tag =
      ap (λ a. decrypt (some key) (some nonce) (some aad) a (some sealed.0) size (some tag))
        (sym ea)
      ∙ ap
          (λ n.
            decrypt (some key) (some nonce) (some aad) (length aad) (some sealed.0) n (some tag))
          (sym length-sealed)

  pub decrypt-sealed :
      decrypt (some key) (some nonce) (some aad) aad_size (some sealed.0) size (some sealed.1)
      ≡ ok plaintext
  decrypt-sealed = sized sealed.1 ∙ opened.1

  pub decrypt_refuses_forged :
      (forged : List ℕ)
      → length forged ≡ 16
      → forged ≢ sealed.1
      → decrypt (some key) (some nonce) (some aad) aad_size (some sealed.0) size (some forged)
        ≡ err corrupt
  decrypt_refuses_forged forged sixteen ne =
      sized forged
      ∙ decrypt_refuses_tag key nonce aad plaintext sealed.0 sealed.1 forged (omega (arith, es))
          run_sized sixteen ne
