-- ===== src/KeyManager/RoundTrip.antt =====
-- A key that is wrapped is unwrapped by the same password, and by no other tag.
use shibadb.Bytes.Stores.{length-run}
use shibadb.Bytes.{same_bytes}
use shibadb.Bytes.Laws.{length-zeros, same_bytes_refl, same_bytes-eq}
use shibadb.Cipher.Aead.RoundTrip.{decrypt-encrypt}
use shibadb.Sha256.Hmac.{pbkdf2_hmac_sha256}
use shibadb.Sha256.Derive.{pbkdf2_total}
use shibadb.Cipher.Aead.{encrypt, decrypt}
use shibadb.Cipher.Aead.Sealed.{decrypt-sealed, decrypt_refuses_forged}
use shibadb.KeyManager.{
  key_wrap_nonce, key_wrap_aad, bad_parameters, wrapping_key, key_wrap, as_authentication,
  key_unwrap,
}
use shibadb.Status.{ok, err, authentication, invalid_argument, fail_if, ◌>>=◌, ◌>>◌}
use shibadb.Status.Inversion.{then_ok, bind_ok}
use shibadb.Superblock.{Superblock}
use shibadb.Prelude.{
  ℕ, ◌≡◌, ◌≢◌, ◌⊎◌, inl, inr, Bool-cases, refl, sym, ap, ap₂, ◌∙◌, arith, List, length, some, true,
  false,
}

length-key_wrap_aad : (sb : Superblock) → length (key_wrap_aad sb) ≡ 48
unfolding key_wrap_aad
length-key_wrap_aad sb = length-run _ _ ∙ length-zeros 48

module _ (sb wrapped : Superblock) (password data_key : List ℕ) (key_size : length data_key ≡ 32)
    (h : key_wrap true (some sb) (some password) (some data_key) ≡ ok wrapped) where
  parts :
      (bad_parameters sb (length password) ≡ false)
      × (key : List ℕ) × (sealed : List ℕ × List ℕ) × (wrapping_key true sb password ≡ ok key)
      × (encrypt
            (some key)
            (some (key_wrap_nonce sb))
            (some (key_wrap_aad sb))
            48
            (some data_key)
            32
          ≡ ok sealed)
      × (wrapped ≡ record sb { wrapped_key = sealed.0; key_wrap_tag = sealed.1 })
  unfolding key_wrap
  parts =
      let (good, h1) = then_ok (bad_parameters sb (length password)) invalid_argument _ wrapped h in
      let (key, derived, h2) = bind_ok (wrapping_key true sb password) _ wrapped h1 in
      let (sealed, made, h3) =
        bind_ok
          (encrypt (some key) (some (key_wrap_nonce sb)) (some (key_wrap_aad sb)) 48 (some data_key)
            32)
          _ wrapped h2 in
      (good, key, sealed, derived, made, cc h3)

  -- What was checked and derived depends on none of the two fields that wrapping fills.
  key_unwrap-eq :
      (wrapped_key tag : List ℕ)
      → key_unwrap true
          (some (record sb { wrapped_key = wrapped_key; key_wrap_tag = tag }))
          (some password)
          true
        ≡ as_authentication (
            decrypt
              (some parts.1)
              (some (key_wrap_nonce sb))
              (some (key_wrap_aad sb))
              48
              (some wrapped_key)
              32
              (some tag))
  unfolding key_unwrap bad_parameters wrapping_key key_wrap_nonce key_wrap_aad
  key_unwrap-eq wrapped_key tag =
      ap₂
        (λ bad derived.
          fail_if bad invalid_argument
          >> (derived >>= λ key. as_authentication (
              decrypt (some key) (some (key_wrap_nonce sb)) (some (key_wrap_aad sb)) 48
                (some wrapped_key) 32 (some tag))))
        parts.0 parts.3

  -- A key of 32 bytes that was wrapped under a password is unwrapped from the superblock by the same
  -- password.
  pub key_unwrap-key_wrap : key_unwrap true (some wrapped) (some password) true ≡ ok data_key
  unfolding as_authentication
  key_unwrap-key_wrap =
      ap (λ w. key_unwrap true (some w) (some password) true) parts.5
      ∙ key_unwrap-eq parts.2.0 parts.2.1
      ∙ ap as_authentication (
          decrypt-sealed parts.1 (key_wrap_nonce sb) (key_wrap_aad sb) data_key 48 32 parts.2
            (length-key_wrap_aad sb) key_size (omega arith) parts.4)

  -- With any other tag of 16 bytes in the superblock, unwrapping under that password answers
  -- SDB_E_AUTHENTICATION.
  pub key_unwrap_refuses :
      (forged : List ℕ)
      → length forged ≡ 16
      → forged ≢ wrapped.key_wrap_tag
      → key_unwrap true (some (record wrapped { key_wrap_tag = forged })) (some password) true
        ≡ err authentication
  unfolding as_authentication
  key_unwrap_refuses forged sixteen ne =
      ap
        (λ (w : Superblock).
          key_unwrap true (some (record w { key_wrap_tag = forged })) (some password) true)
        parts.5
      ∙ key_unwrap-eq parts.2.0 forged
      ∙ ap as_authentication (
          decrypt_refuses_forged parts.1 (key_wrap_nonce sb) (key_wrap_aad sb) data_key 48 32
            parts.2 (length-key_wrap_aad sb) key_size (omega arith) parts.4 forged sixteen
            (λ e. ne (e ∙ sym (ap (λ (w : Superblock). w.key_wrap_tag) parts.5))))

module _ (sb : Superblock) (password data_key : List ℕ)
    (good : bad_parameters sb (length password) ≡ false) (salt_size : length sb.salt ≡ 16)
    (key_size : length data_key ≡ 32) where
  iterations_some : sb.kdf_iterations ≢ 0
  unfolding bad_parameters
  iterations_some e = ground (arith, good, e)

  derived : (key : List ℕ) × (wrapping_key true sb password ≡ ok key)
  unfolding wrapping_key
  derived =
      let (key, run, len) =
        pbkdf2_total password sb.salt sb.kdf_iterations 32 iterations_some
          (omega (arith, salt_size)) (omega arith) in
      (
        key,
        ap
              (λ n.
                pbkdf2_hmac_sha256 true (some password) (length password) (some sb.salt) n
                  sb.kdf_iterations true 32)
              (sym salt_size)
            ∙ run,
      )

  wraps :
      (wrapped : Superblock) × (key_wrap true (some sb) (some password) (some data_key)
        ≡ ok wrapped)
  unfolding key_wrap
  wraps =
      let (key, key_eq) = derived in
      let (c, t, made, len, opens) =
        decrypt-encrypt key (key_wrap_nonce sb) (key_wrap_aad sb) data_key
          (omega (arith, key_size)) in
      (
        record sb { wrapped_key = c; key_wrap_tag = t },
        rw
            (
              good,
              key_eq,
              sym (
                    ap
                      (λ a.
                        encrypt (some key) (some (key_wrap_nonce sb)) (some (key_wrap_aad sb)) a
                          (some data_key) (length data_key))
                      (length-key_wrap_aad sb)
                    ∙ ap
                        (λ n.
                          encrypt (some key) (some (key_wrap_nonce sb)) (some (key_wrap_aad sb)) 48
                            (some data_key) n)
                        key_size)
                  ∙ made,
            )
            refl,
      )

  -- With accepted parameters, a salt of 16 bytes and a key of 32, wrapping succeeds when memory is
  -- given, and unwrapping with the same password gives the key back.
  pub key_wrap_total :
      (wrapped : Superblock) × (key_wrap true (some sb) (some password) (some data_key)
        ≡ ok wrapped)
      × (key_unwrap true (some wrapped) (some password) true ≡ ok data_key)
  key_wrap_total =
      (wraps.0, wraps.1, key_unwrap-key_wrap sb wraps.0 password data_key key_size wraps.1)

  -- Under the same conditions, a tag of 16 bytes in the superblock is the one that wrapping made, or
  -- unwrapping with the password answers SDB_E_AUTHENTICATION.
  pub key_unwrap_forged :
      (forged : List ℕ)
      → length forged ≡ 16
      → (wrapped : Superblock) × (key_wrap true (some sb) (some password) (some data_key)
          ≡ ok wrapped)
        × ((forged ≡ wrapped.key_wrap_tag)
            ⊎ (key_unwrap true
                  (some (record wrapped { key_wrap_tag = forged }))
                  (some password)
                  true
                ≡ err authentication))
  key_unwrap_forged forged sixteen = (
    wraps.0,
    wraps.1,
    elim (Bool-cases (same_bytes forged wraps.0.key_wrap_tag)) [
      | inl same ↦ inl (same_bytes-eq forged wraps.0.key_wrap_tag same)
      | inr differ ↦ inr (
          key_unwrap_refuses sb wraps.0 password data_key key_size wraps.1 forged sixteen
            (λ e. absurd (cc (differ, ap (same_bytes forged) (sym e), same_bytes_refl forged))))
    ],
  )
