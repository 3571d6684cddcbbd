-- ===== src/EncryptedPage/RoundTrip.antt =====
-- A page that is encrypted is decrypted, through the envelope.
use shibadb.Bytes.{IsByte, slice}
use shibadb.Bytes.Laws.{length-zeros, same_bytes_refl, slice-append_le, drop-append}
use shibadb.Bytes.Stores.{length-run}
use shibadb.Cipher.Aead.{encrypt}
use shibadb.Cipher.Aead.RoundTrip.{encrypt-run, length-tag_of, stream, tag_of}
use shibadb.Cipher.Chacha.Involution.{length-chacha_xor}
use shibadb.Cipher.Aead.Sealed.{decrypt-sealed}
use shibadb.Cipher.Range.{chacha_xor-IsByte, aead_tag-IsByte}
use shibadb.Codec.{read_u16_le, read_u32_le}
use shibadb.Codec.Buffers.{read_u16-stored, read_u32-stored}
use shibadb.EncryptedPage.Header.{header, length-header, header-IsByte, header_fields}
use shibadb.EncryptedPage.{
  encrypted_magic, plaintext_type_valid, encrypted_aad, payload_header, encrypted_page_encode,
  opened, encrypted_page_decrypt,
}
use shibadb.Page.{PageView, page_decode, page_encode, page_size_invalid, page_type_valid}
use shibadb.Page.RoundTrip.{IsEncodable, page_decode-page_encode, page_size_bounds}
use shibadb.Status.{ok}
use shibadb.Superblock.{Superblock}
use shibadb.Prelude.{
  ℕ, ◌+◌, ◌-◌, ◌^◌, ◌<◌, ◌≤◌, ◌≡◌, ◌≢◌, refl, sym, ap, ◌∙◌, arith, List, ◌++◌, drop, length,
  length-append, All, All-append, some, true, false, ◌==◌, le→ltb, ==_of_ne,
}

length-encrypted_aad :
    (sb : Superblock) (page_id page_lsn type size : ℕ)
    → length (encrypted_aad sb page_id page_lsn type size) ≡ 40
unfolding encrypted_aad
length-encrypted_aad sb page_id page_lsn type size = length-run _ _ ∙ length-zeros 40

rest_eq : (n : ℕ) → (n == 52 + n - 52) ≡ true
rest_eq n = ground arith

plaintext_type_bound : (type : ℕ) → plaintext_type_valid type ≡ true → type < 2 ^ 16
unfolding plaintext_type_valid
plaintext_type_bound type h = ground arith

module _ (sb : Superblock) (key nonce buffer plaintext : List ℕ)
    (page_size type page_id page_lsn : ℕ) (size_valid : page_size_invalid page_size ≡ false)
    (type_valid : plaintext_type_valid type ≡ true) (id_nonzero : page_id ≢ 0)
    (id_fits : page_id < 2 ^ 64) (lsn_fits : page_lsn < 2 ^ 64)
    (fits : length plaintext ≤ page_size - 84) (nonce_size : length nonce ≡ 24)
    (nonce_bytes : All IsByte nonce) (plaintext_bytes : All IsByte plaintext) where
  abbrev aad : List ℕ
  aad = encrypted_aad sb page_id page_lsn type (length plaintext)

  abbrev ciphertext : List ℕ
  ciphertext = stream key nonce plaintext

  abbrev tag : List ℕ
  tag = tag_of key nonce aad ciphertext

  made :
      encrypt (some key) (some nonce) (some aad) 40 (some plaintext) (length plaintext)
      ≡ ok (ciphertext, tag)
  made =
      ap (λ a. encrypt (some key) (some nonce) (some aad) a (some plaintext) (length plaintext))
        (sym (length-encrypted_aad sb page_id page_lsn type (length plaintext)))
      ∙ encrypt-run key nonce aad plaintext (omega (arith, page_size_bounds page_size size_valid))

  length-ciphertext : length ciphertext ≡ length plaintext
  length-ciphertext = length-chacha_xor _ _ 1 plaintext

  length-tag : length tag ≡ 16
  length-tag = length-tag_of _ aad ciphertext

  abbrev head : List ℕ
  head = header type nonce (length plaintext) tag nonce_size length-tag

  abbrev payload : List ℕ
  payload = head ++ ciphertext

  length-payload : length payload ≡ 52 + length plaintext
  length-payload = omega (
    arith,
    length-append head ciphertext,
    length-header type nonce (length plaintext) tag nonce_size length-tag,
    length-ciphertext,
  )

  encodable : IsEncodable page_size 3 page_id page_lsn payload
  encodable = record {
    size_valid = size_valid;
    type_valid = unfold page_type_valid in refl;
    id_nonzero = id_nonzero;
    id_fits = id_fits;
    lsn_fits = lsn_fits;
    payload_fits = omega (arith, length-payload, page_size_bounds page_size size_valid);
    payload_bytes =
        All-append IsByte head ciphertext
          (header-IsByte type nonce (length plaintext) tag nonce_size length-tag nonce_bytes
            (aead_tag-IsByte _ aad ciphertext))
          (chacha_xor-IsByte _ _ 1 plaintext plaintext_bytes);
  }

  abbrev sealed_view : PageView
  sealed_view = record {
    type = 3;
    flags = 0;
    page_id = page_id;
    page_lsn = page_lsn;
    payload = payload;
    payload_size = length payload;
  }

  in_head : (o k : ℕ) → o + k ≤ 52 → slice payload o k ≡ slice head o k
  in_head o k h =
      slice-append_le head ciphertext o k
        (omega (arith, length-header type nonce (length plaintext) tag nonce_size length-tag))

  payload_fields :
      (slice payload 0 4 ≡ encrypted_magic)
      × (read_u16_le (drop 4 payload) ≡ 1)
      × (read_u16_le (drop 6 payload) ≡ type)
      × (slice payload 8 24 ≡ nonce)
      × (read_u32_le (drop 32 payload) ≡ length plaintext)
      × (slice payload 36 16 ≡ tag)
      × (drop 52 payload ≡ ciphertext)
  payload_fields =
      let (m, v, t, n, s, g) =
        header_fields type nonce (length plaintext) tag nonce_size length-tag in
      (
        in_head 0 4 (omega arith) ∙ m,
        read_u16-stored payload 4 4 1 (in_head 4 2 (omega arith) ∙ v) (omega arith),
        read_u16-stored payload 6 6 type (in_head 6 2 (omega arith) ∙ t)
            (plaintext_type_bound type type_valid),
        in_head 8 24 (omega arith) ∙ n,
        read_u32-stored payload 32 32 (length plaintext) (in_head 32 4 (omega arith) ∙ s)
            (omega (arith, page_size_bounds page_size size_valid)),
        in_head 36 16 (omega arith) ∙ g,
        drop-append head ciphertext 52
            (sym (length-header type nonce (length plaintext) tag nonce_size length-tag)),
      )

  decrypts :
      (capacity : ℕ)
      → length plaintext ≤ capacity
      → encrypted_page_decrypt (some sb) (some key) (some sealed_view) true capacity
        ≡ ok (opened type plaintext)
  unfolding encrypted_page_decrypt
  decrypts capacity room =
      rw
        (
          payload_fields.0,
          payload_fields.1,
          payload_fields.2,
          payload_fields.3,
          payload_fields.4,
          payload_fields.5,
          payload_fields.6,
          length-payload,
          same_bytes_refl encrypted_magic,
          type_valid,
          le→ltb (52 + length plaintext) 52 (omega arith),
          rest_eq (length plaintext),
          le→ltb capacity (length plaintext) room,
          decrypt-sealed key nonce aad plaintext 40 (length plaintext) (ciphertext, tag)
              (length-encrypted_aad sb page_id page_lsn type (length plaintext)) refl
              (omega (arith, page_size_bounds page_size size_valid)) made,
        )
        refl

  encodes :
      (page : List ℕ) × (encrypted_page_encode true
          (ok nonce)
          (some sb)
          (some key)
          (some buffer)
          page_size
          type
          page_id
          page_lsn
          (some plaintext)
          (length plaintext)
        ≡ ok page)
      × (page_decode (some page) page_size page_id ≡ ok sealed_view)
      × (length page ≡ page_size)
  unfolding encrypted_page_encode payload_header
  encodes =
      let (page, written, read, size, bytes) = page_decode-page_encode buffer encodable in
      (
        page,
        rw
            (
              ==_of_ne page_id 0 id_nonzero,
              type_valid,
              le→ltb page_size 84 (omega (arith, page_size_bounds page_size size_valid)),
              le→ltb (2 ^ 32 - 1) (length plaintext)
                  (omega (arith, page_size_bounds page_size size_valid)),
              le→ltb (page_size - 32 - 52) (length plaintext) (omega arith),
              made,
            )
            (ap (page_encode (some buffer) page_size 3 page_id page_lsn (some payload))
                (sym length-payload)
              ∙ written),
        read,
        size,
      )

  -- On a page size, a page id, an LSN and a type that are valid, a plaintext of bytes that leaves room
  -- for the headers is encrypted under a nonce of 24 bytes into a page of that size, which decodes, and
  -- whose view decrypts to that type and that plaintext under the same superblock and key.
  pub encrypted_page_round_trip :
      (capacity : ℕ)
      → length plaintext ≤ capacity
      → (page : List ℕ) × (view : PageView) × (encrypted_page_encode true
            (ok nonce)
            (some sb)
            (some key)
            (some buffer)
            page_size
            type
            page_id
            page_lsn
            (some plaintext)
            (length plaintext)
          ≡ ok page)
        × (length page ≡ page_size)
        × (page_decode (some page) page_size page_id ≡ ok view)
        × (encrypted_page_decrypt (some sb) (some key) (some view) true capacity
            ≡ ok (opened type plaintext))
  encrypted_page_round_trip capacity room =
      (encodes.0, sealed_view, encodes.1, encodes.3, encodes.2, decrypts capacity room)
