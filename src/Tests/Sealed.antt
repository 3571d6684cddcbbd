-- ===== src/Tests/Sealed.antt =====
-- The wrapped key and the encrypted page at concrete inputs.
use shibadb.EncryptedPage.{
  encrypted_page_encode, encrypted_page_decrypt, opened, plaintext_type_valid,
}
use shibadb.EncryptedPage.RoundTrip.{encrypted_page_round_trip}
use shibadb.KeyManager.{bad_parameters, key_wrap, key_unwrap}
use shibadb.KeyManager.RoundTrip.{key_wrap_total, key_unwrap_forged}
use shibadb.Page.{PageView, page_decode, page_size_invalid}
use shibadb.Status.{ok, err, authentication}
use shibadb.Superblock.{Superblock, encrypted}
use shibadb.Tests.Header.{plain}
use shibadb.Prelude.{ℕ, ◌≡◌, ◌⊎◌, refl, arith, List, [], ◌∷◌, length, replicate, some, true, false}

abbrev keyed : Superblock
keyed = record plain { flags = 1; key_wrap_id = 1; kdf_iterations = 600000 }

abbrev password : List ℕ
password = b'p' ∷ b'w' ∷ []

accepted : bad_parameters keyed (length password) ≡ false
unfolding bad_parameters encrypted
accepted = refl

key_wrap_total_example :
    (wrapped : Superblock) × (key_wrap true (some keyed) (some password) (some (replicate 32 5))
      ≡ ok wrapped)
    × (key_unwrap true (some wrapped) (some password) true ≡ ok (replicate 32 5))
key_wrap_total_example = key_wrap_total keyed password (replicate 32 5) accepted refl refl

key_unwrap_forged_example :
    (wrapped : Superblock) × (key_wrap true (some keyed) (some password) (some (replicate 32 5))
      ≡ ok wrapped)
    × ((replicate 16 9 ≡ wrapped.key_wrap_tag)
        ⊎ (key_unwrap true
              (some (record wrapped { key_wrap_tag = replicate 16 9 }))
              (some password)
              true
            ≡ err authentication))
key_unwrap_forged_example =
    key_unwrap_forged keyed password (replicate 32 5) accepted refl refl (replicate 16 9) refl

abbrev text : List ℕ
text = 1 ∷ 2 ∷ 3 ∷ []

encrypted_page_round_trip_example :
    (page : List ℕ) × (view : PageView) × (encrypted_page_encode true
        (ok (replicate 24 4))
        (some plain)
        (some (replicate 32 5))
        (some [])
        4096
        1
        7
        9
        (some text)
        3
      ≡ ok page)
    × (length page ≡ 4096)
    × (page_decode (some page) 4096 7 ≡ ok view)
    × (encrypted_page_decrypt (some plain) (some (replicate 32 5)) (some view) true 64
        ≡ ok (opened 1 text))
encrypted_page_round_trip_example =
    encrypted_page_round_trip plain (replicate 32 5) (replicate 24 4) [] text 4096 1 7 9
      (unfold page_size_invalid in refl) (unfold plaintext_type_valid in refl) (omega arith)
      (omega arith) (omega arith) (omega arith) refl (omega arith) (omega arith) 64 (omega arith)
