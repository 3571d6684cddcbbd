-- ===== src/Tests/Hash.antt =====
-- SHA-256, HMAC and PBKDF2 at concrete inputs.
use shibadb.Sha256
use shibadb.Sha256.{sha256, sha256_init, sha256_update}
use shibadb.Sha256.Streaming.{sha256_update-append}
use shibadb.Sha256.Hmac.{hmac_sha256, pbkdf2_hmac_sha256}
use shibadb.Sha256.Derive.{hmac_sha256-eq, pbkdf2_total}
use shibadb.Sha256.Pads.{rfc_key, rfc_pad}
use shibadb.Status.{ok}
use shibadb.Prelude.{ℕ, ◌≡◌, refl, arith, List, [], ◌∷◌, ◌++◌, some, true, length, replicate}

abbrev abc : List ℕ
abc = b'a' ∷ b'b' ∷ b'c' ∷ []

-- The first vector of FIPS 180-4.
sha256-abc :
    sha256 abc
    ≡ 0xba ∷ 0x78 ∷ 0x16 ∷ 0xbf ∷ 0x8f ∷ 0x01 ∷ 0xcf ∷ 0xea ∷ 0x41 ∷ 0x41 ∷ 0x40 ∷ 0xde ∷ 0x5d
      ∷ 0xae ∷ 0x22 ∷ 0x23 ∷ 0xb0 ∷ 0x03 ∷ 0x61 ∷ 0xa3 ∷ 0x96 ∷ 0x17 ∷ 0x7a ∷ 0x9c ∷ 0xb4 ∷ 0x10
      ∷ 0xff ∷ 0x61 ∷ 0xf2 ∷ 0x00 ∷ 0x15 ∷ 0xad ∷ []
unfolding sha256 sha256_init sha256_update Sha256.rotr32 Sha256.read_u32_be Sha256.write_u32_be
    Sha256.load_words Sha256.next_word Sha256.extend Sha256.compress_round Sha256.compress
    Sha256.add_words Sha256.transform Sha256.flush_full Sha256.take_chunk Sha256.update_loop
    Sha256.length_bytes Sha256.close_message Sha256.write_state Sha256.sha256_final
    Sha256.update_nonempty
sha256-abc = refl

sha256_update-append_example :
    sha256_update (sha256_update sha256_init abc) abc ≡ sha256_update sha256_init (abc ++ abc)
sha256_update-append_example =
    sha256_update-append sha256_init abc abc (unfold sha256_init in omega arith)

-- A key of 65 bytes, which is hashed.
abbrev long_key : List ℕ
long_key = replicate 65 7

hmac_sha256-eq_example :
    hmac_sha256 long_key abc
    ≡ sha256
        (rfc_pad 64 (rfc_key long_key) 0x5c ++ sha256 (rfc_pad 64 (rfc_key long_key) 0x36 ++ abc))
hmac_sha256-eq_example = hmac_sha256-eq long_key abc

pbkdf2_total_example :
    (output : List ℕ) × (pbkdf2_hmac_sha256 true (some abc) 3 (some abc) 3 600000 true 40
      ≡ ok output)
    × (length output ≡ 40)
pbkdf2_total_example = pbkdf2_total abc abc 600000 40 (omega arith) (omega arith) (omega arith)
