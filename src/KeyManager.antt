-- ===== src/KeyManager.antt =====
-- src/key_manager.c: the key of the data, encrypted under a key that is derived from the password.
-- A NULL pointer is `none`; wiping the buffers after use is left out. `malloc_succeeds` is what the
-- allocator answers to the derivation.
pub mod RoundTrip
use shibadb.Bytes.{zeros}
use shibadb.Bytes.Stores.{run}
use shibadb.Cipher.Aead.{encrypt, decrypt, bytes_of}
use shibadb.Codec.{write_u32_le, write_u64_le, memcpy}
use shibadb.Sha256.Hmac.{pbkdf2_hmac_sha256}
use shibadb.Status.{
  Status, Result, ok, err, fail_if, corrupt, authentication, invalid_argument, ◌>>=◌, ◌>>◌,
}
use shibadb.Superblock.{Superblock, encrypted}
use shibadb.Prelude.{
  ℕ, List, [], ◌∷◌, length, Option, none, some, Bool, true, false, not, ◌||◌, ◌==◌, ltb,
}

unfoldable pub key_wrap_nonce : Superblock → List ℕ
key_wrap_nonce sb = run (zeros 24) (memcpy 0 16 sb.file_id ∷ write_u64_le 16 sb.key_wrap_id ∷ [])

unfoldable pub key_wrap_aad : Superblock → List ℕ
key_wrap_aad sb = run (zeros 48) (
    memcpy 0 16 sb.file_id
    ∷ memcpy 16 16 sb.salt
    ∷ write_u32_le 32 sb.page_size
    ∷ write_u32_le 36 sb.flags
    ∷ write_u32_le 40 sb.key_wrap_id
    ∷ write_u32_le 44 sb.kdf_iterations
    ∷ [])

-- The parameters of the derivation that both functions refuse, for a password of this size.
unfoldable pub bad_parameters : Superblock → ℕ → Bool
bad_parameters sb password_size =
    password_size == 0
    || not (encrypted sb.flags)
    || sb.key_wrap_id == 0
    || ltb sb.kdf_iterations 600000
    || ltb 10000000 sb.kdf_iterations

unfoldable pub wrapping_key : Bool → Superblock → List ℕ → Result (List ℕ)
wrapping_key malloc_succeeds sb password =
    pbkdf2_hmac_sha256 malloc_succeeds (some password) (length password) (some sb.salt) 16
      sb.kdf_iterations true 32

-- The superblock with the key in it.
unfoldable pub key_wrap :
    Bool → Option Superblock → Option (List ℕ) → Option (List ℕ) → Result Superblock
key_wrap malloc_succeeds none password data_key = err invalid_argument
key_wrap malloc_succeeds (some sb) none data_key = err invalid_argument
key_wrap malloc_succeeds (some sb) (some password) none = err invalid_argument
key_wrap malloc_succeeds (some sb) (some password) (some data_key) = do
  fail_if (bad_parameters sb (length password)) invalid_argument
  key ← wrapping_key malloc_succeeds sb password
  sealed ←
      encrypt (some key) (some (key_wrap_nonce sb)) (some (key_wrap_aad sb)) 48 (some data_key) 32
  ok (record sb { wrapped_key = sealed.0; key_wrap_tag = sealed.1 })

-- SDB_E_CORRUPT becomes SDB_E_AUTHENTICATION.
unfoldable pub as_authentication : Result (List ℕ) → Result (List ℕ)
as_authentication (ok key) = ok key
as_authentication (err e) = elim e [ corrupt ↦ err authentication | other ↦ err other ]

-- The key of the data.
unfoldable pub key_unwrap : Bool → Option Superblock → Option (List ℕ) → Bool → Result (List ℕ)
key_unwrap malloc_succeeds none password has_output = err invalid_argument
key_unwrap malloc_succeeds (some sb) none has_output = err invalid_argument
key_unwrap malloc_succeeds (some sb) (some password) has_output = do
  fail_if (not has_output || bad_parameters sb (length password)) invalid_argument
  key ← wrapping_key malloc_succeeds sb password
  as_authentication (
      decrypt (some key) (some (key_wrap_nonce sb)) (some (key_wrap_aad sb)) 48
        (some sb.wrapped_key) 32 (some sb.key_wrap_tag))
