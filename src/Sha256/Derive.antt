-- ===== src/Sha256/Derive.antt =====
-- HMAC is the keyed hash of its definition, and PBKDF2 gives as many bytes as are asked for.
use native.Mathlib.Nat.{mod-eq_of_lt}
use shibadb.Sha256.{
  Sha256Context, sha256, sha256_init, sha256_update, sha256_final, update_nonempty, update_loop,
  write_state, write_u32_be,
}
use shibadb.Sha256.Streaming.{sha256_update-append}
use shibadb.Sha256.Hmac.{
  normalize, make_pad, hmac_sha256, xor_into, iterate, derive_block, pbkdf2_loop,
  pbkdf2_hmac_sha256,
}
use shibadb.Sha256.Pads.{rfc_key, rfc_pad, make_pad-eq}
use shibadb.Status.{ok}
use shibadb.Prelude.{
  ℕ, zero, suc, ◌+◌, ◌-◌, ◌*◌, ◌%◌, ◌^◌, ◌<◌, ◌≤◌, ◌≡◌, ◌≢◌, refl, sym, ap, ◌∙◌, arith, List, [],
  ◌∷◌, ◌++◌, take, length, replicate, ltb, ltb→le, Bool-cases, inl, inr, length-take, length-append,
  true, some, ==_of_ne, dec_le, le→ltb,
}

update_nonempty-eq :
    (context : Sha256Context) (input : List ℕ)
    → update_nonempty context input ≡ sha256_update context input
unfolding update_nonempty sha256_update update_loop
update_nonempty-eq context [] = refl
update_nonempty-eq context (x ∷ input) = rw (==_of_ne (length (x ∷ input)) 0 (omega arith)) refl

sha256-eq : (input : List ℕ) → sha256 input ≡ sha256_final (sha256_update sha256_init input)
unfolding sha256
sha256-eq input = ap sha256_final (update_nonempty-eq sha256_init input)

-- Hashing a pad and then the input is hashing the two together.
pad_then :
    (pad input : List ℕ)
    → sha256_final (sha256_update (sha256_update sha256_init pad) input) ≡ sha256 (pad ++ input)
pad_then pad input =
    ap sha256_final (sha256_update-append sha256_init pad input (unfold sha256_init in omega arith))
    ∙ sym (sha256-eq (pad ++ input))

pub length-sha256_final : (context : Sha256Context) → length (sha256_final context) ≡ 32
unfolding sha256_final write_state write_u32_be
length-sha256_final context = refl

length-sha256 : (input : List ℕ) → length (sha256 input) ≡ 32
length-sha256 input = ap length (sha256-eq input) ∙ length-sha256_final _

hmac_sha256-pads :
    (key input : List ℕ)
    → hmac_sha256 key input
      ≡ sha256 (make_pad 0x5c (normalize key) ++ sha256 (make_pad 0x36 (normalize key) ++ input))
unfolding hmac_sha256
hmac_sha256-pads key input =
    pad_then (make_pad 0x5c (normalize key)) _
    ∙ ap (λ t. sha256 (make_pad 0x5c (normalize key) ++ t))
        (ap sha256_final
            (update_nonempty-eq (sha256_update sha256_init (make_pad 0x36 (normalize key))) input)
          ∙ pad_then (make_pad 0x36 (normalize key)) input)

make_pad-rfc :
    (key : List ℕ) (byte : ℕ) → make_pad byte (normalize key) ≡ rfc_pad 64 (rfc_key key) byte
unfolding normalize rfc_key
make_pad-rfc key byte = elim (Bool-cases (ltb 64 (length key))) [
  | inl long ↦
      let size : length (sha256 key) ≡ 32 = length-sha256 key in
      let rest : 32 ≡ 64 - length (sha256 key) = omega (arith, size) in
      rw long (
        ap (λ (n : ℕ). make_pad byte (sha256 key ++ replicate n 0)) rest
        ∙ make_pad-eq 64 (sha256 key) byte (omega (arith, size)))
  | inr short ↦ rw short (make_pad-eq 64 key byte (ltb→le 64 (length key) short))
]

-- For every key and message `hmac_sha256` is H((K ^ opad) || H((K ^ ipad) || message)) of RFC 2104: K is
-- the key, or its hash when it is longer than 64 bytes, filled to 64 bytes with zeros, and the pads are
-- the bytes 0x5c and 0x36.
pub hmac_sha256-eq :
    (key input : List ℕ)
    → hmac_sha256 key input
      ≡ sha256 (rfc_pad 64 (rfc_key key) 0x5c ++ sha256 (rfc_pad 64 (rfc_key key) 0x36 ++ input))
hmac_sha256-eq key input =
    hmac_sha256-pads key input ∙ rw (make_pad-rfc key 0x5c, make_pad-rfc key 0x36) refl

pub length-hmac_sha256 : (key input : List ℕ) → length (hmac_sha256 key input) ≡ 32
unfolding hmac_sha256
length-hmac_sha256 key input = length-sha256_final _

length-xor_into : (result u : List ℕ) → length (xor_into result u) ≡ length result
unfolding xor_into
length-xor_into [] u = refl
length-xor_into (r ∷ result) u = ap suc (length-xor_into result _)

length-iterate :
    (rounds : ℕ) (password u result : List ℕ)
    → length (iterate rounds password u result) ≡ length result
unfolding iterate
length-iterate zero password u result = refl
length-iterate (suc rounds) password u result =
    length-iterate rounds password (hmac_sha256 password u)
      (xor_into result (hmac_sha256 password u))
    ∙ length-xor_into result _

length-derive_block :
    (password salt : List ℕ) (iterations block : ℕ)
    → length (derive_block password salt iterations block) ≡ 32
unfolding derive_block
length-derive_block password salt iterations block =
    length-iterate (iterations - 1) password _ _ ∙ length-hmac_sha256 password _

module _ (rounds : ℕ) (password salt : List ℕ) (iterations block size : ℕ) where
  -- A round that is not the last one too many.
  pbkdf2_loop-round :
      (output : List ℕ)
      → pbkdf2_loop rounds password salt iterations ((block + 1) % 2 ^ 32) (suc size - 32)
        ≡ ok output
      → (block ≡ 2 ^ 32 - 1 → suc size ≤ 32)
      → pbkdf2_loop (suc rounds) password salt iterations block (suc size)
        ≡ ok (take (suc size) (take 32 (derive_block password salt iterations block)) ++ output)
  unfolding pbkdf2_loop
  pbkdf2_loop-round output run last = ground (arith, run, last)

  length-round :
      (output : List ℕ)
      → length output ≡ suc size - 32
      → length (take (suc size) (take 32 (derive_block password salt iterations block)) ++ output)
        ≡ suc size
  length-round output len = omega (
    arith,
    len,
    length-append (take (suc size) (take 32 (derive_block password salt iterations block))) output,
    length-take (suc size) (take 32 (derive_block password salt iterations block)),
    length-take 32 (derive_block password salt iterations block),
    length-derive_block password salt iterations block,
  )

pbkdf2_loop-zero :
    (rounds : ℕ) (password salt : List ℕ) (iterations block : ℕ)
    → pbkdf2_loop rounds password salt iterations block zero ≡ ok []
unfolding pbkdf2_loop
pbkdf2_loop-zero rounds password salt iterations block = refl

-- The number of a block does not wrap while 32 bytes for each number that is left are enough.
pbkdf2_loop_total :
    (rounds : ℕ) (password salt : List ℕ) (iterations block size : ℕ)
    → size ≤ rounds
    → 1 ≤ block
    → block < 2 ^ 32
    → size ≤ 32 * (2 ^ 32 - block)
    → (output : List ℕ) × (pbkdf2_loop rounds password salt iterations block size ≡ ok output)
      × (length output ≡ size)
pbkdf2_loop_total rounds password salt iterations block zero h low high room =
    ([], pbkdf2_loop-zero rounds password salt iterations block, refl)
pbkdf2_loop_total zero password salt iterations block (suc size) h low high room =
    absurd (omega arith)
pbkdf2_loop_total (suc rounds) password salt iterations block (suc size) h low high room =
    elim (dec_le (suc size) 32) [
      | yes last ↦
          let nothing : suc size - 32 ≡ 0 = omega arith in
          (
            _,
            pbkdf2_loop-round rounds password salt iterations block size []
                (ap (pbkdf2_loop rounds password salt iterations ((block + 1) % 2 ^ 32)) nothing
                  ∙ pbkdf2_loop-zero rounds password salt iterations _)
                (λ e. last),
            length-round rounds password salt iterations block size [] (sym nothing),
          )
      | no more ↦
          let next : (block + 1) % 2 ^ 32 ≡ block + 1 = mod-eq_of_lt (omega arith) in
          let (output, run, len) =
            pbkdf2_loop_total rounds password salt iterations ((block + 1) % 2 ^ 32) (suc size - 32)
              (omega arith) (omega (arith, next)) (omega (arith, next)) (omega (arith, next)) in
          (
            _,
            pbkdf2_loop-round rounds password salt iterations block size output run
                (λ e. absurd (omega arith)),
            length-round rounds password salt iterations block size output len,
          )
    ]

pbkdf2-accepts :
    (password salt : List ℕ) (iterations size : ℕ)
    → iterations ≢ 0
    → length salt ≤ 2 ^ 64 - 5
    → pbkdf2_hmac_sha256 true
        (some password)
        (length password)
        (some salt)
        (length salt)
        iterations
        true
        size
      ≡ pbkdf2_loop size
          (take (length password) password)
          (take (length salt) salt)
          iterations
          1
          size
unfolding pbkdf2_hmac_sha256
pbkdf2-accepts password salt iterations size some_rounds salt_fits =
    rw (==_of_ne iterations 0 some_rounds, le→ltb (2 ^ 64 - 5) (length salt) salt_fits) refl

-- With arguments that it accepts, PBKDF2 ends with a key of the size asked for, up to the limit of
-- 2^32 - 1 blocks.
pub pbkdf2_total :
    (password salt : List ℕ) (iterations size : ℕ)
    → iterations ≢ 0
    → length salt ≤ 2 ^ 64 - 5
    → size ≤ 32 * (2 ^ 32 - 1)
    → (output : List ℕ) × (pbkdf2_hmac_sha256 true
          (some password)
          (length password)
          (some salt)
          (length salt)
          iterations
          true
          size
        ≡ ok output)
      × (length output ≡ size)
pbkdf2_total password salt iterations size some_rounds salt_fits fits =
    let (output, run, len) =
      pbkdf2_loop_total size (take (length password) password) (take (length salt) salt) iterations
        1 size (omega arith) (omega arith) (omega arith) fits in
    (output, pbkdf2-accepts password salt iterations size some_rounds salt_fits ∙ run, len)
