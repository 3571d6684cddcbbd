-- ===== src/Cipher/Range.antt =====
-- The buffers that the cipher writes hold bytes.
use shibadb.Bits.Xor.{xor-lt}
use shibadb.Bytes.{IsByte}
use shibadb.Cipher.Aead.{aead_tag}
use shibadb.Cipher.Chacha.{write_words, chacha_block, xor_block, xor_loop, chacha_xor}
use shibadb.Cipher.Poly.{poly1305_final}
use shibadb.Codec.{write_u32_le}
use shibadb.Codec.RoundTrip.{write_u32-IsByte}
use shibadb.Prelude.{
  ℕ, zero, suc, ◌+◌, arith, List, [], ◌∷◌, take, drop, length, All, All-append, All-take, All-drop,
  All-get_or,
}

write_words-IsByte : (words : List ℕ) → All IsByte (write_words words)
unfolding write_words
write_words-IsByte [] = tt
write_words-IsByte (w ∷ words) =
    All-append IsByte (write_u32_le 0 w).bytes (write_words words) (write_u32-IsByte 0 w)
      (write_words-IsByte words)

chacha_block-IsByte :
    (key : List ℕ) (counter : ℕ) (nonce : List ℕ) → All IsByte (chacha_block key counter nonce)
unfolding chacha_block
chacha_block-IsByte key counter nonce = write_words-IsByte _

xor_block-IsByte :
    (index : ℕ) (input block : List ℕ)
    → All IsByte input
    → All IsByte block
    → All IsByte (xor_block index input block)
unfolding xor_block
xor_block-IsByte index [] block h k = tt
xor_block-IsByte index (x ∷ input) block (p, h) k = (
  xor-lt 8 x _ p (All-get_or IsByte block index 0 k (omega arith)),
  xor_block-IsByte (index + 1) input block h k,
)

xor_loop-IsByte :
    (rounds : ℕ) (key nonce : List ℕ) (counter : ℕ) (input : List ℕ)
    → All IsByte input
    → All IsByte (xor_loop rounds key nonce counter input)
unfolding xor_loop
xor_loop-IsByte rounds key nonce counter [] h = tt
xor_loop-IsByte zero key nonce counter (x ∷ input) h = tt
xor_loop-IsByte (suc rounds) key nonce counter (x ∷ input) h =
    All-append IsByte _ _
      (xor_block-IsByte 0 (take 64 (x ∷ input)) (chacha_block key counter nonce)
        (All-take IsByte 64 (x ∷ input) h) (chacha_block-IsByte key counter nonce))
      (xor_loop-IsByte rounds key nonce _ (drop 64 (x ∷ input)) (All-drop IsByte 64 (x ∷ input) h))

pub chacha_xor-IsByte :
    (key nonce : List ℕ) (counter : ℕ) (input : List ℕ)
    → All IsByte input
    → All IsByte (chacha_xor key nonce counter input)
unfolding chacha_xor
chacha_xor-IsByte key nonce counter input h =
    xor_loop-IsByte (length input) key nonce counter input h

pub aead_tag-IsByte :
    (poly_key aad ciphertext : List ℕ) → All IsByte (aead_tag poly_key aad ciphertext)
unfolding aead_tag poly1305_final
aead_tag-IsByte poly_key aad ciphertext = All-append IsByte _ _ (write_u32-IsByte 0 _) (
    All-append IsByte _ _ (write_u32-IsByte 4 _)
      (All-append IsByte _ _ (write_u32-IsByte 8 _) (write_u32-IsByte 12 _)))
