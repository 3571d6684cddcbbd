-- ===== src/Sha256/Pads.antt =====
-- The pads of HMAC as RFC 2104 describes them.
use shibadb.Sha256.{sha256}
use shibadb.Sha256.Hmac.{make_pad}
use shibadb.Prelude.{
  ℕ, zero, suc, ◌-◌, ◌≤◌, ◌≡◌, refl, ap, ◌∙◌, arith, List, [], ◌∷◌, ◌++◌, drop, length, replicate,
  get_or, bit_xor, ltb, if◌then◌else◌,
}

-- The key K of RFC 2104: a key of more than 64 bytes is hashed.
unfoldable pub rfc_key : List ℕ → List ℕ
rfc_key key = if ltb 64 (length key) then sha256 key else key

-- The first `size` bytes of K, with zeros past its end, each with `byte` exclusive-ored into it.
unfoldable pub rfc_pad : ℕ → List ℕ → ℕ → List ℕ
rfc_pad zero key byte = []
rfc_pad (suc size) key byte = bit_xor (get_or key 0 0) byte ∷ rfc_pad size (drop 1 key) byte

make_pad-zeros : (size byte : ℕ) → make_pad byte (replicate size 0) ≡ rfc_pad size [] byte
unfolding make_pad rfc_pad
make_pad-zeros zero byte = refl
make_pad-zeros (suc size) byte = ap (λ r. bit_xor 0 byte ∷ r) (make_pad-zeros size byte)

-- A key that is filled with zeros has that pad.
pub make_pad-eq :
    (size : ℕ) (key : List ℕ) (byte : ℕ)
    → length key ≤ size
    → make_pad byte (key ++ replicate (size - length key) 0) ≡ rfc_pad size key byte
unfolding make_pad rfc_pad
make_pad-eq size [] byte h =
    let all : size - 0 ≡ size = omega arith in
    ap (λ (n : ℕ). make_pad byte (replicate n 0)) all ∙ make_pad-zeros size byte
make_pad-eq zero (k ∷ key) byte h = absurd (omega arith)
make_pad-eq (suc size) (k ∷ key) byte h =
    let less : suc size - suc (length key) ≡ size - length key = omega arith in
    ap (λ r. bit_xor k byte ∷ r)
      (ap (λ (n : ℕ). make_pad byte (key ++ replicate n 0)) less
        ∙ make_pad-eq size key byte (omega arith))
