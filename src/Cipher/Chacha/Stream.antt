-- ===== src/Cipher/Chacha/Stream.antt =====
-- The key stream byte by byte: which block, and which byte of it, is added to each byte of the input.
use shibadb.Cipher.Chacha.{add32, xor_block, xor_loop, chacha_xor, chacha_block}
use shibadb.Cipher.Chacha.Involution.{xor_loop-round, length-xor_block, length-chacha_xor}
use shibadb.Prelude.{
  ℕ, zero, suc, ◌+◌, ◌-◌, ◌/◌, ◌%◌, ◌^◌, ◌≤◌, ◌<◌, ◌≡◌, refl, ap, ap₂, ◌∙◌, arith, bit_xor, List,
  [], ◌∷◌, ◌++◌, get_or, get_or-take, take, drop, length, length-take, length-drop, dec_lt,
}

get_or-drop : (n i j : ℕ) (xs : List ℕ) → j ≡ n + i → get_or (drop n xs) i 0 ≡ get_or xs j 0
get_or-drop zero i j xs h = let same : i ≡ j = omega arith in ap (λ (k : ℕ). get_or xs k 0) same
get_or-drop (suc n) i j [] h = refl
get_or-drop (suc n) i zero (x ∷ xs) h = absurd (omega arith)
get_or-drop (suc n) i (suc j) (x ∷ xs) h = get_or-drop n i j xs (omega arith)

get_or-front :
    (i : ℕ) (front back : List ℕ) → i < length front → get_or (front ++ back) i 0 ≡ get_or front i 0
get_or-front i [] back h = absurd (omega arith)
get_or-front zero (x ∷ front) back h = refl
get_or-front (suc i) (x ∷ front) back h = get_or-front i front back (omega arith)

get_or-back :
    (i j : ℕ) (front back : List ℕ)
    → i ≡ length front + j
    → get_or (front ++ back) i 0 ≡ get_or back j 0
get_or-back i j [] back h = let same : i ≡ j = omega arith in ap (λ (k : ℕ). get_or back k 0) same
get_or-back zero j (x ∷ front) back h = absurd (omega arith)
get_or-back (suc i) j (x ∷ front) back h = get_or-back i j front back (omega arith)

xor_block-at :
    (index i j : ℕ) (input block : List ℕ)
    → i < length input
    → j ≡ index + i
    → get_or (xor_block index input block) i 0 ≡ bit_xor (get_or input i 0) (get_or block j 0)
unfolding xor_block
xor_block-at index i j [] block h e = absurd (omega arith)
xor_block-at index zero j (x ∷ input) block h e =
    let same : index ≡ j = omega arith in ap (λ (k : ℕ). bit_xor x (get_or block k 0)) same
xor_block-at index (suc i) j (x ∷ input) block h e =
    xor_block-at (index + 1) i j input block (omega arith) (omega arith)

module _ (key nonce : List ℕ) where
  -- The byte of the stream at a place, from the block that a counter starts at.
  unfoldable stream_at : ℕ → ℕ → ℕ
  stream_at counter i = get_or (chacha_block key ((counter + i / 64) % 2 ^ 32) nonce) (i % 64) 0

  xor_loop-at :
      (rounds counter : ℕ) (input : List ℕ) (i : ℕ)
      → length input ≤ rounds
      → counter < 2 ^ 32
      → i < length input
      → get_or (xor_loop rounds key nonce counter input) i 0
        ≡ bit_xor (get_or input i 0) (stream_at counter i)
  unfolding stream_at add32
  xor_loop-at zero counter input i h small below = absurd (omega arith)
  xor_loop-at (suc rounds) counter input i h small below =
      let block = chacha_block key counter nonce in
      let head = xor_block 0 (take 64 input) block in
      let tail = xor_loop rounds key nonce (add32 counter 1) (drop 64 input) in
      let size = length-xor_block 0 (take 64 input) block ∙ length-take 64 input in
      ap (λ t. get_or t i 0) (xor_loop-round key nonce rounds counter input) ∙ elim (dec_lt i 64) [
        | yes first ↦
            let number : counter ≡ (counter + i / 64) % 2 ^ 32 = omega arith in
            let place : i % 64 ≡ i = omega arith in
            get_or-front i head tail (omega (arith, size))
            ∙ xor_block-at 0 i (i % 64) (take 64 input) block (omega (arith, length-take 64 input))
                (omega arith)
            ∙ ap₂ bit_xor (get_or-take 64 i input 0 first)
                (ap (λ (c : ℕ). get_or (chacha_block key c nonce) (i % 64) 0) number)
        | no later ↦
            let number : ((counter + 1) % 2 ^ 32 + (i - 64) / 64) % 2 ^ 32
                ≡ (counter + i / 64) % 2 ^ 32 =
              omega arith in
            let place : (i - 64) % 64 ≡ i % 64 = omega arith in
            get_or-back i (i - 64) head tail (omega (arith, size))
            ∙ xor_loop-at rounds (add32 counter 1) (drop 64 input) (i - 64)
                (omega (arith, length-drop 64 input)) (omega arith)
                (omega (arith, length-drop 64 input))
            ∙ ap₂ bit_xor (get_or-drop 64 (i - 64) i input (omega arith))
                (ap₂ (λ (c k : ℕ). get_or (chacha_block key c nonce) k 0) number place)
      ]

  -- From a counter of 32 bits, the output has the size of the input, and its byte at each place `i` is
  -- that of the input exclusive-ored with byte `i % 64` of the block whose number is the counter plus
  -- `i / 64`, modulo 2^32.
  pub chacha_xor-at :
      (counter : ℕ) (input : List ℕ)
      → counter < 2 ^ 32
      → (length (chacha_xor key nonce counter input) ≡ length input)
        × ((i : ℕ)
            → i < length input
            → get_or (chacha_xor key nonce counter input) i 0
              ≡ bit_xor
                  (get_or input i 0)
                  (get_or (chacha_block key ((counter + i / 64) % 2 ^ 32) nonce) (i % 64) 0))
  unfolding chacha_xor stream_at
  chacha_xor-at counter input small = (
    length-chacha_xor key nonce counter input,
    λ i below. xor_loop-at (length input) counter input i (omega arith) small below,
  )
