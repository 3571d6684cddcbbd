-- ===== src/Cipher/Chacha/Involution.antt =====
-- The key stream applied twice gives the input back.
use shibadb.Bits.Xor.{xor_assoc, xor_self, xor-zero}
use shibadb.Cipher.Chacha.{add32, xor_block, xor_loop, chacha_xor, chacha_block}
use shibadb.Prelude.{
  ℕ, zero, suc, ◌+◌, ◌≤◌, ◌<◌, ◌≡◌, refl, ap, ap₂, ◌∙◌, arith, bit_xor, List, [], ◌∷◌, ◌++◌, get_or,
  take, drop, length, length-take, length-drop, length-append, min, take-append-drop,
}

xor_twice : (x k : ℕ) → bit_xor (bit_xor x k) k ≡ x
xor_twice x k = xor_assoc x k k ∙ ap (bit_xor x) (xor_self k) ∙ xor-zero x

xor_block_twice :
    (index : ℕ) (input block : List ℕ) → xor_block index (xor_block index input block) block ≡ input
unfolding xor_block
xor_block_twice index [] block = refl
xor_block_twice index (x ∷ input) block =
    ap₂ ◌∷◌ (xor_twice x (get_or block index 0)) (xor_block_twice (index + 1) input block)

pub length-xor_block :
    (index : ℕ) (input block : List ℕ) → length (xor_block index input block) ≡ length input
unfolding xor_block
length-xor_block index [] block = refl
length-xor_block index (x ∷ input) block = omega (arith, length-xor_block (index + 1) input block)

pub nil_of_length : (xs : List ℕ) → length xs ≡ 0 → xs ≡ []
nil_of_length [] h = refl
nil_of_length (x ∷ xs) h = absurd (omega arith)

-- A list in two parts is cut between them, where the first is full or the second is empty.
cut :
    (n : ℕ) (front back : List ℕ)
    → length front ≤ n
    → (length front < n → back ≡ [])
    → (take n (front ++ back) ≡ front) × (drop n (front ++ back) ≡ back)
cut zero [] back h empty = (refl, refl)
cut zero (x ∷ front) back h empty = absurd (omega arith)
cut (suc n) [] back h empty = rw (empty (omega arith)) (refl, refl)
cut (suc n) (x ∷ front) back h empty =
    let (f, b) = cut n front back (omega arith) (λ short. empty (omega arith)) in
    (ap (λ r. x ∷ r) f, b)

module _ (key nonce : List ℕ) where
  -- A round in terms of the whole input.
  pub xor_loop-round :
      (rounds counter : ℕ) (input : List ℕ)
      → xor_loop (suc rounds) key nonce counter input
        ≡ xor_block 0 (take 64 input) (chacha_block key counter nonce)
          ++ xor_loop rounds key nonce (add32 counter 1) (drop 64 input)
  unfolding xor_loop xor_block
  xor_loop-round rounds counter [] = refl
  xor_loop-round rounds counter (x ∷ input) = refl

  pub length-xor_loop :
      (rounds counter : ℕ) (input : List ℕ)
      → length input ≤ rounds
      → length (xor_loop rounds key nonce counter input) ≡ length input
  length-xor_loop zero counter [] h = unfold xor_loop in refl
  length-xor_loop zero counter (x ∷ input) h = absurd (omega arith)
  length-xor_loop (suc rounds) counter [] h = unfold xor_loop in refl
  length-xor_loop (suc rounds) counter (x ∷ input) h =
      let shorter : length (drop 64 (x ∷ input)) ≤ rounds =
        omega (arith, length-drop 64 (x ∷ input)) in
      ap length (xor_loop-round rounds counter (x ∷ input))
      ∙ omega (
        arith,
        length-append (xor_block 0 (take 64 (x ∷ input)) (chacha_block key counter nonce))
            (xor_loop rounds key nonce (add32 counter 1) (drop 64 (x ∷ input))),
        length-xor_block 0 (take 64 (x ∷ input)) (chacha_block key counter nonce),
        length-xor_loop rounds (add32 counter 1) (drop 64 (x ∷ input)) shorter,
        length-take 64 (x ∷ input),
        length-drop 64 (x ∷ input),
      )

  xor_loop_twice :
      (rounds counter : ℕ) (input : List ℕ)
      → length input ≤ rounds
      → xor_loop rounds key nonce counter (xor_loop rounds key nonce counter input) ≡ input
  xor_loop_twice zero counter [] h = unfold xor_loop in refl
  xor_loop_twice zero counter (x ∷ input) h = absurd (omega arith)
  xor_loop_twice (suc rounds) counter input h =
      let head = xor_block 0 (take 64 input) (chacha_block key counter nonce) in
      let tail = xor_loop rounds key nonce (add32 counter 1) (drop 64 input) in
      let h' : length (drop 64 input) ≤ rounds = omega (arith, length-drop 64 input) in
      let size : length head ≡ min 64 (length input) =
        length-xor_block 0 (take 64 input) (chacha_block key counter nonce)
        ∙ length-take 64 input in
      let (front, back) = cut 64 head tail (omega (arith, size)) (λ short. nil_of_length tail (
        omega (
          arith,
          size,
          length-xor_loop rounds (add32 counter 1) (drop 64 input) h',
          length-drop 64 input,
        ))) in
      ap (xor_loop (suc rounds) key nonce counter) (xor_loop-round rounds counter input)
      ∙ xor_loop-round rounds counter (head ++ tail)
      ∙ ap₂ ◌++◌
          (ap (λ t. xor_block 0 t (chacha_block key counter nonce)) front
            ∙ xor_block_twice 0 (take 64 input) (chacha_block key counter nonce))
          (ap (xor_loop rounds key nonce (add32 counter 1)) back
            ∙ xor_loop_twice rounds (add32 counter 1) (drop 64 input) h')
      ∙ take-append-drop 64 input

  pub length-chacha_xor :
      (counter : ℕ) (input : List ℕ) → length (chacha_xor key nonce counter input) ≡ length input
  unfolding chacha_xor
  length-chacha_xor counter input = length-xor_loop (length input) counter input (omega arith)

  -- The stream of one key, nonce and counter, applied twice, gives back the input of any length.
  pub chacha_xor_twice :
      (counter : ℕ) (input : List ℕ)
      → chacha_xor key nonce counter (chacha_xor key nonce counter input) ≡ input
  unfolding chacha_xor
  chacha_xor_twice counter input =
      ap (λ n. xor_loop n key nonce counter (chacha_xor key nonce counter input))
        (length-chacha_xor counter input)
      ∙ xor_loop_twice (length input) counter input (omega arith)
