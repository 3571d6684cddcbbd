-- ===== src/Sha256/Streaming.antt =====
-- The streaming hash does not depend on how a message is cut.
use mathlib.Core.List.{append_assoc}
use shibadb.Sha256.{Sha256Context, sha256_update, update_loop, take_chunk, flush_full}
use shibadb.Prelude.{
  ℕ, zero, suc, ◌+◌, ◌-◌, ◌%◌, ◌^◌, ◌<◌, ◌≤◌, ◌≡◌, refl, sym, ap, ap₂, ◌∙◌, arith, List, [], ◌∷◌,
  ◌++◌, take, drop, length, length-append, length-take, length-drop, take-append-drop, min,
}

-- The reference: one byte at a time.
unfoldable pub absorb : Sha256Context → List ℕ → Sha256Context
absorb context [] = context
absorb context (x ∷ input) = absorb (take_chunk context (x ∷ [])) input

absorb-append :
    (context : Sha256Context) (xs ys : List ℕ)
    → absorb context (xs ++ ys) ≡ absorb (absorb context xs) ys
unfolding absorb
absorb-append context [] ys = refl
absorb-append context (x ∷ xs) ys = absorb-append (take_chunk context (x ∷ [])) xs ys

-- A buffer that has room keeps its bytes.
abbrev pub HasRoom : Sha256Context → Type 0
HasRoom context = length context.buffer < 64

take_chunk-HasRoom :
    (context : Sha256Context) (chunk : List ℕ)
    → length context.buffer + length chunk ≤ 64
    → HasRoom (take_chunk context chunk)
unfolding take_chunk flush_full
take_chunk-HasRoom context chunk h = ground (arith, length-append context.buffer chunk)

-- One byte that does not fill the buffer goes to its end.
take_one :
    (context : Sha256Context) (x : ℕ)
    → length context.buffer + 1 < 64
    → take_chunk context (x ∷ []) ≡ record context {
      bit_count = (context.bit_count + 8) % 2 ^ 64;
      buffer = context.buffer ++ (x ∷ []);
    }
unfolding take_chunk flush_full
take_one context x h = ground (arith, length-append context.buffer (x ∷ []))

-- A chunk that fits is a byte and a chunk.
take_chunk-cons :
    (context : Sha256Context) (x : ℕ) (chunk : List ℕ)
    → length context.buffer + suc (length chunk) ≤ 64
    → 0 < length chunk
    → take_chunk context (x ∷ chunk) ≡ take_chunk (take_chunk context (x ∷ [])) chunk
take_chunk-cons context x chunk h more = rw (take_one context x (omega arith)) (
    unfold take_chunk in
    ap₂
      (λ (count : ℕ) (bytes : List ℕ).
        flush_full (record context { bit_count = count; buffer = bytes }))
      (omega arith) (sym (append_assoc context.buffer (x ∷ []) chunk)))

-- A chunk that fits is absorbed byte by byte.
take_chunk-absorb :
    (context : Sha256Context) (x : ℕ) (chunk : List ℕ)
    → length context.buffer + suc (length chunk) ≤ 64
    → take_chunk context (x ∷ chunk) ≡ absorb context (x ∷ chunk)
unfolding absorb
take_chunk-absorb context x [] h = refl
take_chunk-absorb context x (y ∷ chunk) h =
    take_chunk-cons context x (y ∷ chunk) h (omega arith)
    ∙ take_chunk-absorb (take_chunk context (x ∷ [])) y chunk (
        rw (take_one context x (omega arith))
          (omega (arith, length-append context.buffer (x ∷ []))))

nonempty-absorb :
    (context : Sha256Context) (chunk : List ℕ)
    → length context.buffer + length chunk ≤ 64
    → 0 < length chunk
    → take_chunk context chunk ≡ absorb context chunk
nonempty-absorb context [] h more = absurd (omega arith)
nonempty-absorb context (x ∷ chunk) h more = take_chunk-absorb context x chunk h

absorb-HasRoom :
    (context : Sha256Context) (input : List ℕ) → HasRoom context → HasRoom (absorb context input)
unfolding absorb
absorb-HasRoom context [] h = h
absorb-HasRoom context (x ∷ input) h =
    absorb-HasRoom (take_chunk context (x ∷ [])) input
      (take_chunk-HasRoom context (x ∷ []) (omega arith))

update_loop-step :
    (rounds : ℕ) (context : Sha256Context) (x : ℕ) (input : List ℕ)
    → update_loop (suc rounds) context (x ∷ input)
      ≡ update_loop rounds
          (take_chunk context (take (64 - length context.buffer) (x ∷ input)))
          (drop (64 - length context.buffer) (x ∷ input))
unfolding update_loop
update_loop-step rounds context x input = refl

update_loop-absorb :
    (rounds : ℕ) (context : Sha256Context) (input : List ℕ)
    → HasRoom context
    → length input ≤ rounds
    → update_loop rounds context input ≡ absorb context input
update_loop-absorb rounds context [] room h = unfold absorb update_loop in refl
update_loop-absorb zero context (x ∷ input) room h = absurd (omega arith)
update_loop-absorb (suc rounds) context (x ∷ input) room h =
    let k : ℕ = 64 - length context.buffer in
    let chunk = take k (x ∷ input) in
    let size : length chunk ≡ min k (suc (length input)) = length-take k (x ∷ input) in
    let more : length (drop k (x ∷ input)) ≤ rounds =
      omega (arith, length-drop k (x ∷ input), room) in
    let first : take_chunk context chunk ≡ absorb context chunk =
      nonempty-absorb context chunk (omega (arith, size, room)) (omega (arith, size, room)) in
    update_loop-step rounds context x input
    ∙ ap (λ c. update_loop rounds c (drop k (x ∷ input))) first
    ∙ update_loop-absorb rounds (absorb context chunk) (drop k (x ∷ input))
        (absorb-HasRoom context chunk room) more
    ∙ sym (absorb-append context chunk (drop k (x ∷ input)))
    ∙ ap (absorb context) (take-append-drop k (x ∷ input))

-- `sha256_update` absorbs its input byte by byte, whatever the buffer holds already.
pub sha256_update-absorb :
    (context : Sha256Context) (input : List ℕ)
    → HasRoom context
    → sha256_update context input ≡ absorb context input
unfolding sha256_update
sha256_update-absorb context input room =
    update_loop-absorb (length input) context input room (omega arith)

-- From a context whose buffer is not full, two calls of `sha256_update` are one call on both inputs,
-- wherever a message is cut.
pub sha256_update-append :
    (context : Sha256Context) (first second : List ℕ)
    → length context.buffer < 64
    → sha256_update (sha256_update context first) second ≡ sha256_update context (first ++ second)
sha256_update-append context first second room =
    ap (λ c. sha256_update c second) (sha256_update-absorb context first room)
    ∙ sha256_update-absorb (absorb context first) second (absorb-HasRoom context first room)
    ∙ sym (absorb-append context first second)
    ∙ sym (sha256_update-absorb context (first ++ second) room)
