-- ===== src/Cipher/Aead/Compare.antt =====
-- The comparison in constant time is equality of the bytes.
use shibadb.Bits.{bit_or_step}
use shibadb.Bits.Xor.{xor_self, xor_assoc, xor-zero, zero-xor}
use shibadb.Cipher.Aead.{difference_loop, constant_time_equal}
use Prim.Native.Nat.{bit_or-bitwise}
use native.Mathlib.Nat.{add-zero}
use shibadb.Prelude.{
  ℕ, ◌/◌, ap₂, ==_iff, zero, suc, ◌+◌, ◌≤◌, ◌<◌, ◌≡◌, refl, sym, ap, ◌∙◌, arith, bit_or, bit_xor,
  List, [], ◌∷◌, get_or, length, true, ◌==◌,
}

difference-same : (size index : ℕ) (xs : List ℕ) → difference_loop size index 0 xs xs ≡ 0
unfolding difference_loop
difference-same zero index xs = refl
difference-same (suc size) index xs =
    ap (λ d. difference_loop size (index + 1) d xs xs)
      (ap (bit_or 0) (xor_self (get_or xs index 0)))
    ∙ difference-same size (index + 1) xs

pub constant_time_equal-same : (xs : List ℕ) (size : ℕ) → constant_time_equal xs xs size ≡ true
unfolding constant_time_equal
constant_time_equal-same xs size = ap (λ d. d == 0) (difference-same size 0 xs)

-- A zero of `|` is a zero of both sides, and a zero of `^` says that they are the same.
bit_or_zero_within : (n a b : ℕ) → a + b ≤ n → bit_or a b ≡ 0 → (a ≡ 0) × (b ≡ 0)
bit_or_zero_within zero a b h e = (omega arith, omega arith)
bit_or_zero_within (suc n) zero zero h e = (refl, refl)
bit_or_zero_within (suc n) (suc a) b h e =
    let rest =
      bit_or_zero_within n (suc a / 2) (b / 2) (omega arith)
        (omega (arith, bit_or_step (suc a) b)) in
    (omega (arith, rest.0, bit_or_step (suc a) b), omega (arith, rest.1, bit_or_step (suc a) b))
bit_or_zero_within (suc n) zero (suc b) h e = absurd (omega (arith, bit_or-bitwise 0 (suc b)))

bit_or_zero : (a b : ℕ) → bit_or a b ≡ 0 → (a ≡ 0) × (b ≡ 0)
bit_or_zero a b = bit_or_zero_within (a + b) a b (omega arith)

xor_zero_same : (a b : ℕ) → bit_xor a b ≡ 0 → a ≡ b
xor_zero_same a b e =
    sym (xor_assoc a b b ∙ ap (bit_xor a) (xor_self b) ∙ xor-zero a)
    ∙ ap (λ t. bit_xor t b) e
    ∙ zero-xor b

-- No difference in the places `index`, `index + 1`, .. is found only where there is none.
difference_zero :
    (size index difference : ℕ) (left right : List ℕ)
    → difference_loop size index difference left right ≡ 0
    → (difference ≡ 0)
      × ((i : ℕ) → i < size → get_or left (index + i) 0 ≡ get_or right (index + i) 0)
unfolding difference_loop
difference_zero zero index difference left right e = (e, λ i h. absurd (omega arith))
difference_zero (suc size) index difference left right e =
    let (now, later) =
      difference_zero size (index + 1)
        (bit_or difference (bit_xor (get_or left index 0) (get_or right index 0))) left right e in
    let (before, here) = bit_or_zero difference _ now in
    (before, places (xor_zero_same _ _ here) later)
  where
    places :
        get_or left index 0 ≡ get_or right index 0
        → ((i : ℕ) → i < size → get_or left (index + 1 + i) 0 ≡ get_or right (index + 1 + i) 0)
        → (i : ℕ) → i < suc size
        → get_or left (index + i) 0 ≡ get_or right (index + i) 0
    places here later zero h = rw (add-zero index) here
    places here later (suc i) h =
        ap (λ k. get_or left k 0) (omega arith)
        ∙ later i (omega arith)
        ∙ ap (λ k. get_or right k 0) (omega arith)

pub same_places :
    (left right : List ℕ)
    → length left ≡ length right
    → ((i : ℕ) → i < length left → get_or left i 0 ≡ get_or right i 0)
    → left ≡ right
same_places [] [] h same = refl
same_places [] (y ∷ right) h same = absurd (omega arith)
same_places (x ∷ left) [] h same = absurd (omega arith)
same_places (x ∷ left) (y ∷ right) h same =
    ap₂ ◌∷◌ (same 0 (omega arith))
      (same_places left right (omega arith) (λ i lt. same (suc i) (omega arith)))

-- A comparison of the first bytes finds them the same at each place.
pub constant_time_equal-places :
    (left right : List ℕ) (size : ℕ)
    → constant_time_equal left right size ≡ true
    → (i : ℕ) → i < size
    → get_or left i 0 ≡ get_or right i 0
unfolding constant_time_equal
constant_time_equal-places left right size e i below =
    ap (λ k. get_or left k 0) (omega arith)
    ∙ (difference_zero size 0 0 left right ((==_iff _ 0).0 e)).1 i below
    ∙ ap (λ k. get_or right k 0) (omega arith)

-- The comparison of all bytes is equality.
pub constant_time_equal_sound :
    (left right : List ℕ)
    → length left ≡ length right
    → constant_time_equal left right (length left) ≡ true
    → left ≡ right
constant_time_equal_sound left right h e =
    same_places left right h (constant_time_equal-places left right (length left) e)
