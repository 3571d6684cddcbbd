-- ===== src/Bytes/Tiles.antt =====
-- Two buffers are equal when they agree field by field, the fields laid end to end.
use mathlib.Core.List.{append-nil}
use native.Mathlib.Nat.{zero-add, suc-add}
use shibadb.Bytes.{slice}
use shibadb.Prelude.{
  ℕ, zero, suc, ◌+◌, ◌-◌, ◌≤◌, ◌≡◌, refl, sym, ap, ap₂, ◌∙◌, arith, List, [], ◌∷◌, ◌++◌, take, drop,
  length, take-append-drop,
}

-- The buffers agree on each of the fields of these sizes, from `o` on.
abbrev pub Agree : List ℕ → List ℕ → ℕ → List ℕ → Type 0
Agree xs ys o [] = Unit
Agree xs ys o (n ∷ sizes) = (slice xs o n ≡ slice ys o n) × Agree xs ys (o + n) sizes

abbrev pub end : ℕ → List ℕ → ℕ
end o [] = o
end o (n ∷ sizes) = end (o + n) sizes

drop-nil : (n : ℕ) → drop {A = ℕ} n [] ≡ []
drop-nil zero = refl
drop-nil (suc n) = refl

pub drop-drop : (xs : List ℕ) (o n : ℕ) → drop n (drop o xs) ≡ drop (o + n) xs
drop-drop xs zero n = rw zero-add
drop-drop [] (suc o) n = drop-nil n ∙ sym (drop-nil (suc o + n))
drop-drop (x ∷ xs) (suc o) n = rw suc-add (drop-drop xs o n)

split_field : (xs : List ℕ) (o n : ℕ) → drop o xs ≡ slice xs o n ++ drop (o + n) xs
unfolding slice
split_field xs o n =
    sym (take-append-drop n (drop o xs)) ∙ ap (λ r. take n (drop o xs) ++ r) (drop-drop xs o n)

drop-eq_of_agree :
    (xs ys : List ℕ) (o : ℕ) (sizes : List ℕ)
    → Agree xs ys o sizes
    → drop (end o sizes) xs ≡ drop (end o sizes) ys
    → drop o xs ≡ drop o ys
drop-eq_of_agree xs ys o [] h rest = rest
drop-eq_of_agree xs ys o (n ∷ sizes) (e, h) rest =
    split_field xs o n
    ∙ ap₂ ◌++◌ e (drop-eq_of_agree xs ys (o + n) sizes h rest)
    ∙ sym (split_field ys o n)

drop-length : (xs : List ℕ) (n : ℕ) → length xs ≤ n → drop n xs ≡ []
drop-length [] zero h = refl
drop-length [] (suc n) h = refl
drop-length (x ∷ xs) zero h = absurd (omega arith)
drop-length (x ∷ xs) (suc n) h = drop-length xs n (omega arith)

-- Fields that cover both buffers determine them.
pub eq_of_agree :
    (xs ys : List ℕ) (sizes : List ℕ)
    → length xs ≤ end 0 sizes
    → length ys ≤ end 0 sizes
    → Agree xs ys 0 sizes
    → xs ≡ ys
eq_of_agree xs ys sizes hx hy h =
    drop-eq_of_agree xs ys 0 sizes h
      (drop-length xs (end 0 sizes) hx ∙ sym (drop-length ys (end 0 sizes) hy))

-- Fields that reach the end of both buffers determine what lies behind `o`.
pub drop-eq_of_agree_end :
    (xs ys : List ℕ) (o : ℕ) (sizes : List ℕ)
    → length xs ≤ end o sizes
    → length ys ≤ end o sizes
    → Agree xs ys o sizes
    → drop o xs ≡ drop o ys
drop-eq_of_agree_end xs ys o sizes hx hy h =
    drop-eq_of_agree xs ys o sizes h
      (drop-length xs (end o sizes) hx ∙ sym (drop-length ys (end o sizes) hy))

le-end : (o : ℕ) (sizes : List ℕ) → o ≤ end o sizes
le-end o [] = omega arith
le-end o (n ∷ sizes) = omega (arith, le-end (o + n) sizes)

take-add : (n m : ℕ) (zs : List ℕ) → take (n + m) zs ≡ take n zs ++ take m (drop n zs)
take-add zero m zs = rw zero-add
take-add (suc n) m [] = rw suc-add (sym (take-nil m))
  where
    take-nil : (k : ℕ) → take {A = ℕ} k [] ≡ []
    take-nil zero = refl
    take-nil (suc k) = refl
take-add (suc n) m (x ∷ zs) = rw suc-add (ap (λ r. x ∷ r) (take-add n m zs))

slice-join : (xs : List ℕ) (o n m : ℕ) → slice xs o (n + m) ≡ slice xs o n ++ slice xs (o + n) m
unfolding slice
slice-join xs o n m =
    take-add n m (drop o xs) ∙ ap (λ r. take n (drop o xs) ++ take m r) (drop-drop xs o n)

-- Fields from the start on determine everything before their end.
pub slice-eq_of_agree :
    (xs ys : List ℕ) (o : ℕ) (sizes : List ℕ) (m : ℕ)
    → o + m ≡ end o sizes
    → Agree xs ys o sizes
    → slice xs o m ≡ slice ys o m
slice-eq_of_agree xs ys o [] m e h =
    let none_left : m ≡ 0 = omega arith in rw none_left (unfold slice in refl)
slice-eq_of_agree xs ys o (n ∷ sizes) m e (p, h) =
    let split : m ≡ n + (m - n) = omega (arith, le-end (o + n) sizes) in
    rw (split, slice-join xs o n (m - n), slice-join ys o n (m - n))
      (ap₂ ◌++◌ p
        (slice-eq_of_agree xs ys (o + n) sizes (m - n) (omega (arith, le-end (o + n) sizes)) h))

-- Where buffers agree on a range they agree on what follows a bound, if it covers them.
pub slice-all : (xs : List ℕ) (o n : ℕ) → length xs ≤ o + n → slice xs o n ≡ drop o xs
slice-all xs o n h =
    sym (append-nil (slice xs o n))
    ∙ ap (λ r. slice xs o n ++ r) (sym (drop-length xs (o + n) h))
    ∙ sym (split_field xs o n)

pub slice-front : (xs : List ℕ) (n : ℕ) → slice xs 0 n ≡ take n xs
unfolding slice
slice-front xs n = refl
