-- ===== src/Btree/Order.antt =====
-- The order of keys is a strict total order.
use shibadb.Bytes.{same_bytes}
use shibadb.Bytes.Laws.{same_bytes_refl, same_bytes-eq}
use shibadb.Btree.{same_key}
use shibadb.BtreePage.{key_less, memcmp_less}
use shibadb.Prelude.{
  ℕ, suc, ◌≡◌, min, refl, sym, ◌∙◌, arith, List, [], ◌∷◌, take, length, take-length, Bool, true,
  false, ◌==◌, ltb, lt→ltb, le→ltb, and-eq_true, ==_refl, if◌then◌else◌,
}

-- The order, read off the lists.
unfoldable pub lex_less : List ℕ → List ℕ → Bool
lex_less [] [] = false
lex_less [] (y ∷ ys) = true
lex_less (x ∷ xs) [] = false
lex_less (x ∷ xs) (y ∷ ys) =
    let rest = lex_less xs ys in if ltb x y then true else if ltb y x then false else rest

min-suc : (a b : ℕ) → min (suc a) (suc b) ≡ suc (min a b)
min-suc a b = omega arith

min-zero : (a : ℕ) → min 0 a ≡ 0
min-zero a = omega arith

min-zero' : (a : ℕ) → min a 0 ≡ 0
min-zero' a = omega arith

pub ltb-suc : (a b : ℕ) → ltb (suc a) (suc b) ≡ ltb a b
ltb-suc a b = ground arith

pub key_less-eq_lex : (xs ys : List ℕ) → key_less xs ys ≡ lex_less xs ys
unfolding key_less memcmp_less lex_less
key_less-eq_lex [] [] = refl
key_less-eq_lex [] (y ∷ ys) =
    rw (min-zero (suc (length ys)), lt→ltb 0 (suc (length ys)) (omega arith)) refl
key_less-eq_lex (x ∷ xs) [] =
    rw (min-zero' (suc (length xs)), le→ltb (suc (length xs)) 0 (omega arith)) refl
key_less-eq_lex (x ∷ xs) (y ∷ ys) =
    rw (min-suc (length xs) (length ys), ltb-suc (length xs) (length ys), key_less-eq_lex xs ys)
      refl

lex_trans :
    (xs ys zs : List ℕ) → lex_less xs ys ≡ true → lex_less ys zs ≡ true → lex_less xs zs ≡ true
unfolding lex_less
lex_trans [] [] zs h k = absurd (cc h)
lex_trans (x ∷ xs) [] zs h k = absurd (cc h)
lex_trans xs (y ∷ ys) [] h k = absurd (cc k)
lex_trans [] (y ∷ ys) (z ∷ zs) h k = refl
lex_trans (x ∷ xs) (y ∷ ys) (z ∷ zs) h k = ground (arith, h, k, lex_trans xs ys zs)

lex_total : (xs ys : List ℕ) → lex_less xs ys ≡ false → lex_less ys xs ≡ false → xs ≡ ys
unfolding lex_less
lex_total [] [] h k = refl
lex_total [] (y ∷ ys) h k = absurd (cc h)
lex_total (x ∷ xs) [] h k = absurd (cc k)
lex_total (x ∷ xs) (y ∷ ys) h k = ground (arith, h, k, lex_total xs ys)

pub key_less_trans :
    (xs ys zs : List ℕ) → key_less xs ys ≡ true → key_less ys zs ≡ true → key_less xs zs ≡ true
key_less_trans xs ys zs =
    rw (key_less-eq_lex xs ys, key_less-eq_lex ys zs, key_less-eq_lex xs zs) (lex_trans xs ys zs)

pub key_less_total : (xs ys : List ℕ) → key_less xs ys ≡ false → key_less ys xs ≡ false → xs ≡ ys
key_less_total xs ys = rw (key_less-eq_lex xs ys, key_less-eq_lex ys xs) (lex_total xs ys)

-- A comparison that finds no difference finds the same key.
pub same_key-eq : (xs ys : List ℕ) → same_key xs ys ≡ true → xs ≡ ys
unfolding same_key
same_key-eq xs ys h =
    let (bytes, sizes) =
      and-eq_true
        (same_bytes (take (min (length xs) (length ys)) xs) (take (min (length xs) (length ys)) ys))
        (length xs == length ys) h in
    let same : length xs ≡ length ys = ground (arith, sizes) in
    sym (take-length (min (length xs) (length ys)) xs (omega (arith, same)))
    ∙ same_bytes-eq _ _ bytes
    ∙ take-length (min (length xs) (length ys)) ys (omega (arith, same))

pub same_key_refl : (xs : List ℕ) → same_key xs xs ≡ true
unfolding same_key
same_key_refl xs =
    rw (same_bytes_refl (take (min (length xs) (length xs)) xs), ==_refl (length xs)) refl

lex_irreflexive : (xs : List ℕ) → lex_less xs xs ≡ false
unfolding lex_less
lex_irreflexive [] = refl
lex_irreflexive (x ∷ xs) = ground (arith, lex_irreflexive xs)

pub key_less_irreflexive : (xs : List ℕ) → key_less xs xs ≡ false
key_less_irreflexive xs = key_less-eq_lex xs xs ∙ lex_irreflexive xs
