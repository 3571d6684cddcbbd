-- ===== src/Superblock/Reserved.antt =====
-- The reserved bytes: the loops find a byte that is not zero exactly where there is one.
use shibadb.Bytes.{slice, zeros, all_zero}
use shibadb.Bytes.Laws.{all_zero-zeros}
use shibadb.Superblock.{any_nonzero}
use shibadb.Prelude.{
  ℕ, zero, suc, ◌+◌, ◌≤◌, ◌<◌, ◌≡◌, refl, ap, ◌∙◌, arith, List, [], ◌∷◌, false, not, get_or, length,
}

slice-suc :
    (xs : List ℕ) (i n : ℕ)
    → i < length xs
    → slice xs i (suc n) ≡ get_or xs i 0 ∷ slice xs (i + 1) n
unfolding slice
slice-suc [] i n h = absurd (omega arith)
slice-suc (x ∷ xs) zero n h = refl
slice-suc (x ∷ xs) (suc i) n h =
    slice-suc xs i n (omega arith)
    ∙ ap (λ (k : ℕ). get_or xs i 0 ∷ slice (x ∷ xs) k n) {x = suc (i + 1)} {y = suc i + 1}
        (omega arith)

pub any_nonzero-eq :
    (n i : ℕ) (xs : List ℕ) → i + n ≤ length xs → any_nonzero n i xs ≡ not (all_zero (slice xs i n))
unfolding any_nonzero all_zero
any_nonzero-eq zero i xs h = unfold slice in refl
any_nonzero-eq (suc n) i xs h =
    rw (slice-suc xs i n (omega arith)) (ground (arith, any_nonzero-eq n (i + 1) xs (omega arith)))

pub any_nonzero-zeros :
    (n i : ℕ) (xs : List ℕ)
    → i + n ≤ length xs
    → slice xs i n ≡ zeros n
    → any_nonzero n i xs ≡ false
any_nonzero-zeros n i xs h e =
    any_nonzero-eq n i xs h ∙ ap (λ ys. not (all_zero ys)) e ∙ ap not (all_zero-zeros n)
