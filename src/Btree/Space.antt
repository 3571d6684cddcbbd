-- ===== src/Btree/Space.antt =====
-- The space that entries take in a leaf.
use shibadb.Btree.{leaf_entry_size, size_at, total_size}
use shibadb.BtreePage.{Entry, leaf, encode_entry, encode_entries, fixed_size, value_size_of}
use shibadb.BtreePage.Sizes.{length-encode_entry}
use shibadb.Status.{ok, overflow}
use shibadb.Status.Inversion.{then_ok}
use shibadb.Prelude.{
  ℕ, zero, suc, ◌+◌, ◌-◌, ◌%◌, ◌^◌, ◌<◌, ◌≤◌, ◌≡◌, refl, ap, ◌∙◌, arith, List, [], ◌∷◌, take, drop,
  length, length-append, true, not, ltb,
}

-- The space of entries in a page of leaves.
abbrev pub space : List Entry → ℕ
space entries = length (encode_entries leaf entries)

space-cons :
    (entry : Entry) (entries : List Entry)
    → space (entry ∷ entries) ≡ leaf_entry_size entry + space entries
unfolding encode_entries leaf_entry_size fixed_size value_size_of
space-cons entry entries = omega (
  arith,
  length-encode_entry leaf entry,
  length-append (encode_entry leaf entry) (encode_entries leaf entries),
)

pub space-nil : space [] ≡ 0
unfolding encode_entries
space-nil = refl

space-take :
    (entries : List Entry) (c : ℕ)
    → c < length entries
    → space (take (suc c) entries) ≡ space (take c entries) + size_at entries c
unfolding size_at
space-take [] c h = absurd (omega arith)
space-take (entry ∷ entries) zero h = omega (arith, space-cons entry [], space-nil)
space-take (entry ∷ entries) (suc c) h = omega (
  arith,
  space-cons entry (take (suc c) entries),
  space-cons entry (take c entries),
  space-take entries c (omega arith),
)

pub space-take_pred :
    (entries : List Entry) (c : ℕ)
    → 0 < c
    → c ≤ length entries
    → space (take c entries) ≡ space (take (c - 1) entries) + size_at entries (c - 1)
space-take_pred entries c low high =
    ap (λ (k : ℕ). space (take k entries)) {x = c} {y = suc (c - 1)} (omega arith)
    ∙ space-take entries (c - 1) (omega arith)

pub kept : (a capacity : ℕ) → a < 2 ^ 64 → not (ltb capacity (a % 2 ^ 64)) ≡ true → a ≤ capacity
kept a capacity h e = ground (arith, h, e)

pub space-split :
    (entries : List Entry) (m : ℕ) → space (take m entries) + space (drop m entries) ≡ space entries
space-split entries zero = omega (arith, space-nil)
space-split [] (suc m) = omega (arith, space-nil)
space-split (entry ∷ entries) (suc m) =
    omega
      (arith, space-cons entry (take m entries), space-cons entry entries, space-split entries m)

pub total_size-space :
    (total : ℕ) (entries : List Entry) (r : ℕ)
    → total_size total entries ≡ ok r
    → r ≡ total + space entries
unfolding total_size
total_size-space total [] r h = omega (arith, ok_eq total r h, space-nil)
  where
    ok_eq : (a b : ℕ) → ok a ≡ ok b → b ≡ a
    ok_eq a b e = cc e
total_size-space total (entry ∷ entries) r h =
    let (_, rest) = then_ok (ltb (2 ^ 64 - 1 - total) (leaf_entry_size entry)) overflow _ r h in
    omega (
      arith,
      total_size-space (total + leaf_entry_size entry) entries r rest,
      space-cons entry entries,
    )
