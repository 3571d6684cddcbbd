-- ===== src/Btree/Split.antt =====
-- A leaf that is split falls into two leaves that fit a page.
use shibadb.Btree.{size_at, total_size, middle_loop, LeafSplit, split_leaf, key_at}
use shibadb.BtreePage.{Entry, Node, leaf}
use shibadb.Status.{Result, ok, buffer_too_small}
use shibadb.Status.Inversion.{then_ok, bind_ok}
use shibadb.Prelude.{
  ℕ, zero, suc, ◌+◌, ◌-◌, ◌%◌, ◌^◌, ◌<◌, ◌≤◌, ◌≡◌, ◌⊎◌, inl, inr, refl, sym, ap, ◌∙◌, arith, List,
  [], ◌∷◌, ◌++◌, take, drop, length, take-append-drop, length-take, length-drop, subst, ==_refl,
  Bool, true, not, ◌&&◌, ◌==◌, ltb, and-eq_true, Bool-cases, if◌then◌else◌,
}
use shibadb.Btree.Space.{space, space-take_pred, kept, space-split, total_size-space, space-nil}

module _ (entries : List Entry) (capacity : ℕ) (small : 20 + space entries < 2 ^ 64) where
  -- The cut leaves entries on both sides, and each side fits.
  abbrev pub Fits : ℕ → Type 0
  Fits m =
      (0 < m)
      × (m < length entries)
      × (20 + space (take m entries) ≤ capacity)
      × (20 + space (drop m entries) ≤ capacity)

  abbrev largest : ℕ → ℕ → ℕ
  largest left total =
      if ltb ((20 + total - left) % 2 ^ 64) ((20 + left) % 2 ^ 64)
      then (20 + left) % 2 ^ 64
      else (20 + total - left) % 2 ^ 64

  abbrev better : ℕ → ℕ → ℕ → Bool
  better left total best =
      not (ltb capacity ((20 + left) % 2 ^ 64))
      && not (ltb capacity ((20 + total - left) % 2 ^ 64))
      && ltb (largest left total) best

  chosen :
      (c left total best : ℕ)
      → 0 < c
      → c < length entries
      → left ≡ space (take c entries)
      → total ≡ space entries
      → better left total best ≡ true
      → Fits c
  chosen c left total best low high el et wins =
      let (both, _) =
        and-eq_true
          (not (ltb capacity ((20 + left) % 2 ^ 64))
            && not (ltb capacity ((20 + total - left) % 2 ^ 64)))
          (ltb (largest left total) best) wins in
      let (l, r) =
        and-eq_true (not (ltb capacity ((20 + left) % 2 ^ 64)))
          (not (ltb capacity ((20 + total - left) % 2 ^ 64))) both in
      let halves = space-split entries c in
      (
        low,
        high,
        omega (arith, el, kept (20 + left) capacity (omega (arith, el, halves, small)) l),
        omega
            (arith, el, et, halves, kept (20 + total - left) capacity (omega (arith, et, small)) r),
      )

  middle_loop-Fits :
      (rounds total candidate left middle best : ℕ)
      → 0 < candidate
      → rounds + candidate ≡ length entries
      → left ≡ space (take (candidate - 1) entries)
      → total ≡ space entries
      → (middle ≡ 0) ⊎ Fits middle
      → (middle_loop rounds entries capacity total candidate left middle best ≡ 0)
        ⊎ Fits (middle_loop rounds entries capacity total candidate left middle best)
  unfolding middle_loop
  middle_loop-Fits zero total candidate left middle best low count el et h = h
  middle_loop-Fits (suc rounds) total candidate left middle best low count el et h =
      let left' : ℕ = left + size_at entries (candidate - 1) in
      let reached : left' ≡ space (take candidate entries) =
        omega (arith, el, space-take_pred entries candidate low (omega arith)) in
      elim (Bool-cases (better left' total best)) [
        | inl wins ↦ rw wins (
            middle_loop-Fits rounds total (candidate + 1) left' candidate (largest left' total)
              (omega arith) (omega arith)
              (reached
                ∙ ap (λ (c : ℕ). space (take c entries)) {x = candidate} {y = candidate + 1 - 1}
                    (omega arith))
              et (inr (chosen candidate left' total best low (omega arith) reached et wins)))
        | inr loses ↦ rw loses (
            middle_loop-Fits rounds total (candidate + 1) left' middle best (omega arith)
              (omega arith)
              (reached
                ∙ ap (λ (c : ℕ). space (take c entries)) {x = candidate} {y = candidate + 1 - 1}
                    (omega arith))
              et h)
      ]

-- What a split promises of a leaf.
abbrev pub IsSplitOf : ℕ → Result ℕ → Node → LeafSplit → Type 0
IsSplitOf capacity allocated node split =
    (split.left_node.entries ++ split.right_node.entries ≡ node.entries)
    × (20 + space split.left_node.entries ≤ capacity)
    × (20 + space split.right_node.entries ≤ capacity)
    × (0 < length split.left_node.entries)
    × (0 < length split.right_node.entries)
    × (allocated ≡ ok split.left_node.right_sibling)
    × (split.right_node.right_sibling ≡ node.right_sibling)
    × (split.separator ≡ key_at split.right_node.entries 0)

cut_at :
    (capacity : ℕ) (allocated : Result ℕ) (node : Node) (middle page : ℕ)
    (small : 20 + space node.entries < 2 ^ 64)
    → Fits node.entries capacity small middle
    → allocated ≡ ok page
    → IsSplitOf capacity allocated node (record {
      left_node = record node { right_sibling = page; entries = take middle node.entries };
      right_node = record {
        kind = leaf;
        right_sibling = node.right_sibling;
        first_child = 0;
        entries = drop middle node.entries;
      };
      separator = key_at (drop middle node.entries) 0;
    })
cut_at capacity allocated node middle page small (low, high, left_fits, right_fits) given = (
  take-append-drop middle node.entries,
  left_fits,
  right_fits,
  omega (arith, length-take middle node.entries),
  omega (arith, length-drop middle node.entries),
  given,
  refl,
  refl,
)

middle-Fits :
    (entries : List Entry) (capacity total : ℕ) (small : 20 + space entries < 2 ^ 64)
    → total ≡ space entries
    → (middle_loop (length entries - 1) entries capacity total 1 0 0 (2 ^ 64 - 1) ≡ 0)
      ⊎ Fits entries capacity small
          (middle_loop (length entries - 1) entries capacity total 1 0 0 (2 ^ 64 - 1))
middle-Fits [] capacity total small et = inl (unfold middle_loop in refl)
middle-Fits (entry ∷ entries) capacity total small et =
    middle_loop-Fits (entry ∷ entries) capacity small (length (entry ∷ entries) - 1) total 1 0 0
      (2 ^ 64 - 1) (omega arith) (omega arith) (sym space-nil) et (inl refl)

-- If a leaf that is split and its header take less than 2^64 bytes, its entries fall, in order, into two
-- parts that are not empty and fit the capacity with a header; the left leaf links to the page that was
-- allocated and the right one to the old sibling, and the separator is the first key on the right.
pub split_leaf-IsSplitOf :
    (capacity : ℕ) (allocated : Result ℕ) (node : Node) (split : LeafSplit)
    → 20 + space node.entries < 2 ^ 64
    → split_leaf capacity allocated node ≡ ok split
    → IsSplitOf capacity allocated node split
unfolding split_leaf
split_leaf-IsSplitOf capacity allocated node split small h =
    let (total, sum, h1) = bind_ok (total_size 0 node.entries) _ split h in
    let middle : ℕ =
      middle_loop (length node.entries - 1) node.entries capacity total 1 0 0 (2 ^ 64 - 1) in
    let (cut, h2) = then_ok (middle == 0) buffer_too_small _ split h1 in
    let (page, given, h3) = bind_ok allocated _ split h2 in
    let made : record {
      left_node = record node { right_sibling = page; entries = take middle node.entries };
      right_node = record {
        kind = leaf;
        right_sibling = node.right_sibling;
        first_child = 0;
        entries = drop middle node.entries;
      };
      separator = key_at (drop middle node.entries) 0;
    }
        ≡ split =
      cc h3 in
    elim (middle-Fits node.entries capacity total small
      (omega (arith, total_size-space 0 node.entries total sum))) [
        | inl none_found ↦ absurd (cc (cut, ap (λ (m : ℕ). m == 0) none_found, ==_refl 0))
        | inr fits ↦
            subst (IsSplitOf capacity allocated node) made
              (cut_at capacity allocated node middle page small fits given)
      ]
