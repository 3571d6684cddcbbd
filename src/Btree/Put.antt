-- ===== src/Btree/Put.antt =====
-- The map that the entries of a leaf stand for, and lists of entries that are cut in two.
use shibadb.Btree.{same_key, key_at, replace_value}
use shibadb.Btree.Order.{same_key-eq, key_less_irreflexive}
use shibadb.BtreePage.{Entry, key_less, keys_ascend}
use shibadb.Prelude.{
  ℕ, zero, suc, ◌<◌, ◌≤◌, ◌≡◌, ◌≢◌, refl, sym, ap, inl, inr, arith, List, [], ◌∷◌, ◌++◌, take, drop,
  length, All, Option, none, some, true, false, ◌&&◌, and-eq_true, Bool-cases, if◌then◌else◌,
}

-- The map that the entries stand for.
unfoldable pub lookup : List Entry → List ℕ → Option (Option (List ℕ))
lookup [] key = none
lookup (entry ∷ entries) key =
    let rest = lookup entries key in if same_key entry.key key then some entry.value else rest

abbrev pub Less : List ℕ → Entry → Type 0
Less key entry = key_less entry.key key ≡ true

pub differs : (a b : List ℕ) → a ≢ b → same_key a b ≡ false
differs a b ne = elim (Bool-cases (same_key a b)) [
  | inl same ↦ absurd (ne (same_key-eq a b same))
  | inr other ↦ other
]

pub less_differs : (a b : List ℕ) → key_less a b ≡ true → same_key a b ≡ false
less_differs a b less =
    differs a b (λ e. cc (sym (ap (key_less a) e), key_less_irreflexive a, less))

pub take-Less :
    (entries : List Entry) (key : List ℕ) (p : ℕ)
    → ((i : ℕ) → i < p → key_less (key_at entries i) key ≡ true)
    → p ≤ length entries
    → All (Less key) (take p entries)
unfolding key_at
take-Less entries key zero h inside = tt
take-Less [] key (suc p) h inside = tt
take-Less (entry ∷ entries) key (suc p) h inside = (
  h zero (omega arith),
  take-Less entries key p (λ i below. h (suc i) (omega arith)) (omega arith),
)

pub drop-key_at : (entries : List Entry) (p : ℕ) → key_at (drop p entries) 0 ≡ key_at entries p
unfolding key_at
drop-key_at [] zero = refl
drop-key_at [] (suc p) = refl
drop-key_at (entry ∷ entries) zero = refl
drop-key_at (entry ∷ entries) (suc p) = drop-key_at entries p

-- Looking past entries that are less than the key, and past the same entries on both sides.
pub lookup-append :
    (front back : List Entry) (key : List ℕ)
    → All (Less key) front
    → lookup (front ++ back) key ≡ lookup back key
unfolding lookup
lookup-append [] back key h = refl
lookup-append (entry ∷ front) back key (less, h) =
    rw (less_differs entry.key key less) (lookup-append front back key h)

pub lookup-same_front :
    (front xs ys : List Entry) (key : List ℕ)
    → lookup xs key ≡ lookup ys key
    → lookup (front ++ xs) key ≡ lookup (front ++ ys) key
unfolding lookup
lookup-same_front [] xs ys key h = h
lookup-same_front (entry ∷ front) xs ys key h =
    ap (λ r. if same_key entry.key key then some entry.value else r)
      (lookup-same_front front xs ys key h)

pub keys_ascend-replace_value :
    (front back : List Entry) (value : List ℕ)
    → keys_ascend (front ++ replace_value back value) ≡ keys_ascend (front ++ back)
unfolding keys_ascend replace_value
keys_ascend-replace_value [] [] value = refl
keys_ascend-replace_value [] (entry ∷ []) value = refl
keys_ascend-replace_value [] (entry ∷ next ∷ rest) value = refl
keys_ascend-replace_value (entry ∷ []) [] value = refl
keys_ascend-replace_value (entry ∷ []) (b ∷ []) value = refl
keys_ascend-replace_value (entry ∷ []) (b ∷ next ∷ rest) value = refl
keys_ascend-replace_value (entry ∷ next ∷ front) back value =
    ap (λ r. key_less entry.key next.key && r) (keys_ascend-replace_value (next ∷ front) back value)

pub keys_ascend-insert :
    (front back : List Entry) (new : Entry)
    → All (Less new.key) front
    → (0 < length back → key_less new.key (key_at back 0) ≡ true)
    → keys_ascend (front ++ back) ≡ true
    → keys_ascend (front ++ (new ∷ back)) ≡ true
unfolding keys_ascend key_at
keys_ascend-insert [] [] new less more h = refl
keys_ascend-insert [] (b ∷ back) new less more h = ground (arith, more (omega arith), h)
keys_ascend-insert (entry ∷ []) [] new (less, _) more h = ground (arith, less)
keys_ascend-insert (entry ∷ []) (b ∷ back) new (less, _) more h = ground (
  arith,
  less,
  more (omega arith),
  (and-eq_true (key_less entry.key b.key) (keys_ascend (b ∷ back)) h),
)
keys_ascend-insert (entry ∷ next ∷ front) back new (less, others) more h =
    let (first, rest) =
      and-eq_true (key_less entry.key next.key) (keys_ascend (next ∷ front ++ back)) h in
    ground (arith, first, keys_ascend-insert (next ∷ front) back new others more rest)
