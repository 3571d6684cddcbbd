-- ===== src/Btree/Found.antt =====
-- The search in a leaf finds what the map of its entries has.
use shibadb.Btree.{same_key, key_at, value_at, lower_bound, leaf_get, fill, Answer, got, needs}
use shibadb.Btree.Order.{same_key-eq}
use shibadb.Btree.Put.{lookup, take-Less, lookup-append}
use shibadb.Btree.Search.{Splits, lower_bound-Splits, key_at-ascend}
use shibadb.BtreePage.{Entry, key_less, keys_ascend, value_bytes}
use shibadb.Status.{Result, ok, err, not_found}
use shibadb.Prelude.{
  ℕ, zero, suc, ◌<◌, ◌≤◌, ◌≡◌, ◌⊎◌, refl, sym, ap, ◌∙◌, inl, inr, arith, List, [], ◌∷◌, take, drop,
  length, take-append-drop, Option, none, some, Bool, true, false, not, ◌||◌, ◌==◌, leb,
  if◌then◌else◌, Bool-cases, or-eq_false,
}

-- The answer to a get from what the map has: the value if it fits the capacity, else its size.
unfoldable pub answer : ℕ → Option (Option (List ℕ)) → Result Answer
answer capacity none = err not_found
answer capacity (some value) = ok (
    if leb (length (value_bytes value)) capacity
    then got (value_bytes value)
    else needs (length (value_bytes value)))

fill-eq :
    (capacity : ℕ) (value : Option (List ℕ))
    → ok (fill capacity (value_bytes value)) ≡ answer capacity (some value)
unfolding fill answer
fill-eq capacity value = ap ok (ground arith)

lookup-none :
    (entries : List Entry) (key : List ℕ)
    → ((i : ℕ) → i < length entries → same_key (key_at entries i) key ≡ false)
    → lookup entries key ≡ none
unfolding lookup key_at
lookup-none [] key h = refl
lookup-none (entry ∷ entries) key h =
    rw (h zero (omega arith)) (lookup-none entries key (λ i below. h (suc i) (omega arith)))

-- From the place on, the first entry that has the key is the first one.
lookup-drop :
    (entries : List Entry) (key : List ℕ) (p : ℕ)
    → p < length entries
    → same_key (key_at entries p) key ≡ true
    → lookup (drop p entries) key ≡ some (value_at entries p)
unfolding lookup key_at value_at
lookup-drop [] key p below same = absurd (omega arith)
lookup-drop (entry ∷ entries) key zero below same = rw same refl
lookup-drop (entry ∷ entries) key (suc p) below same = lookup-drop entries key p (omega arith) same

lookup-missing_drop :
    (entries : List Entry) (key : List ℕ) (p : ℕ)
    → ((i : ℕ) → p ≤ i → i < length entries → same_key (key_at entries i) key ≡ false)
    → lookup (drop p entries) key ≡ none
unfolding key_at lookup
lookup-missing_drop entries key zero h =
    lookup-none entries key (λ i below. h i (omega arith) below)
lookup-missing_drop [] key (suc p) h = refl
lookup-missing_drop (entry ∷ entries) key (suc p) h =
    lookup-missing_drop entries key p (λ i from below. h (suc i) (omega arith) (omega arith))

module _ (entries : List Entry) (key : List ℕ) (capacity : ℕ)
    (ascend : keys_ascend entries ≡ true) where
  abbrev place : ℕ
  place = lower_bound entries key

  splits : Splits entries key ascend place
  splits = lower_bound-Splits entries key ascend

  lookup-back : lookup entries key ≡ lookup (drop place entries) key
  lookup-back =
      ap (λ es. lookup es key) (sym (take-append-drop place entries))
      ∙ lookup-append (take place entries) (drop place entries) key
          (take-Less entries key place splits.1 splits.0)

  -- The entries after one that does not have the key are above it.
  none_after :
      same_key (key_at entries place) key ≡ false
      → (i : ℕ) → place ≤ i
      → i < length entries
      → same_key (key_at entries i) key ≡ false
  none_after differ i from below = elim (Bool-cases (same_key (key_at entries i) key)) [
    | inr other ↦ other
    | inl same ↦ elim (order place i from) [
      | inl here ↦ absurd (cc (differ, ap (λ (k : ℕ). same_key (key_at entries k) key) here, same))
      | inr later ↦ absurd (
          cc (
            splits.2 place (omega arith) (omega arith),
            ap (key_less (key_at entries place)) (same_key-eq (key_at entries i) key same),
            key_at-ascend entries place i ascend later below,
          ))
    ]
  ]
    where
      order : (a b : ℕ) → a ≤ b → (a ≡ b) ⊎ (a < b)
      order a b e = omega arith

  pub leaf_get-lookup : leaf_get entries key capacity ≡ answer capacity (lookup entries key)
  unfolding leaf_get answer
  leaf_get-lookup =
      elim (Bool-cases (place == length entries || not (same_key (key_at entries place) key))) [
        | inl missing ↦
            rw
              (
                missing,
                lookup-back,
                lookup-missing_drop entries key place
                    (λ i from below. nowhere missing i from below),
              )
              refl
        | inr present ↦
            let (inside, same) =
              or-eq_false (place == length entries) (not (same_key (key_at entries place) key))
                present in
            rw
              (
                present,
                lookup-back,
                lookup-drop entries key place (strictly place (length entries) splits.0 inside)
                    (positive (same_key (key_at entries place) key) same),
              )
              (fill-eq capacity (value_at entries place))
      ]
    where
      strictly : (a b : ℕ) → a ≤ b → (a == b) ≡ false → a < b
      strictly a b h k = ground arith

      positive : (b : Bool) → not b ≡ false → b ≡ true
      positive true e = refl
      positive false e = absurd (cc e)

      negative : (a b : ℕ) (c : Bool) → (a == b || not c) ≡ true → a < b → c ≡ false
      negative a b true h k = ground arith
      negative a b false h k = refl

      nowhere :
          (place == length entries || not (same_key (key_at entries place) key)) ≡ true
          → (i : ℕ) → place ≤ i
          → i < length entries
          → same_key (key_at entries i) key ≡ false
      nowhere missing i from below =
          none_after
            (negative place (length entries) (same_key (key_at entries place) key) missing
              (omega arith))
            i from below
