-- ===== src/Btree/Search.antt =====
-- The search by halves finds the first entry that is not less than the key.
use shibadb.Btree.{key_at, lower_bound_loop, lower_bound}
use shibadb.Btree.Order.{key_less_trans}
use shibadb.BtreePage.{Entry, key_less, keys_ascend}
use shibadb.Prelude.{
  ℕ, zero, suc, ◌+◌, ◌-◌, ◌/◌, ◌<◌, ◌≤◌, ◌≡◌, ◌⊎◌, inl, inr, refl, sym, ap, ◌∙◌, arith, List, [],
  ◌∷◌, length, true, false, ltb, ltb→lt, ltb→le, and-eq_true, Bool-cases, if◌then◌else◌,
}

-- An ascending list is ascending at every distance.
pub ascend-tail :
    (entry : Entry) (entries : List Entry)
    → keys_ascend (entry ∷ entries) ≡ true
    → keys_ascend entries ≡ true
unfolding keys_ascend
ascend-tail entry [] h = refl
ascend-tail entry (next ∷ rest) h =
    (and-eq_true (key_less entry.key next.key) (keys_ascend (next ∷ rest)) h).1

head_least :
    (entry : Entry) (entries : List Entry) (j : ℕ)
    → keys_ascend (entry ∷ entries) ≡ true
    → j < length entries
    → key_less entry.key (key_at entries j) ≡ true
unfolding keys_ascend key_at
head_least entry [] j h below = absurd (omega arith)
head_least entry (next ∷ rest) zero h below =
    (and-eq_true (key_less entry.key next.key) (keys_ascend (next ∷ rest)) h).0
head_least entry (next ∷ rest) (suc j) h below =
    let (first, tail) = and-eq_true (key_less entry.key next.key) (keys_ascend (next ∷ rest)) h in
    key_less_trans entry.key next.key (key_at rest j) first
      (head_least next rest j tail (omega arith))

pub key_at-ascend :
    (entries : List Entry) (i j : ℕ)
    → keys_ascend entries ≡ true
    → i < j
    → j < length entries
    → key_less (key_at entries i) (key_at entries j) ≡ true
unfolding key_at
key_at-ascend [] i j h less below = absurd (omega arith)
key_at-ascend (entry ∷ entries) i zero h less below = absurd (omega arith)
key_at-ascend (entry ∷ entries) zero (suc j) h less below =
    head_least entry entries j h (omega arith)
key_at-ascend (entry ∷ entries) (suc i) (suc j) h less below =
    key_at-ascend entries i j (ascend-tail entry entries h) (omega arith) (omega arith)

-- The first place whose entry is not less than the key, from the front.
unfoldable pub linear_search : List Entry → List ℕ → ℕ
linear_search [] key = 0
linear_search (entry ∷ entries) key =
    let rest = linear_search entries key in if key_less entry.key key then suc rest else 0

linear_search-eq :
    (entries : List Entry) (key : List ℕ) (p : ℕ)
    → p ≤ length entries
    → ((i : ℕ) → i < p → key_less (key_at entries i) key ≡ true)
    → ((i : ℕ) → p ≤ i → i < length entries → key_less (key_at entries i) key ≡ false)
    → linear_search entries key ≡ p
unfolding linear_search key_at
linear_search-eq [] key p inside before after = omega arith
linear_search-eq (entry ∷ entries) key zero inside before after =
    rw (after zero (omega arith) (omega arith)) refl
linear_search-eq (entry ∷ entries) key (suc p) inside before after =
    rw (before zero (omega arith)) (
      ap suc (
        linear_search-eq entries key p (omega arith) (λ i h. before (suc i) (omega arith))
          (λ i h k. after (suc i) (omega arith) (omega arith))))

module _ (entries : List Entry) (key : List ℕ) (ascend : keys_ascend entries ≡ true) where
  -- The place `p` splits the entries by whether they are less than the key.
  abbrev pub Splits : ℕ → Type 0
  Splits p =
      (p ≤ length entries)
      × ((i : ℕ) → i < p → key_less (key_at entries i) key ≡ true)
      × ((i : ℕ) → p ≤ i → i < length entries → key_less (key_at entries i) key ≡ false)

  below_less :
      (i m : ℕ)
      → m < length entries
      → key_less (key_at entries m) key ≡ true
      → i ≤ m
      → key_less (key_at entries i) key ≡ true
  below_less i m inside less h = elim (order i m h) [
    | inl same ↦ ap (λ (k : ℕ). key_less (key_at entries k) key) same ∙ less
    | inr before ↦
        key_less_trans (key_at entries i) (key_at entries m) key
          (key_at-ascend entries i m ascend before inside) less
  ]
    where
      order : (a b : ℕ) → a ≤ b → (a ≡ b) ⊎ (a < b)
      order a b e = omega arith

  above_not :
      (i m : ℕ)
      → i < length entries
      → key_less (key_at entries m) key ≡ false
      → m ≤ i
      → key_less (key_at entries i) key ≡ false
  above_not i m inside not_less h = elim (Bool-cases (key_less (key_at entries i) key)) [
    | inl less ↦ absurd (cc (below_less m i inside less h, not_less))
    | inr at_least ↦ at_least
  ]

  loop-Splits :
      (rounds low high : ℕ)
      → high - low ≤ rounds
      → low ≤ high
      → high ≤ length entries
      → ((i : ℕ) → i < low → key_less (key_at entries i) key ≡ true)
      → ((i : ℕ) → high ≤ i → i < length entries → key_less (key_at entries i) key ≡ false)
      → Splits (lower_bound_loop rounds entries key low high)
  unfolding lower_bound_loop
  loop-Splits zero low high enough ordered inside before after =
      (omega arith, before, λ i p q. after i (omega arith) q)
  loop-Splits (suc rounds) low high enough ordered inside before after =
      elim (Bool-cases (ltb low high)) [
        | inr done ↦ rw done (
          omega (arith, ltb→le low high done),
          before,
          λ i p q. after i (omega (arith, ltb→le low high done)) q,
        )
        | inl more ↦ elim (Bool-cases (key_less (key_at entries (low + (high - low) / 2)) key)) [
          | inl less ↦
              rw (more, less)
                (loop-Splits rounds (low + (high - low) / 2 + 1) high
                  (omega (arith, ltb→lt low high more)) (omega (arith, ltb→lt low high more)) inside
                  (λ i p.
                    below_less i (low + (high - low) / 2) (omega (arith, ltb→lt low high more)) less
                      (omega arith))
                  after)
          | inr not_less ↦
              rw (more, not_less)
                (loop-Splits rounds low (low + (high - low) / 2)
                  (omega (arith, ltb→lt low high more)) (omega (arith, ltb→lt low high more))
                  (omega (arith, ltb→lt low high more)) before
                  (λ i p q. above_not i (low + (high - low) / 2) q not_less p))
        ]
      ]

  -- The entries before the place are less than the key, and those from it on are not.
  pub lower_bound-Splits : Splits (lower_bound entries key)
  unfolding lower_bound
  lower_bound-Splits =
      loop-Splits (length entries) 0 (length entries) (omega arith) (omega arith) (omega arith)
        (λ i p. absurd (omega arith)) (λ i p q. absurd (omega arith))

  -- In ascending entries, the search by halves gives the place that the search from the front gives.
  pub lower_bound-eq_linear_search : lower_bound entries key ≡ linear_search entries key
  lower_bound-eq_linear_search =
      let (inside, before, after) = lower_bound-Splits in
      sym (linear_search-eq entries key (lower_bound entries key) inside before after)
