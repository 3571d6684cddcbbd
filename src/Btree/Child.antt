-- ===== src/Btree/Child.antt =====
-- The child that the search in an inner node steps to is the one whose subtree may have the key.
use shibadb.Btree.{same_key, key_at, lower_bound, right_child_at, child_at, child_for}
use shibadb.Btree.Order.{
  ltb-suc, key_less_irreflexive, key_less_total, key_less_trans, same_key-eq, same_key_refl,
}
use shibadb.Btree.Put.{Less, lookup, lookup-append, differs}
use shibadb.Btree.Search.{linear_search, lower_bound-eq_linear_search, ascend-tail}
use shibadb.Btree.Tree.{AtLeast, Holds, Children, last, more}
use shibadb.BtreePage.{Entry, Node, key_less, keys_ascend}
use shibadb.Page.{PageView}
use shibadb.Status.{Result}
use shibadb.Prelude.{
  ℕ, zero, suc, ◌+◌, ◌-◌, ◌≡◌, ◌⊎◌, lt→ltb, ==_of_ne, ◌≢◌, refl, sym, ap, ◌∙◌, inl, inr, arith,
  List, [], ◌∷◌, ◌++◌, All, length, none, true, false, ◌&&◌, ltb, and-eq_true, Bool-cases,
  if◌then◌else◌,
}

-- The child that is right of every separator up to the key.
unfoldable pub child_of : ℕ → List Entry → List ℕ → ℕ
child_of first [] key = first
child_of first (separator ∷ separators) key =
    let right = child_of separator.right_child separators key in
    if key_less key separator.key then first else right

less_asym : (a b : List ℕ) → key_less a b ≡ true → key_less b a ≡ false
less_asym a b less = elim (Bool-cases (key_less b a)) [
  | inl back ↦ absurd (cc (key_less_trans a b a less back, key_less_irreflexive a))
  | inr not_back ↦ not_back
]

-- `child_at` and the search, on the number of the child.
unfoldable child_in : ℕ → List Entry → ℕ → ℕ
child_in first entries zero = first
child_in first entries (suc index) = right_child_at entries index

child_at-eq :
    (node : Node) (index : ℕ) → child_at node index ≡ child_in node.first_child node.entries index
unfolding child_at child_in
child_at-eq node zero = refl
child_at-eq node (suc index) =
    let before : suc index - 1 ≡ index = omega arith in
    rw (==_of_ne (suc index) 0 (omega arith), before) refl

unfoldable step : ℕ → List Entry → List ℕ → ℕ → ℕ
step first entries key position =
    if ltb position (length entries) && same_key (key_at entries position) key
    then child_in first entries (suc position)
    else child_in first entries position

child_in-suc :
    (first : ℕ) (separator : Entry) (separators : List Entry) (position : ℕ)
    → child_in first (separator ∷ separators) (suc position)
      ≡ child_in separator.right_child separators position
unfolding child_in right_child_at
child_in-suc first separator separators zero = refl
child_in-suc first separator separators (suc position) = refl

step-suc :
    (first : ℕ) (separator : Entry) (separators : List Entry) (key : List ℕ) (position : ℕ)
    → step first (separator ∷ separators) key (suc position)
      ≡ step separator.right_child separators key position
unfolding step key_at
step-suc first separator separators key position =
    rw
      (
        ltb-suc position (length separators),
        child_in-suc first separator separators (suc position),
        child_in-suc first separator separators position,
      )
      refl

-- Right of a separator that has the key there is no other one to step over.
child_of-least :
    (separator : Entry) (separators : List Entry)
    → keys_ascend (separator ∷ separators) ≡ true
    → child_of separator.right_child separators separator.key ≡ separator.right_child
unfolding child_of keys_ascend
child_of-least separator [] h = refl
child_of-least separator (next ∷ rest) h =
    rw (and-eq_true (key_less separator.key next.key) (keys_ascend (next ∷ rest)) h).0 refl

above : (a b : List ℕ) → key_less a b ≡ false → same_key a b ≡ false → key_less b a ≡ true
above a b not_less other = elim (Bool-cases (key_less b a)) [
  | inl greater ↦ greater
  | inr not_greater ↦
      absurd
        (cc (other, same_key_refl a, ap (same_key a) (key_less_total a b not_less not_greater)))
]

step-eq :
    (first : ℕ) (separators : List Entry) (key : List ℕ)
    → keys_ascend separators ≡ true
    → step first separators key (linear_search separators key) ≡ child_of first separators key
unfolding linear_search child_of
step-eq first [] key h = unfold step child_in in refl
step-eq first (separator ∷ separators) key h = elim (Bool-cases (key_less separator.key key)) [
  | inl less ↦
      rw (less, less_asym separator.key key less)
        (step-suc first separator separators key (linear_search separators key)
          ∙ step-eq separator.right_child separators key (ascend-tail separator separators h))
  | inr not_less ↦ rw not_less (elim (Bool-cases (same_key separator.key key)) [
    | inl same ↦ here same
    | inr other ↦ rw (above separator.key key not_less other) (
        unfold step child_in key_at in
        rw (other, lt→ltb 0 (suc (length separators)) (omega arith)) refl)
  ])
]
  where
    here :
        same_key separator.key key ≡ true
        → step first (separator ∷ separators) key 0 ≡ (
            if key_less key separator.key
            then first
            else child_of separator.right_child separators key)
    here same =
        let e = same_key-eq separator.key key same in
        let not_less : key_less key separator.key ≡ false =
          ap (key_less key) e ∙ key_less_irreflexive key in
        rw not_less (
          unfold step child_in key_at right_child_at in
          rw (same, lt→ltb 0 (suc (length separators)) (omega arith))
            (sym (child_of-least separator separators h)
              ∙ ap (child_of separator.right_child separators) e))

child_for-step :
    (node : Node) (key : List ℕ)
    → child_for node key ≡ step node.first_child node.entries key (lower_bound node.entries key)
unfolding child_for step
child_for-step node key =
    let place = lower_bound node.entries key in
    let next : place + 1 ≡ suc place = omega arith in
    rw (next, child_at-eq node (suc place), child_at-eq node place) refl

-- In ascending separators the search by halves steps to the child right of every separator up to the
-- key.
pub child_for-eq :
    (node : Node) (key : List ℕ)
    → keys_ascend node.entries ≡ true
    → child_for node key ≡ child_of node.first_child node.entries key
child_for-eq node key h =
    child_for-step node key
    ∙ ap (step node.first_child node.entries key) (lower_bound-eq_linear_search node.entries key h)
    ∙ step-eq node.first_child node.entries key h

-- Looking before entries that do not have the key.
lookup-front :
    (front back : List Entry) (key : List ℕ)
    → lookup back key ≡ none
    → lookup (front ++ back) key ≡ lookup front key
unfolding lookup
lookup-front [] back key h = h
lookup-front (entry ∷ front) back key h = rw (lookup-front front back key h) refl

-- Neither entries above a separator that is above the key, nor those below one that is not, have it.
lookup-above :
    (bound key : List ℕ) (entries : List Entry)
    → key_less key bound ≡ true
    → All (AtLeast bound) entries
    → lookup entries key ≡ none
unfolding lookup
lookup-above bound key [] less h = refl
lookup-above bound key (entry ∷ entries) less (at_least, h) =
    let ne : entry.key ≢ key = λ e. cc (ap (λ k. key_less k bound) e, less, at_least) in
    rw (differs entry.key key ne) (lookup-above bound key entries less h)

below_bound :
    (bound key : List ℕ) (entries : List Entry)
    → key_less key bound ≡ false
    → All (Less bound) entries
    → All (Less key) entries
below_bound bound key [] at_least h = tt
below_bound bound key (entry ∷ entries) at_least (less, h) =
    (below (Bool-cases (key_less bound key)), below_bound bound key entries at_least h)
  where
    below :
        (key_less bound key ≡ true) ⊎ (key_less bound key ≡ false) → key_less entry.key key ≡ true
    below (inl above) = key_less_trans entry.key bound key less above
    below (inr same) = sym (ap (key_less entry.key) (key_less_total bound key same at_least)) ∙ less

-- That child holds what the whole has under the key.
pub lookup-child_of :
    {read : ℕ → Result PageView} {depth first : ℕ} {separators entries : List Entry} (key : List ℕ)
    → Children read depth first separators entries
    → (part : List Entry) × Holds read (child_of first separators key) depth part
      × (lookup entries key ≡ lookup part key)
unfolding child_of
lookup-child_of key (last held) = (_, held, refl)
lookup-child_of key
      (more {separator = separator} {front = front} {back = back} held left rest right) =
    elim (Bool-cases (key_less key separator.key)) [
      | inl less ↦ rw less (
        front,
        held,
        lookup-front front back key (lookup-above separator.key key back less right),
      )
      | inr at_least ↦
          let (part, found, same) = lookup-child_of key rest in
          rw at_least (
            part,
            found,
            lookup-append front back key (below_bound separator.key key front at_least left) ∙ same,
          )
    ]
