-- ===== src/Btree/Leaf.antt =====
-- A put into a leaf updates the map that the leaf stands for, and keeps the keys in order.
use shibadb.Btree.{same_key, key_at, lower_bound, replace_value, leaf_put}
use shibadb.Btree.Order.{key_less_total, same_key-eq, same_key_refl}
use shibadb.Btree.Put.{
  lookup, Less, differs, take-Less, drop-key_at, lookup-append, lookup-same_front,
  keys_ascend-replace_value, keys_ascend-insert,
}
use shibadb.Btree.Search.{Splits, lower_bound-Splits}
use shibadb.BtreePage.{Entry, Node, key_less, keys_ascend, copy_bytes}
use shibadb.Prelude.{
  ℕ, ◌<◌, ◌≡◌, ◌≢◌, refl, sym, ap, ◌∙◌, inl, inr, arith, List, [], ◌∷◌, ◌++◌, take, drop, length,
  take-append-drop, length-drop, All, some, true, false, ◌&&◌, ltb, lt→ltb, ltb→lt, and-eq_true,
  Bool-cases, if◌then◌else◌,
}

lookup-replaced :
    (back : List Entry) (key value : List ℕ)
    → 0 < length back
    → same_key (key_at back 0) key ≡ true
    → lookup (replace_value back value) key ≡ some (copy_bytes value)
unfolding lookup replace_value key_at
lookup-replaced [] key value some_left same = absurd (omega arith)
lookup-replaced (entry ∷ back) key value some_left same = rw same refl

lookup-replaced_other :
    (back : List Entry) (key value other : List ℕ)
    → 0 < length back
    → same_key (key_at back 0) key ≡ true
    → other ≢ key
    → lookup (replace_value back value) other ≡ lookup back other
unfolding lookup replace_value key_at
lookup-replaced_other [] key value other some_left same ne = absurd (omega arith)
lookup-replaced_other (entry ∷ back) key value other some_left same ne =
    rw (differs entry.key other (λ e. ne (sym e ∙ same_key-eq entry.key key same))) refl

module _ (node : Node) (key value : List ℕ) (ascend : keys_ascend node.entries ≡ true) where
  abbrev position : ℕ
  position = lower_bound node.entries key

  abbrev front : List Entry
  front = take position node.entries

  abbrev back : List Entry
  back = drop position node.entries

  splits : Splits node.entries key ascend position
  splits = lower_bound-Splits node.entries key ascend

  front-Less : All (Less key) front
  front-Less = take-Less node.entries key position splits.1 splits.0

  whole : front ++ back ≡ node.entries
  whole = take-append-drop position node.entries

  abbrev Updates : List Entry → Type 0
  Updates entries =
      (keys_ascend entries ≡ true)
      × (lookup entries key ≡ some (copy_bytes value))
      × ((other : List ℕ) → other ≢ key → lookup entries other ≡ lookup node.entries other)

  replaced-Updates :
      (ltb position (length node.entries) && same_key (key_at node.entries position) key) ≡ true
      → Updates (front ++ replace_value back value)
  replaced-Updates found =
      let (below, same) =
        and-eq_true (ltb position (length node.entries))
          (same_key (key_at node.entries position) key) found in
      let some_left : 0 < length back =
        omega
          (arith, length-drop position node.entries, ltb→lt position (length node.entries) below) in
      let here : same_key (key_at back 0) key ≡ true =
        ap (λ k. same_key k key) (drop-key_at node.entries position) ∙ same in
      (
        keys_ascend-replace_value front back value ∙ ap keys_ascend whole ∙ ascend,
        lookup-append front (replace_value back value) key front-Less
            ∙ lookup-replaced back key value some_left here,
        λ other ne.
            lookup-same_front front (replace_value back value) back other
              (lookup-replaced_other back key value other some_left here ne)
            ∙ ap (λ entries. lookup entries other) whole,
      )

  abbrev new : Entry
  new = record { key = key; value = copy_bytes value; right_child = 0 }

  above :
      (ltb position (length node.entries) && same_key (key_at node.entries position) key) ≡ false
      → 0 < length back
      → key_less key (key_at back 0) ≡ true
  above missing some_left =
      ap (key_less key) (drop-key_at node.entries position)
      ∙ elim (Bool-cases (key_less key (key_at node.entries position))) [
        | inl less ↦ less
        | inr not_less ↦ absurd (
            cc (
              missing,
              lt→ltb position (length node.entries) below,
              ap (λ k. same_key k key)
                  (key_less_total (key_at node.entries position) key
                    (splits.2 position (omega arith) below) not_less),
              same_key_refl key,
            ))
      ]
    where
      below : position < length node.entries
      below = omega (arith, length-drop position node.entries)

  inserted-Updates :
      (ltb position (length node.entries) && same_key (key_at node.entries position) key) ≡ false
      → Updates (front ++ (new ∷ back))
  unfolding lookup
  inserted-Updates missing = (
    keys_ascend-insert front back new front-Less (above missing) (ap keys_ascend whole ∙ ascend),
    lookup-append front (new ∷ back) key front-Less ∙ rw (same_key_refl key) refl,
    λ other ne.
        lookup-same_front front (new ∷ back) back other
          (rw (differs key other (λ e. ne (sym e))) refl)
        ∙ ap (λ entries. lookup entries other) whole,
  )

  Updates-leaf_put : Updates (leaf_put node key value).entries
  unfolding leaf_put
  Updates-leaf_put =
      elim (Bool-cases
        (ltb position (length node.entries) && same_key (key_at node.entries position) key)) [
          | inl found ↦ rw found (replaced-Updates found)
          | inr missing ↦ rw missing (inserted-Updates missing)
        ]

  -- A put into a leaf whose keys ascend leaves ascending keys.
  pub keys_ascend-leaf_put : keys_ascend (leaf_put node key value).entries ≡ true
  keys_ascend-leaf_put = Updates-leaf_put.0

  -- After a put into a leaf whose keys ascend, the key has the value, and any other key what it had.
  pub lookup-leaf_put :
      (other : List ℕ)
      → lookup (leaf_put node key value).entries other
        ≡ (if same_key key other then some (copy_bytes value) else lookup node.entries other)
  lookup-leaf_put other = elim (Bool-cases (same_key key other)) [
    | inl same ↦
        ap (lookup (leaf_put node key value).entries) (sym (same_key-eq key other same))
        ∙ Updates-leaf_put.1
        ∙ rw same refl
    | inr differ ↦
        Updates-leaf_put.2 other (λ e. cc (differ, ap (same_key key) e, same_key_refl key))
        ∙ rw differ refl
  ]
