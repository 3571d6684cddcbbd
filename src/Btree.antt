-- ===== src/Btree.antt =====
-- src/btree.c: the search in one node of the B+tree, the changes that are made to one, the split of a
-- leaf, and the get. Allocation is taken to succeed, and the number of entries to be below SIZE_MAX
-- divided by their size, as for any array in memory, so that a put has no SDB_E_OVERFLOW. The comparison
-- of keys is that of BtreePage, which the source writes twice.
pub mod Order
pub mod Search
pub mod Put
pub mod Leaf
pub mod Tree
pub mod Child
pub mod Get
pub mod Found
pub mod Space
pub mod Split
use shibadb.Bytes.{same_bytes}
use shibadb.BtreePage.{
  NodeKind, leaf, inner, Entry, Node, copy_bytes, key_less, value_bytes, node_decode,
}
use shibadb.Page.{PageView}
use shibadb.Status.{
  Status, Result, ok, err, fail_if, corrupt, not_found, overflow, buffer_too_small,
  invalid_argument, ◌>>=◌, ◌>>◌,
}
use shibadb.Prelude.{
  ℕ, zero, suc, ◌+◌, ◌-◌, ◌/◌, ◌%◌, ◌^◌, min, List, [], ◌∷◌, ◌++◌, take, drop, length, Option, none,
  some, Bool, true, false, not, ◌&&◌, ◌||◌, ◌==◌, ltb, if◌then◌else◌,
}

-- `sdb_btree_compare(left, right) == 0`
unfoldable pub same_key : List ℕ → List ℕ → Bool
same_key left right =
    let common : ℕ = min (length left) (length right) in
    same_bytes (take common left) (take common right) && length left == length right

-- `entries[index].key`; no caller passes the end.
unfoldable pub key_at : List Entry → ℕ → List ℕ
key_at [] index = []
key_at (entry ∷ entries) zero = entry.key
key_at (entry ∷ entries) (suc index) = key_at entries index

-- `while (low < high)`, for at most `rounds` rounds.
unfoldable pub lower_bound_loop : ℕ → List Entry → List ℕ → ℕ → ℕ → ℕ
lower_bound_loop zero entries key low high = low
lower_bound_loop (suc rounds) entries key low high =
    let middle : ℕ = low + (high - low) / 2 in
    let less = key_less (key_at entries middle) key in
    let rest =
      lower_bound_loop rounds entries key (if less then middle + 1 else low)
        (if less then high else middle) in
    if ltb low high then rest else low

-- Every round makes the range smaller, so the number of entries is enough rounds.
unfoldable pub lower_bound : List Entry → List ℕ → ℕ
lower_bound entries key = lower_bound_loop (length entries) entries key 0 (length entries)

-- `sdb_btree_leaf_put` on the entries of the leaf: at the position of an equal key its value is replaced,
-- else the entry is inserted there.
unfoldable pub replace_value : List Entry → List ℕ → List Entry
replace_value [] value = []
replace_value (entry ∷ entries) value = record entry { value = copy_bytes value } ∷ entries

unfoldable pub leaf_put : Node → List ℕ → List ℕ → Node
leaf_put node key value =
    let position = lower_bound node.entries key in
    if ltb position (length node.entries) && same_key (key_at node.entries position) key
    then record node {
      entries = take position node.entries ++ replace_value (drop position node.entries) value;
    }
    else record node {
      entries =
          take position node.entries
          ++ (record { key = key; value = copy_bytes value; right_child = 0 }
              ∷ drop position node.entries);
    }

unfoldable pub internal_insert : Node → ℕ → List ℕ → ℕ → Node
internal_insert node position separator right_child = record node {
  entries =
      take position node.entries
      ++ (record { key = separator; value = none; right_child = right_child }
          ∷ drop position node.entries);
}

-- `entries[index].right_child`; no caller passes the end.
unfoldable pub right_child_at : List Entry → ℕ → ℕ
right_child_at [] index = 0
right_child_at (entry ∷ entries) zero = entry.right_child
right_child_at (entry ∷ entries) (suc index) = right_child_at entries index

unfoldable pub child_at : Node → ℕ → ℕ
child_at node child_index =
    if child_index == 0 then node.first_child else right_child_at node.entries (child_index - 1)

unfoldable pub remove_child : Node → ℕ → Node
remove_child node child_index =
    let entry_index : ℕ = if child_index == 0 then 0 else child_index - 1 in
    if length node.entries == 0 || ltb (length node.entries) child_index
    then node
    else record node {
      first_child = if child_index == 0 then right_child_at node.entries 0 else node.first_child;
      entries = take entry_index node.entries ++ drop (entry_index + 1) node.entries;
    }

-- `entries[index].value`; no caller passes the end.
unfoldable pub value_at : List Entry → ℕ → Option (List ℕ)
value_at [] index = none
value_at (entry ∷ entries) zero = entry.value
value_at (entry ∷ entries) (suc index) = value_at entries index

-- What `sdb_btree_get` reports: the value, or with SDB_E_BUFFER_TOO_SMALL the size that is needed.
pub data Answer : Type 0 where
  got : List ℕ → Answer
  needs : ℕ → Answer

unfoldable pub fill : ℕ → List ℕ → Answer
fill capacity value = if ltb capacity (length value) then needs (length value) else got value

unfoldable pub leaf_get : List Entry → List ℕ → ℕ → Result Answer
leaf_get entries key capacity =
    let position = lower_bound entries key in
    if position == length entries || not (same_key (key_at entries position) key)
    then err not_found
    else ok (fill capacity (value_bytes (value_at entries position)))

-- The page below an inner node that the key belongs to.
unfoldable pub child_for : Node → List ℕ → ℕ
child_for node key =
    let position = lower_bound node.entries key in
    if ltb position (length node.entries) && same_key (key_at node.entries position) key
    then child_at node (position + 1)
    else child_at node position

-- `read` is the pager's answer for a page.
unfoldable pub read_node : (ℕ → Result PageView) → ℕ → Result Node
read_node read page_id = do
  view ← read page_id
  fail_if (not (view.type == 1)) corrupt
  node_decode (some view.payload)

-- The loop of `sdb_btree_get`, which gives up at depth 64.
unfoldable pub get_loop : ℕ → (ℕ → Result PageView) → List ℕ → ℕ → ℕ → Result Answer
get_loop zero read key capacity page_id = err corrupt
get_loop (suc rounds) read key capacity page_id = read_node read page_id >>= λ node.
    elim node.kind [
      | leaf ↦ leaf_get node.entries key capacity
      | inner ↦ get_loop rounds read key capacity (child_for node key)
    ]

-- `sdb_btree`; its pager is the `read` of the operations, and `is_open` its field `open`.
pub record SdbBtree : Type 0 where
  pub root_page : ℕ
  pub is_open : Bool

-- `key` is `none` for NULL, and `has_value` is `value_out != NULL`.
unfoldable pub btree_get :
    (ℕ → Result PageView) → SdbBtree → Option (List ℕ) → Bool → ℕ → Result Answer
btree_get read tree none has_value capacity = err invalid_argument
btree_get read tree (some key) has_value capacity = do
  fail_if
      (not tree.is_open
        || length key == 0
        || ltb (2 ^ 16 - 1) (length key)
        || (not has_value && not (capacity == 0)))
      invalid_argument
  get_loop 64 read key capacity tree.root_page

-- The space of an entry in a leaf; the sizes are those of bytes in memory, so that the sum of three is
-- taken to fit 64 bits.
unfoldable pub leaf_entry_size : Entry → ℕ
leaf_entry_size entry = 6 + length entry.key + length (value_bytes entry.value)

-- `entries[index]`'s space; no caller passes the end.
unfoldable pub size_at : List Entry → ℕ → ℕ
size_at [] index = 0
size_at (entry ∷ entries) zero = leaf_entry_size entry
size_at (entry ∷ entries) (suc index) = size_at entries index

-- `total_entries_size`
unfoldable pub total_size : ℕ → List Entry → Result ℕ
total_size total [] = ok total
total_size total (entry ∷ entries) = do
  fail_if (ltb (2 ^ 64 - 1 - total) (leaf_entry_size entry)) overflow
  total_size (total + leaf_entry_size entry) entries

-- The loop for `candidate` on, `rounds` of them: the place to cut, of which the larger half is least.
unfoldable pub middle_loop : ℕ → List Entry → ℕ → ℕ → ℕ → ℕ → ℕ → ℕ → ℕ
middle_loop zero entries capacity total candidate left_entries middle best = middle
middle_loop (suc rounds) entries capacity total candidate left_entries middle best =
    let left_entries' : ℕ = left_entries + size_at entries (candidate - 1) in
    let left_size : ℕ = (20 + left_entries') % 2 ^ 64 in
    let right_size : ℕ = (20 + total - left_entries') % 2 ^ 64 in
    let largest : ℕ = if ltb right_size left_size then left_size else right_size in
    let better =
      not (ltb capacity left_size) && not (ltb capacity right_size) && ltb largest best in
    middle_loop rounds entries capacity total (candidate + 1) left_entries'
      (if better then candidate else middle) (if better then largest else best)

-- The two leaves and the key between them, which is copied from the right one.
pub record LeafSplit : Type 0 where
  pub left_node : Node
  pub right_node : Node
  pub separator : List ℕ

-- `capacity` and `allocated` are the pager's answers. The two nodes are then staged by
-- `sdb_btree_stage`, which is left out.
unfoldable pub split_leaf : ℕ → Result ℕ → Node → Result LeafSplit
split_leaf capacity allocated node = do
  total ← total_size 0 node.entries
  let middle = middle_loop (length node.entries - 1) node.entries capacity total 1 0 0 (2 ^ 64 - 1)
  fail_if (middle == 0) buffer_too_small
  right_page ← allocated
  ok (record {
    left_node = record node { right_sibling = right_page; entries = take middle node.entries };
    right_node = record {
      kind = leaf;
      right_sibling = node.right_sibling;
      first_child = 0;
      entries = drop middle node.entries;
    };
    separator = key_at (drop middle node.entries) 0;
  })
