-- ===== src/Tests/Trees.antt =====
-- The search and the put at a concrete leaf.
use shibadb.Btree
use shibadb.Btree.{key_at, lower_bound, leaf_put, same_key, SdbBtree, got, btree_get}
use shibadb.Btree.Found.{answer}
use shibadb.Btree.Get.{btree_get-lookup}
use shibadb.Btree.Tree.{IsNode, Holds, of_leaf, of_inner, last, more}
use shibadb.Bytes.{same_bytes, zeros}
use shibadb.Codec.{write_u16_le, write_u32_le, write_u64_le, write_loop, checked_add_size}
use shibadb.BtreePage.RoundTrip.{node_decode-encode}
use shibadb.Page.{PageView}
use shibadb.Status.{Result, ok}
use shibadb.Btree.Leaf.{keys_ascend-leaf_put, lookup-leaf_put}
use shibadb.Btree.Put.{lookup}
use shibadb.Btree.Search.{linear_search, lower_bound-eq_linear_search}
use shibadb.BtreePage
use shibadb.BtreePage.{leaf, Entry, Node, key_less, keys_ascend, copy_bytes, node_encode}
use shibadb.Tests.Nodes.{leaf_node, inner_node, leaf_page, inner_page, leaf-encodes, inner-encodes}
use shibadb.Prelude.{
  ℕ, ◌≡◌, ◌==◌, arith, length, refl, List, [], ◌∷◌, ◌++◌, some, true, if◌then◌else◌,
}

abbrev wanted : List ℕ
wanted = 1 ∷ 2 ∷ 5 ∷ []

ascends : keys_ascend leaf_node.entries ≡ true
unfolding keys_ascend key_less BtreePage.memcmp_less
ascends = refl

second : lower_bound leaf_node.entries wanted ≡ 1
unfolding lower_bound Btree.lower_bound_loop key_at key_less BtreePage.memcmp_less
second = refl

lower_bound-eq_linear_search_example :
    lower_bound leaf_node.entries wanted ≡ linear_search leaf_node.entries wanted
lower_bound-eq_linear_search_example = lower_bound-eq_linear_search leaf_node.entries wanted ascends

keys_ascend-leaf_put_example : keys_ascend (leaf_put leaf_node wanted (8 ∷ [])).entries ≡ true
keys_ascend-leaf_put_example = keys_ascend-leaf_put leaf_node wanted (8 ∷ []) ascends

lookup-leaf_put_example : lookup (leaf_put leaf_node wanted (8 ∷ [])).entries (1 ∷ 3 ∷ []) ≡ (
    if same_key wanted (1 ∷ 3 ∷ [])
    then some (copy_bytes (8 ∷ []))
    else lookup leaf_node.entries (1 ∷ 3 ∷ []))
lookup-leaf_put_example = lookup-leaf_put leaf_node wanted (8 ∷ []) ascends (1 ∷ 3 ∷ [])

abbrev view_of : List ℕ → PageView
view_of payload = record {
  type = 1;
  flags = 0;
  page_id = 1;
  page_lsn = 0;
  payload = payload;
  payload_size = length payload;
}

-- The leaf right of the separator, which holds the separator's key.
abbrev right_node : Node
right_node = record {
  kind = leaf;
  right_sibling = 0;
  first_child = 0;
  entries = record { key = 5 ∷ []; value = some (9 ∷ []); right_child = 0 } ∷ [];
}

abbrev right_page : List ℕ
right_page =
    83 ∷ 66 ∷ 84 ∷ 49 ∷ 1 ∷ 0 ∷ 1 ∷ 0 ∷ 0 ∷ 0 ∷ 0 ∷ 0 ∷ 0 ∷ 0 ∷ 0 ∷ 0 ∷ 0 ∷ 0 ∷ 0 ∷ 0 ∷ 1 ∷ 0 ∷ 1
    ∷ 0 ∷ 0 ∷ 0 ∷ 5 ∷ 9 ∷ []

right-encodes : node_encode (some right_node) true 4096 ≡ ok right_page
unfolding node_encode BtreePage.encoded_size BtreePage.bad_links BtreePage.encoded_size_loop
    BtreePage.bad_entry BtreePage.value_bytes BtreePage.out_of_order BtreePage.or_invalid
    checked_add_size BtreePage.fixed_size BtreePage.value_size_of BtreePage.key_less
    BtreePage.memcmp_less write_u16_le BtreePage.kind_code zeros write_u64_le BtreePage.header_link
    BtreePage.encode_entries BtreePage.encode_entry write_u32_le BtreePage.lacks_value write_loop
right-encodes = refl

-- The root is page 2; its children are the pages 3 and 4.
abbrev pages : ℕ → Result PageView
pages page_id =
    if page_id == 2
    then ok (view_of inner_page)
    else if page_id == 3
    then ok (view_of leaf_page)
    else ok (view_of right_page)

abbrev tree : SdbBtree
tree = record { root_page = 2; is_open = true }

root_is : IsNode pages 2 inner_node
unfolding copy_bytes BtreePage.value_bytes
root_is = (
  view_of inner_page,
  refl,
  refl,
  node_decode-encode inner_node 4096 inner_page inner-encodes ((refl, omega arith), tt)
      (omega arith) (omega arith),
)

left_is : IsNode pages 3 leaf_node
unfolding copy_bytes BtreePage.value_bytes
left_is = (
  view_of leaf_page,
  refl,
  refl,
  node_decode-encode leaf_node 4096 leaf_page leaf-encodes
      ((refl, omega arith), ((refl, omega arith), tt)) (omega arith) (omega arith),
)

right_is : IsNode pages 4 right_node
unfolding copy_bytes BtreePage.value_bytes
right_is = (
  view_of right_page,
  refl,
  refl,
  node_decode-encode right_node 4096 right_page right-encodes ((refl, omega arith), tt)
      (omega arith) (omega arith),
)

-- The tree holds the entries of both leaves.
abbrev stored : List Entry
stored = leaf_node.entries ++ right_node.entries

held : Holds pages 2 2 stored
unfolding key_less BtreePage.memcmp_less
held =
    of_inner root_is refl
      (more (of_leaf left_is refl) (refl, (refl, tt)) (last (of_leaf right_is refl)) (refl, tt))

-- The key of the separator, which is in the leaf right of it.
btree_get-lookup_example :
    btree_get pages tree (some (5 ∷ [])) true 10 ≡ answer 10 (lookup stored (5 ∷ []))
btree_get-lookup_example =
    btree_get-lookup pages (5 ∷ []) 10 tree 2 stored refl (omega arith) (omega arith) held
      (omega arith)

found_nine : answer 10 (lookup stored (5 ∷ [])) ≡ ok (got (9 ∷ []))
unfolding answer lookup same_key same_bytes BtreePage.value_bytes
found_nine = refl
