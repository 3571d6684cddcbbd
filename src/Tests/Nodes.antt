-- ===== src/Tests/Nodes.antt =====
-- The codec of nodes at a concrete leaf and a concrete inner node.
use shibadb.Bytes.{zeros}
use shibadb.BtreePage
use shibadb.BtreePage.{
  NodeKind, leaf, inner, Entry, Node, btree_magic, encoded_size, node_encode, node_decode,
}
use shibadb.BtreePage.RoundTrip.{node_decode-encode, length-node_encode}
use shibadb.Codec.{write_u16_le, write_u32_le, write_u64_le, write_loop, checked_add_size}
use shibadb.Status.{ok}
use shibadb.Prelude.{ℕ, ◌≡◌, ◌≤◌, refl, arith, List, [], ◌∷◌, length, none, some, true}

abbrev pub leaf_node : Node
leaf_node = record {
  kind = leaf;
  right_sibling = 9;
  first_child = 0;
  entries =
      record { key = 1 ∷ 2 ∷ []; value = some (7 ∷ []); right_child = 0 }
      ∷ record { key = 1 ∷ 3 ∷ []; value = none; right_child = 0 }
      ∷ [];
}

abbrev pub inner_node : Node
inner_node = record {
  kind = inner;
  right_sibling = 0;
  first_child = 3;
  entries = record { key = 5 ∷ []; value = none; right_child = 4 } ∷ [];
}

abbrev pub leaf_page : List ℕ
leaf_page =
    83 ∷ 66 ∷ 84 ∷ 49 ∷ 1 ∷ 0 ∷ 2 ∷ 0 ∷ 0 ∷ 0 ∷ 0 ∷ 0 ∷ 9 ∷ 0 ∷ 0 ∷ 0 ∷ 0 ∷ 0 ∷ 0 ∷ 0 ∷ 2 ∷ 0 ∷ 1
    ∷ 0 ∷ 0 ∷ 0 ∷ 1 ∷ 2 ∷ 7 ∷ 2 ∷ 0 ∷ 0 ∷ 0 ∷ 0 ∷ 0 ∷ 1 ∷ 3 ∷ []

abbrev pub inner_page : List ℕ
inner_page =
    83 ∷ 66 ∷ 84 ∷ 49 ∷ 2 ∷ 0 ∷ 1 ∷ 0 ∷ 0 ∷ 0 ∷ 0 ∷ 0 ∷ 3 ∷ 0 ∷ 0 ∷ 0 ∷ 0 ∷ 0 ∷ 0 ∷ 0 ∷ 1 ∷ 0 ∷ 0
    ∷ 0 ∷ 4 ∷ 0 ∷ 0 ∷ 0 ∷ 0 ∷ 0 ∷ 0 ∷ 0 ∷ 5 ∷ []

pub leaf-encodes : node_encode (some leaf_node) true 4096 ≡ ok leaf_page
unfolding node_encode encoded_size BtreePage.bad_links BtreePage.encoded_size_loop
    BtreePage.bad_entry BtreePage.value_bytes BtreePage.out_of_order BtreePage.or_invalid
    checked_add_size BtreePage.fixed_size BtreePage.value_size_of BtreePage.key_less
    BtreePage.memcmp_less write_u16_le BtreePage.kind_code zeros write_u64_le BtreePage.header_link
    BtreePage.encode_entries BtreePage.encode_entry write_u32_le BtreePage.lacks_value write_loop
leaf-encodes = refl

pub inner-encodes : node_encode (some inner_node) true 4096 ≡ ok inner_page
unfolding node_encode encoded_size BtreePage.bad_links BtreePage.encoded_size_loop
    BtreePage.bad_entry BtreePage.value_bytes BtreePage.out_of_order BtreePage.or_invalid
    checked_add_size BtreePage.fixed_size BtreePage.value_size_of BtreePage.key_less
    BtreePage.memcmp_less write_u16_le BtreePage.kind_code zeros write_u64_le BtreePage.header_link
    BtreePage.encode_entries BtreePage.encode_entry write_u32_le BtreePage.lacks_value write_loop
inner-encodes = refl

node_decode-encode_example : node_decode (some leaf_page) ≡ ok leaf_node
unfolding BtreePage.copy_bytes BtreePage.value_bytes
node_decode-encode_example =
    node_decode-encode leaf_node 4096 leaf_page leaf-encodes
      ((refl, omega arith), ((refl, omega arith), tt)) (omega arith) (omega arith)

length-node_encode_example :
    (encoded_size (some inner_node) ≡ ok (length inner_page)) × (length inner_page ≤ 4096)
length-node_encode_example = length-node_encode inner_node 4096 inner_page inner-encodes
