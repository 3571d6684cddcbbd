-- ===== src/Tests/Splits.antt =====
-- The split of a concrete leaf.
use shibadb.Btree
use shibadb.Btree.{LeafSplit, split_leaf, total_size, middle_loop, key_at}
use shibadb.Btree.Split.{IsSplitOf, split_leaf-IsSplitOf}
use shibadb.BtreePage
use shibadb.BtreePage.{leaf, encode_entries}
use shibadb.Codec.{write_u16_le, write_u32_le}
use shibadb.Status.{ok}
use shibadb.Tests.Nodes.{leaf_node}
use shibadb.Prelude.{◌≡◌, refl, arith, [], ◌∷◌, take, drop}

-- The second entry goes to page 12.
abbrev halves : LeafSplit
halves = record {
  left_node = record leaf_node { right_sibling = 12; entries = take 1 leaf_node.entries };
  right_node = record leaf_node { entries = drop 1 leaf_node.entries };
  separator = 1 ∷ 3 ∷ [];
}

cut_in_two : split_leaf 30 (ok 12) leaf_node ≡ ok halves
unfolding split_leaf total_size middle_loop key_at Btree.size_at Btree.leaf_entry_size
    BtreePage.value_bytes
cut_in_two = refl

split_leaf-IsSplitOf_example : IsSplitOf 30 (ok 12) leaf_node halves
split_leaf-IsSplitOf_example =
    split_leaf-IsSplitOf 30 (ok 12) leaf_node halves
      (unfold encode_entries BtreePage.encode_entry BtreePage.value_bytes write_u16_le
          write_u32_le in
        omega arith)
      cut_in_two
