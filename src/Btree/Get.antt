-- ===== src/Btree/Get.antt =====
-- A get walks from the root to the leaf that may have the key, and answers what the whole tree holds.
use shibadb.Btree.{SdbBtree, read_node, get_loop, btree_get}
use shibadb.Btree.Child.{child_for-eq, lookup-child_of}
use shibadb.Btree.Found.{answer, leaf_get-lookup}
use shibadb.Btree.Put.{lookup}
use shibadb.Btree.Tree.{IsNode, Holds, of_leaf, of_inner}
use shibadb.BtreePage.{Entry, Node, keys_ascend}
use shibadb.BtreePage.Sound.{node_decode-ascends}
use shibadb.Page.{PageView}
use shibadb.Status.{Result, ok}
use shibadb.Prelude.{
  ℕ, zero, suc, ◌-◌, ◌^◌, ◌<◌, ◌≤◌, ◌≡◌, refl, arith, List, length, some, true, le→ltb, ==_of_ne,
  ==_iff,
}

module _ (read : ℕ → Result PageView) (key : List ℕ) (capacity : ℕ) where
  read_node-eq :
      (page_id : ℕ) (node : Node) → IsNode read page_id node → read_node read page_id ≡ ok node
  unfolding read_node
  read_node-eq page_id node (view, run, type, decoded) =
      rw (run, (==_iff view.type 1).1 type, decoded) refl

  IsNode-ascends :
      (page_id : ℕ) (node : Node) → IsNode read page_id node → keys_ascend node.entries ≡ true
  IsNode-ascends page_id node (view, _, _, decoded) = node_decode-ascends view.payload node decoded

  walk :
      (rounds page_id depth : ℕ) (entries : List Entry)
      → Holds read page_id depth entries
      → depth ≤ rounds
      → get_loop rounds read key capacity page_id ≡ answer capacity (lookup entries key)
  unfolding get_loop
  walk zero page_id depth entries (of_leaf is kind) enough = absurd (omega arith)
  walk zero page_id depth entries (of_inner is kind children) enough = absurd (omega arith)
  walk (suc rounds) page_id depth entries (of_leaf {node = node} is kind) enough =
      rw (read_node-eq page_id node is, kind)
        (leaf_get-lookup node.entries key capacity (IsNode-ascends page_id node is))
  walk (suc rounds) page_id depth entries (of_inner {node = node} is kind children) enough =
      let (part, held, same) = lookup-child_of key children in
      rw
        (
          read_node-eq page_id node is,
          kind,
          child_for-eq node key (IsNode-ascends page_id node is),
          same,
        )
        (walk rounds _ _ part held (omega arith))

  -- For an open tree whose pages from the root on hold some entries, in at most 64 levels, a get of a
  -- key of 1 to 65535 bytes answers what the map of these entries has under the key: not found, the
  -- value, or the size that its buffer lacks.
  pub btree_get-lookup :
      (tree : SdbBtree) (depth : ℕ) (entries : List Entry)
      → tree.is_open ≡ true
      → 0 < length key
      → length key < 2 ^ 16
      → Holds read tree.root_page depth entries
      → depth ≤ 64
      → btree_get read tree (some key) true capacity ≡ answer capacity (lookup entries key)
  unfolding btree_get
  btree_get-lookup tree depth entries is_open some_key short holds shallow =
      rw
        (
          is_open,
          ==_of_ne (length key) 0 (omega arith),
          le→ltb (2 ^ 16 - 1) (length key) (omega arith),
        )
        (walk 64 tree.root_page depth entries holds shallow)
