-- ===== src/Btree/Tree.antt =====
-- What a tree of pages holds, read off the pages from the leaves up: the entries of a leaf are its own,
-- and those of an inner node are its children's one after the other, each separator between them.
use shibadb.Btree.Put.{Less}
use shibadb.BtreePage.{leaf, inner, Entry, Node, key_less, node_decode}
use shibadb.Page.{PageView}
use shibadb.Status.{Result, ok}
use shibadb.Prelude.{ℕ, suc, ◌≡◌, List, [], ◌∷◌, ◌++◌, All, some, false}

-- The entry is at the key or above it.
abbrev pub AtLeast : List ℕ → Entry → Type 0
AtLeast key entry = key_less entry.key key ≡ false

-- The page can be read, is a B+tree page, and its payload is that of the node.
abbrev pub IsNode : (ℕ → Result PageView) → ℕ → Node → Type 0
IsNode read page_id node =
    (view : PageView) × (read page_id ≡ ok view)
    × (view.type ≡ 1)
    × (node_decode (some view.payload) ≡ ok node)

mutual
  -- The subtree below a page, of this depth, holds the entries.
  pub data Holds (read : ℕ → Result PageView) : ℕ → ℕ → List Entry → Type 0 where
    of_leaf :
        {page_id : ℕ} {node : Node}
        → IsNode read page_id node
        → node.kind ≡ leaf
        → Holds read page_id 1 node.entries
    of_inner :
        {page_id depth : ℕ} {node : Node} {entries : List Entry}
        → IsNode read page_id node
        → node.kind ≡ inner
        → Children read depth node.first_child node.entries entries
        → Holds read page_id (suc depth) entries

  -- The first child and those right of the separators hold the entries: what is left of a separator is
  -- below its key, and what is right of it is not.
  pub data Children (read : ℕ → Result PageView) : ℕ → ℕ → List Entry → List Entry → Type 0 where
    last :
        {depth first : ℕ} {entries : List Entry}
        → Holds read first depth entries
        → Children read depth first [] entries
    more :
        {depth first : ℕ} {separator : Entry} {separators front back : List Entry}
        → Holds read first depth front
        → All (Less separator.key) front
        → Children read depth separator.right_child separators back
        → All (AtLeast separator.key) back
        → Children read depth first (separator ∷ separators) (front ++ back)
