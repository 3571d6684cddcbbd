-- ===== src/BtreePage.antt =====
-- src/btree_page.c: the codec of a node of the B+tree. Allocation is taken to succeed. A NULL key is an
-- empty one, which is refused alike; a NULL value is `none`; the array of entries is as long as `count`.
pub mod Entries
pub mod Sizes
pub mod Sound
pub mod RoundTrip
use shibadb.Bytes.{slice, zeros, same_bytes}
use shibadb.Codec.{
  read_u16_le, read_u32_le, read_u64_le, write_u16_le, write_u32_le, write_u64_le, checked_add_size,
}
use shibadb.Status.{
  Status, Result, ok, err, fail_if, invalid_argument, bad_magic, corrupt, buffer_too_small, ◌>>=◌,
  ◌>>◌,
}
use shibadb.Prelude.{
  ℕ, zero, suc, ◌+◌, ◌-◌, ◌*◌, ◌/◌, ◌^◌, min, List, [], ◌∷◌, ◌++◌, take, drop, length, Option, none,
  some, Bool, true, false, not, ◌&&◌, ◌||◌, ◌==◌, ltb, leb, if◌then◌else◌,
}

-- `sdb_btree_node_kind`, 1 and 2 in a page
pub data NodeKind : Type 0 where
  leaf : NodeKind
  inner : NodeKind

pub record Entry : Type 0 where
  pub key : List ℕ
  pub value : Option (List ℕ)
  pub right_child : ℕ

pub record Node : Type 0 where
  pub kind : NodeKind
  pub right_sibling : ℕ
  pub first_child : ℕ
  pub entries : List Entry

-- "SBT1"
abbrev pub btree_magic : List ℕ
btree_magic = 83 ∷ 66 ∷ 84 ∷ 49 ∷ []

abbrev pub node_header_size : ℕ
node_header_size = 20

unfoldable pub kind_code : NodeKind → ℕ
kind_code leaf = 1
kind_code inner = 2

unfoldable pub copy_bytes : List ℕ → Option (List ℕ)
copy_bytes [] = none
copy_bytes (b ∷ bytes) = some (b ∷ bytes)

-- `memcmp` of as many bytes as the shorter list has, and of the sizes when those are equal: whether the
-- result is negative.
unfoldable pub memcmp_less : List ℕ → List ℕ → Bool → Bool
memcmp_less (x ∷ xs) (y ∷ ys) otherwise =
    let rest = memcmp_less xs ys otherwise in
    if ltb x y then true else if ltb y x then false else rest
memcmp_less [] ys otherwise = otherwise
memcmp_less (x ∷ xs) [] otherwise = otherwise

-- `sdb_btree_page_compare_keys(left, right) < 0`
unfoldable pub key_less : List ℕ → List ℕ → Bool
key_less left right =
    let common : ℕ = min (length left) (length right) in
    memcmp_less (take common left) (take common right) (ltb (length left) (length right))

-- `6U : 12U`
unfoldable pub fixed_size : NodeKind → ℕ
fixed_size leaf = 6
fixed_size inner = 12

-- `7U : 13U`
unfoldable pub minimum_entry_size : NodeKind → ℕ
minimum_entry_size leaf = 7
minimum_entry_size inner = 13

unfoldable pub kind_of : ℕ → Option NodeKind
kind_of code = if code == 1 then some leaf else if code == 2 then some inner else none

unfoldable pub read_value_size : NodeKind → List ℕ → Result ℕ
read_value_size leaf cursor = ok (read_u32_le (drop 2 cursor))
read_value_size inner cursor = do fail_if (not (read_u16_le (drop 2 cursor) == 0)) corrupt; ok 0

unfoldable pub read_right_child : NodeKind → List ℕ → Result ℕ
read_right_child leaf cursor = ok 0
read_right_child inner cursor = do
  fail_if (read_u64_le (drop 4 cursor) == 0) corrupt
  ok (read_u64_le (drop 4 cursor))

-- One round of the loop of the decoder: an entry, and what remains after it.
unfoldable pub decode_entry : NodeKind → List ℕ → Result (Entry × List ℕ)
decode_entry kind cursor = do
  let fixed : ℕ = fixed_size kind
  fail_if (ltb (length cursor) fixed) corrupt
  let key_size : ℕ = read_u16_le cursor
  fail_if (key_size == 0) corrupt
  value_size ← read_value_size kind cursor
  fail_if
      (ltb (length cursor - fixed) key_size || ltb (length cursor - fixed - key_size) value_size)
      corrupt
  right_child ← read_right_child kind cursor
  ok (
    record {
      key = slice cursor fixed key_size;
      value = copy_bytes (slice cursor (fixed + key_size) value_size);
      right_child = right_child;
    },
    drop (fixed + key_size + value_size) cursor,
  )

-- The loop, with `count` entries left; nothing may remain after them.
unfoldable pub decode_entries : NodeKind → ℕ → List ℕ → Result (List Entry)
decode_entries kind zero cursor = do fail_if (not (length cursor == 0)) corrupt; ok []
decode_entries kind (suc count) cursor = do
  read ← decode_entry kind cursor
  rest ← decode_entries kind count read.1
  ok (read.0 ∷ rest)

-- Each key is less than the next.
unfoldable pub keys_ascend : List Entry → Bool
keys_ascend [] = true
keys_ascend (entry ∷ []) = true
keys_ascend (entry ∷ next ∷ rest) = key_less entry.key next.key && keys_ascend (next ∷ rest)

-- The page that a leaf or an inner node names in its header.
unfoldable pub node_of : NodeKind → ℕ → List Entry → Node
node_of leaf link entries = record {
  kind = leaf;
  right_sibling = link;
  first_child = 0;
  entries = entries;
}
node_of inner link entries = record {
  kind = inner;
  right_sibling = 0;
  first_child = link;
  entries = entries;
}

unfoldable pub kind_or_corrupt : Option NodeKind → Bool → Result NodeKind
kind_or_corrupt none reserved = err corrupt
kind_or_corrupt (some kind) reserved = if reserved then err corrupt else ok kind

unfoldable pub no_first_child : NodeKind → ℕ → Bool
no_first_child leaf link = false
no_first_child inner link = link == 0

unfoldable pub node_decode : Option (List ℕ) → Result Node
node_decode none = err invalid_argument
node_decode (some payload) = do
  fail_if (ltb (length payload) node_header_size) invalid_argument
  fail_if (not (same_bytes (slice payload 0 4) btree_magic)) bad_magic
  let count : ℕ = read_u16_le (drop 6 payload)
  let link : ℕ = read_u64_le (drop 12 payload)
  kind ←
      kind_or_corrupt (kind_of (read_u16_le (drop 4 payload)))
        (not (read_u32_le (drop 8 payload) == 0))
  fail_if (no_first_child kind link) corrupt
  fail_if (ltb ((length payload - node_header_size) / minimum_entry_size kind) count) corrupt
  entries ← decode_entries kind count (drop node_header_size payload)
  fail_if (not (keys_ascend entries)) corrupt
  ok (node_of kind link entries)

unfoldable pub value_bytes : Option (List ℕ) → List ℕ
value_bytes none = []
value_bytes (some bytes) = bytes

unfoldable pub lacks_value : Option (List ℕ) → Bool
lacks_value none = true
lacks_value (some bytes) = false

unfoldable pub bad_links : NodeKind → ℕ → ℕ → Bool
bad_links leaf first_child right_sibling = not (first_child == 0)
bad_links inner first_child right_sibling = first_child == 0 || not (right_sibling == 0)

-- What an entry of the kind may not hold.
unfoldable pub bad_entry : NodeKind → Entry → Bool
bad_entry leaf entry =
    not (entry.right_child == 0) || ltb (2 ^ 32 - 1) (length (value_bytes entry.value))
bad_entry inner entry = entry.right_child == 0 || not (lacks_value entry.value)

unfoldable pub value_size_of : NodeKind → Entry → ℕ
value_size_of leaf entry = length (value_bytes entry.value)
value_size_of inner entry = 0

-- The key of the entry before this one, if there is one, is not less.
unfoldable pub out_of_order : Option Entry → Entry → Bool
out_of_order none entry = false
out_of_order (some previous) entry = not (key_less previous.key entry.key)

-- `if (!sdb_checked_add_size(...)) return SDB_E_INVALID_ARGUMENT`
unfoldable pub or_invalid : Option ℕ → Result ℕ
or_invalid none = err invalid_argument
or_invalid (some size) = ok size

-- The loop of `sdb_btree_node_encoded_size` from the entry after `previous` on.
unfoldable pub encoded_size_loop : NodeKind → Option Entry → ℕ → List Entry → Result ℕ
encoded_size_loop kind previous total [] = ok total
encoded_size_loop kind previous total (entry ∷ entries) = do
  fail_if (length entry.key == 0 || ltb (2 ^ 16 - 1) (length entry.key)) invalid_argument
  fail_if (bad_entry kind entry) invalid_argument
  fail_if (out_of_order previous entry) invalid_argument
  with_key ← or_invalid (checked_add_size (fixed_size kind) (length entry.key))
  entry_size ← or_invalid (checked_add_size with_key (value_size_of kind entry))
  total' ← or_invalid (checked_add_size total entry_size)
  encoded_size_loop kind (some entry) total' entries

unfoldable pub encoded_size : Option Node → Result ℕ
encoded_size none = err invalid_argument
encoded_size (some node) = do
  fail_if
      (ltb (2 ^ 16 - 1) (length node.entries)
        || bad_links node.kind node.first_child node.right_sibling)
      invalid_argument
  encoded_size_loop node.kind none node_header_size node.entries

-- The bytes from the cursor up to where it stands after the entry; those that the loop skips are zero.
unfoldable pub encode_entry : NodeKind → Entry → List ℕ
encode_entry leaf entry =
    (write_u16_le 0 (length entry.key)).bytes
    ++ (write_u32_le 2 (length (value_bytes entry.value))).bytes
    ++ entry.key
    ++ value_bytes entry.value
encode_entry inner entry =
    (write_u16_le 0 (length entry.key)).bytes
    ++ zeros 2
    ++ (write_u64_le 4 entry.right_child).bytes
    ++ entry.key

unfoldable pub encode_entries : NodeKind → List Entry → List ℕ
encode_entries kind [] = []
encode_entries kind (entry ∷ entries) = encode_entry kind entry ++ encode_entries kind entries

unfoldable pub header_link : NodeKind → ℕ → ℕ → ℕ
header_link leaf first_child right_sibling = right_sibling
header_link inner first_child right_sibling = first_child

-- The first `required` bytes of the output, which has `output_size`; the others stay as they are.
unfoldable pub node_encode : Option Node → Bool → ℕ → Result (List ℕ)
node_encode none has_output output_size = err invalid_argument
node_encode (some node) has_output output_size = do
  required ← encoded_size (some node)
  fail_if (not has_output) invalid_argument
  fail_if (ltb output_size required) buffer_too_small
  ok (
      btree_magic
      ++ (write_u16_le 4 (kind_code node.kind)).bytes
      ++ (write_u16_le 6 (length node.entries)).bytes
      ++ zeros 4
      ++ (write_u64_le 12 (header_link node.kind node.first_child node.right_sibling)).bytes
      ++ encode_entries node.kind node.entries)
