-- ===== src/BtreePage/Entries.antt =====
-- An entry that is written is read back, and the reader stands after it.
use mathlib.Core.List.{append_assoc}
use shibadb.Bytes.{slice, zeros}
use shibadb.Bytes.Laws.{slice-middle, drop-append}
use shibadb.BtreePage.{
  NodeKind, leaf, inner, Entry, copy_bytes, value_bytes, fixed_size, read_value_size,
  read_right_child, decode_entry, decode_entries, encode_entry, encode_entries,
}
use shibadb.Codec.{read_u16_le, read_u32_le, read_u64_le, write_u16_le, write_u32_le, write_u64_le}
use shibadb.Codec.Buffers.{read_u16-stored, read_u32-stored, read_u64-stored}
use shibadb.Status.{ok}
use shibadb.Prelude.{
  ℕ, ◌+◌, ◌-◌, ◌^◌, ◌<◌, ◌≡◌, refl, ap, ◌∙◌, arith, List, [], ◌∷◌, ◌++◌, drop, length,
  length-append, All, none, le→ltb, ==_of_ne,
}

slice-nil : (xs : List ℕ) (o : ℕ) → slice xs o 0 ≡ []
unfolding slice
slice-nil xs o = refl

-- What the encoder checks of an entry.
abbrev pub Good : NodeKind → Entry → Type 0
Good leaf entry =
    (0 < length entry.key)
    × (length entry.key < 2 ^ 16)
    × (entry.right_child ≡ 0)
    × (length (value_bytes entry.value) < 2 ^ 32)
Good inner entry =
    (0 < length entry.key)
    × (length entry.key < 2 ^ 16)
    × (0 < entry.right_child)
    × (entry.value ≡ none)

-- A value is not an empty one that is allocated, and a page id fits its width.
abbrev pub Stored : Entry → Type 0
Stored entry = (copy_bytes (value_bytes entry.value) ≡ entry.value) × (entry.right_child < 2 ^ 64)

module _ (entry : Entry) (rest : List ℕ) where
  abbrev key_size : ℕ
  key_size = length entry.key

  module _ (good : Good leaf entry) (stored : Stored entry) where
    abbrev value : List ℕ
    value = value_bytes entry.value

    abbrev fields : List ℕ
    fields = (write_u16_le 0 key_size).bytes ++ (write_u32_le 2 (length value)).bytes

    abbrev cursor : List ℕ
    cursor = encode_entry leaf entry ++ rest

    leaf_sizes :
        (length cursor ≡ 6 + key_size + length value + length rest)
        × (read_u16_le cursor ≡ key_size)
        × (read_u32_le (drop 2 cursor) ≡ length value)
    unfolding encode_entry write_u16_le write_u32_le slice
    leaf_sizes = (
      omega (arith, length-append (entry.key ++ value) rest, length-append entry.key value),
      read_u16-stored cursor 0 0 key_size refl good.1,
      read_u32-stored cursor 2 2 (length value) refl good.3,
    )

    leaf_parts :
        (slice cursor 6 key_size ≡ entry.key)
        × (slice cursor (6 + key_size) (length value) ≡ value)
        × (drop (6 + key_size + length value) cursor ≡ rest)
    unfolding encode_entry write_u16_le write_u32_le
    leaf_parts = (
      ap (λ c. slice c 6 key_size) (append_assoc (fields ++ entry.key) value rest)
          ∙ slice-middle fields entry.key (value ++ rest) 6 key_size refl refl,
      slice-middle (fields ++ entry.key) value rest (6 + key_size) (length value)
          (omega (arith, length-append fields entry.key)) refl,
      drop-append (fields ++ entry.key ++ value) rest (6 + key_size + length value) (
          omega (arith, length-append (fields ++ entry.key) value, length-append fields entry.key)),
    )

    leaf_lem : decode_entry leaf cursor ≡ ok (entry, rest)
    unfolding decode_entry fixed_size read_value_size read_right_child
    leaf_lem =
        rw
          (
            leaf_sizes.0,
            leaf_sizes.1,
            leaf_sizes.2,
            leaf_parts.0,
            leaf_parts.1,
            leaf_parts.2,
            stored.0,
            le→ltb (6 + key_size + length value + length rest) 6 (omega arith),
            ==_of_ne key_size 0 (omega arith),
            le→ltb (6 + key_size + length value + length rest - 6) key_size (omega arith),
            le→ltb (6 + key_size + length value + length rest - 6 - key_size) (length value)
                (omega arith),
            good.2,
          )
          refl

  module _ (good : Good inner entry) (stored : Stored entry) where
    abbrev in_cursor : List ℕ
    in_cursor = encode_entry inner entry ++ rest

    abbrev in_fields : List ℕ
    in_fields =
        (write_u16_le 0 key_size).bytes ++ zeros 2 ++ (write_u64_le 4 entry.right_child).bytes

    inner_sizes :
        (length in_cursor ≡ 12 + key_size + length rest)
        × (read_u16_le in_cursor ≡ key_size)
        × (read_u16_le (drop 2 in_cursor) ≡ 0)
        × (read_u64_le (drop 4 in_cursor) ≡ entry.right_child)
    unfolding encode_entry write_u16_le write_u64_le slice zeros
    inner_sizes = (
      omega (arith, length-append entry.key rest),
      read_u16-stored in_cursor 0 0 key_size refl good.1,
      read_u16-stored in_cursor 2 2 0 refl (omega arith),
      read_u64-stored in_cursor 4 4 entry.right_child refl stored.1,
    )

    inner_parts :
        (slice in_cursor 12 key_size ≡ entry.key) × (drop (12 + key_size + 0) in_cursor ≡ rest)
    unfolding encode_entry write_u16_le write_u64_le zeros
    inner_parts = (
      slice-middle in_fields entry.key rest 12 key_size refl refl,
      drop-append (in_fields ++ entry.key) rest (12 + key_size + 0)
          (omega (arith, length-append in_fields entry.key)),
    )

    inner_lem : decode_entry inner in_cursor ≡ ok (entry, rest)
    unfolding decode_entry fixed_size read_value_size read_right_child copy_bytes
    inner_lem =
        rw
          (
            inner_sizes.0,
            inner_sizes.1,
            inner_sizes.2,
            inner_sizes.3,
            inner_parts.0,
            inner_parts.1,
            le→ltb (12 + key_size + length rest) 12 (omega arith),
            ==_of_ne key_size 0 (omega arith),
            le→ltb (12 + key_size + length rest - 12) key_size (omega arith),
            le→ltb (12 + key_size + length rest - 12 - key_size) 0 (omega arith),
            ==_of_ne entry.right_child 0 (omega arith),
            slice-nil in_cursor (12 + key_size),
            good.3,
          )
          refl

pub decode_entry-encode :
    (kind : NodeKind) (entry : Entry) (rest : List ℕ)
    → Good kind entry
    → Stored entry
    → decode_entry kind (encode_entry kind entry ++ rest) ≡ ok (entry, rest)
decode_entry-encode leaf entry rest good stored = leaf_lem entry rest good stored
decode_entry-encode inner entry rest good stored = inner_lem entry rest good stored

pub decode_entries-encode :
    (kind : NodeKind) (entries : List Entry)
    → All (Good kind) entries
    → All Stored entries
    → decode_entries kind (length entries) (encode_entries kind entries) ≡ ok entries
unfolding decode_entries encode_entries
decode_entries-encode kind [] good stored = refl
decode_entries-encode kind (entry ∷ entries) (g, good) (s, stored) =
    rw
      (
        decode_entry-encode kind entry (encode_entries kind entries) g s,
        decode_entries-encode kind entries good stored,
      )
      refl
