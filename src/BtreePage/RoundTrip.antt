-- ===== src/BtreePage/RoundTrip.antt =====
-- A node that is written is read back.
use shibadb.Bytes.{slice, zeros}
use shibadb.Bytes.Laws.{same_bytes_refl}
use shibadb.BtreePage.{
  NodeKind, leaf, inner, Entry, Node, btree_magic, kind_code, kind_of, kind_or_corrupt,
  no_first_child, node_of, minimum_entry_size, bad_links, header_link, encoded_size, encode_entry,
  encode_entries, keys_ascend, node_encode, node_decode, fixed_size, value_size_of,
}
use shibadb.BtreePage.Entries.{Good, Stored, decode_entries-encode}
use shibadb.BtreePage.Sizes.{encoded_size_loop_lem, length-encode_entry}
use shibadb.Codec.{read_u16_le, read_u32_le, read_u64_le, write_u16_le, write_u32_le, write_u64_le}
use shibadb.Codec.Buffers.{read_u16-stored, read_u32-stored, read_u64-stored}
use shibadb.Status.{ok, invalid_argument, buffer_too_small}
use shibadb.Status.Inversion.{then_ok, bind_ok}
use shibadb.Prelude.{
  ℕ, ◌+◌, ◌-◌, ◌*◌, ◌/◌, ◌^◌, ◌<◌, ◌≤◌, ◌≡◌, refl, sym, ap, ◌∙◌, arith, List, [], ◌∷◌, ◌++◌, drop,
  length, length-append, All, none, some, true, false, not, ◌||◌, ltb, ltb→le, le→ltb, ◌==◌,
  or-eq_false,
}

-- Every entry takes the least size of its kind at least.
entries_long :
    (kind : NodeKind) (entries : List Entry)
    → All (Good kind) entries
    → length entries * minimum_entry_size kind ≤ length (encode_entries kind entries)
unfolding encode_entries minimum_entry_size fixed_size value_size_of
entries_long leaf [] good = omega arith
entries_long inner [] good = omega arith
entries_long leaf (entry ∷ entries) (g, good) = omega (
  arith,
  g.0,
  length-encode_entry leaf entry,
  length-append (encode_entry leaf entry) (encode_entries leaf entries),
  entries_long leaf entries good,
)
entries_long inner (entry ∷ entries) (g, good) = omega (
  arith,
  g.0,
  length-encode_entry inner entry,
  length-append (encode_entry inner entry) (encode_entries inner entries),
  entries_long inner entries good,
)

count_fits :
    (kind : NodeKind) (entries : List Entry)
    → All (Good kind) entries
    → ltb
        ((20 + length (encode_entries kind entries) - 20) / minimum_entry_size kind)
        (length entries)
      ≡ false
unfolding minimum_entry_size
count_fits leaf entries good = le→ltb _ _ (omega (arith, entries_long leaf entries good))
count_fits inner entries good = le→ltb _ _ (omega (arith, entries_long inner entries good))

code_lt : (kind : NodeKind) → kind_code kind < 2 ^ 16
unfolding kind_code
code_lt leaf = omega arith
code_lt inner = omega arith

link_lt :
    (kind : NodeKind) (first_child right_sibling : ℕ)
    → first_child < 2 ^ 64
    → right_sibling < 2 ^ 64
    → header_link kind first_child right_sibling < 2 ^ 64
unfolding header_link
link_lt leaf first_child right_sibling first_fits right_fits = right_fits
link_lt inner first_child right_sibling first_fits right_fits = first_fits

kind_of-code : (kind : NodeKind) → kind_of (kind_code kind) ≡ some kind
unfolding kind_of kind_code
kind_of-code leaf = refl
kind_of-code inner = refl

links_kept :
    (kind : NodeKind) (right_sibling first_child : ℕ) (entries : List Entry)
    → bad_links kind first_child right_sibling ≡ false
    → (no_first_child kind (header_link kind first_child right_sibling) ≡ false)
      × (node_of kind (header_link kind first_child right_sibling) entries ≡ record {
        kind = kind;
        right_sibling = right_sibling;
        first_child = first_child;
        entries = entries;
      })
unfolding bad_links no_first_child header_link node_of
links_kept leaf right_sibling first_child entries h = (
  refl,
  ap
      (λ (c : ℕ). record {
        kind = leaf;
        right_sibling = right_sibling;
        first_child = c;
        entries = entries;
      })
      {x = 0} {y = first_child} (ground (arith, h)),
)
links_kept inner right_sibling first_child entries h =
    let (child, sibling) = or-eq_false (first_child == 0) (not (right_sibling == 0)) h in
    (
      child,
      ap
          (λ (r : ℕ). record {
            kind = inner;
            right_sibling = r;
            first_child = first_child;
            entries = entries;
          })
          {x = 0} {y = right_sibling} (ground (arith, sibling)),
    )

module _ (kind : NodeKind) (right_sibling first_child : ℕ) (entries : List Entry) where
  abbrev node : Node
  node = record {
    kind = kind;
    right_sibling = right_sibling;
    first_child = first_child;
    entries = entries;
  }

  abbrev link : ℕ
  link = header_link kind first_child right_sibling

  abbrev payload : List ℕ
  payload =
      btree_magic
      ++ (write_u16_le 4 (kind_code kind)).bytes
      ++ (write_u16_le 6 (length entries)).bytes
      ++ zeros 4
      ++ (write_u64_le 12 link).bytes
      ++ encode_entries kind entries

  length-payload : length payload ≡ 20 + length (encode_entries kind entries)
  unfolding write_u16_le write_u64_le zeros
  length-payload = omega arith

  module _ (good : All (Good kind) entries) (stored : All Stored entries)
      (ascend : keys_ascend entries ≡ true) (count : length entries < 2 ^ 16)
      (link_fits : link < 2 ^ 64) where
    header_fields :
        (length payload ≡ 20 + length (encode_entries kind entries))
        × (slice payload 0 4 ≡ btree_magic)
        × (read_u16_le (drop 4 payload) ≡ kind_code kind)
        × (read_u16_le (drop 6 payload) ≡ length entries)
        × (read_u32_le (drop 8 payload) ≡ 0)
        × (read_u64_le (drop 12 payload) ≡ link)
        × (drop 20 payload ≡ encode_entries kind entries)
    unfolding write_u16_le write_u64_le zeros slice
    header_fields = (
      length-payload,
      refl,
      read_u16-stored payload 4 4 (kind_code kind) refl (code_lt kind),
      read_u16-stored payload 6 6 (length entries) refl count,
      read_u32_le-zeros,
      read_u64-stored payload 12 12 link refl link_fits,
      refl,
    )
      where
        read_u32_le-zeros : read_u32_le (drop 8 payload) ≡ 0
        read_u32_le-zeros =
            read_u32-stored payload 8 8 0 (unfold write_u32_le in refl) (omega arith)

    decode_payload :
        bad_links kind first_child right_sibling ≡ false → node_decode (some payload) ≡ ok node
    unfolding node_decode kind_or_corrupt
    decode_payload links =
        rw
          (
            header_fields.0,
            header_fields.1,
            header_fields.2,
            header_fields.3,
            header_fields.4,
            header_fields.5,
            header_fields.6,
            le→ltb (20 + length (encode_entries kind entries)) 20 (omega arith),
            same_bytes_refl btree_magic,
            kind_of-code kind,
            (links_kept kind right_sibling first_child entries links).0,
            count_fits kind entries good,
            decode_entries-encode kind entries good stored,
            ascend,
            (links_kept kind right_sibling first_child entries links).1,
          )
          refl

-- What an encoding that succeeded has checked.
module _ (node : Node) (output_size : ℕ) (output : List ℕ)
    (h : node_encode (some node) true output_size ≡ ok output) where
  checks :
      (required : ℕ) × (encoded_size (some node) ≡ ok required)
      × (required ≤ output_size)
      × (output ≡ payload node.kind node.right_sibling node.first_child node.entries)
  unfolding node_encode
  checks =
      let (required, size, h1) = bind_ok (encoded_size (some node)) _ output h in
      let (fits, h2) = then_ok (ltb output_size required) buffer_too_small _ output h1 in
      (required, size, ltb→le output_size required fits, cc h2)

  entry_checks :
      (length node.entries < 2 ^ 16)
      × (bad_links node.kind node.first_child node.right_sibling ≡ false)
      × All (Good node.kind) node.entries
      × (keys_ascend node.entries ≡ true)
      × (checks.0 ≡ 20 + length (encode_entries node.kind node.entries))
  unfolding encoded_size
  entry_checks =
      let (bad, loop) =
        then_ok
          (ltb (2 ^ 16 - 1) (length node.entries)
            || bad_links node.kind node.first_child node.right_sibling)
          invalid_argument _ checks.0 checks.1 in
      let (many, links) =
        or-eq_false (ltb (2 ^ 16 - 1) (length node.entries))
          (bad_links node.kind node.first_child node.right_sibling) bad in
      let (good, ascend, size) =
        encoded_size_loop_lem node.kind none 20 node.entries checks.0 loop in
      (ground (arith, many), links, good, ascend, size)

  -- A node is encoded into as many bytes as were computed, no more than the output has.
  pub length-node_encode :
      (encoded_size (some node) ≡ ok (length output)) × (length output ≤ output_size)
  length-node_encode = (checks.1 ∙ ap ok same, omega (arith, same, checks.2))
    where
      same : checks.0 ≡ length output
      same =
          entry_checks.4
          ∙ sym (
              ap length checks.3
              ∙ length-payload node.kind node.right_sibling node.first_child node.entries)

  -- A node whose page ids fit 64 bits, of which no value is an empty one that is allocated, is read
  -- back from its encoding.
  pub node_decode-encode :
      All Stored node.entries
      → node.right_sibling < 2 ^ 64
      → node.first_child < 2 ^ 64
      → node_decode (some output) ≡ ok node
  node_decode-encode stored right_fits first_fits =
      ap (λ bytes. node_decode (some bytes)) checks.3
      ∙ decode_payload node.kind node.right_sibling node.first_child node.entries entry_checks.2
          stored entry_checks.3 entry_checks.0
          (link_lt node.kind node.first_child node.right_sibling first_fits right_fits)
          entry_checks.1
