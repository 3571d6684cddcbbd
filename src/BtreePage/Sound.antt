-- ===== src/BtreePage/Sound.antt =====
-- The keys of a node that is decoded ascend.
use shibadb.Bytes.{slice, same_bytes}
use shibadb.BtreePage.{
  NodeKind, leaf, inner, Entry, Node, btree_magic, node_header_size, kind_of, kind_or_corrupt,
  no_first_child, minimum_entry_size, decode_entries, keys_ascend, node_of, node_decode,
}
use shibadb.Codec.{read_u16_le, read_u32_le, read_u64_le}
use shibadb.Status.{ok, invalid_argument, bad_magic, corrupt}
use shibadb.Status.Inversion.{then_ok, bind_ok}
use shibadb.Prelude.{
  ℕ, ◌-◌, ◌/◌, ◌≡◌, refl, sym, ap, ◌∙◌, List, drop, length, some, Bool, true, false, not, ◌==◌, ltb,
}

positive : (b : Bool) → not b ≡ false → b ≡ true
positive true e = refl
positive false e = absurd (cc e)

entries-node_of :
    (kind : NodeKind) (link : ℕ) (entries : List Entry)
    → (node_of kind link entries).entries ≡ entries
unfolding node_of
entries-node_of leaf link entries = refl
entries-node_of inner link entries = refl

pub node_decode-ascends :
    (payload : List ℕ) (node : Node)
    → node_decode (some payload) ≡ ok node
    → keys_ascend node.entries ≡ true
unfolding node_decode
node_decode-ascends payload node h =
    let (_, h1) = then_ok (ltb (length payload) node_header_size) invalid_argument _ node h in
    let (_, h2) = then_ok (not (same_bytes (slice payload 0 4) btree_magic)) bad_magic _ node h1 in
    let (kind, _, h3) =
      bind_ok
        (kind_or_corrupt (kind_of (read_u16_le (drop 4 payload)))
          (not (read_u32_le (drop 8 payload) == 0)))
        _ node h2 in
    let (_, h4) = then_ok (no_first_child kind (read_u64_le (drop 12 payload))) corrupt _ node h3 in
    let (_, h5) =
      then_ok
        (ltb ((length payload - node_header_size) / minimum_entry_size kind)
          (read_u16_le (drop 6 payload)))
        corrupt _ node h4 in
    let (entries, _, h6) =
      bind_ok (decode_entries kind (read_u16_le (drop 6 payload)) (drop node_header_size payload)) _
        node h5 in
    let (ascend, h7) = then_ok (not (keys_ascend entries)) corrupt _ node h6 in
    let made : node_of kind (read_u64_le (drop 12 payload)) entries ≡ node = cc h7 in
    ap (λ (n : Node). keys_ascend n.entries) (sym made)
    ∙ ap keys_ascend (entries-node_of kind (read_u64_le (drop 12 payload)) entries)
    ∙ positive (keys_ascend entries) ascend
