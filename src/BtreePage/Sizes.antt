-- ===== src/BtreePage/Sizes.antt =====
-- What the computation of the size checks, and that it is the size of what is written.
use shibadb.Bytes.{zeros}
use shibadb.BtreePage.{
  NodeKind, leaf, inner, Entry, value_bytes, fixed_size, bad_entry, lacks_value, value_size_of,
  out_of_order, or_invalid, encoded_size_loop, encode_entry, encode_entries, keys_ascend,
}
use shibadb.BtreePage.Entries.{Good}
use shibadb.Codec.{checked_add_size, write_u16_le, write_u32_le, write_u64_le}
use shibadb.Status.{ok, invalid_argument}
use shibadb.Status.Inversion.{then_ok, bind_ok}
use shibadb.Prelude.{
  ℕ, ◌+◌, ◌-◌, ◌^◌, ◌≡◌, refl, arith, List, [], ◌∷◌, length, length-append, All, Option, none, some,
  true, false, not, ◌||◌, ◌==◌, ltb, or-eq_false,
}

sum_eq : (a b s : ℕ) → or_invalid (checked_add_size a b) ≡ ok s → s ≡ a + b
unfolding or_invalid checked_add_size
sum_eq a b s h = ground arith

pub length-encode_entry :
    (kind : NodeKind) (entry : Entry)
    → length (encode_entry kind entry)
      ≡ fixed_size kind + length entry.key + value_size_of kind entry
unfolding encode_entry fixed_size value_size_of write_u16_le write_u32_le write_u64_le zeros
length-encode_entry leaf entry = omega (arith, length-append entry.key (value_bytes entry.value))
length-encode_entry inner entry = omega arith

entry-Good :
    (kind : NodeKind) (entry : Entry)
    → (length entry.key == 0 || ltb (2 ^ 16 - 1) (length entry.key)) ≡ false
    → bad_entry kind entry ≡ false
    → Good kind entry
unfolding bad_entry lacks_value
entry-Good leaf entry h k =
    let (hk, hl) = or-eq_false (length entry.key == 0) (ltb (2 ^ 16 - 1) (length entry.key)) h in
    let (kr, kv) =
      or-eq_false (not (entry.right_child == 0))
        (ltb (2 ^ 32 - 1) (length (value_bytes entry.value))) k in
    (ground (arith, hk), ground (arith, hl), ground (arith, kr), ground (arith, kv))
entry-Good inner entry h k =
    let (hk, hl) = or-eq_false (length entry.key == 0) (ltb (2 ^ 16 - 1) (length entry.key)) h in
    let (kr, kv) = or-eq_false (entry.right_child == 0) (not (lacks_value entry.value)) k in
    (ground (arith, hk), ground (arith, hl), ground (arith, kr), null entry.value kv)
  where
    null : (v : Option (List ℕ)) → not (lacks_value v) ≡ false → v ≡ none
    null none e = refl
    null (some bytes) e = absurd (cc e)

-- The entries before these, if one is known.
abbrev chain : Option Entry → List Entry → List Entry
chain none entries = entries
chain (some previous) entries = previous ∷ entries

keys_ascend-chain :
    (previous : Option Entry) (entry : Entry) (entries : List Entry)
    → out_of_order previous entry ≡ false
    → keys_ascend (entry ∷ entries) ≡ true
    → keys_ascend (chain previous (entry ∷ entries)) ≡ true
unfolding keys_ascend out_of_order
keys_ascend-chain none entry entries h k = k
keys_ascend-chain (some previous) entry entries h k = ground (arith, h, k)

chain-nil : (previous : Option Entry) → keys_ascend (chain previous []) ≡ true
unfolding keys_ascend
chain-nil none = refl
chain-nil (some previous) = refl

ok_eq : (a b : ℕ) → ok a ≡ ok b → b ≡ a
ok_eq a b h = cc h

pub encoded_size_loop_lem :
    (kind : NodeKind) (previous : Option Entry) (total : ℕ) (entries : List Entry) (required : ℕ)
    → encoded_size_loop kind previous total entries ≡ ok required
    → All (Good kind) entries
      × (keys_ascend (chain previous entries) ≡ true)
      × (required ≡ total + length (encode_entries kind entries))
unfolding encoded_size_loop encode_entries
encoded_size_loop_lem kind previous total [] required h =
    (tt, chain-nil previous, omega (arith, ok_eq total required h))
encoded_size_loop_lem kind previous total (entry ∷ entries) required h =
    let (key_fits, h1) =
      then_ok (length entry.key == 0 || ltb (2 ^ 16 - 1) (length entry.key)) invalid_argument _
        required h in
    let (plain, h2) = then_ok (bad_entry kind entry) invalid_argument _ required h1 in
    let (order, h3) = then_ok (out_of_order previous entry) invalid_argument _ required h2 in
    let (with_key, e1, h4) =
      bind_ok (or_invalid (checked_add_size (fixed_size kind) (length entry.key))) _ required h3 in
    let (entry_size, e2, h5) =
      bind_ok (or_invalid (checked_add_size with_key (value_size_of kind entry))) _ required h4 in
    let (total', e3, h6) = bind_ok (or_invalid (checked_add_size total entry_size)) _ required h5 in
    let (good, ascend, size) = encoded_size_loop_lem kind (some entry) total' entries required h6 in
    (
      (entry-Good kind entry key_fits plain, good),
      keys_ascend-chain previous entry entries order ascend,
      omega (
        arith,
        size,
        sum_eq (fixed_size kind) (length entry.key) with_key e1,
        sum_eq with_key (value_size_of kind entry) entry_size e2,
        sum_eq total entry_size total' e3,
        length-encode_entry kind entry,
        length-append (encode_entry kind entry) (encode_entries kind entries),
      ),
    )
