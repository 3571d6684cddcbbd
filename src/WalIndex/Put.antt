-- ===== src/WalIndex/Put.antt =====
-- The index as a finite map: what `put` promises its callers.
use native.Mathlib.Nat.{mod-eq_of_lt}
use shibadb.Status.{ok, err, out_of_memory}
use shibadb.WalIndex.{WalIndex, slot_at, slot_for, grow, put, get, insert_new, size_max}
use shibadb.WalIndex.Table.{used-update, slot_for_total}
use shibadb.Prelude.{
  ℕ, ◌*◌, ◌/◌, ◌%◌, ◌^◌, ◌<◌, ◌≤◌, ◌≡◌, ◌≢◌, ◌⊎◌, inl, inr, ap, ◌∙◌, arith, set, none, some, Bool,
  false, ℕ_discrete, dec_lt,
}
use shibadb.WalIndex.Valid.{IsValid, IsValid-not_null, half_full, grow_total}
use shibadb.WalIndex.Insert.{IsStored, written-IsStored, absent_of_stop, insert_total}

-- What `put` may answer for a valid index.
abbrev pub PutOutcome : WalIndex → Bool → ℕ → ℕ → Type 0
PutOutcome ix calloc_succeeds page_id wal_offset =
    ((ix' : WalIndex) × (put calloc_succeeds ix page_id wal_offset ≡ some (ok ix'))
      × IsStored ix page_id wal_offset ix')
    ⊎ ((put calloc_succeeds ix page_id wal_offset ≡ some (err out_of_memory))
        × (get ix page_id ≡ none)
        × (ix.capacity ≤ 2 * ix.size)
        × ((calloc_succeeds ≡ false) ⊎ (size_max / 16 < ix.capacity * 2)))

module _ {ix : WalIndex} (calloc_succeeds : Bool) (page_id wal_offset : ℕ) (valid : IsValid ix)
    (real : page_id ≢ 0) where
  no_wrap : ix.size * 2 % 2 ^ 64 ≡ ix.size * 2
  no_wrap = mod-eq_of_lt (omega (arith, valid.load, valid.small))

  put_update :
      (e : ℕ)
      → slot_for ix.slots ix.capacity page_id ≡ some e
      → (slot_at ix.slots e).page_id ≡ page_id
      → put calloc_succeeds ix page_id wal_offset
        ≡ some (
            ok (record ix {
              slots = set ix.slots e (record { page_id = page_id; wal_offset = wal_offset });
            }))
  unfolding put
  put_update e stop own = ground (arith, stop, own, IsValid-not_null valid)

  put_insert :
      (e : ℕ)
      → slot_for ix.slots ix.capacity page_id ≡ some e
      → (slot_at ix.slots e).page_id ≢ page_id
      → 2 * ix.size < ix.capacity
      → put calloc_succeeds ix page_id wal_offset ≡ insert_new ix page_id wal_offset
  unfolding put insert_new
  put_insert e stop other room = ground (arith, stop, other, room, no_wrap, IsValid-not_null valid)

  put-grow :
      (e : ℕ) (grown : WalIndex)
      → slot_for ix.slots ix.capacity page_id ≡ some e
      → (slot_at ix.slots e).page_id ≢ page_id
      → ix.capacity ≤ 2 * ix.size
      → grow calloc_succeeds ix ≡ some (ok grown)
      → put calloc_succeeds ix page_id wal_offset ≡ insert_new grown page_id wal_offset
  unfolding put
  put-grow e grown stop other crowded run =
      ground (arith, stop, other, crowded, run, no_wrap, IsValid-not_null valid)

  put_refused :
      (e : ℕ)
      → slot_for ix.slots ix.capacity page_id ≡ some e
      → (slot_at ix.slots e).page_id ≢ page_id
      → ix.capacity ≤ 2 * ix.size
      → grow calloc_succeeds ix ≡ some (err out_of_memory)
      → put calloc_succeeds ix page_id wal_offset ≡ some (err out_of_memory)
  unfolding put
  put_refused e stop other crowded run =
      ground (arith, stop, other, crowded, run, no_wrap, IsValid-not_null valid)

  -- For a valid index and a page other than 0, `put` ends: either it stores, leaving a valid index in
  -- which the page has the new offset and every other page the answer it had, or it reports out of
  -- memory, and then the page is not in the index, the index is at least half full, and the allocator
  -- failed or the doubled table would not fit.
  pub put_total : PutOutcome ix calloc_succeeds page_id wal_offset
  put_total =
      let (e, stop, inside) =
        slot_for_total ix.slots valid.width page_id valid.table (half_full valid) in
      let stop' : slot_for ix.slots ix.capacity page_id ≡ some e =
        ap (λ n. slot_for ix.slots n page_id) valid.power ∙ stop in
      elim (ℕ_discrete (slot_at ix.slots e).page_id page_id) [
        | yes own ↦ inl (
          _,
          put_update e stop' own,
          written-IsStored ix valid page_id wal_offset e ix.size real stop inside
              (used-update ix.slots e _ own ∙ valid.pages) valid.load,
        )
        | no other ↦ elim (dec_lt (2 * ix.size) ix.capacity) [
          | yes room ↦
              let (ix', run, done) =
                insert_total ix page_id wal_offset valid real
                  (absent_of_stop ix valid page_id e real stop other) room in
              inl (ix', put_insert e stop' other room ∙ run, done)
          | no crowded ↦ elim (grow_total calloc_succeeds valid) [
            | inl (grown, run, done) ↦
                let (ix', run', stored) =
                  insert_total grown page_id wal_offset done.valid real
                    (done.answers page_id ∙ absent_of_stop ix valid page_id e real stop other)
                    (omega (arith, valid.even.1, valid.load)) in
                inl (
                  ix',
                  put-grow e grown stop' other (omega arith) run ∙ run',
                  record {
                    valid = stored.valid;
                    own = stored.own;
                    others = λ j ne. stored.others j ne ∙ done.answers j;
                  },
                )
            | inr (run, why) ↦ inr (
              put_refused e stop' other (omega arith) run,
              absent_of_stop ix valid page_id e real stop other,
              omega arith,
              why,
            )
          ]
        ]
      ]
