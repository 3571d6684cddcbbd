-- ===== src/WalIndex/Insert.antt =====
-- Writing one entry into a valid index: an update, or a new page where there is room.
use native.Mathlib.Nat.{mod-eq_of_lt}
use shibadb.Status.{ok}
use shibadb.WalIndex.{WalIndex, slot_at, slot_for, get, insert_new, store_new}
use shibadb.WalIndex.Table.{find, find-present, present_or_absent, used, used-set, slot_for_total}
use shibadb.WalIndex.Probe.{get_loop-absent}
use shibadb.WalIndex.Write.{written-IsTable, find-written_self, find-written_ne, stopped}
use shibadb.Prelude.{
  ℕ, ◌+◌, ◌*◌, ◌%◌, ◌^◌, ◌<◌, ◌≤◌, ◌≡◌, ◌≢◌, inl, inr, sym, ap, ◌∙◌, arith, set, none, some,
  ℕ_discrete,
}
use shibadb.WalIndex.Valid.{IsValid, get-eq-find, half_full, get-zero}

-- What a successful `put` leaves: a valid index in which the page has the new offset and every other
-- page the answer that it had.
pub record IsStored (ix : WalIndex) (page_id wal_offset : ℕ) (ix' : WalIndex) : Type 0 where
  pub valid : IsValid ix'
  pub own : get ix' page_id ≡ some wal_offset
  pub others : (j : ℕ) → j ≢ page_id → get ix' j ≡ get ix j

-- Writing the slot where the probe stops, as an update or as a new entry.
pub written-IsStored :
    (ix : WalIndex) (valid : IsValid ix) (page_id wal_offset e size : ℕ)
    → page_id ≢ 0
    → slot_for ix.slots (2 ^ valid.width) page_id ≡ some e
    → e < 2 ^ valid.width
    → used (set ix.slots e (record { page_id = page_id; wal_offset = wal_offset })) ≡ size
    → 2 * size ≤ ix.capacity
    → IsStored ix page_id wal_offset (record ix {
      slots = set ix.slots e (record { page_id = page_id; wal_offset = wal_offset });
      size = size;
    })
written-IsStored ix valid page_id wal_offset e size real stop inside pages load = record {
  valid = valid';
  own =
      get-eq-find valid' page_id real
      ∙ find-written_self ix.slots valid.width page_id wal_offset e valid.table real stop inside;
  others = λ j ne. elim (ℕ_discrete j 0) [
    | yes zero_page ↦ rw zero_page (get-zero _ ∙ sym (get-zero ix))
    | no hj ↦
        get-eq-find valid' j hj
        ∙ find-written_ne ix.slots valid.width page_id wal_offset e valid.table real stop inside j
            hj ne
        ∙ sym (get-eq-find valid j hj)
  ];
}
  where
    valid' : IsValid (record ix {
      slots = set ix.slots e (record { page_id = page_id; wal_offset = wal_offset });
      size = size;
    })
    valid' = record {
      width = valid.width;
      table =
          written-IsTable ix.slots valid.width page_id wal_offset e valid.table real stop inside;
      power = valid.power;
      pages = pages;
      load = load;
      even = valid.even;
      small = valid.small;
    }

-- A page whose probe stops at another page's slot is not in the table.
pub absent_of_stop :
    (ix : WalIndex) (valid : IsValid ix) (page_id e : ℕ)
    → page_id ≢ 0
    → slot_for ix.slots (2 ^ valid.width) page_id ≡ some e
    → (slot_at ix.slots e).page_id ≢ page_id
    → get ix page_id ≡ none
absent_of_stop ix valid page_id e real stop other =
    get-eq-find valid page_id real
    ∙ elim (present_or_absent ix.slots page_id real)
        as (λ _. find ix.slots valid.width page_id ≡ none) [
          | inl (p, at_p) ↦ absurd (other (cc (valid.table.findable p (rw at_p real), stop, at_p)))
          | inr absent ↦ get_loop-absent _ page_id (2 ^ valid.width) ix.slots _ absent
        ]

insert-run :
    (ix : WalIndex) (page_id wal_offset e : ℕ)
    → slot_for ix.slots ix.capacity page_id ≡ some e
    → insert_new ix page_id wal_offset ≡ some (ok (store_new ix e page_id wal_offset))
unfolding insert_new
insert-run ix page_id wal_offset e stop = ground (arith, stop)

-- A new page goes into a valid index that is less than half full.
pub insert_total :
    (ix : WalIndex) (page_id wal_offset : ℕ)
    → IsValid ix
    → page_id ≢ 0
    → get ix page_id ≡ none
    → 2 * ix.size < ix.capacity
    → (ix' : WalIndex) × (insert_new ix page_id wal_offset ≡ some (ok ix'))
      × IsStored ix page_id wal_offset ix'
insert_total ix page_id wal_offset valid real absent room =
    let (e, stop, inside) =
      slot_for_total ix.slots valid.width page_id valid.table (half_full valid) in
    let empty : (slot_at ix.slots e).page_id ≡ 0 =
      elim (stopped ix.slots valid.width page_id wal_offset e valid.table real stop inside) [
        | inl free_slot ↦ free_slot
        | inr own ↦ absurd (
            cc (
              absent,
              get-eq-find valid page_id real,
              find-present ix.slots valid.width page_id valid.table e real own,
            ))
      ] in
    let no_wrap : (ix.size + 1) % 2 ^ 64 ≡ ix.size + 1 =
      mod-eq_of_lt (omega (arith, valid.load, valid.small)) in
    (
      store_new ix e page_id wal_offset,
      insert-run ix page_id wal_offset e (ap (λ n. slot_for ix.slots n page_id) valid.power ∙ stop),
      unfold store_new in
          written-IsStored ix valid page_id wal_offset e ((ix.size + 1) % 2 ^ 64) real stop inside
            (used-set ix.slots e _ (omega (arith, valid.table.count)) empty real
              ∙ ap (λ n. n + 1) valid.pages
              ∙ sym no_wrap)
            (omega (arith, valid.even.1, no_wrap)),
    )
