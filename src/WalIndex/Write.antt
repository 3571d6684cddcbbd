-- ===== src/WalIndex/Write.antt =====
-- One write to a table: what it does to the invariant and to every lookup.
use shibadb.WalIndex.{Slot, slot_at, home, probe, slot_for}
use shibadb.WalIndex.Probe.{
  slot_at-set, probe_stops, probe-cong, probe-set_other, probe-set_self, get_loop-absent,
}
use shibadb.WalIndex.Table.{IsTable, find, find-present, present_or_absent}
use shibadb.Prelude.{
  ℕ, ◌-◌, ◌^◌, ◌<◌, ◌≡◌, ◌≢◌, ◌⊎◌, inl, inr, refl, sym, ap, ◌∙◌, arith, List, set, length,
  length-set, some, ◌==◌, if◌then◌else◌, ℕ_discrete,
}

-- One write of a page at the slot where its probe stops: a new page fills an empty slot, and a
-- stored one has its offset replaced.
module _ (slots : List Slot) (width page_id wal_offset e : ℕ) (valid : IsTable slots width)
    (real : page_id ≢ 0) (stop : slot_for slots (2 ^ width) page_id ≡ some e)
    (inside : e < 2 ^ width) where
  abbrev entry : Slot
  entry = record { page_id = page_id; wal_offset = wal_offset }

  abbrev written : List Slot
  written = set slots e entry

  in_range : e < length slots
  in_range = omega (arith, valid.count)

  written-at : (i : ℕ) → slot_at written i ≡ (if i == e then entry else slot_at slots i)
  written-at i = slot_at-set slots e entry i in_range

  found_again : slot_for written (2 ^ width) page_id ≡ some e
  unfolding slot_for
  found_again =
      probe-set_self (2 ^ width - 1) page_id (2 ^ width) slots (home (2 ^ width - 1) page_id) e
        entry in_range refl stop

  -- Filling an empty slot keeps the invariant.
  fill-IsTable : (slot_at slots e).page_id ≡ 0 → IsTable written width
  fill-IsTable empty = record {
    count = length-set slots e entry ∙ valid.count;
    findable = λ p used_slot. elim (ℕ_discrete p e) [
      | yes here ↦ at_entry p used_slot here
      | no away ↦ elsewhere p away used_slot
    ];
  }
    where
      at_entry :
          (p : ℕ)
          → (slot_at written p).page_id ≢ 0
          → p ≡ e
          → slot_for written (2 ^ width) (slot_at written p).page_id ≡ some p
      at_entry p used_slot here = ground (arith, written-at p, found_again)

      kept :
          (p : ℕ)
          → (slot_at slots p).page_id ≢ 0
          → slot_for written (2 ^ width) (slot_at slots p).page_id ≡ some p
      kept p h =
          unfold slot_for in
          probe-set_other (2 ^ width - 1) (slot_at slots p).page_id (2 ^ width) slots _ p e entry
            in_range empty h refl (valid.findable p h)

      elsewhere :
          (p : ℕ)
          → p ≢ e
          → (slot_at written p).page_id ≢ 0
          → slot_for written (2 ^ width) (slot_at written p).page_id ≡ some p
      elsewhere p away used_slot =
          let same : slot_at written p ≡ slot_at slots p = ground (arith, written-at p) in
          rw same (kept p (rw same at used_slot))

  -- Replacing the offset of a stored page keeps the invariant.
  update-IsTable : (slot_at slots e).page_id ≡ page_id → IsTable written width
  update-IsTable own = record {
    count = length-set slots e entry ∙ valid.count;
    findable = λ p used_slot.
        unfold slot_for in
        probe-cong _ _ (2 ^ width) slots written _ same
        ∙ ap (λ k. probe (2 ^ width) slots (2 ^ width - 1) (home (2 ^ width - 1) k) k) (same p)
        ∙ valid.findable p (rw (same p) at used_slot);
  }
    where
      same : (i : ℕ) → (slot_at written i).page_id ≡ (slot_at slots i).page_id
      same i = ground (arith, written-at i)

  -- Where the probe stops is an empty slot or the page's own.
  pub stopped : ((slot_at slots e).page_id ≡ 0) ⊎ ((slot_at slots e).page_id ≡ page_id)
  stopped = unfold slot_for in probe_stops _ page_id (2 ^ width) slots _ e stop

  pub written-IsTable : IsTable written width
  written-IsTable = elim stopped [ inl empty ↦ fill-IsTable empty | inr own ↦ update-IsTable own ]

  -- After the write the page is found with its new offset.
  pub find-written_self : find written width page_id ≡ some wal_offset
  find-written_self =
      find-present written width page_id written-IsTable e real (ground (arith, written-at e))
      ∙ ground (arith, written-at e)

  -- Every other page is found as before.
  pub find-written_ne : (j : ℕ) → j ≢ 0 → j ≢ page_id → find written width j ≡ find slots width j
  find-written_ne j hj ne = elim (present_or_absent slots j hj) [
    | inl (p, at_p) ↦
        let same : slot_at written p ≡ slot_at slots p = ground (arith, written-at p, stopped) in
        find-present written width j written-IsTable p hj (ap (λ s. s.page_id) same ∙ at_p)
        ∙ ap (λ s. some s.wal_offset) same
        ∙ sym (find-present slots width j valid p hj at_p)
    | inr absent ↦
        get_loop-absent _ j (2 ^ width) written _ (still_absent absent)
        ∙ sym (get_loop-absent _ j (2 ^ width) slots _ absent)
  ]
    where
      still_absent :
          ((i : ℕ) → (slot_at slots i).page_id ≢ j) → (i : ℕ) → (slot_at written i).page_id ≢ j
      still_absent absent i = ground (arith, written-at i, absent i)
