-- ===== src/SuperblockStore/Slots.antt =====
-- What a write to one slot of the file makes of the two.
use shibadb.Bytes.{slice, zeros}
use shibadb.Bytes.Laws.{length-copy_to, slice-copy_to_self, slice-copy_to_outside, slice-append_le}
use shibadb.File.{read_full, write_at}
use shibadb.Status.{ok, Result, err, io}
use shibadb.SuperblockStore.{
  Slot, ReadResult, slot_offset, mirror, slot_answer, load_slot, load_slots, select_slot, read_file,
}
use shibadb.Prelude.{
  ℕ, suc, ◌+◌, ◌-◌, ◌*◌, ◌<◌, ◌≤◌, ◌≡◌, ◌⊎◌, refl, ap, ◌∙◌, arith, List, [], ◌++◌, length,
  length-append, Option, none, true, false, le→leb,
}

-- The bytes of a slot, and what a reader finds there.
abbrev pub at_slot : List ℕ → ℕ → Option Slot
at_slot bytes k = mirror (slice bytes (k * 4096) 4096)

-- Opening the file again, on a device that works.
abbrev pub reopen : List ℕ → Result ReadResult
reopen bytes = (read_file (record { bytes = bytes; budget = 2; torn = [] })).0

length-write_at_grow :
    (bytes : List ℕ) (offset : ℕ) (input : List ℕ)
    → length bytes ≤ length (write_at bytes offset input)
unfolding write_at
length-write_at_grow bytes offset input = omega (
  arith,
  length-copy_to (bytes ++ zeros (offset + length input - length bytes)) offset input,
  length-append bytes (zeros (offset + length input - length bytes)),
)

module _ (bytes : List ℕ) (input : List ℕ) (long : 8192 ≤ length bytes)
    (whole : length input ≡ 4096) where
  grown : ℕ → List ℕ
  grown offset = bytes ++ zeros (offset + length input - length bytes)

  pub length-write_at : (k : ℕ) → 8192 ≤ length (write_at bytes (k * 4096) input)
  length-write_at k = omega (arith, length-write_at_grow bytes (k * 4096) input)

  pub at_slot-write_at :
      (k : ℕ) → k ≤ 1 → at_slot (write_at bytes (k * 4096) input) k ≡ mirror input
  unfolding write_at
  at_slot-write_at k h = ap mirror (
      slice-copy_to_self (bytes ++ zeros (k * 4096 + length input - length bytes)) (k * 4096) input
        4096 (omega arith)
        (omega (arith, length-append bytes (zeros (k * 4096 + length input - length bytes)))))

  pub at_slot-write_at_other :
      (k j : ℕ)
      → k ≤ 1
      → j ≤ 1
      → (k < j) ⊎ (j < k)
      → at_slot (write_at bytes (k * 4096) input) j ≡ at_slot bytes j
  unfolding write_at
  at_slot-write_at_other k j hk hj apart = ap mirror (
      slice-copy_to_outside (bytes ++ zeros (k * 4096 + length input - length bytes)) (k * 4096)
        input (j * 4096) 4096 (omega arith)
      ∙ slice-append_le bytes (zeros (k * 4096 + length input - length bytes)) (j * 4096) 4096
          (omega arith))

-- A file with both slots in it is read as the choice between them.
module _ (bytes torn : List ℕ) (n : ℕ) (long : 8192 ≤ length bytes) where
  load_slot-eq :
      (k m : ℕ)
      → k ≤ 1
      → load_slot k (record { bytes = bytes; budget = suc m; torn = torn })
        ≡ ((false, at_slot bytes k), record { bytes = bytes; budget = m; torn = torn })
  unfolding load_slot read_full slot_answer slot_offset
  load_slot-eq k m h = rw (le→leb (k * 4096 + 4096) (length bytes) (omega arith)) refl

  pub load_slots-eq :
      load_slots (record { bytes = bytes; budget = suc (suc n); torn = torn })
      ≡ (ok (at_slot bytes 0, at_slot bytes 1), record { bytes = bytes; budget = n; torn = torn })
  unfolding load_slots
  load_slots-eq = rw (load_slot-eq 0 (suc n) (omega arith), load_slot-eq 1 n (omega arith)) refl

  pub read_file-eq : read_file (record { bytes = bytes; budget = suc (suc n); torn = torn }) ≡ (
    select_slot (at_slot bytes 0) (at_slot bytes 1),
    record { bytes = bytes; budget = n; torn = torn },
  )
  unfolding read_file
  read_file-eq = rw load_slots-eq refl

  -- A device that fails while the slots are read.
  pub read_file-failed_0 :
      read_file (record { bytes = bytes; budget = 0; torn = torn })
      ≡ (err io, record { bytes = bytes; budget = 0; torn = torn })
  unfolding read_file load_slots load_slot read_full slot_answer
  read_file-failed_0 = refl

  second_failed :
      load_slot 1 (record { bytes = bytes; budget = 0; torn = torn })
      ≡ ((true, none), record { bytes = bytes; budget = 0; torn = torn })
  unfolding load_slot read_full slot_answer
  second_failed = refl

  pub read_file-failed_1 :
      read_file (record { bytes = bytes; budget = 1; torn = torn })
      ≡ (err io, record { bytes = bytes; budget = 0; torn = torn })
  unfolding read_file load_slots
  read_file-failed_1 = rw (load_slot-eq 0 0 (omega arith), second_failed) refl
