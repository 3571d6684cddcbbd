-- ===== src/SuperblockStore/Update.antt =====
-- An update that stops at any of its operations leaves the old superblock or the new one.
use shibadb.File.{File, Io, lift, ◌>>=◌, ◌>>◌}
use shibadb.Status.{ok, fail_if, invalid_argument}
use shibadb.Superblock.{Superblock, header_auth}
use shibadb.Superblock.Fields
use shibadb.Superblock.Fields.{IsWide, image}
use shibadb.SuperblockStore.{
  ReadResult, mirror, install, other_slot, read_file, update_file, update_file_internal,
  changes_identity, select_slot,
}
use shibadb.SuperblockStore.Choice.{Reads, Beats, Selects, select_slot-Selects}
use shibadb.SuperblockStore.Slots.{
  at_slot, reopen, read_file-eq, read_file-failed_0, read_file-failed_1,
}
use shibadb.SuperblockStore.CrashSafe.{Harmless, Safe, Pair, reopen-eq, install-Safe}
use shibadb.SuperblockStore.Encoded.{mirror-image, encode_slot-cases}
use shibadb.Prelude.{
  ℕ, zero, suc, ◌<◌, ◌≤◌, ◌≡◌, inl, inr, refl, sym, subst, ◌∙◌, List, length, some, Bool, true,
  false, leb, leb→lt,
}

module _ (file : File) (c : ReadResult) (sb : Superblock) (long : 8192 ≤ length file.bytes)
    (readable : reopen file.bytes ≡ ok c) (wide : IsWide sb) (plain : header_auth sb.flags ≡ false)
    (torn_size : length file.torn ≡ 4096)
    (harmless : Harmless c.superblock sb (mirror file.torn)) where
  chosen : select_slot (at_slot file.bytes 0) (at_slot file.bytes 1) ≡ ok c
  chosen = sym (reopen-eq file.bytes long) ∙ readable

  old-Reads : Reads (reopen file.bytes) c.superblock
  old-Reads = subst (λ r. Reads r c.superblock) (sym readable) refl

  installed :
      (k j budget : ℕ)
      → Pair k j
      → Selects c (at_slot file.bytes k) (at_slot file.bytes j)
      → mirror (image sb 4096) ≡ some (record { slot_bytes = image sb 4096; decoded = sb })
      → c.superblock.generation < sb.generation
      → Safe c.superblock sb (
          install j k
            (image sb 4096)
            (record { bytes = file.bytes; budget = budget; torn = file.torn }))
  installed k j budget pair (old, selected, same, beats) valid newer =
      subst
        (λ s. Safe s sb (
          install j k (image sb 4096)
            (record { bytes = file.bytes; budget = budget; torn = file.torn })))
        same
        (install-Safe file.bytes k j pair long old selected
          (subst (λ s. Beats s (at_slot file.bytes j)) (sym same) beats)
          (record { slot_bytes = image sb 4096; decoded = sb }) (Fields.length-image sb 4096) valid
          (subst (λ s. s.generation < sb.generation) (sym same) newer) file.torn torn_size
          (subst (λ s. Harmless s sb (mirror file.torn)) (sym same) harmless) budget)

  abbrev after : ℕ → File
  after budget = record { bytes = file.bytes; budget = budget; torn = file.torn }

  -- The last two checks, and the writes.
  abbrev guarded : Bool → Bool → Io (Unit {0})
  guarded stale changed = do
    lift (fail_if stale invalid_argument)
    lift (fail_if changed invalid_argument)
    install (other_slot c.selected_slot) c.selected_slot (image sb 4096)

  selection :
      Pair c.selected_slot (other_slot c.selected_slot)
      × Selects c
          (at_slot file.bytes c.selected_slot)
          (at_slot file.bytes (other_slot c.selected_slot))
  unfolding other_slot
  selection = elim (select_slot-Selects (at_slot file.bytes 0) (at_slot file.bytes 1) c chosen) [
    | inl (e, found) ↦ rw e (inl (refl, refl), found)
    | inr (e, found) ↦ rw e (inr (refl, refl), found)
  ]

  guarded-Safe :
      (stale changed : Bool) (budget : ℕ)
      → leb sb.generation c.superblock.generation ≡ stale
      → mirror (image sb 4096) ≡ some (record { slot_bytes = image sb 4096; decoded = sb })
      → Safe c.superblock sb (guarded stale changed (after budget))
  guarded-Safe true changed budget e valid = inl old-Reads
  guarded-Safe false true budget e valid = inl old-Reads
  guarded-Safe false false budget e valid =
      installed c.selected_slot (other_slot c.selected_slot) budget selection.0 selection.1 valid
        (leb→lt sb.generation c.superblock.generation e)

  abbrev written : List ℕ → Io (Unit {0})
  written encoded = read_file >>= λ current.
      (lift (fail_if (leb sb.generation current.superblock.generation) invalid_argument)
        >> (lift (fail_if (changes_identity sb current.superblock) invalid_argument)
            >> install (other_slot current.selected_slot) current.selected_slot encoded))

  written-Safe :
      (budget : ℕ)
      → mirror (image sb 4096) ≡ some (record { slot_bytes = image sb 4096; decoded = sb })
      → Safe c.superblock sb (written (image sb 4096) (after budget))
  written-Safe zero valid = rw (read_file-failed_0 file.bytes file.torn 0 long) (inl old-Reads)
  written-Safe (suc zero) valid =
      rw (read_file-failed_1 file.bytes file.torn 0 long) (inl old-Reads)
  written-Safe (suc (suc n)) valid =
      rw (read_file-eq file.bytes file.torn n long, chosen)
        (guarded-Safe (leb sb.generation c.superblock.generation) (changes_identity sb c.superblock)
          n refl valid)

  -- A file of at least two slots that can be read is updated with a superblock whose fields fit their
  -- widths and whose header is not authenticated. Wherever the device fails, and if the write that
  -- fails leaves a slot that is not valid, or that holds the old superblock, the new one or one older
  -- than the old, the file is read afterwards as the new superblock if the update returned SDB_OK, else
  -- as the old or the new.
  pub update_file-Safe : Safe c.superblock sb (update_file sb file)
  unfolding update_file update_file_internal
  update_file-Safe = elim (encode_slot-cases sb wide plain) [
    | inl refused ↦ rw refused (inl old-Reads)
    | inr (encoded, valid) ↦
        rw encoded (written-Safe file.budget (mirror-image sb wide plain valid))
  ]
