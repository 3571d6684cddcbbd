-- ===== src/Tests/Store.antt =====
-- The store of superblocks at a concrete file.
use shibadb.Bytes.{slice, zeros, same_bytes}
use shibadb.Bytes.Laws.{length-zeros, slice-zeros}
use shibadb.File.{File, write_at}
use shibadb.Status.{ok}
use shibadb.Superblock.{Superblock, superblock_decode, header_auth}
use shibadb.Superblock.Fields
use shibadb.Superblock.Fields.{IsWide, image}
use shibadb.SuperblockStore.{
  Slot, ReadResult, mirror, valid_slot, result_of, select_slot, update_file,
}
use shibadb.SuperblockStore.Choice.{Selects, select_slot-Selects}
use shibadb.SuperblockStore.CrashSafe.{Harmless, Safe, reopen-eq}
use shibadb.SuperblockStore.Encoded.{mirror-image}
use shibadb.SuperblockStore.Slots.{
  reopen, length-write_at, at_slot-write_at, at_slot-write_at_other,
}
use shibadb.SuperblockStore.Update.{update_file-Safe}
use shibadb.Tests.Header.{plain, plain-IsWide, plain-valid}
use shibadb.Prelude.{
  ℕ, ◌≡◌, ◌⊎◌, ◌∙◌, refl, ap, ap₂, subst, sym, arith, List, ◌≤◌, length, none, some, false,
}

abbrev plain_slot : Slot
plain_slot = record { slot_bytes = image plain 4096; decoded = plain }

-- One slot is written, the other is blank.
abbrev one_slot : List ℕ
one_slot = write_at (zeros 8192) 0 (image plain 4096)

zeros_long : 8192 ≤ length (zeros 8192)
zeros_long = omega (arith, length-zeros 8192)

abbrev current : ReadResult
current = result_of plain_slot 1 0

blank : mirror (zeros 4096) ≡ none
unfolding mirror valid_slot superblock_decode slice zeros same_bytes
blank = refl

not_authenticated : header_auth plain.flags ≡ false
unfolding header_auth
not_authenticated = refl

readable : reopen one_slot ≡ ok current
unfolding select_slot
readable =
    reopen-eq one_slot (
      length-write_at (zeros 8192) (image plain 4096) zeros_long (Fields.length-image plain 4096) 0)
    ∙ ap₂ select_slot
        (at_slot-write_at (zeros 8192) (image plain 4096) zeros_long
            (Fields.length-image plain 4096) 0 (omega arith)
          ∙ mirror-image plain plain-IsWide not_authenticated plain-valid)
        (at_slot-write_at_other (zeros 8192) (image plain 4096) zeros_long
            (Fields.length-image plain 4096) 0 1 (omega arith) (omega arith) (omega arith)
          ∙ ap mirror (slice-zeros 8192 4096 4096 (omega arith))
          ∙ blank)

-- The next generation of the superblock.
abbrev next : Superblock
next = record plain { generation = 4; checkpoint_lsn = 12 }

next-IsWide : IsWide next
next-IsWide = record {
  generation_fits = omega arith;
  lsn_fits = omega arith;
  page_size_fits = plain-IsWide.page_size_fits;
  flags_fit = plain-IsWide.flags_fit;
  root_fits = plain-IsWide.root_fits;
  freelist_fits = plain-IsWide.freelist_fits;
  next_fits = plain-IsWide.next_fits;
  wrap_id_fits = plain-IsWide.wrap_id_fits;
  iterations_fit = plain-IsWide.iterations_fit;
  salt_size = plain-IsWide.salt_size;
  file_id_size = plain-IsWide.file_id_size;
  wrapped_key_size = plain-IsWide.wrapped_key_size;
  tag_size = plain-IsWide.tag_size;
  salt_bytes = plain-IsWide.salt_bytes;
  file_id_bytes = plain-IsWide.file_id_bytes;
  wrapped_key_bytes = plain-IsWide.wrapped_key_bytes;
  tag_bytes = plain-IsWide.tag_bytes;
}

-- The third operation of five fails.
abbrev failing : File
failing = record { bytes = one_slot; budget = 2; torn = zeros 4096 }

harmless : Harmless plain next (mirror (zeros 4096))
harmless = subst (Harmless plain next) (sym blank) tt

update_file-Safe_example : Safe plain next (update_file next failing)
unfolding result_of
update_file-Safe_example =
    update_file-Safe failing current next
      (length-write_at (zeros 8192) (image plain 4096) zeros_long (Fields.length-image plain 4096)
        0)
      readable next-IsWide not_authenticated (length-zeros 4096) harmless

select_slot-Selects_example :
    ((current.selected_slot ≡ 0) × Selects current (some plain_slot) none)
    ⊎ ((current.selected_slot ≡ 1) × Selects current none (some plain_slot))
unfolding select_slot
select_slot-Selects_example = select_slot-Selects (some plain_slot) none current refl
