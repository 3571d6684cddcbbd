-- ===== src/Wal/Commit/Fields.antt =====
-- What an encoded commit record holds at each field.
use shibadb.Bytes.{IsByte, slice, zeros}
use shibadb.Bytes.Laws.{length-zeros, zeros-IsByte}
use shibadb.Bytes.Stores.{run, length-run, run-IsByte, FitsIn, all_miss, found, slice-run_hit}
use shibadb.Codec.{write_u16_le, write_u32_le, write_u64_le, memcpy}
use shibadb.Codec.RoundTrip.{write_u16-IsByte, write_u32-IsByte, write_u64-IsByte}
use shibadb.Wal.Commit.{CommitRec, commit_stores, commit_magic}
use shibadb.Prelude.{ℕ, ◌≡◌, ◌∙◌, refl, arith, List, All, some, length}

module _ (rec : CommitRec) (running_crc : ℕ) where
  abbrev pub body : List ℕ
  body = run (zeros 44) (commit_stores rec running_crc)

  stores-FitsIn : All (FitsIn (length (zeros 44))) (commit_stores rec running_crc)
  unfolding commit_stores write_u16_le write_u32_le write_u64_le memcpy
  stores-FitsIn = rw length-zeros (omega arith)

  field :
      (o n : ℕ) {bytes : List ℕ}
      → found (commit_stores rec running_crc) o n ≡ some bytes
      → slice body o n ≡ bytes
  field o n e = slice-run_hit (zeros 44) (commit_stores rec running_crc) o n stores-FitsIn e

  pub length-body : length body ≡ 44
  length-body = length-run (zeros 44) (commit_stores rec running_crc) ∙ length-zeros 44

  pub body-magic : slice body 0 4 ≡ commit_magic
  body-magic =
      field 0 4
        (unfold found all_miss commit_stores write_u16_le write_u32_le write_u64_le memcpy in refl)

  pub body-version : slice body 4 2 ≡ (write_u16_le 4 5).bytes
  body-version =
      field 4 2
        (unfold found all_miss commit_stores write_u16_le write_u32_le write_u64_le memcpy in refl)

  pub body-size : slice body 6 2 ≡ (write_u16_le 6 44).bytes
  body-size =
      field 6 2
        (unfold found all_miss commit_stores write_u16_le write_u32_le write_u64_le memcpy in refl)

  pub body-txn_id : slice body 8 8 ≡ (write_u64_le 8 rec.txn_id).bytes
  body-txn_id =
      field 8 8
        (unfold found all_miss commit_stores write_u16_le write_u32_le write_u64_le memcpy in refl)

  pub body-frame_count : slice body 16 4 ≡ (write_u32_le 16 rec.frame_count).bytes
  body-frame_count =
      field 16 4
        (unfold found all_miss commit_stores write_u16_le write_u32_le write_u64_le memcpy in refl)

  pub body-next_page_id : slice body 20 8 ≡ (write_u64_le 20 rec.next_page_id).bytes
  body-next_page_id =
      field 20 8
        (unfold found all_miss commit_stores write_u16_le write_u32_le write_u64_le memcpy in refl)

  pub body-freelist_page : slice body 28 8 ≡ (write_u64_le 28 rec.freelist_page).bytes
  body-freelist_page =
      field 28 8
        (unfold found all_miss commit_stores write_u16_le write_u32_le write_u64_le memcpy in refl)

  pub body-running_crc : slice body 36 4 ≡ (write_u32_le 36 running_crc).bytes
  body-running_crc =
      field 36 4
        (unfold found all_miss commit_stores write_u16_le write_u32_le write_u64_le memcpy in refl)

  pub body-IsByte : All IsByte body
  body-IsByte = run-IsByte (zeros 44) (commit_stores rec running_crc) (zeros-IsByte 44) (
      unfold commit_stores in
      (
        unfold memcpy in omega arith,
        (
          write_u16-IsByte 4 5,
          (
            write_u16-IsByte 6 44,
            (
              write_u64-IsByte 8 rec.txn_id,
              (
                write_u32-IsByte 16 rec.frame_count,
                (
                  write_u64-IsByte 20 rec.next_page_id,
                  (write_u64-IsByte 28 rec.freelist_page, (write_u32-IsByte 36 running_crc, tt)),
                ),
              ),
            ),
          ),
        ),
      ))
