-- ===== src/Wal/Commit.antt =====
-- src/wal.c: the commit record that closes a transaction in the log.
pub mod Fields
pub mod RoundTrip
use shibadb.Bytes.{slice, zeros, same_bytes}
use shibadb.Bytes.Stores.{Store, run}
use shibadb.Codec.{
  read_u16_le, read_u32_le, read_u64_le, write_u16_le, write_u32_le, write_u64_le, memcpy,
}
use shibadb.Crc.{crc32_zeroed_range}
use shibadb.Status.{Result, ok, err, invalid_argument, corrupt, fail_if, ◌>>=◌, ◌>>◌}
use shibadb.Prelude.{ℕ, List, [], ◌∷◌, take, drop, Option, none, some, ◌&&◌, ◌||◌, not, ◌==◌, ltb}

abbrev pub commit_size : ℕ
commit_size = 44

-- "SCMT"
abbrev pub commit_magic : List ℕ
commit_magic = b'S' ∷ b'C' ∷ b'M' ∷ b'T' ∷ []

-- `sdb_wal_commit_rec`
pub record CommitRec : Type 0 where
  pub txn_id : ℕ
  pub frame_count : ℕ
  pub next_page_id : ℕ
  pub freelist_page : ℕ

-- The writes of the encoder before its own checksum.
unfoldable pub commit_stores : CommitRec → ℕ → List Store
commit_stores rec running_crc =
    memcpy 0 4 commit_magic
    ∷ write_u16_le 4 5
    ∷ write_u16_le 6 commit_size
    ∷ write_u64_le 8 rec.txn_id
    ∷ write_u32_le 16 rec.frame_count
    ∷ write_u64_le 20 rec.next_page_id
    ∷ write_u64_le 28 rec.freelist_page
    ∷ write_u32_le 36 running_crc
    ∷ []

-- The result is the record's 44 bytes.
unfoldable pub encode_commit_rec : CommitRec → ℕ → List ℕ
unfolding commit_stores
encode_commit_rec rec running_crc =
    let out = run (zeros commit_size) (commit_stores rec running_crc) in
    run out (write_u32_le 40 (crc32_zeroed_range out 40 4) ∷ [])

-- `input` has `avail` bytes; NULL is `none`. The result pairs the record and the running checksum.
unfoldable pub decode_commit_rec : Option (List ℕ) → ℕ → Result (CommitRec × ℕ)
decode_commit_rec none avail = err invalid_argument
decode_commit_rec (some input) avail = do
  fail_if (ltb avail commit_size) invalid_argument
  let rec_version = read_u16_le (drop 4 input)
  fail_if
      (not (same_bytes (slice input 0 4) commit_magic)
        || (not (rec_version == 3) && not (rec_version == 4) && not (rec_version == 5))
        || not (read_u16_le (drop 6 input) == commit_size))
      corrupt
  let stored_commit_crc = read_u32_le (drop 40 input)
  let expected_commit_crc = crc32_zeroed_range (take commit_size input) 40 4
  fail_if (not (stored_commit_crc == expected_commit_crc)) corrupt
  ok (
    record {
      txn_id = read_u64_le (drop 8 input);
      frame_count = read_u32_le (drop 16 input);
      next_page_id = read_u64_le (drop 20 input);
      freelist_page = read_u64_le (drop 28 input);
    },
    read_u32_le (drop 36 input),
  )
