-- ===== src/Wal/Commit/RoundTrip.antt =====
-- A commit record is read back, whatever follows it in the log, and no change of one byte passes.
use shibadb.Bytes.{IsByte, slice}
use shibadb.Bytes.Laws.{same_bytes_refl, slice-append_le}
use shibadb.Codec.{read_u32_le}
use shibadb.Codec.Buffers.{read_u16-stored, read_u32-stored, read_u64-stored, read_u32-slice}
use shibadb.Crc.{crc32_zeroed_range}
use shibadb.Seal.{seal, slice-seal, length-seal, read-seal, seal-IsByte}
use shibadb.Seal.Detect.{set-IsSealed}
use shibadb.Status.{ok}
use shibadb.Wal.Commit.{CommitRec, encode_commit_rec, decode_commit_rec}
use shibadb.Wal.Commit.Fields
use shibadb.Wal.Commit.Fields.{body}
use shibadb.Prelude.{
  ℕ, zero, suc, ◌+◌, ◌^◌, ◌<◌, ◌≤◌, ◌≡◌, refl, sym, ap, ◌∙◌, inl, arith, List, [], ◌∷◌, ◌++◌, All,
  take, drop, length, some, ==_refl, le→ltb, take-append_le, length-append, length-set, get_or, set,
  ◌≢◌,
}

-- Every field fits its width.
pub record IsWide (rec : CommitRec) (running_crc : ℕ) : Type 0 where
  pub txn_fits : rec.txn_id < 2 ^ 64
  pub count_fits : rec.frame_count < 2 ^ 32
  pub next_fits : rec.next_page_id < 2 ^ 64
  pub freelist_fits : rec.freelist_page < 2 ^ 64
  pub crc_fits : running_crc < 2 ^ 32

take-all : (xs : List ℕ) (n : ℕ) → length xs ≡ n → take n xs ≡ xs
take-all [] zero e = refl
take-all [] (suc n) e = refl
take-all (x ∷ xs) zero e = absurd (omega arith)
take-all (x ∷ xs) (suc n) e = ap (λ r. x ∷ r) (take-all xs n (omega arith))

module _ (rec : CommitRec) (running_crc : ℕ) (tail : List ℕ) where
  abbrev log : List ℕ
  log = encode_commit_rec rec running_crc ++ tail

  sealable : 40 + 4 ≤ length (body rec running_crc)
  sealable = omega (arith, Fields.length-body rec running_crc)

  encode-eq_seal : encode_commit_rec rec running_crc ≡ seal (body rec running_crc) 40
  unfolding encode_commit_rec seal
  encode-eq_seal = refl

  pub length-encode_commit_rec : length (encode_commit_rec rec running_crc) ≡ 44
  length-encode_commit_rec =
      ap length encode-eq_seal
      ∙ length-seal (body rec running_crc) 40 sealable
      ∙ Fields.length-body rec running_crc

  -- A field below the checksum, in the log.
  log-field : (o n : ℕ) → o + n ≤ 40 → slice log o n ≡ slice (body rec running_crc) o n
  log-field o n h =
      slice-append_le (encode_commit_rec rec running_crc) tail o n
        (omega (arith, length-encode_commit_rec))
      ∙ ap (λ xs. slice xs o n) encode-eq_seal
      ∙ slice-seal (body rec running_crc) 40 sealable o n (inl h)

  log-record : take 44 log ≡ encode_commit_rec rec running_crc
  log-record =
      take-append_le 44 (encode_commit_rec rec running_crc) tail
        (omega (arith, length-encode_commit_rec))
      ∙ take-all (encode_commit_rec rec running_crc) 44 length-encode_commit_rec

  log-checksum : read_u32_le (drop 40 log) ≡ crc32_zeroed_range (take 44 log) 40 4
  log-checksum =
      read_u32-slice log 40
      ∙ ap read_u32_le (
          slice-append_le (encode_commit_rec rec running_crc) tail 40 4
            (omega (arith, length-encode_commit_rec)))
      ∙ sym (read_u32-slice (encode_commit_rec rec running_crc) 40)
      ∙ ap (λ xs. read_u32_le (drop 40 xs)) encode-eq_seal
      ∙ read-seal (body rec running_crc) 40 sealable (Fields.body-IsByte rec running_crc)
      ∙ ap (λ xs. crc32_zeroed_range xs 40 4) (sym (log-record ∙ encode-eq_seal))

  pub encode_commit_rec-IsByte : All IsByte (encode_commit_rec rec running_crc)
  encode_commit_rec-IsByte =
      rw encode-eq_seal
        (seal-IsByte (body rec running_crc) 40 sealable (Fields.body-IsByte rec running_crc))

  module _ (wide : IsWide rec running_crc) where
    -- What is encoded is decoded, also with more of the log behind it.
    pub decode-encode_commit_rec : decode_commit_rec (some log) (length log) ≡ ok (rec, running_crc)
    unfolding decode_commit_rec
    decode-encode_commit_rec = rw (
      le→ltb (length log) 44 (
          omega (
            arith,
            length-append (encode_commit_rec rec running_crc) tail,
            length-encode_commit_rec,
          )),
      log-field 0 4 (omega arith) ∙ Fields.body-magic rec running_crc,
      same_bytes_refl,
      read_u16-stored log 4 4 5 (log-field 4 2 (omega arith) ∙ Fields.body-version rec running_crc)
          (omega arith),
      read_u16-stored log 6 6 44 (log-field 6 2 (omega arith) ∙ Fields.body-size rec running_crc)
          (omega arith),
      read_u64-stored log 8 8 rec.txn_id
          (log-field 8 8 (omega arith) ∙ Fields.body-txn_id rec running_crc) wide.txn_fits,
      read_u32-stored log 16 16 rec.frame_count
          (log-field 16 4 (omega arith) ∙ Fields.body-frame_count rec running_crc) wide.count_fits,
      read_u64-stored log 20 20 rec.next_page_id
          (log-field 20 8 (omega arith) ∙ Fields.body-next_page_id rec running_crc) wide.next_fits,
      read_u64-stored log 28 28 rec.freelist_page
          (log-field 28 8 (omega arith) ∙ Fields.body-freelist_page rec running_crc)
          wide.freelist_fits,
      read_u32-stored log 36 36 running_crc
          (log-field 36 4 (omega arith) ∙ Fields.body-running_crc rec running_crc) wide.crc_fits,
      log-checksum,
      ==_refl,
    )

-- A record that is accepted carries its own checksum.
decode_commit_rec-sealed :
    (input : List ℕ) {result : CommitRec × ℕ}
    → length input ≡ 44
    → decode_commit_rec (some input) 44 ≡ ok result
    → read_u32_le (drop 40 input) ≡ crc32_zeroed_range input 40 4
unfolding decode_commit_rec
decode_commit_rec-sealed input e h =
    ground (arith, ap (λ xs. crc32_zeroed_range xs 40 4) (take-all input 44 e))

-- If a buffer of 44 bytes is accepted as a commit record, then with any other byte at any one place
-- it is not.
pub decode_commit_rec_detects_change :
    (input : List ℕ) (i b : ℕ) (result other : CommitRec × ℕ)
    → All IsByte input
    → length input ≡ 44
    → decode_commit_rec (some input) 44 ≡ ok result
    → i < 44
    → IsByte b
    → b ≢ get_or input i 0
    → decode_commit_rec (some (set input i b)) 44 ≢ ok other
decode_commit_rec_detects_change input i b result other bytes size da hi hb ne db =
    set-IsSealed input 40 i b bytes hb (omega arith) (omega arith) ne
      (decode_commit_rec-sealed input size da)
      (decode_commit_rec-sealed (set input i b) (length-set input i b ∙ size) db)
