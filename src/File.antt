-- ===== src/File.antt =====
-- A file as the code above src/file.c sees it: its bytes, and a device that fails from some operation
-- on. What the operating system does below is not modelled; that a failed write may leave anything in
-- the range that it was to write is.
use shibadb.Bytes.{copy_to, slice, zeros}
use shibadb.Status.{Result, ok, err, io, truncated}
use shibadb.Prelude.{ℕ, zero, suc, ◌+◌, ◌-◌, List, ◌++◌, take, length, leb, if◌then◌else◌}

-- `budget` operations succeed before all fail; `torn` is what the failing write leaves.
pub record File : Type 0 where
  pub bytes : List ℕ
  pub budget : ℕ
  pub torn : List ℕ

-- An operation on a file, with its status or result.
abbrev pub Io {ℓ} : Type ℓ → Type ℓ
Io A = File → Result A × File

abbrev pub continue {ℓ κ} :
    {A : Type ℓ} {B : Type κ} → (A → Io B) → Result A × File → Result B × File
continue next (ok value, file) = next value file
continue next (err e, file) = (err e, file)

infixl 5 ◌>>=◌ ◌>>◌
abbrev pub ◌>>=◌ {ℓ κ} : {A : Type ℓ} {B : Type κ} → Io A → (A → Io B) → Io B
(first >>= next) file = continue next (first file)

abbrev pub ◌>>◌ {κ} : {B : Type κ} → Io (Unit {0}) → Io B → Io B
first >> next = first >>= λ _. next

-- A result that needs no file.
abbrev pub lift {ℓ} : {A : Type ℓ} → Result A → Io A
lift result file = (result, file)

-- Writing past the end makes the file longer.
unfoldable pub write_at : List ℕ → ℕ → List ℕ → List ℕ
write_at bytes offset input =
    copy_to (bytes ++ zeros (offset + length input - length bytes)) offset input

-- `sdb_file_read_full`
unfoldable pub read_full : ℕ → ℕ → Io (List ℕ)
read_full offset size file = elim file.budget [
  | zero ↦ (err io, file)
  | suc budget ↦ (
    if leb (offset + size) (length file.bytes)
        then ok (slice file.bytes offset size)
        else err truncated,
    record file { budget = budget },
  )
]

-- `sdb_file_write_full`
unfoldable pub write_full : ℕ → List ℕ → Io (Unit {0})
write_full offset input file = elim file.budget [
  | zero ↦
      (err io, record file { bytes = write_at file.bytes offset (take (length input) file.torn) })
  | suc budget ↦ (ok tt, record file { bytes = write_at file.bytes offset input; budget = budget })
]

-- `sdb_file_sync`
unfoldable pub sync : Io (Unit {0})
sync file = elim file.budget [
  | zero ↦ (err io, file)
  | suc budget ↦ (ok tt, record file { budget = budget })
]
