-- ===== src/Status.antt =====
-- `sdb_status` of include/shibadb.h, and the result of a function that returns one beside a value.
pub mod Inversion
use shibadb.Prelude.{Bool, true, false}

-- The error codes; SDB_OK is the constructor `ok` of a result.
pub data Status : Type 0 where
  invalid_argument : Status
  buffer_too_small : Status
  bad_magic : Status
  unsupported_version : Status
  corrupt : Status
  overflow : Status
  io : Status
  internal : Status
  truncated : Status
  not_found : Status
  authentication : Status
  conflict : Status
  busy : Status
  out_of_memory : Status

pub data Result {ℓ} (A : Type ℓ) : Type ℓ where
  ok : A → Result A
  err : Status → Result A

-- `if (bad) { return e; }`
abbrev pub fail_if : Bool → Status → Result (Unit {0})
fail_if true e = err e
fail_if false e = ok tt

-- Binding computes wherever it stands, so that a function of several checks does.
infixl 5 ◌>>=◌ ◌>>◌
abbrev pub ◌>>=◌ {ℓ κ} : {A : Type ℓ} {B : Type κ} → Result A → (A → Result B) → Result B
err e >>= next = err e
ok value >>= next = next value

abbrev pub ◌>>◌ {ℓ} : {B : Type ℓ} → Result (Unit {0}) → Result B → Result B
err e >> next = err e
ok _ >> next = next
