-- ===== src/WalIndex/Valid.antt =====
-- The invariant of an index in use, and growth under it.
use native.Mathlib.Nat.{one-le-pow, pow-suc}
use shibadb.Status.{ok, err, out_of_memory}
use shibadb.WalIndex.{Slot, WalIndex, empty_slot, rehash, grow, get, is_null, size_max}
use shibadb.WalIndex.Table.{IsTable, find, used}
use shibadb.WalIndex.Grow.{IsRehashed, scan, or_else, rehash_total}
use shibadb.WalIndex.Contents.{
  table-IsDistinct, scan-eq-find, empty-IsTable, find-empty, IsFresh-empty, used-replicate,
}
use shibadb.Prelude.{
  ℕ, suc, ◌*◌, ◌/◌, ◌^◌, ◌<◌, ◌≤◌, ◌≡◌, ◌≢◌, ◌⊎◌, inl, inr, refl, sym, ap, ◌∙◌, arith, List, [],
  ◌∷◌, length, replicate, Option, none, some, Bool, true, false, ℕ_discrete, dec_lt, ==_of_ne,
}

-- The invariant of an index in use: a table, the number of its pages, and at most half of it full.
pub record IsValid (ix : WalIndex) : Type 0 where
  pub width : ℕ
  pub table : IsTable ix.slots width
  pub power : ix.capacity ≡ 2 ^ width
  pub pages : used ix.slots ≡ ix.size
  pub load : 2 * ix.size ≤ ix.capacity
  pub even : (half : ℕ) × (ix.capacity ≡ 2 * half) × (0 < half)
  pub small : ix.capacity ≤ 2 ^ 60

pub not_null : (slots : List Slot) → 0 < length slots → is_null slots ≡ false
not_null [] h = absurd (omega arith)
not_null (s ∷ slots) h = refl

module _ {ix : WalIndex} (valid : IsValid ix) where
  pub IsValid-not_null : is_null ix.slots ≡ false
  IsValid-not_null =
      not_null ix.slots (rw (valid.table.count) (one-le-pow valid.width 2 (omega arith)))

  -- `get` of a valid index is the lookup of its table.
  pub get-eq-find : (j : ℕ) → j ≢ 0 → get ix j ≡ find ix.slots valid.width j
  unfolding get
  get-eq-find j hj = rw (IsValid-not_null, ==_of_ne j 0 hj, valid.power)

  pub half_full : used ix.slots < 2 ^ valid.width
  half_full = omega (arith, valid.pages, valid.load, valid.power, valid.even.2)

pub get-zero : (ix : WalIndex) → get ix 0 ≡ none
unfolding get
get-zero ix = ground arith

-- A larger table with the same answers.
pub record IsGrown (ix grown : WalIndex) : Type 0 where
  pub valid : IsValid grown
  pub answers : (j : ℕ) → get grown j ≡ get ix j
  pub doubled : grown.capacity ≡ 2 * ix.capacity
  pub same_size : grown.size ≡ ix.size

or_else-none : (x : Option ℕ) → or_else x none ≡ x
or_else-none none = refl
or_else-none (some v) = refl

-- A growth that is not refused moves the pages into a table twice as large.
grow-run :
    (ix : WalIndex) (result : List Slot)
    → ix.capacity * 2 ≤ size_max / 16
    → rehash ix.slots (replicate (ix.capacity * 2) empty_slot) (ix.capacity * 2) ≡ some result
    → grow true ix ≡ some (ok (record ix { slots = result; capacity = ix.capacity * 2 }))
unfolding grow
grow-run ix result fits run = ground (arith, run)

module _ {ix : WalIndex} (valid : IsValid ix) where
  double : ix.capacity * 2 ≡ 2 ^ suc valid.width
  double = omega (arith, valid.power, pow-suc 2 valid.width)

  -- What a growth does to a valid index.
  rehashed-IsGrown :
      (result : List Slot)
      → ix.capacity * 2 ≤ size_max / 16
      → IsRehashed ix.slots (replicate (2 ^ suc valid.width) empty_slot) (suc valid.width) result
      → IsGrown ix (record ix { slots = result; capacity = ix.capacity * 2 })
  rehashed-IsGrown result fits done =
      let pages : used result ≡ ix.size =
        omega (arith, done.pages, used-replicate (2 ^ suc valid.width), valid.pages) in
      let valid' : IsValid (record ix { slots = result; capacity = ix.capacity * 2 }) = record {
        width = suc valid.width;
        table = done.valid;
        power = double;
        pages = pages;
        load = omega (arith, valid.load);
        even = (ix.capacity, omega arith, omega (arith, valid.even.2));
        small = omega (arith, fits);
      } in
      record {
        valid = valid';
        answers = λ j. elim (ℕ_discrete j 0) [
          | yes e ↦ rw e (get-zero _ ∙ sym (get-zero ix))
          | no hj ↦
              get-eq-find valid' j hj
              ∙ done.answers j hj
              ∙ ap (or_else (scan j ix.slots)) (find-empty (suc valid.width) j hj)
              ∙ or_else-none (scan j ix.slots)
              ∙ scan-eq-find ix.slots valid.width valid.table j hj
              ∙ sym (get-eq-find valid j hj)
        ];
        doubled = omega arith;
        same_size = refl;
      }

-- For a valid index, `grow` ends: it doubles the table and keeps every answer, or reports that there is no memory, and
-- that only if the allocator says so or the size would overflow.
pub grow_total :
    {ix : WalIndex} (calloc_succeeds : Bool)
    → IsValid ix
    → ((grown : WalIndex) × (grow calloc_succeeds ix ≡ some (ok grown)) × IsGrown ix grown)
      ⊎ ((grow calloc_succeeds ix ≡ some (err out_of_memory))
          × ((calloc_succeeds ≡ false) ⊎ (size_max / 16 < ix.capacity * 2)))
unfolding grow
grow_total {ix} false valid = inr (ground arith, inl refl)
grow_total {ix} true valid = elim (dec_lt (size_max / 16) (ix.capacity * 2)) [
  | yes large ↦ inr (ground arith, inr large)
  | no fits ↦
      let (result, run, done) =
        rehash_total ix.slots (replicate (2 ^ suc valid.width) empty_slot) (suc valid.width)
          (empty-IsTable (suc valid.width))
          (omega
            (arith, used-replicate (2 ^ suc valid.width), half_full valid, pow-suc 2 valid.width))
          (table-IsDistinct ix.slots valid.width valid.table)
          (IsFresh-empty ix.slots (2 ^ suc valid.width)) in
      inl (
        record ix { slots = result; capacity = ix.capacity * 2 },
        grow-run ix result (omega arith) (rw (double valid) run),
        rehashed-IsGrown valid result (omega arith) done,
      )
]
