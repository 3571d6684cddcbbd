-- ===== src/WalIndex/Grow.antt =====
-- Rehashing into a larger table: it ends, keeps the invariant and the number of pages, and answers
-- every lookup as before.
use shibadb.WalIndex.{Slot, slot_at, slot_for, rehash}
use shibadb.WalIndex.Probe.{slot_at-set}
use shibadb.WalIndex.Table.{IsTable, find, used, used-set, slot_for_total}
use shibadb.WalIndex.Write.{written-IsTable, find-written_self, find-written_ne, stopped}
use shibadb.Prelude.{
  ℕ, ◌+◌, ◌^◌, ◌<◌, ◌≡◌, ◌≢◌, refl, ◌∙◌, arith, List, [], ◌∷◌, set, length, Option, none, some,
  ◌==◌, if◌then◌else◌, ℕ_discrete,
}

-- No slot of the list holds the page.
abbrev pub NotIn : ℕ → List Slot → Type 0
NotIn k [] = Unit
NotIn k (s ∷ slots) = (s.page_id ≢ k) × NotIn k slots

-- No page stands twice.
abbrev pub IsDistinct : List Slot → Type 0
IsDistinct [] = Unit
IsDistinct (s ∷ slots) = (s.page_id ≢ 0 → NotIn s.page_id slots) × IsDistinct slots

-- No page of the list is in the table.
abbrev pub IsFresh : List Slot → List Slot → Type 0
IsFresh [] table = Unit
IsFresh (s ∷ slots) table =
    (s.page_id ≢ 0 → (i : ℕ) → (slot_at table i).page_id ≢ s.page_id) × IsFresh slots table

-- The offset of the first slot that holds the page.
abbrev pub scan : ℕ → List Slot → Option ℕ
scan j [] = none
scan j (s ∷ slots) = if s.page_id == j then some s.wal_offset else scan j slots

abbrev pub or_else : Option ℕ → Option ℕ → Option ℕ
or_else none y = y
or_else (some v) y = some v

scan-NotIn : (k : ℕ) (slots : List Slot) → NotIn k slots → scan k slots ≡ none
scan-NotIn k [] h = refl
scan-NotIn k (s ∷ slots) (ne, h) = ground (arith, scan-NotIn k slots h)

-- Writing a page that is not in the list leaves the rest fresh.
IsFresh-set :
    (slots table : List Slot) (e : ℕ) (s : Slot)
    → e < length table
    → NotIn s.page_id slots
    → IsFresh slots table
    → IsFresh slots (set table e s)
IsFresh-set [] table e s he out h = tt
IsFresh-set (x ∷ slots) table e s he (ne, out) (fresh, h) = (
  λ real i. ground (arith, slot_at-set table e s i he, fresh real i),
  IsFresh-set slots table e s he out h,
)

-- What the loop of the growth ends with.
pub record IsRehashed (rest table : List Slot) (width : ℕ) (result : List Slot) : Type 0 where
  pub valid : IsTable result width
  pub pages : used result ≡ used table + used rest
  pub answers : (j : ℕ) → j ≢ 0 → find result width j ≡ or_else (scan j rest) (find table width j)

rehash-skip :
    (s : Slot) (rest table : List Slot) (n : ℕ)
    → s.page_id ≡ 0
    → rehash (s ∷ rest) table n ≡ rehash rest table n
unfolding rehash
rehash-skip s rest table n e = ground arith

rehash-move :
    (s : Slot) (rest table : List Slot) (n e : ℕ)
    → s.page_id ≢ 0
    → slot_for table n s.page_id ≡ some e
    → rehash (s ∷ rest) table n ≡ rehash rest (set table e s) n
unfolding rehash
rehash-move s rest table n e real stop = ground arith

-- An empty slot of the old table adds nothing.
IsRehashed-skip :
    (s : Slot) (rest table result : List Slot) (width : ℕ)
    → s.page_id ≡ 0
    → IsRehashed rest table width result
    → IsRehashed (s ∷ rest) table width result
IsRehashed-skip s rest table result width e done = record {
  valid = done.valid;
  pages = ground (arith, done.pages);
  answers = λ j hj. ground (arith, done.answers j hj);
}

-- A page of the old table is written into the new one.
IsRehashed-move :
    (s : Slot) (rest table result : List Slot) (width e : ℕ)
    → IsTable table width
    → s.page_id ≢ 0
    → slot_for table (2 ^ width) s.page_id ≡ some e
    → e < 2 ^ width
    → (slot_at table e).page_id ≡ 0
    → NotIn s.page_id rest
    → IsRehashed rest (set table e s) width result
    → IsRehashed (s ∷ rest) table width result
IsRehashed-move s rest table result width e valid real stop inside empty alone done = record {
  valid = done.valid;
  pages = ground (arith, done.pages, used-set table e s (omega (arith, valid.count)) empty real);
  answers = λ j hj. elim (ℕ_discrete j s.page_id) [
    | yes own ↦ ground (
      arith,
      done.answers j hj,
      scan-NotIn s.page_id rest alone,
      find-written_self table width s.page_id s.wal_offset e valid real stop inside,
    )
    | no other ↦ ground (
      arith,
      done.answers j hj,
      find-written_ne table width s.page_id s.wal_offset e valid real stop inside j hj other,
    )
  ];
}

pub rehash_total :
    (rest table : List Slot) (width : ℕ)
    → IsTable table width
    → used table + used rest < 2 ^ width
    → IsDistinct rest
    → IsFresh rest table
    → (result : List Slot) × (rehash rest table (2 ^ width) ≡ some result)
      × IsRehashed rest table width result
unfolding rehash
rehash_total [] table width valid room distinct fresh =
    (table, refl, record { valid = valid; pages = omega arith; answers = λ j hj. refl })
rehash_total (s ∷ rest) table width valid room (alone, distinct) (new, fresh) =
    elim (ℕ_discrete s.page_id 0) [
      | yes e ↦
          let (result, run, done) =
            rehash_total rest table width valid (ground arith) distinct fresh in
          (
            result,
            rehash-skip s rest table (2 ^ width) e ∙ run,
            IsRehashed-skip s rest table result width e done,
          )
      | no real ↦
          let (e, stop, inside) = slot_for_total table width s.page_id valid (ground arith) in
          let empty : (slot_at table e).page_id ≡ 0 = ground (
            arith,
            stopped table width s.page_id s.wal_offset e valid real stop inside,
            new real e,
          ) in
          let he : e < length table = omega (arith, valid.count) in
          let (result, run, done) =
            rehash_total rest (set table e s) width
              (written-IsTable table width s.page_id s.wal_offset e valid real stop inside)
              (ground (arith, used-set table e s he empty real)) distinct
              (IsFresh-set rest table e s he (alone real) fresh) in
          (
            result,
            rehash-move s rest table (2 ^ width) e real stop ∙ run,
            IsRehashed-move s rest table result width e valid real stop inside empty (alone real)
                done,
          )
    ]
