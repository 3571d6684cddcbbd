-- ===== src/WalIndex/Contents.antt =====
-- The pages of a table: none stands twice, and the table of a fresh allocation holds none.
use shibadb.WalIndex.{Slot, empty_slot, slot_at}
use shibadb.WalIndex.Probe.{get_loop-absent}
use shibadb.WalIndex.Table.{IsTable, find, find-present, present_or_absent, used}
use shibadb.WalIndex.Grow.{NotIn, IsDistinct, IsFresh, scan}
use shibadb.Prelude.{
  ℕ, zero, suc, ◌^◌, ◌≡◌, ◌≢◌, inl, inr, refl, sym, ap, ◌∙◌, arith, List, [], ◌∷◌, length-replicate,
  replicate, none, some, ℕ_discrete,
}

absent-NotIn :
    (k : ℕ) (slots : List Slot) → k ≢ 0 → ((i : ℕ) → (slot_at slots i).page_id ≢ k) → NotIn k slots
absent-NotIn k [] real h = tt
absent-NotIn k (s ∷ slots) real h = (h 0, absent-NotIn k slots real (λ i. h (suc i)))

unique-IsDistinct :
    (slots : List Slot)
    → ((p q : ℕ)
        → (slot_at slots p).page_id ≢ 0
        → (slot_at slots p).page_id ≡ (slot_at slots q).page_id
        → p ≡ q)
    → IsDistinct slots
unique-IsDistinct [] h = tt
unique-IsDistinct (s ∷ slots) h = (
  λ real.
      absent-NotIn s.page_id slots real (λ i e. absurd (omega (arith, h 0 (suc i) real (sym e)))),
  unique-IsDistinct slots (λ p q real e. omega (arith, h (suc p) (suc q) real e)),
)

-- The first slot that holds a page that some slot holds.
scan_found :
    (j : ℕ) (slots : List Slot) (p : ℕ)
    → j ≢ 0
    → (slot_at slots p).page_id ≡ j
    → (q : ℕ) × ((slot_at slots q).page_id ≡ j) × (scan j slots ≡ some (slot_at slots q).wal_offset)
scan_found j [] p hj e = absurd (hj (sym e))
scan_found j (s ∷ slots) zero hj e = (0, e, ground arith)
scan_found j (s ∷ slots) (suc p) hj e = elim (ℕ_discrete s.page_id j) [
  | yes own ↦ (0, own, ground arith)
  | no other ↦ let (q, at_q, eq) = scan_found j slots p hj e in (suc q, at_q, ground arith)
]

scan_absent :
    (j : ℕ) (slots : List Slot) → ((i : ℕ) → (slot_at slots i).page_id ≢ j) → scan j slots ≡ none
scan_absent j [] h = refl
scan_absent j (s ∷ slots) h = ground (arith, h 0, scan_absent j slots (λ i. h (suc i)))

module _ (slots : List Slot) (width : ℕ) (valid : IsTable slots width) where
  pub unique :
      (p q : ℕ)
      → (slot_at slots p).page_id ≢ 0
      → (slot_at slots p).page_id ≡ (slot_at slots q).page_id
      → p ≡ q
  unique p q real e = cc (valid.findable p real, valid.findable q (rw e at real), e)

  pub table-IsDistinct : IsDistinct slots
  table-IsDistinct = unique-IsDistinct slots unique

  pub scan-eq-find : (j : ℕ) → j ≢ 0 → scan j slots ≡ find slots width j
  scan-eq-find j hj = elim (present_or_absent slots j hj) [
    | inl (p, e) ↦
        let (q, at_q, eq) = scan_found j slots p hj e in
        eq ∙ sym (find-present slots width j valid q hj at_q)
    | inr absent ↦ scan_absent j slots absent ∙ sym (get_loop-absent _ j (2 ^ width) slots _ absent)
  ]

-- The table of a fresh allocation.
slot_at-replicate : (n i : ℕ) → slot_at (replicate n empty_slot) i ≡ empty_slot
slot_at-replicate zero i = refl
slot_at-replicate (suc n) zero = refl
slot_at-replicate (suc n) (suc i) = slot_at-replicate n i

pub used-replicate : (n : ℕ) → used (replicate n empty_slot) ≡ 0
used-replicate zero = refl
used-replicate (suc n) = ground (arith, used-replicate n)

pub empty-IsTable : (width : ℕ) → IsTable (replicate (2 ^ width) empty_slot) width
empty-IsTable width = record {
  count = length-replicate (2 ^ width) empty_slot;
  findable = λ p real. absurd (real (ap (λ s. s.page_id) (slot_at-replicate (2 ^ width) p)));
}

pub find-empty : (width j : ℕ) → j ≢ 0 → find (replicate (2 ^ width) empty_slot) width j ≡ none
find-empty width j hj =
    get_loop-absent _ j (2 ^ width) _ _
      (λ i e. hj (sym e ∙ ap (λ s. s.page_id) (slot_at-replicate (2 ^ width) i)))

pub IsFresh-empty : (rest : List Slot) (n : ℕ) → IsFresh rest (replicate n empty_slot)
IsFresh-empty [] n = tt
IsFresh-empty (s ∷ rest) n =
    (λ real i e. real (sym e ∙ ap (λ s. s.page_id) (slot_at-replicate n i)), IsFresh-empty rest n)
