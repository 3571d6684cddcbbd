-- ===== src/WalIndex/Table.antt =====
-- A table in which every page is found where it is stored: the invariant of open addressing, and
-- what one write does to it.
use native.Mathlib.Nat.{mod-eq_of_lt}
use shibadb.WalIndex.{Slot, slot_at, home, get_loop, slot_for}
use shibadb.WalIndex.Probe.{get_loop-probe, home-lt, probe_total}
use shibadb.Prelude.{
  ℕ, zero, suc, ◌+◌, ◌-◌, ◌%◌, ◌^◌, ◌<◌, ◌≤◌, ◌≡◌, ◌≢◌, ◌⊎◌, inl, inr, refl, sym, ap, ◌∙◌, arith,
  List, [], ◌∷◌, set, length, Option, some, ◌==◌, if◌then◌else◌, ℕ_discrete, dec_lt,
}

-- The number of slots in use.
abbrev pub used : List Slot → ℕ
used [] = 0
used (s ∷ slots) = (if s.page_id == 0 then 0 else 1) + used slots

-- The invariant: a power of two of slots, and the probe for a stored page stops at its slot.
pub record IsTable (slots : List Slot) (width : ℕ) : Type 0 where
  pub count : length slots ≡ 2 ^ width
  pub findable :
      (p : ℕ)
      → (slot_at slots p).page_id ≢ 0
      → slot_for slots (2 ^ width) (slot_at slots p).page_id ≡ some p

-- What a lookup answers for a page.
abbrev pub find : List Slot → ℕ → ℕ → Option ℕ
find slots width page_id =
    get_loop (2 ^ width) slots (2 ^ width - 1) (home (2 ^ width - 1) page_id) page_id

-- A slot past the end reads as empty.
pub slot_at-past : (slots : List Slot) (i : ℕ) → length slots ≤ i → (slot_at slots i).page_id ≡ 0
slot_at-past [] i h = refl
slot_at-past (x ∷ slots) zero h = absurd (omega arith)
slot_at-past (x ∷ slots) (suc i) h = slot_at-past slots i (omega arith)

-- A page is in some slot, or in none.
pub present_or_absent :
    (slots : List Slot) (page_id : ℕ)
    → page_id ≢ 0
    → ((p : ℕ) × ((slot_at slots p).page_id ≡ page_id))
      ⊎ ((i : ℕ) → (slot_at slots i).page_id ≢ page_id)
present_or_absent [] page_id real = inr (λ i e. real (sym e))
present_or_absent (x ∷ slots) page_id real = elim (ℕ_discrete x.page_id page_id) [
  | yes e ↦ inl (0, e)
  | no ne ↦ elim (present_or_absent slots page_id real) [
    | inl (p, e) ↦ inl (suc p, e)
    | inr h ↦ inr (later ne h)
  ]
]
  where
    later :
        x.page_id ≢ page_id
        → ((i : ℕ) → (slot_at slots i).page_id ≢ page_id)
        → (i : ℕ) → (slot_at (x ∷ slots) i).page_id ≢ page_id
    later ne h zero = ne
    later ne h (suc i) = h i

-- A table that is not full has an empty slot.
pub empty_slot_exists :
    (slots : List Slot)
    → used slots < length slots
    → (q : ℕ) × (q < length slots) × ((slot_at slots q).page_id ≡ 0)
empty_slot_exists [] h = absurd (omega arith)
empty_slot_exists (x ∷ slots) h = elim (ℕ_discrete x.page_id 0) [
  | yes e ↦ (0, omega arith, e)
  | no ne ↦ let (q, hq, e) = empty_slot_exists slots (ground arith) in (suc q, omega arith, e)
]

-- Filling an empty slot uses one more.
pub used-set :
    (slots : List Slot) (e : ℕ) (s : Slot)
    → e < length slots
    → (slot_at slots e).page_id ≡ 0
    → s.page_id ≢ 0
    → used (set slots e s) ≡ used slots + 1
used-set [] e s h empty real = elim h [ ]
used-set (x ∷ slots) zero s h empty real = ground arith
used-set (x ∷ slots) (suc e) s h empty real =
    ground (arith, used-set slots e s (omega arith) empty real)

-- Replacing a page by itself uses no more.
pub used-update :
    (slots : List Slot) (e : ℕ) (s : Slot)
    → (slot_at slots e).page_id ≡ s.page_id
    → used (set slots e s) ≡ used slots
used-update [] e s own = refl
used-update (x ∷ slots) zero s own = ground arith
used-update (x ∷ slots) (suc e) s own = ground (arith, used-update slots e s own)

mod_wrap : (x n : ℕ) → x < n → (x + n) % n ≡ x
mod_wrap x n h = grind arith

-- The number of steps from one slot round to another.
distance : (n start q : ℕ) → start < n → q < n → (d : ℕ) × ((start + d) % n ≡ q) × (d < n)
distance n start q hs hq = elim (dec_lt q start) [
  | yes before ↦ (q + n - start, ap (λ t. t % n) (omega arith) ∙ mod_wrap q n hq, omega arith)
  | no ahead ↦ (q - start, ap (λ t. t % n) (omega arith) ∙ mod-eq_of_lt hq, omega arith)
]

module _ (slots : List Slot) (width : ℕ) (page_id : ℕ) (valid : IsTable slots width) where
  -- The probe for any page stops within one round of a table that is not full.
  pub slot_for_total :
      used slots < 2 ^ width
      → (p : ℕ) × (slot_for slots (2 ^ width) page_id ≡ some p) × (p < 2 ^ width)
  unfolding slot_for
  slot_for_total room =
      let (q, hq, empty) = empty_slot_exists slots (rw valid.count room) in
      let start : ℕ = home (2 ^ width - 1) page_id in
      let hs : start < 2 ^ width = home-lt width page_id in
      let (d, e, hd) = distance (2 ^ width) start q hs (rw valid.count at hq) in
      probe_total width page_id slots q empty (2 ^ width) start d hs e hd

  -- A page that is stored is found, with its offset.
  pub find-present :
      (p : ℕ)
      → page_id ≢ 0
      → (slot_at slots p).page_id ≡ page_id
      → find slots width page_id ≡ some (slot_at slots p).wal_offset
  unfolding slot_for
  find-present p real e =
      get_loop-probe (2 ^ width - 1) page_id (2 ^ width) slots (home (2 ^ width - 1) page_id) p real
        (rw e at (valid.findable p (rw e real)))
      ∙ ground arith
