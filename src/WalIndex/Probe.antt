-- ===== src/WalIndex/Probe.antt =====
-- Linear probing: where a probe stops, that it stops, and that writes off its path do not matter.
use native.Mathlib.Nat.{mod-lt, one-le-pow, mod-add-mod, mod-eq_of_lt}
use shibadb.Bits.{bit_and-mask}
use shibadb.WalIndex.{Slot, slot_at, home, probe, get_loop}
use shibadb.Prelude.{
  ℕ, zero, suc, ◌+◌, ◌-◌, ◌*◌, ◌%◌, ◌^◌, ◌<◌, ◌≡◌, ◌≢◌, ◌⊎◌, inl, inr, refl, sym, ap, ◌∙◌, arith,
  bit_and, List, [], ◌∷◌, set, length, none, some, Bool, ◌&&◌, not, ◌==◌, if◌then◌else◌, Bool-cases,
}

-- `slots[index]` after a write.
pub slot_at-set :
    (slots : List Slot) (e : ℕ) (s : Slot) (i : ℕ)
    → e < length slots
    → slot_at (set slots e s) i ≡ (if i == e then s else slot_at slots i)
slot_at-set [] e s i h = elim h [ ]
slot_at-set (x ∷ slots) zero s zero h = refl
slot_at-set (x ∷ slots) zero s (suc i) h = ground arith
slot_at-set (x ∷ slots) (suc e) s zero h = ground arith
slot_at-set (x ∷ slots) (suc e) s (suc i) h = slot_at-set slots e s i (omega arith) ∙ ground arith

module _ (mask page_id : ℕ) where
  -- A probe stops at an empty slot or at its page.
  pub probe_stops :
      (fuel : ℕ) (slots : List Slot) (index p : ℕ)
      → probe fuel slots mask index page_id ≡ some p
      → ((slot_at slots p).page_id ≡ 0) ⊎ ((slot_at slots p).page_id ≡ page_id)
  unfolding probe
  probe_stops zero slots index p h = cc
  probe_stops (suc fuel) slots index p h =
      ground (arith, probe_stops fuel slots (bit_and (index + 1) mask) p)

  -- Filling a slot that was empty does not move a page that was found.
  pub probe-set_other :
      (fuel : ℕ) (slots : List Slot) (index p e : ℕ) (s : Slot)
      → e < length slots
      → (slot_at slots e).page_id ≡ 0
      → page_id ≢ 0
      → (slot_at slots p).page_id ≡ page_id
      → probe fuel slots mask index page_id ≡ some p
      → probe fuel (set slots e s) mask index page_id ≡ some p
  unfolding probe
  probe-set_other zero slots index p e s he empty real here h = cc
  probe-set_other (suc fuel) slots index p e s he empty real here h = ground (
    arith,
    probe-set_other fuel slots (bit_and (index + 1) mask) p e s he empty real here,
    slot_at-set slots e s index he,
  )

  -- A page stored where its probe stopped is found there.
  pub probe-set_self :
      (fuel : ℕ) (slots : List Slot) (index e : ℕ) (s : Slot)
      → e < length slots
      → s.page_id ≡ page_id
      → probe fuel slots mask index page_id ≡ some e
      → probe fuel (set slots e s) mask index page_id ≡ some e
  unfolding probe
  probe-set_self zero slots index e s he own h = cc
  probe-set_self (suc fuel) slots index e s he own h = ground (
    arith,
    probe-set_self fuel slots (bit_and (index + 1) mask) e s he own,
    slot_at-set slots e s index he,
  )

  -- A probe sees the pages alone, not their offsets.
  pub probe-cong :
      (fuel : ℕ) (slots other : List Slot) (index : ℕ)
      → ((i : ℕ) → (slot_at other i).page_id ≡ (slot_at slots i).page_id)
      → probe fuel other mask index page_id ≡ probe fuel slots mask index page_id
  unfolding probe
  probe-cong zero slots other index same = refl
  probe-cong (suc fuel) slots other index same =
      rw (same index, probe-cong fuel slots other (bit_and (index + 1) mask) same)

  -- The reader's loop answers by the slot where the probe stops.
  pub get_loop-probe :
      (fuel : ℕ) (slots : List Slot) (index p : ℕ)
      → page_id ≢ 0
      → probe fuel slots mask index page_id ≡ some p
      → get_loop fuel slots mask index page_id
        ≡ (if (slot_at slots p).page_id == 0 then none else some (slot_at slots p).wal_offset)
  unfolding probe get_loop
  get_loop-probe zero slots index p real h = cc
  get_loop-probe (suc fuel) slots index p real h =
      ground (arith, get_loop-probe fuel slots (bit_and (index + 1) mask) p real)

  -- A page that no slot holds is not found.
  pub get_loop-absent :
      (fuel : ℕ) (slots : List Slot) (index : ℕ)
      → ((i : ℕ) → (slot_at slots i).page_id ≢ page_id)
      → get_loop fuel slots mask index page_id ≡ none
  unfolding get_loop
  get_loop-absent zero slots index h = refl
  get_loop-absent (suc fuel) slots index h =
      ground (arith, h index, get_loop-absent fuel slots (bit_and (index + 1) mask) h)

-- With a mask of `width` ones the next slot is the next one round the table.
pub next_slot : (width index : ℕ) → bit_and (index + 1) (2 ^ width - 1) ≡ (index + 1) % 2 ^ width
next_slot width index = bit_and-mask width (index + 1)

pub home-lt : (width page_id : ℕ) → home (2 ^ width - 1) page_id < 2 ^ width
unfolding home
home-lt width page_id =
    rw bit_and-mask (mod-lt (page_id * _ % 2 ^ 64) (one-le-pow width 2 (omega arith)))

-- One step nearer to a slot `d + 1` places on.
step_nearer : (n index d q : ℕ) → 0 < n → (index + suc d) % n ≡ q → ((index + 1) % n + d) % n ≡ q
step_nearer n index d q pos e = mod-add-mod (index + 1) n d ∙ ap (λ t. t % n) (omega arith) ∙ e

module _ (width page_id : ℕ) (slots : List Slot) (q : ℕ)
    (empty : (slot_at slots q).page_id ≡ 0) where
  abbrev goes_on : ℕ → Bool
  goes_on index =
      not ((slot_at slots index).page_id == 0) && not ((slot_at slots index).page_id == page_id)

  -- With an empty slot `d` places on, more than `d` rounds are enough.
  pub probe_total :
      (fuel index d : ℕ)
      → index < 2 ^ width
      → (index + d) % 2 ^ width ≡ q
      → d < fuel
      → (p : ℕ) × (probe fuel slots (2 ^ width - 1) index page_id ≡ some p) × (p < 2 ^ width)
  unfolding probe
  probe_total zero index d hi e hd = absurd (omega arith)
  probe_total (suc fuel) index zero hi e hd =
      let here : index ≡ q = sym (mod-eq_of_lt hi) ∙ ap (λ t. t % 2 ^ width) (omega arith) ∙ e in
      let stop : (slot_at slots index).page_id ≡ 0 = rw here empty in
      (index, rw stop (ground arith), hi)
  probe_total (suc fuel) index (suc d) hi e hd = elim (Bool-cases (goes_on index)) [
    | inl on ↦
        rw (on, next_slot width index)
          (probe_total fuel ((index + 1) % 2 ^ width) d
            (mod-lt (index + 1) (one-le-pow width 2 (omega arith)))
            (step_nearer (2 ^ width) index d q (one-le-pow width 2 (omega arith)) e) (omega arith))
    | inr stop ↦ (index, rw stop, hi)
  ]
