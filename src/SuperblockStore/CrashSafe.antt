-- ===== src/SuperblockStore/CrashSafe.antt =====
-- The writes of an update, stopped at any of them.
use shibadb.File.{File, write_at, write_full, sync}
use shibadb.Status.{Result, ok, err}
use shibadb.Superblock.{Superblock}
use shibadb.SuperblockStore.{Slot, mirror, install, slot_offset, select_slot}
use shibadb.SuperblockStore.Choice.{Reads, Beats, select_slot-first, select_slot-second}
use shibadb.SuperblockStore.Slots.{
  at_slot, reopen, read_file-eq, length-write_at, at_slot-write_at, at_slot-write_at_other,
}
use shibadb.Prelude.{
  ℕ, zero, suc, ◌*◌, ◌<◌, ◌≤◌, ◌≡◌, ◌⊎◌, inl, inr, refl, sym, ap, subst, ◌∙◌, arith, List, [], take,
  length, Option, none, some, take-length,
}

-- A slot that is half written is not valid, or holds one of the two superblocks or an older one.
abbrev pub Harmless : Superblock → Superblock → Option Slot → Type 0
Harmless old new none = Unit
Harmless old new (some torn) = (torn.decoded ≡ new) ⊎ Beats old (some torn)

-- What the file holds after an update: the new superblock if the update succeeded, else one of the two.
abbrev pub Safe : Superblock → Superblock → Result (Unit {0}) × File → Type 0
Safe old new (ok done, file) = Reads (reopen file.bytes) new
Safe old new (err e, file) = Reads (reopen file.bytes) old ⊎ Reads (reopen file.bytes) new

-- The slot that was selected, and the other.
abbrev pub Pair : ℕ → ℕ → Type 0
Pair k j = ((k ≡ 0) × (j ≡ 1)) ⊎ ((k ≡ 1) × (j ≡ 0))

flip : (k j : ℕ) → Pair k j → Pair j k
flip k j pair = omega arith

pub reopen-eq :
    (bytes : List ℕ)
    → 8192 ≤ length bytes
    → reopen bytes ≡ select_slot (at_slot bytes 0) (at_slot bytes 1)
reopen-eq bytes long = ap (λ p. p.0) (read_file-eq bytes [] 0 long)

reopen-Reads :
    (bytes : List ℕ) (k j : ℕ) (top : Slot)
    → 8192 ≤ length bytes
    → Pair k j
    → at_slot bytes k ≡ some top
    → Beats top.decoded (at_slot bytes j)
    → Reads (reopen bytes) top.decoded
reopen-Reads bytes k j top long (inl (ek, ej)) e beats =
    subst (λ r. Reads r top.decoded)
      (sym (
        reopen-eq bytes long
        ∙ ap (λ m. select_slot m (at_slot bytes 1)) (sym (ap (at_slot bytes) ek) ∙ e)))
      (select_slot-first top (at_slot bytes 1)
        (subst (λ i. Beats top.decoded (at_slot bytes i)) ej beats))
reopen-Reads bytes k j top long (inr (ek, ej)) e beats =
    subst (λ r. Reads r top.decoded)
      (sym (
        reopen-eq bytes long
        ∙ ap (select_slot (at_slot bytes 0)) (sym (ap (at_slot bytes) ek) ∙ e)))
      (select_slot-second top (at_slot bytes 0)
        (subst (λ i. Beats top.decoded (at_slot bytes i)) ej beats))

-- One write to the slot that was not selected, and then one to the other.
module _ (bytes : List ℕ) (k j : ℕ) (pair : Pair k j) (long : 8192 ≤ length bytes) (old : Slot)
    (selected : at_slot bytes k ≡ some old) (beats : Beats old.decoded (at_slot bytes j))
    (new : Slot) (whole : length new.slot_bytes ≡ 4096) (valid : mirror new.slot_bytes ≡ some new)
    (newer : old.decoded.generation < new.decoded.generation) (torn : List ℕ)
    (torn_size : length torn ≡ 4096)
    (harmless : Harmless old.decoded new.decoded (mirror torn)) where
  abbrev first : List ℕ
  first = write_at bytes (j * 4096) new.slot_bytes

  first_slot : at_slot first j ≡ some new
  first_slot = at_slot-write_at bytes new.slot_bytes long whole j (omega arith) ∙ valid

  length-first : 8192 ≤ length first
  length-first = length-write_at bytes new.slot_bytes long whole j

  read_first : Reads (reopen first) new.decoded
  read_first = reopen-Reads first j k new length-first (flip k j pair) first_slot (
      subst (Beats new.decoded)
        (sym (
          at_slot-write_at_other bytes new.slot_bytes long whole j k (omega arith) (omega arith)
            (omega arith)
          ∙ selected))
        (inr newer))

  -- The second write, of anything that the new superblock beats.
  read_second_any :
      (input : List ℕ)
      → length input ≡ 4096
      → Beats new.decoded (mirror input)
      → Reads (reopen (write_at first (k * 4096) input)) new.decoded
  read_second_any input size wins =
      reopen-Reads (write_at first (k * 4096) input) j k new
        (length-write_at first input length-first size k) (flip k j pair)
        (at_slot-write_at_other first input length-first size k j (omega arith) (omega arith)
            (omega arith)
          ∙ first_slot)
        (subst (Beats new.decoded)
          (sym (at_slot-write_at first input length-first size k (omega arith))) wins)

  Harmless-Beats : (m : Option Slot) → Harmless old.decoded new.decoded m → Beats new.decoded m
  Harmless-Beats none h = tt
  Harmless-Beats (some t) (inl e) = inl e
  Harmless-Beats (some t) (inr (inl e)) =
      inr (subst (λ s. s.generation < new.decoded.generation) (sym e) newer)
  Harmless-Beats (some t) (inr (inr older)) = inr (omega arith)

  read_second : Reads (reopen (write_at first (k * 4096) new.slot_bytes)) new.decoded
  read_second =
      read_second_any new.slot_bytes whole (subst (Beats new.decoded) (sym valid) (inl refl))

  read_second_torn : Reads (reopen (write_at first (k * 4096) torn)) new.decoded
  read_second_torn = read_second_any torn torn_size (Harmless-Beats (mirror torn) harmless)

  abbrev torn_at : List ℕ
  torn_at = write_at bytes (j * 4096) torn

  torn_other : at_slot torn_at k ≡ some old
  torn_other =
      at_slot-write_at_other bytes torn long torn_size j k (omega arith) (omega arith) (omega arith)
      ∙ selected

  torn_slot : at_slot torn_at j ≡ mirror torn
  torn_slot = at_slot-write_at bytes torn long torn_size j (omega arith)

  read_old : Beats old.decoded (mirror torn) → Reads (reopen torn_at) old.decoded
  read_old wins =
      reopen-Reads torn_at k j old (length-write_at bytes torn long torn_size j) pair torn_other
        (subst (Beats old.decoded) (sym torn_slot) wins)

  read_first_torn : Reads (reopen torn_at) old.decoded ⊎ Reads (reopen torn_at) new.decoded
  read_first_torn = go (mirror torn) refl harmless
    where
      go :
          (m : Option Slot)
          → mirror torn ≡ m
          → Harmless old.decoded new.decoded m
          → Reads (reopen torn_at) old.decoded ⊎ Reads (reopen torn_at) new.decoded
      go none e h = inl (read_old (subst (Beats old.decoded) (sym e) tt))
      go (some t) e (inr h) = inl (read_old (subst (Beats old.decoded) (sym e) h))
      go (some t) e (inl same) = inr (
          subst (Reads (reopen torn_at)) same (
            reopen-Reads torn_at j k t (length-write_at bytes torn long torn_size j) (flip k j pair)
              (torn_slot ∙ e)
              (subst (Beats t.decoded) (sym torn_other)
                (inr (subst (λ s. old.decoded.generation < s.generation) (sym same) newer)))))

  torn_input : take (length new.slot_bytes) torn ≡ torn
  torn_input = take-length (length new.slot_bytes) torn (omega arith)

  -- Wherever the device fails.
  pub install-Safe :
      (budget : ℕ)
      → Safe old.decoded new.decoded
          (install j k new.slot_bytes (record { bytes = bytes; budget = budget; torn = torn }))
  unfolding install write_full sync slot_offset
  install-Safe zero =
      subst
        (λ input.
          Reads (reopen (write_at bytes (j * 4096) input)) old.decoded
          ⊎ Reads (reopen (write_at bytes (j * 4096) input)) new.decoded)
        (sym torn_input) read_first_torn
  install-Safe (suc zero) = inr read_first
  install-Safe (suc (suc zero)) = inr (
      subst (λ input. Reads (reopen (write_at first (k * 4096) input)) new.decoded) (sym torn_input)
        read_second_torn)
  install-Safe (suc (suc (suc zero))) = inr read_second
  install-Safe (suc (suc (suc (suc n)))) = read_second
