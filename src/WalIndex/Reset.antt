-- ===== src/WalIndex/Reset.antt =====
-- The empty index: `init` and `clear`.
use native.Mathlib.Nat.{one-le-pow, pow-suc, mul_comm}
use shibadb.Status.{ok, err, out_of_memory}
use shibadb.WalIndex.{WalIndex, empty_slot, init, get, clear, is_null}
use shibadb.WalIndex.Contents.{empty-IsTable, find-empty, used-replicate}
use shibadb.Prelude.{
  ℕ, zero, suc, ◌*◌, ◌^◌, ◌≤◌, ◌≡◌, refl, sym, ap, ◌∙◌, arith, replicate, none, true, false,
  ℕ_discrete,
}
use shibadb.WalIndex.Valid.{IsValid, IsValid-not_null, get-eq-find, get-zero}

-- A fresh index is valid and holds no page; without memory there is none.
pub record IsEmptyIndex (ix : WalIndex) : Type 0 where
  pub valid : IsValid ix
  pub nothing : (j : ℕ) → get ix j ≡ none
  pub no_pages : ix.size ≡ 0

cleared-IsEmptyIndex :
    (width : ℕ)
    → 1 ≤ width
    → 2 ^ width ≤ 2 ^ 60
    → IsEmptyIndex
        (record { slots = replicate (2 ^ width) empty_slot; capacity = 2 ^ width; size = 0 })
cleared-IsEmptyIndex zero h small = absurd (omega arith)
cleared-IsEmptyIndex (suc width) h small = record {
  valid = valid;
  nothing = λ j. elim (ℕ_discrete j 0) [
    | yes e ↦ rw e (get-zero _)
    | no hj ↦ get-eq-find valid j hj ∙ find-empty (suc width) j hj
  ];
  no_pages = refl;
}
  where
    valid : IsValid (record {
      slots = replicate (2 ^ suc width) empty_slot;
      capacity = 2 ^ suc width;
      size = 0;
    })
    valid = record {
      width = suc width;
      table = empty-IsTable (suc width);
      power = refl;
      pages = used-replicate (2 ^ suc width);
      load = omega arith;
      even =
          (2 ^ width, pow-suc 2 width ∙ mul_comm (2 ^ width) 2, one-le-pow width 2 (omega arith));
      small = small;
    }

-- `init` gives a valid index without pages where the allocator succeeds, and reports out of memory
-- where it fails.
pub init_total :
    ((ix : WalIndex) × (init true ≡ ok ix) × IsEmptyIndex ix) × (init false ≡ err out_of_memory)
unfolding init
init_total = ((_, refl, cleared-IsEmptyIndex 4 (omega arith) (omega arith)), refl)

clear-eq :
    (ix : WalIndex)
    → is_null ix.slots ≡ false
    → clear ix
      ≡ record { slots = replicate ix.capacity empty_slot; capacity = ix.capacity; size = 0 }
unfolding clear
clear-eq ix h = ground (arith, h)

width_positive : (width half : ℕ) → 2 ^ width ≡ 2 * half → 1 ≤ width
width_positive zero half e = absurd (omega arith)
width_positive (suc width) half e = omega arith

-- `clear` of a valid index forgets every page and keeps the capacity.
pub clear-IsEmptyIndex :
    (ix : WalIndex) → IsValid ix → IsEmptyIndex (clear ix) × ((clear ix).capacity ≡ ix.capacity)
clear-IsEmptyIndex ix valid =
    let eq = clear-eq ix (IsValid-not_null valid) in
    (
      rw (eq, valid.power)
          (cleared-IsEmptyIndex valid.width
            (width_positive valid.width valid.even.0 (sym valid.power ∙ valid.even.1))
            (omega (arith, valid.power, valid.small))),
      ap (λ x. x.capacity) eq,
    )
