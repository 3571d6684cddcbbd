-- ===== src/Tests/Index.antt =====
-- The log's page index at concrete inputs.
use shibadb.Status.{ok, err, out_of_memory}
use shibadb.WalIndex.{WalIndex, grow, clear, size_max}
use shibadb.WalIndex.Valid.{IsValid, IsGrown, grow_total}
use shibadb.WalIndex.Put.{PutOutcome, put_total}
use shibadb.WalIndex.Reset.{IsEmptyIndex, init_total, clear-IsEmptyIndex}
use shibadb.Prelude.{◌≡◌, arith, some, true, false, ◌<◌, ◌*◌, ◌/◌, ◌⊎◌}

-- The index that `init` makes.
abbrev fresh : WalIndex
fresh = init_total.0.0

fresh-IsValid : IsValid fresh
fresh-IsValid = init_total.0.2.valid

put_total_example : PutOutcome fresh true 7 4096
put_total_example = put_total true 7 4096 fresh-IsValid (omega arith)

grow_total_example :
    ((grown : WalIndex) × (grow true fresh ≡ some (ok grown)) × IsGrown fresh grown)
    ⊎ ((grow true fresh ≡ some (err out_of_memory))
        × ((true ≡ false) ⊎ (size_max / 16 < fresh.capacity * 2)))
grow_total_example = grow_total true fresh-IsValid

clear-IsEmptyIndex_example : IsEmptyIndex (clear fresh) × ((clear fresh).capacity ≡ fresh.capacity)
clear-IsEmptyIndex_example = clear-IsEmptyIndex fresh fresh-IsValid
