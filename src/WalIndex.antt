-- ===== src/WalIndex.antt =====
-- src/wal_index.c: the hash map from a page to the offset of its newest frame in the log, with open
-- addressing, linear probing and doubling.
pub mod Probe
pub mod Table
pub mod Write
pub mod Grow
pub mod Contents
pub mod Valid
pub mod Insert
pub mod Put
pub mod Reset
use shibadb.Status.{Result, ok, err, Status, invalid_argument, out_of_memory}
use shibadb.Prelude.{
  ℕ, zero, suc, ◌+◌, ◌-◌, ◌*◌, ◌/◌, ◌%◌, ◌^◌, bit_and, List, [], ◌∷◌, get_or, set, length,
  replicate, Option, none, some, Bool, true, false, ◌&&◌, ◌||◌, not, ◌==◌, ltb, leb, if◌then◌else◌,
}

-- `sdb_wal_index_slot`; `page_id` 0 marks an empty slot.
pub record Slot : Type 0 where
  pub page_id : ℕ
  pub wal_offset : ℕ

abbrev pub empty_slot : Slot
empty_slot = record { page_id = 0; wal_offset = 0 }

-- `sdb_wal_index`. `slots == NULL` is the empty list, with capacity 0.
pub record WalIndex : Type 0 where
  pub slots : List Slot
  pub capacity : ℕ
  pub size : ℕ

abbrev pub hash_mul : ℕ
hash_mul = 11400714819323198485

abbrev pub initial_capacity : ℕ
initial_capacity = 16

abbrev pub size_max : ℕ
size_max = 2 ^ 64 - 1

-- `slots[index]`; the index is masked, so it is in range.
abbrev pub slot_at : List Slot → ℕ → Slot
slot_at slots index = get_or slots index empty_slot

-- `(page_id * SDB_WAL_INDEX_HASH_MUL) & mask`
unfoldable pub home : ℕ → ℕ → ℕ
home mask page_id = bit_and (page_id * hash_mul % 2 ^ 64) mask

-- The loop of `sdb_wal_index_slot_for`; `none` if it has not stopped after `fuel` rounds.
unfoldable pub probe : ℕ → List Slot → ℕ → ℕ → ℕ → Option ℕ
probe zero slots mask index page_id = none
probe (suc fuel) slots mask index page_id =
    let rest = probe fuel slots mask (bit_and (index + 1) mask) page_id in
    if not ((slot_at slots index).page_id == 0) && not ((slot_at slots index).page_id == page_id)
    then rest
    else some index

-- As many rounds as there are slots.
unfoldable pub slot_for : List Slot → ℕ → ℕ → Option ℕ
slot_for slots capacity page_id =
    probe capacity slots (capacity - 1) (home (capacity - 1) page_id) page_id

-- The loop of `sdb_wal_index_grow` over the slots that are left.
unfoldable pub rehash : List Slot → List Slot → ℕ → Option (List Slot)
rehash [] new_slots new_capacity = some new_slots
rehash (s ∷ slots) new_slots new_capacity = elim (s.page_id == 0) [
  | true ↦ rehash slots new_slots new_capacity
  | false ↦ elim (slot_for new_slots new_capacity s.page_id) [
    | none ↦ none
    | some target ↦
        rehash slots
          (set new_slots target (record { page_id = s.page_id; wal_offset = s.wal_offset }))
          new_capacity
  ]
]

-- `calloc_succeeds` is what the allocator answers. `none`: a probe has not stopped.
unfoldable pub grow : Bool → WalIndex → Option (Result WalIndex)
unfolding rehash
grow calloc_succeeds ix =
    if ltb (size_max / 2) ix.capacity
    then some (err out_of_memory)
    else if ltb (size_max / 16) (ix.capacity * 2) || not calloc_succeeds
    then some (err out_of_memory)
    else elim (rehash ix.slots (replicate (ix.capacity * 2) empty_slot) (ix.capacity * 2)) [
      | none ↦ none
      | some new_slots ↦ some (ok (record ix { slots = new_slots; capacity = ix.capacity * 2 }))
    ]

unfoldable pub init : Bool → Result WalIndex
init calloc_succeeds =
    if not calloc_succeeds
    then err out_of_memory
    else ok (record {
      slots = replicate initial_capacity empty_slot;
      capacity = initial_capacity;
      size = 0;
    })

-- `sdb_wal_index_free`
unfoldable pub free : WalIndex → WalIndex
free ix = record { slots = []; capacity = 0; size = 0 }

abbrev pub is_null : List Slot → Bool
is_null [] = true
is_null (s ∷ slots) = false

-- The writes at the end of `sdb_wal_index_put`: a new entry in slot `index`.
unfoldable pub store_new : WalIndex → ℕ → ℕ → ℕ → WalIndex
store_new ix index page_id wal_offset = record ix {
  slots = set ix.slots index (record { page_id = page_id; wal_offset = wal_offset });
  size = (ix.size + 1) % 2 ^ 64;
}

unfoldable pub insert_new : WalIndex → ℕ → ℕ → Option (Result WalIndex)
unfolding store_new
insert_new ix page_id wal_offset = elim (slot_for ix.slots ix.capacity page_id) [
  | none ↦ none
  | some index ↦ some (ok (store_new ix index page_id wal_offset))
]

-- An error leaves the index as it was; `none`: a probe has not stopped.
unfoldable pub put : Bool → WalIndex → ℕ → ℕ → Option (Result WalIndex)
unfolding grow insert_new store_new
put calloc_succeeds ix page_id wal_offset =
    if is_null ix.slots || page_id == 0
    then some (err invalid_argument)
    else elim (slot_for ix.slots ix.capacity page_id) [
      | none ↦ none
      | some index ↦
          if (slot_at ix.slots index).page_id == page_id
          then some (
              ok (record ix {
                slots = set ix.slots index (record { page_id = page_id; wal_offset = wal_offset });
              }))
          else if leb ix.capacity (ix.size * 2 % 2 ^ 64)
          then elim (grow calloc_succeeds ix) [
            | none ↦ none
            | some (err e) ↦ some (err e)
            | some (ok grown) ↦ insert_new grown page_id wal_offset
          ]
          else some (ok (store_new ix index page_id wal_offset))
    ]

-- The loop of `sdb_wal_index_get`, with `probes` rounds left.
unfoldable pub get_loop : ℕ → List Slot → ℕ → ℕ → ℕ → Option ℕ
get_loop zero slots mask index page_id = none
get_loop (suc probes) slots mask index page_id =
    let rest = get_loop probes slots mask (bit_and (index + 1) mask) page_id in
    if (slot_at slots index).page_id == 0
    then none
    else if (slot_at slots index).page_id == page_id
    then some (slot_at slots index).wal_offset
    else rest

-- `some offset` is the result `true` with `*offset_out` set.
unfoldable pub get : WalIndex → ℕ → Option ℕ
unfolding get_loop
get ix page_id =
    if is_null ix.slots || page_id == 0
    then none
    else get_loop ix.capacity ix.slots (ix.capacity - 1) (home (ix.capacity - 1) page_id) page_id

unfoldable pub clear : WalIndex → WalIndex
clear ix =
    if is_null ix.slots
    then ix
    else record ix { slots = replicate ix.capacity empty_slot; size = 0 }
