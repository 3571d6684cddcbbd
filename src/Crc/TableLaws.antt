-- ===== src/Crc/TableLaws.antt =====
-- Every entry of the eight tables is what the bitwise register makes of its index.
use shibadb.Crc.{entry}
use shibadb.Crc.Bitwise.{shift_bit, shift_bits}
use shibadb.Crc.Tables.{slice_0, slice_1, slice_2, slice_3, slice_4, slice_5, slice_6, slice_7}
use shibadb.Prelude.{
  ℕ, zero, suc, ◌+◌, ◌<◌, ◌≤◌, ◌≡◌, refl, arith, Bool, true, ◌&&◌, ◌==◌, List, ℕ_discrete,
}

-- The entries of the table from `first` on are what the bitwise definition gives.
abbrev agrees : ℕ → ℕ → ℕ → List ℕ → Bool
agrees bits zero first table = true
agrees bits (suc rounds) first table =
    agrees bits rounds (first + 1) table && entry table first == shift_bits bits first

agrees-entry :
    (bits rounds first index : ℕ) (table : List ℕ)
    → first ≤ index
    → index < first + rounds
    → agrees bits rounds first table ≡ true
    → entry table index ≡ shift_bits bits index
agrees-entry bits zero first index table low high h = absurd (omega arith)
agrees-entry bits (suc rounds) first index table low high h = elim (ℕ_discrete first index) [
  | yes e ↦ ground arith
  | no ne ↦
      agrees-entry bits rounds (first + 1) index table (omega arith) (omega arith) (ground arith)
]

agrees_sound :
    (bits : ℕ) (table : List ℕ)
    → agrees bits 256 0 table ≡ true
    → (index : ℕ) → index < 256
    → entry table index ≡ shift_bits bits index
agrees_sound bits table h index lt =
    agrees-entry bits 256 0 index table (omega arith) (omega arith) h

table_0 : agrees 8 256 0 slice_0 ≡ true
unfolding entry shift_bits shift_bit slice_0
table_0 = refl

table_1 : agrees 16 256 0 slice_1 ≡ true
unfolding entry shift_bits shift_bit slice_1
table_1 = refl

table_2 : agrees 24 256 0 slice_2 ≡ true
unfolding entry shift_bits shift_bit slice_2
table_2 = refl

table_3 : agrees 32 256 0 slice_3 ≡ true
unfolding entry shift_bits shift_bit slice_3
table_3 = refl

table_4 : agrees 40 256 0 slice_4 ≡ true
unfolding entry shift_bits shift_bit slice_4
table_4 = refl

table_5 : agrees 48 256 0 slice_5 ≡ true
unfolding entry shift_bits shift_bit slice_5
table_5 = refl

table_6 : agrees 56 256 0 slice_6 ≡ true
unfolding entry shift_bits shift_bit slice_6
table_6 = refl

table_7 : agrees 64 256 0 slice_7 ≡ true
unfolding entry shift_bits shift_bit slice_7
table_7 = refl

pub slice_0-entry : (i : ℕ) → i < 256 → entry slice_0 i ≡ shift_bits 8 i
slice_0-entry = agrees_sound 8 slice_0 table_0

pub slice_1-entry : (i : ℕ) → i < 256 → entry slice_1 i ≡ shift_bits 16 i
slice_1-entry = agrees_sound 16 slice_1 table_1

pub slice_2-entry : (i : ℕ) → i < 256 → entry slice_2 i ≡ shift_bits 24 i
slice_2-entry = agrees_sound 24 slice_2 table_2

pub slice_3-entry : (i : ℕ) → i < 256 → entry slice_3 i ≡ shift_bits 32 i
slice_3-entry = agrees_sound 32 slice_3 table_3

pub slice_4-entry : (i : ℕ) → i < 256 → entry slice_4 i ≡ shift_bits 40 i
slice_4-entry = agrees_sound 40 slice_4 table_4

pub slice_5-entry : (i : ℕ) → i < 256 → entry slice_5 i ≡ shift_bits 48 i
slice_5-entry = agrees_sound 48 slice_5 table_5

pub slice_6-entry : (i : ℕ) → i < 256 → entry slice_6 i ≡ shift_bits 56 i
slice_6-entry = agrees_sound 56 slice_6 table_6

pub slice_7-entry : (i : ℕ) → i < 256 → entry slice_7 i ≡ shift_bits 64 i
slice_7-entry = agrees_sound 64 slice_7 table_7
