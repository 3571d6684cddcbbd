-- ===== src/SuperblockStore/Choice.antt =====
-- The choice between two slots: the one that beats the other is chosen wherever it stands.
use shibadb.Bytes.Laws.{same_bytes_refl, same_bytes-eq}
use shibadb.Status.{Result, ok, err}
use shibadb.Superblock.{Superblock}
use shibadb.SuperblockStore.{Slot, ReadResult, result_of, select_slot, superblocks_equal}
use shibadb.Prelude.{
  ℕ, ◌<◌, ◌≡◌, ◌⊎◌, inl, inr, refl, sym, subst, arith, Option, none, some, true, false, ◌==◌, ltb,
  ==_refl, and-eq_true, Bool-cases, ltb→lt, le→ltb, lt→ltb,
}

lt→== : (a b : ℕ) → a < b → (a == b) ≡ false
lt→== a b h = ground arith

lt→==' : (a b : ℕ) → a < b → (b == a) ≡ false
lt→==' a b h = ground arith

-- A reader takes this superblock.
abbrev pub Reads : Result ReadResult → Superblock → Type 0
Reads (ok r) sb = r.superblock ≡ sb
Reads (err e) sb = ⊥

-- The other slot is not valid, or holds the same superblock or an older one.
abbrev pub Beats : Superblock → Option Slot → Type 0
Beats sb none = Unit
Beats sb (some other) = (other.decoded ≡ sb) ⊎ (other.decoded.generation < sb.generation)

superblocks_equal_refl : (sb : Superblock) → superblocks_equal sb sb ≡ true
unfolding superblocks_equal
superblocks_equal_refl sb = simp (==_refl, same_bytes_refl)

pub select_slot-first :
    (top : Slot) (other : Option Slot)
    → Beats top.decoded other
    → Reads (select_slot (some top) other) top.decoded
unfolding select_slot result_of
select_slot-first top none h = refl
select_slot-first top (some other) (inl e) =
    rw
      (
        e,
        ==_refl top.decoded.generation,
        superblocks_equal_refl top.decoded,
        le→ltb top.decoded.generation top.decoded.generation (omega arith),
      )
      refl
select_slot-first top (some other) (inr h) =
    rw
      (
        lt→==' other.decoded.generation top.decoded.generation h,
        le→ltb top.decoded.generation other.decoded.generation (omega arith),
      )
      refl

pub select_slot-second :
    (top : Slot) (other : Option Slot)
    → Beats top.decoded other
    → Reads (select_slot other (some top)) top.decoded
unfolding select_slot result_of
select_slot-second top none h = refl
select_slot-second top (some other) (inl e) =
    rw
      (
        e,
        ==_refl top.decoded.generation,
        superblocks_equal_refl top.decoded,
        le→ltb top.decoded.generation top.decoded.generation (omega arith),
      )
      refl
select_slot-second top (some other) (inr h) =
    rw
      (
        lt→== other.decoded.generation top.decoded.generation h,
        lt→ltb other.decoded.generation top.decoded.generation h,
      )
      refl

-- The superblock that was selected, and the slot it stands in, which beats the other one.
abbrev pub Selects : ReadResult → Option Slot → Option Slot → Type 0
Selects c top other =
    (slot : Slot) × (top ≡ some slot) × (slot.decoded ≡ c.superblock) × Beats c.superblock other

abbrev Selected : Result ReadResult → Option Slot → Option Slot → Type 0
Selected (ok c) m0 m1 =
    ((c.selected_slot ≡ 0) × Selects c m0 m1) ⊎ ((c.selected_slot ≡ 1) × Selects c m1 m0)
Selected (err e) m0 m1 = Unit

eq_of_== : (a b : ℕ) → (a == b) ≡ true → a ≡ b
eq_of_== a b h = ground arith

newest : (a b : ℕ) → (a == b) ≡ false → ltb a b ≡ false → b < a
newest a b h k = ground arith

superblocks_equal-eq : (a b : Superblock) → superblocks_equal a b ≡ true → b ≡ a
unfolding superblocks_equal
superblocks_equal-eq a b h =
    let (r12, p12) = and-eq_true _ _ h in
    let (r11, p11) = and-eq_true _ _ r12 in
    let (r10, p10) = and-eq_true _ _ r11 in
    let (r9, p9) = and-eq_true _ _ r10 in
    let (r8, p8) = and-eq_true _ _ r9 in
    let (r7, p7) = and-eq_true _ _ r8 in
    let (r6, p6) = and-eq_true _ _ r7 in
    let (r5, p5) = and-eq_true _ _ r6 in
    let (r4, p4) = and-eq_true _ _ r5 in
    let (r3, p3) = and-eq_true _ _ r4 in
    let (r2, p2) = and-eq_true _ _ r3 in
    let (r1, p1) = and-eq_true _ _ r2 in
    λ i. record {
      page_size = sym (eq_of_== a.page_size b.page_size r1) i;
      flags = sym (eq_of_== a.flags b.flags p1) i;
      generation = sym (eq_of_== a.generation b.generation p2) i;
      checkpoint_lsn = sym (eq_of_== a.checkpoint_lsn b.checkpoint_lsn p3) i;
      root_page = sym (eq_of_== a.root_page b.root_page p4) i;
      freelist_page = sym (eq_of_== a.freelist_page b.freelist_page p5) i;
      next_page_id = sym (eq_of_== a.next_page_id b.next_page_id p6) i;
      key_wrap_id = sym (eq_of_== a.key_wrap_id b.key_wrap_id p7) i;
      kdf_iterations = sym (eq_of_== a.kdf_iterations b.kdf_iterations p8) i;
      salt = sym (same_bytes-eq a.salt b.salt p9) i;
      file_id = sym (same_bytes-eq a.file_id b.file_id p10) i;
      wrapped_key = sym (same_bytes-eq a.wrapped_key b.wrapped_key p11) i;
      key_wrap_tag = sym (same_bytes-eq a.key_wrap_tag b.key_wrap_tag p12) i;
    }

both-Selected :
    (first second : Slot)
    → Selected (select_slot (some first) (some second)) (some first) (some second)
unfolding select_slot result_of
both-Selected first second =
    elim (Bool-cases (first.decoded.generation == second.decoded.generation)) [
      | inl same ↦ elim (Bool-cases (superblocks_equal first.decoded second.decoded)) [
        | inl equal ↦
            rw
              (
                same,
                equal,
                le→ltb first.decoded.generation second.decoded.generation (
                    omega
                      (arith, eq_of_== first.decoded.generation second.decoded.generation same)),
              )
              (inl (
                refl,
                (first, refl, refl, inl (superblocks_equal-eq first.decoded second.decoded equal)),
              ))
        | inr differ ↦ rw (same, differ) tt
      ]
      | inr apart ↦ elim (Bool-cases (ltb first.decoded.generation second.decoded.generation)) [
        | inl newer ↦
            rw (apart, newer)
              (inr (
                refl,
                (
                  second,
                  refl,
                  refl,
                  inr (ltb→lt first.decoded.generation second.decoded.generation newer),
                ),
              ))
        | inr older ↦
            rw (apart, older)
              (inl (
                refl,
                (
                  first,
                  refl,
                  refl,
                  inr (newest first.decoded.generation second.decoded.generation apart older),
                ),
              ))
      ]
    ]

-- The slot that is selected is valid and holds the superblock that is returned; the other slot is not
-- valid, or holds the same superblock or an older one.
pub select_slot-Selects :
    (m0 m1 : Option Slot) (c : ReadResult)
    → select_slot m0 m1 ≡ ok c
    → ((c.selected_slot ≡ 0) × Selects c m0 m1) ⊎ ((c.selected_slot ≡ 1) × Selects c m1 m0)
unfolding select_slot result_of
select_slot-Selects m0 m1 c e = subst (λ r. Selected r m0 m1) e (all m0 m1)
  where
    all : (m0 m1 : Option Slot) → Selected (select_slot m0 m1) m0 m1
    all none none = tt
    all (some first) none = inl (refl, (first, refl, refl, tt))
    all none (some second) = inr (refl, (second, refl, refl, tt))
    all (some first) (some second) = both-Selected first second
