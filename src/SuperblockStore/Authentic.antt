-- ===== src/SuperblockStore/Authentic.antt =====
-- What an authenticated read selects.
use shibadb.Bytes.{slice}
use shibadb.Bytes.Laws.{length-slice}
use shibadb.Cipher.Aead.Compare.{constant_time_equal-places, same_places}
use shibadb.Sha256.Hmac.{hmac_sha256}
use shibadb.Sha256.Derive.{length-hmac_sha256}
use shibadb.Status.{Result, ok, err}
use shibadb.Superblock.{Superblock, superblock_decode, header_auth}
use shibadb.SuperblockStore.{
  Slot, ReadResult, mirror, valid_slot, slot_padding_is_zero, slot_auth_tag_matches, select_slot,
  authenticated, read_authenticated_file,
}
use shibadb.SuperblockStore.Choice.{select_slot-Selects}
use shibadb.SuperblockStore.Slots.{at_slot, load_slots-eq}
use shibadb.Prelude.{
  ℕ, suc, ◌*◌, ◌≤◌, ◌≡◌, ◌≢◌, inl, inr, refl, sym, ap, subst, ◌∙◌, arith, bit_and, get_or-take,
  take, drop, length-take, length-drop, ==_iff, List, length, Option, none, some, true, ◌&&◌,
  Bool-cases, and-eq_true,
}

authenticated_sound :
    (data_key : List ℕ) (m : Option Slot) (slot : Slot)
    → authenticated data_key m ≡ some slot
    → (m ≡ some slot)
      × (header_auth slot.decoded.flags ≡ true)
      × (slot_auth_tag_matches slot data_key ≡ true)
unfolding authenticated
authenticated_sound data_key none slot h = absurd (cc h)
authenticated_sound data_key (some s) slot h =
    elim (Bool-cases (header_auth s.decoded.flags && slot_auth_tag_matches s data_key)) [
      | inl good ↦
          let same : some s ≡ some slot = sym (rw good refl) ∙ h in
          let (auth, tag) =
            and-eq_true (header_auth s.decoded.flags) (slot_auth_tag_matches s data_key) good in
          let e : s ≡ slot = cc same in
          (
            same,
            ap (λ (x : Slot). header_auth x.decoded.flags) (sym e) ∙ auth,
            ap (λ x. slot_auth_tag_matches x data_key) (sym e) ∙ tag,
          )
      | inr bad ↦ absurd (cc (h, bad))
    ]

-- A slot that counts as valid is the bytes that were read, and they decode.
valid_slot_sound :
    (bytes : List ℕ) (r : Result Superblock) (slot : Slot)
    → valid_slot bytes r ≡ some slot
    → (slot.slot_bytes ≡ bytes) × (r ≡ ok slot.decoded)
unfolding valid_slot
valid_slot_sound bytes (err e) slot h = absurd (cc h)
valid_slot_sound bytes (ok sb) slot h = elim (Bool-cases (slot_padding_is_zero bytes sb)) [
  | inl zeros ↦
      let same : some (record { slot_bytes = bytes; decoded = sb }) ≡ some slot =
        sym (rw zeros refl) ∙ h in
      let e : record { slot_bytes = bytes; decoded = sb } ≡ slot = cc same in
      (ap (λ (x : Slot). x.slot_bytes) (sym e), ap (λ (x : Slot). ok x.decoded) e)
  | inr other ↦ absurd (cc (h, other))
]

-- A tag that matches is the 32 bytes that follow the header.
tag_sound :
    (data_key : List ℕ) (slot : Slot)
    → length slot.slot_bytes ≡ 4096
    → slot_auth_tag_matches slot data_key ≡ true
    → slice slot.slot_bytes 160 32 ≡ hmac_sha256 data_key (slice slot.slot_bytes 0 160)
unfolding slot_auth_tag_matches slice
tag_sound data_key slot whole h =
    let tag = hmac_sha256 data_key (take 160 slot.slot_bytes) in
    let stored = drop 160 slot.slot_bytes in
    let size : length tag ≡ 32 = length-hmac_sha256 data_key (take 160 slot.slot_bytes) in
    sym (
      same_places tag (take 32 stored)
        (omega (arith, size, whole, length-take 32 stored, length-drop 160 slot.slot_bytes))
        (λ i below.
          constant_time_equal-places tag stored 32 h i (omega (arith, size))
          ∙ sym (get_or-take 32 i stored 0 (omega (arith, size)))))

marked : (flags : ℕ) → header_auth flags ≡ true → bit_and flags 2 ≢ 0
unfolding header_auth
marked flags h e = absurd (cc (h, (==_iff (bit_and flags 2) 0).1 e))

-- The slot that was selected decodes to the superblock of the answer, whose flags have that of an
-- authenticated header, and its 32 bytes after the header are the HMAC of the header under the key.
abbrev pub IsAuthentic : List ℕ → List ℕ → ReadResult → Type 0
IsAuthentic bytes data_key answer =
    (answer.selected_slot ≤ 1)
    × (superblock_decode (some (slice bytes (answer.selected_slot * 4096) 4096)) 4096
        ≡ ok answer.superblock)
    × (bit_and answer.superblock.flags 2 ≢ 0)
    × (slice (slice bytes (answer.selected_slot * 4096) 4096) 160 32
        ≡ hmac_sha256 data_key (slice (slice bytes (answer.selected_slot * 4096) 4096) 0 160))

module _ (bytes torn data_key : List ℕ) (n : ℕ) (long : 8192 ≤ length bytes) where
  slot-IsAuthentic :
      (answer : ReadResult) (k : ℕ) (slot : Slot)
      → k ≤ 1
      → answer.selected_slot ≡ k
      → authenticated data_key (at_slot bytes k) ≡ some slot
      → slot.decoded ≡ answer.superblock
      → IsAuthentic bytes data_key answer
  unfolding mirror
  slot-IsAuthentic answer k slot small selected top same =
      let (here, auth, tag) = authenticated_sound data_key (at_slot bytes k) slot top in
      let b = slice bytes (k * 4096) 4096 in
      let (whole, decodes) = valid_slot_sound b (superblock_decode (some b) 4096) slot here in
      let size : length slot.slot_bytes ≡ 4096 =
        ap length whole ∙ length-slice bytes (k * 4096) 4096 (omega arith) in
      rw selected (
        small,
        decodes ∙ ap ok same,
        subst (λ (sb : Superblock). bit_and sb.flags 2 ≢ 0) same (marked slot.decoded.flags auth),
        subst (λ (t : List ℕ). slice t 160 32 ≡ hmac_sha256 data_key (slice t 0 160)) whole
            (tag_sound data_key slot size tag),
      )

  selected :
      (answer : ReadResult)
      → (read_authenticated_file
          (some data_key)
          (record { bytes = bytes; budget = suc (suc n); torn = torn })).0
        ≡ ok answer
      → select_slot
          (authenticated data_key (at_slot bytes 0))
          (authenticated data_key (at_slot bytes 1))
        ≡ ok answer
  unfolding read_authenticated_file
  selected answer = rw (load_slots-eq bytes torn n long) (λ e. e)

  -- When an authenticated read of a file of at least two slots, on a device that works for two
  -- operations, answers a superblock, the slot that it names decodes to that superblock, the flags have
  -- the bit of an authenticated header, and the 32 bytes after the header are its HMAC under the key.
  pub read_authenticated_file-IsAuthentic :
      (answer : ReadResult)
      → (read_authenticated_file
          (some data_key)
          (record { bytes = bytes; budget = suc (suc n); torn = torn })).0
        ≡ ok answer
      → IsAuthentic bytes data_key answer
  read_authenticated_file-IsAuthentic answer h =
      elim (select_slot-Selects (authenticated data_key (at_slot bytes 0))
        (authenticated data_key (at_slot bytes 1)) answer (selected answer h)) [
          | inl (first, (slot, top, same, _)) ↦
              slot-IsAuthentic answer 0 slot (omega arith) first top same
          | inr (second, (slot, top, same, _)) ↦
              slot-IsAuthentic answer 1 slot (omega arith) second top same
        ]
