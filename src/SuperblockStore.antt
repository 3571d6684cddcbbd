-- ===== src/SuperblockStore.antt =====
-- src/superblock_store.c: two copies of the superblock at the start of the file, of which a reader
-- takes the newest that is intact, and a writer replaces one after the other.
pub mod Choice
pub mod Slots
pub mod Encoded
pub mod CrashSafe
pub mod Update
pub mod Authentic
use shibadb.Bytes.{copy_to, slice, same_bytes}
use shibadb.Codec.{read_u16_le}
use shibadb.Cipher.Aead.{constant_time_equal}
use shibadb.File.{Io, File, continue, lift, read_full, write_full, sync, ◌>>=◌, ◌>>◌}
use shibadb.Sha256.Hmac.{hmac_sha256}
use shibadb.Status.{Status, Result, ok, err, fail_if, io, corrupt, invalid_argument, truncated}
use shibadb.Superblock.{
  Superblock, superblock_encode, superblock_decode, any_nonzero, header_auth, encrypted,
}
use shibadb.Prelude.{
  ℕ, zero, suc, ◌+◌, ◌-◌, ◌*◌, List, [], ◌∷◌, take, drop, length, Option, none, some, Bool, true,
  false, not, ◌&&◌, ◌||◌, ◌==◌, ltb, leb, if◌then◌else◌,
}

abbrev pub slot_size : ℕ
slot_size = 4096

unfoldable pub slot_offset : ℕ → ℕ
slot_offset slot = slot * slot_size

-- The tag of an authenticated header follows it; `data_key` is `none` for NULL.
unfoldable pub sign_slot : ℕ → Option (List ℕ) → Result (List ℕ) → Result (List ℕ)
sign_slot flags data_key (err e) = err e
sign_slot flags none (ok slot) = if header_auth flags then err invalid_argument else ok slot
sign_slot flags (some key) (ok slot) =
    if header_auth flags then ok (copy_to slot 160 (hmac_sha256 key (take 160 slot))) else ok slot

unfoldable pub encode_slot : Superblock → Option (List ℕ) → Result (List ℕ)
encode_slot sb data_key = sign_slot sb.flags data_key (superblock_encode (some sb) true slot_size)

unfoldable pub superblocks_equal : Superblock → Superblock → Bool
superblocks_equal left right =
    left.page_size == right.page_size
    && left.flags == right.flags
    && left.generation == right.generation
    && left.checkpoint_lsn == right.checkpoint_lsn
    && left.root_page == right.root_page
    && left.freelist_page == right.freelist_page
    && left.next_page_id == right.next_page_id
    && left.key_wrap_id == right.key_wrap_id
    && left.kdf_iterations == right.kdf_iterations
    && same_bytes left.salt right.salt
    && same_bytes left.file_id right.file_id
    && same_bytes left.wrapped_key right.wrapped_key
    && same_bytes left.key_wrap_tag right.key_wrap_tag

unfoldable pub slot_padding_is_zero : List ℕ → Superblock → Bool
slot_padding_is_zero slot sb =
    let start : ℕ = if header_auth sb.flags then 192 else 160 in
    not (any_nonzero (slot_size - start) start slot)

-- A slot that was read, and what it holds if that is valid.
pub record Slot : Type 0 where
  pub slot_bytes : List ℕ
  pub decoded : Superblock

-- The test of one slot: it decodes, and the rest of it is zero.
unfoldable pub valid_slot : List ℕ → Result Superblock → Option Slot
valid_slot bytes (err e) = none
valid_slot bytes (ok sb) =
    if slot_padding_is_zero bytes sb
    then some (record { slot_bytes = bytes; decoded = sb })
    else none

unfoldable pub mirror : List ℕ → Option Slot
mirror bytes = valid_slot bytes (superblock_decode (some bytes) slot_size)

-- Whether the read of a slot failed with SDB_E_IO, and the slot if it is valid.
unfoldable pub slot_answer : Result (List ℕ) → Bool × Option Slot
slot_answer (ok bytes) = (false, mirror bytes)
slot_answer (err e) = elim e [ io ↦ (true, none) | _ ↦ (false, none) ]

-- One round of the loop of `sdb_superblock_load_slots`.
unfoldable pub load_slot : ℕ → File → (Bool × Option Slot) × File
load_slot slot file =
    let answer = read_full (slot_offset slot) slot_size file in (slot_answer answer.0, answer.1)

unfoldable pub load_slots : Io (Option Slot × Option Slot)
load_slots file =
    let first = load_slot 0 file in
    let second = load_slot 1 first.1 in
    (if first.0.0 || second.0.0 then err io else ok (first.0.1, second.0.1), second.1)

unfoldable pub slot_auth_tag_matches : Slot → List ℕ → Bool
slot_auth_tag_matches slot data_key =
    constant_time_equal (hmac_sha256 data_key (take 160 slot.slot_bytes)) (drop 160 slot.slot_bytes)
      32

-- `sdb_superblock_read_result`
pub record ReadResult : Type 0 where
  pub superblock : Superblock
  pub valid_mirror_count : ℕ
  pub selected_slot : ℕ
  pub format_version : ℕ

unfoldable pub result_of : Slot → ℕ → ℕ → ReadResult
result_of slot count selected = record {
  superblock = slot.decoded;
  valid_mirror_count = count;
  selected_slot = selected;
  format_version = read_u16_le (drop 8 slot.slot_bytes);
}

-- The choice between the slots that count, which both readers make.
unfoldable pub select_slot : Option Slot → Option Slot → Result ReadResult
select_slot none none = err corrupt
select_slot (some first) none = ok (result_of first 1 0)
select_slot none (some second) = ok (result_of second 1 1)
select_slot (some first) (some second) =
    if first.decoded.generation == second.decoded.generation
      && not (superblocks_equal first.decoded second.decoded)
    then err corrupt
    else if ltb first.decoded.generation second.decoded.generation
    then ok (result_of second 2 1)
    else ok (result_of first 2 0)

unfoldable pub read_file : Io ReadResult
read_file = do slots ← load_slots; lift (select_slot slots.0 slots.1)

-- A valid slot counts if its header is marked as authenticated and its tag matches.
unfoldable pub authenticated : List ℕ → Option Slot → Option Slot
authenticated data_key none = none
authenticated data_key (some slot) =
    if header_auth slot.decoded.flags && slot_auth_tag_matches slot data_key
    then some slot
    else none

unfoldable pub read_authenticated_file : Option (List ℕ) → Io ReadResult
read_authenticated_file none = lift (err invalid_argument)
read_authenticated_file (some data_key) = do
  slots ← load_slots
  lift (select_slot (authenticated data_key slots.0) (authenticated data_key slots.1))

-- The fields that an update must not change, and the page counter that must not go back.
unfoldable pub changes_identity : Superblock → Superblock → Bool
changes_identity sb current =
    not (same_bytes sb.file_id current.file_id)
    || not (same_bytes sb.salt current.salt)
    || not (sb.page_size == current.page_size)
    || ltb sb.next_page_id current.next_page_id
    || (encrypted sb.flags && not (encrypted current.flags))
    || (not (encrypted sb.flags) && encrypted current.flags)

-- The writes of an update: one slot, then the other, each made durable.
unfoldable pub install : ℕ → ℕ → List ℕ → Io (Unit {0})
install first_slot second_slot encoded = do
  write_full (slot_offset first_slot) encoded
  sync
  write_full (slot_offset second_slot) encoded
  sync

-- The slot that was selected is written last.
unfoldable pub other_slot : ℕ → ℕ
other_slot selected = if selected == 0 then 1 else 0

unfoldable pub update_file_internal : Superblock → Option (List ℕ) → Io (Unit {0})
update_file_internal sb data_key = do
  encoded ← lift (encode_slot sb data_key)
  current ← read_file
  lift (fail_if (leb sb.generation current.superblock.generation) invalid_argument)
  lift (fail_if (changes_identity sb current.superblock) invalid_argument)
  install (other_slot current.selected_slot) current.selected_slot encoded

unfoldable pub update_file : Superblock → Io (Unit {0})
update_file sb = update_file_internal sb none

unfoldable pub update_file_authenticated : Superblock → Option (List ℕ) → Io (Unit {0})
update_file_authenticated sb none = lift (err invalid_argument)
update_file_authenticated sb (some data_key) =
    if not (header_auth sb.flags)
    then lift (err invalid_argument)
    else update_file_internal sb (some data_key)

-- What follows the read of the peer slot in `sdb_superblock_store_heal_file`: whether it is written, or
-- the status that is returned.
unfoldable pub heal_needed : Result (List ℕ) → List ℕ → Result Bool
heal_needed (ok peer_bytes) encoded = ok (not (same_bytes peer_bytes encoded))
heal_needed (err e) encoded = elim e [ truncated ↦ ok true | other ↦ err other ]

unfoldable pub heal_peer : ℕ → List ℕ → Io (Unit {0})
heal_peer peer_slot encoded file =
    let answer = read_full (slot_offset peer_slot) slot_size file in
    (lift (heal_needed answer.0 encoded) >>= λ needed.
    if needed then write_full (slot_offset peer_slot) encoded >> sync else lift (ok tt))
      answer.1

unfoldable pub heal_file : ReadResult → Option (List ℕ) → Io (Unit {0})
heal_file current data_key = do
  lift (
      fail_if
        (current.valid_mirror_count == 0
          || ltb 2 current.valid_mirror_count
          || leb 2 current.selected_slot)
        invalid_argument)
  encoded ← lift (encode_slot current.superblock data_key)
  heal_peer (other_slot current.selected_slot) encoded
