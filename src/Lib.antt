-- ===== src/Lib.antt =====
-- ShibaDB: the formats and the in-memory structures of the storage engine.
--
-- ShibaDB keeps its pages in one file and a write-ahead log beside it. Every record on disk carries
-- a CRC-32; a page has a sealed envelope; a transaction in the log ends with a sealed commit record;
-- an index in memory leads from a page to its newest frame in the log. A superblock at the start of
-- the file holds the geometry and the wrapped key; the pages of an encrypted file are sealed by
-- XChaCha20-Poly1305.
--
-- The files, and the code each is about:
--   Prelude, Bits    shared names, lists over the native numbers, `&`, `|`, `^` and shifts
--   Bytes            buffers: memcpy, memset, reads at an offset, writes as a list of stores
--   Codec            src/codec.c: read_u16_le .. write_u64_le, checked_add_size, checked_mul_size
--   Crc              src/checksum.c: crc32_continue, crc32, crc32_zeroed_range and the eight tables
--   Seal             the checksum field that several records share
--   Status           sdb_status of include/shibadb.h, and results
--   Page             src/page.c: page_encode and page_decode (sdb_page_encode, sdb_page_decode)
--   Wal              src/wal.c: encode_commit_rec, decode_commit_rec and the sizes of a log
--   Superblock       src/superblock.c: superblock_encode, superblock_decode and the validation
--   Cipher           src/xchacha20poly1305.c: Chacha, Poly and Aead, the authenticated cipher, with the
--                    comparison in constant time of src/sha256.c
--   Sha256           src/sha256.c: the streaming hash, HMAC and PBKDF2
--   KeyManager       src/key_manager.c: key_wrap and key_unwrap, over PBKDF2 and the cipher
--   EncryptedPage    src/encrypted_page.c: encryption into a page, over Page and the cipher
--   BtreePage        src/btree_page.c: node_encode, encoded_size and node_decode
--   Btree            src/btree.c: the search in a node, puts into one node, the split of a leaf,
--                    and get over the pager's pages
--   File             a file as the code above src/file.c sees it: its bytes, and a device that may fail
--   SuperblockStore  src/superblock_store.c: the two slots of the superblock, reading, updating, healing
--   WalIndex         src/wal_index.c: init, free, put, get, clear, grow, with their loops
--   Tests            the definitions at concrete inputs
-- A name of the model is the name of the source without the prefix `sdb_` or that of its file.
--
-- Buffers are lists of natural numbers, of which theorems ask that they are bytes (below 256). A
-- uint16_t, uint32_t or uint64_t is a natural number; theorems ask that it fits where that matters,
-- and wrap-around is written out as `% 2 ^ w`. A pointer that may be NULL is an Option; an output
-- pointer is a result, so that a NULL output pointer is not modelled, nor is a NULL index. size_t has
-- 64 bits.
--
-- The probe of the index is a loop without a bound in the source; in the model it has as many rounds
-- as there are slots, and runs out with `none`. The results on the index show that it never does so
-- from a valid index. The allocator's answer is an argument.
--
-- The loops of the hash and of PBKDF2 take a byte at least in each round, and have as many rounds as
-- there are bytes. The answer of malloc and the nonce of random.c are arguments.
--
-- A file of the store is its bytes and a budget: as many operations succeed before all fail, and the
-- write that fails leaves any bytes at all in its range. This is how an update that is cut short is
-- stated; what the operating system does below is not modelled, so that a sync changes no bytes and can
-- only fail.
--
-- The cipher and the hash are their portable paths, as in a build without SDB_CPU_X86; clearing of
-- secrets in memory is left out. In a node of the B+tree allocation succeeds, and the number of entries
-- is that of an array in memory, so that a put never answers SDB_E_OVERFLOW. The payload of a page's
-- view is a list, so that encrypted_page_decrypt has no test of a NULL payload.
--
-- The walk of a get has the source's limit of 64 pages as its fuel; the answers of the pager are an
-- argument. What a tree holds is stated without the walk, from the leaves up (Btree/Tree).
--
-- Not modelled: the pager, the inner splits, deletion, batches and cursors of the B+tree, the engine
-- above these parts, the scan and the recovery of the log, the page cache, the creation and opening of
-- files, locks and the processor's vector instructions.
pub mod Prelude
pub mod Bits
pub mod Bytes
pub mod Codec
pub mod Seal
pub mod Status
pub mod Page
pub mod Wal
pub mod WalIndex
pub mod Tests
pub mod Crc
pub mod Cipher
pub mod Superblock
pub mod Sha256
pub mod File
pub mod SuperblockStore
pub mod BtreePage
pub mod KeyManager
pub mod EncryptedPage
pub mod Btree
