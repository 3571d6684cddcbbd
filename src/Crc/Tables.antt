-- ===== src/Crc/Tables.antt =====
-- src/checksum.c: the eight lookup tables of the CRC.
pub mod Low
pub mod High
unfoldable pub use Low.{slice_0, slice_1, slice_2, slice_3}
unfoldable pub use High.{slice_4, slice_5, slice_6, slice_7}
