-- ===== src/Tests.antt =====
-- The modules at concrete inputs.
mod Records
mod Index
mod Cipher
mod Header
mod Hash
mod Store
mod Signed
mod Nodes
mod Sealed
mod Trees
mod Splits
