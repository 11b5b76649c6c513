-- ===== src/Utilz/BitUtil.antt =====
-- utilz/bitUtil.ts: bytes as hexadecimal text, and integers as sets of bit positions.
pub mod Hex
pub mod Positions
