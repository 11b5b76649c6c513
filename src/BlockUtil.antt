-- ===== src/BlockUtil.antt =====
-- services/messaging-common/blockUtil.ts: which shards a block affects, what makes a transaction and
-- a block valid, and the signing of blocks.
pub mod Shards
pub mod CheckR
pub mod Signers
pub mod Tx
pub mod Attestor
pub mod Patch
mod Tests
