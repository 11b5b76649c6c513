-- ===== src/Utilz.antt =====
-- utilz/: the collections, text and address helpers that the services are built on.
pub mod Coll
pub mod StrUtil
pub mod ChainUtil
pub mod BitUtil
pub mod RpcUtil
