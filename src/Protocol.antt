-- ===== src/Protocol.antt =====
-- sn_protocol: the ledger that it names, its errors, storage types and record headers.
pub mod Ledger
pub mod Storage
pub mod Header
pub mod Names
mod Tests
