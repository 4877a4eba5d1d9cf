-- ===== src/Node/Put.antt =====
-- sn_node/src/put_validation.rs: validating and storing records, chunks, registers and spends.
pub mod Spend
pub mod Handlers
pub mod Effects
pub mod Validated
