-- ===== src/Node.antt =====
-- sn_node: reading from the network, validating what is to be stored, and replication.
mod Tests
pub mod Env
pub mod Get
pub mod Fees
pub mod Replication
pub mod Put
