-- ===== src/Networking.antt =====
-- sn_networking: the replication fetcher, the record store, the circular buffer, the counting of copies,
-- the swarm driver, and what a caller asks of it.
mod Tests
mod Samples
pub mod Fetcher
pub mod CircularVec
pub mod RecordStore
pub mod Quorum
pub mod Peers
pub mod Driver
pub mod Requests
