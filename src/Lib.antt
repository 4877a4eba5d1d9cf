-- ===== src/Lib.antt =====
-- Safe Network: the core of a node, from the data types that it stores to the handlers that validate
-- and store them.
--
-- The program is a peer-to-peer store. Records (chunks with a proof of payment, spends, registers)
-- arrive from other peers, are validated by a node and kept by a record store; a replication fetcher
-- asks other holders for records that the node should hold. A swarm driver answers the commands of
-- the node and the events of the network; a wallet holds the DBCs that pay for storage.
--
-- Parts, and the files that model them:
-- Base: library names, tests, orders (`std::cmp::Ord`), `Result`, ordered sets (`BTreeSet`, and
--   `HashSet` where only membership and number matter), ordered maps (`BTreeMap`), association lists,
--   sorting by a key. No code of its own.
-- Registers (sn_registers/src): Deps holds what comes from other crates (keys, the Merkle register,
--   names); Model the types of register.rs, reg_crdt.rs, register_op.rs, permissions.rs, address.rs
--   and error.rs; Crdt the permissions, the CRDT and signing; Register and Signed the methods of
--   `Register` and `SignedRegister`. Access, Convergence and Replay hold the theorems. A method that
--   changes its register returns the new one, or an error.
-- Protocol (sn_protocol/src): Ledger holds what comes from sn_dbc; Storage the types of storage/,
--   messages/ and error.rs; Header the records and headers of storage/header.rs; Names the network
--   addresses and record keys of lib.rs.
-- Spends (sn_node/src/spends.rs): aggregation, and the checks against parents.
-- Networking (sn_networking/src): Fetcher is replication_fetcher.rs, with a map from keys to holders
--   as an association list, and the clock and the shuffle as functions; the clock is read by the number
--   of the reading. RecordStore is record_store.rs, whose file operations are tasks in the result.
--   CircularVec is circular_vec.rs, with the capacity that the deque has. Peers is the sorting of peers
--   of lib.rs. Quorum is how event.rs counts the copies of a record (`accumulate_get_record_ok`,
--   `try_update_self_for_split_record`): Votes, Answers, Leads and Split hold the theorems. Driver is
--   `SwarmDriver`: a handler is a state monad with an error value and the list of the effects, in the
--   order in which they happen; Net holds the types of libp2p, and Env what libp2p answers while one
--   event is handled. Its Peering, Queries and Events are event.rs, Commands and Addresses cmd.rs and
--   the address functions of lib.rs, Messages msg/mod.rs; `run` is the loop of lib.rs, over the events
--   and commands in the order in which they are selected. Invariant, Replies and Splits hold the theorems.
--   Requests is the `Network` of lib.rs: the attempts of reads and puts, and the fee of store quotes.
-- Payments (sn_transfers/src/payment_proof): validation of a proof, over an abstract Merkle tree.
-- Transfers (sn_transfers/src/client_transfers): the selection of inputs, and what `create_transfer`
--   and `create_storage_payment_transfer` give to the transaction builder of sn_dbc. Wallet is
--   sn_transfers/src/wallet/local_store.rs without its files.
-- Node (sn_node/src): Env is what a handler meets, the answers of the network and the serialisers,
--   and the effects in order; Get is get_validation.rs; Fees and Put are put_validation.rs;
--   Replication is `try_trigger_replication` of replication.rs.
-- Samples: small instances of all parameters, which the Tests modules use; Networking.Samples those
--   of the swarm driver.
--
-- How they interact: a handler (Node.Put.Handlers) reads the header of a record (Protocol.Header),
-- compares the record's key with the name of its content (Protocol.Names), validates the content with
-- Registers.Signed, Spends, Payments and Node.Get, and stores through the environment. The driver
-- (Networking.Driver) puts records in RecordStore, tells Fetcher, remembers the peers that it dialed
-- in CircularVec and counts copies with Quorum. A wallet gives its DBCs to Transfers.
--
-- A panic (a slice out of range, or a subtraction below zero in the fetcher) is the error value
-- `panicked`, or none in the fetcher itself. Machine integers: the leaf index, the fee, the store cost
-- and the sum of a wallet are on 64 bits with the wrap-around or the saturation of the code written out.
-- Loops are structural on a list, except these: the attempts of a read and the retries of a put are
-- structural on their number (30 or 1, and 3); the split of keys into messages has the number of keys
-- as fuel, which is enough since each turn takes 500 of them. The start of the store cost has a factor
-- that the code computes in floating point, a parameter here. A `HashMap` is iterated in an order that
-- is a parameter.
--
-- Not modelled: the construction of the libp2p swarm, the capacity of the channel of events (`send_event`
-- drops an event when it is full), the files of the wallet and of
-- the record store, the node's event loop and the fetching of replicated keys, RPC, the client, the
-- command line, logging, and Display and Debug.
pub mod Base
pub mod Registers
pub mod Protocol
pub mod Spends
pub mod Networking
pub mod Payments
pub mod Transfers
pub mod Node
pub mod Samples
