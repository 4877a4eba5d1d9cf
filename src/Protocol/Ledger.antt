-- ===== src/Protocol/Ledger.antt =====
-- What the code takes from the `sn_dbc` crate: spends, transactions, their hashes and checks.
use safe_network.Base.{ℕ, Bool, List}
use safe_network.Base.Order.{Ord}
use safe_network.Registers.Deps.{Bytes}

pub record Ledger : Type 1 where
  pub DbcId : Type 0
  pub Hash : Type 0
  pub DbcTransaction : Type 0
  pub SignedSpend : Type 0
  pub id_eq : Discrete DbcId
  pub hash_eq : Discrete Hash
  pub tx_eq : Discrete DbcTransaction
  pub spend_ord : Ord SignedSpend
  -- `to_bytes` of an id, `slice` of a hash, and `Hash::hash`
  pub id_bytes : DbcId → Bytes
  pub hash_slice : Hash → Bytes
  pub hash : Bytes → Hash
  -- accessors of a spend; `verify(hash).is_ok()`
  pub dbc_id : SignedSpend → DbcId
  pub spent_tx : SignedSpend → DbcTransaction
  pub dbc_creation_tx : SignedSpend → DbcTransaction
  pub spent_tx_hash : SignedSpend → Hash
  pub dbc_creation_tx_hash : SignedSpend → Hash
  pub verify : SignedSpend → Hash → Bool
  -- the ids of a transaction's inputs and outputs, and its fee output
  pub inputs : DbcTransaction → List DbcId
  pub outputs : DbcTransaction → List DbcId
  pub fee_id : DbcTransaction → Hash
  pub fee_token : DbcTransaction → ℕ
  pub fee_root_hash : DbcTransaction → Hash
  pub fee_is_free : DbcTransaction → Bool
  -- `verify_against_inputs_spent(parents).is_ok()`
  pub verify_against_inputs_spent : DbcTransaction → List SignedSpend → Bool
  -- `GENESIS_DBC.src_tx` and `GENESIS_DBC.id`, which `sn_dbc` builds from a hard-coded key
  pub genesis_src_tx : DbcTransaction
  pub genesis_id : DbcId
