-- ===== src/Protocol/Storage.antt =====
-- sn_protocol: addresses, chunks, payments, record kinds, replies and errors.
use safe_network.Base.{ℕ, List, Bool, test}
use safe_network.Registers.Deps.{Deps, Bytes}
use safe_network.Registers.Model
use safe_network.Registers.Model.{RegisterAddress}
use safe_network.Protocol.Ledger.{Ledger}

-- storage/header.rs
pub data RecordKind : Type 0 where
  chunk dbc_spend register : RecordKind

-- messages/response.rs
pub data CmdOk : Type 0 where
  stored_successfully data_already_present : CmdOk

-- dbc_genesis.rs
unfoldable pub is_genesis_parent_tx : (b : Ledger) → b.DbcTransaction → Bool
is_genesis_parent_tx b tx = test (b.tx_eq tx b.genesis_src_tx)

module _ (d : Deps) (b : Ledger) where
  open d use {XorName, PublicKey}
  open b use {DbcId, Hash, SignedSpend}

  -- storage/address/chunk.rs and storage/address/dbc.rs
  pub record ChunkAddress : Type 0 where
    pub xorname : XorName

  pub record DbcAddress : Type 0 where
    pub xorname : XorName

  -- storage/chunks.rs
  pub record Chunk : Type 0 where
    pub address : ChunkAddress
    pub value : Bytes

  -- messages/cmd.rs
  pub record PaymentProof : Type 0 where
    pub spent_ids : List DbcId
    pub audit_trail : List Bytes
    pub path : List ℕ

  pub record ChunkWithPayment : Type 0 where
    pub chunk : Chunk
    pub payment : PaymentProof

  -- lib.rs
  pub data NetworkAddress : Type 0 where
    peer_id : Bytes → NetworkAddress
    chunk_address : ChunkAddress → NetworkAddress
    dbc_address : DbcAddress → NetworkAddress
    register_address : RegisterAddress d → NetworkAddress
    record_key : Bytes → NetworkAddress

  -- error.rs, without the texts of messages. `panicked` is no error of the source: the task panics.
  pub data Error : Type 0 where
    chunk_not_found : ChunkAddress → Error
    chunk_not_stored : XorName → Error
    register_not_stored register_not_found register_invalid : RegisterAddress d → Error
    register_error : Model.Error d → Error
    register_already_claimed : PublicKey → Error
    spend_not_found : DbcAddress → Error
    spend_not_stored : Error
    double_spend_attempt : SignedSpend → SignedSpend → Error
    spend_signature_invalid spend_parent_tx_invalid spend_is_empty : Error
    get_store_cost_failed sign_store_cost_failed : Error
    payment_proof_insufficient_amount : ℕ → ℕ → Error
    payment_proof_tx_mismatch payment_proof_without_inputs : XorName → Error
    payment_proof_invalid_fee_output : Hash → Error
    invalid_payment_proof : XorName → Error
    utxo_serialisation_failed utxo_decryption_failed : Error
    replicated_data_not_found : NetworkAddress → NetworkAddress → Error
    record_header_parsing_failed record_parsing_failed record_key_mismatch : Error
    record_kind_mismatch : RecordKind → Error
    panicked : Error
