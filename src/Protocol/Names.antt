-- ===== src/Protocol/Names.antt =====
-- Names and record keys: sn_protocol/src/lib.rs, storage/address, and `xorname` of sn_registers'
-- address.rs. `xor_name` and the keys' bytes are parameters.
use safe_network.Base.{◌++◌, Option, none, some}
use safe_network.Registers.Deps.{Deps, Bytes}
use safe_network.Registers.Model.{RegisterAddress}
use safe_network.Protocol.Ledger.{Ledger}
use safe_network.Protocol.Storage.{
  DbcAddress, Chunk, NetworkAddress, peer_id, chunk_address, dbc_address, register_address,
  record_key,
}

pub record Names (d : Deps) : Type 0 where
  -- `XorName::from_content`, the bytes of a name, and `PublicKey::to_bytes`
  pub from_content : Bytes → d.XorName
  pub name_bytes : d.XorName → Bytes
  pub key_bytes : d.PublicKey → Bytes

unfoldable pub register_xorname : {d : Deps} → Names d → RegisterAddress d → d.XorName
register_xorname n a = n.from_content (n.name_bytes a.meta ++ n.key_bytes a.owner)

module _ {d : Deps} {b : Ledger} (n : Names d) where
  -- `DbcAddress::from_dbc_id`
  unfoldable pub from_dbc_id : b.DbcId → DbcAddress d b
  from_dbc_id id = record { xorname = n.from_content (b.id_bytes id) }

  -- `Chunk::new`
  unfoldable pub chunk_new : Bytes → Chunk d b
  chunk_new value = record { address = record { xorname = n.from_content value }; value = value }

  unfoldable pub as_bytes : NetworkAddress d b → Bytes
  unfolding register_xorname
  as_bytes (peer_id bytes) = bytes
  as_bytes (record_key bytes) = bytes
  as_bytes (chunk_address a) = n.name_bytes a.xorname
  as_bytes (dbc_address a) = n.name_bytes a.xorname
  as_bytes (register_address a) = n.name_bytes (register_xorname n a)

  unfoldable pub as_record_key : NetworkAddress d b → Option Bytes
  as_record_key (record_key bytes) = some bytes
  as_record_key _ = none

  -- `RecordKey::new` wraps the bytes.
  unfoldable pub to_record_key : NetworkAddress d b → Bytes
  unfolding register_xorname
  to_record_key (record_key bytes) = bytes
  to_record_key (chunk_address a) = n.name_bytes a.xorname
  to_record_key (register_address a) = n.name_bytes (register_xorname n a)
  to_record_key (dbc_address a) = n.name_bytes a.xorname
  to_record_key (peer_id bytes) = bytes
