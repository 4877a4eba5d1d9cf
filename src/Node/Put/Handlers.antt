-- ===== src/Node/Put/Handlers.antt =====
-- sn_node/src/put_validation.rs: the handlers, from a record to what is stored.
use safe_network.Base.{List, [], ◌∷◌, Option, none, some, Bool, test, all, if◌then◌else◌}
use safe_network.Base.Outcome.{Outcome, ok, err, map_err}
use safe_network.Registers.Deps.{Deps, Bytes}
use safe_network.Registers.Model.{SignedRegister}
use safe_network.Registers.Register.{address}
use safe_network.Protocol.Ledger.{Ledger}
use safe_network.Protocol.Storage.{
  Error, RecordKind, chunk, dbc_spend, register, CmdOk, stored_successfully, data_already_present,
  ChunkWithPayment, chunk_address, dbc_address, chunk_not_stored, register_not_stored,
  spend_not_stored, double_spend_attempt, record_key_mismatch,
}
use safe_network.Protocol.Header.{Record, from_record, try_deserialize_record, try_serialize_record}
use safe_network.Protocol.Names.{from_dbc_id, to_record_key}
use safe_network.Node.Env.{Node, Env, Run, lift, put_or, broadcast, ◌>>=◌}
use safe_network.Node.Fees.{chunk_payment_validation}
use safe_network.Node.Put.Spend.{register_key, register_validation, signed_spend_validation}

module _ {d : Deps} {b : Ledger} (n : Node d b) (env : Env d b) where
  open b use {SignedSpend, DbcId}

  unfoldable pub chunk_key : ChunkWithPayment d b → Bytes
  unfolding to_record_key
  chunk_key c = to_record_key n.names (chunk_address c.chunk.address)

  unfoldable pub spend_key : DbcId → Bytes
  unfolding to_record_key from_dbc_id
  spend_key id = to_record_key {d = d} {b = b} n.names (dbc_address (from_dbc_id n.names id))

  unfoldable pub store_chunk : ChunkWithPayment d b → Bool → Run d b CmdOk
  unfolding chunk_key try_serialize_record put_or broadcast chunk_payment_validation
  store_chunk c validate_payment_amount = do
    _ ← lift (chunk_payment_validation n env c validate_payment_amount)
    value ← lift (try_serialize_record n.header n.chunks c chunk)
    _ ←
        put_or env (chunk_not_stored c.chunk.address.xorname)
          (record { key = chunk_key c; value = value })
    _ ← broadcast c.chunk.address
    lift (ok stored_successfully)

  unfoldable pub validate_and_store_chunk : ChunkWithPayment d b → Bool → Run d b CmdOk
  unfolding store_chunk
  validate_and_store_chunk c validate_payment_amount = do
    present_locally ← lift (
        map_err (λ _. chunk_not_stored c.chunk.address.xorname)
          (env.is_key_present_locally (chunk_key c)))
    if present_locally
        then lift (ok data_already_present)
        else store_chunk c validate_payment_amount

  unfoldable pub store_register : SignedRegister d → Option (SignedRegister d) → Run d b CmdOk
  unfolding register_key try_serialize_record put_or
  store_register reg none = lift (ok data_already_present)
  store_register reg (some updated_register) = do
    value ← lift (try_serialize_record n.header n.registers updated_register register)
    _ ←
        put_or env (register_not_stored (address reg.base_register))
          (record { key = register_key n env (address reg.base_register); value = value })
    lift (ok stored_successfully)

  unfoldable pub validate_and_store_register : SignedRegister d → Run d b CmdOk
  unfolding store_register register_validation register_key
  validate_and_store_register reg = do
    present_locally ← lift (
        map_err (λ _. register_not_stored (address reg.base_register))
          (env.is_key_present_locally (register_key n env (address reg.base_register))))
    updated ← lift (register_validation n env reg present_locally)
    store_register reg updated

  -- The double spend that is reported after the spends were stored.
  unfoldable pub notify : List SignedSpend → Outcome (Error d b) CmdOk
  notify (spend_one ∷ spend_two ∷ _) = err (double_spend_attempt spend_one spend_two)
  notify _ = ok stored_successfully

  unfoldable pub store_spends : DbcId → Option (List SignedSpend) → Run d b CmdOk
  unfolding spend_key try_serialize_record put_or notify
  store_spends dbc_id none = lift (ok data_already_present)
  store_spends dbc_id (some validated_spends) = do
    value ← lift (try_serialize_record n.header n.spends validated_spends dbc_spend)
    _ ← put_or env spend_not_stored (record { key = spend_key dbc_id; value = value })
    lift (notify validated_spends)

  -- `split_first` and the test that all ids are the same
  unfoldable pub common_dbc_id : List SignedSpend → Outcome (Error d b) DbcId
  common_dbc_id [] = err spend_not_stored
  common_dbc_id (first ∷ elements) =
      if all (λ s. test (b.id_eq (b.dbc_id s) (b.dbc_id first))) elements
      then ok (b.dbc_id first)
      else err spend_not_stored

  unfoldable pub validate_and_store_spends : List SignedSpend → Run d b CmdOk
  unfolding common_dbc_id spend_key signed_spend_validation store_spends
  validate_and_store_spends signed_spends = do
    dbc_id ← lift (common_dbc_id signed_spends)
    present_locally ←
        lift (map_err (λ _. spend_not_stored) (env.is_key_present_locally (spend_key dbc_id)))
    validated ← lift (signed_spend_validation n env signed_spends dbc_id present_locally)
    store_spends dbc_id validated

  -- The `match` on the kind of a record.
  unfoldable pub store_by_kind : Record → Bool → RecordKind → Run d b CmdOk
  unfolding try_deserialize_record chunk_key spend_key validate_and_store_chunk
      validate_and_store_spends validate_and_store_register
  store_by_kind r validate_payment chunk = do
    c ← lift (try_deserialize_record n.header n.chunks r)
    if test (n.record_key_eq r.key (chunk_key c))
        then validate_and_store_chunk c validate_payment
        else lift (err record_key_mismatch)
  store_by_kind r validate_payment dbc_spend = do
    spends ← lift (try_deserialize_record n.header n.spends r)
    if all (λ s. test (n.record_key_eq r.key (spend_key (b.dbc_id s)))) spends
        then validate_and_store_spends spends
        else lift (err record_key_mismatch)
  store_by_kind r validate_payment register = do
    reg ← lift (try_deserialize_record n.header n.registers r)
    if test (n.record_key_eq r.key (register_key n env (address reg.base_register)))
        then validate_and_store_register reg
        else lift (err record_key_mismatch)

  unfoldable pub validate_and_store_record : Record → Bool → Run d b CmdOk
  unfolding from_record store_by_kind
  validate_and_store_record r validate_payment = do
    kind ← lift (from_record n.header r)
    store_by_kind r validate_payment kind
