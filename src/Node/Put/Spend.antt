-- ===== src/Node/Put/Spend.antt =====
-- sn_node/src/put_validation.rs: `register_validation` and `signed_spend_validation`.
use safe_network.Base.{
  List, [], ◌∷◌, ◌++◌, Option, none, some, Bool, true, false, not, test, filter, if◌then◌else◌,
}
use safe_network.Base.Outcome.{Outcome, ok, err, map_err, ok_or, ◌>>=◌, ◌>>◌}
use safe_network.Base.SortedSet
use safe_network.Registers.Deps.{Deps, Bytes}
use safe_network.Registers.Model.{SignedRegister, RegisterAddress}
use safe_network.Registers.Signed
use safe_network.Registers.Register.{address}
use safe_network.Protocol.Ledger.{Ledger}
use safe_network.Protocol.Storage.{
  Error, RecordKind, dbc_spend, register_address, dbc_address, panicked, spend_not_stored,
  spend_not_found, spend_signature_invalid, record_kind_mismatch, register_not_stored,
  register_invalid, register_error,
}
use safe_network.Protocol.Header.{from_record, try_deserialize_record}
use safe_network.Protocol.Names.{from_dbc_id, to_record_key}
use safe_network.Spends.{is_genesis_spend, check_parent_spends, aggregate_spends}
use safe_network.Node.Env.{Node, Env}
use safe_network.Node.Get.{get_spend_from_network}
use safe_network.Node.Fees.{verify_fee_output_id}

module _ {d : Deps} {b : Ledger} (n : Node d b) (env : Env d b) where
  open b use {SignedSpend, DbcId, spend_ord as o}

  unfoldable pub register_key : RegisterAddress d → Bytes
  unfolding to_record_key
  register_key a = to_record_key {b = b} n.names (register_address a)

  -- The end of `register_validation`: merge with the local register and compare.
  unfoldable pub merge_with_local :
      SignedRegister d → SignedRegister d → Outcome (Error d b) (Option (SignedRegister d))
  unfolding Signed.verified_merge
  merge_with_local local_register reg = do
    merged_register ← map_err register_error (Signed.verified_merge n.codec local_register reg)
    if test (n.signed_eq merged_register local_register) then ok none else ok (some merged_register)

  unfoldable pub register_validation :
      SignedRegister d → Bool → Outcome (Error d b) (Option (SignedRegister d))
  unfolding merge_with_local register_key try_deserialize_record Signed.verify
  register_validation reg present_locally =
      let reg_addr = address reg.base_register in
      (do
        map_err (λ _. register_invalid reg_addr) (Signed.verify n.codec reg)
        if not present_locally then ok (some reg) else (do
          maybe_record ←
              map_err (λ _. register_not_stored reg_addr)
                (env.get_local_record (register_key reg_addr))
          found ← ok_or maybe_record (register_not_stored reg_addr)
          local_register ← try_deserialize_record n.header n.registers found
          merge_with_local local_register reg))

  -- `if let Ok(spend) = get_spend_from_network(..)`: any error counts as no spend; a panic is none.
  unfoldable pub network_spends :
      Outcome (Error d b) SignedSpend → Outcome (Error d b) (List SignedSpend)
  network_spends (ok spend) = ok (spend ∷ [])
  network_spends (err panicked) = err panicked
  network_spends (err e) = ok []

  -- The loop over the inputs of the parent transaction; the parents are a `BTreeSet`.
  unfoldable pub get_parents :
      List DbcId → List SignedSpend → Outcome (Error d b) (List SignedSpend)
  unfolding get_spend_from_network from_dbc_id
  get_parents [] parent_spends = ok parent_spends
  get_parents (id ∷ ids) parent_spends = do
    parent ← get_spend_from_network n env (from_dbc_id n.names id) true
    get_parents ids (SortedSet.insert o parent parent_spends)

  -- The case of one spend.
  unfoldable pub single_spend_validation :
      SignedSpend → DbcId → Outcome (Error d b) (List SignedSpend)
  unfolding verify_fee_output_id get_parents check_parent_spends network_spends aggregate_spends
  single_spend_validation signed_spend dbc_id = do
    if b.verify signed_spend (b.spent_tx_hash signed_spend)
        then ok tt
        else err spend_signature_invalid
    verify_fee_output_id (b.spent_tx signed_spend) false
    parent_spends ←
        if is_genesis_spend b signed_spend
        then ok []
        else get_parents (b.inputs (b.dbc_creation_tx signed_spend)) []
    check_parent_spends b parent_spends signed_spend
    spends ← network_spends (get_spend_from_network n env (from_dbc_id n.names dbc_id) false)
    ok (aggregate_spends b (spends ++ signed_spend ∷ []) dbc_id)

  -- The `match` on the number of spends.
  unfoldable pub validate_by_count :
      List SignedSpend → DbcId → Outcome (Error d b) (List SignedSpend)
  unfolding single_spend_validation
  validate_by_count [] dbc_id = err spend_not_stored
  validate_by_count (signed_spend ∷ []) dbc_id = single_spend_validation signed_spend dbc_id
  validate_by_count (s ∷ t ∷ spends) dbc_id = ok (aggregate_spends b (s ∷ t ∷ spends) dbc_id)

  -- `matches!(local_header.kind, RecordKind::DbcSpend)`
  unfoldable pub expect_spends : RecordKind → Outcome (Error d b) Unit
  expect_spends dbc_spend = ok tt
  expect_spends _ = err (record_kind_mismatch dbc_spend)

  -- The spends of the local record.
  unfoldable pub local_spends : DbcId → Outcome (Error d b) (List SignedSpend)
  unfolding from_record try_deserialize_record to_record_key from_dbc_id expect_spends
  local_spends dbc_id =
      let dbc_addr = from_dbc_id n.names dbc_id in
      (do
        maybe_record ←
            map_err (λ _. spend_not_stored)
              (env.get_local_record (to_record_key n.names (dbc_address dbc_addr)))
        found ← ok_or maybe_record (spend_not_found dbc_addr)
        kind ← from_record n.header found
        expect_spends kind
        try_deserialize_record n.header n.spends found)

  -- The spends that are not among the local ones, as a `HashSet`.
  unfoldable pub newly_seen_spends : List SignedSpend → List SignedSpend → List SignedSpend
  newly_seen_spends signed_spends local =
      SortedSet.collect o (filter (λ s. not (SortedSet.contains o s local)) signed_spends)

  unfoldable pub validate_new :
      List SignedSpend → List SignedSpend → DbcId → Outcome (Error d b) (Option (List SignedSpend))
  unfolding validate_by_count
  validate_new [] local dbc_id = ok none
  validate_new (s ∷ newly) local dbc_id = do
    spends ← validate_by_count (local ++ s ∷ newly) dbc_id
    ok (some spends)

  unfoldable pub signed_spend_validation :
      List SignedSpend → DbcId → Bool → Outcome (Error d b) (Option (List SignedSpend))
  unfolding validate_by_count local_spends newly_seen_spends validate_new
  signed_spend_validation signed_spends dbc_id present_locally =
      if present_locally
      then (do
        local ← local_spends dbc_id
        validate_new (newly_seen_spends signed_spends local) local dbc_id)
      else (do spends ← validate_by_count signed_spends dbc_id; ok (some spends))
