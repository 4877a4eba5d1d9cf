-- ===== src/Node/Fees.antt =====
-- sn_node/src/put_validation.rs: the checks of the fee output and of a chunk's payment.
pub mod Sound
pub mod Binds
use safe_network.Base.{
  ℕ, ◌+◌, ◌*◌, ◌%◌, ◌^◌, List, [], ◌∷◌, ◌++◌, Option, none, some, Bool, true, false, not, map, test,
  ltb, if◌then◌else◌,
}
use mathlib.Core.List.{flatten}
use safe_network.Base.Outcome.{Outcome, ok, err, map_err, ◌>>=◌, ◌>>◌}
use safe_network.Registers.Deps.{Deps, Bytes}
use safe_network.Protocol.Ledger.{Ledger}
use safe_network.Protocol.Storage.{
  Error, PaymentProof, ChunkWithPayment, panicked, payment_proof_invalid_fee_output,
  invalid_payment_proof, payment_proof_insufficient_amount, chunk_not_stored,
  payment_proof_tx_mismatch, payment_proof_without_inputs,
}
use safe_network.Protocol.Names.{from_dbc_id}
use safe_network.Payments.{validate_payment_proof}
use safe_network.Node.Env.{Node, Env}
use safe_network.Node.Get.{get_spend_from_network}

module _ (b : Ledger) where
  -- `root_hash` and then the bytes of each input's id
  unfoldable pub fee_id_bytes : b.DbcTransaction → Bytes
  fee_id_bytes tx = b.hash_slice (b.fee_root_hash tx) ++ flatten (map b.id_bytes (b.inputs tx))

module _ {d : Deps} {b : Ledger} where
  unfoldable pub verify_fee_output_id : b.DbcTransaction → Bool → Outcome (Error d b) Unit
  unfolding fee_id_bytes
  verify_fee_output_id tx required =
      if b.fee_is_free tx
      then if required then err (payment_proof_invalid_fee_output (b.fee_id tx)) else ok tt
      else if test (b.hash_eq (b.fee_id tx) (b.hash (fee_id_bytes b tx)))
      then ok tt
      else err (payment_proof_invalid_fee_output (b.fee_id tx))

-- `acceptable_fee.as_nano() * (leaf_index as u64 + 1)` on `u64`
abbrev pub expected_fee : ℕ → ℕ → ℕ
expected_fee acceptable_fee leaf_index = acceptable_fee * ((leaf_index + 1) % 2 ^ 64) % 2 ^ 64

module _ {d : Deps} {b : Ledger} (n : Node d b) where
  unfoldable pub verify_fee_output_and_proof :
      d.XorName → ℕ → b.DbcTransaction → List Bytes → List ℕ → Outcome (Error d b) Unit
  unfolding verify_fee_output_id validate_payment_proof
  verify_fee_output_and_proof addr_name acceptable_fee tx audit_trail path = do
    verify_fee_output_id tx true
    leaf_index ←
        map_err (λ _. invalid_payment_proof addr_name)
          (validate_payment_proof n.merkle addr_name (b.fee_root_hash tx) audit_trail path)
    if ltb (b.fee_token tx) (expected_fee acceptable_fee leaf_index)
        then err (
            payment_proof_insufficient_amount (b.fee_token tx)
              (expected_fee acceptable_fee leaf_index))
        else ok tt

  module _ (env : Env d b) where
    -- The task for one spent id; the error of a task that panicked is `chunk_not_stored`.
    unfoldable pub spent_tx_task : b.DbcId → Outcome (Error d b) b.DbcTransaction
    unfolding get_spend_from_network from_dbc_id
    spent_tx_task id = do
      spend ← get_spend_from_network n env (from_dbc_id n.names id) true
      ok (b.spent_tx spend)

    -- The result of `join_next`, with `?` applied twice.
    abbrev pub joined :
        d.XorName → Outcome (Error d b) b.DbcTransaction → Outcome (Error d b) b.DbcTransaction
    joined name (ok tx) = ok tx
    joined name (err panicked) = err (chunk_not_stored name)
    joined name (err e) = err e

    -- The loop over the results.
    unfoldable pub common_tx :
        d.XorName
        → Option b.DbcTransaction
        → List (Outcome (Error d b) b.DbcTransaction)
        → Outcome (Error d b) (Option b.DbcTransaction)
    common_tx name payment_tx [] = ok payment_tx
    common_tx name none (r ∷ rs) = do tx ← joined name r; common_tx name (some tx) rs
    common_tx name (some tx) (r ∷ rs) = do
      spent_tx ← joined name r
      if test (b.tx_eq spent_tx tx) then ok tt else err (payment_proof_tx_mismatch name)
      common_tx name (some tx) rs

    -- The handling of the verdict: with `validate_payment_amount` unset an insufficient amount passes.
    unfoldable pub waive_amount : Bool → Outcome (Error d b) Unit → Outcome (Error d b) Unit
    waive_amount validate_payment_amount (ok u) = ok tt
    waive_amount validate_payment_amount (err (payment_proof_insufficient_amount paid expected)) =
        if not validate_payment_amount
        then ok tt
        else err (payment_proof_insufficient_amount paid expected)
    waive_amount validate_payment_amount (err e) = err e

    unfoldable pub check_payment_tx :
        d.XorName → PaymentProof d b → Bool → Option b.DbcTransaction → Outcome (Error d b) Unit
    unfolding verify_fee_output_and_proof waive_amount
    check_payment_tx name payment validate_payment_amount none =
        err (payment_proof_without_inputs name)
    check_payment_tx name payment validate_payment_amount (some tx) = do
      acceptable_fee ← map_err (λ _. chunk_not_stored name) env.get_local_storecost
      waive_amount validate_payment_amount
          (verify_fee_output_and_proof name acceptable_fee tx payment.audit_trail payment.path)

    unfoldable pub chunk_payment_validation : ChunkWithPayment d b → Bool → Outcome (Error d b) Unit
    unfolding spent_tx_task common_tx check_payment_tx
    chunk_payment_validation c validate_payment_amount =
        let name = c.chunk.address.xorname in
        (do
          payment_tx ← common_tx name none (env.join_order (map spent_tx_task c.payment.spent_ids))
          check_payment_tx name c.payment validate_payment_amount payment_tx)
