-- ===== src/Node/Tests.antt =====
-- The theorems on the handlers, at a node that holds nothing and receives a double spend.
use safe_network.Base.{ℕ, List, [], ◌∷◌, none, some, true, false, ◌≡◌, refl, arith, length}
use mathlib.Core.List.{flatten}
use safe_network.Base.Outcome.{ok}
use safe_network.Base.SortedSet.{contains, insert, extend}
use safe_network.Registers.Model.{Register, RegisterOp, SignedRegister, anyone}
use safe_network.Registers.Signed.{verify, verified_merge}
use safe_network.Registers.Crdt.{everyone_can_write}
use safe_network.Registers.Register.{check_register_op}
use safe_network.Samples.{deps, ledger, node, env}
use safe_network.Protocol.Header.{Record}
use safe_network.Payments.{validate_payment_proof, leaf_index}
use safe_network.Spends.{is_valid, aggregate_spends}
use safe_network.Protocol.Storage.{stored_successfully}
use safe_network.Node.Fees.{fee_id_bytes, verify_fee_output_id, verify_fee_output_and_proof}
use safe_network.Node.Fees.Binds.{IsEncoding, SharesTree, verify_fee_output_and_proof-SharesTree}
use safe_network.Node.Put.Spend.{signed_spend_validation, validate_by_count, merge_with_local}
use safe_network.Node.Put.Handlers.{notify, validate_and_store_record}
use safe_network.Node.Put.Effects.{Under, validate_and_store_record-Under}
use safe_network.Node.Put.Validated.{
  Storable, signed_spend_validation-Storable, signed_spend_validation-detects,
  signed_spend_validation-invalid, Replaces, merge_with_local_sound,
}

abbrev double_spend : Record
double_spend = record { key = 1 ∷ []; value = 1 ∷ 0 ∷ 7 ∷ 3 ∷ 7 ∷ 2 ∷ [] }

validate_and_store_record-Under_example :
    Under (1 ∷ []) (validate_and_store_record node env double_spend true)
validate_and_store_record-Under_example = validate_and_store_record-Under node env double_spend true

abbrev tx : List ℕ
tx = 5 ∷ 6 ∷ []

ledger-IsEncoding : IsEncoding ledger
ledger-IsEncoding = record {
  id_width = 0;
  id_length = λ id. refl;
  id_inj = λ x y h. ground arith;
  slice_width = 1;
  slice_length = λ h. refl;
  slice_inj = λ x y h. ground arith;
}

passes_at_two : verify_fee_output_and_proof node 0 10 tx [] (0 ∷ 1 ∷ []) ≡ ok tt
passes_at_two =
    unfold verify_fee_output_and_proof verify_fee_output_id validate_payment_proof fee_id_bytes
      leaf_index flatten in
    refl

passes_at_one : verify_fee_output_and_proof node 0 20 tx [] (1 ∷ 0 ∷ []) ≡ ok tt
passes_at_one =
    unfold verify_fee_output_and_proof verify_fee_output_id validate_payment_proof fee_id_bytes
      leaf_index flatten in
    refl

-- Two proofs, at the indices 2 and 1, with one fee output of 1000.
verify_fee_output_and_proof-SharesTree_example :
    SharesTree node 0 10 tx [] (0 ∷ 1 ∷ []) 0 20 tx [] (1 ∷ 0 ∷ [])
verify_fee_output_and_proof-SharesTree_example =
    verify_fee_output_and_proof-SharesTree node 0 10 tx [] (0 ∷ 1 ∷ []) 0 20 tx [] (1 ∷ 0 ∷ [])
      ledger-IsEncoding (λ h. refl) (omega arith, (omega arith, tt)) (omega arith) (omega arith)
      (omega arith, (omega arith, tt)) (omega arith) (omega arith) passes_at_two passes_at_one refl

abbrev pair : List (ℕ × ℕ)
pair = (7, 3) ∷ (7, 2) ∷ []

signed_spend_validation-Storable_example : Storable node env 7 (aggregate_spends ledger pair 7)
signed_spend_validation-Storable_example =
    signed_spend_validation-Storable node env pair 7 false (aggregate_spends ledger pair 7)
      (unfold signed_spend_validation validate_by_count in refl)

signed_spend_validation-detects_example :
    (spends : List (ℕ × ℕ)) × (signed_spend_validation node env pair 7 false ≡ ok (some spends))
    × (length spends ≡ 2)
signed_spend_validation-detects_example =
    signed_spend_validation-detects node env pair 7 (7, 2) (7, 3) (λ e. ground arith)
      (unfold is_valid in refl) (unfold is_valid in refl) (unfold contains in refl)
      (unfold contains in refl)

signed_spend_validation-invalid_example :
    (signed_spend_validation node env pair 9 false ≡ ok (some []))
    × (notify node env [] ≡ ok stored_successfully)
signed_spend_validation-invalid_example =
    signed_spend_validation-invalid node env (7, 3) (7, 2) [] 9
      (unfold is_valid in refl, (unfold is_valid in refl, tt))

abbrev open_register : Register deps
open_register = record {
  crdt = record { address = record { meta = 7; owner = 1 }; merkle = [] };
  permissions = record { writers = anyone ∷ [] };
}

abbrev op : RegisterOp deps
op = record {
  address = record { meta = 7; owner = 1 };
  crdt_op = 5;
  source = anyone;
  signature = none;
}

abbrev signed : List (RegisterOp deps) → SignedRegister deps
signed ops = record { base_register = open_register; signature = 1; ops = ops }

merge_with_local_sound_example : Replaces node env (signed []) (signed (op ∷ [])) (signed (op ∷ []))
merge_with_local_sound_example =
    merge_with_local_sound node env (signed []) (signed (op ∷ [])) (signed (op ∷ [])) (
      unfold merge_with_local verified_merge verify check_register_op everyone_can_write contains
        extend insert in
      refl)
